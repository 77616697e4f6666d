-- ===== src/UartReceiver/Blocks.antt =====
-- uart_tx.py at the divisor 12: any run from IDLE to IDLE is a sequence of rests and frames.
use cdcl_sat_solver.Base.{
  ℕ, zero, suc, ◌+◌, ◌-◌, ◌*◌, ◌≤◌, ◌<◌, ◌≡◌, refl, ap, ◌∙◌, false, ◌==◌, ◌&&◌, if◌then◌else◌, List,
  [], ◌∷◌, ◌++◌, length, length-append, arith, Bool-cases, inl, inr,
}
use mathlib.Core.List.{append_assoc}
use cdcl_sat_solver.UartTransmitter.{
  Fsm, Inputs, State, idle, start, data_bits, stop, outputs, step,
}
use cdcl_sat_solver.UartTransmitter.Frame.{run, periods, Last}

-- The bytes that a transmitter accepts.
unfoldable pub accepted : State → List Inputs → List ℕ
accepted u [] = []
accepted u (i ∷ is) =
    let rest = accepted (step 12 u i) is in
    if i.tx_valid && (outputs u).tx_ready then i.tx_data ∷ rest else rest

abbrev pub at : Fsm → ℕ → ℕ → ℕ → State
at f t c x = record { fsm = f; bit_timer = t; bit_count = c; shift_reg = x }

-- How many cycles of a frame are left.
abbrev pub left_in : Fsm → ℕ → ℕ → ℕ
left_in idle t c = 0
left_in start t c = t + 109
left_in data_bits t c = t + 1 + 12 * (8 - c)
left_in stop t c = t + 1

abbrev pub left : State → ℕ
left u = left_in u.fsm u.bit_timer u.bit_count

abbrev pub FitsIn : Fsm → ℕ → ℕ → Type 0
FitsIn idle t c = Unit
FitsIn start t c = (t < 12) × (c ≡ 0)
FitsIn data_bits t c = (t < 12) × (c < 8)
FitsIn stop t c = t < 12

abbrev pub Fits : State → Type 0
Fits u = FitsIn u.fsm u.bit_timer u.bit_count

-- A cycle of a frame: no byte is accepted, and one cycle less is left.
abbrev Goes : State → Inputs → Type 0
Goes u i = ((outputs u).tx_ready ≡ false) × Fits (step 12 u i) × (left (step 12 u i) + 1 ≡ left u)

not_zero : (t : ℕ) → (suc t == 0) ≡ false
not_zero t = ground arith

pred_suc : (t : ℕ) → suc t - 1 ≡ t
pred_suc t = omega arith

Goes-start : (t c x : ℕ) (i : Inputs) → t < 12 → c ≡ 0 → Goes (at start t c x) i
unfolding step outputs
Goes-start zero c x i lt e = (refl, (omega arith, omega (arith, e)), omega (arith, e))
Goes-start (suc t) c x i lt e =
    rw (not_zero t, pred_suc t) (refl, (omega (arith, lt), e), omega arith)

Goes-stop : (t c x : ℕ) (i : Inputs) → t < 12 → Goes (at stop t c x) i
unfolding step outputs
Goes-stop zero c x i lt = (refl, tt, refl)
Goes-stop (suc t) c x i lt = rw (not_zero t, pred_suc t) (refl, omega (arith, lt), omega arith)

Goes-data_bits : (t c x : ℕ) (i : Inputs) → t < 12 → c < 8 → Goes (at data_bits t c x) i
unfolding step outputs
Goes-data_bits zero c x i lt le = elim (Bool-cases (c == 7)) [
  | inl y ↦ rw y (refl, omega arith, ground (arith, y))
  | inr n ↦ rw n (refl, (omega arith, ground (arith, n)), ground (arith, n))
]
Goes-data_bits (suc t) c x i lt le =
    rw (not_zero t, pred_suc t) (refl, (omega (arith, lt), le), omega arith)

goes :
    (f : Fsm) (t c x : ℕ) (i : Inputs) (n : ℕ)
    → FitsIn f t c
    → left_in f t c ≡ suc n
    → Goes (at f t c x) i
goes idle t c x i n h e = absurd (omega (arith, e))
goes start t c x i n h e = Goes-start t c x i h.0 h.1
goes data_bits t c x i n h e = Goes-data_bits t c x i h.0 h.1
goes stop t c x i n h e = Goes-stop t c x i h

ended-idle : (f : Fsm) (t c : ℕ) → left_in f t c ≡ 0 → f ≡ idle
ended-idle idle t c e = refl
ended-idle start t c e = absurd (omega (arith, e))
ended-idle data_bits t c e = absurd (omega (arith, e))
ended-idle stop t c e = absurd (omega (arith, e))

-- The rest of a frame, cycle by cycle, with what comes after it.
pub finishes :
    (u : State) (front rest : List Inputs)
    → Fits u
    → left u ≡ length front
    → (accepted u (front ++ rest) ≡ accepted (run 12 u front) rest)
      × (run 12 u (front ++ rest) ≡ run 12 (run 12 u front) rest)
      × ((run 12 u front).fsm ≡ idle)
unfolding accepted run
finishes u [] rest h e = (refl, refl, ended-idle u.fsm u.bit_timer u.bit_count e)
finishes u (i ∷ front) rest h e =
    let (r, f, l) = goes u.fsm u.bit_timer u.bit_count u.shift_reg i (length front) h e in
    let (a, b, c) = finishes (step 12 u i) front rest f (omega (arith, e, l)) in
    (refuses i (accepted (step 12 u i) (front ++ rest)) r ∙ a, b, c)
  where
    refuses :
        (i : Inputs) (bytes : List ℕ)
        → (outputs u).tx_ready ≡ false
        → (if i.tx_valid && (outputs u).tx_ready then i.tx_data ∷ bytes else bytes) ≡ bytes
    refuses i bytes r = ground (arith, r)

-- A frame that is cut short does not end in IDLE.
pub unfinished :
    (u : State) (is : List Inputs) → Fits u → length is < left u → (run 12 u is).fsm ≡ idle → ⊥
unfolding run
unfinished u [] h lt e = omega (arith, lt, ap (λ f. left_in f u.bit_timer u.bit_count) e)
unfinished u (i ∷ is) h lt e =
    let more : left u ≡ suc (left u - 1) = omega (arith, lt) in
    let (r, f, l) = goes u.fsm u.bit_timer u.bit_count u.shift_reg i (left u - 1) h more in
    unfinished (step 12 u i) is f (omega (arith, lt, l)) e

-- A list, cut at a place inside it.
pub record Cut (n : ℕ) (is : List Inputs) : Type 0 where
  pub front : List Inputs
  pub rest : List Inputs
  pub whole : is ≡ front ++ rest
  pub size : length front ≡ n

pub cut : (n : ℕ) (is : List Inputs) → n ≤ length is → Cut n is
cut zero is le = record { front = []; rest = is; whole = refl; size = refl }
cut (suc n) [] le = absurd (omega (arith, le))
cut (suc n) (i ∷ is) le =
    let c = cut n is (omega (arith, le)) in
    record {
      front = i ∷ c.front;
      rest = c.rest;
      whole = ap (λ l. i ∷ l) c.whole;
      size = omega (arith, c.size);
    }

-- Cycles in periods of 12.
pub record InPeriods (k : ℕ) (front rest : List Inputs) : Type 0 where
  pub parts : List (List Inputs)
  pub whole : front ++ rest ≡ periods parts rest
  pub count : length parts ≡ k
  pub sizes : Last 12 parts

pub in_periods : (k : ℕ) (front rest : List Inputs) → length front ≡ 12 * k → InPeriods k front rest
in_periods zero [] rest e = record { parts = []; whole = refl; count = refl; sizes = tt }
in_periods zero (i ∷ front) rest e = absurd (omega (arith, e))
in_periods (suc k) front rest e =
    let c = cut 12 front (omega (arith, e)) in
    let later : length c.rest ≡ 12 * k =
      omega (arith, e, ap length c.whole, length-append c.front c.rest, c.size) in
    let p = in_periods k c.rest rest later in
    record {
      parts = c.front ∷ p.parts;
      whole =
          ap (λ l. l ++ rest) c.whole
          ∙ append_assoc c.front c.rest rest
          ∙ ap (λ l. c.front ++ l) p.whole;
      count = omega (arith, p.count);
      sizes = (c.size, p.sizes);
    }
