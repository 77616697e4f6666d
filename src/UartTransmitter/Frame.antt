-- ===== src/UartTransmitter/Frame.antt =====
-- uart_tx.py: the waveform of a byte.
use cdcl_sat_solver.Base.{
  ℕ, zero, suc, ◌+◌, ◌-◌, ◌/◌, ◌<◌, ◌≡◌, refl, ap, ap₂, ◌∙◌, Bool, true, false, ◌==◌, bit_at,
  low_bits, List, [], ◌∷◌, ◌++◌, length, replicate, arith,
}
use cdcl_sat_solver.UartTransmitter.{
  Fsm, Inputs, State, idle, start, data_bits, stop, outputs, step, boundary,
}

unfoldable pub run : ℕ → State → List Inputs → State
run divisor s [] = s
run divisor s (i ∷ is) = run divisor (step divisor s i) is

-- The level of the line, and whether a byte is accepted, in each cycle.
unfoldable pub line : ℕ → State → List Inputs → List (Bool × Bool)
line divisor s [] = []
line divisor s (i ∷ is) =
    ((outputs s).tx_pin, (outputs s).tx_ready) ∷ line divisor (step divisor s i) is

-- The low bits of a number, the lowest first, before the bits that follow.
abbrev pub bits : ℕ → ℕ → List Bool → List Bool
bits zero x bs = bs
bits (suc n) x bs = bit_at 0 x ∷ bits n (x / 2) bs

-- Start bit, data bits, stop bit.
abbrev pub frame : ℕ → List Bool
frame x = false ∷ bits 8 x (true ∷ [])

-- The states that a timer ends.
data Busy : Fsm → Type 0 where
  starting : Busy start
  sending : Busy data_bits
  stopping : Busy stop

-- The level of the line in a state; only an idle transmitter accepts a byte.
abbrev pub shows : State → Bool × Bool
shows s = ((outputs s).tx_pin, (outputs s).tx_ready)

abbrev pub timing : State → Fsm → ℕ → State
timing s f t = record s { fsm = f; bit_timer = t }

not_zero : (t : ℕ) → (suc t == 0) ≡ false
not_zero t = ground arith

pred_suc : (t : ℕ) → suc t - 1 ≡ t
pred_suc t = omega arith

counts_down :
    (d t : ℕ) (f : Fsm) (s : State) (i : Inputs)
    → Busy f
    → step d (timing s f (suc t)) i ≡ timing s f t
unfolding step
counts_down d t f s i starting = rw (not_zero t, pred_suc t) refl
counts_down d t f s i sending = rw (not_zero t, pred_suc t) refl
counts_down d t f s i stopping = rw (not_zero t, pred_suc t) refl

turns :
    (d : ℕ) (f : Fsm) (s : State) (i : Inputs)
    → Busy f
    → step d (timing s f 0) i ≡ boundary d f (timing s f 0)
unfolding step
turns d f s i starting = refl
turns d f s i sending = refl
turns d f s i stopping = refl

one_level : (f : Fsm) (s : State) (t : ℕ) → Busy f → shows (timing s f t) ≡ shows (timing s f 0)
unfolding outputs
one_level f s t starting = refl
one_level f s t sending = refl
one_level f s t stopping = refl

-- One bit: t + 1 cycles at one level, then the boundary.
one_bit :
    (d t : ℕ) (f : Fsm) (s : State) (is rest : List Inputs)
    → Busy f
    → length is ≡ suc t
    → line d (timing s f t) (is ++ rest)
      ≡ replicate (suc t) (shows (timing s f 0)) ++ line d (boundary d f (timing s f 0)) rest
unfolding line
one_bit d t f s [] rest b e = absurd (omega (arith, e))
one_bit d zero f s (i ∷ []) rest b e =
    ap (λ x. shows (timing s f 0) ∷ line d x rest) (turns d f s i b)
one_bit d zero f s (i ∷ j ∷ is) rest b e = absurd (omega (arith, e))
one_bit d (suc t) f s (i ∷ is) rest b e = ap₂ ◌∷◌ (one_level f s (suc t) b) (
    ap (λ x. line d x (is ++ rest)) (counts_down d t f s i b)
    ∙ one_bit d t f s is rest b (omega (arith, e)))

-- Cycles, grouped in bit periods, before the cycles that follow.
abbrev pub periods : List (List Inputs) → List Inputs → List Inputs
periods [] rest = rest
periods (p ∷ ps) rest = p ++ periods ps rest

-- Each period has d cycles.
abbrev pub Last : ℕ → List (List Inputs) → Type 0
Last d [] = Unit
Last d (p ∷ ps) = (length p ≡ d) × Last d ps

-- Each bit for d cycles, in which no byte is accepted.
abbrev pub spread : ℕ → List Bool → List (Bool × Bool) → List (Bool × Bool)
spread d [] rest = rest
spread d (b ∷ bs) rest = replicate d (b, false) ++ spread d bs rest

abbrev pub shifted : ℕ → ℕ → ℕ
shifted zero x = x
shifted (suc n) x = shifted n (x / 2)

-- DATA at the start of bit c, with the bits to come in x; STOP; and IDLE after a byte.
abbrev at_bit : State → ℕ → ℕ → ℕ → State
at_bit s t c x = record s { fsm = data_bits; bit_timer = t; bit_count = c; shift_reg = x }

abbrev at_stop : State → ℕ → ℕ → State
at_stop s t x = record s { fsm = stop; bit_timer = t; bit_count = 8; shift_reg = x }

abbrev pub ended : ℕ → State
ended x = record { fsm = idle; bit_timer = 0; bit_count = 8; shift_reg = x }

not_seven : (c : ℕ) → c < 7 → (c == 7) ≡ false
not_seven c lt = ground arith

count_up : (c : ℕ) → c < 7 → low_bits 4 (c + 1) ≡ c + 1
count_up c lt = omega arith

next_bit :
    (t c x : ℕ) (s : State)
    → c < 7
    → boundary (suc t) data_bits (at_bit s 0 c x) ≡ at_bit s t (c + 1) (x / 2)
next_bit t c x s lt = rw (not_seven c lt, count_up c lt, pred_suc t) refl

last_bit : (t x : ℕ) (s : State) → boundary (suc t) data_bits (at_bit s 0 7 x) ≡ at_stop s t (x / 2)
last_bit t x s = rw (pred_suc t) refl

sends_stop :
    (t x : ℕ) (s : State) (p rest : List Inputs)
    → length p ≡ suc t
    → line (suc t) (at_stop s t x) (p ++ rest)
      ≡ spread (suc t) (true ∷ []) (line (suc t) (ended x) rest)
unfolding outputs
sends_stop t x s p rest l = one_bit (suc t) t stop (at_stop s t x) p rest stopping l

sends_bit :
    (t c x : ℕ) (s : State) (p rest : List Inputs)
    → length p ≡ suc t
    → line (suc t) (at_bit s t c x) (p ++ rest)
      ≡ replicate (suc t) (bit_at 0 x, false)
        ++ line (suc t) (boundary (suc t) data_bits (at_bit s 0 c x)) rest
unfolding outputs
sends_bit t c x s p rest l = one_bit (suc t) t data_bits (at_bit s t c x) p rest sending l

seventh : (c : ℕ) → c + 0 ≡ 7 → c ≡ 7
seventh c k = omega (arith, k)

sends_bits :
    (t c n x : ℕ) (s : State) (ps : List (List Inputs)) (rest : List Inputs)
    → Last (suc t) ps
    → length ps ≡ n + 2
    → c + n ≡ 7
    → line (suc t) (at_bit s t c x) (periods ps rest)
      ≡ spread (suc t) (bits (suc n) x (true ∷ [])) (line (suc t) (ended (shifted (suc n) x)) rest)
sends_bits t c zero x s (p ∷ q ∷ []) rest l e k =
    sends_bit t c x s p (q ++ rest) l.0
    ∙ ap (λ r. replicate (suc t) (bit_at 0 x, false) ++ r)
        (ap (λ v. line (suc t) (boundary (suc t) data_bits (at_bit s 0 v x)) (q ++ rest))
            (seventh c k)
          ∙ ap (λ u. line (suc t) u (q ++ rest)) (last_bit t x s)
          ∙ sends_stop t (x / 2) s q rest l.1.0)
sends_bits t c (suc n) x s (p ∷ ps) rest l e k =
    sends_bit t c x s p (periods ps rest) l.0
    ∙ ap (λ r. replicate (suc t) (bit_at 0 x, false) ++ r)
        (ap (λ u. line (suc t) u (periods ps rest)) (next_bit t c x s (omega (arith, k)))
          ∙ sends_bits t (c + 1) n (x / 2) s ps rest l.1 (omega (arith, e)) (omega (arith, k)))
sends_bits t c n x s ps rest l e k = absurd (omega (arith, e))

pub idle_shows : (s : State) → s.fsm ≡ idle → shows s ≡ (true, true)
unfolding outputs
idle_shows s f = rw f refl

accepts :
    (t : ℕ) (s : State) (i : Inputs)
    → s.fsm ≡ idle
    → i.tx_valid ≡ true
    → step (suc t) s i ≡ timing (at_bit s t 0 i.tx_data) start t
unfolding step
accepts t s i f v = rw (f, v, pred_suc t) refl

first_bit :
    (t x : ℕ) (s : State)
    → boundary (suc t) start (timing (at_bit s t 0 x) start 0) ≡ at_bit s t 0 x
first_bit t x s = rw (pred_suc t) refl

-- An idle transmitter that is given a byte shows the line idle and accepts it, then keeps each bit
-- of its frame on the line for `divisor` cycles and accepts nothing, whatever its inputs, and is
-- idle again.
pub transmits :
    (t : ℕ) (s : State) (i : Inputs) (ps : List (List Inputs)) (rest : List Inputs)
    → s.fsm ≡ idle
    → i.tx_valid ≡ true
    → length ps ≡ 10
    → Last (suc t) ps
    → line (suc t) s (i ∷ periods ps rest)
      ≡ (true, true)
        ∷ spread (suc t) (frame i.tx_data) (line (suc t) (ended (shifted 8 i.tx_data)) rest)
unfolding line outputs
transmits t s i [] rest f v e l = absurd (omega (arith, e))
transmits t s i (p ∷ ps) rest f v e l =
    let x = i.tx_data in
    ap₂ ◌∷◌ (idle_shows s f) (
      ap (λ u. line (suc t) u (periods (p ∷ ps) rest)) (accepts t s i f v)
      ∙ one_bit (suc t) t start (at_bit s t 0 x) p (periods ps rest) starting l.0
      ∙ ap (λ r. replicate (suc t) (false, false) ++ r)
          (ap (λ u. line (suc t) u (periods ps rest)) (first_bit t x s)
            ∙ sends_bits t 0 7 x s ps rest l.1 (omega (arith, e)) refl))

pub stays_idle :
    (d : ℕ) (s : State) (i : Inputs) → s.fsm ≡ idle → i.tx_valid ≡ false → step d s i ≡ s
unfolding step
stays_idle d s i f v = rw (f, v) refl

-- Without a byte an idle transmitter stays as it is and keeps the line idle.
pub rests :
    (d : ℕ) (s : State) (i : Inputs) (rest : List Inputs)
    → s.fsm ≡ idle
    → i.tx_valid ≡ false
    → line d s (i ∷ rest) ≡ (true, true) ∷ line d s rest
unfolding line
rests d s i rest f v = ap₂ ◌∷◌ (idle_shows s f) (ap (λ u. line d u rest) (stays_idle d s i f v))
