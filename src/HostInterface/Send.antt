-- ===== src/HostInterface/Send.antt =====
-- host_interface.py, IMPL_CHECK, IMPL_SEND and DONE_SEND: what the accelerator reports goes out.
use cdcl_sat_solver.Base.{
  ℕ, ◌+◌, ◌/◌, ◌%◌, ◌<◌, ◌≡◌, refl, ap, ◌∙◌, Bool, true, false, if◌then◌else◌, List, [], ◌∷◌, ◌++◌,
  arith, bit, low_bits, Bool-cases, ◌&&◌, suc, zero, inl, inr, ◌==◌,
}
use cdcl_sat_solver.HostInterface.{
  Fsm, State, Inputs, cmd_wait, impl_check, impl_send, done_send, outputs, step, outputs_in,
  shift_out,
}
use cdcl_sat_solver.HostInterface.Receive.{run}

-- The bytes that the transmitter takes: those of the cycles in which it is ready.
unfoldable pub sent : State → List Inputs → List ℕ
sent s [] = []
sent s (i ∷ is) =
    let rest = sent (step s i) is in
    if (outputs s i).tx_valid && i.tx_ready then (outputs s i).tx_data ∷ rest else rest

-- How often the implication FIFO is told to pop.
unfoldable pub pops : State → List Inputs → ℕ
pops s [] = 0
pops s (i ∷ is) = bit (outputs s i).impl_ready + pops (step s i) is

unfoldable pub ready_cycles : List Inputs → ℕ
ready_cycles [] = 0
ready_cycles (i ∷ is) = bit i.tx_ready + ready_cycles is

-- The low bytes of a number.
abbrev pub low_bytes : ℕ → ℕ → List ℕ
low_bytes zero x = []
low_bytes (suc n) x = x % 256 ∷ low_bytes n (x / 256)

-- IMPL_SEND or DONE_SEND with n bytes to go.
abbrev pub sending : State → Fsm → ℕ → ℕ → State
sending s st n x = record s { fsm = st; tx_shift = x; tx_count = n }

-- The two senders, of an implication and of the end of a run, and what follows them.
abbrev pub sender : Bool → Fsm
sender true = impl_send
sender false = done_send

abbrev pub after : Bool → Fsm
after true = impl_check
after false = cmd_wait

abbrev pub shifted : ℕ → ℕ → ℕ
shifted zero x = x
shifted (suc n) x = shifted n (x / 256)

shows_byte :
    (s : State) (b : Bool) (n x : ℕ) (i : Inputs)
    → ((outputs (sending s (sender b) n x) i).tx_valid ≡ true)
      × ((outputs (sending s (sender b) n x) i).tx_data ≡ x % 256)
unfolding outputs outputs_in
shows_byte s true n x i = (refl, omega arith)
shows_byte s false n x i = (refl, omega arith)

waits :
    (s : State) (b : Bool) (n x : ℕ) (i : Inputs)
    → i.tx_ready ≡ false
    → step (sending s (sender b) n x) i ≡ sending s (sender b) n x
unfolding step shift_out
waits s true n x i r = rw r refl
waits s false n x i r = rw r refl

count_down : (n : ℕ) → n < 6 → low_bits 3 (suc (suc n) + 7) ≡ suc n
count_down n lt = omega arith

not_last : (n : ℕ) → (suc (suc n) == 1) ≡ false
not_last n = ground arith

shifts :
    (s : State) (b : Bool) (n x : ℕ) (i : Inputs)
    → i.tx_ready ≡ true
    → n < 6
    → step (sending s (sender b) (suc (suc n)) x) i ≡ sending s (sender b) (suc n) (x / 256)
unfolding step shift_out
shifts s true n x i r lt = rw (r, count_down n lt, not_last n) refl
shifts s false n x i r lt = rw (r, count_down n lt, not_last n) refl

ends_byte :
    (s : State) (b : Bool) (x : ℕ) (i : Inputs)
    → i.tx_ready ≡ true
    → step (sending s (sender b) 1 x) i ≡ sending s (after b) 0 (x / 256)
unfolding step shift_out
ends_byte s true x i r = rw r refl
ends_byte s false x i r = rw r refl

-- A sender pops the FIFO with the last byte of an implication only.
pops_none :
    (s : State) (b : Bool) (n x : ℕ) (i : Inputs)
    → (outputs (sending s (sender b) (suc (suc n)) x) i).impl_ready ≡ false
unfolding outputs outputs_in
pops_none s true n x i = ground (arith, not_last n)
pops_none s false n x i = refl

pops_waiting :
    (s : State) (b : Bool) (n x : ℕ) (i : Inputs)
    → i.tx_ready ≡ false
    → (outputs (sending s (sender b) n x) i).impl_ready ≡ false
unfolding outputs outputs_in
pops_waiting s true n x i r = rw r refl
pops_waiting s false n x i r = refl

pops_last :
    (s : State) (b : Bool) (x : ℕ) (i : Inputs)
    → i.tx_ready ≡ true
    → (outputs (sending s (sender b) 1 x) i).impl_ready ≡ b
unfolding outputs outputs_in
pops_last s true x i r = rw r refl
pops_last s false x i r = refl

sent-ready :
    (s : State) (b : Bool) (n x : ℕ) (i : Inputs) (is : List Inputs)
    → i.tx_ready ≡ true
    → sent (sending s (sender b) n x) (i ∷ is)
      ≡ x % 256 ∷ sent (step (sending s (sender b) n x) i) is
unfolding sent
sent-ready s b n x i is r = rw ((shows_byte s b n x i).0, (shows_byte s b n x i).1, r) refl

sent-waiting :
    (s : State) (b : Bool) (n x : ℕ) (i : Inputs) (is : List Inputs)
    → i.tx_ready ≡ false
    → sent (sending s (sender b) n x) (i ∷ is) ≡ sent (step (sending s (sender b) n x) i) is
unfolding sent
sent-waiting s b n x i is r = rw ((shows_byte s b n x i).0, r) refl

-- What a sender has done after some cycles: the bytes it sent, where it is, and its pops.
abbrev pub SendsAll : State → Bool → ℕ → ℕ → List Inputs → Type 0
SendsAll s b n x is =
    (sent (sending s (sender b) n x) is ≡ low_bytes n x)
    × (run (sending s (sender b) n x) is ≡ sending s (after b) 0 (shifted n x))
    × (pops (sending s (sender b) n x) is ≡ bit b)

sends_last :
    (s : State) (b : Bool) (x : ℕ) (i : Inputs) → i.tx_ready ≡ true → SendsAll s b 1 x (i ∷ [])
unfolding run pops sent
sends_last s b x i r =
    (sent-ready s b 1 x i [] r, ends_byte s b x i r, rw (pops_last s b x i r) (omega arith))

sends_byte :
    (s : State) (b : Bool) (n x : ℕ) (i : Inputs) (is : List Inputs)
    → i.tx_ready ≡ true
    → n < 6
    → SendsAll s b (suc n) (x / 256) is
    → SendsAll s b (suc (suc n)) x (i ∷ is)
unfolding run pops
sends_byte s b n x i is r lt h = (
  sent-ready s b (suc (suc n)) x i is r
      ∙ ap (λ t. x % 256 ∷ sent t is) (shifts s b n x i r lt)
      ∙ ap (λ bs. x % 256 ∷ bs) h.0,
  ap (λ t. run t is) (shifts s b n x i r lt) ∙ h.1,
  rw (pops_none s b n x i, shifts s b n x i r lt, h.2) (omega arith),
)

sends_nothing :
    (s : State) (b : Bool) (n x : ℕ) (i : Inputs) (is : List Inputs)
    → i.tx_ready ≡ false
    → SendsAll s b n x is
    → SendsAll s b n x (i ∷ is)
unfolding run pops
sends_nothing s b n x i is r h = (
  sent-waiting s b n x i is r ∙ ap (λ t. sent t is) (waits s b n x i r) ∙ h.0,
  ap (λ t. run t is) (waits s b n x i r) ∙ h.1,
  rw (pops_waiting s b n x i r, waits s b n x i r, h.2) (omega arith),
)

none_ready : (i : Inputs) (is : List Inputs) → ready_cycles (i ∷ is) ≡ 0 → i.tx_ready ≡ false
unfolding ready_cycles
none_ready i is e = ground arith

after_ready :
    (i : Inputs) (is : List Inputs) (n : ℕ)
    → i.tx_ready ≡ true
    → ready_cycles (i ∷ is) ≡ suc n
    → ready_cycles is ≡ n
unfolding ready_cycles
after_ready i is n r e = ground arith

after_waiting :
    (i : Inputs) (is : List Inputs) (n : ℕ)
    → i.tx_ready ≡ false
    → ready_cycles (i ∷ is) ≡ n
    → ready_cycles is ≡ n
unfolding ready_cycles
after_waiting i is n r e = ground arith

pub sends :
    (s : State) (b : Bool) (n x : ℕ) (is : List Inputs) (last : Inputs)
    → last.tx_ready ≡ true
    → ready_cycles is ≡ n
    → n < 6
    → SendsAll s b (suc n) x (is ++ last ∷ [])
unfolding ready_cycles
sends s b zero x [] last r e lt = sends_last s b x last r
sends s b (suc n) x [] last r e lt = ground (arith, e)
sends s b zero x (i ∷ is) last r e lt =
    sends_nothing s b 1 x i (is ++ last ∷ []) (none_ready i is e)
      (sends s b zero x is last r (after_waiting i is 0 (none_ready i is e) e) lt)
sends s b (suc n) x (i ∷ is) last r e lt = elim (Bool-cases i.tx_ready) [
  | inl v ↦
      sends_byte s b n x i (is ++ last ∷ []) v (omega arith)
        (sends s b n (x / 256) is last r (after_ready i is n v e) (omega arith))
  | inr v ↦
      sends_nothing s b (suc (suc n)) x i (is ++ last ∷ []) v
        (sends s b (suc n) x is last r (after_waiting i is (suc n) v e) lt)
]
