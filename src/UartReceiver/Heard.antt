-- ===== src/UartReceiver/Heard.antt =====
-- uart_tx.py and uart_rx.py on one line at the divisor 12: all bytes of any run are heard.
use cdcl_sat_solver.Base.{
  ℕ, zero, suc, ◌≤◌, ◌<◌, ◌≡◌, refl, ap, sym, subst, ◌∙◌, true, false, ◌&&◌, leb, if◌then◌else◌,
  List, [], ◌∷◌, ◌++◌, length, length-append, map, arith, Bool-cases, inl, inr,
}
use cdcl_sat_solver.UartTransmitter.{Inputs, State, idle, start, outputs, step}
use cdcl_sat_solver.UartTransmitter.Frame.{run, line, periods, stays_idle}
use cdcl_sat_solver.UartReceiver.Samples.{received, listening}
use cdcl_sat_solver.UartReceiver.RoundTrip.{
  Block, rest_cycle, byte_cycles, cycles, Sound, bytes_in, pin, round_trip,
}
use cdcl_sat_solver.UartReceiver.Blocks.{accepted, at, cut, in_periods, finishes, unfinished}

-- Each number on the data port is a byte.
abbrev pub AllBytes : List Inputs → Type 0
AllBytes [] = Unit
AllBytes (i ∷ is) = (i.tx_data < 256) × AllBytes is

AllBytes-drop : (front rest : List Inputs) → AllBytes (front ++ rest) → AllBytes rest
AllBytes-drop [] rest h = h
AllBytes-drop (i ∷ front) rest h = AllBytes-drop front rest h.1

-- A run as rests and frames.
record Framed (u : State) (is : List Inputs) : Type 0 where
  pub blocks : List Block
  pub whole : is ≡ cycles blocks
  pub sound : Sound blocks
  pub same : accepted u is ≡ bytes_in blocks

begins :
    (u : State) (i : Inputs)
    → u.fsm ≡ idle
    → i.tx_valid ≡ true
    → step 12 u i ≡ at start 11 0 i.tx_data
unfolding step
begins u i f v = rw (f, v) refl

takes :
    (u : State) (i : Inputs) (is : List Inputs)
    → u.fsm ≡ idle
    → i.tx_valid ≡ true
    → accepted u (i ∷ is) ≡ i.tx_data ∷ accepted (at start 11 0 i.tx_data) is
unfolding accepted outputs
takes u i is f v =
    ap
      (λ w. if i.tx_valid && (outputs u).tx_ready then i.tx_data ∷ accepted w is else accepted w is)
      (begins u i f v)
    ∙ rw (v, f) refl

skips :
    (u : State) (i : Inputs) (is : List Inputs)
    → u.fsm ≡ idle
    → i.tx_valid ≡ false
    → accepted u (i ∷ is) ≡ accepted u is
unfolding accepted
skips u i is f v =
    ap
      (λ w. if i.tx_valid && (outputs u).tx_ready then i.tx_data ∷ accepted w is else accepted w is)
      (stays_idle 12 u i f v)
    ∙ rw v refl

-- What is to be shown for the runs of fewer cycles.
abbrev Shorter : ℕ → Type 0
Shorter n =
    (u : State) (is : List Inputs)
    → length is < n
    → u.fsm ≡ idle
    → (run 12 u is).fsm ≡ idle
    → AllBytes is
    → Framed u is

one_rest :
    (n : ℕ) (u : State) (i : Inputs) (is : List Inputs)
    → Shorter n
    → length is < n
    → u.fsm ≡ idle
    → i.tx_valid ≡ false
    → (run 12 (step 12 u i) is).fsm ≡ idle
    → AllBytes is
    → Framed u (i ∷ is)
one_rest n u i is more lt f v e h =
    let r = more u is lt f (ap (λ w. (run 12 w is).fsm) (sym (stays_idle 12 u i f v)) ∙ e) h in
    record {
      blocks = rest_cycle i ∷ r.blocks;
      whole = ap (λ l. i ∷ l) r.whole;
      sound = (v, r.sound);
      same = skips u i is f v ∙ r.same;
    }

one_frame :
    (n : ℕ) (u : State) (i : Inputs) (is : List Inputs)
    → Shorter n
    → length is < n
    → u.fsm ≡ idle
    → i.tx_valid ≡ true
    → (run 12 (step 12 u i) is).fsm ≡ idle
    → AllBytes (i ∷ is)
    → 120 ≤ length is
    → Framed u (i ∷ is)
one_frame n u i is more lt f v e h long =
    let began = at start 11 0 i.tx_data in
    let c = cut 120 is long in
    let p = in_periods 10 c.front c.rest c.size in
    let (bytes, ran, rests) = finishes began c.front c.rest (omega arith, refl) (sym c.size) in
    let all_of : run 12 (step 12 u i) is ≡ run 12 (run 12 began c.front) c.rest =
      ap (λ w. run 12 w is) (begins u i f v) ∙ ap (run 12 began) c.whole ∙ ran in
    let r =
      more (run 12 began c.front) c.rest
        (omega (arith, lt, ap length c.whole, length-append c.front c.rest)) rests
        (sym (ap (λ w. w.fsm) all_of) ∙ e)
        (AllBytes-drop c.front c.rest (subst AllBytes c.whole h.1)) in
    record {
      blocks = byte_cycles i p.parts ∷ r.blocks;
      whole = ap (λ l. i ∷ l) (c.whole ∙ p.whole ∙ ap (periods p.parts) r.whole);
      sound = (v, h.0, p.count, p.sizes, r.sound);
      same =
          takes u i is f v ∙ ap (λ l. i.tx_data ∷ l) (ap (accepted began) c.whole ∙ bytes ∙ r.same);
    }

no_part :
    (u : State) (i : Inputs) (is : List Inputs)
    → u.fsm ≡ idle
    → i.tx_valid ≡ true
    → (run 12 (step 12 u i) is).fsm ≡ idle
    → length is < 120
    → ⊥
no_part u i is f v e lt =
    unfinished (at start 11 0 i.tx_data) is (omega arith, refl) lt
      (ap (λ w. (run 12 w is).fsm) (sym (begins u i f v)) ∙ e)

framed : (n : ℕ) → Shorter n
unfolding run
framed zero u is lt f e h = absurd (omega (arith, lt))
framed (suc n) u [] lt f e h = record {
  blocks = [];
  whole = refl;
  sound = tt;
  same = (unfold accepted in refl);
}
framed (suc n) u (i ∷ is) lt f e h = elim (Bool-cases i.tx_valid) [
  | inl v ↦ elim (Bool-cases (leb 120 (length is))) [
    | inl y ↦ one_frame n u i is (framed n) (omega (arith, lt)) f v e h (ground (arith, y))
    | inr z ↦ absurd (no_part u i is f v e (ground (arith, z)))
  ]
  | inr v ↦ one_rest n u i is (framed n) (omega (arith, lt)) f v e h.1
]

-- The receiver, listening to a line of a transmitter at divisor 12, reports the bytes that the
-- transmitter accepts, in any run that begins and ends in IDLE.
pub hears_all :
    (u : State) (t c x : ℕ) (is : List Inputs)
    → u.fsm ≡ idle
    → (run 12 u is).fsm ≡ idle
    → x < 256
    → AllBytes is
    → received 12 (listening t c x) (map pin (line 12 u is)) ≡ accepted u is
hears_all u t c x is f e h b =
    let r = framed (suc (length is)) u is (omega arith) f e b in
    ap (λ l. received 12 (listening t c x) (map pin (line 12 u l))) r.whole
    ∙ round_trip u t c x r.blocks f h r.sound
    ∙ sym r.same
