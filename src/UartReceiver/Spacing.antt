-- ===== src/UartReceiver/Spacing.antt =====
-- uart_rx.py at the divisor of top.py: bytes are far apart, and after them the receiver listens.
use cdcl_sat_solver.Base.{ℕ, ◌≡◌, refl, ap, ◌∙◌, Bool, true, false, ◌&&◌, List, [], ◌∷◌, map, arith}
use cdcl_sat_solver.UartTransmitter
use cdcl_sat_solver.UartTransmitter.Frame.{line, spread, frame, transmits, rests, ended, shifted}
use cdcl_sat_solver.UartReceiver.{State, outputs, step}
use cdcl_sat_solver.UartReceiver.Samples.{run, levels, listening}
use cdcl_sat_solver.UartReceiver.RoundTrip.{
  Block, Sound, rest_cycle, byte_cycles, cycles, pin, map-spread,
}

-- No byte is reported in the cycle after another.
pub one_at_a_time :
    (s : State) (b : Bool) → (outputs s).rx_valid && (outputs (step 12 s b)).rx_valid ≡ false
unfolding outputs step
one_at_a_time s b = ground arith

rest_run :
    (t c x : ℕ) (rest : List Bool)
    → run 12 (listening t c x) (true ∷ rest) ≡ run 12 (listening t c x) rest
unfolding run step
rest_run t c x rest = refl

hears_out :
    (t c x n : ℕ) (rest : List Bool)
    → (y : ℕ) × (run 12 (listening t c x) (levels 12 (frame n) rest)
        ≡ run 12 (listening 0 8 y) rest)
unfolding run step
hears_out t c x n rest = (_, refl)

-- The receiver listens.
pub record IsListening (s : State) : Type 0 where
  pub timer : ℕ
  pub count : ℕ
  pub shifted_in : ℕ
  pub is_so : s ≡ listening timer count shifted_in

-- After whole frames of an idle transmitter the receiver listens again.
pub run-IsListening :
    (far : UartTransmitter.State) (t c x : ℕ) (bs : List Block)
    → far.fsm ≡ UartTransmitter.idle
    → Sound bs
    → IsListening (run 12 (listening t c x) (map pin (line 12 far (cycles bs))))
unfolding line
run-IsListening far t c x [] f k = record {
  timer = t;
  count = c;
  shifted_in = x;
  is_so = unfold run in refl;
}
run-IsListening far t c x (rest_cycle i ∷ bs) f k =
    let r = run-IsListening far t c x bs f k.1 in
    record {
      timer = r.timer;
      count = r.count;
      shifted_in = r.shifted_in;
      is_so =
          ap (λ l. run 12 (listening t c x) (map pin l)) (rests 12 far i (cycles bs) f k.0)
          ∙ rest_run t c x (map pin (line 12 far (cycles bs)))
          ∙ r.is_so;
    }
run-IsListening far t c x (byte_cycles i ps ∷ bs) f k =
    let n = i.tx_data in
    let after = ended (shifted 8 n) in
    let sent = line 12 after (cycles bs) in
    let (y, heard) = hears_out t c x n (map pin sent) in
    let r = run-IsListening after 0 8 y bs refl k.4 in
    record {
      timer = r.timer;
      count = r.count;
      shifted_in = r.shifted_in;
      is_so =
          ap (λ l. run 12 (listening t c x) (map pin l))
            (transmits 11 far i ps (cycles bs) f k.0 k.2 k.3)
          ∙ rest_run t c x (map pin (spread 12 (frame n) sent))
          ∙ ap (run 12 (listening t c x)) (map-spread 12 (frame n) sent)
          ∙ heard
          ∙ r.is_so;
    }
