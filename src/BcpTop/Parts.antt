-- ===== src/BcpTop/Parts.antt =====
-- top.py: what runs of the whole are for its parts.
use cdcl_sat_solver.Base.{ℕ, ◌<◌, ◌≡◌, refl, ap, ◌∙◌, Bool, List, [], ◌∷◌, map, if◌then◌else◌}
use cdcl_sat_solver.UartReceiver
use cdcl_sat_solver.UartReceiver.Samples
use cdcl_sat_solver.UartReceiver.Samples.{listening}
use cdcl_sat_solver.UartReceiver.RoundTrip.{Block, Sound, cycles, bytes_in, pin, round_trip}
use cdcl_sat_solver.UartTransmitter
use cdcl_sat_solver.UartTransmitter.Frame
use cdcl_sat_solver.HostInterface.Receive
use cdcl_sat_solver.BcpAccelerator.Run
use cdcl_sat_solver.BcpTop.{State, divisor, host_inputs, tx_inputs, bcp_inputs, step}

unfoldable pub run : State → List Bool → State
run s [] = s
run s (b ∷ bs) = run (step s b) bs

-- A port of the whole in each cycle of a run.
module _ {ℓ} {A : Type ℓ} where
  unfoldable pub trace : (State → A) → State → List Bool → List A
  trace port s [] = []
  trace port s (b ∷ bs) = port s ∷ trace port (step s b) bs

-- In a run of the whole each part makes the run that its ports dictate.
pub run-parts :
    (s : State) (pins : List Bool)
    → ((run s pins).uart_rx ≡ Samples.run divisor s.uart_rx pins)
      × ((run s pins).host_if ≡ Receive.run s.host_if (trace host_inputs s pins))
      × ((run s pins).bcp ≡ Run.run s.bcp (trace bcp_inputs s pins))
      × ((run s pins).uart_tx ≡ Frame.run divisor s.uart_tx (trace tx_inputs s pins))
unfolding run trace step Samples.run Receive.run Run.run Frame.run
run-parts s [] = (refl, refl, refl, refl)
run-parts s (b ∷ bs) = run-parts (step s b) bs

-- The bytes that the host interface is given are those that the receiver hears on the pin.
host_hears :
    (s : State) (pins : List Bool)
    → Receive.bytes (trace host_inputs s pins) ≡ Samples.received divisor s.uart_rx pins
unfolding trace step host_inputs Receive.bytes Samples.received
host_hears s [] = refl
host_hears s (b ∷ bs) =
    let rx = UartReceiver.outputs s.uart_rx in
    ap (λ r. if rx.rx_valid then rx.rx_data ∷ r else r) (host_hears (step s b) bs)

-- Bytes that a transmitter at the same divisor puts on the receive pin, while the receiver listens,
-- are the bytes that the host interface is given, in order; the far transmitter may rest between
-- them.
pub bytes_arrive :
    (s : State) (t c x : ℕ) (far : UartTransmitter.State) (blocks : List Block)
    → s.uart_rx ≡ listening t c x
    → x < 256
    → far.fsm ≡ UartTransmitter.idle
    → Sound blocks
    → Receive.bytes (trace host_inputs s (map pin (Frame.line divisor far (cycles blocks))))
      ≡ bytes_in blocks
bytes_arrive s t c x far blocks l h f k =
    let pins = map pin (Frame.line divisor far (cycles blocks)) in
    host_hears s pins
    ∙ ap (λ u. Samples.received divisor u pins) l
    ∙ round_trip far t c x blocks f h k
