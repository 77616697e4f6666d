-- ===== src/BcpTop/Transmit.antt =====
-- top.py: what the host interface sends is heard on the transmit pin.
use cdcl_sat_solver.Base.{
  ℕ, ◌<◌, ◌≡◌, refl, sym, ap, ◌∙◌, Bool, ◌&&◌, List, [], ◌∷◌, map, if◌then◌else◌, arith,
}
use cdcl_sat_solver.UartTransmitter
use cdcl_sat_solver.UartTransmitter.Frame
use cdcl_sat_solver.UartReceiver.Samples
use cdcl_sat_solver.UartReceiver.Samples.{listening}
use cdcl_sat_solver.UartReceiver.RoundTrip.{pin}
use cdcl_sat_solver.UartReceiver.Blocks.{accepted}
use cdcl_sat_solver.UartReceiver.Heard.{AllBytes, hears_all}
use cdcl_sat_solver.HostInterface
use cdcl_sat_solver.HostInterface.{
  cmd_wait, payload_recv, cmd_exec, bcp_wait, impl_check, impl_send, done_send,
}
use cdcl_sat_solver.HostInterface.Send
use cdcl_sat_solver.BcpTop.{State, host_inputs, host_outputs, tx_inputs, tx_pin, step}
use cdcl_sat_solver.BcpTop.Parts.{run, trace, run-parts}

-- The bytes that the host interface has sent are those that the transmitter accepts.
host_tells :
    (s : State) (pins : List Bool)
    → Send.sent s.host_if (trace host_inputs s pins) ≡ accepted s.uart_tx (trace tx_inputs s pins)
unfolding trace step host_inputs tx_inputs host_outputs Send.sent accepted
host_tells s [] = refl
host_tells s (b ∷ bs) =
    let host = host_outputs s in
    ap
      (λ r.
        if host.tx_valid && (UartTransmitter.outputs s.uart_tx).tx_ready
        then host.tx_data ∷ r
        else r)
      (host_tells (step s b) bs)

-- The transmit pin shows the line of the transmitter.
pin_shows :
    (s : State) (pins : List Bool)
    → trace tx_pin s pins ≡ map pin (Frame.line 12 s.uart_tx (trace tx_inputs s pins))
unfolding trace step tx_pin Frame.line
pin_shows s [] = refl
pin_shows s (b ∷ bs) = ap (λ l. tx_pin s ∷ l) (pin_shows (step s b) bs)

exec_byte : (h : HostInterface.State) → (HostInterface.exec_outputs h).tx_data < 256
unfolding HostInterface.exec_outputs
exec_byte h = ground arith

one_byte :
    (f : HostInterface.Fsm) (h : HostInterface.State) (i : HostInterface.Inputs)
    → (HostInterface.outputs_in f h i).tx_data < 256
unfolding HostInterface.outputs_in
one_byte cmd_wait h i = omega arith
one_byte payload_recv h i = omega arith
one_byte cmd_exec h i = exec_byte h
one_byte bcp_wait h i = omega arith
one_byte impl_check h i = omega arith
one_byte impl_send h i = omega arith
one_byte done_send h i = omega arith

tells_bytes : (s : State) (pins : List Bool) → AllBytes (trace tx_inputs s pins)
unfolding trace tx_inputs host_outputs HostInterface.outputs
tells_bytes s [] = tt
tells_bytes s (b ∷ bs) =
    (one_byte s.host_if.fsm s.host_if (host_inputs s), tells_bytes (step s b) bs)

-- A receiver that listens to the transmit pin at the divisor 12 reports the bytes that the host
-- interface has sent, all of them and in their order, over any run of the top level in which the
-- transmitter begins and ends in IDLE.
pub pin_tells :
    (s : State) (pins : List Bool) (t c x : ℕ)
    → s.uart_tx.fsm ≡ UartTransmitter.idle
    → (run s pins).uart_tx.fsm ≡ UartTransmitter.idle
    → x < 256
    → Samples.received 12 (listening t c x) (trace tx_pin s pins)
      ≡ Send.sent s.host_if (trace host_inputs s pins)
pin_tells s pins t c x f e h =
    ap (Samples.received 12 (listening t c x)) (pin_shows s pins)
    ∙ hears_all s.uart_tx t c x (trace tx_inputs s pins) f
        (ap (λ u. u.fsm) (sym (run-parts s pins).3) ∙ e) h (tells_bytes s pins)
    ∙ sym (host_tells s pins)
