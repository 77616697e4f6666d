-- ===== src/Tests/Top.antt =====
-- top.py on a few cycles.
use cdcl_sat_solver.Base.{◌≡◌, refl, Bool, true, List, [], ◌∷◌, map, replicate, arith}
use cdcl_sat_solver.UartReceiver.RoundTrip.{cycles, pin}
use cdcl_sat_solver.UartTransmitter
use cdcl_sat_solver.UartTransmitter.Frame
use cdcl_sat_solver.HostInterface.Receive
use cdcl_sat_solver.HostInterface
use cdcl_sat_solver.BcpTop.{State, reset, host_inputs, tx_pin, step}
use cdcl_sat_solver.BcpTop.Parts.{run, trace, bytes_arrive}
use cdcl_sat_solver.BcpTop.Transmit.{pin_tells}
use cdcl_sat_solver.UartReceiver.Samples.{received}
use cdcl_sat_solver.UartReceiver
use cdcl_sat_solver.HostInterface.Send.{sent}
use cdcl_sat_solver.Tests.Uart.{two_bytes, two_bytes-Sound}

bytes_arrive_example :
    Receive.bytes
      (trace host_inputs reset (map pin (Frame.line 12 UartTransmitter.reset (cycles two_bytes))))
    ≡ 65 ∷ 176 ∷ []
bytes_arrive_example =
    bytes_arrive reset 0 0 0 UartTransmitter.reset two_bytes refl (omega arith) refl two_bytes-Sound

-- The host interface is about to send the last two bytes of a packet.
abbrev reporting : State
reporting = record reset {
  host_if = record HostInterface.reset {
    fsm = HostInterface.done_send;
    tx_shift = 258;
    tx_count = 2;
  };
}

abbrev two_frames : List Bool
two_frames = replicate 242 true

two_frames-idle : (run reporting two_frames).uart_tx.fsm ≡ UartTransmitter.idle
unfolding run step UartTransmitter.step HostInterface.step
two_frames-idle = refl

pin_tells_example : received 12 UartReceiver.reset (trace tx_pin reporting two_frames) ≡ 2 ∷ 1 ∷ []
unfolding sent trace step host_inputs HostInterface.outputs HostInterface.step UartTransmitter.step
    UartTransmitter.outputs
pin_tells_example = pin_tells reporting two_frames 0 0 0 refl two_frames-idle (omega arith)
