-- ===== src/Tests/TopSession.antt =====
-- top.py while one assignment is written over the receive pin.
use cdcl_sat_solver.Base.{◌≡◌, refl, true, List, [], ◌∷◌, ◌++◌, map, arith}
use cdcl_sat_solver.UartReceiver.RoundTrip.{Block, Sound, byte_cycles, cycles, pin}
use cdcl_sat_solver.UartTransmitter
use cdcl_sat_solver.UartTransmitter.Frame
use cdcl_sat_solver.UartTransmitter.Frame.{Last}
use cdcl_sat_solver.HostInterface
use cdcl_sat_solver.HostInterface.Commands.{Command, write_assign}
use cdcl_sat_solver.HostInterface.Session.{stored_by}
use cdcl_sat_solver.BcpAccelerator
use cdcl_sat_solver.BcpAccelerator.Contents.{contents}
use cdcl_sat_solver.BcpTop.{reset, bcp_inputs}
use cdcl_sat_solver.BcpTop.Parts.{run, trace}
use cdcl_sat_solver.BcpTop.Start.{started_on, pin_starts}
use cdcl_sat_solver.BcpTop.Session.{pin_session_stores}
use cdcl_sat_solver.Tests.Uart.{byte, ten_periods}

abbrev one_write : List Command
one_write = write_assign 300 2 ∷ []

abbrev four_bytes : List Block
four_bytes =
    byte_cycles (byte 4) (ten_periods 12)
    ∷ byte_cycles (byte 1) (ten_periods 12)
    ∷ byte_cycles (byte 44) (ten_periods 12)
    ∷ byte_cycles (byte 2) (ten_periods 12)
    ∷ []

four_bytes-Sound : Sound four_bytes
four_bytes-Sound =
    let whole : Last 12 (ten_periods 12) =
      (refl, (refl, (refl, (refl, (refl, (refl, (refl, (refl, (refl, (refl, tt)))))))))) in
    (
      refl,
      omega arith,
      refl,
      whole,
      (
        refl,
        omega arith,
        refl,
        whole,
        (refl, omega arith, refl, whole, (refl, omega arith, refl, whole, tt)),
      ),
    )

pin_session_stores_example :
    let pins = map pin (Frame.line 12 UartTransmitter.reset (cycles four_bytes)) ++ true ∷ [] in
    (contents (run reset pins).bcp ≡ stored_by one_write (contents BcpAccelerator.reset))
    × ((run reset pins).host_if.fsm ≡ HostInterface.cmd_wait)
pin_session_stores_example =
    pin_session_stores one_write reset 0 0 0 UartTransmitter.reset four_bytes true
      ((omega arith, omega arith), tt, tt) refl refl (omega arith) refl four_bytes-Sound refl

-- BCP_START on literal 600.
abbrev three_bytes : List Block
three_bytes =
    byte_cycles (byte 5) (ten_periods 12)
    ∷ byte_cycles (byte 2) (ten_periods 12)
    ∷ byte_cycles (byte 88) (ten_periods 12)
    ∷ []

three_bytes-Sound : Sound three_bytes
three_bytes-Sound =
    let whole : Last 12 (ten_periods 12) =
      (refl, (refl, (refl, (refl, (refl, (refl, (refl, (refl, (refl, (refl, tt)))))))))) in
    (
      refl,
      omega arith,
      refl,
      whole,
      (refl, omega arith, refl, whole, (refl, omega arith, refl, whole, tt)),
    )

pin_starts_example :
    started_on (
      trace bcp_inputs reset
        (map pin (Frame.line 12 UartTransmitter.reset (cycles three_bytes)) ++ true ∷ []))
    ≡ 600 ∷ []
pin_starts_example =
    pin_starts 600 reset 0 0 0 UartTransmitter.reset three_bytes true (omega arith) refl refl
      (omega arith) refl three_bytes-Sound refl
