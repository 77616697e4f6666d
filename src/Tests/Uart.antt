-- ===== src/Tests/Uart.antt =====
-- uart_tx.py and uart_rx.py on two bytes.
use cdcl_sat_solver.Base.{ℕ, ◌≡◌, refl, true, false, List, [], ◌∷◌, map, replicate, arith}
use cdcl_sat_solver.UartTransmitter
use cdcl_sat_solver.UartTransmitter.{Inputs}
use cdcl_sat_solver.UartTransmitter.Frame.{line, periods, spread, frame, ended, transmits}
use cdcl_sat_solver.UartReceiver
use cdcl_sat_solver.UartReceiver.Samples.{received}
use cdcl_sat_solver.UartReceiver.RoundTrip.{
  Block, Sound, rest_cycle, byte_cycles, cycles, pin, round_trip,
}

abbrev nothing : Inputs
nothing = record { tx_data = 0; tx_valid = false }

abbrev pub byte : ℕ → Inputs
byte x = record { tx_data = x; tx_valid = true }

-- Another byte is offered all the time, and refused.
abbrev pub ten_periods : ℕ → List (List Inputs)
ten_periods d = replicate 10 (replicate d (byte 255))

transmits_example :
    line 3 UartTransmitter.reset (byte 65 ∷ periods (ten_periods 3) (nothing ∷ []))
    ≡ (true, true) ∷ spread 3 (frame 65) (line 3 (ended 0) (nothing ∷ []))
transmits_example =
    transmits 2 UartTransmitter.reset (byte 65) (ten_periods 3) (nothing ∷ []) refl refl refl
      (refl, (refl, (refl, (refl, (refl, (refl, (refl, (refl, (refl, (refl, tt))))))))))

abbrev pub two_bytes : List Block
two_bytes =
    rest_cycle nothing
    ∷ byte_cycles (byte 65) (ten_periods 12)
    ∷ byte_cycles (byte 176) (ten_periods 12)
    ∷ []

pub two_bytes-Sound : Sound two_bytes
two_bytes-Sound = (
  refl,
  (
    refl,
    omega arith,
    refl,
    (refl, (refl, (refl, (refl, (refl, (refl, (refl, (refl, (refl, (refl, tt)))))))))),
    (
      refl,
      omega arith,
      refl,
      (refl, (refl, (refl, (refl, (refl, (refl, (refl, (refl, (refl, (refl, tt)))))))))),
      tt,
    ),
  ),
)

round_trip_example :
    received 12 UartReceiver.reset (map pin (line 12 UartTransmitter.reset (cycles two_bytes)))
    ≡ 65 ∷ 176 ∷ []
round_trip_example =
    round_trip UartTransmitter.reset 0 0 0 two_bytes refl (omega arith) two_bytes-Sound
