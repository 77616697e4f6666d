-- ===== src/Tests/Line.antt =====
-- uart_rx.py on a line with a pulse, a frame, a broken frame and a frame after it.
use cdcl_sat_solver.Base.{◌≡◌, List, [], ◌∷◌, arith}
use cdcl_sat_solver.UartReceiver
use cdcl_sat_solver.UartReceiver.Errors.{
  Happening, rest_cycle, pulse, good_frame, broken_frame, AllHappenings, wave, all_reports, byte,
  framing_error, reports_all,
}

abbrev faulty : List Happening
faulty = rest_cycle ∷ pulse 4 ∷ good_frame 65 ∷ broken_frame 176 20 ∷ good_frame 7 ∷ []

faulty-AllHappenings : AllHappenings faulty
faulty-AllHappenings = (tt, (omega arith, (omega arith, (omega arith, (omega arith, tt)))))

reports_all_example :
    all_reports UartReceiver.reset (wave faulty) ≡ byte 65 ∷ framing_error ∷ byte 7 ∷ []
reports_all_example = reports_all 0 0 0 faulty (omega arith) faulty-AllHappenings
