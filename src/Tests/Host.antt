-- ===== src/Tests/Host.antt =====
-- host_interface.py on a few byte sequences.
use cdcl_sat_solver.Base.{ℕ, ◌≡◌, refl, true, false, List, [], ◌∷◌, ◌++◌, replicate, length, arith}
use cdcl_sat_solver.ClauseMemory.{Clause}
use cdcl_sat_solver.HostInterface.{State, Inputs, reset, quiet, cmd_wait, impl_check}
use cdcl_sat_solver.HostInterface.Receive.{run, trace, bytes}
use cdcl_sat_solver.HostInterface.Commands.{write_clause, effect, delivers}
use cdcl_sat_solver.HostInterface.Send.{sent, pops, ready_cycles}
use cdcl_sat_solver.HostInterface.Report.{Packet, all_cycles, reports}

abbrev pause : Inputs
pause = record {
  rx_data = 0;
  rx_valid = false;
  tx_ready = false;
  bcp_done = false;
  bcp_conflict = false;
  bcp_conflict_id = 0;
  impl_valid = false;
  impl = record { var = 0; value = false; reason = 0 };
}

abbrev byte : ℕ → Inputs
byte x = record pause { rx_data = x; rx_valid = true }

abbrev taken : Inputs
taken = record pause { tx_ready = true }

abbrev small_clause : Clause
small_clause = record {
  sat_bit = false;
  size = 2;
  lit0 = 4;
  lit1 = 7;
  lit2 = 0;
  lit3 = 0;
  lit4 = 0;
}

-- WRITE_CLAUSE for clause 258, all but its last byte, with pauses.
abbrev clause_inputs : List Inputs
clause_inputs =
    byte 1
    ∷ pause
    ∷ byte 2
    ∷ byte 2
    ∷ byte 0
    ∷ byte 0
    ∷ byte 4
    ∷ byte 0
    ∷ pause
    ∷ byte 7
    ∷ byte 0
    ∷ byte 0
    ∷ byte 0
    ∷ byte 0
    ∷ byte 0
    ∷ []

delivers_example :
    (trace reset ((byte 1 ∷ clause_inputs ++ byte 0 ∷ []) ++ pause ∷ [])
      ≡ (quiet ∷ replicate (length clause_inputs) quiet ++ quiet ∷ [])
        ++ effect (write_clause 258 small_clause) ∷ [])
    × ((run reset ((byte 1 ∷ clause_inputs ++ byte 0 ∷ []) ++ pause ∷ [])).fsm ≡ cmd_wait)
unfolding bytes
delivers_example =
    delivers reset (write_clause 258 small_clause) (byte 1) clause_inputs (byte 0) pause
      (omega arith) refl refl refl refl refl

abbrev pub checking : State
checking = record reset { fsm = impl_check; conflict_reg = true; conflict_id_reg = 300 }

abbrev shown : Inputs
shown = record pause { impl_valid = true; impl = record { var = 300; value = true; reason = 515 } }

abbrev five_taken : List Inputs
five_taken = taken ∷ pause ∷ taken ∷ taken ∷ pause ∷ taken ∷ taken ∷ []

abbrev pub packets : List Packet
packets = record { shown = shown; during = five_taken; last = taken } ∷ []

abbrev pub end_packet : Packet
end_packet = record { shown = pause; during = taken ∷ pause ∷ taken ∷ taken ∷ []; last = taken }

reports_example :
    (sent checking (all_cycles packets end_packet)
      ≡ 0xb0 ∷ 1 ∷ 44 ∷ 1 ∷ 2 ∷ 3 ∷ 0xc1 ∷ 1 ∷ 44 ∷ 0 ∷ [])
    × (pops checking (all_cycles packets end_packet) ≡ 1)
    × ((run checking (all_cycles packets end_packet)).fsm ≡ cmd_wait)
unfolding ready_cycles
reports_example =
    reports checking packets end_packet refl (omega arith)
      (refl, omega arith, omega arith, refl, refl, tt) refl refl refl
