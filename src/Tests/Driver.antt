-- ===== src/Tests/Driver.antt =====
-- hw_interface.c, hw_propagate: reports of one and of two runs.
use cdcl_sat_solver.Base.{ℕ, ◌+◌, ◌≡◌, refl, true, List, [], ◌∷◌, ◌++◌, length, arith, some, none}
use cdcl_sat_solver.ImplicationFifo.{Entry}
use cdcl_sat_solver.HostInterface.Send.{sent, ready_cycles}
use cdcl_sat_solver.HostInterface.Report.{all_cycles}
use cdcl_sat_solver.Cdcl.{Solver, create, enqueue}
use cdcl_sat_solver.UartDriver.{
  Link, done_conflict, read_packets, hw_propagate, no_conflict, conflict_at, write_assign_bytes,
  sw_to_hw_assign,
}
use cdcl_sat_solver.UartDriver.Answers.{report, reads_report-sent}
use cdcl_sat_solver.UartDriver.Rounds.{Round, answers}
use cdcl_sat_solver.UartDriver.Written.{solver_after}
use cdcl_sat_solver.UartDriver.Exchange.{propagates_all, propagates_to_conflict}
use cdcl_sat_solver.Tests.Host.{checking, packets, end_packet}

abbrev arriving : Link
arriving = record {
  solver = create 400;
  incoming = sent checking (all_cycles packets end_packet) ++ 7 ∷ [];
  outgoing = [];
}

reads_report-sent_example :
    read_packets (length arriving.incoming + 1) arriving
    ≡ done_conflict 300 (record {
      solver = enqueue (create 400) 601 (some 515);
      incoming = 7 ∷ [];
      outgoing = 4 ∷ 1 ∷ 44 ∷ 1 ∷ [];
    })
unfolding ready_cycles write_assign_bytes sw_to_hw_assign
reads_report-sent_example =
    reads_report-sent checking packets end_packet arriving (7 ∷ []) refl (omega arith)
      (refl, omega arith, omega arith, refl, refl, tt) refl refl refl refl

-- Variable 3 is decided, and implies that variable 1 is true.
abbrev implies_one : Entry
implies_one = record { var = 1; value = true; reason = 2 }

abbrev decided : Solver
unfolding enqueue
decided = enqueue (create 3) 7 none

abbrev two_rounds : List Round
two_rounds =
    record { implied = implies_one ∷ []; clause_id = 0 }
    ∷ record { implied = []; clause_id = 0 }
    ∷ []

abbrev quiet_link : Link
quiet_link = record { solver = decided; incoming = answers two_rounds []; outgoing = [] }

propagates_all_example :
    (hw_propagate 3 quiet_link
      ≡ no_conflict (record {
        solver = solver_after decided (implies_one ∷ []) 2;
        incoming = [];
        outgoing = 5 ∷ 0 ∷ 6 ∷ 4 ∷ 0 ∷ 1 ∷ 1 ∷ 5 ∷ 0 ∷ 2 ∷ [];
      }))
    × ((solver_after decided (implies_one ∷ []) 2).trail_size ≡ 2)
unfolding enqueue
propagates_all_example =
    propagates_all 3 quiet_link two_rounds [] (omega arith) refl (omega arith, (omega arith, tt))
      (omega arith)

abbrev one_round : List Round
one_round = record { implied = implies_one ∷ []; clause_id = 0 } ∷ []

abbrev conflict_bytes : List ℕ
conflict_bytes = report [] true 9 ++ []

abbrev failing_link : Link
failing_link = record {
  solver = decided;
  incoming = answers one_round conflict_bytes;
  outgoing = [];
}

propagates_to_conflict_example :
    hw_propagate 2 failing_link
    ≡ conflict_at 9 (record {
      solver = solver_after decided (implies_one ∷ []) 2;
      incoming = [];
      outgoing = 5 ∷ 0 ∷ 6 ∷ 4 ∷ 0 ∷ 1 ∷ 1 ∷ 5 ∷ 0 ∷ 2 ∷ [];
    })
unfolding enqueue
propagates_to_conflict_example =
    propagates_to_conflict 2 failing_link one_round [] 9 [] (omega arith) refl (omega arith, tt)
      (omega arith)
