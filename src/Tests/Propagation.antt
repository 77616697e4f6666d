-- ===== src/Tests/Propagation.antt =====
-- bcp_accelerator.py on literal 4, which is watched by the one clause of literals 4 and 6: variable
-- 2 is false, so that variable 3 is implied.
use cdcl_sat_solver.Base.{◌≡◌, refl, true, false, ◌==◌, if◌then◌else◌, replicate, arith}
use cdcl_sat_solver.AssignmentMemory
use cdcl_sat_solver.ClauseEvaluator
use cdcl_sat_solver.ClauseEvaluator.{unit}
use cdcl_sat_solver.ClauseMemory
use cdcl_sat_solver.WatchListMemory
use cdcl_sat_solver.WatchListManager
use cdcl_sat_solver.ClausePrefetcher
use cdcl_sat_solver.ImplicationFifo
use cdcl_sat_solver.ImplicationFifo.Inv.{reset-IsValid}
use cdcl_sat_solver.BcpAccelerator.{State, reset, active, step, outputs}
use cdcl_sat_solver.BcpAccelerator.Run.{run, AllActive}
use cdcl_sat_solver.BcpAccelerator.Invariant.{IsDrained}
use cdcl_sat_solver.BcpAccelerator.Single.{Calm, OneClause, verdict_on, Ended, end_state}
use cdcl_sat_solver.BcpAccelerator.Single.NoClause.{empty_list_ends}
use cdcl_sat_solver.BcpAccelerator.Single.Propagate.{propagates}
use cdcl_sat_solver.Tests.Accelerator.{go, wait, machine}

abbrev loaded : State
loaded = record reset {
  front = record {
    mgr = WatchListManager.reset;
    mem = record WatchListMemory.reset { len_cells = λ l. if l == 4 then 1 else 0 };
  };
  fetch = record {
    pre = ClausePrefetcher.reset;
    mem = record ClauseMemory.reset { cells = λ c. if c == 0 then 6291524 else 0 };
  };
  assign_mem = λ v. if v == 2 then 1 else 0;
}

loaded-IsDrained : IsDrained loaded
loaded-IsDrained = record {
  waiting = refl;
  mgr_idle = refl;
  len_fits = omega arith;
  nothing_held = refl;
}

loaded-OneClause : OneClause loaded 4
unfolding machine ClauseEvaluator.array
loaded-OneClause = record {
  lit_fits = omega arith;
  one_entry = refl;
  id_fits = omega arith;
  sat_clear = refl;
  some_literal = omega arith;
  at_most_five = omega arith;
  literals_fit = (omega arith, (omega arith, tt));
}

go-Calm : Calm go
go-Calm = record {
  no_entry = refl;
  no_len = refl;
  no_clause = refl;
  no_assign = refl;
  no_pop = refl;
}

wait-Calm : Calm wait
wait-Calm = record {
  no_entry = refl;
  no_len = refl;
  no_clause = refl;
  no_assign = refl;
  no_pop = refl;
}

-- Variable 3 has to be true because of clause 0.
verdict_loaded : verdict_on loaded 4 ≡ record {
  result_status = unit;
  result_implied_var = 3;
  result_implied_val = true;
  result_clause_id = 0;
  result_valid = true;
}
unfolding machine AssignmentMemory.rd_data ClauseEvaluator.lit_true ClauseEvaluator.array
verdict_loaded = refl

propagates_example :
    let t = run (step loaded go) (replicate 6 wait) in
    let e = end_state (verdict_on loaded 4) (step t wait) wait in
    AllActive (step loaded go) (replicate 6 wait)
    × (t.fsm ≡ active)
    × Ended loaded e (verdict_on loaded 4)
    × IsDrained (step e wait)
unfolding machine
propagates_example =
    propagates loaded go wait wait wait wait (replicate 2 wait) wait wait wait loaded-IsDrained
      (reset-IsValid 16 (omega arith)) refl loaded-OneClause
      (
        go-Calm,
        (
          wait-Calm,
          (
            wait-Calm,
            (wait-Calm, (wait-Calm, (wait-Calm, (wait-Calm, (wait-Calm, (wait-Calm, tt)))))),
          ),
        ),
      )
      refl

-- Literal 4 without a clause.
bare-IsDrained : IsDrained reset
bare-IsDrained = record {
  waiting = refl;
  mgr_idle = refl;
  len_fits = omega arith;
  nothing_held = refl;
}

empty_list_ends_example :
    let t = step (step (step reset go) wait) wait in
    let e = step t wait in
    ((step reset go).fsm ≡ active)
    × ((step (step reset go) wait).fsm ≡ active)
    × (t.fsm ≡ active)
    × ((outputs e).done ≡ true)
    × ((outputs e).conflict ≡ false)
    × (e.impl_fifo ≡ ImplicationFifo.reset)
    × IsDrained (step e wait)
unfolding machine
empty_list_ends_example =
    empty_list_ends reset go wait wait wait wait bare-IsDrained refl (omega arith) refl
      (go-Calm, wait-Calm, wait-Calm, wait-Calm)
