-- ===== src/BcpAccelerator/Drain.antt =====
-- bcp_accelerator.py: a run that ends without a conflict has lost no clause.
use cdcl_sat_solver.Base.{◌+◌, ◌<◌, ◌≡◌, true, false, ◌||◌, ap, ◌∙◌, arith, sym, subst, List}
use cdcl_sat_solver.WatchListManager
use cdcl_sat_solver.WatchListManager.Front
use cdcl_sat_solver.WatchListManager.Bounds.{idle_stays}
use cdcl_sat_solver.BcpAccelerator.{
  Inputs, State, idle, active, finished, fsm_starting, front_cycle, mgr_outputs, step,
}
use cdcl_sat_solver.BcpAccelerator.Run.{run, count, issues, answers, drops, AllActive}
use cdcl_sat_solver.BcpAccelerator.Flow.{held, held_after_empty}
use cdcl_sat_solver.BcpAccelerator.Invariant.{
  IsDrained, run-Flows, run-counts, start-Flows, not_starting, mgr_after_done, nothing_issued,
  mgr_step, start_registers, start_port, step-Flows,
}

-- How ACTIVE ends when there is no conflict.
end_of_run :
    (s : State) (i : Inputs)
    → s.fsm ≡ active
    → (step s i).fsm ≡ finished
    → (step s i).conflict_reg ≡ false
    → (s.in_flight ≡ 0) × (s.wlm_done_seen || (mgr_outputs s i).done ≡ true)
unfolding step fsm_starting
end_of_run s i fa ff nc = ground arith

starting_of_finished : (s : State) (i : Inputs) → s.fsm ≡ finished → fsm_starting s i ≡ false
unfolding fsm_starting
starting_of_finished s i h = ground arith

fsm_after_finished : (s : State) (i : Inputs) → s.fsm ≡ finished → (step s i).fsm ≡ idle
unfolding step
fsm_after_finished s i h = ground arith

pub IsDrained-after :
    (s : State) (j k : Inputs)
    → (step s j).fsm ≡ finished
    → (step s j).front.mgr.fsm ≡ WatchListManager.idle
    → held (step s j) ≡ 0
    → (step s j).front.mgr.watch_len < 128
    → IsDrained (step (step s j) k)
IsDrained-after s j k ff mi empty len =
    let t = step s j in
    let same : (step t k).front.mgr ≡ t.front.mgr =
      mgr_step t k
      ∙ idle_stays t.front.mgr (Front.mgr_inputs t.front (front_cycle t k)) mi
          (start_port t k (starting_of_finished t k ff)) in
    record {
      waiting = fsm_after_finished t k ff;
      mgr_idle = ap (λ m. m.fsm) same ∙ mi;
      len_fits = subst (λ m. m.watch_len < 128) (sym same) len;
      nothing_held = held_after_empty t k empty (nothing_issued t k mi);
    }

-- From a drained state, once the run is started, stays in ACTIVE and then ends without a conflict:
-- no clause was dropped before the evaluator, as many answers were shown as clause numbers were
-- issued, and one edge later, whatever its inputs, the accelerator is drained again.
pub ends-IsDrained :
    (s : State) (i : Inputs) (is : List Inputs) (j k : Inputs)
    → IsDrained s
    → i.start ≡ true
    → AllActive (step s i) is
    → (run (step s i) is).fsm ≡ active
    → (step (run (step s i) is) j).fsm ≡ finished
    → (step (run (step s i) is) j).conflict_reg ≡ false
    → (count drops (step s i) is ≡ 0)
      × (count answers (step s i) is ≡ count issues (step s i) is)
      × IsDrained (step (step (run (step s i) is) j) k)
ends-IsDrained s i is j k d st act fa ff nc =
    let t = run (step s i) is in
    let f0 = start-Flows s i d st in
    let f = run-Flows (step s i) is 0 act f0 in
    let counts = run-counts (step s i) is 0 act f0 in
    let (no_flight, done) = end_of_run t j fa ff nc in
    let (mgr_idle, none_issued) = mgr_after_done t j (not_starting t j fa) f.done_idle done in
    let empty = held_after_empty t j (omega (arith, f.balanced)) none_issued in
    (
      omega (arith, f.balanced),
      omega (arith, (start_registers s i d.waiting st).0),
      IsDrained-after t j k ff mgr_idle empty
          (step-Flows t j (count drops (step s i) is + 0) fa f).tracked.len_fits,
    )
