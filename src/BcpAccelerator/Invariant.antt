-- ===== src/BcpAccelerator/Invariant.antt =====
-- bcp_accelerator.py: what holds at each cycle of a run.
use cdcl_sat_solver.Base.{
  ℕ, ◌+◌, ◌≤◌, ◌<◌, ◌≡◌, true, false, ◌||◌, Bool-cases, inl, inr, ap, ◌∙◌, bit, arith, refl, subst,
  sym, List, [], ◌∷◌,
}
use cdcl_sat_solver.WatchListManager
use cdcl_sat_solver.WatchListManager.Front
use cdcl_sat_solver.WatchListManager.Bounds.{
  Tracks, step-Tracks, issue_room, start-Tracks, idle_silent, idle_stays, done_to_idle,
}
use cdcl_sat_solver.BcpAccelerator.{
  Inputs, State, idle, active, fsm_starting, front_cycle, mgr_outputs, step,
}
use cdcl_sat_solver.BcpAccelerator.Run.{run, count, issues, answers, drops, AllActive}
use cdcl_sat_solver.BcpAccelerator.Flow.{held, balance, in_flight_counts, held_after_empty}

-- The pipeline is empty and the manager idle, as it is before each run but one that was cut short.
pub record IsDrained (s : State) : Type 0 where
  pub waiting : s.fsm ≡ idle
  pub mgr_idle : s.front.mgr.fsm ≡ WatchListManager.idle
  pub len_fits : s.front.mgr.watch_len < 128
  pub nothing_held : held s ≡ 0

-- In a run with `issued` clauses issued, `answered` answered and `lost` lost.
pub record Flows (s : State) (lost : ℕ) : Type 0 where
  pub balanced : s.in_flight ≡ held s + lost
  pub bounded : s.in_flight ≤ 127
  pub tracked : Tracks s.front.mgr s.in_flight
  pub done_idle : s.wlm_done_seen ≡ true → s.front.mgr.fsm ≡ WatchListManager.idle

pub mgr_step :
    (s : State) (i : Inputs)
    → (step s i).front.mgr
      ≡ WatchListManager.step s.front.mgr (Front.mgr_inputs s.front (front_cycle s i))
unfolding step Front.step
mgr_step s i = refl

pub not_starting : (s : State) (i : Inputs) → s.fsm ≡ active → fsm_starting s i ≡ false
unfolding fsm_starting
not_starting s i h = ground arith

done_seen :
    (s : State) (i : Inputs)
    → fsm_starting s i ≡ false
    → (step s i).wlm_done_seen ≡ true
    → s.wlm_done_seen || (mgr_outputs s i).done ≡ true
unfolding step
done_seen s i st d = ground arith

pub start_port :
    (s : State) (i : Inputs)
    → fsm_starting s i ≡ false
    → (Front.mgr_inputs s.front (front_cycle s i)).start ≡ false
unfolding Front.mgr_inputs front_cycle
start_port s i h = h

start_of_active :
    (s : State) (i : Inputs)
    → s.fsm ≡ active
    → (Front.mgr_inputs s.front (front_cycle s i)).start ≡ false
unfolding Front.mgr_inputs front_cycle
start_of_active s i h = ground arith

len_port : (s : State) (i : Inputs) → (Front.mgr_inputs s.front (front_cycle s i)).wl_rd_len < 128
unfolding Front.mgr_inputs
len_port s i = omega arith

pub room : (s : State) (i : Inputs) (lost : ℕ) → Flows s lost → s.in_flight + bit (issues s i) < 128
unfolding mgr_outputs Front.mgr_outputs
room s i lost f =
    issue_room s.front.mgr (Front.mgr_inputs s.front (front_cycle s i)) s.in_flight f.tracked
      f.bounded

tracked_step :
    (s : State) (i : Inputs) (m : ℕ)
    → s.fsm ≡ active
    → Tracks s.front.mgr s.in_flight
    → m ≤ s.in_flight + bit (issues s i)
    → Tracks (step s i).front.mgr m
unfolding mgr_outputs Front.mgr_outputs
tracked_step s i m fa t le = rw (mgr_step s i) (
    step-Tracks s.front.mgr (Front.mgr_inputs s.front (front_cycle s i)) s.in_flight m
      (start_of_active s i fa) (len_port s i) t le)

-- The manager at an edge at which it was done before, or is done now.
pub mgr_after_done :
    (s : State) (i : Inputs)
    → fsm_starting s i ≡ false
    → (s.wlm_done_seen ≡ true → s.front.mgr.fsm ≡ WatchListManager.idle)
    → s.wlm_done_seen || (mgr_outputs s i).done ≡ true
    → ((step s i).front.mgr.fsm ≡ WatchListManager.idle) × (issues s i ≡ false)
unfolding mgr_outputs Front.mgr_outputs
mgr_after_done s i st was d =
    let inp = Front.mgr_inputs s.front (front_cycle s i) in
    elim (Bool-cases s.wlm_done_seen) [
      | inl y ↦ (
        rw (mgr_step s i)
            (ap (λ m. m.fsm) (idle_stays s.front.mgr inp (was y) (start_port s i st)) ∙ was y),
        idle_silent s.front.mgr inp (was y),
      )
      | inr n ↦
          let now = done_to_idle s.front.mgr inp (ground arith) in (rw (mgr_step s i) now.0, now.2)
    ]

done_idle_step :
    (s : State) (i : Inputs)
    → s.fsm ≡ active
    → (s.wlm_done_seen ≡ true → s.front.mgr.fsm ≡ WatchListManager.idle)
    → (step s i).wlm_done_seen ≡ true
    → (step s i).front.mgr.fsm ≡ WatchListManager.idle
done_idle_step s i fa was d =
    (mgr_after_done s i (not_starting s i fa) was (done_seen s i (not_starting s i fa) d)).0

pub step-Flows :
    (s : State) (i : Inputs) (lost : ℕ)
    → s.fsm ≡ active
    → Flows s lost
    → Flows (step s i) (bit (drops s i) + lost)
step-Flows s i lost fa f =
    let r = room s i lost f in
    let c = in_flight_counts s i lost (not_starting s i fa) r f.balanced in
    record {
      balanced = balance s i lost (not_starting s i fa) r f.balanced;
      bounded = omega arith;
      tracked = tracked_step s i (step s i).in_flight fa f.tracked (omega arith);
      done_idle = done_idle_step s i fa f.done_idle;
    }

pub run-Flows :
    (s : State) (is : List Inputs) (lost : ℕ)
    → AllActive s is
    → Flows s lost
    → Flows (run s is) (count drops s is + lost)
unfolding run count
run-Flows s [] lost act f = subst (Flows s) (omega arith) f
run-Flows s (i ∷ is) lost act f =
    subst (Flows (run (step s i) is)) (omega arith)
      (run-Flows (step s i) is (bit (drops s i) + lost) act.1 (step-Flows s i lost act.0 f))

-- Clauses issued are clauses answered, and those in flight.
pub run-counts :
    (s : State) (is : List Inputs) (lost : ℕ)
    → AllActive s is
    → Flows s lost
    → (run s is).in_flight + count answers s is ≡ s.in_flight + count issues s is
unfolding run count
run-counts s [] lost act f = refl
run-counts s (i ∷ is) lost act f =
    let c = in_flight_counts s i lost (not_starting s i act.0) (room s i lost f) f.balanced in
    omega
      (arith, run-counts (step s i) is (bit (drops s i) + lost) act.1 (step-Flows s i lost act.0 f))

pub nothing_issued :
    (s : State) (i : Inputs) → s.front.mgr.fsm ≡ WatchListManager.idle → issues s i ≡ false
unfolding mgr_outputs Front.mgr_outputs
nothing_issued s i h = idle_silent s.front.mgr (Front.mgr_inputs s.front (front_cycle s i)) h

pub start_registers :
    (s : State) (i : Inputs)
    → s.fsm ≡ idle
    → i.start ≡ true
    → ((step s i).in_flight ≡ 0) × ((step s i).wlm_done_seen ≡ false) × ((step s i).fsm ≡ active)
unfolding step fsm_starting
start_registers s i fi st = ground arith

pub start-Flows : (s : State) (i : Inputs) → IsDrained s → i.start ≡ true → Flows (step s i) 0
start-Flows s i d st =
    let (zero_now, not_seen, _) = start_registers s i d.waiting st in
    let empty = held_after_empty s i d.nothing_held (nothing_issued s i d.mgr_idle) in
    record {
      balanced = omega arith;
      bounded = omega arith;
      tracked =
          rw (zero_now, mgr_step s i)
            (start-Tracks s.front.mgr (Front.mgr_inputs s.front (front_cycle s i)) d.len_fits
              (len_port s i) d.mgr_idle);
      done_idle = λ y. let bad : false ≡ true = sym not_seen ∙ y in cc;
    }
