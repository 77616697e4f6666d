-- ===== src/BcpAccelerator/Opening.antt =====
-- bcp_accelerator.py: the first cycles of a run, up to the arrival of the first entry of the list.
use cdcl_sat_solver.Base.{
  ℕ, ◌+◌, ◌<◌, ◌≡◌, ◌⊎◌, true, false, ◌||◌, inl, inr, ◌∙◌, bit, arith, refl, sym, subst,
}
use cdcl_sat_solver.WatchListManager
use cdcl_sat_solver.WatchListManager.{fetch_len, stream}
use cdcl_sat_solver.WatchListManager.Front
use cdcl_sat_solver.WatchListManager.Front.{event, id}
use cdcl_sat_solver.WatchListManager.Pipeline.{
  Holds, Fetching, Arriving, step-Holds, start-Fetching, Fetching-step,
}
use cdcl_sat_solver.BcpAccelerator.{
  Inputs, State, idle, active, fsm_starting, front_cycle, mgr_outputs, detect_conflict, step,
}
use cdcl_sat_solver.BcpAccelerator.Run.{issues, drops}
use cdcl_sat_solver.BcpAccelerator.Invariant.{
  IsDrained, Flows, step-Flows, start-Flows, start_registers,
}

pub still_active :
    (s : State) (i : Inputs)
    → s.fsm ≡ active
    → s.conflict_reg ≡ false
    → detect_conflict s ≡ false
    → ((0 < s.in_flight) ⊎ (s.wlm_done_seen || (mgr_outputs s i).done ≡ false))
    → ((step s i).fsm ≡ active) × ((step s i).conflict_reg ≡ false)
unfolding step fsm_starting
still_active s i fa nc nd h = ground arith

pub front_step : (s : State) (i : Inputs) → (step s i).front ≡ Front.step s.front (front_cycle s i)
unfolding step
front_step s i = refl

pub issues_of_event :
    (s : State) (i : Inputs) {n : ℕ}
    → event (Front.mgr_outputs s.front (front_cycle s i)) ≡ id n
    → issues s i ≡ true
unfolding mgr_outputs
issues_of_event s i e = ground arith

pub not_done :
    (s : State) (i : Inputs)
    → ((s.front.mgr.fsm ≡ fetch_len) ⊎ (s.front.mgr.fsm ≡ stream))
    → (mgr_outputs s i).done ≡ false
unfolding mgr_outputs Front.mgr_outputs WatchListManager.outputs
not_done s i h = ground arith

seen_step :
    (s : State) (i : Inputs)
    → s.fsm ≡ active
    → s.wlm_done_seen ≡ false
    → (mgr_outputs s i).done ≡ false
    → (step s i).wlm_done_seen ≡ false
unfolding step fsm_starting
seen_step s i fa ns nod = ground arith

started : (s : State) (i : Inputs) → s.fsm ≡ idle → i.start ≡ true → (front_cycle s i).start ≡ true
unfolding front_cycle
started s i fi st = ground arith

same_lit : (s : State) (i : Inputs) → (front_cycle s i).false_lit ≡ i.false_lit
unfolding front_cycle
same_lit s i = refl

-- A run that is under way, with nothing reported yet.
pub record Underway (s : State) : Type 0 where
  pub running : s.fsm ≡ active
  pub no_conflict : s.conflict_reg ≡ false
  pub not_seen : s.wlm_done_seen ≡ false
  pub flows : (lost : ℕ) × Flows s lost

pub Underway-step :
    (s : State) (i : Inputs)
    → detect_conflict s ≡ false
    → ((s.front.mgr.fsm ≡ fetch_len) ⊎ (s.front.mgr.fsm ≡ stream))
    → Underway s
    → Underway (step s i)
Underway-step s i nd at u =
    let nod = not_done s i at in
    let (fa, nc) = still_active s i u.running u.no_conflict nd (inr (ground arith)) in
    record {
      running = fa;
      no_conflict = nc;
      not_seen = seen_step s i u.running u.not_seen nod;
      flows = (bit (drops s i) + u.flows.0, step-Flows s i u.flows.0 u.running u.flows.1);
    }

start_conflict :
    (s : State) (i : Inputs) → s.fsm ≡ idle → i.start ≡ true → (step s i).conflict_reg ≡ false
unfolding step fsm_starting
start_conflict s i fi st = ground arith

-- The watch list of a literal, and the accelerator at the first cycles of its run.
module _ (l n : ℕ) (E : ℕ → ℕ) (s : State) (i : Inputs) (small : n < 128)
    (h : Holds l n E s.front.mem) where
  pub Holds-next : Front.NoWrite (front_cycle s i) → Holds l n E (step s i).front.mem
  Holds-next nw =
      subst (λ f. Holds l n E f.mem) (sym (front_step s i))
        (step-Holds l n E s.front (front_cycle s i) nw h)

  pub starts :
      IsDrained s
      → i.start ≡ true
      → i.false_lit ≡ l
      → l < 1024
      → Fetching l n E (step s i).front × Underway (step s i)
  starts d st fl lo =
      let (zero_now, not_seen, fa) = start_registers s i d.waiting st in
      (
        subst (Fetching l n E) (sym (front_step s i)) (
            start-Fetching l n E s.front (front_cycle s i) small h d.mgr_idle
              (started s i d.waiting st) (same_lit s i ∙ fl) lo),
        record {
          running = fa;
          no_conflict = start_conflict s i d.waiting st;
          not_seen = not_seen;
          flows = (0, start-Flows s i d st);
        },
      )

  pub fetched :
      detect_conflict s ≡ false
      → Fetching l n E s.front × Underway s
      → Arriving l n E (step s i).front × Underway (step s i)
  fetched nd (f, u) = (
    subst (Arriving l n E) (sym (front_step s i))
        (Fetching-step l n E s.front (front_cycle s i) small h f),
    Underway-step s i nd (inl f.in_fetch) u,
  )
