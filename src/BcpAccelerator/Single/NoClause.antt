-- ===== src/BcpAccelerator/Single/NoClause.antt =====
-- bcp_accelerator.py on a watch list that is empty.
use cdcl_sat_solver.Base.{ℕ, ◌<◌, ◌≡◌, inr, ap₂, ◌∙◌, sym, subst, refl, true, false, ◌||◌, arith}
use cdcl_sat_solver.WatchListMemory.Reads.{entry, list_length}
use cdcl_sat_solver.WatchListManager
use cdcl_sat_solver.WatchListManager.Front
use cdcl_sat_solver.WatchListManager.Front.{event, silent}
use cdcl_sat_solver.WatchListManager.Pipeline.{IsDone, Arriving-none}
use cdcl_sat_solver.BcpAccelerator.{
  Inputs, State, active, finished, fsm_starting, front_cycle, mgr_outputs, detect_conflict, step,
  outputs,
}
use cdcl_sat_solver.BcpAccelerator.Run.{issues, answers}
use cdcl_sat_solver.BcpAccelerator.Flow.{held, held_after_empty}
use cdcl_sat_solver.BcpAccelerator.Invariant.{IsDrained, step-Flows}
use cdcl_sat_solver.BcpAccelerator.Drain.{IsDrained-after}
use cdcl_sat_solver.BcpAccelerator.Opening.{front_step, not_done}
use cdcl_sat_solver.BcpAccelerator.Single.{Calm}
use cdcl_sat_solver.BcpAccelerator.Single.Keeps.{Silent-step, fifo-Calm}
use cdcl_sat_solver.BcpAccelerator.Single.Stages.{
  Empty, Empty-step, vacant_answers, vacant_drops, done_seen_step,
}
use cdcl_sat_solver.BcpAccelerator.Single.Issue.{Opened, Arrival, opens}

no_issue :
    (t : State) (i : Inputs)
    → event (Front.mgr_outputs t.front (front_cycle t i)) ≡ silent
    → issues t i ≡ false
unfolding mgr_outputs
no_issue t i e = ground arith

-- The cycle in which the manager sees the length 0.
finds_none :
    (s t : State) (lit : ℕ) (i : Inputs)
    → Calm i
    → Arrival 0 s lit t
    → Opened s (step t i) × IsDone (step t i).front
finds_none s t lit i c a =
    let e = a.opened.empty in
    let (over, none) =
      Arriving-none lit 0 (entry s.front.mem lit) t.front (front_cycle t i) (omega arith) a.holds
        refl a.arriving in
    (
      record {
        silent =
            Silent-step s t i c (vacant_answers t i e.vacant) (vacant_drops t i e.vacant)
              (inr (ap₂ ◌||◌ a.not_seen (not_done t i (inr a.arriving.in_stream)))) a.opened.silent;
        empty = Empty-step t i e (no_issue t i none);
      },
      subst IsDone (sym (front_step t i)) over,
    )

Empty-held : (t : State) → Empty t → held t ≡ 0
Empty-held t e = let a = e.vacant in let b = e.no_first in let c = e.no_second in ground arith

done_now : (t : State) (i : Inputs) → IsDone t.front → (mgr_outputs t i).done ≡ true
unfolding mgr_outputs Front.mgr_outputs WatchListManager.outputs
done_now t i h = ground arith

ends_now :
    (t : State) (i : Inputs)
    → t.fsm ≡ active
    → t.conflict_reg ≡ false
    → t.in_flight ≡ 0
    → (mgr_outputs t i).done ≡ true
    → answers t i ≡ false
    → ((step t i).fsm ≡ finished) × ((step t i).conflict_reg ≡ false)
unfolding step fsm_starting detect_conflict
ends_now t i fa nc nf d na = ground arith

done_port : (t : State) → t.fsm ≡ finished → (outputs t).done ≡ true
unfolding outputs
done_port t h = ground arith

conflict_port : (t : State) → t.conflict_reg ≡ false → (outputs t).conflict ≡ false
unfolding outputs
conflict_port t h = h

-- A drained accelerator that is started on a literal whose list is empty, while nobody writes to
-- the memories or takes implications, is busy for three cycles and then done, without a conflict
-- and without an implication; one more edge leaves it drained.
pub empty_list_ends :
    (s : State) (i j k l m : Inputs)
    → IsDrained s
    → i.start ≡ true
    → i.false_lit < 1024
    → list_length s.front.mem i.false_lit ≡ 0
    → (Calm i × Calm j × Calm k × Calm l)
    → let t = step (step (step s i) j) k in
      let e = step t l in
      ((step s i).fsm ≡ active)
      × ((step (step s i) j).fsm ≡ active)
      × (t.fsm ≡ active)
      × ((outputs e).done ≡ true)
      × ((outputs e).conflict ≡ false)
      × (e.impl_fifo ≡ s.impl_fifo)
      × IsDrained (step e m)
empty_list_ends s i j k l m d st lo len (ci, cj, ck, cl) =
    let s2 = step (step s i) j in
    let t = step s2 k in
    let (u1, a2) = opens s i j 0 d st lo (omega arith) len ci cj in
    let (o, over) = finds_none s s2 i.false_lit k ck a2 in
    let u = o.silent in
    let na = vacant_answers t l o.empty.vacant in
    let nothing = Empty-held t o.empty in
    let b = u.flows.balanced in
    let (ff, nc) =
      ends_now t l u.running u.no_conflict (omega (arith, b, nothing)) (done_now t l over) na in
    let (seen, none, mi) = done_seen_step t l u.running over in
    (
      u1.running,
      a2.opened.silent.running,
      u.running,
      done_port (step t l) ff,
      conflict_port (step t l) nc,
      fifo-Calm t l cl na ∙ u.fifo_kept,
      IsDrained-after t l m ff mi (held_after_empty t l nothing none)
          (step-Flows t l 0 u.running u.flows).tracked.len_fits,
    )
