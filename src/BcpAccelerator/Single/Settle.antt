-- ===== src/BcpAccelerator/Single/Settle.antt =====
-- bcp_accelerator.py: the end of a run, once the answer to the only clause is shown.
use cdcl_sat_solver.Base.{
  ◌+◌, ◌<◌, ◌≡◌, inl, refl, sym, ap, ◌∙◌, subst, true, false, arith, ◌++◌, if◌then◌else◌,
  Bool-cases, inr, bit,
}
use cdcl_sat_solver.ClauseEvaluator
use cdcl_sat_solver.ClauseEvaluator.{output}
use cdcl_sat_solver.ImplicationFifo.{default_fifo_depth}
use cdcl_sat_solver.ImplicationFifo.Inv.{IsValid}
use cdcl_sat_solver.ImplicationFifo.Refine.{contents}
use cdcl_sat_solver.BcpAccelerator.{
  Inputs, State, active, finished, fsm_starting, eval_outputs, detect_conflict, step, outputs,
  is_conflict,
}
use cdcl_sat_solver.BcpAccelerator.Run.{answers, drops}
use cdcl_sat_solver.BcpAccelerator.Flow.{
  held, held_after_empty, stages_step, evaluator_step, answers_lem, meta_valid_lem,
}
use cdcl_sat_solver.BcpAccelerator.Invariant.{IsDrained, Flows, step-Flows, nothing_issued}
use cdcl_sat_solver.BcpAccelerator.Drain.{IsDrained-after}
use cdcl_sat_solver.BcpAccelerator.Single.{Calm, implied, Ended, end_state}
use cdcl_sat_solver.BcpAccelerator.Single.Verdict.{answer_regs, queue_after}
use cdcl_sat_solver.BcpAccelerator.Single.Keeps.{fifo-Calm}
use cdcl_sat_solver.BcpAccelerator.Single.Evaluate.{Ready, Rest, later_Rest}

-- An accelerator that holds nothing, with its list read.
record Over (t : State) : Type 0 where
  nothing_held : held t ≡ 0
  flows : Flows t 0
  rest : Rest t

Ready-Over : (s t : State) (i : Inputs) → Ready s t → Over (step t i)
Ready-Over s t i r =
    let fo = r.in_output in
    let (one, two) = stages_step t i in
    let ns = r.rest.no_second in
    let rest = later_Rest t i r.silent.running r.rest.no_first r.rest.mgr_idle r.rest.seen in
    let e = evaluator_step t i in
    let none : drops t i ≡ false = ground (arith, meta_valid_lem t i) in
    let f1 = rest.no_first in
    let f2 = rest.no_second in
    record {
      nothing_held = ground arith;
      flows =
          subst (λ d. Flows (step t i) (bit d + 0)) none
            (step-Flows t i 0 r.silent.running r.silent.flows);
      rest = rest;
    }

-- The edge after, when there was no conflict.
close_regs :
    (t : State) (i : Inputs)
    → t.fsm ≡ active
    → t.conflict_reg ≡ false
    → t.in_flight ≡ 0
    → t.wlm_done_seen ≡ true
    → answers t i ≡ false
    → ((step t i).fsm ≡ finished)
      × ((step t i).conflict_reg ≡ false)
      × ((step t i).conflict_cid_reg ≡ t.conflict_cid_reg)
unfolding step fsm_starting detect_conflict
close_regs t i fa nc nf se na = ground arith

Over-answers : (t : State) (i : Inputs) → Over t → answers t i ≡ false
Over-answers t i o = let h = o.nothing_held in let a = answers_lem t i in ground arith

Over-step : (t : State) (i : Inputs) → t.fsm ≡ active → Over t → Over (step t i)
Over-step t i fa o =
    let h = o.nothing_held in
    let none : drops t i ≡ false = ground (arith, meta_valid_lem t i) in
    record {
      nothing_held = held_after_empty t i h (nothing_issued t i o.rest.mgr_idle);
      flows = subst (λ d. Flows (step t i) (bit d + 0)) none (step-Flows t i 0 fa o.flows);
      rest = later_Rest t i fa o.rest.no_first o.rest.mgr_idle o.rest.seen;
    }

Over-IsDrained :
    (t : State) (j k : Inputs)
    → (step t j).fsm ≡ finished
    → Over (step t j)
    → IsDrained (step (step t j) k)
Over-IsDrained t j k ff o =
    IsDrained-after t j k ff o.rest.mgr_idle o.nothing_held o.flows.tracked.len_fits

Ended-regs :
    (s e : State) (v : ClauseEvaluator.Outputs)
    → e.fsm ≡ finished
    → e.conflict_reg ≡ is_conflict v.result_status
    → e.conflict_cid_reg ≡ (if is_conflict v.result_status then v.result_clause_id else 0)
    → contents default_fifo_depth e.impl_fifo
      ≡ contents default_fifo_depth s.impl_fifo
        ++ implied (contents default_fifo_depth s.impl_fifo) v
    → Ended s e v
unfolding outputs
Ended-regs s e v ff cr cc q = record {
  is_done = rw ff refl;
  says_conflict = cr;
  says_clause = cc;
  queued = q;
}

pub settles :
    (s t : State) (v : ClauseEvaluator.Outputs) (o j k : Inputs)
    → Calm o × Calm j
    → IsValid default_fifo_depth s.impl_fifo
    → Ready s t
    → eval_outputs t ≡ v
    → v.result_valid ≡ true
    → v.result_clause_id < 8192
    → Ended s (end_state v (step t o) j) v × IsDrained (step (end_state v (step t o) j) k)
settles s t v o j k (co, cj) ok r e va cf =
    let fo = r.in_output in
    let b = r.silent.flows.balanced in
    let over = Ready-Over s t o r in
    let (fsm1, reg1, cid1) =
      answer_regs t o v r.silent.running r.silent.no_conflict r.silent.no_cid e va (ground arith) in
    let q1 : contents default_fifo_depth (step t o).impl_fifo
        ≡ contents default_fifo_depth s.impl_fifo
          ++ implied (contents default_fifo_depth s.impl_fifo) v =
      subst
        (λ f.
          contents default_fifo_depth (step t o).impl_fifo
          ≡ contents default_fifo_depth f ++ implied (contents default_fifo_depth f) v)
        r.silent.fifo_kept
        (queue_after t o v co.no_pop
          (subst (IsValid default_fifo_depth) (sym r.silent.fifo_kept) ok) e va cf) in
    elim (Bool-cases (is_conflict v.result_status)) [
      | inl y ↦ rw y (
        Ended-regs s (step t o) v (fsm1 ∙ rw y refl) reg1 cid1 q1,
        Over-IsDrained t o k (fsm1 ∙ rw y refl) over,
      )
      | inr n ↦
          let fa : (step t o).fsm ≡ active = fsm1 ∙ rw n refl in
          let na = Over-answers (step t o) j over in
          let fl = over.flows.balanced in
          let nh = over.nothing_held in
          let (ff, nc, cc) =
            close_regs (step t o) j fa (reg1 ∙ n) (omega (arith, fl, nh)) over.rest.seen na in
          rw n (
            Ended-regs s (step (step t o) j) v ff (nc ∙ sym n) (cc ∙ cid1)
                (ap (contents default_fifo_depth) (fifo-Calm (step t o) j cj na) ∙ q1),
            Over-IsDrained (step t o) j k ff (Over-step (step t o) j fa over),
          )
    ]
