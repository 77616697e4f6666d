-- ===== src/BcpAccelerator/Single/Verdict.antt =====
-- bcp_accelerator.py: the edge at which the answer to the only clause is shown.
use cdcl_sat_solver.Base.{
  ℕ, ◌<◌, ◌≡◌, inl, refl, sym, ap, ◌∙◌, subst, true, false, arith, List, [], ◌∷◌, ◌++◌,
  if◌then◌else◌, Bool-cases, inr,
}
use cdcl_sat_solver.ClauseEvaluator
use cdcl_sat_solver.ClauseEvaluator.{output}
use cdcl_sat_solver.ClauseEvaluator.Verdict.{
  Assignment, verdict, any_true, unassigned_lits, verdict_open,
}
use cdcl_sat_solver.ImplicationFifo.{default_fifo_depth}
use cdcl_sat_solver.ImplicationFifo.Entries.{IsEntry}
use cdcl_sat_solver.ImplicationFifo.Inv.{IsValid}
use cdcl_sat_solver.ImplicationFifo.Queue
use cdcl_sat_solver.ImplicationFifo.Queue.{Queue}
use cdcl_sat_solver.ImplicationFifo.Refine.{contents, step_refines}
use cdcl_sat_solver.BcpAccelerator.{
  Inputs, State, active, finished, fsm_starting, eval_outputs, fifo_inputs, detect_conflict, step,
  is_conflict,
}
use cdcl_sat_solver.BcpAccelerator.Single.{implied}

open_carries :
    (cid : ℕ) (us : List ℕ)
    → ((verdict_open cid us).result_valid ≡ true) × ((verdict_open cid us).result_clause_id ≡ cid)
open_carries cid [] = (refl, refl)
open_carries cid (l ∷ []) = (refl, refl)
open_carries cid (l ∷ k ∷ us) = (refl, refl)

-- Every verdict is shown, with the number of its clause.
pub verdict_carries :
    (a : Assignment) (cid : ℕ) (ls : List ℕ)
    → ((verdict a cid ls).result_valid ≡ true) × ((verdict a cid ls).result_clause_id ≡ cid)
verdict_carries a cid ls = elim (Bool-cases (any_true a ls)) [
  | inl y ↦ rw y (refl, refl)
  | inr n ↦ rw n (open_carries cid (unassigned_lits a ls))
]

var_fits : (e : ClauseEvaluator.State) → (ClauseEvaluator.outputs e).result_implied_var < 512
unfolding ClauseEvaluator.outputs
var_fits e = ground arith

-- The registers after the answer.
pub answer_regs :
    (t : State) (i : Inputs) (v : ClauseEvaluator.Outputs)
    → t.fsm ≡ active
    → t.conflict_reg ≡ false
    → t.conflict_cid_reg ≡ 0
    → eval_outputs t ≡ v
    → v.result_valid ≡ true
    → 0 < t.in_flight
    → ((step t i).fsm ≡ (if is_conflict v.result_status then finished else active))
      × ((step t i).conflict_reg ≡ is_conflict v.result_status)
      × ((step t i).conflict_cid_reg
          ≡ (if is_conflict v.result_status then v.result_clause_id else 0))
unfolding step fsm_starting detect_conflict
answer_regs t i v fa nc nq e va fl =
    let status : (eval_outputs t).result_status ≡ v.result_status = ap (λ o. o.result_status) e in
    let cid : (eval_outputs t).result_clause_id ≡ v.result_clause_id =
      ap (λ o. o.result_clause_id) e in
    let valid : (eval_outputs t).result_valid ≡ true = ap (λ o. o.result_valid) e ∙ va in
    ground arith

-- The implication of a UNIT answer is pushed.
pub queue_after :
    (t : State) (i : Inputs) (v : ClauseEvaluator.Outputs)
    → i.impl_ready ≡ false
    → IsValid default_fifo_depth t.impl_fifo
    → eval_outputs t ≡ v
    → v.result_valid ≡ true
    → v.result_clause_id < 8192
    → contents default_fifo_depth (step t i).impl_fifo
      ≡ contents default_fifo_depth t.impl_fifo
        ++ implied (contents default_fifo_depth t.impl_fifo) v
unfolding step Queue.step fifo_inputs eval_outputs
queue_after t i v np ok e va cf =
    let fits : IsEntry (fifo_inputs t i).push = record {
      var_fits = var_fits t.evaluator;
      reason_fits = subst (λ o. o.result_clause_id < 8192) (sym e) cf;
    } in
    step_refines default_fifo_depth t.impl_fifo (fifo_inputs t i) ok fits ∙ rw (np, e, va) refl
