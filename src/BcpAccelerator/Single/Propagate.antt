-- ===== src/BcpAccelerator/Single/Propagate.antt =====
-- bcp_accelerator.py: a run on a watch list of one clause, as a whole.
use cdcl_sat_solver.Base.{◌≡◌, ◌<◌, true, subst, sym, List, [], ◌∷◌, ◌++◌, length}
use cdcl_sat_solver.AssignmentMemory
use cdcl_sat_solver.ClauseEvaluator.Run.{literals}
use cdcl_sat_solver.ImplicationFifo.{default_fifo_depth}
use cdcl_sat_solver.ImplicationFifo.Inv.{IsValid}
use cdcl_sat_solver.BcpAccelerator.{Inputs, State, active, step}
use cdcl_sat_solver.BcpAccelerator.Run.{run, AllActive}
use cdcl_sat_solver.BcpAccelerator.Invariant.{IsDrained}
use cdcl_sat_solver.BcpAccelerator.Single.{
  AllCalm, OneClause, watched_id, watched, verdict_on, Ended, end_state,
}
use cdcl_sat_solver.BcpAccelerator.Single.Issue.{issued}
use cdcl_sat_solver.BcpAccelerator.Single.Answer.{answers_it}
use cdcl_sat_solver.BcpAccelerator.Single.Verdict.{verdict_carries}
use cdcl_sat_solver.BcpAccelerator.Single.Settle.{settles}

AllCalm-split : (is js : List Inputs) → AllCalm (is ++ js) → AllCalm is × AllCalm js
AllCalm-split [] js c = (tt, c)
AllCalm-split (i ∷ is) js c = let (a, b) = AllCalm-split is js c.1 in ((c.0, a), b)

-- A drained accelerator is started on a literal whose list has one clause, of one to five literals
-- and with its sat bit clear; nobody writes to the memories or takes implications meanwhile. Then
-- it is busy for as many cycles as the clause has literals and five more, and the run ends: at the
-- next edge if the clause is a conflict and one edge later if not, the ports say done, whether the
-- verdict on the clause is CONFLICT and of which clause, the implication of a UNIT verdict has been
-- appended to the queue unless that was full, and one more edge leaves the accelerator drained.
pub propagates :
    (s : State) (i j k l p : Inputs) (is : List Inputs) (o q r : Inputs)
    → IsDrained s
    → IsValid default_fifo_depth s.impl_fifo
    → i.start ≡ true
    → OneClause s i.false_lit
    → AllCalm (i ∷ j ∷ k ∷ l ∷ p ∷ is ++ o ∷ q ∷ [])
    → length is ≡ (watched s i.false_lit).size
    → let v = verdict_on s i.false_lit in
      let t = run (step s i) (j ∷ k ∷ l ∷ p ∷ is) in
      let e = end_state v (step t o) q in
      AllActive (step s i) (j ∷ k ∷ l ∷ p ∷ is)
      × (t.fsm ≡ active)
      × Ended s e v
      × IsDrained (step e r)
unfolding run
propagates s i j k l p is o q r d ok st one c len =
    let (calm, late) = AllCalm-split (i ∷ j ∷ k ∷ l ∷ p ∷ is) (o ∷ q ∷ []) c in
    let (u1, u2, u3, u4, at_hand) =
      issued s i j k l d st one (calm.0, calm.1.0, calm.1.1.0, calm.1.1.1.0) in
    let lit = i.false_lit in
    let (ready, act, answer) =
      answers_it s (step (step (step (step s i) j) k) l) lit p is calm.1.1.1.1 one len u4 at_hand in
    let carries =
      verdict_carries (AssignmentMemory.rd_data s.assign_mem) (watched_id s lit)
        (literals (watched s lit)) in
    let (ended, drained) =
      settles s _ (verdict_on s lit) o q r (late.0, late.1.0) ok ready answer carries.0
        (subst (λ n. n < 8192) (sym carries.1) one.id_fits) in
    ((u1.running, (u2.running, (u3.running, act))), ready.silent.running, ended, drained)
