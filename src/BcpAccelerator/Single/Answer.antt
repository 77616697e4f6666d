-- ===== src/BcpAccelerator/Single/Answer.antt =====
-- bcp_accelerator.py: the answer to the only clause.
use cdcl_sat_solver.Base.{
  ℕ, suc, ◌≤◌, ◌<◌, ◌≡◌, inl, refl, sym, ap, ap₂, ◌∙◌, subst, false, arith, List, [], ◌∷◌, length,
}
use cdcl_sat_solver.Memory.{Cells}
use cdcl_sat_solver.AssignmentMemory
use cdcl_sat_solver.ClauseMemory.{unpack}
use cdcl_sat_solver.ClausePrefetcher.Fetch
use cdcl_sat_solver.ClauseEvaluator
use cdcl_sat_solver.ClauseEvaluator.{eval, output}
use cdcl_sat_solver.ClauseEvaluator.Verdict.{verdict}
use cdcl_sat_solver.ClauseEvaluator.Run
use cdcl_sat_solver.ClauseEvaluator.Run.{tick, literals, Below}
use cdcl_sat_solver.ClauseEvaluator.Answer.{Presented, answer_lem}
use cdcl_sat_solver.BcpAccelerator.{Inputs, State, eval_outputs, eval_inputs, pre_outputs, step}
use cdcl_sat_solver.BcpAccelerator.Run.{run, AllActive}
use cdcl_sat_solver.BcpAccelerator.Flow.{meta_valid_lem}
use cdcl_sat_solver.BcpAccelerator.Single.{
  Calm, AllCalm, OneClause, watched_id, watched, verdict_on,
}
use cdcl_sat_solver.BcpAccelerator.Single.Keeps.{Silent, Silent-step, contents-Calm}
use cdcl_sat_solver.BcpAccelerator.Single.Evaluate.{
  Working, works, Ready, later_Rest, evaluator_tick, latch_step, step_evaluator,
}
use cdcl_sat_solver.BcpAccelerator.Single.Stages.{AtHand, vacant_answers, vacant_drops}

clause_before : (t : State) (i : Inputs) → (eval_inputs t i).clause ≡ unpack t.fetch.mem.stage2_data
unfolding eval_inputs pre_outputs Fetch.pre_outputs
clause_before t i = refl

id_before : (t : State) (i : Inputs) → (eval_inputs t i).clause_id_in ≡ t.fetch.pre.stage2_cid
unfolding eval_inputs pre_outputs Fetch.pre_outputs
id_before t i = refl

valid_before : (t : State) (i : Inputs) → (eval_inputs t i).meta_valid ≡ t.fetch.pre.stage2_valid
unfolding eval_inputs
valid_before t i = meta_valid_lem t i

-- What the evaluator sees in the cycles of a run.
eval_ins : State → List Inputs → List ClauseEvaluator.Inputs
eval_ins t [] = []
eval_ins t (i ∷ is) = eval_inputs t i ∷ eval_ins (step t i) is

length-eval_ins : (t : State) (is : List Inputs) → length (eval_ins t is) ≡ length is
unfolding eval_ins
length-eval_ins t [] = refl
length-eval_ins t (i ∷ is) = ap suc (length-eval_ins (step t i) is)

-- The evaluator of the accelerator is the evaluator beside a fixed assignment.
evaluator_run :
    (a : Cells) (t : State) (is : List Inputs)
    → AllCalm is
    → t.assign_mem ≡ a
    → (run t is).evaluator
      ≡ ClauseEvaluator.Run.run (AssignmentMemory.rd_data a) t.evaluator (eval_ins t is)
unfolding run ClauseEvaluator.Run.run eval_ins
evaluator_run a t [] c e = refl
evaluator_run a t (i ∷ is) c e =
    evaluator_run a (step t i) is c.1 (ap (λ m. m.assigns) (contents-Calm t i c.0) ∙ e)
    ∙ ap (λ v. ClauseEvaluator.Run.run (AssignmentMemory.rd_data a) v (eval_ins (step t i) is))
        (evaluator_tick t i
          ∙ ap (λ m. tick (AssignmentMemory.rd_data m) t.evaluator (eval_inputs t i)) e)

-- The clause that is at hand is that of the list.
listed_clause :
    (s t : State) (lit : ℕ) (i : Inputs)
    → AtHand s.fetch.mem.cells (watched_id s lit) t
    → (eval_inputs t i).clause ≡ watched s lit
listed_clause s t lit i h = clause_before t i ∙ ap unpack h.word

is_Presented :
    (s t : State) (lit : ℕ) (i : Inputs) (is : List Inputs)
    → OneClause s lit
    → length is ≡ (watched s lit).size
    → AtHand s.fetch.mem.cells (watched_id s lit) t
    → Presented t.evaluator (eval_inputs t i) (eval_ins (step t i) is)
is_Presented s t lit i is one len h =
    let same = sym (listed_clause s t lit i h) in
    record {
      waiting = h.vacant;
      shown = valid_before t i ∙ h.second;
      sat_clear = subst (λ c. c.sat_bit ≡ false) same one.sat_clear;
      some_literal = subst (λ c. 0 < c.size) same one.some_literal;
      at_most_five = subst (λ c. c.size ≤ 5) same one.at_most_five;
      literals_fit = subst (λ c. Below 1024 (literals c)) same one.literals_fit;
      cycles = length-eval_ins (step t i) is ∙ len ∙ ap (λ c. c.size) same;
    }

answered :
    (s t : State) (lit : ℕ) (i : Inputs) (is : List Inputs)
    → AllCalm (i ∷ is)
    → OneClause s lit
    → length is ≡ (watched s lit).size
    → Silent s t
    → AtHand s.fetch.mem.cells (watched_id s lit) t
    → eval_outputs (run t (i ∷ is)) ≡ verdict_on s lit
unfolding eval_outputs eval_ins
answered s t lit i is c one len u h =
    ap ClauseEvaluator.outputs
      (evaluator_run s.assign_mem t (i ∷ is) c (ap (λ m. m.assigns) u.mem_kept))
    ∙ answer_lem (AssignmentMemory.rd_data s.assign_mem) t.evaluator (eval_inputs t i)
        (eval_ins (step t i) is) (is_Presented s t lit i is one len h)
    ∙ ap₂ (λ n cl. verdict (AssignmentMemory.rd_data s.assign_mem) n (literals cl))
        (id_before t i ∙ h.second_id) (listed_clause s t lit i h)

latched :
    (s t : State) (lit : ℕ) (i : Inputs)
    → Calm i
    → OneClause s lit
    → Silent s t
    → AtHand s.fetch.mem.cells (watched_id s lit) t
    → Silent s (step t i) × Working (watched s lit).size (step t i)
latched s t lit i c one u h =
    let same = sym (listed_clause s t lit i h) in
    let e =
      latch_step t.evaluator (eval_inputs t i) h.vacant (valid_before t i ∙ h.second)
        (subst (λ c. c.sat_bit ≡ false) same one.sat_clear) in
    let size : (step t i).evaluator.size_reg ≡ (watched s lit).size =
      ap (λ v. v.size_reg) (step_evaluator t i) ∙ e.2 ∙ sym (ap (λ c. c.size) same) in
    let idx : (step t i).evaluator.lit_idx ≡ 0 = ap (λ v. v.lit_idx) (step_evaluator t i) ∙ e.1 in
    let b = u.flows.balanced in
    let two = h.second in
    (
      Silent-step s t i c (vacant_answers t i h.vacant) (vacant_drops t i h.vacant)
          (inl (ground arith)) u,
      record {
        in_eval = ap (λ v. v.fsm) (step_evaluator t i) ∙ e.0;
        left = omega (arith, idx, size);
        small = subst (λ n. n ≤ 5) (sym size) one.at_most_five;
        rest = later_Rest t i u.running h.no_first h.mgr_idle h.seen;
      },
    )

-- The clause at hand is answered `size + 1` edges later.
pub answers_it :
    (s t : State) (lit : ℕ) (i : Inputs) (is : List Inputs)
    → AllCalm (i ∷ is)
    → OneClause s lit
    → length is ≡ (watched s lit).size
    → Silent s t
    → AtHand s.fetch.mem.cells (watched_id s lit) t
    → Ready s (run t (i ∷ is))
      × AllActive t (i ∷ is)
      × (eval_outputs (run t (i ∷ is)) ≡ verdict_on s lit)
unfolding run
answers_it s t lit i [] c one len u h = absurd (omega (arith, len, one.some_literal))
answers_it s t lit i (j ∷ js) c one len u h =
    let (v, w) = latched s t lit i c.0 one u h in
    let (r, a) = works s (step t i) j js c.1 (subst (λ n. Working n (step t i)) (sym len) w) v in
    (r, (u.running, a), answered s t lit i (j ∷ js) c one len u h)
