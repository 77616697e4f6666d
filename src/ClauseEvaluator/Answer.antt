-- ===== src/ClauseEvaluator/Answer.antt =====
-- clause_evaluator.py: the answer to a clause, and when it is shown.
use cdcl_sat_solver.Base.{
  ℕ, ◌≤◌, ◌<◌, ◌≡◌, refl, sym, ap, ◌∙◌, ap₂, subst, true, false, List, [], ◌∷◌, ◌++◌, length,
  replicate, Bool-cases, inl, inr, arith,
}
use cdcl_sat_solver.ClauseEvaluator.{Inputs, State, idle, eval, output, array, step, outputs, quiet}
use cdcl_sat_solver.ClauseEvaluator.Verdict.{
  Assignment, any_true, unassigned_lits, verdict, verdict_satisfied, verdict_open,
}
use cdcl_sat_solver.ClauseEvaluator.Run.{
  tick, run, trace, lits_from, literals, Below, last_or, Evaluated, run-Evaluated,
}

Below-unassigned_lits :
    (a : Assignment) (ls : List ℕ) → Below 1024 ls → Below 1024 (unassigned_lits a ls)
Below-unassigned_lits a [] w = tt
Below-unassigned_lits a (l ∷ ls) w = ground (arith, Below-unassigned_lits a ls w.1)

-- What OUTPUT shows, by how many literals without a value the registers stand for.
result_open :
    (t : State) (us : List ℕ) (d : ℕ)
    → t.fsm ≡ output
    → t.is_satisfied ≡ false
    → t.unassigned_count ≡ length us
    → t.last_unassigned_lit ≡ last_or d us
    → Below 1024 us
    → outputs t ≡ verdict_open t.clause_id_reg us
unfolding outputs
result_open t [] d fo sf uc la w = ground arith
result_open t (l ∷ []) d fo sf uc la w = ground arith
result_open t (l ∷ k ∷ us) d fo sf uc la w = ground arith

result_satisfied :
    (t : State)
    → t.fsm ≡ output
    → t.is_satisfied ≡ true
    → outputs t ≡ verdict_satisfied t.clause_id_reg
unfolding outputs
result_satisfied t fo sf = ground arith

-- What OUTPUT shows of the accumulated registers is the verdict.
outputs-Evaluated :
    (a : Assignment) (s t : State) (ls : List ℕ)
    → Evaluated a s ls t
    → t.fsm ≡ output
    → s.is_satisfied ≡ false
    → s.unassigned_count ≡ 0
    → Below 1024 ls
    → outputs t ≡ verdict a s.clause_id_reg ls
outputs-Evaluated a s t ls e fo sf uc w = elim (Bool-cases (any_true a ls)) [
  | inl y ↦ rw (y, ← e.id_kept) (result_satisfied t fo (ground (arith, e.satisfied_acc)))
  | inr n ↦
      rw (n, ← e.id_kept)
        (result_open t (unassigned_lits a ls) s.last_unassigned_lit fo
          (ground (arith, e.satisfied_acc)) (ground (arith, e.count_acc)) e.last_acc
          (Below-unassigned_lits a ls w))
]

pub trace-append :
    (a : Assignment) (s : State) (is js : List Inputs)
    → trace a s (is ++ js) ≡ trace a s is ++ trace a (run a s is) js
unfolding trace run
trace-append a s [] js = refl
trace-append a s (i ∷ is) js = ap (λ t. outputs s ∷ t) (trace-append a (tick a s i) is js)

pub run-append :
    (a : Assignment) (s : State) (is js : List Inputs) → run a s (is ++ js) ≡ run a (run a s is) js
unfolding run
run-append a s [] js = refl
run-append a s (i ∷ is) js = run-append a (tick a s i) is js

tick-output : (a : Assignment) (s : State) (i : Inputs) → s.fsm ≡ output → (tick a s i).fsm ≡ idle
unfolding tick step
tick-output a s i h = ground arith

record Latched (i : Inputs) (t : State) : Type 0 where
  in_eval : t.fsm ≡ eval
  open_still : t.is_satisfied ≡ false
  none_yet : t.unassigned_count ≡ 0
  at_first : t.lit_idx ≡ 0
  size_taken : t.size_reg ≡ i.clause.size
  lits_taken : t.lit_regs ≡ array i.clause
  id_taken : t.clause_id_reg ≡ i.clause_id_in

tick-Latched :
    (a : Assignment) (s : State) (i : Inputs)
    → s.fsm ≡ idle
    → i.meta_valid ≡ true
    → i.clause.sat_bit ≡ false
    → Latched i (tick a s i)
unfolding tick step
tick-Latched a s i fi mv sb = ground arith

outputs-idle : (s : State) → s.fsm ≡ idle → outputs s ≡ quiet
unfolding outputs
outputs-idle s h = ground arith

-- A clause stands on the inputs of an evaluator in IDLE, with its sat bit clear and one to five
-- literals of variables that exist, and inputs for as many more cycles follow.
pub record Presented (s : State) (i : Inputs) (is : List Inputs) : Type 0 where
  pub waiting : s.fsm ≡ idle
  pub shown : i.meta_valid ≡ true
  pub sat_clear : i.clause.sat_bit ≡ false
  pub some_literal : 0 < i.clause.size
  pub at_most_five : i.clause.size ≤ 5
  pub literals_fit : Below 1024 (literals i.clause)
  pub cycles : length is ≡ i.clause.size

-- The cycle of the answer, and those before it.
record Answered (a : Assignment) (s : State) (i : Inputs) (is : List Inputs) : Type 0 where
  in_output : (run a s (i ∷ is)).fsm ≡ output
  answer : outputs (run a s (i ∷ is)) ≡ verdict a i.clause_id_in (literals i.clause)
  silent : trace a s (i ∷ is) ≡ quiet ∷ replicate i.clause.size quiet

run-Answered :
    (a : Assignment) (s : State) (i : Inputs) (is : List Inputs)
    → Presented s i is
    → Answered a s i is
unfolding trace run
run-Answered a s i [] p = absurd (omega (arith, p.cycles, p.some_literal))
run-Answered a s i (k ∷ ks) p =
    let l = tick-Latched a s i p.waiting p.shown p.sat_clear in
    let t = tick a s i in
    let same : lits_from t.lit_regs t.lit_idx (length (k ∷ ks)) ≡ literals i.clause =
      ap₂ (λ f q. lits_from f q (length (k ∷ ks))) l.lits_taken l.at_first
      ∙ ap (λ m. lits_from (array i.clause) 0 m) p.cycles in
    let below : Below 1024 (lits_from t.lit_regs t.lit_idx (length (k ∷ ks))) =
      subst (Below 1024) (sym same) p.literals_fit in
    let (done, out, silent) =
      run-Evaluated a t k ks l.in_eval (omega (arith, l.at_first, l.size_taken, p.cycles))
        (omega (arith, l.size_taken, p.at_most_five)) (omega (arith, l.none_yet)) below in
    record {
      in_output = out;
      answer =
          outputs-Evaluated a t (run a t (k ∷ ks)) _ done out l.open_still l.none_yet below
          ∙ ap₂ (λ cid ls. verdict a cid ls) l.id_taken same;
      silent = ap₂ ◌∷◌ (outputs-idle s p.waiting) (silent ∙ ap (λ m. replicate m quiet) p.cycles);
    }

-- The answer to a presented clause, on the ports `size + 1` edges after it was latched.
pub answer_lem :
    (a : Assignment) (s : State) (i : Inputs) (is : List Inputs)
    → Presented s i is
    → outputs (run a s (i ∷ is)) ≡ verdict a i.clause_id_in (literals i.clause)
answer_lem a s i is p = (run-Answered a s i is p).answer

-- A clause of one to five literals that is latched in IDLE with its sat bit clear is answered
-- `size + 1` edges later, whatever stands on the inputs meanwhile: nothing is shown before, the
-- answer is the verdict on its literals, and one more edge leads back to IDLE.
pub evaluates :
    (a : Assignment) (s : State) (i : Inputs) (is : List Inputs) (j : Inputs)
    → Presented s i is
    → (trace a s (i ∷ is ++ j ∷ [])
        ≡ quiet ∷ replicate i.clause.size quiet
          ++ verdict a i.clause_id_in (literals i.clause) ∷ [])
      × ((run a s (i ∷ is ++ j ∷ [])).fsm ≡ idle)
evaluates a s i is j p =
    let d = run-Answered a s i is p in
    (
      trace-append a s (i ∷ is) (j ∷ [])
          ∙ ap₂ ◌++◌ d.silent (unfold trace in ap (λ o. o ∷ []) d.answer),
      ap (λ t. t.fsm) (run-append a s (i ∷ is) (j ∷ []))
          ∙ (unfold run in tick-output a (run a s (i ∷ is)) j d.in_output),
    )

-- A clause whose sat bit is set, shown in IDLE, is answered SATISFIED in the next cycle.
pub sat_bit_exit :
    (a : Assignment) (s : State) (i j : Inputs)
    → s.fsm ≡ idle
    → i.meta_valid ≡ true
    → i.clause.sat_bit ≡ true
    → (trace a s (i ∷ j ∷ []) ≡ quiet ∷ verdict_satisfied i.clause_id_in ∷ [])
      × ((run a s (i ∷ j ∷ [])).fsm ≡ idle)
unfolding trace run tick step outputs
sat_bit_exit a s i j fi mv sb = ground arith
