-- ===== src/Tests/Evaluator.antt =====
-- clause_evaluator.py on the clause (¬x0 ∨ x1), with x0 true and x1 without a value.
use cdcl_sat_solver.Base.{
  ℕ, ◌≡◌, inl, inr, refl, List, true, false, ◌==◌, if◌then◌else◌, [], ◌∷◌, ◌++◌, replicate, arith,
}
use cdcl_sat_solver.ClauseMemory.{Clause}
use cdcl_sat_solver.ClauseEvaluator.{
  Inputs, reset, idle, eval, array, lit_true, step, outputs, quiet, conflict, assign_rd_addr,
}
use cdcl_sat_solver.ClauseEvaluator.Verdict.{Assignment, verdict, verdict_satisfied}
use cdcl_sat_solver.ClauseEvaluator.Run.{tick, run, trace, literals}
use cdcl_sat_solver.ClauseEvaluator.Answer.{Presented, evaluates}
use cdcl_sat_solver.ClauseEvaluator.Session.{Job, pause, clause, cycles, answers_all}
use cdcl_sat_solver.ClauseEvaluator.Semantics.{IsRight, answer_sound, conflict_complete}
use cdcl_sat_solver.ClauseEvaluator.Hang.{empty_clause_hangs}

-- Variable 0 is true; variable 5 is false.
abbrev known : Assignment
known x = if x == 0 then 2 else if x == 5 then 1 else 0

abbrev of_size : ℕ → ℕ → ℕ → Clause
of_size n l k = record {
  sat_bit = false;
  size = n;
  lit0 = l;
  lit1 = k;
  lit2 = 0;
  lit3 = 0;
  lit4 = 0;
}

abbrev present : Clause → Inputs
present c = record { clause_id_in = 7; meta_valid = true; clause = c; assign_rd_data = 0 }

abbrev nothing : Inputs
nothing = record {
  clause_id_in = 0;
  meta_valid = false;
  clause = of_size 0 0 0;
  assign_rd_data = 0;
}

-- The clause is a unit clause, and implies that variable 1 is true.
unit_run :
    (outputs
      (run known reset (present (of_size 2 1 2) ∷ nothing ∷ nothing ∷ []))).result_implied_var
    ≡ 1
unfolding run tick step outputs array lit_true assign_rd_addr
unit_run = refl

unit-Presented : Presented reset (present (of_size 2 1 2)) (nothing ∷ nothing ∷ [])
unfolding array
unit-Presented = record {
  waiting = refl;
  shown = refl;
  sat_clear = refl;
  some_literal = omega arith;
  at_most_five = omega arith;
  literals_fit = omega arith;
  cycles = refl;
}

-- The clause (¬x0 ∨ x5) is false.
conflict-Presented : Presented reset (present (of_size 2 1 10)) (nothing ∷ nothing ∷ [])
unfolding array
conflict-Presented = record {
  waiting = refl;
  shown = refl;
  sat_clear = refl;
  some_literal = omega arith;
  at_most_five = omega arith;
  literals_fit = omega arith;
  cycles = refl;
}

evaluates_example :
    (trace known reset (present (of_size 2 1 2) ∷ (nothing ∷ nothing ∷ []) ++ nothing ∷ [])
      ≡ quiet ∷ replicate 2 quiet ++ verdict known 7 (literals (of_size 2 1 2)) ∷ [])
    × ((run known reset (present (of_size 2 1 2) ∷ (nothing ∷ nothing ∷ []) ++ nothing ∷ [])).fsm
        ≡ idle)
evaluates_example =
    evaluates known reset (present (of_size 2 1 2)) (nothing ∷ nothing ∷ []) nothing unit-Presented

-- A clause whose sat bit is set, a pause, and the unit clause.
abbrev jobs : List Job
jobs =
    clause (present (record (of_size 0 0 0) { sat_bit = true })) [] nothing
    ∷ pause nothing
    ∷ clause (present (of_size 2 1 2)) (nothing ∷ nothing ∷ []) nothing
    ∷ []

answers_all_example :
    (trace known reset (cycles jobs)
      ≡ quiet
        ∷ verdict_satisfied 7
        ∷ quiet
        ∷ quiet
        ∷ quiet
        ∷ quiet
        ∷ verdict known 7 (1 ∷ 2 ∷ [])
        ∷ [])
    × ((run known reset (cycles jobs)).fsm ≡ idle)
unfolding array
answers_all_example = answers_all known reset jobs refl (
  refl,
  refl,
  inl refl,
  (refl, (refl, refl, inr (omega arith, omega arith, (omega arith, (omega arith, tt))), tt)),
)

answer_sound_example :
    let o = outputs (run known reset (present (of_size 2 1 2) ∷ nothing ∷ nothing ∷ [])) in
    IsRight known (λ x. if x == 0 then true else false) (literals (of_size 2 1 2)) o o.result_status
answer_sound_example =
    answer_sound known reset (present (of_size 2 1 2)) (nothing ∷ nothing ∷ [])
      (λ x. if x == 0 then true else false) unit-Presented (λ x. ground arith)
      (λ x. (ground arith, ground arith))

conflict_complete_example :
    (outputs (run known reset (present (of_size 2 1 10) ∷ nothing ∷ nothing ∷ []))).result_status
    ≡ conflict
unfolding array
conflict_complete_example =
    conflict_complete known reset (present (of_size 2 1 10)) (nothing ∷ nothing ∷ [])
      conflict-Presented (λ x. ground arith) (λ v e. ground (arith, e 0, e 5))

empty_clause_hangs_example :
    (outputs (run known reset (present (of_size 0 0 0) ∷ nothing ∷ nothing ∷ [])) ≡ quiet)
    × ((run known reset (present (of_size 0 0 0) ∷ nothing ∷ nothing ∷ [])).fsm ≡ eval)
empty_clause_hangs_example =
    empty_clause_hangs known reset (present (of_size 0 0 0)) (nothing ∷ nothing ∷ []) refl refl refl
      refl
