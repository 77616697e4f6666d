-- ===== src/ClauseEvaluator/Verdict.antt =====
-- What clause_evaluator.py should answer of a list of literals, by the literals that are true and
-- the ones whose variable has no value.
use cdcl_sat_solver.Base.{
  ℕ, ◌/◌, Bool, true, false, not, ◌||◌, ◌==◌, if◌then◌else◌, bit_at, List, [], ◌∷◌,
}
use cdcl_sat_solver.AssignmentMemory.{unassigned}
use cdcl_sat_solver.ClauseEvaluator.{Outputs, satisfied, unit, conflict, unresolved, lit_true}

-- The assignments, as the memory gives them for each variable.
abbrev pub Assignment : Type 0
Assignment = ℕ → ℕ

abbrev pub any_true : Assignment → List ℕ → Bool
any_true a [] = false
any_true a (l ∷ ls) = lit_true l (a (l / 2)) || any_true a ls

abbrev pub unassigned_lits : Assignment → List ℕ → List ℕ
unassigned_lits a [] = []
unassigned_lits a (l ∷ ls) =
    let rest = unassigned_lits a ls in if a (l / 2) == unassigned then l ∷ rest else rest

-- The answer for a clause that no literal satisfies, from its literals without a value.
abbrev pub verdict_open : ℕ → List ℕ → Outputs
verdict_open cid [] = record {
  result_status = conflict;
  result_implied_var = 0;
  result_implied_val = false;
  result_clause_id = cid;
  result_valid = true;
}
verdict_open cid (l ∷ []) = record {
  result_status = unit;
  result_implied_var = l / 2;
  result_implied_val = not (bit_at 0 l);
  result_clause_id = cid;
  result_valid = true;
}
verdict_open cid (l ∷ k ∷ ls) = record {
  result_status = unresolved;
  result_implied_var = 0;
  result_implied_val = false;
  result_clause_id = cid;
  result_valid = true;
}

abbrev pub verdict_satisfied : ℕ → Outputs
verdict_satisfied cid = record {
  result_status = satisfied;
  result_implied_var = 0;
  result_implied_val = false;
  result_clause_id = cid;
  result_valid = true;
}

abbrev pub verdict : Assignment → ℕ → List ℕ → Outputs
verdict a cid ls =
    if any_true a ls then verdict_satisfied cid else verdict_open cid (unassigned_lits a ls)
