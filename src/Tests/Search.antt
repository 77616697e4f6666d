-- ===== src/Tests/Search.antt =====
-- CDCL.c on two small clauses.
use cdcl_sat_solver.Base.{
  ℕ, zero, suc, ◌<◌, ◌≤◌, ◌≡◌, refl, false, set_at-all, arith, ℤ, pos, some, none,
}
use cdcl_sat_solver.Cdcl.{
  Value, false_value, unassigned_value, Solver, create, enqueue, add_clause, push_clause, watch_add,
  lit_to_code, lit_value, lit_neg,
}
use cdcl_sat_solver.Cdcl.Propagate.{
  Outcome, settled, conflict, out_of_fuel, propagate, round, walk, visit, false_second, find_watch,
  watch_or_imply, unit_or_conflict, move_watch,
}
use cdcl_sat_solver.Cdcl.Models.{IsValue, Satisfies, Agrees}
use cdcl_sat_solver.Cdcl.Budget.{budget, free_upto}
use cdcl_sat_solver.Cdcl.Walk.{WellFormed}
use cdcl_sat_solver.Cdcl.Rounds.{Guarded}
use cdcl_sat_solver.Cdcl.Settled.{unassigned-Guarded, enqueue-Guarded}
use cdcl_sat_solver.Cdcl.Soundness.{Ends, Settles, propagate-Ends, keeps_model}
use cdcl_sat_solver.Cdcl.Bounds.{state_of, trail_fits}
use cdcl_sat_solver.Cdcl.Formed.{
  IsLiteral, create-WellFormed, add_clause-WellFormed, enqueue-WellFormed,
}
use cdcl_sat_solver.Cdcl.Backtrack.{backtrack}
use cdcl_sat_solver.Cdcl.Restore.{Delimited, Undone}
use cdcl_sat_solver.Cdcl.Unwind.{backtracks}
use cdcl_sat_solver.Tests.Upload.{one_then_not_two}

-- x1 or x2, and x1 or not x2.
abbrev one_then_two : ℕ → ℤ
one_then_two zero = pos 1
one_then_two _ = pos 2

first_literals : (k : ℕ) → k < 2 → IsLiteral 2 (one_then_not_two k)
unfolding IsLiteral
first_literals zero lt = (omega arith, omega arith)
first_literals (suc k) lt = omega arith

second_literals : (k : ℕ) → k < 2 → IsLiteral 2 (one_then_two k)
unfolding IsLiteral
second_literals zero lt = (omega arith, omega arith)
second_literals (suc k) lt = (omega arith, omega arith)

abbrev one_clause : Solver
unfolding add_clause
one_clause = (add_clause (create 2) one_then_not_two 2).0

abbrev two_clauses : Solver
unfolding add_clause
two_clauses = (add_clause one_clause one_then_two 2).0

one_clause-WellFormed : WellFormed one_clause
unfolding add_clause
one_clause-WellFormed =
    add_clause-WellFormed (create 2) one_then_not_two 2 (create-WellFormed 2) first_literals

two_clauses-WellFormed : WellFormed two_clauses
unfolding add_clause push_clause watch_add
two_clauses-WellFormed =
    add_clause-WellFormed one_clause one_then_two 2 one_clause-WellFormed second_literals

-- x1 is false.
abbrev decide : Solver → Solver
decide s = enqueue s 3 none

value_after : Outcome → ℕ → Value
value_after (settled s) x = s.assigns x
value_after (conflict ci s) x = unassigned_value
value_after (out_of_fuel s) x = unassigned_value

implies_not_two : value_after (propagate 9 (decide one_clause)) 2 ≡ false_value
unfolding value_after propagate round walk visit false_second find_watch watch_or_imply
    unit_or_conflict move_watch watch_add push_clause add_clause lit_to_code lit_value lit_neg
    enqueue
implies_not_two = refl

first_holds : Satisfies (λ _. false) (decide one_clause)
unfolding enqueue add_clause push_clause watch_add lit_to_code
first_holds zero lt = (1, omega arith, refl)
first_holds (suc ci) lt = absurd (omega arith)

all_false : Agrees (λ _. false) (decide one_clause)
unfolding enqueue add_clause push_clause watch_add
all_false x =
    set_at-all (λ a. IsValue a false) (λ _. unassigned_value) 1 false_value x refl (λ _. tt)

keeps_model_example : Settles (λ _. false) (propagate 9 (decide one_clause))
unfolding budget free_upto enqueue add_clause push_clause watch_add lit_value lit_to_code
keeps_model_example =
    keeps_model 9 (decide one_clause) (λ _. false)
      (enqueue-WellFormed one_clause 3 none one_clause-WellFormed refl) (omega arith) first_holds
      all_false

two_clauses-Guarded : Guarded (decide two_clauses)
unfolding add_clause push_clause watch_add lit_value
two_clauses-Guarded =
    enqueue-Guarded two_clauses 3 none refl
      (unassigned-Guarded two_clauses (λ x. refl) (omega arith))

propagate-Ends_example : Ends (propagate 9 (decide two_clauses))
unfolding budget free_upto enqueue add_clause push_clause watch_add lit_value
propagate-Ends_example =
    propagate-Ends 9 (decide two_clauses)
      (enqueue-WellFormed two_clauses 3 none two_clauses-WellFormed refl) two_clauses-Guarded
      (omega arith)

trail_fits_example :
    (budget (state_of (propagate 9 (decide two_clauses))) ≤ 2)
    × ((state_of (propagate 9 (decide two_clauses))).trail_size ≤ 2)
unfolding budget free_upto enqueue add_clause push_clause watch_add lit_value
trail_fits_example =
    trail_fits 9 (decide two_clauses)
      (enqueue-WellFormed two_clauses 3 none two_clauses-WellFormed refl) (omega arith)

-- x1 false, then x2 true above it.
abbrev two_levels : Solver
unfolding enqueue
two_levels =
    let s = record (create 2) { trail_delimiters = λ i. i; num_decisions = 1 } in
    let t = record (enqueue s 3 none) { num_decisions = 2 } in enqueue t 4 (some 7)

two_levels-Delimited : Delimited two_levels
unfolding enqueue
two_levels-Delimited = record { on_trail = λ i lt. omega arith; in_order = λ i j le lt. le }

backtracks_example :
    ((backtrack two_levels 1).trail_size ≡ 1)
    × ((backtrack two_levels 1).num_decisions ≡ 1)
    × ((backtrack two_levels 1).prop_head ≡ 1)
    × Undone two_levels (backtrack two_levels 1) 1
unfolding enqueue
backtracks_example = backtracks two_levels 1 two_levels-Delimited (omega arith)
