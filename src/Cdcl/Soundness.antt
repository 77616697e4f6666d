-- ===== src/Cdcl/Soundness.antt =====
-- CDCL.c, propagate: it ends, and what its answers mean.
use cdcl_sat_solver.Base.{
  ℕ, zero, suc, ◌+◌, ◌<◌, ◌≤◌, ◌≡◌, ◌⊎◌, inl, inr, refl, sym, ◌∙◌, subst, Bool, true, false, ltb,
  ltb→lt, if◌then◌else◌, Bool-cases, arith, Option, none, some, [],
}
use cdcl_sat_solver.Cdcl.{Clause, Solver, lit_neg}
use cdcl_sat_solver.Cdcl.Propagate.{
  Outcome, settled, conflict, out_of_fuel, take_literal, round, after_round, propagate,
}
use cdcl_sat_solver.Cdcl.Models.{Holds, Satisfies, Agrees, false_literal}
use cdcl_sat_solver.Cdcl.Budget.{budget, trail-budget}
use cdcl_sat_solver.Cdcl.Visits.{AllFalse}
use cdcl_sat_solver.Cdcl.Rounds.{Guarded}
use cdcl_sat_solver.Cdcl.Settled.{
  GuardedEnd, propagate-GuardedEnd, WellWatched, Guarded-WellWatched,
}
use cdcl_sat_solver.Cdcl.Walk.{
  WellFormed, WalkResult, Propagated, propagate-Propagated, starts, walk-WalkResult,
  round-WalkResult,
}

-- The loop was left.
Ended : Outcome → Type 0
Ended (out_of_fuel t) = true ≡ false
Ended _ = Unit

-- A round moves the head on, within the budget.
round-forward :
    (s : Solver) → WellFormed s → s.prop_head < s.trail_size → s.prop_head < (round s).0.prop_head
unfolding round WalkResult
round-forward s w lt =
    let f = lit_neg (s.trail s.prop_head) in
    omega (arith, (walk-WalkResult (take_literal s) f [] (s.watches f) (starts s w lt)).1.ahead)

after_round-Ended :
    (s : Solver) (more : Solver → Outcome) (n : ℕ)
    → ((t : Solver) → WellFormed t → budget t < n + t.prop_head → 0 < n → Ended (more t))
    → budget s < suc n + s.prop_head
    → s.prop_head < s.trail_size
    → (p : Solver × Option ℕ) → s.prop_head < p.0.prop_head
    → WalkResult s p
    → Ended (after_round more p)
unfolding Ended WalkResult
after_round-Ended s more n h room lt (t, none) forward w =
    h t w.0 (omega (arith, w.1.kept_budget)) (omega (arith, trail-budget s))
after_round-Ended s more n h room lt (t, some ci) forward w = tt

propagate-Ended :
    (n : ℕ) (s : Solver) → WellFormed s → budget s < n + s.prop_head → 0 < n → Ended (propagate n s)
unfolding propagate Ended
propagate-Ended zero s w room p = absurd (omega arith)
propagate-Ended (suc n) s w room p = elim (Bool-cases (ltb s.prop_head s.trail_size)) [
  | inl e ↦
      let lt = ltb→lt s.prop_head s.trail_size e in
      subst (λ b. Ended (if b then after_round (propagate n) (round s) else settled s)) (sym e)
        (after_round-Ended s (propagate n) n (propagate-Ended n) room lt (round s)
          (round-forward s w lt) (round-WalkResult s w lt))
  | inr e ↦
      subst (λ b. Ended (if b then after_round (propagate n) (round s) else settled s)) (sym e) tt
]

-- With every literal of the trail propagated and the watched literals as they should be, or with a
-- clause that is false.
pub Ends : Outcome → Type 0
Ends o =
    ((t : Solver) × (o ≡ settled t)
      × WellFormed t
      × Guarded t
      × (t.trail_size ≤ t.prop_head)
      × ((ci : ℕ) → WellWatched t (t.clauses ci)))
    ⊎ ((ci : ℕ) × (t : Solver) × (o ≡ conflict ci t)
        × WellFormed t
        × (ci < t.clause_count)
        × AllFalse t (t.clauses ci))

Ended-Ends : (s : Solver) (o : Outcome) → Ended o → Propagated s o → GuardedEnd o → Ends o
unfolding Ended Propagated GuardedEnd Ends
Ended-Ends s (settled t) e p g = inl (t, refl, p.0, g, p.2, (λ ci. Guarded-WellWatched t ci p.2 g))
Ended-Ends s (conflict ci t) e p g = inr (ci, t, refl, p.0, p.2, p.3)
Ended-Ends s (out_of_fuel t) e p g = let bad : true ≡ false = e in absurd (cc)

-- From a well-formed state in which each watched literal that is false is still to be propagated, or
-- stands beside one that is true, and with more fuel than the trail has literals and the variables
-- without a value together, propagate ends in one of two ways. Either every literal of the trail is
-- propagated; the state is again of that kind, and each clause of two literals or more has a watched
-- literal that is true, or two that are not false. Or it ends with a clause of the database whose
-- literals are all false.
pub propagate-Ends :
    (n : ℕ) (s : Solver) → WellFormed s → Guarded s → budget s < n → Ends (propagate n s)
propagate-Ends n s w g room =
    Ended-Ends s (propagate n s) (propagate-Ended n s w (omega arith) (omega arith))
      (propagate-Propagated n s w) (propagate-GuardedEnd n s w g)

no_model_fails :
    (v : ℕ → Bool) (t : Solver) (c : Clause) → Agrees v t → AllFalse t c → Holds v c → true ≡ false
unfolding AllFalse
no_model_fails v t c ag af (k, lt, e) = sym e ∙ false_literal v t (c.lits k) ag (af k lt)

-- Propagation that settles without losing a model.
pub Settles : (ℕ → Bool) → Outcome → Type 0
Settles v o =
    (t : Solver) × (o ≡ settled t)
    × WellFormed t
    × (t.trail_size ≤ t.prop_head)
    × Satisfies v t
    × Agrees v t

Ended-Settles :
    (v : ℕ → Bool) (s : Solver) (o : Outcome)
    → Satisfies v s
    → Agrees v s
    → Ended o
    → Propagated s o
    → Settles v o
unfolding Ended Propagated Settles
Ended-Settles v s (settled t) sat ag e p =
    let (a, b) = p.1.forth v sat ag in (t, refl, p.0, p.2, a, b)
Ended-Settles v s (conflict ci t) sat ag e p =
    let (a, b) = p.1.forth v sat ag in
    let bad = no_model_fails v t (t.clauses ci) b p.3 (a ci p.2) in absurd (cc)
Ended-Settles v s (out_of_fuel t) sat ag e p = let bad : true ≡ false = e in absurd (cc)

-- If a valuation satisfies the clauses and agrees with the assignments of a well-formed state, then
-- propagate, with more fuel than the trail has literals and the variables without a value together,
-- finds no conflict: it ends with every literal of the trail propagated, and the valuation satisfies
-- the clauses and agrees with all assignments still, those that were implied included.
pub keeps_model :
    (n : ℕ) (s : Solver) (v : ℕ → Bool)
    → WellFormed s
    → budget s < n
    → Satisfies v s
    → Agrees v s
    → Settles v (propagate n s)
keeps_model n s v w room sat ag =
    Ended-Settles v s (propagate n s) sat ag (propagate-Ended n s w (omega arith) (omega arith))
      (propagate-Propagated n s w)
