-- ===== src/Cdcl/Bounds.antt =====
-- CDCL.c, propagate: the trail stays inside its array of num_vars + 1 places.
use cdcl_sat_solver.Base.{ℕ, ◌≤◌, ◌≡◌, arith}
use cdcl_sat_solver.Cdcl.{Solver}
use cdcl_sat_solver.Cdcl.Propagate.{Outcome, settled, conflict, out_of_fuel, propagate}
use cdcl_sat_solver.Cdcl.Budget.{budget, trail-budget}
use cdcl_sat_solver.Cdcl.Walk.{WellFormed, Propagated, propagate-Propagated}

-- The state in which the loop was left, or stands when the fuel is used up.
abbrev pub state_of : Outcome → Solver
state_of (settled t) = t
state_of (conflict ci t) = t
state_of (out_of_fuel t) = t

kept : (s : Solver) (o : Outcome) → Propagated s o → budget (state_of o) ≡ budget s
unfolding Propagated
kept s (settled t) p = p.1.kept_budget
kept s (conflict ci t) p = p.1.kept_budget
kept s (out_of_fuel t) p = p.1.kept_budget

-- If the trail of a well-formed state and its variables without a value are together no more than its
-- variables, then so they are after any number of rounds of propagate, whether it has settled, has
-- found a conflict or has used up its fuel; so the trail has never more literals than the solver has
-- variables.
pub trail_fits :
    (n : ℕ) (s : Solver)
    → WellFormed s
    → budget s ≤ s.num_vars
    → (budget (state_of (propagate n s)) ≤ s.num_vars)
      × ((state_of (propagate n s)).trail_size ≤ s.num_vars)
trail_fits n s w le =
    let t = state_of (propagate n s) in
    let same = kept s (propagate n s) (propagate-Propagated n s w) in
    (omega (arith, le, same), omega (arith, le, same, trail-budget t))
