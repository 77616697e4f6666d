-- ===== src/Cdcl/Backtrack.antt =====
-- CDCL.c, backtrack: the assignments above a decision level are undone.
use cdcl_sat_solver.Base.{ℕ, zero, suc, ◌+◌, ◌-◌, ◌==◌, ltb, leb, if◌then◌else◌, none, set_at}
use cdcl_sat_solver.Cdcl.{unassigned_value, Solver, lit_var}

-- The last literal of the trail loses its value.
unfoldable pub pop_literal : Solver → Solver
pop_literal s =
    let var = lit_var (s.trail (s.trail_size - 1)) in
    record s {
      trail_size = s.trail_size - 1;
      assigns = set_at s.assigns var unassigned_value;
      reasons = set_at s.reasons var none;
    }

abbrev pub pop_decision : Solver → Solver
pop_decision s = record s { num_decisions = s.num_decisions - 1 }

-- The body of `while (s->trail_size > 0)`, after its first test.
unfoldable pub unwind_one : Solver → Solver
unfolding pop_literal
unwind_one s =
    if leb s.trail_size (s.trail_delimiters (s.num_decisions - 1))
    then pop_decision s
    else pop_literal s

-- `while (s->trail_size > 0)`, for so many rounds at the most.
unfoldable pub unwind : ℕ → ℕ → Solver → Solver
unfolding unwind_one
unwind zero level s = s
unwind (suc n) level s =
    let rest = unwind n level (unwind_one s) in
    if s.trail_size == 0 then s else if leb s.num_decisions level then s else rest

-- Each round takes a literal or a decision away.
unfoldable pub backtrack : Solver → ℕ → Solver
unfolding unwind
backtrack s level =
    let t = unwind (s.trail_size + s.num_decisions) level s in
    record t {
      num_decisions = if ltb level t.num_decisions then level else t.num_decisions;
      prop_head = t.trail_size;
    }
