-- ===== src/Cdcl.antt =====
-- src/software/CDCL.c: the data of the solver, its literals, its clauses and its trail.
pub mod Propagate
pub mod Models
pub mod Budget
pub mod Watches
pub mod Steps
pub mod Moves
pub mod Visits
pub mod Body
pub mod Guard
pub mod Guarded
pub mod Walk
pub mod Complete
pub mod Rounds
pub mod Settled
pub mod Soundness
pub mod Bounds
pub mod Formed
pub mod Backtrack
pub mod Restore
pub mod Unwind
use cdcl_sat_solver.Base.{
  ℕ, zero, suc, ◌+◌, ◌-◌, ◌*◌, ◌/◌, Bool, true, false, ◌==◌, ltb, if◌then◌else◌, bit_at, ℤ, pos,
  negsuc, Option, none, List, [], ◌∷◌, ◌++◌, set_at,
}

-- The value of a variable or a literal: FALSE (0), TRUE (1) or UNASSIGNED (-1).
pub data Value : Type 0 where
  false_value true_value unassigned_value : Value

pub record Clause : Type 0 where
  pub size : ℕ
  pub learnt : Bool
  pub lits : ℕ → ℕ

-- Arrays are functions of the index, without their capacity, and a watch list has its length in
-- itself. A reason of `none` is -1. The scores of the variables are not here.
pub record Solver : Type 0 where
  pub num_vars : ℕ
  pub assigns : ℕ → Value
  pub levels : ℕ → ℕ
  pub reasons : ℕ → Option ℕ
  pub trail : ℕ → ℕ
  pub trail_size : ℕ
  pub prop_head : ℕ
  pub trail_delimiters : ℕ → ℕ
  pub num_decisions : ℕ
  pub watches : ℕ → List ℕ
  pub clauses : ℕ → Clause
  pub clause_count : ℕ

abbrev pub no_lits : Clause
no_lits = record { size = 0; learnt = false; lits = λ _. 0 }

-- `cdcl_create`
abbrev pub create : ℕ → Solver
create num_vars = record {
  num_vars = num_vars;
  assigns = λ _. unassigned_value;
  levels = λ _. 0;
  reasons = λ _. none;
  trail = λ _. 0;
  trail_size = 0;
  prop_head = 0;
  trail_delimiters = λ _. 0;
  num_decisions = 0;
  watches = λ _. [];
  clauses = λ _. no_lits;
  clause_count = 0;
}

-- A signed literal, as its code.
unfoldable pub lit_to_code : ℤ → ℕ
lit_to_code (pos zero) = 1
lit_to_code (pos (suc n)) = 2 * suc n
lit_to_code (negsuc n) = 2 * suc n + 1

abbrev pub lit_var : ℕ → ℕ
lit_var code = code / 2

-- `code ^ 1`
unfoldable pub lit_neg : ℕ → ℕ
lit_neg code = if bit_at 0 code then code - 1 else code + 1

-- `value ^ 1` of a value that is 0 or 1.
abbrev pub flip : Value → Value
flip false_value = true_value
flip true_value = false_value
flip unassigned_value = unassigned_value

unfoldable pub lit_value : Solver → ℕ → Value
lit_value s code =
    if bit_at 0 code then flip (s.assigns (lit_var code)) else s.assigns (lit_var code)

-- The value that makes a literal true.
abbrev pub value_of : ℕ → Value
value_of code = if bit_at 0 code then false_value else true_value

unfoldable pub enqueue : Solver → ℕ → Option ℕ → Solver
enqueue s code reason = record s {
  assigns = set_at s.assigns (lit_var code) (value_of code);
  levels = set_at s.levels (lit_var code) s.num_decisions;
  reasons = set_at s.reasons (lit_var code) reason;
  trail = set_at s.trail s.trail_size code;
  trail_size = s.trail_size + 1;
}

unfoldable pub watch_add : Solver → ℕ → ℕ → Solver
watch_add s lit ci = record s { watches = set_at s.watches lit (s.watches lit ++ ci ∷ []) }

-- A clause at the end of the database; its first two literals are watched, if it has two.
unfoldable pub push_clause : Solver → Clause → Solver
unfolding watch_add
push_clause s c =
    let t = record s {
      clauses = set_at s.clauses s.clause_count c;
      clause_count = s.clause_count + 1;
    } in
    if ltb 1 c.size
    then watch_add (watch_add t (c.lits 0) s.clause_count) (c.lits 1) s.clause_count
    else t

-- `cdcl_add_clause`; its result is the index of the clause.
unfoldable pub add_clause : Solver → (ℕ → ℤ) → ℕ → Solver × ℕ
unfolding push_clause lit_to_code
add_clause s signed_lits len = (
  push_clause s (record { size = len; learnt = false; lits = λ k. lit_to_code (signed_lits k) }),
  s.clause_count,
)

-- `add_learnt_clause`
unfoldable pub add_learnt_clause : Solver → (ℕ → ℕ) → ℕ → Solver × ℕ
unfolding push_clause
add_learnt_clause s lits len =
    (push_clause s (record { size = len; learnt = true; lits = lits }), s.clause_count)

-- `cdcl_get_value`
unfoldable pub get_value : Solver → ℕ → Value
get_value s var =
    if var == 0
    then unassigned_value
    else if ltb s.num_vars var
    then unassigned_value
    else s.assigns var
