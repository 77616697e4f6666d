-- ===== src/Cdcl/Propagate.antt =====
-- CDCL.c, propagate: unit propagation over the watch lists.
use cdcl_sat_solver.Base.{
  ℕ, zero, suc, ◌+◌, ◌-◌, Bool, true, false, ◌==◌, ltb, if◌then◌else◌, List, [], ◌∷◌, ◌++◌, Option,
  none, some, set_at, swap_at,
}
use cdcl_sat_solver.Cdcl.{
  Value, false_value, true_value, Clause, Solver, lit_neg, lit_value, enqueue, watch_add,
}

abbrev pub is_true : Value → Bool
is_true true_value = true
is_true _ = false

abbrev pub is_false : Value → Bool
is_false false_value = true
is_false _ = false

-- The false literal goes to place 1, if it stands at place 0.
unfoldable pub false_second : Clause → ℕ → Clause
false_second c false_lit =
    if c.lits 0 == false_lit then record c { lits = swap_at c.lits 0 1 } else c

-- `for (k = 2; ...)`: the first place from k on, of the next so many, whose literal is not false.
unfoldable pub find_watch : Solver → Clause → ℕ → ℕ → Option ℕ
find_watch s c k zero = none
find_watch s c k (suc n) =
    let later = find_watch s c (k + 1) n in
    if is_false (lit_value s (c.lits k)) then later else some k

-- The literals at the places 1 and k change places, and the new one at place 1 is watched.
unfoldable pub move_watch : Solver → ℕ → Clause → ℕ → Solver
unfolding watch_add
move_watch s ci c k =
    let d = record c { lits = swap_at c.lits 1 k } in
    watch_add (record s { clauses = set_at s.clauses ci d }) (d.lits 1) ci

-- What becomes of a clause of the list: it stays, it goes to another list, or it is a conflict.
pub data Visit : Type 0 where
  stays : Solver → Visit
  moves : Solver → Visit
  fails : Solver → Visit

-- No literal to watch was found.
unfoldable pub unit_or_conflict : Solver → ℕ → ℕ → Visit
unfolding enqueue
unit_or_conflict s ci lit =
    if is_false (lit_value s lit) then fails s else stays (enqueue s lit (some ci))

unfoldable pub watch_or_imply : Solver → ℕ → Clause → Option ℕ → Visit
unfolding move_watch unit_or_conflict
watch_or_imply s ci c (some k) = moves (move_watch s ci c k)
watch_or_imply s ci c none = unit_or_conflict s ci (c.lits 0)

-- The body of the loop over a list.
unfoldable pub visit : Solver → ℕ → ℕ → Visit
unfolding false_second find_watch watch_or_imply
visit s false_lit ci =
    let c = false_second (s.clauses ci) false_lit in
    let t = record s { clauses = set_at s.clauses ci c } in
    if is_true (lit_value t (c.lits 0))
    then stays t
    else watch_or_imply t ci c (find_watch t c 2 (c.size - 2))

-- The list of the false literal, cut to the clauses that stay.
abbrev pub set_watches : Solver → ℕ → List ℕ → Solver
set_watches s lit cis = record s { watches = set_at s.watches lit cis }

abbrev pub on_visit {ℓ} : {A : Type ℓ} → (Solver → A) → (Solver → A) → (Solver → A) → Visit → A
on_visit stay move fail (stays t) = stay t
on_visit stay move fail (moves t) = move t
on_visit stay move fail (fails t) = fail t

-- The loop over a list, with the clauses that stay so far and those to come; the clause of a conflict.
unfoldable pub walk : Solver → ℕ → List ℕ → List ℕ → Solver × Option ℕ
unfolding visit
walk s false_lit kept [] = (set_watches s false_lit kept, none)
walk s false_lit kept (ci ∷ rest) =
    on_visit (λ t. walk t false_lit (kept ++ ci ∷ []) rest) (λ t. walk t false_lit kept rest)
      (λ t. (set_watches t false_lit (kept ++ ci ∷ rest), some ci)) (visit s false_lit ci)

-- How propagation ends: with all literals propagated, with a conflict, or without fuel.
pub data Outcome : Type 0 where
  settled : Solver → Outcome
  conflict : ℕ → Solver → Outcome
  out_of_fuel : Solver → Outcome

abbrev pub take_literal : Solver → Solver
take_literal s = record s { prop_head = s.prop_head + 1 }

-- One round of `while (s->prop_head < s->trail_size)`.
unfoldable pub round : Solver → Solver × Option ℕ
unfolding walk lit_neg
round s =
    let false_lit = lit_neg (s.trail s.prop_head) in
    walk (take_literal s) false_lit [] (s.watches false_lit)

abbrev pub after_round : (Solver → Outcome) → Solver × Option ℕ → Outcome
after_round more (s, none) = more s
after_round more (s, some ci) = conflict ci s

-- `propagate`, for so many rounds at the most.
unfoldable pub propagate : ℕ → Solver → Outcome
unfolding round
propagate zero s = out_of_fuel s
propagate (suc n) s =
    let rest = after_round (propagate n) (round s) in
    if ltb s.prop_head s.trail_size then rest else settled s
