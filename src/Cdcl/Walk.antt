-- ===== src/Cdcl/Walk.antt =====
-- CDCL.c, propagate: a whole list, and all literals of the trail.
use cdcl_sat_solver.Base.{
  ℕ, zero, suc, ◌<◌, ◌≤◌, ◌≡◌, inl, inr, refl, sym, subst, ltb, ltb→lt, if◌then◌else◌, Bool-cases,
  arith, set_at-same, List, [], ◌∷◌, ◌++◌, Option, none, some,
}
use mathlib.Core.List.{append-nil}
use cdcl_sat_solver.Cdcl.{true_value, Solver, lit_value, lit_neg}
use cdcl_sat_solver.Cdcl.Propagate.{
  Visit, stays, moves, fails, visit, set_watches, on_visit, walk, Outcome, settled, conflict,
  out_of_fuel, take_literal, round, after_round, propagate,
}
use cdcl_sat_solver.Cdcl.Models.{lit_value-neg}
use cdcl_sat_solver.Cdcl.Watches.{Watched, listed, watches-two}
use cdcl_sat_solver.Cdcl.Budget.{budget}
use cdcl_sat_solver.Cdcl.Steps.{InRange, Walking, Sound, Sound-refl, Sound-trans}
use cdcl_sat_solver.Cdcl.Visits.{AllFalse, VisitOf, in_database}
use cdcl_sat_solver.Cdcl.Body.{visit-VisitOf}

-- The lists, the trail and the clauses fit together.
pub record WellFormed (s : Solver) : Type 0 where
  pub watched : Watched s.watches s.clauses
  pub past : (ci : ℕ) → s.clause_count ≤ ci → (s.clauses ci).size ≡ 0
  pub within : (ci : ℕ) → InRange s.num_vars (s.clauses ci)
  pub pending : (i : ℕ) → s.prop_head ≤ i → i < s.trail_size → lit_value s (s.trail i) ≡ true_value

-- A conflict's clause is false.
unfoldable pub Failed : Solver → Option ℕ → Type 0
Failed s none = Unit
Failed s (some ci) = (ci < s.clause_count) × AllFalse s (s.clauses ci)

ends :
    (s : Solver) (f : ℕ) (kept rest : List ℕ)
    → Walking s f kept rest
    → WellFormed (set_watches s f (kept ++ rest)) × Sound s (set_watches s f (kept ++ rest))
unfolding lit_value budget
ends s f kept rest w = (
  record { watched = w.watched; past = w.past; within = w.within; pending = w.pending },
  record { forth = λ v a b. (a, b); back = λ v a. a; kept_budget = refl; ahead = omega arith },
)

ends_whole :
    (s : Solver) (f : ℕ) (kept : List ℕ)
    → Walking s f kept []
    → WellFormed (set_watches s f kept) × Sound s (set_watches s f kept)
ends_whole s f kept w =
    subst (λ l. WellFormed (set_watches s f l) × Sound s (set_watches s f l)) (append-nil kept)
      (ends s f kept [] w)

-- What the loop over a list leads to.
unfoldable pub WalkResult : Solver → Solver × Option ℕ → Type 0
WalkResult s (t, r) = WellFormed t × Sound s t × Failed t r

after-Sound : (s t : Solver) (p : Solver × Option ℕ) → Sound s t → WalkResult t p → WalkResult s p
unfolding WalkResult
after-Sound s t p a b = (b.0, Sound-trans a b.1, b.2)

on_visit-WalkResult :
    (s : Solver) (f : ℕ) (kept : List ℕ) (ci : ℕ) (rest : List ℕ)
    (stay move fail : Solver → Solver × Option ℕ)
    → ((t : Solver) → Walking t f (kept ++ ci ∷ []) rest → WalkResult t (stay t))
    → ((t : Solver) → Walking t f kept rest → WalkResult t (move t))
    → ((t : Solver)
        → Walking t f kept (ci ∷ rest)
        → AllFalse t (t.clauses ci)
        → WalkResult t (fail t))
    → (r : Visit) → VisitOf s f kept ci rest r
    → WalkResult s (on_visit stay move fail r)
unfolding VisitOf
on_visit-WalkResult s f kept ci rest stay move fail a b c (stays t) v =
    after-Sound s t (stay t) v.1 (a t v.0)
on_visit-WalkResult s f kept ci rest stay move fail a b c (moves t) v =
    after-Sound s t (move t) v.1 (b t v.0)
on_visit-WalkResult s f kept ci rest stay move fail a b c (fails t) v =
    after-Sound s t (fail t) v.1 (c t v.0 v.2)

fails-WalkResult :
    (t : Solver) (f ci : ℕ) (kept rest : List ℕ)
    → Walking t f kept (ci ∷ rest)
    → AllFalse t (t.clauses ci)
    → WalkResult t (set_watches t f (kept ++ ci ∷ rest), some ci)
unfolding WalkResult Failed AllFalse lit_value
fails-WalkResult t f ci kept rest w no_lit =
    let (a, b) = ends t f kept (ci ∷ rest) w in
    let two = watches-two (t.clauses ci) f (listed t.watches t.clauses f ci kept rest w.watched) in
    (a, b, (in_database t f ci kept (ci ∷ rest) two w, no_lit))

pub walk-WalkResult :
    (s : Solver) (f : ℕ) (kept rest : List ℕ)
    → Walking s f kept rest
    → WalkResult s (walk s f kept rest)
unfolding walk WalkResult Failed
walk-WalkResult s f kept [] w = let (a, b) = ends_whole s f kept w in (a, b, tt)
walk-WalkResult s f kept (ci ∷ rest) w =
    on_visit-WalkResult s f kept ci rest (λ t. walk t f (kept ++ ci ∷ []) rest)
      (λ t. walk t f kept rest) (λ t. (set_watches t f (kept ++ ci ∷ rest), some ci))
      (λ t. walk-WalkResult t f (kept ++ ci ∷ []) rest) (λ t. walk-WalkResult t f kept rest)
      (λ t. fails-WalkResult t f ci kept rest) (visit s f ci) (visit-VisitOf s f ci kept rest w)

-- The next literal's negation is false, and its list is whole.
pub starts :
    (s : Solver)
    → WellFormed s
    → s.prop_head < s.trail_size
    → let f = lit_neg (s.trail s.prop_head) in Walking (take_literal s) f [] (s.watches f)
unfolding lit_value
starts s w lt =
    let f = lit_neg (s.trail s.prop_head) in
    record {
      watched = subst (λ x. Watched x s.clauses) (sym (set_at-same s.watches f)) w.watched;
      past = w.past;
      within = w.within;
      falsified = lit_value-neg s (s.trail s.prop_head) (w.pending s.prop_head (omega arith) lt);
      pending = λ i le below. w.pending i (omega arith) below;
    }

takes_on : (s : Solver) → Sound s (take_literal s)
unfolding budget
takes_on s = record {
  forth = λ v a b. (a, b);
  back = λ v a. a;
  kept_budget = refl;
  ahead = omega arith;
}

pub round-WalkResult :
    (s : Solver) → WellFormed s → s.prop_head < s.trail_size → WalkResult s (round s)
unfolding round
round-WalkResult s w lt =
    let f = lit_neg (s.trail s.prop_head) in
    after-Sound s (take_literal s) (round s) (takes_on s)
      (walk-WalkResult (take_literal s) f [] (s.watches f) (starts s w lt))

-- What propagation leads to.
unfoldable pub Propagated : Solver → Outcome → Type 0
Propagated s (settled t) = WellFormed t × Sound s t × (t.trail_size ≤ t.prop_head)
Propagated s (conflict ci t) =
    WellFormed t × Sound s t × (ci < t.clause_count) × AllFalse t (t.clauses ci)
Propagated s (out_of_fuel t) = WellFormed t × Sound s t

after_round-Propagated :
    (s : Solver) (more : Solver → Outcome)
    → ((t : Solver) → WellFormed t → Propagated t (more t))
    → (p : Solver × Option ℕ) → WalkResult s p
    → Propagated s (after_round more p)
unfolding WalkResult Failed Propagated
after_round-Propagated s more h (t, none) w = later (more t) (h t w.0)
  where
    later : (o : Outcome) → Propagated t o → Propagated s o
    later (settled u) x = (x.0, Sound-trans w.1 x.1, x.2)
    later (conflict ci u) x = (x.0, Sound-trans w.1 x.1, x.2, x.3)
    later (out_of_fuel u) x = (x.0, Sound-trans w.1 x.1)
after_round-Propagated s more h (t, some ci) w = (w.0, w.1, w.2.0, w.2.1)

pub propagate-Propagated : (n : ℕ) (s : Solver) → WellFormed s → Propagated s (propagate n s)
unfolding propagate Propagated
propagate-Propagated zero s w = (w, Sound-refl s)
propagate-Propagated (suc n) s w = elim (Bool-cases (ltb s.prop_head s.trail_size)) [
  | inl e ↦
      subst (λ b. Propagated s (if b then after_round (propagate n) (round s) else settled s))
        (sym e)
        (after_round-Propagated s (propagate n) (propagate-Propagated n) (round s)
          (round-WalkResult s w (ltb→lt s.prop_head s.trail_size e)))
  | inr e ↦
      subst (λ b. Propagated s (if b then after_round (propagate n) (round s) else settled s))
        (sym e) (w, Sound-refl s, ground arith)
]
