-- ===== src/Cdcl/Rounds.antt =====
-- CDCL.c, propagate: the guard of the watch lists over a list and over a round.
use cdcl_sat_solver.Base.{
  ℕ, ◌+◌, ◌<◌, ◌≤◌, ◌≡◌, ◌⊎◌, inl, inr, sym, ap, ◌∙◌, true, false, arith, List, [], ◌∷◌, ◌++◌,
  Option, none, some,
}
use cdcl_sat_solver.Cdcl.{Clause, Solver, lit_neg, lit_value}
use cdcl_sat_solver.Cdcl.Propagate.{
  Visit, stays, moves, fails, visit, set_watches, on_visit, walk, take_literal, round,
}
use cdcl_sat_solver.Cdcl.Watches.{Watched, count, marks}
use cdcl_sat_solver.Cdcl.Steps.{Walking}
use cdcl_sat_solver.Cdcl.Visits.{VisitOf}
use cdcl_sat_solver.Cdcl.Body.{visit-VisitOf}
use cdcl_sat_solver.Cdcl.Guard.{Safe, Safe-map, Guarding}
use cdcl_sat_solver.Cdcl.Complete.{VisitGuard, visit-VisitGuard}
use cdcl_sat_solver.Cdcl.Walk.{WellFormed, starts}

-- Between two lists there is no exception.
pub record Guarded (s : Solver) : Type 0 where
  pub safe :
      (ci : ℕ)
      → 1 < (s.clauses ci).size
      → Safe s ((s.clauses ci).lits 0) ((s.clauses ci).lits 1) (true ≡ false)
        × Safe s ((s.clauses ci).lits 1) ((s.clauses ci).lits 0) (true ≡ false)
  pub ordered : s.prop_head ≤ s.trail_size

unfoldable pub GuardResult : Solver × Option ℕ → Type 0
GuardResult (t, none) = Guarded t
GuardResult (t, some ci) = Unit

no_exception : (s : Solver) (l m f : ℕ) → Safe s l m ((l ≡ f) × (0 < 0)) → Safe s l m (true ≡ false)
no_exception s l m f h =
    Safe-map s l m ((l ≡ f) × (0 < 0)) (true ≡ false) (λ x. absurd (omega (arith, x.1))) h

list_done :
    (s : Solver) (f : ℕ) (kept : List ℕ) → Guarding s f kept [] → Guarded (set_watches s f kept)
unfolding lit_value Safe
list_done s f kept g = record {
  safe = λ ci two. let (a, b) = g.safe ci two in (no_exception s _ _ f a, no_exception s _ _ f b);
  ordered = g.ordered;
}

on_visit-GuardResult :
    (f : ℕ) (kept : List ℕ) (ci : ℕ) (rest : List ℕ) (s : Solver)
    (stay move fail : Solver → Solver × Option ℕ)
    → ((t : Solver)
        → Walking t f (kept ++ ci ∷ []) rest
        → Guarding t f (kept ++ ci ∷ []) rest
        → GuardResult (stay t))
    → ((t : Solver) → Walking t f kept rest → Guarding t f kept rest → GuardResult (move t))
    → ((t : Solver) → GuardResult (fail t))
    → (r : Visit) → VisitOf s f kept ci rest r
    → VisitGuard f kept ci rest r
    → GuardResult (on_visit stay move fail r)
unfolding VisitOf VisitGuard
on_visit-GuardResult f kept ci rest s stay move fail a b c (stays t) w g = a t w.0 g
on_visit-GuardResult f kept ci rest s stay move fail a b c (moves t) w g = b t w.0 g
on_visit-GuardResult f kept ci rest s stay move fail a b c (fails t) w g = c t

walk-GuardResult :
    (s : Solver) (f : ℕ) (kept rest : List ℕ)
    → Walking s f kept rest
    → Guarding s f kept rest
    → GuardResult (walk s f kept rest)
unfolding walk GuardResult
walk-GuardResult s f kept [] w g = list_done s f kept g
walk-GuardResult s f kept (ci ∷ rest) w g =
    on_visit-GuardResult f kept ci rest s (λ t. walk t f (kept ++ ci ∷ []) rest)
      (λ t. walk t f kept rest) (λ t. (set_watches t f (kept ++ ci ∷ rest), some ci))
      (λ t. walk-GuardResult t f (kept ++ ci ∷ []) rest) (λ t. walk-GuardResult t f kept rest)
      (λ t. tt) (visit s f ci) (visit-VisitOf s f ci kept rest w)
      (visit-VisitGuard s f ci kept rest w g)

neg-neg : (l : ℕ) → lit_neg (lit_neg l) ≡ l
unfolding lit_neg
neg-neg l = ground arith

head_or_later : (i h : ℕ) → h ≤ i → (i ≡ h) ⊎ (h + 1 ≤ i)
head_or_later i h le = ground arith

-- The next literal leaves the queue, and the clauses of its negation's list become the exception.
taken_safe :
    (s : Solver) (l m : ℕ) (left : ℕ)
    → (l ≡ lit_neg (s.trail s.prop_head) → 0 < left)
    → Safe s l m (true ≡ false)
    → Safe (take_literal s) l m ((l ≡ lit_neg (s.trail s.prop_head)) × (0 < left))
unfolding Safe lit_value
taken_safe s l m left more (inl n) = inl n
taken_safe s l m left more (inr (inl (i, le, lt, e))) = elim (head_or_later i s.prop_head le) [
  | inl same ↦
      let it : l ≡ lit_neg (s.trail s.prop_head) =
        sym (neg-neg l) ∙ ap lit_neg (sym e ∙ ap s.trail same) in
      inr (inr (inr (it, more it)))
  | inr later ↦ inr (inl (i, later, lt, e))
]
taken_safe s l m left more (inr (inr (inl e))) = inr (inr (inl e))
taken_safe s l m left more (inr (inr (inr bad))) = absurd (cc)

watching_both :
    (c : Clause) (f : ℕ)
    → 1 < c.size
    → (c.lits 0 ≡ f → 0 < marks c f) × (c.lits 1 ≡ f → 0 < marks c f)
watching_both c f two = ((λ e. ground arith), (λ e. ground arith))

starts-Guarding :
    (s : Solver)
    → WellFormed s
    → Guarded s
    → s.prop_head < s.trail_size
    → let f = lit_neg (s.trail s.prop_head) in Guarding (take_literal s) f [] (s.watches f)
unfolding Watched
starts-Guarding s w g lt =
    let f = lit_neg (s.trail s.prop_head) in
    record {
      safe = λ ci two.
          let (a, b) = g.safe ci two in
          let c = s.clauses ci in
          let (x, y) = watching_both c f two in
          (
            taken_safe s (c.lits 0) (c.lits 1) (count ci (s.watches f))
                (λ e. omega (arith, x e, w.watched f ci)) a,
            taken_safe s (c.lits 1) (c.lits 0) (count ci (s.watches f))
                (λ e. omega (arith, y e, w.watched f ci)) b,
          );
      true_kept = λ ci more. absurd (omega arith);
      ordered = omega arith;
    }

pub round-GuardResult :
    (s : Solver) → WellFormed s → Guarded s → s.prop_head < s.trail_size → GuardResult (round s)
unfolding round
round-GuardResult s w g lt =
    let f = lit_neg (s.trail s.prop_head) in
    walk-GuardResult (take_literal s) f [] (s.watches f) (starts s w lt) (starts-Guarding s w g lt)
