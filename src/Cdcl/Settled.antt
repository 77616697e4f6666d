-- ===== src/Cdcl/Settled.antt =====
-- CDCL.c, propagate: the watched literals when it has settled.
use cdcl_sat_solver.Base.{
  ℕ, zero, suc, ◌<◌, ◌≤◌, ◌≡◌, ◌≢◌, ◌⊎◌, inl, inr, refl, sym, ap, ◌∙◌, subst, Bool, true, false,
  ltb, ltb→lt, bit_at, if◌then◌else◌, Bool-cases, arith, Option, none, some,
}
use cdcl_sat_solver.Cdcl.{
  false_value, true_value, unassigned_value, Clause, Solver, lit_value, lit_var, flip, enqueue,
}
use cdcl_sat_solver.Cdcl.Propagate.{Outcome, settled, round, after_round, propagate}
use cdcl_sat_solver.Cdcl.Guard.{Safe, enqueue-Safe}
use cdcl_sat_solver.Cdcl.Walk.{WellFormed, WalkResult, round-WalkResult}
use cdcl_sat_solver.Cdcl.Rounds.{Guarded, GuardResult, round-GuardResult}

-- A guarded state is reached, unless there is a conflict.
unfoldable pub GuardedEnd : Outcome → Type 0
GuardedEnd (settled t) = Guarded t
GuardedEnd _ = Unit

after_round-GuardedEnd :
    (s : Solver) (more : Solver → Outcome)
    → ((t : Solver) → WellFormed t → Guarded t → GuardedEnd (more t))
    → (p : Solver × Option ℕ) → WalkResult s p
    → GuardResult p
    → GuardedEnd (after_round more p)
unfolding WalkResult GuardResult GuardedEnd
after_round-GuardedEnd s more h (t, none) w g = h t w.0 g
after_round-GuardedEnd s more h (t, some ci) w g = tt

pub propagate-GuardedEnd :
    (n : ℕ) (s : Solver) → WellFormed s → Guarded s → GuardedEnd (propagate n s)
unfolding propagate GuardedEnd
propagate-GuardedEnd zero s w g = tt
propagate-GuardedEnd (suc n) s w g = elim (Bool-cases (ltb s.prop_head s.trail_size)) [
  | inl e ↦
      let lt = ltb→lt s.prop_head s.trail_size e in
      subst (λ b. GuardedEnd (if b then after_round (propagate n) (round s) else settled s)) (sym e)
        (after_round-GuardedEnd s (propagate n) (propagate-GuardedEnd n) (round s)
          (round-WalkResult s w lt) (round-GuardResult s w g lt))
  | inr e ↦
      subst (λ b. GuardedEnd (if b then after_round (propagate n) (round s) else settled s)) (sym e)
        g
]

-- A clause of two literals or more has a watched literal that is true, or two that are not false.
pub WellWatched : Solver → Clause → Type 0
WellWatched s c =
    (c.size ≤ 1)
    ⊎ ((lit_value s (c.lits 0) ≡ true_value)
        ⊎ ((lit_value s (c.lits 1) ≡ true_value)
            ⊎ ((lit_value s (c.lits 0) ≢ false_value) × (lit_value s (c.lits 1) ≢ false_value))))

both_watched :
    (s : Solver) (l m : ℕ)
    → s.trail_size ≤ s.prop_head
    → Safe s l m (true ≡ false)
    → (lit_value s l ≢ false_value) ⊎ (lit_value s m ≡ true_value)
unfolding Safe
both_watched s l m h (inl n) = inl n
both_watched s l m h (inr (inl (i, le, lt, e))) = absurd (omega arith)
both_watched s l m h (inr (inr (inl e))) = inr e
both_watched s l m h (inr (inr (inr bad))) = absurd (cc)

at_most_one : (n : ℕ) → (n ≤ 1) ⊎ (1 < n)
at_most_one n = ground arith

pub Guarded-WellWatched :
    (s : Solver) (ci : ℕ) → s.trail_size ≤ s.prop_head → Guarded s → WellWatched s (s.clauses ci)
unfolding WellWatched
Guarded-WellWatched s ci h g = elim (at_most_one (s.clauses ci).size) [
  | inl small ↦ inl small
  | inr two ↦
      let (a, b) = g.safe ci two in
      elim (both_watched s _ _ h a) [
        | inr second ↦ inr (inr (inl second))
        | inl x ↦ elim (both_watched s _ _ h b) [
          | inr first ↦ inr (inl first)
          | inl y ↦ inr (inr (inr (x, y)))
        ]
      ]
]

-- A state whose variables have no value is guarded, and putting a literal on the trail keeps the guard.
unassigned_literal :
    (s : Solver) (l : ℕ) → ((x : ℕ) → s.assigns x ≡ unassigned_value) → lit_value s l ≢ false_value
unfolding lit_value
unassigned_literal s l u e =
    let no_value : lit_value s l ≡ unassigned_value =
      ap (λ v. if bit_at 0 l then flip v else v) (u (lit_var l)) ∙ neither (bit_at 0 l) in
    let no : false_value ≡ unassigned_value = sym e ∙ no_value in absurd (cc)
  where
    neither :
        (b : Bool) → (if b then flip unassigned_value else unassigned_value) ≡ unassigned_value
    neither true = refl
    neither false = refl

pub unassigned-Guarded :
    (s : Solver)
    → ((x : ℕ) → s.assigns x ≡ unassigned_value)
    → s.prop_head ≤ s.trail_size
    → Guarded s
unfolding Safe
unassigned-Guarded s u h = record {
  safe = λ ci two. (inl (unassigned_literal s _ u), inl (unassigned_literal s _ u));
  ordered = h;
}

pub enqueue-Guarded :
    (s : Solver) (x : ℕ) (r : Option ℕ)
    → lit_value s x ≡ unassigned_value
    → Guarded s
    → Guarded (enqueue s x r)
unfolding enqueue
enqueue-Guarded s x r u g = record {
  safe = λ ci two.
      let (a, b) = g.safe ci two in
      (enqueue-Safe s _ _ x r _ g.ordered u a, enqueue-Safe s _ _ x r _ g.ordered u b);
  ordered = omega (arith, g.ordered);
}
