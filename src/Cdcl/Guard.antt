-- ===== src/Cdcl/Guard.antt =====
-- CDCL.c, propagate: a watched literal that is false is still to be propagated, or the other one is
-- true.
use cdcl_sat_solver.Base.{
  ℕ, ◌<◌, ◌≤◌, ◌≡◌, ◌≢◌, ◌⊎◌, inl, inr, sym, ap, ◌∙◌, subst, false, ◌==◌, if◌then◌else◌, Bool-cases,
  arith, List, [], ◌∷◌, ◌++◌, Option, ==-refl,
}
use cdcl_sat_solver.Cdcl.{
  false_value, true_value, unassigned_value, Clause, Solver, lit_var, lit_neg, lit_value, enqueue,
}
use cdcl_sat_solver.Cdcl.Propagate.{false_second}
use cdcl_sat_solver.Cdcl.Models.{swapped, enqueue-lit_value_other, enqueue-lit_value_self}
use cdcl_sat_solver.Cdcl.Watches.{count, count-append}
use cdcl_sat_solver.Cdcl.Moves.{keeps_true}

-- A literal of the trail that is still to be propagated.
abbrev pub Queued : Solver → ℕ → Type 0
Queued s x = (i : ℕ) × (s.prop_head ≤ i) × (i < s.trail_size) × (s.trail i ≡ x)

-- A watched literal and the other one, or an exception.
unfoldable pub Safe : Solver → ℕ → ℕ → Type 0 → Type 0
Safe s l m Except =
    (lit_value s l ≢ false_value) ⊎ (Queued s (lit_neg l) ⊎ ((lit_value s m ≡ true_value) ⊎ Except))

pub Safe-map :
    (s : Solver) (l m : ℕ) (X Y : Type 0)
    → (X → (lit_value s m ≡ true_value) ⊎ Y)
    → Safe s l m X
    → Safe s l m Y
unfolding Safe
Safe-map s l m X Y f (inl a) = inl a
Safe-map s l m X Y f (inr (inl a)) = inr (inl a)
Safe-map s l m X Y f (inr (inr (inl a))) = inr (inr (inl a))
Safe-map s l m X Y f (inr (inr (inr x))) = inr (inr (f x))

-- Both watched literals of a clause.
abbrev pub BothSafe : Solver → Clause → ℕ → ℕ → Type 0
BothSafe s c f left =
    Safe s (c.lits 0) (c.lits 1) ((c.lits 0 ≡ f) × (0 < left))
    × Safe s (c.lits 1) (c.lits 0) ((c.lits 1 ≡ f) × (0 < left))

-- In the loop over the list of a false literal: its clauses that are still to come are the exception,
-- and those that stay have a watched literal that is true.
pub record Guarding (s : Solver) (f : ℕ) (kept rest : List ℕ) : Type 0 where
  pub safe : (ci : ℕ) → 1 < (s.clauses ci).size → BothSafe s (s.clauses ci) f (count ci rest)
  pub true_kept :
      (ci : ℕ)
      → 0 < count ci kept
      → (lit_value s ((s.clauses ci).lits 0) ≡ true_value)
        ⊎ (lit_value s ((s.clauses ci).lits 1) ≡ true_value)
  pub ordered : s.prop_head ≤ s.trail_size

-- The two literals at the front change places.
BothSafe-swapped :
    (s : Solver) (c : Clause) (f left : ℕ) → BothSafe s c f left → BothSafe s (swapped c 0 1) f left
BothSafe-swapped s c f left b = (b.1, b.0)

pub BothSafe-false_second :
    (s : Solver) (c : Clause) (f left : ℕ)
    → BothSafe s c f left
    → BothSafe s (false_second c f) f left
unfolding false_second
BothSafe-false_second s c f left b = elim (Bool-cases (c.lits 0 == f)) [
  | inl e ↦
      subst (λ x. BothSafe s (if x then swapped c 0 1 else c) f left) (sym e)
        (BothSafe-swapped s c f left b)
  | inr e ↦ subst (λ x. BothSafe s (if x then swapped c 0 1 else c) f left) (sym e) b
]

-- A literal that was not false and is now has just been put on the trail.
one_of_two : (l x : ℕ) → lit_var l ≡ lit_var x → (l ≡ x) ⊎ (lit_neg l ≡ x)
unfolding lit_neg
one_of_two l x e = ground arith

same_var : (l x : ℕ) → (lit_var l ≡ lit_var x) ⊎ (lit_var l ≢ lit_var x)
same_var l x = ground arith

enqueue-Queued_self :
    (s : Solver) (x : ℕ) (r : Option ℕ) → s.prop_head ≤ s.trail_size → Queued (enqueue s x r) x
unfolding enqueue
enqueue-Queued_self s x r h = (
  s.trail_size,
  h,
  omega arith,
  ap (λ b. if b then x else s.trail s.trail_size) (==-refl s.trail_size),
)

enqueue-Queued : (s : Solver) (x y : ℕ) (r : Option ℕ) → Queued s y → Queued (enqueue s x r) y
unfolding enqueue
enqueue-Queued s x y r (i, le, lt, e) =
    let other : (i == s.trail_size) ≡ false = ground arith in
    (i, le, omega arith, ap (λ b. if b then x else s.trail i) other ∙ e)

not_false_after :
    (s : Solver) (l x : ℕ) (r : Option ℕ)
    → s.prop_head ≤ s.trail_size
    → lit_value s l ≢ false_value
    → (lit_value (enqueue s x r) l ≢ false_value) ⊎ Queued (enqueue s x r) (lit_neg l)
not_false_after s l x r h n = elim (same_var l x) [
  | inr ne ↦ inl (λ e. n (sym (enqueue-lit_value_other s x l r ne) ∙ e))
  | inl e ↦ elim (one_of_two l x e) [
    | inl same ↦ inl (λ f.
        let no : true_value ≡ false_value =
          sym (ap (lit_value (enqueue s x r)) same ∙ enqueue-lit_value_self s x r) ∙ f in
        absurd (cc))
    | inr opposite ↦
        inr (subst (Queued (enqueue s x r)) (sym opposite) (enqueue-Queued_self s x r h))
  ]
]

pub enqueue-Safe :
    (s : Solver) (l m x : ℕ) (r : Option ℕ) (X : Type 0)
    → s.prop_head ≤ s.trail_size
    → lit_value s x ≡ unassigned_value
    → Safe s l m X
    → Safe (enqueue s x r) l m X
unfolding Safe
enqueue-Safe s l m x r X h u (inl n) = elim (not_false_after s l x r h n) [
  | inl a ↦ inl a
  | inr q ↦ inr (inl q)
]
enqueue-Safe s l m x r X h u (inr (inl q)) = inr (inl (enqueue-Queued s x (lit_neg l) r q))
enqueue-Safe s l m x r X h u (inr (inr (inl e))) = inr (inr (inl (keeps_true s x m r u e)))
enqueue-Safe s l m x r X h u (inr (inr (inr y))) = inr (inr (inr y))

true-Safe : (s : Solver) (l m : ℕ) (X : Type 0) → lit_value s l ≡ true_value → Safe s l m X
unfolding Safe
true-Safe s l m X e = inl (λ f. let no : true_value ≡ false_value = sym e ∙ f in absurd (cc))

other-Safe : (s : Solver) (l m : ℕ) (X : Type 0) → lit_value s m ≡ true_value → Safe s l m X
unfolding Safe
other-Safe s l m X e = inr (inr (inl e))

pub same_or_not : (x y : ℕ) → (x ≡ y) ⊎ (x ≢ y)
same_or_not x y = ground arith

pub count-other : (x y : ℕ) (ys : List ℕ) → x ≢ y → count x (y ∷ ys) ≡ count x ys
count-other x y ys n = ground arith

-- A clause whose first literal is true stays in the list.
pub stays-Guarding :
    (s : Solver) (f ci : ℕ) (kept rest : List ℕ)
    → lit_value s ((s.clauses ci).lits 0) ≡ true_value
    → Guarding s f kept (ci ∷ rest)
    → Guarding s f (kept ++ ci ∷ []) rest
stays-Guarding s f ci kept rest e g = record {
  safe = λ cj two. elim (same_or_not cj ci) [
    | inl same ↦
        let now : lit_value s ((s.clauses cj).lits 0) ≡ true_value =
          ap (λ i. lit_value s ((s.clauses i).lits 0)) same ∙ e in
        (true-Safe s _ _ _ now, other-Safe s _ _ _ now)
    | inr n ↦ subst (BothSafe s (s.clauses cj) f) (count-other cj ci rest n) (g.safe cj two)
  ];
  true_kept = λ cj more. elim (same_or_not cj ci) [
    | inl same ↦ inl (ap (λ i. lit_value s ((s.clauses i).lits 0)) same ∙ e)
    | inr n ↦
        g.true_kept cj (omega (arith, more, count-append cj kept (ci ∷ []), count-other cj ci [] n))
  ];
  ordered = g.ordered;
}

either_after :
    (s : Solver) (l m x : ℕ) (r : Option ℕ)
    → lit_value s x ≡ unassigned_value
    → (lit_value s l ≡ true_value) ⊎ (lit_value s m ≡ true_value)
    → (lit_value (enqueue s x r) l ≡ true_value) ⊎ (lit_value (enqueue s x r) m ≡ true_value)
either_after s l m x r u (inl e) = inl (keeps_true s x l r u e)
either_after s l m x r u (inr e) = inr (keeps_true s x m r u e)

pub enqueue-Guarding :
    (s : Solver) (f x : ℕ) (r : Option ℕ) (kept rest : List ℕ)
    → lit_value s x ≡ unassigned_value
    → Guarding s f kept rest
    → Guarding (enqueue s x r) f kept rest
unfolding enqueue
enqueue-Guarding s f x r kept rest u g = record {
  safe = λ ci two.
      let (a, b) = g.safe ci two in
      (enqueue-Safe s _ _ x r _ g.ordered u a, enqueue-Safe s _ _ x r _ g.ordered u b);
  true_kept = λ ci more. either_after s _ _ x r u (g.true_kept ci more);
  ordered = omega (arith, g.ordered);
}
