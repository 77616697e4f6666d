-- ===== src/Cdcl/Steps.antt =====
-- CDCL.c, propagate: what one clause of a list does to the solver's state.
use cdcl_sat_solver.Base.{
  ℕ, ◌<◌, ◌≤◌, ◌≡◌, inl, inr, refl, sym, ap, ◌∙◌, subst, Bool, ◌==◌, if◌then◌else◌, Bool-cases,
  arith, set_at, set_at-all, swap_at, List, [], ◌∷◌, ◌++◌,
}
use mathlib.Core.List.{append_assoc}
use cdcl_sat_solver.Cdcl.{false_value, true_value, Clause, Solver, lit_var, lit_value}
use cdcl_sat_solver.Cdcl.Propagate.{false_second}
use cdcl_sat_solver.Cdcl.Models.{
  Holds, Satisfies, Agrees, swapped, swap_from, swap_place-lt, swapped-Holds, Holds-swapped,
}
use cdcl_sat_solver.Cdcl.Budget.{budget}
use cdcl_sat_solver.Cdcl.Watches.{Watched, Watched-same, marks-false_second}

-- The literals of a clause are of the solver's variables.
abbrev pub InRange : ℕ → Clause → Type 0
InRange n c = (k : ℕ) → k < c.size → (0 < lit_var (c.lits k)) × (lit_var (c.lits k) ≤ n)

-- In the loop over the list of a false literal: the clauses that stay so far and those to come are
-- its list, and the literals that are still to be propagated are true.
pub record Walking (s : Solver) (f : ℕ) (kept rest : List ℕ) : Type 0 where
  pub watched : Watched (set_at s.watches f (kept ++ rest)) s.clauses
  pub past : (ci : ℕ) → s.clause_count ≤ ci → (s.clauses ci).size ≡ 0
  pub within : (ci : ℕ) → InRange s.num_vars (s.clauses ci)
  pub falsified : lit_value s f ≡ false_value
  pub pending : (i : ℕ) → s.prop_head ≤ i → i < s.trail_size → lit_value s (s.trail i) ≡ true_value

-- A valuation that satisfies the clauses and agrees with the assignments still does, and the clauses
-- have no other models than before. The budget is the same, and the head does not go back.
pub record Sound (s t : Solver) : Type 0 where
  pub forth : (v : ℕ → Bool) → Satisfies v s → Agrees v s → Satisfies v t × Agrees v t
  pub back : (v : ℕ → Bool) → Satisfies v t → Satisfies v s
  pub kept_budget : budget t ≡ budget s
  pub ahead : s.prop_head ≤ t.prop_head

pub Sound-refl : (s : Solver) → Sound s s
Sound-refl s = record {
  forth = λ v a b. (a, b);
  back = λ v a. a;
  kept_budget = refl;
  ahead = omega arith;
}

pub Sound-trans : {r s t : Solver} → Sound r s → Sound s t → Sound r t
Sound-trans a b = record {
  forth = λ v x y. let (p, q) = a.forth v x y in b.forth v p q;
  back = λ v x. a.back v (b.back v x);
  kept_budget = b.kept_budget ∙ a.kept_budget;
  ahead = omega (arith, a.ahead, b.ahead);
}

abbrev pub with_clause : Solver → ℕ → Clause → Solver
with_clause s ci c = record s { clauses = set_at s.clauses ci c }

replaced :
    (v : ℕ → Bool) (cl : ℕ → Clause) (ci cj : ℕ) (c : Clause)
    → (Holds v (cl ci) → Holds v c)
    → Holds v (cl cj)
    → Holds v (set_at cl ci c cj)
replaced v cl ci cj c to h = elim (Bool-cases (cj == ci)) [
  | inl e ↦
      let same : cj ≡ ci = ground arith in
      subst (λ b. Holds v (if b then c else cl cj)) (sym e)
        (to (subst (λ x. Holds v (cl x)) same h))
  | inr e ↦ subst (λ b. Holds v (if b then c else cl cj)) (sym e) h
]

unreplaced :
    (v : ℕ → Bool) (cl : ℕ → Clause) (ci cj : ℕ) (c : Clause)
    → (Holds v c → Holds v (cl ci))
    → Holds v (set_at cl ci c cj)
    → Holds v (cl cj)
unreplaced v cl ci cj c from h = elim (Bool-cases (cj == ci)) [
  | inl e ↦
      let same : cj ≡ ci = ground arith in
      subst (λ x. Holds v (cl x)) (sym same)
        (from (subst (λ b. Holds v (if b then c else cl cj)) e h))
  | inr e ↦ subst (λ b. Holds v (if b then c else cl cj)) e h
]

pub with_clause-Sound :
    (s : Solver) (ci : ℕ) (c : Clause)
    → ((v : ℕ → Bool) → Holds v (s.clauses ci) → Holds v c)
    → ((v : ℕ → Bool) → Holds v c → Holds v (s.clauses ci))
    → Sound s (with_clause s ci c)
unfolding budget
with_clause-Sound s ci c to from = record {
  forth = λ v sat ag. ((λ cj lt. replaced v s.clauses ci cj c (to v) (sat cj lt)), ag);
  back = λ v sat cj lt. unreplaced v s.clauses ci cj c (from v) (sat cj lt);
  kept_budget = refl;
  ahead = omega arith;
}

pub size_past :
    (cl : ℕ → Clause) (ci cj : ℕ) (c : Clause)
    → c.size ≡ (cl ci).size
    → (cl cj).size ≡ 0
    → (set_at cl ci c cj).size ≡ 0
size_past cl ci cj c e h = elim (Bool-cases (cj == ci)) [
  | inl d ↦ let same : cj ≡ ci = ground arith in rw d (e ∙ ap (λ x. (cl x).size) (sym same) ∙ h)
  | inr d ↦ rw d h
]

pub swapped-InRange :
    (n : ℕ) (c : Clause) (i k : ℕ)
    → i < c.size
    → k < c.size
    → InRange n c
    → InRange n (swapped c i k)
swapped-InRange n c i k hi hk h j lt =
    subst (λ x. (0 < lit_var x) × (lit_var x ≤ n)) (swap_from c.lits i k j)
      (h (swap_at (λ x. x) i k j) (swap_place-lt i k j c.size hi hk lt))

-- The false literal goes to place 1.
false_second-InRange :
    (n : ℕ) (c : Clause) (f : ℕ) → 1 < c.size → InRange n c → InRange n (false_second c f)
unfolding false_second
false_second-InRange n c f two h = elim (Bool-cases (c.lits 0 == f)) [
  | inl e ↦
      subst (λ b. InRange n (if b then swapped c 0 1 else c)) (sym e)
        (swapped-InRange n c 0 1 (omega arith) two h)
  | inr e ↦ subst (λ b. InRange n (if b then swapped c 0 1 else c)) (sym e) h
]

pub false_second-size : (c : Clause) (f : ℕ) → (false_second c f).size ≡ c.size
unfolding false_second
false_second-size c f = ground arith

pub false_second-Sound :
    (s : Solver) (ci f : ℕ)
    → 1 < (s.clauses ci).size
    → Sound s (with_clause s ci (false_second (s.clauses ci) f))
unfolding false_second
false_second-Sound s ci f h = elim (Bool-cases ((s.clauses ci).lits 0 == f)) [
  | inl e ↦
      let c = s.clauses ci in
      subst (λ b. Sound s (with_clause s ci (if b then swapped c 0 1 else c))) (sym e)
        (with_clause-Sound s ci (swapped c 0 1)
          (λ v. swapped-Holds v c 0 1 (omega arith) (omega arith))
          (λ v. Holds-swapped v c 0 1 (omega arith) (omega arith)))
  | inr e ↦
      let c = s.clauses ci in
      subst (λ b. Sound s (with_clause s ci (if b then swapped c 0 1 else c))) (sym e)
        (with_clause-Sound s ci c (λ v x. x) (λ v x. x))
]

pub false_second-Walking :
    (s : Solver) (f ci : ℕ) (kept rest : List ℕ)
    → 1 < (s.clauses ci).size
    → Walking s f kept rest
    → Walking (with_clause s ci (false_second (s.clauses ci) f)) f kept rest
unfolding lit_value
false_second-Walking s f ci kept rest two w =
    let c = false_second (s.clauses ci) f in
    record {
      watched =
          Watched-same (set_at s.watches f (kept ++ rest)) s.clauses ci c
            (marks-false_second (s.clauses ci) f) w.watched;
      past =
          λ cj le. size_past s.clauses ci cj c (false_second-size (s.clauses ci) f) (w.past cj le);
      within = λ cj.
          set_at-all (InRange s.num_vars) s.clauses ci c cj
            (false_second-InRange s.num_vars (s.clauses ci) f two (w.within ci)) w.within;
      falsified = w.falsified;
      pending = w.pending;
    }

-- The clause stays in the list.
pub stays-Walking :
    (s : Solver) (f ci : ℕ) (kept rest : List ℕ)
    → Walking s f kept (ci ∷ rest)
    → Walking s f (kept ++ ci ∷ []) rest
stays-Walking s f ci kept rest w = record {
  watched =
      subst (λ l. Watched (set_at s.watches f l) s.clauses) (sym (append_assoc kept (ci ∷ []) rest))
        w.watched;
  past = w.past;
  within = w.within;
  falsified = w.falsified;
  pending = w.pending;
}
