-- ===== src/Cdcl/Visits.antt =====
-- CDCL.c, propagate: the loop over the list of a false literal.
use cdcl_sat_solver.Base.{
  ℕ, zero, suc, ◌+◌, ◌-◌, ◌<◌, ◌≤◌, ◌≡◌, ◌≢◌, ◌⊎◌, inl, inr, refl, sym, ap, ◌∙◌, subst, Bool, true,
  false, if◌then◌else◌, Bool-cases, arith, List, [], ◌∷◌, ◌++◌, Option, none, some,
}
use cdcl_sat_solver.Cdcl.{
  Value, false_value, true_value, unassigned_value, Clause, Solver, lit_value, enqueue,
}
use cdcl_sat_solver.Cdcl.Propagate.{
  is_true, is_false, find_watch, Visit, stays, moves, fails, unit_or_conflict, watch_or_imply,
}
use cdcl_sat_solver.Cdcl.Models.{Holds, Agrees, lit_true, false_literal, enqueue-Agrees}
use cdcl_sat_solver.Cdcl.Budget.{enqueue-budget}
use cdcl_sat_solver.Cdcl.Steps.{InRange, Walking, Sound, Sound-refl, stays-Walking}
use cdcl_sat_solver.Cdcl.Moves.{enqueue-Walking, move_watch-Walking, move_watch-Sound}

-- A search for a literal to watch.
pub record Found (s : Solver) (c : Clause) (k n j : ℕ) : Type 0 where
  pub from : k ≤ j
  pub below : j < k + n
  pub not_false : lit_value s (c.lits j) ≢ false_value

unfoldable pub FindResult : Solver → Clause → ℕ → ℕ → Option ℕ → Type 0
FindResult s c k n (some j) = Found s c k n j
FindResult s c k n none = (j : ℕ) → k ≤ j → j < k + n → lit_value s (c.lits j) ≡ false_value

value_false : (x : Value) → is_false x ≡ true → x ≡ false_value
value_false false_value e = refl
value_false true_value e = absurd (cc)
value_false unassigned_value e = absurd (cc)

not_value_false : (x : Value) → is_false x ≡ false → x ≢ false_value
not_value_false false_value e d = absurd (cc)
not_value_false true_value e d = absurd (cc)
not_value_false unassigned_value e d = absurd (cc)

pub value_unassigned : (x : Value) → is_true x ≡ false → is_false x ≡ false → x ≡ unassigned_value
value_unassigned false_value e d = absurd (cc)
value_unassigned true_value e d = absurd (cc)
value_unassigned unassigned_value e d = refl

at_or_above : (j k : ℕ) → k ≤ j → (j ≡ k) ⊎ (k + 1 ≤ j)
at_or_above j k le = ground arith

pub find_watch-FindResult :
    (s : Solver) (c : Clause) (k n : ℕ) → FindResult s c k n (find_watch s c k n)
unfolding find_watch FindResult
find_watch-FindResult s c k zero = λ j le lt. absurd (omega arith)
find_watch-FindResult s c k (suc n) = elim (Bool-cases (is_false (lit_value s (c.lits k)))) [
  | inl e ↦
      subst (λ b. FindResult s c k (suc n) (if b then find_watch s c (k + 1) n else some k)) (sym e)
        (longer s c k n (value_false (lit_value s (c.lits k)) e) (find_watch s c (k + 1) n)
          (find_watch-FindResult s c (k + 1) n))
  | inr e ↦
      subst (λ b. FindResult s c k (suc n) (if b then find_watch s c (k + 1) n else some k)) (sym e)
        (record {
          from = omega arith;
          below = omega arith;
          not_false = not_value_false (lit_value s (c.lits k)) e;
        })
]
  where
    longer :
        (s : Solver) (c : Clause) (k n : ℕ)
        → lit_value s (c.lits k) ≡ false_value
        → (r : Option ℕ) → FindResult s c (k + 1) n r
        → FindResult s c k (suc n) r
    longer s c k n e (some j) r = record {
      from = omega (arith, r.from);
      below = omega (arith, r.below);
      not_false = r.not_false;
    }
    longer s c k n e none r = λ j le lt. elim (at_or_above j k le) [
      | inl same ↦ ap (λ i. lit_value s (c.lits i)) same ∙ e
      | inr more ↦ r j more (omega arith)
    ]

unfoldable pub AllFalse : Solver → Clause → Type 0
AllFalse s c = (j : ℕ) → j < c.size → lit_value s (c.lits j) ≡ false_value

-- What a visit of a clause leads to.
unfoldable pub VisitOf : Solver → ℕ → List ℕ → ℕ → List ℕ → Visit → Type 0
VisitOf s f kept ci rest (stays t) = Walking t f (kept ++ ci ∷ []) rest × Sound s t
VisitOf s f kept ci rest (moves t) = Walking t f kept rest × Sound s t
VisitOf s f kept ci rest (fails t) =
    Walking t f kept (ci ∷ rest) × Sound s t × AllFalse t (t.clauses ci)

-- Place 0 is the only one that can be true.
first_only :
    (v : ℕ → Bool) (s : Solver) (c : Clause)
    → Agrees v s
    → ((j : ℕ) → 1 ≤ j → j < c.size → lit_value s (c.lits j) ≡ false_value)
    → Holds v c
    → lit_true v (c.lits 0) ≡ true
first_only v s c ag others (zero, lt, e) = e
first_only v s c ag others (suc j, lt, e) =
    let no : true ≡ false =
      sym e ∙ false_literal v s (c.lits (suc j)) ag (others (suc j) (omega arith) lt) in
    absurd (cc)

-- The unit clause's literal is implied.
enqueue-Sound :
    (s : Solver) (ci : ℕ)
    → ci < s.clause_count
    → 1 < (s.clauses ci).size
    → InRange s.num_vars (s.clauses ci)
    → lit_value s ((s.clauses ci).lits 0) ≡ unassigned_value
    → ((j : ℕ)
        → 1 ≤ j
        → j < (s.clauses ci).size
        → lit_value s ((s.clauses ci).lits j) ≡ false_value)
    → Sound s (enqueue s ((s.clauses ci).lits 0) (some ci))
unfolding enqueue
enqueue-Sound s ci lt two range u others = record {
  forth = λ v sat ag. (
    sat,
    enqueue-Agrees v s ((s.clauses ci).lits 0) (some ci) ag
        (first_only v s (s.clauses ci) ag others (sat ci lt)),
  );
  back = λ v sat. sat;
  kept_budget =
      let (positive, below) = range 0 (omega arith) in
      enqueue-budget s ((s.clauses ci).lits 0) (some ci) u positive below;
  ahead = omega arith;
}

below_or_past : (i n : ℕ) → (i < n) ⊎ (n ≤ i)
below_or_past i n = ground arith

one_or_more : (j : ℕ) → 1 ≤ j → (j ≡ 1) ⊎ (2 ≤ j)
one_or_more j h = ground arith

zero_or_more : (j : ℕ) → (j ≡ 0) ⊎ (1 ≤ j)
zero_or_more j = ground arith

-- No literal to watch was found.
unit_or_conflict-VisitOf :
    (s : Solver) (f ci : ℕ) (kept rest : List ℕ)
    → ci < s.clause_count
    → 1 < (s.clauses ci).size
    → is_true (lit_value s ((s.clauses ci).lits 0)) ≡ false
    → ((j : ℕ)
        → 1 ≤ j
        → j < (s.clauses ci).size
        → lit_value s ((s.clauses ci).lits j) ≡ false_value)
    → Walking s f kept (ci ∷ rest)
    → VisitOf s f kept ci rest (unit_or_conflict s ci ((s.clauses ci).lits 0))
unfolding unit_or_conflict VisitOf AllFalse
unit_or_conflict-VisitOf s f ci kept rest lt two nt others w =
    let lit = (s.clauses ci).lits 0 in
    elim (Bool-cases (is_false (lit_value s lit))) [
      | inl e ↦
          subst
            (λ b. VisitOf s f kept ci rest (if b then fails s else stays (enqueue s lit (some ci))))
            (sym e)
            (
              w,
              Sound-refl s,
              λ j below. elim (zero_or_more j) [
                | inl z ↦
                    ap (λ i. lit_value s ((s.clauses ci).lits i)) z
                    ∙ value_false (lit_value s lit) e
                | inr p ↦ others j p below
              ],
            )
      | inr e ↦
          subst
            (λ b. VisitOf s f kept ci rest (if b then fails s else stays (enqueue s lit (some ci))))
            (sym e)
            (
              enqueue-Walking s f lit (some ci) (kept ++ ci ∷ []) rest
                  (value_unassigned (lit_value s lit) nt e) (stays-Walking s f ci kept rest w),
              enqueue-Sound s ci lt two (w.within ci) (value_unassigned (lit_value s lit) nt e)
                  others,
            )
    ]

pub in_database :
    (s : Solver) (f ci : ℕ) (kept rest : List ℕ)
    → 1 < (s.clauses ci).size
    → Walking s f kept rest
    → ci < s.clause_count
in_database s f ci kept rest two w = elim (below_or_past ci s.clause_count) [
  | inl lt ↦ lt
  | inr le ↦ absurd (omega (arith, w.past ci le))
]

-- The clause's other watched literal is not true.
pub watch_or_imply-VisitOf :
    (s : Solver) (f ci : ℕ) (kept rest : List ℕ)
    → 1 < (s.clauses ci).size
    → (s.clauses ci).lits 1 ≡ f
    → is_true (lit_value s ((s.clauses ci).lits 0)) ≡ false
    → Walking s f kept (ci ∷ rest)
    → (r : Option ℕ) → FindResult s (s.clauses ci) 2 ((s.clauses ci).size - 2) r
    → VisitOf s f kept ci rest (watch_or_imply s ci (s.clauses ci) r)
unfolding watch_or_imply VisitOf FindResult
watch_or_imply-VisitOf s f ci kept rest two second nt w (some k) found =
    let lt : k < (s.clauses ci).size = omega (arith, found.below) in
    (
      move_watch-Walking s f ci k kept rest (omega (arith, found.from)) lt second found.not_false w,
      move_watch-Sound s ci k (omega (arith, found.from)) lt,
    )
watch_or_imply-VisitOf s f ci kept rest two second nt w none all =
    unit_or_conflict-VisitOf s f ci kept rest (in_database s f ci kept (ci ∷ rest) two w) two nt
      (λ j p below. elim (one_or_more j p) [
        | inl one ↦
            ap (λ i. lit_value s ((s.clauses ci).lits i)) one
            ∙ ap (lit_value s) second
            ∙ w.falsified
        | inr more ↦ all j more (omega arith)
      ])
      w
