-- ===== src/Cdcl/Guarded.antt =====
-- CDCL.c, propagate: the guard of the watch lists over one clause and over a list.
use cdcl_sat_solver.Base.{
  ℕ, ◌<◌, ◌≡◌, ◌≢◌, ◌⊎◌, inl, inr, sym, ap, ◌∙◌, subst, ◌==◌, if◌then◌else◌, Bool-cases, arith,
  set_at-cases, List, ◌∷◌, ◌++◌,
}
use cdcl_sat_solver.Cdcl.{false_value, true_value, Clause, Solver, lit_value, watch_add}
use cdcl_sat_solver.Cdcl.Propagate.{false_second, move_watch}
use cdcl_sat_solver.Cdcl.Models.{swapped}
use cdcl_sat_solver.Cdcl.Watches.{count, marks, count-append}
use cdcl_sat_solver.Cdcl.Steps.{with_clause, false_second-size}
use cdcl_sat_solver.Cdcl.Moves.{swapped_second}
use cdcl_sat_solver.Cdcl.Guard.{Safe, BothSafe, Guarding, BothSafe-false_second, count-other}

abbrev OneTrue : Solver → Clause → Type 0
OneTrue s c = (lit_value s (c.lits 0) ≡ true_value) ⊎ (lit_value s (c.lits 1) ≡ true_value)

OneTrue-false_second :
    (s : Solver) (c : Clause) (f : ℕ) → OneTrue s c → OneTrue s (false_second c f)
unfolding false_second
OneTrue-false_second s c f h = elim (Bool-cases (c.lits 0 == f)) [
  | inl e ↦
      subst (λ b. OneTrue s (if b then swapped c 0 1 else c)) (sym e)
        (elim h [ inl a ↦ inr a | inr a ↦ inl a ])
  | inr e ↦ subst (λ b. OneTrue s (if b then swapped c 0 1 else c)) (sym e) h
]

-- The false literal goes to place 1.
pub false_second-Guarding :
    (s : Solver) (f ci : ℕ) (kept rest : List ℕ)
    → Guarding s f kept rest
    → Guarding (with_clause s ci (false_second (s.clauses ci) f)) f kept rest
unfolding lit_value Safe
false_second-Guarding s f ci kept rest g =
    let c = s.clauses ci in
    let d = false_second c f in
    record {
      safe = λ cj.
          set_at-cases (λ x. 1 < x.size → BothSafe s x f (count cj rest)) s.clauses ci d cj
            (λ e two. BothSafe-false_second s c f (count cj rest) (
              subst (λ i. BothSafe s (s.clauses i) f (count cj rest)) e
                (g.safe cj (
                  subst (λ i. 1 < (s.clauses i).size) (sym e)
                    (omega (arith, false_second-size c f, two))))))
            (λ n. g.safe cj);
      true_kept = λ cj.
          set_at-cases (λ x. 0 < count cj kept → OneTrue s x) s.clauses ci d cj
            (λ e more.
              OneTrue-false_second s c f
                (subst (λ i. OneTrue s (s.clauses i)) e (g.true_kept cj more)))
            (λ n. g.true_kept cj);
      ordered = g.ordered;
    }

zero_or_more : (n : ℕ) → (n ≡ 0) ⊎ (0 < n)
zero_or_more n = ground arith

not_kept :
    (s : Solver) (f ci : ℕ) (kept rest : List ℕ)
    → Guarding s f kept rest
    → lit_value s ((s.clauses ci).lits 0) ≢ true_value
    → lit_value s ((s.clauses ci).lits 1) ≡ false_value
    → count ci kept ≡ 0
not_kept s f ci kept rest g nt e = elim (zero_or_more (count ci kept)) [
  | inl z ↦ z
  | inr p ↦ elim (g.true_kept ci p) [
    | inl a ↦ absurd (nt a)
    | inr a ↦ let no : true_value ≡ false_value = sym a ∙ e in absurd (cc)
  ]
]

-- The moved clause: its second literal is not false, and an exception for the first one remains.
moved_safe :
    (s : Solver) (f ci k : ℕ) (kept rest : List ℕ)
    → 1 < k
    → k < (s.clauses ci).size
    → (s.clauses ci).lits 1 ≡ f
    → lit_value s f ≡ false_value
    → lit_value s ((s.clauses ci).lits 0) ≢ true_value
    → lit_value s ((s.clauses ci).lits k) ≢ false_value
    → count ci (kept ++ rest) ≡ marks (swapped (s.clauses ci) 1 k) f
    → Guarding s f kept (ci ∷ rest)
    → BothSafe s (swapped (s.clauses ci) 1 k) f (count ci rest)
unfolding Safe
moved_safe s f ci k kept rest hk lt second e nt ne counted g =
    let c = s.clauses ci in
    let d = swapped c 1 k in
    let first : d.lits 0 ≡ c.lits 0 = ground arith in
    let none_kept = not_kept s f ci kept (ci ∷ rest) g nt (ap (lit_value s) second ∙ e) in
    (
      subst (λ l. Safe s l (d.lits 1) ((l ≡ f) × (0 < count ci rest))) (sym first)
          (elim ((g.safe ci (omega arith)).0) [
            | inl a ↦ inl a
            | inr (inl q) ↦ inr (inl q)
            | inr (inr (inl a)) ↦
                let no : true_value ≡ false_value = sym a ∙ ap (lit_value s) second ∙ e in
                absurd (cc)
            | inr (inr (inr x)) ↦ inr (
                inr (
                  inr (
                    x.0,
                    ground (arith, counted, count-append ci kept rest, none_kept, first, x.0),
                  )))
          ]),
      inl (λ a. ne (ap (lit_value s) (sym (swapped_second c k hk)) ∙ a)),
    )

pub move_watch-Guarding :
    (s : Solver) (f ci k : ℕ) (kept rest : List ℕ)
    → 1 < k
    → k < (s.clauses ci).size
    → (s.clauses ci).lits 1 ≡ f
    → lit_value s f ≡ false_value
    → lit_value s ((s.clauses ci).lits 0) ≢ true_value
    → lit_value s ((s.clauses ci).lits k) ≢ false_value
    → count ci (kept ++ rest) ≡ marks (swapped (s.clauses ci) 1 k) f
    → Guarding s f kept (ci ∷ rest)
    → Guarding (move_watch s ci (s.clauses ci) k) f kept rest
unfolding move_watch watch_add lit_value Safe
move_watch-Guarding s f ci k kept rest hk lt second e nt ne counted g =
    let c = s.clauses ci in
    let d = swapped c 1 k in
    record {
      safe = λ cj.
          set_at-cases (λ x. 1 < x.size → BothSafe s x f (count cj rest)) s.clauses ci d cj
            (λ same two.
              subst (λ i. BothSafe s d f (count i rest)) (sym same)
                (moved_safe s f ci k kept rest hk lt second e nt ne counted g))
            (λ n two.
              subst (BothSafe s (s.clauses cj) f) (count-other cj ci rest n) (g.safe cj two));
      true_kept = λ cj.
          set_at-cases (λ x. 0 < count cj kept → OneTrue s x) s.clauses ci d cj
            (λ same more.
              let none_kept = not_kept s f ci kept (ci ∷ rest) g nt (ap (lit_value s) second ∙ e) in
              absurd (omega (arith, ap (λ i. count i kept) same, none_kept)))
            (λ n. g.true_kept cj);
      ordered = g.ordered;
    }
