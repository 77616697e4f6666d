-- ===== src/Cdcl/Complete.antt =====
-- CDCL.c, propagate: the guard of the watch lists over the loops.
use cdcl_sat_solver.Base.{
  ℕ, ◌-◌, ◌<◌, ◌≡◌, ◌≢◌, inl, inr, refl, sym, ap, ◌∙◌, subst, true, false, ==-refl, if◌then◌else◌,
  Bool-cases, arith, List, [], ◌∷◌, ◌++◌, Option, none, some,
}
use cdcl_sat_solver.Cdcl.{
  Value, false_value, true_value, unassigned_value, Solver, lit_value, enqueue, watch_add,
}
use cdcl_sat_solver.Cdcl.Propagate.{
  is_true, is_false, false_second, find_watch, move_watch, Visit, stays, moves, fails,
  unit_or_conflict, watch_or_imply, visit,
}
use cdcl_sat_solver.Cdcl.Models.{swapped, enqueue-lit_value_self}
use cdcl_sat_solver.Cdcl.Watches.{Watched, count, marks, listed, watches-two, false_second_lem}
use cdcl_sat_solver.Cdcl.Steps.{Walking, with_clause, false_second-size, false_second-Walking}
use cdcl_sat_solver.Cdcl.Moves.{move_watch-Walking}
use cdcl_sat_solver.Cdcl.Visits.{FindResult, find_watch-FindResult, value_unassigned}
use cdcl_sat_solver.Cdcl.Body.{visit_at, replaced_self}
use cdcl_sat_solver.Cdcl.Guard.{Guarding, stays-Guarding, enqueue-Guarding}
use cdcl_sat_solver.Cdcl.Guarded.{false_second-Guarding, move_watch-Guarding}

unfoldable pub VisitGuard : ℕ → List ℕ → ℕ → List ℕ → Visit → Type 0
VisitGuard f kept ci rest (stays t) = Guarding t f (kept ++ ci ∷ []) rest
VisitGuard f kept ci rest (moves t) = Guarding t f kept rest
VisitGuard f kept ci rest (fails t) = Unit

value_true : (x : Value) → is_true x ≡ true → x ≡ true_value
value_true false_value e = absurd (cc)
value_true true_value e = refl
value_true unassigned_value e = absurd (cc)

not_value_true : (x : Value) → is_true x ≡ false → x ≢ true_value
not_value_true false_value e d = absurd (cc)
not_value_true true_value e d = absurd (cc)
not_value_true unassigned_value e d = absurd (cc)

-- The list has lost the moved clause once.
counted :
    (s : Solver) (f ci k : ℕ) (kept rest : List ℕ)
    → Walking (move_watch s ci (s.clauses ci) k) f kept rest
    → count ci (kept ++ rest) ≡ marks (swapped (s.clauses ci) 1 k) f
unfolding move_watch watch_add Watched
counted s f ci k kept rest w =
    let t = move_watch s ci (s.clauses ci) k in
    ap (λ b. count ci (if b then kept ++ rest else t.watches f)) (sym (==-refl f))
    ∙ w.watched f ci
    ∙ ap (λ c. marks c f) (replaced_self s.clauses ci (swapped (s.clauses ci) 1 k))

unit_or_conflict-VisitGuard :
    (s : Solver) (f ci : ℕ) (kept rest : List ℕ)
    → is_true (lit_value s ((s.clauses ci).lits 0)) ≡ false
    → Guarding s f kept (ci ∷ rest)
    → VisitGuard f kept ci rest (unit_or_conflict s ci ((s.clauses ci).lits 0))
unfolding unit_or_conflict VisitGuard
unit_or_conflict-VisitGuard s f ci kept rest nt g =
    let lit = (s.clauses ci).lits 0 in
    let t = enqueue s lit (some ci) in
    elim (Bool-cases (is_false (lit_value s lit))) [
      | inl e ↦ subst (λ b. VisitGuard f kept ci rest (if b then fails s else stays t)) (sym e) tt
      | inr e ↦
          subst (λ b. VisitGuard f kept ci rest (if b then fails s else stays t)) (sym e)
            (implied s f ci kept rest (value_unassigned (lit_value s lit) nt e) g)
    ]
  where
    implied :
        (s : Solver) (f ci : ℕ) (kept rest : List ℕ)
        → lit_value s ((s.clauses ci).lits 0) ≡ unassigned_value
        → Guarding s f kept (ci ∷ rest)
        → Guarding (enqueue s ((s.clauses ci).lits 0) (some ci)) f (kept ++ ci ∷ []) rest
    implied s f ci kept rest u g =
        let lit = (s.clauses ci).lits 0 in
        stays-Guarding (enqueue s lit (some ci)) f ci kept rest
          (enqueue-lit_value_self s lit (some ci))
          (enqueue-Guarding s f lit (some ci) kept (ci ∷ rest) u g)

watch_or_imply-VisitGuard :
    (s : Solver) (f ci : ℕ) (kept rest : List ℕ)
    → 1 < (s.clauses ci).size
    → (s.clauses ci).lits 1 ≡ f
    → is_true (lit_value s ((s.clauses ci).lits 0)) ≡ false
    → Walking s f kept (ci ∷ rest)
    → Guarding s f kept (ci ∷ rest)
    → (r : Option ℕ) → FindResult s (s.clauses ci) 2 ((s.clauses ci).size - 2) r
    → VisitGuard f kept ci rest (watch_or_imply s ci (s.clauses ci) r)
unfolding watch_or_imply VisitGuard FindResult
watch_or_imply-VisitGuard s f ci kept rest two second nt w g (some k) found =
    let lt : k < (s.clauses ci).size = omega (arith, found.below) in
    let hk : 1 < k = omega (arith, found.from) in
    move_watch-Guarding s f ci k kept rest hk lt second w.falsified
      (not_value_true (lit_value s ((s.clauses ci).lits 0)) nt) found.not_false
      (counted s f ci k kept rest
        (move_watch-Walking s f ci k kept rest hk lt second found.not_false w))
      g
watch_or_imply-VisitGuard s f ci kept rest two second nt w g none all =
    unit_or_conflict-VisitGuard s f ci kept rest nt g

visit_at-VisitGuard :
    (t : Solver) (f ci : ℕ) (kept rest : List ℕ)
    → 1 < (t.clauses ci).size
    → (t.clauses ci).lits 1 ≡ f
    → Walking t f kept (ci ∷ rest)
    → Guarding t f kept (ci ∷ rest)
    → VisitGuard f kept ci rest (visit_at t ci (t.clauses ci))
unfolding visit_at VisitGuard
visit_at-VisitGuard t f ci kept rest two second w g =
    let c = t.clauses ci in
    let search = watch_or_imply t ci c (find_watch t c 2 (c.size - 2)) in
    elim (Bool-cases (is_true (lit_value t (c.lits 0)))) [
      | inl e ↦
          subst (λ b. VisitGuard f kept ci rest (if b then stays t else search)) (sym e)
            (stays-Guarding t f ci kept rest (value_true (lit_value t (c.lits 0)) e) g)
      | inr e ↦
          subst (λ b. VisitGuard f kept ci rest (if b then stays t else search)) (sym e)
            (watch_or_imply-VisitGuard t f ci kept rest two second e w g
              (find_watch t c 2 (c.size - 2)) (find_watch-FindResult t c 2 (c.size - 2)))
    ]

pub visit-VisitGuard :
    (s : Solver) (f ci : ℕ) (kept rest : List ℕ)
    → Walking s f kept (ci ∷ rest)
    → Guarding s f kept (ci ∷ rest)
    → VisitGuard f kept ci rest (visit s f ci)
unfolding visit visit_at
visit-VisitGuard s f ci kept rest w g =
    let c = s.clauses ci in
    let d = false_second c f in
    let t = with_clause s ci d in
    let self = replaced_self s.clauses ci d in
    let here = listed s.watches s.clauses f ci kept rest w.watched in
    let two = watches-two c f here in
    let size : (t.clauses ci).size ≡ c.size = ap (λ x. x.size) self ∙ false_second-size c f in
    let second : (t.clauses ci).lits 1 ≡ f = ap (λ x. x.lits 1) self ∙ false_second_lem c f here in
    subst (λ x. VisitGuard f kept ci rest (visit_at t ci x)) self
      (visit_at-VisitGuard t f ci kept rest (omega (arith, size, two)) second
        (false_second-Walking s f ci kept (ci ∷ rest) two w)
        (false_second-Guarding s f ci kept (ci ∷ rest) g))
