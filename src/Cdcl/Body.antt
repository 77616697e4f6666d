-- ===== src/Cdcl/Body.antt =====
-- CDCL.c, propagate: the body of the loop over a list, from its start.
use cdcl_sat_solver.Base.{
  ℕ, ◌-◌, ◌<◌, ◌≡◌, inl, inr, sym, ap, ◌∙◌, subst, if◌then◌else◌, Bool-cases, ==-refl, arith,
  set_at, List, ◌∷◌,
}
use cdcl_sat_solver.Cdcl.{Clause, Solver, lit_value}
use cdcl_sat_solver.Cdcl.Propagate.{
  is_true, false_second, find_watch, Visit, stays, moves, fails, watch_or_imply, visit,
}
use cdcl_sat_solver.Cdcl.Watches.{listed, watches-two, false_second_lem}
use cdcl_sat_solver.Cdcl.Steps.{
  Walking, Sound, Sound-refl, Sound-trans, with_clause, false_second-size, false_second-Sound,
  false_second-Walking, stays-Walking,
}
use cdcl_sat_solver.Cdcl.Visits.{find_watch-FindResult, VisitOf, watch_or_imply-VisitOf}

-- The body of the loop, on a clause as it stands.
unfoldable pub visit_at : Solver → ℕ → Clause → Visit
visit_at t ci c =
    if is_true (lit_value t (c.lits 0))
    then stays t
    else watch_or_imply t ci c (find_watch t c 2 (c.size - 2))

visit_at-VisitOf :
    (t : Solver) (f ci : ℕ) (kept rest : List ℕ)
    → 1 < (t.clauses ci).size
    → (t.clauses ci).lits 1 ≡ f
    → Walking t f kept (ci ∷ rest)
    → VisitOf t f kept ci rest (visit_at t ci (t.clauses ci))
unfolding visit_at VisitOf
visit_at-VisitOf t f ci kept rest two second w =
    let c = t.clauses ci in
    let search = watch_or_imply t ci c (find_watch t c 2 (c.size - 2)) in
    elim (Bool-cases (is_true (lit_value t (c.lits 0)))) [
      | inl e ↦
          subst (λ b. VisitOf t f kept ci rest (if b then stays t else search)) (sym e)
            (stays-Walking t f ci kept rest w, Sound-refl t)
      | inr e ↦
          subst (λ b. VisitOf t f kept ci rest (if b then stays t else search)) (sym e)
            (watch_or_imply-VisitOf t f ci kept rest two second e w (find_watch t c 2 (c.size - 2))
              (find_watch-FindResult t c 2 (c.size - 2)))
    ]

after :
    (s t : Solver) (f ci : ℕ) (kept rest : List ℕ)
    → Sound s t
    → (r : Visit) → VisitOf t f kept ci rest r
    → VisitOf s f kept ci rest r
unfolding VisitOf
after s t f ci kept rest first (stays u) v = (v.0, Sound-trans first v.1)
after s t f ci kept rest first (moves u) v = (v.0, Sound-trans first v.1)
after s t f ci kept rest first (fails u) v = (v.0, Sound-trans first v.1, v.2)

pub replaced_self : (cl : ℕ → Clause) (ci : ℕ) (c : Clause) → set_at cl ci c ci ≡ c
replaced_self cl ci c = ap (λ b. if b then c else cl ci) (==-refl ci)

pub visit-VisitOf :
    (s : Solver) (f ci : ℕ) (kept rest : List ℕ)
    → Walking s f kept (ci ∷ rest)
    → VisitOf s f kept ci rest (visit s f ci)
unfolding visit visit_at
visit-VisitOf s f ci kept rest w =
    let c = s.clauses ci in
    let d = false_second c f in
    let t = with_clause s ci d in
    let self = replaced_self s.clauses ci d in
    let here = listed s.watches s.clauses f ci kept rest w.watched in
    let two = watches-two c f here in
    let size : (t.clauses ci).size ≡ c.size = ap (λ x. x.size) self ∙ false_second-size c f in
    let second : (t.clauses ci).lits 1 ≡ f = ap (λ x. x.lits 1) self ∙ false_second_lem c f here in
    after s t f ci kept rest (false_second-Sound s ci f two) (visit s f ci) (
      subst (λ x. VisitOf t f kept ci rest (visit_at t ci x)) self
        (visit_at-VisitOf t f ci kept rest (omega (arith, size, two)) second
          (false_second-Walking s f ci kept (ci ∷ rest) two w)))
