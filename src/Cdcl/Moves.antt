-- ===== src/Cdcl/Moves.antt =====
-- CDCL.c, propagate: a literal is implied, or a clause goes to another list.
use cdcl_sat_solver.Base.{
  ℕ, ◌+◌, ◌<◌, ◌≡◌, ◌≢◌, inl, inr, refl, sym, ap, ◌∙◌, subst, ◌==◌, if◌then◌else◌, Bool-cases,
  arith, set_at, set_at-all, List, [], ◌∷◌, ◌++◌, Option,
}
use cdcl_sat_solver.Cdcl.{
  false_value, true_value, unassigned_value, Clause, Solver, lit_value, enqueue, watch_add,
}
use cdcl_sat_solver.Cdcl.Propagate.{move_watch}
use cdcl_sat_solver.Cdcl.Models.{
  enqueue-lit_value, enqueue-lit_value_self, swapped, swapped-Holds, Holds-swapped,
}
use cdcl_sat_solver.Cdcl.Budget.{budget}
use cdcl_sat_solver.Cdcl.Watches.{Watched, Watched-moved}
use cdcl_sat_solver.Cdcl.Steps.{
  InRange, Walking, Sound, with_clause-Sound, size_past, swapped-InRange,
}

-- A literal that has a value keeps it.
pub keeps_true :
    (s : Solver) (lit other : ℕ) (reason : Option ℕ)
    → lit_value s lit ≡ unassigned_value
    → lit_value s other ≡ true_value
    → lit_value (enqueue s lit reason) other ≡ true_value
keeps_true s lit other reason u h =
    enqueue-lit_value s lit other reason u
      (λ e. let no : true_value ≡ unassigned_value = sym h ∙ e in absurd (cc))
    ∙ h

pub keeps_false :
    (s : Solver) (lit other : ℕ) (reason : Option ℕ)
    → lit_value s lit ≡ unassigned_value
    → lit_value s other ≡ false_value
    → lit_value (enqueue s lit reason) other ≡ false_value
keeps_false s lit other reason u h =
    enqueue-lit_value s lit other reason u
      (λ e. let no : false_value ≡ unassigned_value = sym h ∙ e in absurd (cc))
    ∙ h

-- A literal is implied.
pub enqueue-pending :
    (s : Solver) (lit i : ℕ) (reason : Option ℕ)
    → lit_value s lit ≡ unassigned_value
    → (i < s.trail_size → lit_value s (s.trail i) ≡ true_value)
    → i < s.trail_size + 1
    → lit_value (enqueue s lit reason) (set_at s.trail s.trail_size lit i) ≡ true_value
enqueue-pending s lit i reason u h lt = elim (Bool-cases (i == s.trail_size)) [
  | inl e ↦
      ap (λ b. lit_value (enqueue s lit reason) (if b then lit else s.trail i)) e
      ∙ enqueue-lit_value_self s lit reason
  | inr e ↦
      ap (λ b. lit_value (enqueue s lit reason) (if b then lit else s.trail i)) e
      ∙ keeps_true s lit (s.trail i) reason u (h (ground arith))
]

pub enqueue-Walking :
    (s : Solver) (f lit : ℕ) (reason : Option ℕ) (kept rest : List ℕ)
    → lit_value s lit ≡ unassigned_value
    → Walking s f kept rest
    → Walking (enqueue s lit reason) f kept rest
unfolding enqueue
enqueue-Walking s f lit reason kept rest u w = record {
  watched = w.watched;
  past = w.past;
  within = w.within;
  falsified = keeps_false s lit f reason u w.falsified;
  pending = λ i le lt. enqueue-pending s lit i reason u (w.pending i le) lt;
}

-- A clause goes to the list of another literal.
pub swapped_second : (c : Clause) (k : ℕ) → 1 < k → (swapped c 1 k).lits 1 ≡ c.lits k
swapped_second c k h = ground arith

pub move_watch-Walking :
    (s : Solver) (f ci k : ℕ) (kept rest : List ℕ)
    → 1 < k
    → k < (s.clauses ci).size
    → (s.clauses ci).lits 1 ≡ f
    → lit_value s ((s.clauses ci).lits k) ≢ false_value
    → Walking s f kept (ci ∷ rest)
    → Walking (move_watch s ci (s.clauses ci) k) f kept rest
unfolding move_watch watch_add lit_value
move_watch-Walking s f ci k kept rest hk lt e ne w =
    let c = s.clauses ci in
    let moved =
      Watched-moved s.watches s.clauses f ci k kept rest (omega arith) hk e
        (λ same. ne (ap (lit_value s) same ∙ w.falsified)) w.watched in
    record {
      watched =
          subst
            (λ g.
              Watched (set_at (set_at s.watches g (s.watches g ++ ci ∷ [])) f (kept ++ rest))
                (set_at s.clauses ci (swapped c 1 k)))
            (sym (swapped_second c k hk)) moved;
      past = λ cj le. size_past s.clauses ci cj (swapped c 1 k) refl (w.past cj le);
      within = λ cj.
          set_at-all (InRange s.num_vars) s.clauses ci (swapped c 1 k) cj
            (swapped-InRange s.num_vars c 1 k (omega arith) lt (w.within ci)) w.within;
      falsified = w.falsified;
      pending = w.pending;
    }

pub move_watch-Sound :
    (s : Solver) (ci k : ℕ)
    → 1 < k
    → k < (s.clauses ci).size
    → Sound s (move_watch s ci (s.clauses ci) k)
unfolding move_watch watch_add budget
move_watch-Sound s ci k hk lt =
    let c = s.clauses ci in
    let x =
      with_clause-Sound s ci (swapped c 1 k) (λ v. swapped-Holds v c 1 k (omega arith) lt)
        (λ v. Holds-swapped v c 1 k (omega arith) lt) in
    record { forth = x.forth; back = x.back; kept_budget = x.kept_budget; ahead = x.ahead }
