-- ===== src/Cdcl/Formed.antt =====
-- CDCL.c: the solver is well-formed from its creation on, while clauses are added.
use cdcl_sat_solver.Base.{
  ℕ, zero, suc, ◌+◌, ◌<◌, ◌≤◌, ◌≡◌, inl, inr, refl, sym, ap, ◌∙◌, subst, true, false, ltb, ltb→lt,
  ◌==◌, if◌then◌else◌, Bool-cases, arith, Option, List, [], ◌∷◌, ◌++◌, set_at, set_at-all, ℤ, pos,
  negsuc,
}
use cdcl_sat_solver.Cdcl.{
  unassigned_value, Clause, Solver, enqueue, create, lit_to_code, lit_var, lit_value, watch_add,
  push_clause, add_clause, add_learnt_clause,
}
use cdcl_sat_solver.Cdcl.Watches.{mark, marks, count, count-append, Watched}
use cdcl_sat_solver.Cdcl.Steps.{InRange}
use cdcl_sat_solver.Cdcl.Moves.{enqueue-pending}
use cdcl_sat_solver.Cdcl.Walk.{WellFormed}

pub create-WellFormed : (n : ℕ) → WellFormed (create n)
unfolding Watched
create-WellFormed n = record {
  watched = λ l ci. refl;
  past = λ ci le. refl;
  within = λ ci k lt. absurd (omega arith);
  pending = λ i le lt. absurd (omega arith);
}

-- A clause more in the list of a literal.
abbrev added : (ℕ → List ℕ) → ℕ → ℕ → ℕ → List ℕ
added w g ci = set_at w g (w g ++ ci ∷ [])

count-added :
    (w : ℕ → List ℕ) (g ci l cj : ℕ)
    → count cj (added w g ci l) ≡ count cj (w l) + (if ci == cj then mark g l else 0)
count-added w g ci l cj = elim (Bool-cases (l == g)) [
  | inl e ↦
      let same : l ≡ g = ground arith in
      rw e (ground (arith, count-append cj (w g) (ci ∷ []), ap (λ x. count cj (w x)) same))
  | inr e ↦ rw e (ground arith)
]

marks-new :
    (cl : ℕ → Clause) (n : ℕ) (c : Clause) (l cj : ℕ)
    → (cl n).size ≡ 0
    → marks (set_at cl n c cj) l ≡ marks (cl cj) l + (if n == cj then marks c l else 0)
marks-new cl n c l cj z = elim (Bool-cases (cj == n)) [
  | inl e ↦
      let same : cj ≡ n = ground arith in
      let back : (n == cj) ≡ true = ground arith in
      let old : marks (cl cj) l ≡ 0 = ap (λ x. marks (cl x) l) same ∙ unwatched (cl n) l z in
      rw (e, back) (omega (arith, old))
  | inr e ↦ let back : (n == cj) ≡ false = ground arith in rw (e, back) (omega arith)
]
  where
    unwatched : (c : Clause) (l : ℕ) → c.size ≡ 0 → marks c l ≡ 0
    unwatched c l z = ground arith

Watched-added :
    (w : ℕ → List ℕ) (cl : ℕ → Clause) (n : ℕ) (c : Clause)
    → 1 < c.size
    → (cl n).size ≡ 0
    → Watched w cl
    → Watched (added (added w (c.lits 0) n) (c.lits 1) n) (set_at cl n c)
unfolding Watched
Watched-added w cl n c two z h l cj = ground (
  arith,
  count-added (added w (c.lits 0) n) (c.lits 1) n l cj,
  count-added w (c.lits 0) n l cj,
  marks-new cl n c l cj z,
  h l cj,
)

Watched-unwatched :
    (w : ℕ → List ℕ) (cl : ℕ → Clause) (n : ℕ) (c : Clause)
    → c.size ≤ 1
    → (cl n).size ≡ 0
    → Watched w cl
    → Watched w (set_at cl n c)
unfolding Watched
Watched-unwatched w cl n c one z h l cj = ground (arith, marks-new cl n c l cj z, h l cj)

past-added :
    (cl : ℕ → Clause) (n : ℕ) (c : Clause) (ci : ℕ)
    → ((i : ℕ) → n ≤ i → (cl i).size ≡ 0)
    → n + 1 ≤ ci
    → (set_at cl n c ci).size ≡ 0
past-added cl n c ci h le =
    let other : (ci == n) ≡ false = ground arith in rw other (h ci (omega arith))

-- A clause at the end of the database, with the lists as they are to be.
with_lists :
    (s : Solver) (c : Clause) (w : ℕ → List ℕ)
    → WellFormed s
    → InRange s.num_vars c
    → Watched w (set_at s.clauses s.clause_count c)
    → WellFormed (record s {
      clauses = set_at s.clauses s.clause_count c;
      clause_count = s.clause_count + 1;
      watches = w;
    })
unfolding lit_value
with_lists s c w f r h = record {
  watched = h;
  past = λ ci le. past-added s.clauses s.clause_count c ci f.past le;
  within = λ ci. set_at-all (InRange s.num_vars) s.clauses s.clause_count c ci r f.within;
  pending = f.pending;
}

push_clause-WellFormed :
    (s : Solver) (c : Clause) → WellFormed s → InRange s.num_vars c → WellFormed (push_clause s c)
unfolding push_clause watch_add
push_clause-WellFormed s c f r =
    let empty = f.past s.clause_count (omega arith) in
    let t = record s {
      clauses = set_at s.clauses s.clause_count c;
      clause_count = s.clause_count + 1;
    } in
    let u = watch_add (watch_add t (c.lits 0) s.clause_count) (c.lits 1) s.clause_count in
    elim (Bool-cases (ltb 1 c.size)) [
      | inl e ↦
          subst (λ b. WellFormed (if b then u else t)) (sym e)
            (with_lists s c u.watches f r (
              Watched-added s.watches s.clauses s.clause_count c (ltb→lt 1 c.size e) empty
                f.watched))
      | inr e ↦
          subst (λ b. WellFormed (if b then u else t)) (sym e)
            (with_lists s c s.watches f r (
              Watched-unwatched s.watches s.clauses s.clause_count c (ground arith) empty
                f.watched))
    ]

-- A literal of DIMACS, of one of the variables from 1 on.
unfoldable pub IsLiteral : ℕ → ℤ → Type 0
IsLiteral n (pos x) = (0 < x) × (x ≤ n)
IsLiteral n (negsuc x) = x < n

lit_to_code-InRange :
    (n : ℕ) (x : ℤ) → IsLiteral n x → (0 < lit_var (lit_to_code x)) × (lit_var (lit_to_code x) ≤ n)
unfolding lit_to_code IsLiteral
lit_to_code-InRange n (pos zero) h = absurd (omega (arith, h.0))
lit_to_code-InRange n (pos (suc x)) h = (omega (arith, h.1), omega (arith, h.1))
lit_to_code-InRange n (negsuc x) h = (omega arith, omega arith)

-- A solver is well-formed after a clause of literals of its variables was added to it.
pub add_clause-WellFormed :
    (s : Solver) (lits : ℕ → ℤ) (len : ℕ)
    → WellFormed s
    → ((k : ℕ) → k < len → IsLiteral s.num_vars (lits k))
    → WellFormed (add_clause s lits len).0
unfolding add_clause
add_clause-WellFormed s lits len f h =
    push_clause-WellFormed s
      (record { size = len; learnt = false; lits = λ k. lit_to_code (lits k) }) f
      (λ k lt. lit_to_code-InRange s.num_vars (lits k) (h k lt))

pub add_learnt_clause-WellFormed :
    (s : Solver) (lits : ℕ → ℕ) (len : ℕ)
    → WellFormed s
    → InRange s.num_vars (record { size = len; learnt = true; lits = lits })
    → WellFormed (add_learnt_clause s lits len).0
unfolding add_learnt_clause
add_learnt_clause-WellFormed s lits len f h =
    push_clause-WellFormed s (record { size = len; learnt = true; lits = lits }) f h

-- A literal without a value is put on the trail.
pub enqueue-WellFormed :
    (s : Solver) (lit : ℕ) (reason : Option ℕ)
    → WellFormed s
    → lit_value s lit ≡ unassigned_value
    → WellFormed (enqueue s lit reason)
unfolding enqueue
enqueue-WellFormed s lit reason f u = record {
  watched = f.watched;
  past = f.past;
  within = f.within;
  pending = λ i le lt. enqueue-pending s lit i reason u (f.pending i le) lt;
}
