-- ===== src/Cdcl/Watches.antt =====
-- CDCL.c: the watch lists hold each clause once for each of its first two literals.
use cdcl_sat_solver.Base.{
  ℕ, ◌+◌, ◌<◌, ◌≡◌, ◌≢◌, inl, inr, refl, sym, ap, ◌∙◌, true, false, ◌==◌, ltb, if◌then◌else◌,
  Bool-cases, arith, set_at, List, [], ◌∷◌, ◌++◌, ==-refl,
}
use cdcl_sat_solver.Cdcl.{Clause}
use cdcl_sat_solver.Cdcl.Propagate.{false_second}
use cdcl_sat_solver.Cdcl.Models.{swapped}

abbrev pub mark : ℕ → ℕ → ℕ
mark a b = if a == b then 1 else 0

abbrev pub count : ℕ → List ℕ → ℕ
count x [] = 0
count x (y ∷ ys) = mark y x + count x ys

-- How many of the watched literals of a clause the literal is.
abbrev pub marks : Clause → ℕ → ℕ
marks c l = if ltb 1 c.size then mark (c.lits 0) l + mark (c.lits 1) l else 0

unfoldable pub Watched : (ℕ → List ℕ) → (ℕ → Clause) → Type 0
Watched w cl = (l ci : ℕ) → count ci (w l) ≡ marks (cl ci) l

pub count-append : (x : ℕ) (ys zs : List ℕ) → count x (ys ++ zs) ≡ count x ys + count x zs
count-append x [] zs = omega arith
count-append x (y ∷ ys) zs = omega (arith, count-append x ys zs)

-- A clause that the list of a literal holds watches it.
pub listed :
    (w : ℕ → List ℕ) (cl : ℕ → Clause) (f ci : ℕ) (kept rest : List ℕ)
    → Watched (set_at w f (kept ++ ci ∷ rest)) cl
    → 0 < marks (cl ci) f
unfolding Watched
listed w cl f ci kept rest h =
    let here : count ci (kept ++ ci ∷ rest) ≡ marks (cl ci) f =
      ap (λ b. count ci (if b then kept ++ ci ∷ rest else w f)) (sym (==-refl f)) ∙ h f ci in
    let one : mark ci ci ≡ 1 = ap (λ b. if b then 1 else 0) (==-refl ci) in
    omega (arith, here, one, count-append ci kept (ci ∷ rest))

pub watches-two : (c : Clause) (f : ℕ) → 0 < marks c f → 1 < c.size
watches-two c f h = ground arith

pub marks-false_second : (c : Clause) (f l : ℕ) → marks (false_second c f) l ≡ marks c l
unfolding false_second
marks-false_second c f l = elim (Bool-cases (c.lits 0 == f)) [
  | inl e ↦ rw e (ground arith)
  | inr e ↦ rw e refl
]

pub false_second_lem : (c : Clause) (f : ℕ) → 0 < marks c f → (false_second c f).lits 1 ≡ f
unfolding false_second
false_second_lem c f h = elim (Bool-cases (c.lits 0 == f)) [
  | inl e ↦ rw e (ground arith)
  | inr e ↦ rw e (ground arith)
]

-- A clause that is replaced by one with the same watched literals.
pub Watched-same :
    (w : ℕ → List ℕ) (cl : ℕ → Clause) (ci : ℕ) (c : Clause)
    → ((l : ℕ) → marks c l ≡ marks (cl ci) l)
    → Watched w cl
    → Watched w (set_at cl ci c)
unfolding Watched
Watched-same w cl ci c same h l cj = elim (Bool-cases (cj == ci)) [
  | inl e ↦
      let equal : cj ≡ ci = ground arith in
      rw e (h l cj ∙ ap (λ x. marks (cl x) l) equal ∙ sym (same l))
  | inr e ↦ rw e (h l cj)
]

marks-swapped :
    (c : Clause) (k f l : ℕ)
    → 1 < c.size
    → 1 < k
    → c.lits 1 ≡ f
    → marks (swapped c 1 k) l + mark f l ≡ marks c l + mark (c.lits k) l
marks-swapped c k f l h hk e = ground arith

-- The change of a literal's lists, and of a clause's marks, by a move from f to g.
change : ℕ → ℕ → ℕ → ℕ → ℕ
change ci cj g l = if ci == cj then mark g l else 0

lists_moved :
    (w : ℕ → List ℕ) (f g ci : ℕ) (kept rest : List ℕ) (l cj : ℕ)
    → g ≢ f
    → count cj (set_at (set_at w g (w g ++ ci ∷ [])) f (kept ++ rest) l) + change ci cj f l
      ≡ count cj (set_at w f (kept ++ ci ∷ rest) l) + change ci cj g l
unfolding change
lists_moved w f g ci kept rest l cj ne = elim (Bool-cases (l == f)) [
  | inl e ↦ rw e (ground (arith, count-append cj kept rest, count-append cj kept (ci ∷ rest)))
  | inr e ↦ elim (Bool-cases (l == g)) [
    | inl d ↦
        let same : l ≡ g = ground arith in
        rw (e, d) (ground (arith, count-append cj (w g) (ci ∷ []), ap (λ x. count cj (w x)) same))
    | inr d ↦ rw (e, d) (ground arith)
  ]
]

clause_moved :
    (cl : ℕ → Clause) (f ci k l cj : ℕ)
    → 1 < (cl ci).size
    → 1 < k
    → (cl ci).lits 1 ≡ f
    → marks (set_at cl ci (swapped (cl ci) 1 k) cj) l + change ci cj f l
      ≡ marks (cl cj) l + change ci cj ((cl ci).lits k) l
unfolding change
clause_moved cl f ci k l cj two hk e = elim (Bool-cases (cj == ci)) [
  | inl d ↦
      let same : cj ≡ ci = ground arith in
      let back : (ci == cj) ≡ true = ground arith in
      rw (d, back)
        (marks-swapped (cl ci) k f l two hk e
          ∙ ap (λ x. marks (cl x) l + mark ((cl ci).lits k) l) (sym same))
  | inr d ↦ let back : (ci == cj) ≡ false = ground arith in rw (d, back) refl
]

-- The list of the false literal loses a clause, and that of the new literal gets it.
pub Watched-moved :
    (w : ℕ → List ℕ) (cl : ℕ → Clause) (f ci k : ℕ) (kept rest : List ℕ)
    → 1 < (cl ci).size
    → 1 < k
    → (cl ci).lits 1 ≡ f
    → (cl ci).lits k ≢ f
    → Watched (set_at w f (kept ++ ci ∷ rest)) cl
    → let g = (cl ci).lits k in
      Watched
        (set_at (set_at w g (w g ++ ci ∷ [])) f (kept ++ rest))
        (set_at cl ci (swapped (cl ci) 1 k))
unfolding Watched
Watched-moved w cl f ci k kept rest two hk e ne h l cj = omega (
  arith,
  lists_moved w f ((cl ci).lits k) ci kept rest l cj ne,
  clause_moved cl f ci k l cj two hk e,
  h l cj,
)
