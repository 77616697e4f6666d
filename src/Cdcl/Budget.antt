-- ===== src/Cdcl/Budget.antt =====
-- CDCL.c: the variables without a value, which bound how long the trail can become.
use cdcl_sat_solver.Base.{
  ℕ, zero, suc, ◌+◌, ◌<◌, ◌≤◌, ◌≡◌, inl, inr, refl, ap, ap₂, ◌∙◌, ◌==◌, if◌then◌else◌, Bool-cases,
  arith, set_at, ==-false, Option,
}
use cdcl_sat_solver.Cdcl.{Value, unassigned_value, Solver, lit_var, lit_value, value_of, enqueue}
use cdcl_sat_solver.Cdcl.Models.{lit_value-unassigned}

abbrev pub free : Value → ℕ
free unassigned_value = 1
free _ = 0

-- How many of the variables from 1 to n have no value.
unfoldable pub free_upto : (ℕ → Value) → ℕ → ℕ
free_upto a zero = 0
free_upto a (suc n) = free (a (suc n)) + free_upto a n

-- The length of the trail and the variables that can still come to it.
unfoldable pub budget : Solver → ℕ
budget s = s.trail_size + free_upto s.assigns s.num_vars

value_of-free : (code : ℕ) → free (value_of code) ≡ 0
value_of-free code = ground arith

above :
    (a : ℕ → Value) (x : ℕ) (v : Value) (n : ℕ) → n < x → free_upto (set_at a x v) n ≡ free_upto a n
unfolding free_upto
above a x v zero h = refl
above a x v (suc n) h =
    ap₂ ◌+◌ (ap (λ b. free (if b then v else a (suc n))) (==-false (suc n) x (λ e. omega arith)))
      (above a x v n (omega arith))

one_less :
    (a : ℕ → Value) (x : ℕ) (v : Value) (n : ℕ)
    → 0 < x
    → x ≤ n
    → a x ≡ unassigned_value
    → free v ≡ 0
    → free_upto (set_at a x v) n + 1 ≡ free_upto a n
unfolding free_upto
one_less a x v zero p h u e = absurd (omega arith)
one_less a x v (suc n) p h u e = elim (Bool-cases (suc n == x)) [
  | inl d ↦
      let same : suc n ≡ x = ground arith in
      let now : free (set_at a x v (suc n)) ≡ 0 =
        ap (λ b. free (if b then v else a (suc n))) d ∙ e in
      let before : free (a (suc n)) ≡ 1 = ap (λ i. free (a i)) same ∙ ap free u in
      omega (arith, now, before, above a x v n (omega arith))
  | inr d ↦
      let now : free (set_at a x v (suc n)) ≡ free (a (suc n)) =
        ap (λ b. free (if b then v else a (suc n))) d in
      omega (arith, now, one_less a x v n p (ground arith) u e)
]

pub enqueue-budget :
    (s : Solver) (code : ℕ) (reason : Option ℕ)
    → lit_value s code ≡ unassigned_value
    → 0 < lit_var code
    → lit_var code ≤ s.num_vars
    → budget (enqueue s code reason) ≡ budget s
unfolding budget enqueue
enqueue-budget s code reason u p h = omega (
  arith,
  one_less s.assigns (lit_var code) (value_of code) s.num_vars p h (lit_value-unassigned s code u)
      (value_of-free code),
)

pub trail-budget : (s : Solver) → s.trail_size ≤ budget s
unfolding budget
trail-budget s = omega arith
