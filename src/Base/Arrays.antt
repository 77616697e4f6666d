-- ===== src/Base/Arrays.antt =====
-- Arrays as functions of the index.
use Prim.Native.Nat.{ℕ}
use mathlib.Core.Bool.{Bool, true, false}
use mathlib.Core.Path.{◌≡◌, ap, sym, subst, ◌∙◌, fun_ext}
use mathlib.Core.Logic.{◌≢◌, inl, inr}
use native.Mathlib.Omega.{arith}
use cdcl_sat_solver.Base.Tests.{◌==◌, if◌then◌else◌, Bool-cases}

module _ {ℓ} {A : Type ℓ} where
  -- `f[k] = v`
  abbrev pub set_at : (ℕ → A) → ℕ → A → ℕ → A
  set_at f k v j = if j == k then v else f j

  -- `tmp = f[i]; f[i] = f[k]; f[k] = tmp`
  abbrev pub swap_at : (ℕ → A) → ℕ → ℕ → ℕ → A
  swap_at f i k j = if j == k then f i else if j == i then f k else f j

  -- What holds of the new element and of all others holds of all.
  pub set_at-all :
      (P : A → Type 0) (f : ℕ → A) (k : ℕ) (v : A) (j : ℕ)
      → P v
      → ((i : ℕ) → P (f i))
      → P (set_at f k v j)
  set_at-all P f k v j new old = chosen (j == k)
    where
      chosen : (c : Bool) → P (if c then v else f j)
      chosen true = new
      chosen false = old j

  -- `f[k] = f[k]`
  set_at-same_at : (f : ℕ → A) (k j : ℕ) → set_at f k (f k) j ≡ f j
  set_at-same_at f k j = elim (Bool-cases (j == k)) [
    | inl e ↦
        let same : j ≡ k = ground arith in ap (λ b. if b then f k else f j) e ∙ ap f (sym same)
    | inr e ↦ ap (λ b. if b then f k else f j) e
  ]

  pub set_at-same : (f : ℕ → A) (k : ℕ) → set_at f k (f k) ≡ f
  set_at-same f k = fun_ext (set_at-same_at f k)

  -- An element is the new one at its place, and an old one elsewhere.
  pub set_at-cases :
      (P : A → Type 0) (f : ℕ → A) (k : ℕ) (v : A) (j : ℕ)
      → (j ≡ k → P v)
      → (j ≢ k → P (f j))
      → P (set_at f k v j)
  set_at-cases P f k v j new old = elim (Bool-cases (j == k)) [
    | inl e ↦ subst (λ b. P (if b then v else f j)) (sym e) (new (ground arith))
    | inr e ↦ subst (λ b. P (if b then v else f j)) (sym e) (old (ground arith))
  ]
