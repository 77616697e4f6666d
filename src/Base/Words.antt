-- ===== src/Base/Words.antt =====
-- Signals of a fixed width. A signal of one bit is a `Bool`, a wider one a number; an assignment
-- keeps the low bits of a value that is wider than its target.
use Prim.Native.Nat.{ℕ, ◌/◌, ◌%◌, ◌^◌, ◌<◌}
use mathlib.Core.Path.{◌≡◌, refl}
use mathlib.Core.Bool.{Bool, true, false}
use native.Mathlib.Omega.{arith}
use cdcl_sat_solver.Base.Tests.{◌==◌}

-- `Signal(w).eq(x)`
abbrev pub low_bits : ℕ → ℕ → ℕ
low_bits w x = x % 2 ^ w

-- `x[lo:lo + w]`
abbrev pub slice : ℕ → ℕ → ℕ → ℕ
slice lo w x = x / 2 ^ lo % 2 ^ w

-- `x[k]`
abbrev pub bit_at : ℕ → ℕ → Bool
bit_at k x = (x / 2 ^ k % 2) == 1

-- The number that a signal of one bit stands for.
abbrev pub bit : Bool → ℕ
bit true = 1
bit false = 0

pub bit-lt-two : (b : Bool) → bit b < 2
bit-lt-two true = omega arith
bit-lt-two false = omega arith

pub bit-test : (b : Bool) → (bit b == 1) ≡ b
bit-test true = refl
bit-test false = refl
