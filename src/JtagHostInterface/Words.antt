-- ===== src/JtagHostInterface/Words.antt =====
-- Words as lists of bits, the lowest bit first, and the shift registers of
-- jtag_host_interface.py over many shifts.
use cdcl_sat_solver.Base.{
  ℕ, zero, suc, ◌+◌, ◌*◌, ◌/◌, ◌%◌, ◌^◌, ◌<◌, ◌≡◌, refl, ap, ap₂, sym, subst, ◌∙◌, Bool, List, [],
  ◌∷◌, length, arith, bit, bit_at,
}
use native.Mathlib.Nat.{mul_left_comm, mul_assoc, add-mul}
use cdcl_sat_solver.JtagHostInterface.Port.{shift_in, rotate}

-- The number that a list of bits stands for, and the low bits of a number.
abbrev pub value : List Bool → ℕ
value [] = 0
value (b ∷ bs) = bit b + 2 * value bs

abbrev pub low_bits_of : ℕ → ℕ → List Bool
low_bits_of zero x = []
low_bits_of (suc n) x = bit_at 0 x ∷ low_bits_of n (x / 2)

pub pow2 : ℕ → ℕ
pow2 zero = 1
pow2 (suc n) = 2 * pow2 n

pub pow2-128 : pow2 128 ≡ 2 ^ 128
unfolding pow2
pow2-128 = refl

bit_at-bit : (x : ℕ) → bit (bit_at 0 x) ≡ x % 2
bit_at-bit x = ground arith

pub value-low_bits_of : (n x : ℕ) → x < pow2 n → value (low_bits_of n x) ≡ x
unfolding pow2
value-low_bits_of zero x h = omega arith
value-low_bits_of (suc n) x h =
    omega (arith, value-low_bits_of n (x / 2) (omega arith), bit_at-bit x)

unfoldable pub shift_all : List Bool → ℕ → ℕ
shift_all [] x = x
shift_all (b ∷ bs) x = shift_all bs (shift_in b x)

double_parts :
    (y p r x b v : ℕ)
    → y * p + r ≡ x / 2 + b * 2 ^ 127 + v * 2 ^ 128
    → y * (2 * p) + (2 * r + x % 2) ≡ x + (b + 2 * v) * 2 ^ 128
double_parts y p r x b v e = omega (arith, mul_left_comm y 2 p)

-- What is shifted out at the low end stands below what is shifted in at the high end.
shift_all-parts :
    (bs : List Bool) (x : ℕ)
    → (r : ℕ) × (r < pow2 (length bs))
      × (shift_all bs x * pow2 (length bs) + r ≡ x + value bs * 2 ^ 128)
unfolding shift_all pow2
shift_all-parts [] x = (0, omega arith, omega arith)
shift_all-parts (b ∷ bs) x =
    let (r, lt, e) = shift_all-parts bs (shift_in b x) in
    (
      2 * r + x % 2,
      omega arith,
      double_parts (shift_all bs (shift_in b x)) (pow2 (length bs)) r x (bit b) (value bs) e,
    )

-- After as many shifts as the register has bits it holds what was shifted in.
pub shift_all_whole :
    (bs : List Bool) (x : ℕ) → length bs ≡ 128 → x < 2 ^ 128 → shift_all bs x ≡ value bs
shift_all_whole bs x l h =
    let (r, lt, e) = shift_all-parts bs x in
    let whole : pow2 (length bs) ≡ 2 ^ 128 = ap pow2 l ∙ pow2-128 in
    let lt' : r < 2 ^ 128 = subst (λ p. r < p) whole lt in
    let e' : shift_all bs x * 2 ^ 128 + r ≡ x + value bs * 2 ^ 128 =
      subst (λ p. shift_all bs x * p + r ≡ x + value bs * 2 ^ 128) whole e in
    omega arith

zero_in : (n : ℕ) → 0 + n ≡ n
zero_in n = omega arith

one_times : (p : ℕ) → p ≡ 1 * p
one_times p = omega arith

suc_out : (m n : ℕ) → suc m + n ≡ suc (m + n)
suc_out m n = omega arith

pub pow2-add : (m n : ℕ) → pow2 (m + n) ≡ pow2 m * pow2 n
unfolding pow2
pow2-add zero n = ap pow2 (zero_in n) ∙ one_times (pow2 n)
pow2-add (suc m) n =
    ap pow2 (suc_out m n) ∙ ap (λ p. 2 * p) (pow2-add m n) ∙ sym (mul_assoc 2 (pow2 m) (pow2 n))

unfoldable pub rotated_bits : ℕ → ℕ → List Bool
rotated_bits zero x = []
rotated_bits (suc n) x = bit_at 0 x ∷ rotated_bits n (rotate x)

pow2-127 : pow2 127 ≡ 2 ^ 127
unfolding pow2
pow2-127 = refl

top_bit : (k n : ℕ) → k + n ≡ 127 → 2 ^ 127 ≡ pow2 k * pow2 n
top_bit k n e = sym pow2-127 ∙ ap pow2 (sym e) ∙ pow2-add k n

same_low_bit : (z c p : ℕ) → bit_at 0 (z + c * (2 * p)) ≡ bit_at 0 z
same_low_bit z c p = ground (arith, mul_left_comm c 2 p)

-- A rotation by one keeps what stands above the bits still to come a multiple of their power.
rotate-above :
    (z c p q : ℕ) → 2 ^ 127 ≡ q * p → rotate (z + c * (2 * p)) ≡ z / 2 + (c + z % 2 * q) * p
rotate-above z c p q e = omega (
  arith,
  mul_left_comm c 2 p,
  add-mul c (z % 2 * q) p,
  mul_assoc (z % 2) q p,
  ap (λ t. z % 2 * t) e,
)

-- The first 128 bits that a rotating register shows are its own.
rotated_bits-above : (n k z c : ℕ) → n + k ≡ 128 → rotated_bits n (z + c * pow2 n) ≡ low_bits_of n z
unfolding rotated_bits pow2
rotated_bits-above zero k z c e = refl
rotated_bits-above (suc n) k z c e = ap₂ ◌∷◌ (same_low_bit z c (pow2 n)) (
    ap (rotated_bits n) (rotate-above z c (pow2 n) (pow2 k) (top_bit k n (omega (arith, e))))
    ∙ rotated_bits-above n (suc k) (z / 2) (c + z % 2 * pow2 k) (omega (arith, e)))

zero_above : (w p : ℕ) → w + 0 * p ≡ w
zero_above w p = omega arith

-- The bits that a register of 128 bits shows on its way round.
pub rotated_bits_whole : (w : ℕ) → rotated_bits 128 w ≡ low_bits_of 128 w
rotated_bits_whole w =
    ap (rotated_bits 128) (sym (zero_above w (pow2 128))) ∙ rotated_bits-above 128 0 w 0 refl
