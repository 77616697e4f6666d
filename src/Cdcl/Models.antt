-- ===== src/Cdcl/Models.antt =====
-- CDCL.c: clauses and assignments as logic.
use cdcl_sat_solver.Base.{
  ℕ, ◌<◌, ◌≡◌, ◌≢◌, inl, inr, refl, sym, ap, ap₂, ◌∙◌, subst, Bool, true, false, not, ◌==◌,
  if◌then◌else◌, bit_at, Option, Bool-cases, arith, swap_at, ==-false, ==-refl,
}
use cdcl_sat_solver.Cdcl.{
  Value, false_value, true_value, unassigned_value, Clause, Solver, lit_neg, lit_var, lit_value,
  value_of, flip, enqueue,
}

-- A literal under a valuation of the variables.
abbrev pub lit_true : (ℕ → Bool) → ℕ → Bool
lit_true v code = if bit_at 0 code then not (v (lit_var code)) else v (lit_var code)

-- A clause holds: one of its literals does.
abbrev pub Holds : (ℕ → Bool) → Clause → Type 0
Holds v c = (k : ℕ) × (k < c.size) × (lit_true v (c.lits k) ≡ true)

abbrev pub Satisfies : (ℕ → Bool) → Solver → Type 0
Satisfies v s = (ci : ℕ) → ci < s.clause_count → Holds v (s.clauses ci)

-- A value of a variable is the valuation's, if there is one.
abbrev pub IsValue : Value → Bool → Type 0
IsValue true_value b = b ≡ true
IsValue false_value b = b ≡ false
IsValue unassigned_value b = Unit

abbrev pub Agrees : (ℕ → Bool) → Solver → Type 0
Agrees v s = (x : ℕ) → IsValue (s.assigns x) (v x)

IsValue-flip : (a : Value) (b : Bool) → IsValue a b → IsValue (flip a) (not b)
IsValue-flip true_value b h = ap not h
IsValue-flip false_value b h = ap not h
IsValue-flip unassigned_value b h = tt

pub lit_value-IsValue :
    (v : ℕ → Bool) (s : Solver) (code : ℕ)
    → Agrees v s
    → IsValue (lit_value s code) (lit_true v code)
unfolding lit_value
lit_value-IsValue v s code a = chosen (bit_at 0 code)
  where
    chosen :
        (b : Bool)
        → IsValue
            (if b then flip (s.assigns (lit_var code)) else s.assigns (lit_var code))
            (if b then not (v (lit_var code)) else v (lit_var code))
    chosen true = IsValue-flip (s.assigns (lit_var code)) (v (lit_var code)) (a (lit_var code))
    chosen false = a (lit_var code)

-- A literal that is false under the assignments is false under every valuation that agrees.
pub false_literal :
    (v : ℕ → Bool) (s : Solver) (code : ℕ)
    → Agrees v s
    → lit_value s code ≡ false_value
    → lit_true v code ≡ false
false_literal v s code a e =
    subst (λ x. IsValue x (lit_true v code)) e (lit_value-IsValue v s code a)

-- The value that makes a literal true.
value_of-IsValue :
    (v : ℕ → Bool) (code : ℕ) → lit_true v code ≡ true → IsValue (value_of code) (v (lit_var code))
value_of-IsValue v code h = chosen (bit_at 0 code) (v (lit_var code)) h
  where
    chosen :
        (b x : Bool)
        → (if b then not x else x) ≡ true
        → IsValue (if b then false_value else true_value) x
    chosen true true e = sym e
    chosen true false e = refl
    chosen false x e = e

-- A literal that a valuation makes true can be put on the trail.
pub enqueue-Agrees :
    (v : ℕ → Bool) (s : Solver) (code : ℕ) (reason : Option ℕ)
    → Agrees v s
    → lit_true v code ≡ true
    → Agrees v (enqueue s code reason)
unfolding enqueue
enqueue-Agrees v s code reason a h x = elim (Bool-cases (x == lit_var code)) [
  | inl e ↦
      let same : x ≡ lit_var code = ground arith in
      subst (λ c. IsValue (if c then value_of code else s.assigns x) (v x)) (sym e)
        (subst (λ y. IsValue (value_of code) (v y)) (sym same) (value_of-IsValue v code h))
  | inr e ↦ subst (λ c. IsValue (if c then value_of code else s.assigns x) (v x)) (sym e) (a x)
]

-- The values of literals after an unassigned one became true.
lit_var-neg : (code : ℕ) → lit_var (lit_neg code) ≡ lit_var code
unfolding lit_neg
lit_var-neg code = ground arith

bit_at-neg : (code : ℕ) → bit_at 0 (lit_neg code) ≡ not (bit_at 0 code)
unfolding lit_neg
bit_at-neg code = ground arith

abbrev signed : Bool → Value → Value
signed b x = if b then flip x else x

signed-not : (b : Bool) (x : Value) → signed b x ≡ true_value → signed (not b) x ≡ false_value
signed-not true true_value e = absurd (cc)
signed-not true false_value e = refl
signed-not true unassigned_value e = absurd (cc)
signed-not false true_value e = refl
signed-not false false_value e = absurd (cc)
signed-not false unassigned_value e = absurd (cc)

signed-unassigned : (b : Bool) (x : Value) → signed b x ≡ unassigned_value → x ≡ unassigned_value
signed-unassigned true true_value e = absurd (cc)
signed-unassigned true false_value e = absurd (cc)
signed-unassigned true unassigned_value e = refl
signed-unassigned false x e = e

unassigned-signed : (b : Bool) → signed b unassigned_value ≡ unassigned_value
unassigned-signed true = refl
unassigned-signed false = refl

signed_true : (b : Bool) → signed b (if b then false_value else true_value) ≡ true_value
signed_true true = refl
signed_true false = refl

pub lit_value-neg :
    (s : Solver) (code : ℕ)
    → lit_value s code ≡ true_value
    → lit_value s (lit_neg code) ≡ false_value
unfolding lit_value
lit_value-neg s code h =
    ap₂ (λ b x. signed b (s.assigns x)) (bit_at-neg code) (lit_var-neg code)
    ∙ signed-not (bit_at 0 code) (s.assigns (lit_var code)) h

pub lit_value-unassigned :
    (s : Solver) (code : ℕ)
    → lit_value s code ≡ unassigned_value
    → s.assigns (lit_var code) ≡ unassigned_value
unfolding lit_value
lit_value-unassigned s code h = signed-unassigned (bit_at 0 code) (s.assigns (lit_var code)) h

apart :
    (s : Solver) (code other : ℕ)
    → lit_value s code ≡ unassigned_value
    → lit_value s other ≢ unassigned_value
    → lit_var other ≢ lit_var code
unfolding lit_value
apart s code other u n e = n (
    ap (λ x. signed (bit_at 0 other) (s.assigns x)) e
    ∙ ap (signed (bit_at 0 other)) (lit_value-unassigned s code u)
    ∙ unassigned-signed (bit_at 0 other))

-- The literals of other variables keep their value when a literal becomes true.
pub enqueue-lit_value_other :
    (s : Solver) (code other : ℕ) (reason : Option ℕ)
    → lit_var other ≢ lit_var code
    → lit_value (enqueue s code reason) other ≡ lit_value s other
unfolding lit_value enqueue
enqueue-lit_value_other s code other reason n =
    ap (λ b. signed (bit_at 0 other) (if b then value_of code else s.assigns (lit_var other)))
      (==-false (lit_var other) (lit_var code) n)

-- The literals that have a value keep it when one that has none becomes true.
pub enqueue-lit_value :
    (s : Solver) (code other : ℕ) (reason : Option ℕ)
    → lit_value s code ≡ unassigned_value
    → lit_value s other ≢ unassigned_value
    → lit_value (enqueue s code reason) other ≡ lit_value s other
enqueue-lit_value s code other reason u n =
    enqueue-lit_value_other s code other reason (apart s code other u n)

pub enqueue-lit_value_self :
    (s : Solver) (code : ℕ) (reason : Option ℕ)
    → lit_value (enqueue s code reason) code ≡ true_value
unfolding lit_value enqueue
enqueue-lit_value_self s code reason =
    ap (λ b. signed (bit_at 0 code) (if b then value_of code else s.assigns (lit_var code)))
      (==-refl (lit_var code))
    ∙ signed_true (bit_at 0 code)

-- Two clauses with the same literals in two places each.
abbrev pub swapped : Clause → ℕ → ℕ → Clause
swapped c i k = record c { lits = swap_at c.lits i k }

-- Where a literal goes to, and comes from.
swap_back : (f : ℕ → ℕ) (i k j : ℕ) → swap_at f i k (swap_at (λ x. x) i k j) ≡ f j
swap_back f i k j = ground arith

pub swap_from : (f : ℕ → ℕ) (i k j : ℕ) → f (swap_at (λ x. x) i k j) ≡ swap_at f i k j
swap_from f i k j = ground arith

pub swap_place-lt : (i k j n : ℕ) → i < n → k < n → j < n → swap_at (λ x. x) i k j < n
swap_place-lt i k j n hi hk hj = ground arith

pub swapped-Holds :
    (v : ℕ → Bool) (c : Clause) (i k : ℕ)
    → i < c.size
    → k < c.size
    → Holds v c
    → Holds v (swapped c i k)
swapped-Holds v c i k hi hk (j, lt, e) = (
  swap_at (λ x. x) i k j,
  swap_place-lt i k j c.size hi hk lt,
  ap (lit_true v) (swap_back c.lits i k j) ∙ e,
)

pub Holds-swapped :
    (v : ℕ → Bool) (c : Clause) (i k : ℕ)
    → i < c.size
    → k < c.size
    → Holds v (swapped c i k)
    → Holds v c
Holds-swapped v c i k hi hk (j, lt, e) = (
  swap_at (λ x. x) i k j,
  swap_place-lt i k j c.size hi hk lt,
  ap (lit_true v) (swap_from c.lits i k j) ∙ e,
)
