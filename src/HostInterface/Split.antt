-- ===== src/HostInterface/Split.antt =====
-- host_interface.py: where in a run the bytes of a command arrive.
use cdcl_sat_solver.Base.{
  ℕ, ◌≡◌, refl, ap, ◌∙◌, sym, true, false, ◌&&◌, List, [], ◌∷◌, ◌++◌, length, arith, inl, inr,
  Bool-cases, length-append,
}
use cdcl_sat_solver.HostInterface.{Inputs}
use cdcl_sat_solver.HostInterface.Receive.{bytes, bytes-valid, bytes-idle}

-- No byte comes in the cycle after another, nor in the last cycle.
abbrev pub Spaced : List Inputs → Type 0
Spaced [] = Unit
Spaced (i ∷ []) = i.rx_valid ≡ false
Spaced (i ∷ j ∷ is) = (i.rx_valid && j.rx_valid ≡ false) × Spaced (j ∷ is)

Spaced-tail : (i : Inputs) (is : List Inputs) → Spaced (i ∷ is) → Spaced is
Spaced-tail i [] sp = tt
Spaced-tail i (j ∷ is) sp = sp.1

pub Spaced-append : (is js : List Inputs) → Spaced (is ++ js) → Spaced js
Spaced-append [] js sp = sp
Spaced-append (i ∷ is) js sp = Spaced-append is js (Spaced-tail i (is ++ js) sp)

-- The cycle in which a byte arrives, after the bytes `ps` and before the bytes `xs`.
pub record Arrives (ps : List ℕ) (x : ℕ) (xs : List ℕ) (is : List Inputs) : Type 0 where
  pub before : List Inputs
  pub now : Inputs
  pub after : List Inputs
  pub whole : is ≡ before ++ now ∷ after
  pub earlier : bytes before ≡ ps
  pub valid : now.rx_valid ≡ true
  pub carries : now.rx_data ≡ x
  pub later : bytes after ≡ xs

head_or : ℕ → List ℕ → ℕ
head_or d [] = d
head_or d (x ∷ xs) = x

tail : List ℕ → List ℕ
tail [] = []
tail (x ∷ xs) = xs

none_left :
    (ps : List ℕ) (x : ℕ) (xs : List ℕ) (is : List Inputs) → [] ≡ ps ++ x ∷ xs → Arrives ps x xs is
none_left ps x xs is e = absurd (omega (arith, ap length e, length-append ps (x ∷ xs)))

Arrives-skip :
    (ps : List ℕ) (x : ℕ) (xs : List ℕ) (i : Inputs) (is : List Inputs)
    → i.rx_valid ≡ false
    → Arrives ps x xs is
    → Arrives ps x xs (i ∷ is)
Arrives-skip ps x xs i is v a = record {
  before = i ∷ a.before;
  now = a.now;
  after = a.after;
  whole = ap (λ l. i ∷ l) a.whole;
  earlier = bytes-idle i a.before v ∙ a.earlier;
  valid = a.valid;
  carries = a.carries;
  later = a.later;
}

-- Every byte of a run arrives in some cycle.
pub arrives :
    (ps : List ℕ) (x : ℕ) (xs : List ℕ) (is : List Inputs)
    → bytes is ≡ ps ++ x ∷ xs
    → Arrives ps x xs is
unfolding head_or tail bytes
arrives ps x xs [] e = none_left ps x xs [] e
arrives [] x xs (i ∷ is) e = elim (Bool-cases i.rx_valid) [
  | inl v ↦
      let same = sym (bytes-valid i is v) ∙ e in
      record {
        before = [];
        now = i;
        after = is;
        whole = refl;
        earlier = refl;
        valid = v;
        carries = ap (head_or 0) same;
        later = ap tail same;
      }
  | inr v ↦ Arrives-skip [] x xs i is v (arrives [] x xs is (sym (bytes-idle i is v) ∙ e))
]
arrives (p ∷ ps) x xs (i ∷ is) e = elim (Bool-cases i.rx_valid) [
  | inl v ↦
      let same = sym (bytes-valid i is v) ∙ e in
      let a = arrives ps x xs is (ap tail same) in
      record {
        before = i ∷ a.before;
        now = a.now;
        after = a.after;
        whole = ap (λ l. i ∷ l) a.whole;
        earlier =
            bytes-valid i a.before v
            ∙ ap (λ l. i.rx_data ∷ l) a.earlier
            ∙ ap (λ y. y ∷ ps) (ap (head_or 0) same);
        valid = a.valid;
        carries = a.carries;
        later = a.later;
      }
  | inr v ↦
      Arrives-skip (p ∷ ps) x xs i is v (arrives (p ∷ ps) x xs is (sym (bytes-idle i is v) ∙ e))
]
