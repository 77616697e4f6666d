-- ===== src/Cdcl/Restore.antt =====
-- CDCL.c, backtrack: what is undone, and what stays.
use cdcl_sat_solver.Base.{
  ℕ, ◌-◌, ◌<◌, ◌≤◌, ◌≡◌, ◌≢◌, ◌⊎◌, inl, inr, refl, sym, ap, ◌∙◌, subst, if◌then◌else◌, arith, none,
  ==-refl, ==-false,
}
use cdcl_sat_solver.Cdcl.{unassigned_value, Solver, lit_var}
use cdcl_sat_solver.Cdcl.Backtrack.{pop_literal, pop_decision}

-- The levels begin one after another on the trail.
pub record Delimited (s : Solver) : Type 0 where
  pub on_trail : (i : ℕ) → i < s.num_decisions → s.trail_delimiters i ≤ s.trail_size
  pub in_order :
      (i j : ℕ) → i ≤ j → j < s.num_decisions → s.trail_delimiters i ≤ s.trail_delimiters j

-- The literals of the trail from a place on are undone, and nothing else is.
pub record Undone (s t : Solver) (lo : ℕ) : Type 0 where
  pub undone :
      (i : ℕ)
      → lo ≤ i
      → i < s.trail_size
      → (t.assigns (lit_var (s.trail i)) ≡ unassigned_value)
        × (t.reasons (lit_var (s.trail i)) ≡ none)
  pub untouched :
      (x : ℕ)
      → ((i : ℕ) → lo ≤ i → i < s.trail_size → lit_var (s.trail i) ≢ x)
      → (t.assigns x ≡ s.assigns x) × (t.reasons x ≡ s.reasons x)
  pub either :
      (x : ℕ)
      → ((t.assigns x ≡ s.assigns x) × (t.reasons x ≡ s.reasons x))
        ⊎ ((t.assigns x ≡ unassigned_value) × (t.reasons x ≡ none))
  pub same_trail : t.trail ≡ s.trail
  pub same_clauses : t.clauses ≡ s.clauses
  pub same_watches : t.watches ≡ s.watches

pub Undone-refl : (s : Solver) (lo : ℕ) → s.trail_size ≤ lo → Undone s s lo
Undone-refl s lo h = record {
  undone = λ i le lt. absurd (omega arith);
  untouched = λ x n. (refl, refl);
  either = λ x. inl (refl, refl);
  same_trail = refl;
  same_clauses = refl;
  same_watches = refl;
}

-- A level is left.
pub Undone-pop_decision : (s t : Solver) (lo : ℕ) → Undone (pop_decision s) t lo → Undone s t lo
Undone-pop_decision s t lo u = record {
  undone = u.undone;
  untouched = u.untouched;
  either = u.either;
  same_trail = u.same_trail;
  same_clauses = u.same_clauses;
  same_watches = u.same_watches;
}

popped_self :
    (s : Solver)
    → let x = lit_var (s.trail (s.trail_size - 1)) in
      ((pop_literal s).assigns x ≡ unassigned_value) × ((pop_literal s).reasons x ≡ none)
unfolding pop_literal
popped_self s =
    let x = lit_var (s.trail (s.trail_size - 1)) in
    (
      ap (λ b. if b then unassigned_value else s.assigns x) (==-refl x),
      ap (λ b. if b then none else s.reasons x) (==-refl x),
    )

popped_other :
    (s : Solver) (x : ℕ)
    → x ≢ lit_var (s.trail (s.trail_size - 1))
    → ((pop_literal s).assigns x ≡ s.assigns x) × ((pop_literal s).reasons x ≡ s.reasons x)
unfolding pop_literal
popped_other s x ne =
    let e = ==-false x (lit_var (s.trail (s.trail_size - 1))) ne in
    (
      ap (λ b. if b then unassigned_value else s.assigns x) e,
      ap (λ b. if b then none else s.reasons x) e,
    )

last_or_before : (i n : ℕ) → i < n → (i ≡ n - 1) ⊎ (i < n - 1)
last_or_before i n h = ground arith

same_or_not : (x y : ℕ) → (x ≡ y) ⊎ (x ≢ y)
same_or_not x y = ground arith

-- The last literal stays undone.
Undone-last :
    (s t : Solver) (lo : ℕ)
    → Undone (pop_literal s) t lo
    → let x = lit_var (s.trail (s.trail_size - 1)) in
      (t.assigns x ≡ unassigned_value) × (t.reasons x ≡ none)
Undone-last s t lo u =
    let x = lit_var (s.trail (s.trail_size - 1)) in
    let self = popped_self s in
    elim (u.either x) [ inl e ↦ (e.0 ∙ self.0, e.1 ∙ self.1) | inr e ↦ e ]

pub Undone-pop_literal :
    (s t : Solver) (lo : ℕ) → lo < s.trail_size → Undone (pop_literal s) t lo → Undone s t lo
unfolding pop_literal
Undone-pop_literal s t lo h u =
    let var = lit_var (s.trail (s.trail_size - 1)) in
    record {
      undone = λ i le lt. elim (last_or_before i s.trail_size lt) [
        | inl e ↦
            subst
              (λ j.
                (t.assigns (lit_var (s.trail j)) ≡ unassigned_value)
                × (t.reasons (lit_var (s.trail j)) ≡ none))
              (sym e) (Undone-last s t lo u)
        | inr less ↦ u.undone i le less
      ];
      untouched = λ x n.
          let (a, b) = u.untouched x (λ i le lt. n i le (omega arith)) in
          let (c, d) =
            popped_other s x (λ e. n (s.trail_size - 1) (omega arith) (omega arith) (sym e)) in
          (a ∙ c, b ∙ d);
      either = λ x. elim (same_or_not x var) [
        | inl e ↦
            subst
              (λ y.
                ((t.assigns y ≡ s.assigns y) × (t.reasons y ≡ s.reasons y))
                ⊎ ((t.assigns y ≡ unassigned_value) × (t.reasons y ≡ none)))
              (sym e) (inr (Undone-last s t lo u))
        | inr ne ↦
            let (c, d) = popped_other s x ne in
            elim (u.either x) [ inl e ↦ inl (e.0 ∙ c, e.1 ∙ d) | inr e ↦ inr e ]
      ];
      same_trail = u.same_trail;
      same_clauses = u.same_clauses;
      same_watches = u.same_watches;
    }
