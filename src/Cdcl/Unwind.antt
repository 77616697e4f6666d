-- ===== src/Cdcl/Unwind.antt =====
-- CDCL.c, backtrack: its loop ends at the first literal above the level.
use cdcl_sat_solver.Base.{
  ℕ, zero, suc, ◌+◌, ◌-◌, ◌<◌, ◌≤◌, ◌≡◌, ◌⊎◌, inl, inr, sym, ap, subst, ◌==◌, leb, if◌then◌else◌,
  Bool-cases, arith,
}
use cdcl_sat_solver.Cdcl.{Solver}
use cdcl_sat_solver.Cdcl.Backtrack.{pop_literal, pop_decision, unwind_one, unwind, backtrack}
use cdcl_sat_solver.Cdcl.Restore.{
  Delimited, Undone, Undone-refl, Undone-pop_decision, Undone-pop_literal,
}

-- The level is still below, or has just been reached.
record Above (level : ℕ) (s : Solver) : Type 0 where
  pub delimited : Delimited s
  pub begins : s.trail_delimiters level ≤ s.trail_size
  pub where_now :
      (level < s.num_decisions)
      ⊎ ((s.num_decisions ≡ level) × (s.trail_size ≡ s.trail_delimiters level))

record Unwound (level : ℕ) (s t : Solver) : Type 0 where
  pub size : t.trail_size ≡ s.trail_delimiters level
  pub levels : level ≤ t.num_decisions
  pub undone : Undone s t (s.trail_delimiters level)

stops :
    (level : ℕ) (s : Solver)
    → level ≤ s.num_decisions
    → s.trail_size ≡ s.trail_delimiters level
    → Unwound level s s
stops level s h e = record {
  size = e;
  levels = h;
  undone = Undone-refl s (s.trail_delimiters level) (omega (arith, e));
}

not_below : (level : ℕ) (s : Solver) → Above level s → level ≤ s.num_decisions
not_below level s a = elim a.where_now [ inl h ↦ omega arith | inr e ↦ omega (arith, e.0) ]

-- The trail is empty, or the level is reached.
stops_empty : (level : ℕ) (s : Solver) → Above level s → s.trail_size ≡ 0 → Unwound level s s
stops_empty level s a e = stops level s (not_below level s a) (omega (arith, a.begins))

stops_at : (level : ℕ) (s : Solver) → Above level s → s.num_decisions ≤ level → Unwound level s s
stops_at level s a h = elim a.where_now [
  | inl lt ↦ absurd (omega arith)
  | inr e ↦ stops level s (omega (arith, e.0)) e.1
]

one_below : (level n : ℕ) → level < n → (level < n - 1) ⊎ (level ≡ n - 1)
one_below level n h = ground arith

-- A level is left.
pop_decision-Above :
    (level : ℕ) (s : Solver)
    → Above level s
    → level < s.num_decisions
    → s.trail_size ≤ s.trail_delimiters (s.num_decisions - 1)
    → Above level (pop_decision s)
pop_decision-Above level s a lt le = record {
  delimited = record {
    on_trail = λ i h. a.delimited.on_trail i (omega arith);
    in_order = λ i j h k. a.delimited.in_order i j h (omega arith);
  };
  begins = a.begins;
  where_now = elim (one_below level s.num_decisions lt) [
    | inl more ↦ inl more
    | inr e ↦ inr (sym e, omega (arith, a.begins, ap s.trail_delimiters e))
  ];
}

-- A literal above the level is taken away.
pop_literal-Above :
    (level : ℕ) (s : Solver)
    → Above level s
    → level < s.num_decisions
    → s.trail_delimiters (s.num_decisions - 1) < s.trail_size
    → Above level (pop_literal s)
unfolding pop_literal
pop_literal-Above level s a lt more =
    let under = λ (i : ℕ) (h : i < s.num_decisions).
      a.delimited.in_order i (s.num_decisions - 1) (omega arith) (omega arith) in
    record {
      delimited = record {
        on_trail = λ i h. omega (arith, under i h);
        in_order = a.delimited.in_order;
      };
      begins = omega (arith, under level lt);
      where_now = inl lt;
    }

-- A round goes on with what is above the level.
unwind_one-Unwound :
    (level n : ℕ) (s : Solver)
    → Above level s
    → level < s.num_decisions
    → 0 < s.trail_size
    → s.trail_size + s.num_decisions ≤ suc n
    → ((u : Solver)
        → Above level u
        → u.trail_size + u.num_decisions ≤ n
        → Unwound level u (unwind n level u))
    → Unwound level s (unwind n level (unwind_one s))
unfolding unwind_one pop_literal
unwind_one-Unwound level n s a lt p room go =
    let last = s.trail_delimiters (s.num_decisions - 1) in
    elim (Bool-cases (leb s.trail_size last)) [
      | inl e ↦
          let r =
            go (pop_decision s) (pop_decision-Above level s a lt (ground arith)) (omega arith) in
          subst
            (λ b. Unwound level s (unwind n level (if b then pop_decision s else pop_literal s)))
            (sym e)
            (record {
              size = r.size;
              levels = r.levels;
              undone =
                  Undone-pop_decision s (unwind n level (pop_decision s)) (s.trail_delimiters level)
                    r.undone;
            })
      | inr e ↦
          let more : last < s.trail_size = ground arith in
          let r = go (pop_literal s) (pop_literal-Above level s a lt more) (omega arith) in
          let under =
            a.delimited.in_order level (s.num_decisions - 1) (omega arith) (omega arith) in
          subst
            (λ b. Unwound level s (unwind n level (if b then pop_decision s else pop_literal s)))
            (sym e)
            (record {
              size = r.size;
              levels = r.levels;
              undone =
                  Undone-pop_literal s (unwind n level (pop_literal s)) (s.trail_delimiters level)
                    (omega (arith, under)) r.undone;
            })
    ]

unwind-Unwound :
    (n level : ℕ) (s : Solver)
    → Above level s
    → s.trail_size + s.num_decisions ≤ n
    → Unwound level s (unwind n level s)
unfolding unwind
unwind-Unwound zero level s a room = stops_empty level s a (omega arith)
unwind-Unwound (suc n) level s a room =
    let next = unwind n level (unwind_one s) in
    elim (Bool-cases (s.trail_size == 0)) [
      | inl e ↦
          subst
            (λ b. Unwound level s (if b then s else if leb s.num_decisions level then s else next))
            (sym e) (stops_empty level s a (ground arith))
      | inr e ↦
          subst
            (λ b. Unwound level s (if b then s else if leb s.num_decisions level then s else next))
            (sym e)
            (elim (Bool-cases (leb s.num_decisions level)) [
              | inl d ↦
                  subst (λ b. Unwound level s (if b then s else next)) (sym d)
                    (stops_at level s a (ground arith))
              | inr d ↦
                  subst (λ b. Unwound level s (if b then s else next)) (sym d)
                    (unwind_one-Unwound level n s a (ground arith) (ground arith) room
                      (unwind-Unwound n level))
            ])
    ]

-- Backtracking to a decision level below the current one, on a trail whose levels begin one after
-- another, cuts the trail to where the next level began, takes away the value and the reason of every
-- variable whose literal stood on the trail from there on, and of no other, and leaves the clauses and
-- the watch lists alone; the level is then the current one, and the head is at the end of the trail.
pub backtracks :
    (s : Solver) (level : ℕ)
    → Delimited s
    → level < s.num_decisions
    → ((backtrack s level).trail_size ≡ s.trail_delimiters level)
      × ((backtrack s level).num_decisions ≡ level)
      × ((backtrack s level).prop_head ≡ s.trail_delimiters level)
      × Undone s (backtrack s level) (s.trail_delimiters level)
unfolding backtrack
backtracks s level d lt =
    let t = unwind (s.trail_size + s.num_decisions) level s in
    let a : Above level s = record {
      delimited = d;
      begins = d.on_trail level lt;
      where_now = inl lt;
    } in
    let r = unwind-Unwound (s.trail_size + s.num_decisions) level s a (omega arith) in
    let u = r.undone in
    (
      r.size,
      ground (arith, r.levels),
      r.size,
      record {
        undone = u.undone;
        untouched = u.untouched;
        either = u.either;
        same_trail = u.same_trail;
        same_clauses = u.same_clauses;
        same_watches = u.same_watches;
      },
    )
