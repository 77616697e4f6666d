-- ===== src/ClauseEvaluator/Run.antt =====
-- clause_evaluator.py from the cycle that latches a clause to the one that shows its status.
use cdcl_sat_solver.Base.{
  ℕ, zero, suc, ◌+◌, ◌≤◌, ◌<◌, ◌≡◌, sym, ap, ap₂, subst, ◌||◌, List, [], ◌∷◌, length, replicate,
  arith,
}
use cdcl_sat_solver.ClauseMemory.{Clause}
use cdcl_sat_solver.ClauseEvaluator.{
  Inputs, State, Outputs, eval, output, array, current_lit, assign_rd_addr, step, outputs, quiet,
}
use cdcl_sat_solver.ClauseEvaluator.Verdict.{Assignment, any_true, unassigned_lits}

-- A clock edge with the assignment memory behind the read port.
unfoldable pub tick : Assignment → State → Inputs → State
tick a s i = step s (record i { assign_rd_data = a (assign_rd_addr s) })

unfoldable pub run : Assignment → State → List Inputs → State
run a s [] = s
run a s (i ∷ is) = run a (tick a s i) is

-- What the output ports show before each edge.
unfoldable pub trace : Assignment → State → List Inputs → List Outputs
trace a s [] = []
trace a s (i ∷ is) = outputs s ∷ trace a (tick a s i) is

-- `n` entries of a register array, from one index on.
abbrev pub lits_from : (ℕ → ℕ) → ℕ → ℕ → List ℕ
lits_from f k zero = []
lits_from f k (suc n) = f k ∷ lits_from f (k + 1) n

-- The literals of a clause that count.
abbrev pub literals : Clause → List ℕ
literals c = lits_from (array c) 0 c.size

abbrev pub Below : ℕ → List ℕ → Type 0
Below b [] = Unit
Below b (l ∷ ls) = (l < b) × Below b ls

abbrev pub last_or : ℕ → List ℕ → ℕ
last_or d [] = d
last_or d (l ∷ ls) = last_or l ls

-- What the state EVAL has done to its registers when it has gone through some literals.
pub record Evaluated (a : Assignment) (s : State) (ls : List ℕ) (t : State) : Type 0 where
  pub satisfied_acc : t.is_satisfied ≡ any_true a ls || s.is_satisfied
  pub count_acc : t.unassigned_count ≡ s.unassigned_count + length (unassigned_lits a ls)
  pub last_acc : t.last_unassigned_lit ≡ last_or s.last_unassigned_lit (unassigned_lits a ls)
  pub id_kept : t.clause_id_reg ≡ s.clause_id_reg

module _ (a : Assignment) (s : State) (i : Inputs) (in_eval : s.fsm ≡ eval)
    (small : current_lit s < 1024) (room : s.unassigned_count < 7) where
  tick-Evaluated : Evaluated a s (current_lit s ∷ []) (tick a s i)
  unfolding tick step assign_rd_addr
  tick-Evaluated = ground arith

  tick_last : s.lit_idx + 1 ≡ s.size_reg → (tick a s i).fsm ≡ output
  unfolding tick step
  tick_last h = ground arith

  tick_more :
      s.lit_idx + 1 < s.size_reg
      → s.size_reg ≤ 7
      → ((tick a s i).fsm ≡ eval)
        × ((tick a s i).lit_idx ≡ s.lit_idx + 1)
        × ((tick a s i).size_reg ≡ s.size_reg)
        × ((tick a s i).lit_regs ≡ s.lit_regs)
  unfolding tick step
  tick_more h b = ground arith

outputs-eval : (s : State) → s.fsm ≡ eval → outputs s ≡ quiet
unfolding outputs
outputs-eval s h = ground arith

Evaluated-cons :
    (a : Assignment) (s t u : State) (l : ℕ) (ls : List ℕ)
    → Evaluated a s (l ∷ []) t
    → Evaluated a t ls u
    → Evaluated a s (l ∷ ls) u
Evaluated-cons a s t u l ls p q = ground arith

-- EVAL goes through the literals that are left, one for each cycle, and ends in OUTPUT.
pub run-Evaluated :
    (a : Assignment) (s : State) (i : Inputs) (is : List Inputs)
    → s.fsm ≡ eval
    → s.lit_idx + length (i ∷ is) ≡ s.size_reg
    → s.size_reg ≤ 7
    → s.unassigned_count ≤ s.lit_idx
    → Below 1024 (lits_from s.lit_regs s.lit_idx (length (i ∷ is)))
    → Evaluated a s (lits_from s.lit_regs s.lit_idx (length (i ∷ is))) (run a s (i ∷ is))
      × ((run a s (i ∷ is)).fsm ≡ output)
      × (trace a s (i ∷ is) ≡ replicate (length (i ∷ is)) quiet)
unfolding run trace
run-Evaluated a s i [] fe e b c w = (
  tick-Evaluated a s i fe w.0 (omega arith),
  tick_last a s i fe w.0 (omega arith) (omega arith),
  ap (λ o. o ∷ []) (outputs-eval s fe),
)
run-Evaluated a s i (j ∷ js) fe e b c w =
    let (fe', idx', size', regs') = tick_more a s i fe w.0 (omega arith) (omega arith) b in
    let one = tick-Evaluated a s i fe w.0 (omega arith) in
    let n : ℕ = length (j ∷ js) in
    let same : lits_from (tick a s i).lit_regs (tick a s i).lit_idx n
        ≡ lits_from s.lit_regs (s.lit_idx + 1) n =
      ap₂ (λ f k. lits_from f k n) regs' idx' in
    let counted : (tick a s i).unassigned_count ≤ (tick a s i).lit_idx =
      ground (arith, one.count_acc) in
    let later =
      run-Evaluated a (tick a s i) j js fe' (omega arith) (omega arith) counted
        (subst (Below 1024) (sym same) w.1) in
    (
      Evaluated-cons a s (tick a s i) (run a (tick a s i) (j ∷ js)) (current_lit s)
          (lits_from s.lit_regs (s.lit_idx + 1) n) one
          (subst (λ ls. Evaluated a (tick a s i) ls (run a (tick a s i) (j ∷ js))) same later.0),
      later.1,
      ap₂ ◌∷◌ (outputs-eval s fe) later.2,
    )
