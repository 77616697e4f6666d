-- ===== src/ClauseEvaluator/Semantics.antt =====
-- What the answers of clause_evaluator.py mean: a clause is a disjunction of literals, and the
-- assignment memory a partial valuation.
use cdcl_sat_solver.Base.{
  ℕ, ◌/◌, ◌≤◌, ◌≡◌, ◌≢◌, refl, sym, ◌∙◌, Bool, true, false, not, ◌||◌, ◌==◌, if◌then◌else◌, List,
  [], ◌∷◌, bit_at, Bool-cases, inl, inr, arith,
}
use cdcl_sat_solver.AssignmentMemory.{is_false, is_true, unassigned}
use cdcl_sat_solver.ClauseEvaluator.{
  Inputs, State, Outputs, Status, satisfied, unit, conflict, unresolved, lit_true, outputs,
}
use cdcl_sat_solver.ClauseEvaluator.Verdict.{
  Assignment, any_true, unassigned_lits, verdict, verdict_open,
}
use cdcl_sat_solver.ClauseEvaluator.Run.{run, literals}
use cdcl_sat_solver.ClauseEvaluator.Answer.{Presented, answer_lem}

abbrev pub Valuation : Type 0
Valuation = ℕ → Bool

-- Literal 2x says that variable x is true, and literal 2x + 1 that it is false.
abbrev pub holds : Valuation → ℕ → Bool
holds v l = if bit_at 0 l then not (v (l / 2)) else v (l / 2)

abbrev pub clause_holds : Valuation → List ℕ → Bool
clause_holds v [] = false
clause_holds v (l ∷ ls) = holds v l || clause_holds v ls

-- The memory holds one of its three values for each variable.
abbrev pub IsAssignment : Assignment → Type 0
IsAssignment a = (x : ℕ) → a x ≤ 2

-- The valuation agrees with every value that the memory holds.
abbrev pub Extends : Valuation → Assignment → Type 0
Extends v a = (x : ℕ) → ((a x ≡ is_false → v x ≡ false) × (a x ≡ is_true → v x ≡ true))

holds_of_lit_true :
    (a : Assignment) (v : Valuation) (l : ℕ)
    → Extends v a
    → lit_true l (a (l / 2)) ≡ true
    → holds v l ≡ true
unfolding lit_true
holds_of_lit_true a v l e h = ground (arith, e (l / 2))

not_holds :
    (a : Assignment) (v : Valuation) (l : ℕ)
    → IsAssignment a
    → Extends v a
    → lit_true l (a (l / 2)) ≡ false
    → a (l / 2) ≢ unassigned
    → holds v l ≡ false
unfolding lit_true
not_holds a v l i e h u = ground (arith, e (l / 2), i (l / 2))

clause_holds_of_any_true :
    (a : Assignment) (v : Valuation) (ls : List ℕ)
    → Extends v a
    → any_true a ls ≡ true
    → clause_holds v ls ≡ true
clause_holds_of_any_true a v [] e h = h
clause_holds_of_any_true a v (l ∷ ls) e h = elim (Bool-cases (lit_true l (a (l / 2)))) [
  | inl y ↦ rw (holds_of_lit_true a v l e y)
  | inr n ↦ ground (arith, clause_holds_of_any_true a v ls e (ground arith))
]

-- What an open clause comes down to: its literals without a value.
clause_holds-unassigned_lits :
    (a : Assignment) (v : Valuation) (ls : List ℕ)
    → IsAssignment a
    → Extends v a
    → any_true a ls ≡ false
    → clause_holds v ls ≡ clause_holds v (unassigned_lits a ls)
clause_holds-unassigned_lits a v [] i e h = refl
clause_holds-unassigned_lits a v (l ∷ ls) i e h =
    ground (arith, clause_holds-unassigned_lits a v ls i e, not_holds a v l i e)

-- The valuation that agrees with the memory, and makes one literal true.
with_literal : Assignment → ℕ → Valuation
with_literal a l x = if x == l / 2 then not (bit_at 0 l) else a x == is_true

with_literal-Extends :
    (a : Assignment) (l : ℕ) → a (l / 2) ≡ unassigned → Extends (with_literal a l) a
unfolding with_literal
with_literal-Extends a l u x = (ground arith, ground arith)

with_literal-holds : (a : Assignment) (l : ℕ) → holds (with_literal a l) l ≡ true
unfolding with_literal
with_literal-holds a l = ground arith

-- The literals of an unassigned list have no value.
head_unassigned :
    (a : Assignment) (ls us : List ℕ) (u : ℕ)
    → unassigned_lits a ls ≡ u ∷ us
    → a (u / 2) ≡ unassigned
head_unassigned a [] us u e = cc
head_unassigned a (l ∷ ls) us u e = elim (Bool-cases (a (l / 2) == unassigned)) [
  | inl y ↦ ground arith
  | inr n ↦ head_unassigned a ls us u (ground arith)
]

extending : Assignment → Valuation
extending a x = a x == is_true

extending-Extends : (a : Assignment) → Extends (extending a) a
unfolding extending
extending-Extends a x = (ground arith, ground arith)

-- A status other than CONFLICT leaves a valuation under which the clause holds.
satisfiable :
    (a : Assignment) (ls : List ℕ) (cid : ℕ)
    → IsAssignment a
    → (verdict a cid ls).result_status ≢ conflict
    → (v : Valuation) × Extends v a × (clause_holds v ls ≡ true)
satisfiable a ls cid i ne = elim (Bool-cases (any_true a ls)) [
  | inl y ↦ (
    extending a,
    extending-Extends a,
    clause_holds_of_any_true a (extending a) ls (extending-Extends a) y,
  )
  | inr n ↦ open_case (unassigned_lits a ls) refl n
]
  where
    open_case :
        (us : List ℕ)
        → unassigned_lits a ls ≡ us
        → any_true a ls ≡ false
        → (v : Valuation) × Extends v a × (clause_holds v ls ≡ true)
    open_case [] e n = absurd (ne (rw (n, e)))
    open_case (u ∷ us) e n =
        let ext = with_literal-Extends a u (head_unassigned a ls us u e) in
        (
          with_literal a u,
          ext,
          clause_holds-unassigned_lits a (with_literal a u) ls i ext n
              ∙ rw (e, with_literal-holds a u),
        )

-- An answer is right about a valuation of the clause's literals.
abbrev pub IsRight : Assignment → Valuation → List ℕ → Outputs → Status → Type 0
IsRight a v ls o satisfied = clause_holds v ls ≡ true
IsRight a v ls o conflict = clause_holds v ls ≡ false
IsRight a v ls o unit =
    (a o.result_implied_var ≡ unassigned)
    × (clause_holds v ls
        ≡ (if o.result_implied_val then v o.result_implied_var else not (v o.result_implied_var)))
IsRight a v ls o unresolved = Unit

verdict_open-IsRight :
    (a : Assignment) (ls : List ℕ) (cid : ℕ) (us : List ℕ) (v : Valuation)
    → unassigned_lits a ls ≡ us
    → clause_holds v ls ≡ clause_holds v us
    → IsRight a v ls (verdict_open cid us) (verdict_open cid us).result_status
verdict_open-IsRight a ls cid [] v e h = h
verdict_open-IsRight a ls cid (u ∷ []) v e h = (head_unassigned a ls [] u e, h ∙ ground arith)
verdict_open-IsRight a ls cid (u ∷ w ∷ us) v e h = tt

verdict-IsRight :
    (a : Assignment) (ls : List ℕ) (cid : ℕ) (v : Valuation)
    → IsAssignment a
    → Extends v a
    → IsRight a v ls (verdict a cid ls) (verdict a cid ls).result_status
verdict-IsRight a ls cid v i x = elim (Bool-cases (any_true a ls)) [
  | inl y ↦ rw y (clause_holds_of_any_true a v ls x y)
  | inr n ↦ rw n (
      verdict_open-IsRight a ls cid (unassigned_lits a ls) v refl
        (clause_holds-unassigned_lits a v ls i x n))
]

-- A clause of one to five literals of variables that exist, with its sat bit clear, is shown to an
-- evaluator in IDLE, over an assignment memory that holds no value but 0, 1 and 2. The answer to it is
-- right for every valuation that agrees with the memory: a SATISFIED clause holds, a CONFLICT clause
-- does not, and a UNIT clause holds just if its implied variable, which has no value in the memory,
-- takes the implied value.
pub answer_sound :
    (a : Assignment) (s : State) (i : Inputs) (is : List Inputs) (v : Valuation)
    → Presented s i is
    → IsAssignment a
    → Extends v a
    → let o = outputs (run a s (i ∷ is)) in IsRight a v (literals i.clause) o o.result_status
answer_sound a s i is v p ok x =
    rw (answer_lem a s i is p) (verdict-IsRight a (literals i.clause) i.clause_id_in v ok x)

Status-discrete : Discrete Status
Status-discrete = hlevel

verdict_conflict :
    (a : Assignment) (ls : List ℕ) (cid : ℕ)
    → IsAssignment a
    → ((v : Valuation) → Extends v a → clause_holds v ls ≡ false)
    → (verdict a cid ls).result_status ≡ conflict
verdict_conflict a ls cid i h = elim (Status-discrete (verdict a cid ls).result_status conflict) [
  | yes e ↦ e
  | no n ↦
      let (v, x, t) = satisfiable a ls cid i n in let bad : false ≡ true = sym (h v x) ∙ t in cc
]

-- A clause of one to five literals of variables that exist, with its sat bit clear, is shown to an
-- evaluator in IDLE, over an assignment memory that holds no value but 0, 1 and 2. If it holds under no
-- valuation that agrees with the memory, it is answered CONFLICT: the evaluator misses none.
pub conflict_complete :
    (a : Assignment) (s : State) (i : Inputs) (is : List Inputs)
    → Presented s i is
    → IsAssignment a
    → ((v : Valuation) → Extends v a → clause_holds v (literals i.clause) ≡ false)
    → (outputs (run a s (i ∷ is))).result_status ≡ conflict
conflict_complete a s i is p ok h =
    rw (answer_lem a s i is p) (verdict_conflict a (literals i.clause) i.clause_id_in ok h)
