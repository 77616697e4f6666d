-- ===== src/ClauseEvaluator/Hang.antt =====
-- clause_evaluator.py on a clause of no literals: the test for the last one never passes.
use cdcl_sat_solver.Base.{◌≡◌, true, false, List, [], ◌∷◌, arith}
use cdcl_sat_solver.ClauseEvaluator.{Inputs, State, idle, eval, step, outputs, quiet}
use cdcl_sat_solver.ClauseEvaluator.Verdict.{Assignment}
use cdcl_sat_solver.ClauseEvaluator.Run.{tick, run}

-- The evaluator goes on evaluating a clause of size 0.
record IsStuck (s : State) : Type 0 where
  in_eval : s.fsm ≡ eval
  no_literals : s.size_reg ≡ 0

tick-IsStuck : (a : Assignment) (s : State) (i : Inputs) → IsStuck s → IsStuck (tick a s i)
unfolding tick step
tick-IsStuck a s i h = ground arith

run-IsStuck : (a : Assignment) (s : State) (is : List Inputs) → IsStuck s → IsStuck (run a s is)
unfolding run
run-IsStuck a s [] h = h
run-IsStuck a s (i ∷ is) h = run-IsStuck a (tick a s i) is (tick-IsStuck a s i h)

latch-IsStuck :
    (a : Assignment) (s : State) (i : Inputs)
    → s.fsm ≡ idle
    → i.meta_valid ≡ true
    → i.clause.sat_bit ≡ false
    → i.clause.size ≡ 0
    → IsStuck (tick a s i)
unfolding tick step
latch-IsStuck a s i fi mv sb z = ground arith

quiet_of_IsStuck : (s : State) → IsStuck s → (outputs s ≡ quiet) × (s.fsm ≡ eval)
unfolding outputs
quiet_of_IsStuck s h = ground arith

-- An evaluator that latches a clause of size 0 with its sat bit clear never answers it, and never
-- returns to IDLE, however long it runs and whatever its inputs are.
pub empty_clause_hangs :
    (a : Assignment) (s : State) (i : Inputs) (is : List Inputs)
    → s.fsm ≡ idle
    → i.meta_valid ≡ true
    → i.clause.sat_bit ≡ false
    → i.clause.size ≡ 0
    → (outputs (run a s (i ∷ is)) ≡ quiet) × ((run a s (i ∷ is)).fsm ≡ eval)
unfolding run
empty_clause_hangs a s i is fi mv sb z =
    quiet_of_IsStuck (run a (tick a s i) is)
      (run-IsStuck a (tick a s i) is (latch-IsStuck a s i fi mv sb z))
