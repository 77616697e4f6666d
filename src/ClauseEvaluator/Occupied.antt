-- ===== src/ClauseEvaluator/Occupied.antt =====
-- clause_evaluator.py: when the evaluator can take a clause, and when it shows an answer.
use cdcl_sat_solver.Base.{◌≡◌, Bool, true, false, if◌then◌else◌, arith}
use cdcl_sat_solver.ClauseEvaluator.{Fsm, idle, eval, output, Inputs, State, step, outputs}

abbrev pub is_output : Fsm → Bool
is_output output = true
is_output _ = false

-- A clause that arrives in EVAL or OUTPUT is not latched.
abbrev pub occupied : Fsm → Bool
occupied idle = false
occupied eval = true
occupied output = true

pub occupied-step :
    (s : State) (i : Inputs)
    → occupied (step s i).fsm
      ≡ (if occupied s.fsm then (if is_output s.fsm then false else true) else i.meta_valid)
unfolding step
occupied-step s i = ground arith

pub result_valid_lem : (s : State) → (outputs s).result_valid ≡ is_output s.fsm
unfolding outputs
result_valid_lem s = ground arith

-- Nothing that a busy evaluator latched earlier changes when a clause arrives: but for the read
-- data, its inputs are ignored.
pub step-occupied :
    (s : State) (i j : Inputs)
    → occupied s.fsm ≡ true
    → i.assign_rd_data ≡ j.assign_rd_data
    → step s i ≡ step s j
unfolding step
step-occupied s i j h e = ground arith
