-- ===== src/BcpAccelerator/Run.antt =====
-- bcp_accelerator.py over many cycles, and the counts of what went through the pipeline.
use cdcl_sat_solver.Base.{ℕ, ◌+◌, ◌≡◌, Bool, ◌&&◌, List, [], ◌∷◌, bit}
use cdcl_sat_solver.ClauseEvaluator.Occupied.{occupied}
use cdcl_sat_solver.BcpAccelerator.{
  Inputs, State, active, step, mgr_outputs, pre_outputs, eval_outputs,
}

unfoldable pub run : State → List Inputs → State
run s [] = s
run s (i ∷ is) = run (step s i) is

-- The cycles of a run in which something happens: `f` says of each whether it does.
unfoldable pub count : (State → Inputs → Bool) → State → List Inputs → ℕ
count f s [] = 0
count f s (i ∷ is) = bit (f s i) + count f (step s i) is

-- A clause number leaves the watch list manager.
abbrev pub issues : State → Inputs → Bool
issues s i = (mgr_outputs s i).clause_id_valid

-- The evaluator shows an answer.
abbrev pub answers : State → Inputs → Bool
answers s i = (eval_outputs s).result_valid

-- A clause reaches the evaluator while it is busy, and is not latched.
abbrev pub drops : State → Inputs → Bool
drops s i = (pre_outputs s i).meta_valid && occupied s.evaluator.fsm

-- The state machine is in ACTIVE at each cycle of the run.
abbrev pub AllActive : State → List Inputs → Type 0
AllActive s [] = Unit
AllActive s (i ∷ is) = (s.fsm ≡ active) × AllActive (step s i) is
