-- ===== src/ImplicationFifo/Inv.antt =====
-- implication_fifo.py: where the pointers of the circular buffer stand.
use cdcl_sat_solver.Base.{ℕ, ◌+◌, ◌≤◌, ◌<◌, ◌≡◌, ◌⊎◌, List, [], ◌∷◌, arith}
use cdcl_sat_solver.ImplicationFifo.{Inputs, State, reset, step}

module _ (depth : ℕ) where
  -- The pointers stay inside the buffer, and the write pointer is `count` places past the read
  -- pointer, going round at the depth.
  pub record IsValid (s : State) : Type 0 where
    pub some_room : 0 < depth
    pub rd_in : s.rd_ptr < depth
    pub wr_in : s.wr_ptr < depth
    pub count_in : s.count ≤ depth
    pub apart : (s.wr_ptr ≡ s.rd_ptr + s.count) ⊎ (s.wr_ptr + depth ≡ s.rd_ptr + s.count)

  pub reset-IsValid : 0 < depth → IsValid reset
  reset-IsValid h = ground arith

  -- Every clock edge keeps the invariant, whatever is pushed and popped.
  pub step-IsValid : {s : State} (i : Inputs) → IsValid s → IsValid (step depth s i)
  unfolding step
  step-IsValid i v = ground arith

  unfoldable pub run : State → List Inputs → State
  run s [] = s
  run s (i ∷ is) = run (step depth s i) is

  pub run-IsValid : (s : State) (is : List Inputs) → IsValid s → IsValid (run s is)
  unfolding run
  run-IsValid s [] v = v
  run-IsValid s (i ∷ is) v = run-IsValid (step depth s i) is (step-IsValid i v)
