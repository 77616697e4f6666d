-- ===== src/AssignmentMemory.antt =====
-- src/hardware/memory/assignment_memory.py: two bits for each variable, read combinationally.
use cdcl_sat_solver.Base.{ℕ, Bool, low_bits}
use cdcl_sat_solver.Memory.{Cells, read, write}

abbrev pub unassigned : ℕ
unassigned = 0

-- FALSE and TRUE of the source.
abbrev pub is_false : ℕ
is_false = 1

abbrev pub is_true : ℕ
is_true = 2

abbrev pub max_vars : ℕ
max_vars = 512

pub record Inputs : Type 0 where
  pub rd_addr : ℕ
  pub wr_addr : ℕ
  pub wr_data : ℕ
  pub wr_en : Bool

-- The memory is the only state.
unfoldable pub rd_data : Cells → ℕ → ℕ
rd_data cells addr = read max_vars cells addr

unfoldable pub step : Cells → Inputs → Cells
step cells i = write max_vars cells i.wr_en i.wr_addr (low_bits 2 i.wr_data)
