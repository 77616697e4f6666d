-- ===== src/ClausePrefetcher.antt =====
-- src/hardware/modules/clause_prefetcher.py: issues the read of a clause and carries its number
-- along for the two cycles that the clause database takes.
pub mod Fetch
use cdcl_sat_solver.Base.{ℕ, Bool, false}
use cdcl_sat_solver.ClauseMemory.{Clause}

-- `clause` is what the memory ports `clause_rd_*` carry.
pub record Inputs : Type 0 where
  pub clause_id_in : ℕ
  pub clause_id_valid : Bool
  pub clause : Clause

pub record Outputs : Type 0 where
  pub clause_id_out : ℕ
  pub meta_valid : Bool
  pub clause : Clause
  pub clause_rd_addr : ℕ
  pub clause_rd_en : Bool

pub record State : Type 0 where
  pub stage1_cid : ℕ
  pub stage1_valid : Bool
  pub stage2_cid : ℕ
  pub stage2_valid : Bool

abbrev pub reset : State
reset = record { stage1_cid = 0; stage1_valid = false; stage2_cid = 0; stage2_valid = false }

unfoldable pub outputs : State → Inputs → Outputs
outputs s i = record {
  clause_id_out = s.stage2_cid;
  meta_valid = s.stage2_valid;
  clause = i.clause;
  clause_rd_addr = i.clause_id_in;
  clause_rd_en = i.clause_id_valid;
}

-- One clock edge.
unfoldable pub step : State → Inputs → State
step s i = record {
  stage1_cid = i.clause_id_in;
  stage1_valid = i.clause_id_valid;
  stage2_cid = s.stage1_cid;
  stage2_valid = s.stage1_valid;
}
