-- ===== src/HostInterface/Ports.antt =====
-- host_interface.py: the bytes of the protocol, the states and the ports.
use cdcl_sat_solver.Base.{ℕ, Bool, false}
use cdcl_sat_solver.ClauseMemory
use cdcl_sat_solver.WatchListMemory
use cdcl_sat_solver.AssignmentMemory
use cdcl_sat_solver.ImplicationFifo.{Entry}

-- The command bytes.
abbrev pub cmd_write_clause : ℕ
cmd_write_clause = 0x01

abbrev pub cmd_write_wl_entry : ℕ
cmd_write_wl_entry = 0x02

abbrev pub cmd_write_wl_len : ℕ
cmd_write_wl_len = 0x03

abbrev pub cmd_write_assign : ℕ
cmd_write_assign = 0x04

abbrev pub cmd_bcp_start : ℕ
cmd_bcp_start = 0x05

-- The response bytes.
abbrev pub rsp_implication : ℕ
rsp_implication = 0xb0

abbrev pub rsp_done_ok : ℕ
rsp_done_ok = 0xc0

abbrev pub rsp_done_conf : ℕ
rsp_done_conf = 0xc1

-- The states CMD_WAIT, PAYLOAD_RECV, CMD_EXEC, BCP_WAIT, IMPL_CHECK, IMPL_SEND and DONE_SEND.
pub data Fsm : Type 0 where
  cmd_wait payload_recv cmd_exec bcp_wait impl_check impl_send done_send : Fsm

pub record Inputs : Type 0 where
  pub rx_data : ℕ
  pub rx_valid : Bool
  pub tx_ready : Bool
  pub bcp_done : Bool
  pub bcp_conflict : Bool
  pub bcp_conflict_id : ℕ
  pub impl_valid : Bool
  pub impl : Entry

-- Of the three records of memory ports only the write side is driven.
pub record Outputs : Type 0 where
  pub tx_data : ℕ
  pub tx_valid : Bool
  pub bcp_start : Bool
  pub bcp_false_lit : ℕ
  pub impl_ready : Bool
  pub clause_wr : ClauseMemory.Inputs
  pub wl_wr : WatchListMemory.Inputs
  pub assign_wr : AssignmentMemory.Inputs

-- Ports that a state does not drive are 0.
abbrev pub no_clause : ClauseMemory.Inputs
no_clause = record {
  rd_addr = 0;
  rd_en = false;
  wr_addr = 0;
  wr_data = record { sat_bit = false; size = 0; lit0 = 0; lit1 = 0; lit2 = 0; lit3 = 0; lit4 = 0 };
  wr_en = false;
}

abbrev pub no_wl : WatchListMemory.Inputs
no_wl = record {
  rd_lit = 0;
  rd_idx = 0;
  rd_en = false;
  wr_lit = 0;
  wr_idx = 0;
  wr_data = 0;
  wr_len = 0;
  wr_en = false;
  wr_len_en = false;
}

abbrev pub no_assign : AssignmentMemory.Inputs
no_assign = record { rd_addr = 0; wr_addr = 0; wr_data = 0; wr_en = false }

abbrev pub quiet : Outputs
quiet = record {
  tx_data = 0;
  tx_valid = false;
  bcp_start = false;
  bcp_false_lit = 0;
  impl_ready = false;
  clause_wr = no_clause;
  wl_wr = no_wl;
  assign_wr = no_assign;
}
