-- ===== src/JtagHostInterface/Protocol.antt =====
-- jtag_host_interface.py: the bytes of the protocol, and the ports towards the accelerator.
use cdcl_sat_solver.Base.{ℕ, Bool, false}
use cdcl_sat_solver.ClauseMemory
use cdcl_sat_solver.WatchListMemory
use cdcl_sat_solver.AssignmentMemory
use cdcl_sat_solver.ImplicationFifo.{Entry}
use cdcl_sat_solver.HostInterface.{no_clause, no_wl, no_assign}

-- The command bytes.
abbrev pub cmd_write_clause : ℕ
cmd_write_clause = 0x01

abbrev pub cmd_write_wl_entry : ℕ
cmd_write_wl_entry = 0x02

abbrev pub cmd_write_wl_len : ℕ
cmd_write_wl_len = 0x03

abbrev pub cmd_write_assign : ℕ
cmd_write_assign = 0x04

abbrev pub cmd_bcp_start : ℕ
cmd_bcp_start = 0x05

abbrev pub cmd_reset_state : ℕ
cmd_reset_state = 0x06

abbrev pub cmd_ack_impl : ℕ
cmd_ack_impl = 0x07

-- The status bytes of the response.
abbrev pub rsp_idle : ℕ
rsp_idle = 0x00

abbrev pub rsp_busy : ℕ
rsp_busy = 0x01

abbrev pub rsp_implication : ℕ
rsp_implication = 0xb0

abbrev pub rsp_done_ok : ℕ
rsp_done_ok = 0xc0

abbrev pub rsp_done_conf : ℕ
rsp_done_conf = 0xc1

-- The states IDLE, BCP_WAIT, IMPL_CHECK, IMPL_READY and DONE_READY.
pub data Fsm : Type 0 where
  idle bcp_wait impl_check impl_ready done_ready : Fsm

-- What the accelerator shows.
pub record BcpPorts : Type 0 where
  pub bcp_done : Bool
  pub bcp_conflict : Bool
  pub bcp_conflict_id : ℕ
  pub impl_valid : Bool
  pub impl : Entry

-- What the accelerator is given. Of the records of memory ports only the write side is driven.
pub record Outputs : Type 0 where
  pub bcp_start : Bool
  pub bcp_false_lit : ℕ
  pub impl_ready : Bool
  pub clause_wr : ClauseMemory.Inputs
  pub wl_wr : WatchListMemory.Inputs
  pub assign_wr : AssignmentMemory.Inputs

abbrev pub quiet : Outputs
quiet = record {
  bcp_start = false;
  bcp_false_lit = 0;
  impl_ready = false;
  clause_wr = no_clause;
  wl_wr = no_wl;
  assign_wr = no_assign;
}
