-- ===== src/JtagHostInterface/Core/Registers.antt =====
-- jtag_host_interface.py: the registers of the sync clock domain.
use cdcl_sat_solver.Base.{ℕ, Bool, false}
use cdcl_sat_solver.ClauseMemory.{Clause}
use cdcl_sat_solver.HostInterface.{no_clause}
use cdcl_sat_solver.JtagHostInterface.Protocol.{Fsm, idle}

-- The latched command data.
pub record Latched : Type 0 where
  pub clause_addr_r : ℕ
  pub clause_r : Clause
  pub wl_lit_r : ℕ
  pub wl_idx_r : ℕ
  pub wl_data_r : ℕ
  pub wl_len_r : ℕ
  pub assign_addr_r : ℕ
  pub assign_data_r : ℕ
  pub bcp_false_lit_r : ℕ

-- The flags of actions that are pending.
pub record Flags : Type 0 where
  pub clause_wr_pending : Bool
  pub wl_wr_pending : Bool
  pub wl_len_pending : Bool
  pub assign_wr_pending : Bool
  pub bcp_start_pending : Bool
  pub ack_impl_pending : Bool
  pub any_cmd_processed : Bool

pub record State : Type 0 where
  pub toggle_sync1 : Bool
  pub toggle_sync2 : Bool
  pub toggle_prev : Bool
  pub cmd_pending : Bool
  pub rx_data_latched : ℕ
  pub latched : Latched
  pub flags : Flags
  pub fsm : Fsm
  pub rsp_var : ℕ
  pub rsp_val : ℕ
  pub rsp_reason_id : ℕ
  pub ack_seq : ℕ
  pub conflict_reg : Bool
  pub conflict_id_reg : ℕ
  pub jtag_shadow : ℕ
  pub in_bcp_wait : Bool
  pub in_impl_ready : Bool
  pub in_done_ready : Bool
  pub last_cmd_byte : ℕ
  pub cmd_hold_counter : ℕ

abbrev pub no_flags : Flags
no_flags = record {
  clause_wr_pending = false;
  wl_wr_pending = false;
  wl_len_pending = false;
  assign_wr_pending = false;
  bcp_start_pending = false;
  ack_impl_pending = false;
  any_cmd_processed = false;
}

abbrev pub reset : State
reset = record {
  toggle_sync1 = false;
  toggle_sync2 = false;
  toggle_prev = false;
  cmd_pending = false;
  rx_data_latched = 0;
  latched = record {
    clause_addr_r = 0;
    clause_r = no_clause.wr_data;
    wl_lit_r = 0;
    wl_idx_r = 0;
    wl_data_r = 0;
    wl_len_r = 0;
    assign_addr_r = 0;
    assign_data_r = 0;
    bcp_false_lit_r = 0;
  };
  flags = no_flags;
  fsm = idle;
  rsp_var = 0;
  rsp_val = 0;
  rsp_reason_id = 0;
  ack_seq = 0;
  conflict_reg = false;
  conflict_id_reg = 0;
  jtag_shadow = 0;
  in_bcp_wait = false;
  in_impl_ready = false;
  in_done_ready = false;
  last_cmd_byte = 0;
  cmd_hold_counter = 0;
}
