-- ===== src/JtagHostInterface/Core.antt =====
-- jtag_host_interface.py, the sync clock domain: the synchroniser, the processing of commands with
-- its flags, and the state machine of a run. Each part takes the registers as they were, and the
-- registers that the parts above it leave: of two assignments to a register the later one counts.
mod Registers
pub use Registers.*
use cdcl_sat_solver.Base.{
  ℕ, ◌+◌, ◌-◌, ◌*◌, ◌^◌, Bool, true, false, not, ◌&&◌, ◌||◌, xor, leb, ◌==◌, if◌then◌else◌,
  low_bits, slice, bit_at, bit,
}
use cdcl_sat_solver.ClauseMemory.{Clause}
use cdcl_sat_solver.HostInterface.{word16, no_clause, no_wl, no_assign}
use cdcl_sat_solver.JtagHostInterface.Protocol.{
  Fsm, idle, bcp_wait, impl_check, impl_ready, done_ready, BcpPorts, Outputs, cmd_write_clause,
  cmd_write_wl_entry, cmd_write_wl_len, cmd_write_assign, cmd_bcp_start, cmd_ack_impl, rsp_idle,
  rsp_busy, rsp_implication, rsp_done_ok, rsp_done_conf,
}

-- `buf[k]`, and `cmd_byte`.
abbrev pub buf : ℕ → ℕ → ℕ
buf rx_data k = slice (112 - k * 8) 8 rx_data

abbrev pub cmd_byte : State → ℕ
cmd_byte s = slice 120 8 s.rx_data_latched

-- `rsp_status`, by the state.
abbrev pub status_in : Fsm → Bool → ℕ
status_in idle conflict = rsp_idle
status_in bcp_wait conflict = rsp_busy
status_in impl_check conflict = rsp_busy
status_in impl_ready conflict = rsp_implication
status_in done_ready conflict = if conflict then rsp_done_conf else rsp_done_ok

-- `jtag_data`, the response word.
unfoldable pub jtag_data : State → ℕ
jtag_data s =
    s.ack_seq
    + s.rsp_reason_id * 2 ^ 80
    + s.rsp_val * 2 ^ 96
    + s.rsp_var * 2 ^ 104
    + status_in s.fsm s.conflict_reg * 2 ^ 120

-- The synchroniser, the shadow of the response, and what is cleared in each cycle.
unfoldable pub synchronise : ℕ → Bool → State → State
unfolding jtag_data xor
synchronise jtag_rx jtag_rx_toggle s =
    let new = xor s.toggle_sync2 s.toggle_prev in
    record s {
      jtag_shadow = jtag_data s;
      toggle_sync1 = jtag_rx_toggle;
      toggle_sync2 = s.toggle_sync1;
      toggle_prev = s.toggle_sync2;
      cmd_pending = if new then true else s.cmd_pending;
      rx_data_latched = if new then jtag_rx else s.rx_data_latched;
      flags = record s.flags { any_cmd_processed = false };
    }

-- `with m.Switch(cmd_byte)`: latch the fields of a command, and raise its flag.
unfoldable pub dispatch : ℕ → ℕ → State → State
dispatch c rx_data t =
    let b = buf rx_data in
    if c == cmd_write_clause
    then record t {
      latched = record t.latched {
        clause_addr_r = low_bits 13 (word16 b 0);
        clause_r = record {
          sat_bit = bit_at 0 (b 3);
          size = low_bits 3 (b 2);
          lit0 = word16 b 4;
          lit1 = word16 b 6;
          lit2 = word16 b 8;
          lit3 = word16 b 10;
          lit4 = word16 b 12;
        };
      };
      flags = record t.flags { clause_wr_pending = true };
    }
    else if c == cmd_write_wl_entry
    then record t {
      latched = record t.latched {
        wl_lit_r = low_bits 10 (word16 b 0);
        wl_idx_r = low_bits 7 (b 2);
        wl_data_r = low_bits 13 (word16 b 3);
      };
      flags = record t.flags { wl_wr_pending = true };
    }
    else if c == cmd_write_wl_len
    then record t {
      latched = record t.latched {
        wl_lit_r = low_bits 10 (word16 b 0);
        wl_len_r = low_bits 7 (b 2);
      };
      flags = record t.flags { wl_len_pending = true };
    }
    else if c == cmd_write_assign
    then record t {
      latched = record t.latched {
        assign_addr_r = low_bits 9 (word16 b 0);
        assign_data_r = low_bits 2 (b 2);
      };
      flags = record t.flags { assign_wr_pending = true };
    }
    else if c == cmd_bcp_start
    then record t {
      latched = record t.latched { bcp_false_lit_r = low_bits 10 (word16 b 0) };
      flags = record t.flags { bcp_start_pending = true };
    }
    else if c == cmd_ack_impl
    then record t { flags = record t.flags { ack_impl_pending = true } }
    else t

-- Commands are 1 to 7; a scan with another byte is not acknowledged.
abbrev pub is_command : ℕ → Bool
is_command c = leb cmd_write_clause c && leb c cmd_ack_impl

unfoldable pub process : State → State → State
unfolding dispatch
process s t =
    let known = is_command (cmd_byte s) in
    let u = record t {
      cmd_pending = false;
      flags = record t.flags {
        any_cmd_processed = if known then true else t.flags.any_cmd_processed;
      };
      ack_seq = if known then slice 0 8 s.rx_data_latched else t.ack_seq;
    } in
    if s.cmd_pending then dispatch (cmd_byte s) s.rx_data_latched u else t

-- A flag of a write is cleared in the cycle in which it is set.
unfoldable pub clear_pulses : State → State → State
clear_pulses s t =
    let old = s.flags in
    let new = t.flags in
    record t {
      flags = record new {
        clause_wr_pending = if old.clause_wr_pending then false else new.clause_wr_pending;
        wl_wr_pending = if old.wl_wr_pending then false else new.wl_wr_pending;
        wl_len_pending = if old.wl_len_pending then false else new.wl_len_pending;
        assign_wr_pending = if old.assign_wr_pending then false else new.assign_wr_pending;
      };
    }

-- `bcp_start` in IDLE and in DONE_READY.
abbrev pub start_run : State → State
start_run t = record t { flags = record t.flags { bcp_start_pending = false }; fsm = bcp_wait }

-- The states, each with the registers it writes.
unfoldable pub fsm_in : Fsm → State → BcpPorts → State → State
fsm_in idle s p t = if s.flags.bcp_start_pending then start_run t else t
fsm_in bcp_wait s p t =
    if p.bcp_done
    then record t {
      in_bcp_wait = true;
      conflict_reg = p.bcp_conflict;
      conflict_id_reg = p.bcp_conflict_id;
      fsm = impl_check;
    }
    else record t { in_bcp_wait = true }
fsm_in impl_check s p t =
    if p.impl_valid
    then record t {
      rsp_var = p.impl.var;
      rsp_val = bit p.impl.value;
      rsp_reason_id = p.impl.reason;
      fsm = impl_ready;
    }
    else record t { rsp_var = 0; rsp_val = 0; rsp_reason_id = s.conflict_id_reg; fsm = done_ready }
fsm_in impl_ready s p t =
    if s.flags.ack_impl_pending
    then record t {
      in_impl_ready = true;
      flags = record t.flags { ack_impl_pending = false };
      fsm = impl_check;
    }
    else if s.flags.any_cmd_processed
    then record t { in_impl_ready = true; fsm = idle }
    else record t { in_impl_ready = true }
fsm_in done_ready s p t =
    if s.flags.bcp_start_pending
    then start_run (record t { in_done_ready = true })
    else if s.flags.any_cmd_processed
    then record t { in_done_ready = true; fsm = idle }
    else record t { in_done_ready = true }

-- The command byte that the LEDs hold.
unfoldable pub hold : State → State → State
hold s t =
    if s.cmd_pending
    then record t { last_cmd_byte = cmd_byte s; cmd_hold_counter = 268435455 }
    else if s.cmd_hold_counter == 0
    then t
    else record t { cmd_hold_counter = s.cmd_hold_counter - 1 }

-- One edge of the clock `sync`.
unfoldable pub step : State → ℕ → Bool → BcpPorts → State
unfolding synchronise process clear_pulses fsm_in hold
step s jtag_rx jtag_rx_toggle p =
    hold s (fsm_in s.fsm s p (clear_pulses s (process s (synchronise jtag_rx jtag_rx_toggle s))))

-- The LEDs, where the platform has them.
unfoldable pub led : State → ℕ → Bool
led s k = bit_at k s.last_cmd_byte && not (s.cmd_hold_counter == 0)

-- Whether a state starts the run that is pending.
abbrev pub starts : Fsm → Bool
starts idle = true
starts done_ready = true
starts _ = false

abbrev pub is_impl_ready : Fsm → Bool
is_impl_ready impl_ready = true
is_impl_ready _ = false

-- The ports towards the accelerator.
unfoldable pub outputs : State → Outputs
outputs s =
    let f = s.flags in
    let l = s.latched in
    let start = starts s.fsm && f.bcp_start_pending in
    record {
      bcp_start = start;
      bcp_false_lit = if start then l.bcp_false_lit_r else 0;
      impl_ready = is_impl_ready s.fsm && f.ack_impl_pending;
      clause_wr =
          if f.clause_wr_pending
          then record no_clause { wr_addr = l.clause_addr_r; wr_data = l.clause_r; wr_en = true }
          else no_clause;
      wl_wr = record no_wl {
        wr_lit = if f.wl_wr_pending || f.wl_len_pending then l.wl_lit_r else 0;
        wr_idx = if f.wl_wr_pending then l.wl_idx_r else 0;
        wr_data = if f.wl_wr_pending then l.wl_data_r else 0;
        wr_en = f.wl_wr_pending;
        wr_len = if f.wl_len_pending then l.wl_len_r else 0;
        wr_len_en = f.wl_len_pending;
      };
      assign_wr =
          if f.assign_wr_pending
          then record no_assign {
            wr_addr = l.assign_addr_r;
            wr_data = l.assign_data_r;
            wr_en = true;
          }
          else no_assign;
    }
