-- ===== src/HostInterface.antt =====
-- src/hardware/communication/host_interface.py: decodes the byte stream of commands, drives the
-- write ports and the start of the accelerator, and serialises what it reports.
mod Ports
pub mod Receive
pub mod Commands
pub mod Send
pub mod Packets
pub mod Report
pub mod Split
pub mod Stored
pub mod Located
pub mod Session
pub mod Started
pub use Ports.*
use cdcl_sat_solver.Base.{
  ℕ, ◌+◌, ◌-◌, ◌*◌, ◌/◌, ◌%◌, ◌^◌, Bool, true, false, leb, ◌==◌, if◌then◌else◌, low_bits, slice,
  bit_at, bit, min,
}
use cdcl_sat_solver.ClauseMemory
use cdcl_sat_solver.ClauseMemory.{Clause}
use cdcl_sat_solver.WatchListMemory
use cdcl_sat_solver.AssignmentMemory
use cdcl_sat_solver.ImplicationFifo.{Entry}

-- The registers of `elaborate`. `buf` is its `Array` of 14 bytes, as a function of the index.
pub record State : Type 0 where
  pub fsm : Fsm
  pub buf : ℕ → ℕ
  pub cmd : ℕ
  pub payload_len : ℕ
  pub buf_idx : ℕ
  pub tx_shift : ℕ
  pub tx_count : ℕ
  pub conflict_reg : Bool
  pub conflict_id_reg : ℕ

abbrev pub reset : State
reset = record {
  fsm = cmd_wait;
  buf = λ _. 0;
  cmd = 0;
  payload_len = 0;
  buf_idx = 0;
  tx_shift = 0;
  tx_count = 0;
  conflict_reg = false;
  conflict_id_reg = 0;
}

-- `buf[k].eq(v)`; an `Array` writes its last element past its end.
unfoldable pub put : (ℕ → ℕ) → ℕ → ℕ → ℕ → ℕ
put buf k v j = if j == min k 13 then v else buf j

-- `payload_len` by the command byte; the commands with a payload are told by it.
unfoldable pub payload_of : ℕ → ℕ
payload_of c =
    if c == cmd_write_clause
    then 14
    else if c == cmd_write_wl_entry
    then 5
    else if c == cmd_write_wl_len
    then 3
    else if c == cmd_write_assign
    then 3
    else if c == cmd_bcp_start
    then 2
    else 0

-- `Cat(buf[k + 1], buf[k])`: a field of two bytes, the high one first.
abbrev pub word16 : (ℕ → ℕ) → ℕ → ℕ
word16 buf k = buf (k + 1) + buf k * 256

-- CMD_EXEC: the ports that the latched command drives.
unfoldable pub exec_outputs : State → Outputs
exec_outputs s =
    let b = s.buf in
    if s.cmd == cmd_write_clause
    then record quiet {
      clause_wr = record no_clause {
        wr_addr = low_bits 13 (word16 b 0);
        wr_data = record {
          sat_bit = bit_at 0 (b 3);
          size = low_bits 3 (b 2);
          lit0 = word16 b 4;
          lit1 = word16 b 6;
          lit2 = word16 b 8;
          lit3 = word16 b 10;
          lit4 = word16 b 12;
        };
        wr_en = true;
      };
    }
    else if s.cmd == cmd_write_wl_entry
    then record quiet {
      wl_wr = record no_wl {
        wr_lit = low_bits 10 (word16 b 0);
        wr_idx = low_bits 7 (b 2);
        wr_data = low_bits 13 (word16 b 3);
        wr_en = true;
      };
    }
    else if s.cmd == cmd_write_wl_len
    then record quiet {
      wl_wr = record no_wl {
        wr_lit = low_bits 10 (word16 b 0);
        wr_len = low_bits 7 (b 2);
        wr_len_en = true;
      };
    }
    else if s.cmd == cmd_write_assign
    then record quiet {
      assign_wr = record no_assign {
        wr_addr = low_bits 9 (word16 b 0);
        wr_data = low_bits 2 (b 2);
        wr_en = true;
      };
    }
    else if s.cmd == cmd_bcp_start
    then record quiet { bcp_start = true; bcp_false_lit = low_bits 10 (word16 b 0) }
    else quiet

-- IMPL_SEND and DONE_SEND show the low byte; the last byte of an implication pops it.
unfoldable pub outputs_in : Fsm → State → Inputs → Outputs
unfolding exec_outputs
outputs_in cmd_exec s i = exec_outputs s
outputs_in impl_send s i = record quiet {
  tx_data = slice 0 8 s.tx_shift;
  tx_valid = true;
  impl_ready = if i.tx_ready then s.tx_count == 1 else false;
}
outputs_in done_send s i = record quiet { tx_data = slice 0 8 s.tx_shift; tx_valid = true }
outputs_in _ s i = quiet

unfoldable pub outputs : State → Inputs → Outputs
unfolding outputs_in
outputs s i = outputs_in s.fsm s i

-- The six bytes of an implication, the first one lowest.
unfoldable pub impl_packet : Entry → ℕ
impl_packet e =
    rsp_implication
    + (e.var / 2 ^ 8) * 2 ^ 8
    + (e.var % 2 ^ 8) * 2 ^ 16
    + bit e.value * 2 ^ 24
    + (e.reason / 2 ^ 8) * 2 ^ 32
    + (e.reason % 2 ^ 8) * 2 ^ 40

-- The four bytes that end a run.
unfoldable pub done_packet : Bool → ℕ → ℕ
done_packet conflict cid =
    (if conflict then rsp_done_conf else rsp_done_ok)
    + (cid / 2 ^ 8) * 2 ^ 8
    + (cid % 2 ^ 8) * 2 ^ 16

-- CMD_WAIT: latch the command byte.
unfoldable pub accept : State → Inputs → State
unfolding payload_of
accept s i =
    if i.rx_valid
    then record s {
      cmd = i.rx_data;
      buf_idx = 0;
      payload_len = payload_of i.rx_data;
      fsm = if payload_of i.rx_data == 0 then cmd_exec else payload_recv;
    }
    else s

-- PAYLOAD_RECV: take one byte.
unfoldable pub receive : State → Inputs → State
receive s i =
    let last = leb s.payload_len (s.buf_idx + 1) in
    if i.rx_valid
    then record s {
      buf = put s.buf s.buf_idx i.rx_data;
      fsm = if last then cmd_exec else payload_recv;
      buf_idx = if last then s.buf_idx else low_bits 4 (s.buf_idx + 1);
    }
    else s

-- IMPL_SEND and DONE_SEND: one byte goes out when the transmitter is ready.
unfoldable pub shift_out : State → Inputs → Fsm → State
shift_out s i after =
    if i.tx_ready
    then record s {
      tx_shift = s.tx_shift / 2 ^ 8;
      tx_count = low_bits 3 (s.tx_count + 7);
      fsm = if s.tx_count == 1 then after else s.fsm;
    }
    else s

step_in : Fsm → State → Inputs → State
unfolding accept receive shift_out impl_packet done_packet
step_in cmd_wait s i = accept s i
step_in payload_recv s i = receive s i
step_in cmd_exec s i = record s { fsm = if s.cmd == cmd_bcp_start then bcp_wait else cmd_wait }
step_in bcp_wait s i =
    if i.bcp_done
    then record s {
      conflict_reg = i.bcp_conflict;
      conflict_id_reg = i.bcp_conflict_id;
      fsm = impl_check;
    }
    else s
step_in impl_check s i =
    if i.impl_valid
    then record s { tx_shift = impl_packet i.impl; tx_count = 6; fsm = impl_send }
    else record s {
      tx_shift = done_packet s.conflict_reg s.conflict_id_reg;
      tx_count = 4;
      fsm = done_send;
    }
step_in impl_send s i = shift_out s i impl_check
step_in done_send s i = shift_out s i cmd_wait

-- One clock edge.
unfoldable pub step : State → Inputs → State
unfolding step_in
step s i = step_in s.fsm s i
