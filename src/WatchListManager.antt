-- ===== src/WatchListManager.antt =====
-- src/hardware/modules/watch_list_manager.py: streams the clause numbers of a literal's watch list,
-- one in each cycle, by reads that are issued two cycles ahead.
pub mod Front
pub mod Pipeline
pub mod Stream
pub mod Bounds
use cdcl_sat_solver.Base.{ℕ, suc, ◌+◌, Bool, true, false, ltb, leb, ◌==◌, if◌then◌else◌, low_bits}

-- The states IDLE, FETCH_LEN, STREAM and DONE.
pub data Fsm : Type 0 where
  idle fetch_len stream finished : Fsm

pub record Inputs : Type 0 where
  pub start : Bool
  pub false_lit : ℕ
  pub wl_rd_data : ℕ
  pub wl_rd_len : ℕ

pub record Outputs : Type 0 where
  pub clause_id : ℕ
  pub clause_id_valid : Bool
  pub done : Bool
  pub wl_rd_lit : ℕ
  pub wl_rd_idx : ℕ
  pub wl_rd_en : Bool

-- The registers of `elaborate`; the last three have 7 bits.
pub record State : Type 0 where
  pub fsm : Fsm
  pub stored_lit : ℕ
  pub watch_len : ℕ
  pub pipe_idx : ℕ
  pub output_count : ℕ

abbrev pub reset : State
reset = record { fsm = idle; stored_lit = 0; watch_len = 0; pipe_idx = 0; output_count = 0 }

-- Ports that a state does not drive are 0.
abbrev pub quiet : Outputs
quiet = record {
  clause_id = 0;
  clause_id_valid = false;
  done = false;
  wl_rd_lit = 0;
  wl_rd_idx = 0;
  wl_rd_en = false;
}

-- A read of the watch list memory, on top of the other outputs.
abbrev reads : ℕ → ℕ → Outputs → Outputs
reads lit idx o = record o { wl_rd_lit = lit; wl_rd_idx = idx; wl_rd_en = true }

-- STREAM: is this the first data, which comes with the length?
abbrev first : State → Bool
first s = s.output_count == 0

-- STREAM: is another read due?
abbrev feeds : State → Inputs → Bool
feeds s i =
    if first s
    then (if leb i.wl_rd_len 1 then false else ltb s.pipe_idx i.wl_rd_len)
    else (if leb s.watch_len (s.output_count + 1) then false else ltb s.pipe_idx s.watch_len)

-- The combinational outputs in STREAM.
stream_outputs : State → Inputs → Outputs
stream_outputs s i =
    let shown = record quiet { clause_id = i.wl_rd_data; clause_id_valid = true } in
    let fed = if feeds s i then reads s.stored_lit s.pipe_idx shown else shown in
    if first s then (if i.wl_rd_len == 0 then quiet else fed) else fed

outputs_in : Fsm → State → Inputs → Outputs
unfolding stream_outputs
outputs_in idle s i = if i.start then reads i.false_lit 0 quiet else quiet
outputs_in fetch_len s i = reads s.stored_lit s.pipe_idx quiet
outputs_in stream s i = stream_outputs s i
outputs_in finished s i = record quiet { done = true }

unfoldable pub outputs : State → Inputs → Outputs
unfolding outputs_in
outputs s i = outputs_in s.fsm s i

-- The registers after an edge in STREAM.
stream_step : State → Inputs → State
stream_step s i =
    let pipe = if feeds s i then low_bits 7 (s.pipe_idx + 1) else s.pipe_idx in
    if first s
    then (if i.wl_rd_len == 0 then record s { fsm = finished } else record s {
      watch_len = i.wl_rd_len;
      output_count = 1;
      pipe_idx = pipe;
      fsm = if i.wl_rd_len == 1 then finished else stream;
    })
    else record s {
      output_count = low_bits 7 (s.output_count + 1);
      pipe_idx = pipe;
      fsm = if leb s.watch_len (s.output_count + 1) then finished else stream;
    }

step_in : Fsm → State → Inputs → State
unfolding stream_step
step_in idle s i =
    if i.start
    then record s {
      stored_lit = low_bits 10 i.false_lit;
      pipe_idx = 1;
      output_count = 0;
      fsm = fetch_len;
    }
    else s
step_in fetch_len s i = record s { pipe_idx = low_bits 7 (s.pipe_idx + 1); fsm = stream }
step_in stream s i = stream_step s i
step_in finished s i = record s { fsm = idle }

-- One clock edge.
unfoldable pub step : State → Inputs → State
unfolding step_in
step s i = step_in s.fsm s i
