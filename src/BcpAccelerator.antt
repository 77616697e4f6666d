-- ===== src/BcpAccelerator.antt =====
-- src/hardware/modules/bcp_accelerator.py: the pipeline from the watch lists to the implications,
-- with its counter of clauses in flight, its conflict latch and its state machine.
pub mod Run
pub mod Flow
pub mod Invariant
pub mod Drain
pub mod Opening
pub mod Hang
pub mod Contents
pub mod Single
use cdcl_sat_solver.Base.{ℕ, ◌+◌, Bool, true, false, not, ◌&&◌, ◌||◌, ◌==◌, if◌then◌else◌, low_bits}
use cdcl_sat_solver.AssignmentMemory
use cdcl_sat_solver.Memory.{Cells}
use cdcl_sat_solver.ClauseMemory
use cdcl_sat_solver.WatchListMemory
use cdcl_sat_solver.WatchListManager
use cdcl_sat_solver.WatchListManager.Front
use cdcl_sat_solver.ClausePrefetcher
use cdcl_sat_solver.ClausePrefetcher.Fetch
use cdcl_sat_solver.ClauseEvaluator
use cdcl_sat_solver.ClauseEvaluator.{Status, unit, conflict}
use cdcl_sat_solver.ImplicationFifo
use cdcl_sat_solver.ImplicationFifo.{default_fifo_depth}

-- The states IDLE, ACTIVE and DONE.
pub data Fsm : Type 0 where
  idle active finished : Fsm

-- The input ports. Of the three records of memory ports only the write side counts.
pub record Inputs : Type 0 where
  pub start : Bool
  pub false_lit : ℕ
  pub impl_ready : Bool
  pub clause_wr : ClauseMemory.Inputs
  pub wl_wr : WatchListMemory.Inputs
  pub assign_wr : AssignmentMemory.Inputs

-- The submodules, the watch list manager and the prefetcher each beside its memory, and the
-- registers of `elaborate`.
pub record State : Type 0 where
  pub front : Front.Front
  pub fetch : Fetch.Fetch
  pub evaluator : ClauseEvaluator.State
  pub assign_mem : Cells
  pub impl_fifo : ImplicationFifo.State
  pub in_flight : ℕ  -- 7 bits
  pub conflict_reg : Bool
  pub conflict_cid_reg : ℕ
  pub wlm_done_seen : Bool
  pub fsm : Fsm

pub record Outputs : Type 0 where
  pub done : Bool
  pub busy : Bool
  pub conflict : Bool
  pub conflict_clause_id : ℕ
  pub impl : ImplicationFifo.Outputs

abbrev pub is_idle : Fsm → Bool
is_idle idle = true
is_idle _ = false

abbrev pub is_active : Fsm → Bool
is_active active = true
is_active _ = false

abbrev pub is_finished : Fsm → Bool
is_finished finished = true
is_finished _ = false

abbrev pub is_unit : Status → Bool
is_unit unit = true
is_unit _ = false

abbrev pub is_conflict : Status → Bool
is_conflict conflict = true
is_conflict _ = false

-- `fsm_starting`, which also drives `watch_mgr.start`.
unfoldable pub fsm_starting : State → Inputs → Bool
fsm_starting s i = is_idle s.fsm && i.start

unfoldable pub front_cycle : State → Inputs → Front.Cycle
unfolding fsm_starting
front_cycle s i = record { start = fsm_starting s i; false_lit = i.false_lit; writes = i.wl_wr }

unfoldable pub mgr_outputs : State → Inputs → WatchListManager.Outputs
unfolding front_cycle
mgr_outputs s i = Front.mgr_outputs s.front (front_cycle s i)

unfoldable pub fetch_cycle : State → Inputs → Fetch.Cycle
unfolding mgr_outputs
fetch_cycle s i = record {
  clause_id = (mgr_outputs s i).clause_id;
  clause_id_valid = (mgr_outputs s i).clause_id_valid;
  writes = i.clause_wr;
}

unfoldable pub pre_outputs : State → Inputs → ClausePrefetcher.Outputs
unfolding fetch_cycle
pre_outputs s i = Fetch.pre_outputs s.fetch (fetch_cycle s i)

unfoldable pub eval_inputs : State → Inputs → ClauseEvaluator.Inputs
unfolding pre_outputs
eval_inputs s i = record {
  clause_id_in = (pre_outputs s i).clause_id_out;
  meta_valid = (pre_outputs s i).meta_valid;
  clause = (pre_outputs s i).clause;
  assign_rd_data =
      AssignmentMemory.rd_data s.assign_mem (ClauseEvaluator.assign_rd_addr s.evaluator);
}

unfoldable pub eval_outputs : State → ClauseEvaluator.Outputs
eval_outputs s = ClauseEvaluator.outputs s.evaluator

-- A UNIT result is pushed; the consumer's `impl_ready` pops.
unfoldable pub fifo_inputs : State → Inputs → ImplicationFifo.Inputs
unfolding eval_outputs
fifo_inputs s i =
    let o = eval_outputs s in
    record {
      push_valid = o.result_valid && is_unit o.result_status;
      push = record {
        var = o.result_implied_var;
        value = o.result_implied_val;
        reason = o.result_clause_id;
      };
      pop_ready = i.impl_ready;
    }

unfoldable pub detect_conflict : State → Bool
unfolding eval_outputs
detect_conflict s = (eval_outputs s).result_valid && is_conflict (eval_outputs s).result_status

-- The counter of clauses that were issued and not yet answered, modulo 2 ^ 7.
unfoldable pub count_in_flight : State → Inputs → ℕ
unfolding fsm_starting mgr_outputs eval_outputs
count_in_flight s i =
    let do_inc = (mgr_outputs s i).clause_id_valid in
    let do_dec = (eval_outputs s).result_valid in
    if fsm_starting s i
    then 0
    else if do_inc && not do_dec
    then low_bits 7 (s.in_flight + 1)
    else if do_dec && not do_inc
    then low_bits 7 (s.in_flight + 127)
    else s.in_flight

-- The state machine.
unfoldable pub next_fsm : State → Inputs → Fsm
unfolding mgr_outputs detect_conflict
next_fsm s i = elim s.fsm [
  | idle ↦ if i.start then active else idle
  | active ↦
      if s.conflict_reg || detect_conflict s
      then finished
      else if (s.wlm_done_seen || (mgr_outputs s i).done) && (s.in_flight == 0)
      then finished
      else active
  | finished ↦ idle
]

-- One clock edge.
unfoldable pub step : State → Inputs → State
unfolding count_in_flight next_fsm eval_inputs fifo_inputs
step s i = record {
  front = Front.step s.front (front_cycle s i);
  fetch = Fetch.step s.fetch (fetch_cycle s i);
  evaluator = ClauseEvaluator.step s.evaluator (eval_inputs s i);
  assign_mem = AssignmentMemory.step s.assign_mem i.assign_wr;
  impl_fifo = ImplicationFifo.step default_fifo_depth s.impl_fifo (fifo_inputs s i);
  in_flight = count_in_flight s i;
  conflict_reg =
      if fsm_starting s i then false else if detect_conflict s then true else s.conflict_reg;
  conflict_cid_reg =
      if fsm_starting s i
      then 0
      else if detect_conflict s && not s.conflict_reg
      then (eval_outputs s).result_clause_id
      else s.conflict_cid_reg;
  wlm_done_seen =
      if fsm_starting s i then false else if (mgr_outputs s i).done then true else s.wlm_done_seen;
  fsm = next_fsm s i;
}

-- The output ports.
unfoldable pub outputs : State → Outputs
outputs s = record {
  done = is_finished s.fsm;
  busy = is_active s.fsm;
  conflict = s.conflict_reg;
  conflict_clause_id = s.conflict_cid_reg;
  impl = ImplicationFifo.outputs default_fifo_depth s.impl_fifo;
}

abbrev pub reset : State
reset = record {
  front = record { mgr = WatchListManager.reset; mem = WatchListMemory.reset };
  fetch = record { pre = ClausePrefetcher.reset; mem = ClauseMemory.reset };
  evaluator = ClauseEvaluator.reset;
  assign_mem = λ _. 0;
  impl_fifo = ImplicationFifo.reset;
  in_flight = 0;
  conflict_reg = false;
  conflict_cid_reg = 0;
  wlm_done_seen = false;
  fsm = idle;
}
