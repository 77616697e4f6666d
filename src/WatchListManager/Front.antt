-- ===== src/WatchListManager/Front.antt =====
-- watch_list_manager.py wired to watch_list_memory.py, as bcp_accelerator.py does it.
use cdcl_sat_solver.Base.{ℕ, Bool, false, ◌≡◌, if◌then◌else◌, low_bits, List, [], ◌∷◌}
use cdcl_sat_solver.WatchListMemory
use cdcl_sat_solver.WatchListMemory.{length_width}
use cdcl_sat_solver.WatchListManager
use cdcl_sat_solver.WatchListManager.{Inputs, Outputs, quiet}

pub record Front : Type 0 where
  pub mgr : WatchListManager.State
  pub mem : WatchListMemory.State

-- The inputs of a cycle. Of `writes` only the write ports count.
pub record Cycle : Type 0 where
  pub start : Bool
  pub false_lit : ℕ
  pub writes : WatchListMemory.Inputs

unfoldable pub mgr_inputs : Front → Cycle → Inputs
unfolding WatchListMemory.rd_data WatchListMemory.rd_len
mgr_inputs f c = record {
  start = c.start;
  false_lit = c.false_lit;
  wl_rd_data = WatchListMemory.rd_data f.mem;
  wl_rd_len = low_bits length_width (WatchListMemory.rd_len f.mem);
}

unfoldable pub mgr_outputs : Front → Cycle → Outputs
unfolding mgr_inputs
mgr_outputs f c = WatchListManager.outputs f.mgr (mgr_inputs f c)

-- The read ports of the memory are driven by the manager.
unfoldable pub mem_inputs : Outputs → WatchListMemory.Inputs → WatchListMemory.Inputs
mem_inputs o w = record w { rd_lit = o.wl_rd_lit; rd_idx = o.wl_rd_idx; rd_en = o.wl_rd_en }

unfoldable pub step : Front → Cycle → Front
unfolding mgr_inputs mgr_outputs mem_inputs
step f c = record {
  mgr = WatchListManager.step f.mgr (mgr_inputs f c);
  mem = WatchListMemory.step f.mem (mem_inputs (mgr_outputs f c) c.writes);
}

-- What the manager tells the rest of the pipeline in a cycle.
pub data Event : Type 0 where
  silent finished : Event
  id : ℕ → Event

abbrev pub event : Outputs → Event
event o = if o.clause_id_valid then id o.clause_id else if o.done then finished else silent

unfoldable pub trace : Front → List Cycle → List Event
trace f [] = []
trace f (c ∷ cs) = event (mgr_outputs f c) ∷ trace (step f c) cs

unfoldable pub run : Front → List Cycle → Front
run f [] = f
run f (c ∷ cs) = run (step f c) cs

-- No cycle writes to the watch lists.
abbrev pub NoWrite : Cycle → Type 0
NoWrite c = (c.writes.wr_en ≡ false) × (c.writes.wr_len_en ≡ false)

abbrev pub NoWrites : List Cycle → Type 0
NoWrites [] = Unit
NoWrites (c ∷ cs) = NoWrite c × NoWrites cs
