-- ===== src/BcpAccelerator/Contents.antt =====
-- bcp_accelerator.py: what the three memories hold, and what the commands of the hosts make of it.
use cdcl_sat_solver.Base.{ℕ, ◌^◌, ◌<◌, ◌≡◌, refl, ap, ◌∙◌, true, List, [], ◌∷◌, ◌++◌, low_bits}
use native.Mathlib.Nat.{mod-eq_of_lt}
use cdcl_sat_solver.Memory.{Cells, write}
use cdcl_sat_solver.ClauseMemory
use cdcl_sat_solver.ClauseMemory.{max_clauses, pack}
use cdcl_sat_solver.WatchListMemory
use cdcl_sat_solver.WatchListMemory.{
  num_literals, clause_id_depth, length_width, clause_id_width, cid_addr,
}
use cdcl_sat_solver.WatchListManager.Front
use cdcl_sat_solver.ClausePrefetcher.Fetch
use cdcl_sat_solver.AssignmentMemory
use cdcl_sat_solver.AssignmentMemory.{max_vars}
use cdcl_sat_solver.HostInterface.{no_clause, no_wl, no_assign}
use cdcl_sat_solver.HostInterface.Commands.{
  Command, write_clause, write_wl_entry, write_wl_len, write_assign, bcp_start, effect, Fits,
}
use cdcl_sat_solver.BcpAccelerator.{Inputs, State, step}

pub record Contents : Type 0 where
  pub clauses : Cells
  pub lengths : Cells
  pub entries : Cells
  pub assigns : Cells

abbrev pub contents : State → Contents
contents s = record {
  clauses = s.fetch.mem.cells;
  lengths = s.front.mem.len_cells;
  entries = s.front.mem.cid_cells;
  assigns = s.assign_mem;
}

-- The write ports.
abbrev pub Writes : Type 0
Writes = ClauseMemory.Inputs × WatchListMemory.Inputs × AssignmentMemory.Inputs

abbrev pub writes_in : Inputs → Writes
writes_in i = (i.clause_wr, i.wl_wr, i.assign_wr)

abbrev pub no_writes : Writes
no_writes = (no_clause, no_wl, no_assign)

-- Those that a command asks for.
abbrev pub writes_of : Command → Writes
writes_of c = let e = effect c in (e.clause_wr, e.wl_wr, e.assign_wr)

unfoldable pub written : Writes → Contents → Contents
written (c, w, a) m = record {
  clauses = write max_clauses m.clauses c.wr_en c.wr_addr (pack c.wr_data);
  lengths = write num_literals m.lengths w.wr_len_en w.wr_lit (low_bits length_width w.wr_len);
  entries =
      write clause_id_depth m.entries w.wr_en (cid_addr w.wr_lit w.wr_idx)
        (low_bits clause_id_width w.wr_data);
  assigns = write max_vars m.assigns a.wr_en a.wr_addr (low_bits 2 a.wr_data);
}

-- The memories change by their write ports alone, whatever the pipeline does.
pub contents-step :
    (s : State) (i : Inputs) → contents (step s i) ≡ written (writes_in i) (contents s)
unfolding written step Front.step Fetch.step ClauseMemory.step WatchListMemory.step
    AssignmentMemory.step
contents-step s i = refl

-- What a command stores.
abbrev pub store : Command → Contents → Contents
store (write_clause cid c) m = record m { clauses = write max_clauses m.clauses true cid (pack c) }
store (write_wl_entry lit idx cid) m = record m {
  entries = write clause_id_depth m.entries true (cid_addr lit idx) cid;
}
store (write_wl_len lit len) m = record m { lengths = write num_literals m.lengths true lit len }
store (write_assign var val) m = record m { assigns = write max_vars m.assigns true var val }
store (bcp_start lit) m = m

narrow : (w x : ℕ) → x < 2 ^ w → low_bits w x ≡ x
narrow w x h = mod-eq_of_lt h

pub written-effect : (c : Command) (m : Contents) → Fits c → written (writes_of c) m ≡ store c m
unfolding written write
written-effect (write_clause cid c) m f = refl
written-effect (write_wl_entry lit idx cid) m f = rw (narrow 13 cid f.2) refl
written-effect (write_wl_len lit len) m f = rw (narrow 7 len f.1) refl
written-effect (write_assign var val) m f = rw (narrow 2 val f.1) refl
written-effect (bcp_start lit) m f = refl

pub written-no_writes : (m : Contents) → written no_writes m ≡ m
unfolding written write
written-no_writes m = refl

-- The writes of some cycles, one after another.
unfoldable pub all_written : List Writes → Contents → Contents
all_written [] m = m
all_written (w ∷ ws) m = all_written ws (written w m)

pub all_written-append :
    (xs ys : List Writes) (m : Contents)
    → all_written (xs ++ ys) m ≡ all_written ys (all_written xs m)
unfolding all_written
all_written-append [] ys m = refl
all_written-append (x ∷ xs) ys m = all_written-append xs ys (written x m)

-- Cycles that write nothing.
abbrev pub NoWrites : List Writes → Type 0
NoWrites [] = Unit
NoWrites (w ∷ ws) = (w ≡ no_writes) × NoWrites ws

pub all_written-NoWrites : (ws : List Writes) (m : Contents) → NoWrites ws → all_written ws m ≡ m
unfolding all_written
all_written-NoWrites [] m n = refl
all_written-NoWrites (w ∷ ws) m n =
    ap (all_written ws) (ap (λ x. written x m) n.0 ∙ written-no_writes m)
    ∙ all_written-NoWrites ws m n.1
