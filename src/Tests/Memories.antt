-- ===== src/Tests/Memories.antt =====
-- The three memories.
use cdcl_sat_solver.Base.{ℕ, ◌≡◌, refl, true, false, ◌&&◌, ◌==◌, if◌then◌else◌, [], ◌∷◌, arith}
use cdcl_sat_solver.Memory.{read, write}
use cdcl_sat_solver.ClauseMemory
use cdcl_sat_solver.ClauseMemory.{Clause, pack, unpack, rd_data, rd_valid, max_clauses}
use cdcl_sat_solver.ClauseMemory.Reads.{read_after_write, run}
use cdcl_sat_solver.WatchListMemory
use cdcl_sat_solver.WatchListMemory.Reads.{entry, entry-step}

abbrev clause : Clause
clause = record { sat_bit = true; size = 2; lit0 = 1; lit1 = 65535; lit2 = 0; lit3 = 9; lit4 = 4 }

abbrev writes : ℕ → ClauseMemory.Inputs
writes a = record { rd_addr = 0; rd_en = false; wr_addr = a; wr_data = clause; wr_en = true }

abbrev reads : ℕ → ClauseMemory.Inputs
reads a = record { rd_addr = a; rd_en = true; wr_addr = 0; wr_data = clause; wr_en = false }

reads_back :
    rd_data (
      ClauseMemory.step
        (ClauseMemory.step (ClauseMemory.step ClauseMemory.reset (writes 9)) (reads 9))
        (reads 1))
    ≡ clause
unfolding rd_data ClauseMemory.step pack unpack read write
reads_back = refl

read_after_write_example :
    rd_data (
      ClauseMemory.step
        (ClauseMemory.step
          (run (ClauseMemory.step ClauseMemory.reset (writes 9)) (writes 8 ∷ []))
          (reads 9))
        (reads 1))
    ≡ clause
read_after_write_example =
    read_after_write ClauseMemory.reset (writes 9) (reads 9) (reads 1) (writes 8 ∷ []) refl
      (omega arith) (omega arith) (omega arith) refl refl

abbrev wl_write : WatchListMemory.Inputs
wl_write = record {
  rd_lit = 0;
  rd_idx = 0;
  rd_en = false;
  wr_lit = 4;
  wr_idx = 99;
  wr_data = 77;
  wr_len = 5;
  wr_en = true;
  wr_len_en = true;
}

-- The last entry of literal 4 and the first one of literal 5 are apart.
entry-step_example :
    entry (WatchListMemory.step WatchListMemory.reset wl_write) 5 0
    ≡ (if (5 == 4) && (0 == 99) then 77 else entry WatchListMemory.reset 5 0)
entry-step_example =
    entry-step WatchListMemory.reset wl_write 5 0 refl (omega arith) (omega arith) (omega arith)
      (omega arith) (omega arith)
