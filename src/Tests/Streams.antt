-- ===== src/Tests/Streams.antt =====
-- watch_list_manager.py and clause_prefetcher.py with their memories.
use cdcl_sat_solver.Base.{
  ℕ, zero, suc, ◌*◌, ◌%◌, ◌≡◌, refl, true, false, ◌==◌, if◌then◌else◌, [], ◌∷◌, ◌++◌, map,
  replicate, arith,
}
use cdcl_sat_solver.Memory.{read, write}
use cdcl_sat_solver.ClauseMemory
use cdcl_sat_solver.WatchListMemory
use cdcl_sat_solver.WatchListMemory.{cid_addr}
use cdcl_sat_solver.WatchListMemory.Reads.{entry, list_length}
use cdcl_sat_solver.WatchListManager
use cdcl_sat_solver.WatchListManager.Front
use cdcl_sat_solver.WatchListManager.Front.{Event, silent, id}
use cdcl_sat_solver.WatchListManager.Stream.{streamed, streams}
use cdcl_sat_solver.ClausePrefetcher
use cdcl_sat_solver.ClausePrefetcher.Fetch
use cdcl_sat_solver.ClausePrefetcher.Fetch.{fetches}

abbrev no_wl_write : WatchListMemory.Inputs
no_wl_write = record {
  rd_lit = 0;
  rd_idx = 0;
  rd_en = false;
  wr_lit = 0;
  wr_idx = 0;
  wr_data = 0;
  wr_len = 0;
  wr_en = false;
  wr_len_en = false;
}

-- Literal 4 is watched by clauses 50, 51 and 52.
abbrev front : Front.Front
front = record {
  mgr = WatchListManager.reset;
  mem = record WatchListMemory.reset {
    len_cells = λ l. if l == 4 then 3 else 0;
    cid_cells = λ a. a % 350;
  };
}

abbrev go : Front.Cycle
go = record { start = true; false_lit = 4; writes = no_wl_write }

streams_three :
    Front.trace front (go ∷ replicate 5 go)
    ≡ silent ∷ silent ∷ id 50 ∷ id 51 ∷ id 52 ∷ Event.finished ∷ []
unfolding Front.trace Front.step Front.mgr_outputs WatchListManager.step WatchListManager.outputs
    WatchListMemory.step cid_addr read write
streams_three = refl

no_writes : (n : ℕ) → Front.NoWrites (replicate n go)
no_writes zero = tt
no_writes (suc n) = ((refl, refl), no_writes n)

streams_example :
    (Front.trace front (go ∷ replicate 5 go)
      ≡ silent ∷ silent ∷ streamed (entry front.mem 4) (list_length front.mem 4)
        ++ Event.finished ∷ [])
    × ((Front.run front (go ∷ replicate 5 go)).mgr.fsm ≡ WatchListManager.idle)
unfolding read
streams_example =
    streams front go (replicate 5 go) refl refl (omega arith) (omega arith) refl (no_writes 6)

abbrev no_clause_write : ClauseMemory.Inputs
no_clause_write = record {
  rd_addr = 0;
  rd_en = false;
  wr_addr = 0;
  wr_data = record { sat_bit = false; size = 0; lit0 = 0; lit1 = 0; lit2 = 0; lit3 = 0; lit4 = 0 };
  wr_en = false;
}

abbrev fetch : Fetch.Fetch
fetch = record {
  pre = ClausePrefetcher.reset;
  mem = record ClauseMemory.reset { cells = λ a. 16 * a };
}

abbrev number : ℕ → Fetch.Cycle
number n = record { clause_id = n; clause_id_valid = true; writes = no_clause_write }

fetches_example :
    Fetch.trace fetch (number 3 ∷ (number 8 ∷ []) ++ number 1 ∷ number 2 ∷ [])
    ≡ Fetch.shown (Fetch.pre_outputs fetch (number 3))
      ∷ Fetch.second fetch
      ∷ map (Fetch.clause_of fetch.mem.cells) (number 3 ∷ number 8 ∷ [])
fetches_example = fetches fetch (number 3) (number 1) (number 2) (number 8 ∷ []) (refl, (refl, tt))
