-- ===== src/Tests/Accelerator.antt =====
-- bcp_accelerator.py on literal 4, which is watched by clauses whose sat bit is set.
use cdcl_sat_solver.Base.{
  ℕ, ◌≡◌, refl, Bool, true, false, ◌==◌, if◌then◌else◌, ◌∷◌, replicate, arith, bit, ◌+◌,
}
use cdcl_sat_solver.Memory.{read, write}
use cdcl_sat_solver.AssignmentMemory
use cdcl_sat_solver.ClauseMemory
use cdcl_sat_solver.ClauseEvaluator
use cdcl_sat_solver.WatchListMemory
use cdcl_sat_solver.WatchListManager
use cdcl_sat_solver.WatchListManager.Front
use cdcl_sat_solver.ClausePrefetcher
use cdcl_sat_solver.ClausePrefetcher.Fetch
use cdcl_sat_solver.ImplicationFifo
use cdcl_sat_solver.BcpAccelerator.{Inputs, State, reset, active, finished, step}
use cdcl_sat_solver.BcpAccelerator.Run.{run, count, issues, answers, drops}
use cdcl_sat_solver.BcpAccelerator.Flow.{held, balance}
use cdcl_sat_solver.BcpAccelerator.Invariant.{IsDrained}
use cdcl_sat_solver.BcpAccelerator.Drain.{ends-IsDrained}
use cdcl_sat_solver.BcpAccelerator.Hang.{long_list_hangs}

-- `n` clauses watch literal 4. Every word of the clause database has its lowest bit set.
abbrev watched : ℕ → State
watched n = record reset {
  front = record {
    mgr = WatchListManager.reset;
    mem = record WatchListMemory.reset { len_cells = λ l. if l == 4 then n else 0 };
  };
  fetch = record {
    pre = ClausePrefetcher.reset;
    mem = record ClauseMemory.reset { cells = λ _. 5 };
  };
}

abbrev inputs : Bool → Inputs
inputs start = record {
  start = start;
  false_lit = 4;
  impl_ready = false;
  clause_wr = record {
    rd_addr = 0;
    rd_en = false;
    wr_addr = 0;
    wr_data = record {
      sat_bit = false;
      size = 0;
      lit0 = 0;
      lit1 = 0;
      lit2 = 0;
      lit3 = 0;
      lit4 = 0;
    };
    wr_en = false;
  };
  wl_wr = record {
    rd_lit = 0;
    rd_idx = 0;
    rd_en = false;
    wr_lit = 0;
    wr_idx = 0;
    wr_data = 0;
    wr_len = 0;
    wr_en = false;
    wr_len_en = false;
  };
  assign_wr = record { rd_addr = 0; wr_addr = 0; wr_data = 0; wr_en = false };
}

abbrev pub go : Inputs
go = inputs true

abbrev pub wait : Inputs
wait = inputs false

pub drained : (n : ℕ) → IsDrained (watched n)
drained n = record { waiting = refl; mgr_idle = refl; len_fits = omega arith; nothing_held = refl }

-- The definitions that a run computes with.
unfoldable pub machine : ℕ
unfolding step Front.step Fetch.step WatchListManager.step WatchListManager.outputs
    WatchListMemory.step WatchListMemory.cid_addr ClausePrefetcher.step ClauseMemory.step
    ClauseMemory.unpack ClauseEvaluator.step ClauseEvaluator.outputs AssignmentMemory.step
    ImplicationFifo.step read write
machine = 0

one_clause_ends : (run (step (watched 1) go) (replicate 6 wait)).fsm ≡ finished
unfolding run machine
one_clause_ends = refl

ends-IsDrained_example :
    (count drops (step (watched 1) go) (replicate 5 wait) ≡ 0)
    × (count answers (step (watched 1) go) (replicate 5 wait)
        ≡ count issues (step (watched 1) go) (replicate 5 wait))
    × IsDrained (step (step (run (step (watched 1) go) (replicate 5 wait)) wait) wait)
unfolding run machine
ends-IsDrained_example =
    ends-IsDrained (watched 1) go (replicate 5 wait) wait wait (drained 1) refl
      (refl, (refl, (refl, (refl, (refl, tt))))) refl refl refl

balance_example :
    (step (step (watched 2) go) wait).in_flight
    ≡ held (step (step (watched 2) go) wait) + (bit (drops (step (watched 2) go) wait) + 0)
unfolding machine
balance_example = balance (step (watched 2) go) wait 0 refl (omega arith) refl

-- Two clauses, neither of which is a conflict.
long_list_hangs_example :
    (run (step (watched 2) go) (wait ∷ wait ∷ wait ∷ replicate 4 wait)).fsm ≡ active
unfolding run machine
long_list_hangs_example =
    long_list_hangs (watched 2) go wait wait wait (replicate 4 wait) (drained 2) refl (omega arith)
      (omega arith) (omega arith) (refl, refl) (refl, refl) (refl, refl)
      (refl, (refl, (refl, (refl, (refl, (refl, (refl, tt)))))))
