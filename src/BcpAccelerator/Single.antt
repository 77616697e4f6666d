-- ===== src/BcpAccelerator/Single.antt =====
-- bcp_accelerator.py on a watch list of one clause, from `start` to `done`.
pub mod Keeps
pub mod Stages
pub mod Issue
pub mod Evaluate
pub mod Answer
pub mod Verdict
pub mod Settle
pub mod Propagate
pub mod NoClause
use cdcl_sat_solver.Base.{
  ℕ, ◌≤◌, ◌<◌, ◌≡◌, true, false, ◌&&◌, not, ◌==◌, if◌then◌else◌, List, [], ◌∷◌, ◌++◌, length,
}
use cdcl_sat_solver.Memory.{read}
use cdcl_sat_solver.AssignmentMemory
use cdcl_sat_solver.ClauseMemory.{Clause, max_clauses, unpack}
use cdcl_sat_solver.WatchListMemory.Reads.{entry, list_length}
use cdcl_sat_solver.ClauseEvaluator
use cdcl_sat_solver.ClauseEvaluator.Verdict.{verdict}
use cdcl_sat_solver.ClauseEvaluator.Run.{Below, literals}
use cdcl_sat_solver.ImplicationFifo.{default_fifo_depth}
use cdcl_sat_solver.ImplicationFifo.Queue.{Queue}
use cdcl_sat_solver.ImplicationFifo.Refine.{contents}
use cdcl_sat_solver.BcpAccelerator.{Inputs, State, step, outputs, is_unit, is_conflict}

-- A cycle in which the consumer takes nothing and nobody writes to the memories.
pub record Calm (i : Inputs) : Type 0 where
  pub no_entry : i.wl_wr.wr_en ≡ false
  pub no_len : i.wl_wr.wr_len_en ≡ false
  pub no_clause : i.clause_wr.wr_en ≡ false
  pub no_assign : i.assign_wr.wr_en ≡ false
  pub no_pop : i.impl_ready ≡ false

abbrev pub AllCalm : List Inputs → Type 0
AllCalm [] = Unit
AllCalm (i ∷ is) = Calm i × AllCalm is

-- The number of the first clause on the list of a literal, and its fields.
abbrev pub watched_id : State → ℕ → ℕ
watched_id s lit = entry s.front.mem lit 0

abbrev pub watched : State → ℕ → Clause
watched s lit = unpack (read max_clauses s.fetch.mem.cells (watched_id s lit))

-- The list of a literal has one clause, of one to five literals of variables that exist.
pub record OneClause (s : State) (lit : ℕ) : Type 0 where
  pub lit_fits : lit < 1024
  pub one_entry : list_length s.front.mem lit ≡ 1
  pub id_fits : watched_id s lit < max_clauses
  pub sat_clear : (watched s lit).sat_bit ≡ false
  pub some_literal : 0 < (watched s lit).size
  pub at_most_five : (watched s lit).size ≤ 5
  pub literals_fit : Below 1024 (literals (watched s lit))

-- The verdict on that clause.
abbrev pub verdict_on : State → ℕ → ClauseEvaluator.Outputs
verdict_on s lit =
    verdict (AssignmentMemory.rd_data s.assign_mem) (watched_id s lit) (literals (watched s lit))

-- What a verdict adds to the implications: nothing unless it is UNIT and there is room.
abbrev pub implied : Queue → ClauseEvaluator.Outputs → Queue
implied q v =
    if is_unit v.result_status && not (length q == default_fifo_depth)
    then record {
      var = v.result_implied_var;
      value = v.result_implied_val;
      reason = v.result_clause_id;
    }
      ∷ []
    else []

-- The ports and the implications at the end of a run that gave one verdict.
pub record Ended (s e : State) (v : ClauseEvaluator.Outputs) : Type 0 where
  pub is_done : (outputs e).done ≡ true
  pub says_conflict : (outputs e).conflict ≡ is_conflict v.result_status
  pub says_clause :
      (outputs e).conflict_clause_id
      ≡ (if is_conflict v.result_status then v.result_clause_id else 0)
  pub queued :
      contents default_fifo_depth e.impl_fifo
      ≡ contents default_fifo_depth s.impl_fifo
        ++ implied (contents default_fifo_depth s.impl_fifo) v

-- The accelerator `size + 6` edges after the start is done if there is a conflict, and one edge
-- later if there is none.
abbrev pub end_state : ClauseEvaluator.Outputs → State → Inputs → State
end_state v t j = if is_conflict v.result_status then t else step t j
