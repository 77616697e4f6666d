-- ===== src/BcpAccelerator/Single/Stages.antt =====
-- bcp_accelerator.py: one clause in the prefetcher, and the stages before and after.
use cdcl_sat_solver.Base.{ℕ, ◌≡◌, refl, ◌∙◌, true, false, arith}
use cdcl_sat_solver.Memory.{Cells, read}
use cdcl_sat_solver.ClauseMemory
use cdcl_sat_solver.ClauseMemory.{max_clauses}
use cdcl_sat_solver.WatchListManager
use cdcl_sat_solver.WatchListManager.{stream}
use cdcl_sat_solver.WatchListManager.Front
use cdcl_sat_solver.WatchListManager.Front.{event, id}
use cdcl_sat_solver.WatchListManager.Pipeline.{IsDone}
use cdcl_sat_solver.ClausePrefetcher.Fetch
use cdcl_sat_solver.ClauseEvaluator
use cdcl_sat_solver.BcpAccelerator.{
  Inputs, State, active, fsm_starting, front_cycle, fetch_cycle, mgr_outputs, eval_outputs,
  detect_conflict, step,
}
use cdcl_sat_solver.BcpAccelerator.Run.{answers, drops, issues}
use cdcl_sat_solver.BcpAccelerator.Flow.{stages_step, evaluator_step, answers_lem}
use cdcl_sat_solver.BcpAccelerator.Invariant.{IsDrained}

-- The evaluator and the prefetcher are empty.
pub record Empty (t : State) : Type 0 where
  pub vacant : t.evaluator.fsm ≡ ClauseEvaluator.idle
  pub no_first : t.fetch.pre.stage1_valid ≡ false
  pub no_second : t.fetch.pre.stage2_valid ≡ false

pub Empty-drained : (s : State) → IsDrained s → Empty s
Empty-drained s d = let h = d.nothing_held in ground arith

pub vacant_answers :
    (t : State) (i : Inputs) → t.evaluator.fsm ≡ ClauseEvaluator.idle → answers t i ≡ false
vacant_answers t i h = answers_lem t i ∙ rw h refl

pub vacant_drops :
    (t : State) (i : Inputs) → t.evaluator.fsm ≡ ClauseEvaluator.idle → drops t i ≡ false
vacant_drops t i h = ground arith

pub no_conflicts : (t : State) → t.evaluator.fsm ≡ ClauseEvaluator.idle → detect_conflict t ≡ false
unfolding detect_conflict eval_outputs ClauseEvaluator.outputs
no_conflicts t h = ground arith

-- Without a clause before it the evaluator stays empty.
pub vacant_step :
    (t : State) (i : Inputs)
    → t.evaluator.fsm ≡ ClauseEvaluator.idle
    → t.fetch.pre.stage2_valid ≡ false
    → (step t i).evaluator.fsm ≡ ClauseEvaluator.idle
vacant_step t i h k = let e = evaluator_step t i in ground arith

pub Empty-step : (t : State) (i : Inputs) → Empty t → issues t i ≡ false → Empty (step t i)
Empty-step t i e ni =
    let (one, two) = stages_step t i in
    record {
      vacant = vacant_step t i e.vacant e.no_second;
      no_first = one ∙ ni;
      no_second = two ∙ e.no_first;
    }

-- The number is in the first stage of the prefetcher, its word at the read port.
pub record Sent (cells : Cells) (cid : ℕ) (t : State) : Type 0 where
  pub vacant : t.evaluator.fsm ≡ ClauseEvaluator.idle
  pub first : t.fetch.pre.stage1_valid ≡ true
  pub first_id : t.fetch.pre.stage1_cid ≡ cid
  pub no_second : t.fetch.pre.stage2_valid ≡ false
  pub word : t.fetch.mem.rd_port_data ≡ read max_clauses cells cid
  pub list_over : IsDone t.front

fetch_step : (t : State) (i : Inputs) → (step t i).fetch ≡ Fetch.step t.fetch (fetch_cycle t i)
unfolding step
fetch_step t i = refl

shown_id :
    (o : WatchListManager.Outputs) (n : ℕ)
    → event o ≡ id n
    → (o.clause_id_valid ≡ true) × (o.clause_id ≡ n)
shown_id o n e = ground arith

-- A clause number that is issued and its read.
pub issue_reads :
    (t : State) (i : Inputs) (cid : ℕ)
    → event (Front.mgr_outputs t.front (front_cycle t i)) ≡ id cid
    → ((step t i).fetch.pre.stage1_cid ≡ cid)
      × ((step t i).fetch.mem.rd_port_data ≡ read max_clauses t.fetch.mem.cells cid)
unfolding step Fetch.step fetch_cycle mgr_outputs ClauseMemory.step
issue_reads t i cid e =
    let (valid, num) = shown_id (Front.mgr_outputs t.front (front_cycle t i)) cid e in
    rw (valid, num) (refl, refl)

-- The number and its word are before the evaluator.
pub record AtHand (cells : Cells) (cid : ℕ) (t : State) : Type 0 where
  pub vacant : t.evaluator.fsm ≡ ClauseEvaluator.idle
  pub no_first : t.fetch.pre.stage1_valid ≡ false
  pub second : t.fetch.pre.stage2_valid ≡ true
  pub second_id : t.fetch.pre.stage2_cid ≡ cid
  pub word : t.fetch.mem.stage2_data ≡ read max_clauses cells cid
  pub mgr_idle : t.front.mgr.fsm ≡ WatchListManager.idle
  pub seen : t.wlm_done_seen ≡ true

pub done_seen_step :
    (t : State) (i : Inputs)
    → t.fsm ≡ active
    → IsDone t.front
    → ((step t i).wlm_done_seen ≡ true)
      × (issues t i ≡ false)
      × ((step t i).front.mgr.fsm ≡ WatchListManager.idle)
unfolding step fsm_starting mgr_outputs Front.mgr_outputs Front.step WatchListManager.step
    WatchListManager.outputs
done_seen_step t i fa h = ground arith

move_on :
    (t : State) (i : Inputs)
    → ((step t i).fetch.pre.stage2_cid ≡ t.fetch.pre.stage1_cid)
      × ((step t i).fetch.mem.stage2_data ≡ t.fetch.mem.rd_port_data)
unfolding step Fetch.step ClauseMemory.step
move_on t i = (refl, refl)

pub Sent-step :
    (cells : Cells) (cid : ℕ) (t : State) (i : Inputs)
    → t.fsm ≡ active
    → Sent cells cid t
    → AtHand cells cid (step t i)
Sent-step cells cid t i fa s =
    let (seen, none, mi) = done_seen_step t i fa s.list_over in
    let (one, two) = stages_step t i in
    let (cid2, data2) = move_on t i in
    record {
      vacant = vacant_step t i s.vacant s.no_second;
      no_first = one ∙ none;
      second = two ∙ s.first;
      second_id = cid2 ∙ s.first_id;
      word = data2 ∙ s.word;
      mgr_idle = mi;
      seen = seen;
    }
