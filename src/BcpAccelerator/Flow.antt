-- ===== src/BcpAccelerator/Flow.antt =====
-- bcp_accelerator.py: what the counter of clauses in flight counts.
use cdcl_sat_solver.Base.{ℕ, ◌+◌, ◌≤◌, ◌<◌, ◌≡◌, true, false, if◌then◌else◌, bit, arith, refl}
use cdcl_sat_solver.ClauseEvaluator.Occupied.{occupied, is_output, occupied-step, result_valid_lem}
use cdcl_sat_solver.ClausePrefetcher.Fetch
use cdcl_sat_solver.BcpAccelerator.{
  Inputs, State, fsm_starting, mgr_outputs, pre_outputs, eval_inputs, eval_outputs, count_in_flight,
  fetch_cycle, step,
}
use cdcl_sat_solver.BcpAccelerator.Run.{issues, answers, drops}

-- The clauses that the pipeline holds: two in the prefetcher and one in the evaluator.
abbrev pub held : State → ℕ
held s =
    bit s.fetch.pre.stage1_valid + bit s.fetch.pre.stage2_valid + bit (occupied s.evaluator.fsm)

pub meta_valid_lem :
    (s : State) (i : Inputs) → (pre_outputs s i).meta_valid ≡ s.fetch.pre.stage2_valid
unfolding pre_outputs Fetch.pre_outputs
meta_valid_lem s i = refl

pub stages_step :
    (s : State) (i : Inputs)
    → ((step s i).fetch.pre.stage1_valid ≡ issues s i)
      × ((step s i).fetch.pre.stage2_valid ≡ s.fetch.pre.stage1_valid)
unfolding step Fetch.step fetch_cycle
stages_step s i = (refl, refl)

pub evaluator_step :
    (s : State) (i : Inputs)
    → occupied (step s i).evaluator.fsm ≡ (
        if occupied s.evaluator.fsm
        then (if is_output s.evaluator.fsm then false else true)
        else s.fetch.pre.stage2_valid)
unfolding step eval_inputs Fetch.pre_outputs
evaluator_step s i = occupied-step s.evaluator (eval_inputs s i)

pub answers_lem : (s : State) (i : Inputs) → answers s i ≡ is_output s.evaluator.fsm
unfolding eval_outputs
answers_lem s i = result_valid_lem s.evaluator

in_flight_step :
    (s : State) (i : Inputs)
    → fsm_starting s i ≡ false
    → s.in_flight + bit (issues s i) < 128
    → bit (answers s i) ≤ s.in_flight
    → (step s i).in_flight + bit (answers s i) ≡ s.in_flight + bit (issues s i)
unfolding step count_in_flight fsm_starting mgr_outputs eval_outputs
in_flight_step s i st room some_left = ground arith

-- While the accelerator is not started, each edge moves the counter with the clauses that the
-- pipeline holds; what is dropped stays counted for ever.
pub balance :
    (s : State) (i : Inputs) (lost : ℕ)
    → fsm_starting s i ≡ false
    → s.in_flight + bit (issues s i) < 128
    → s.in_flight ≡ held s + lost
    → (step s i).in_flight ≡ held (step s i) + (bit (drops s i) + lost)
balance s i lost st room bal =
    let answered = answers_lem s i in
    ground (
      arith,
      in_flight_step s i st room,
      stages_step s i,
      evaluator_step s i,
      meta_valid_lem s i,
      answered,
    )

pub in_flight_counts :
    (s : State) (i : Inputs) (lost : ℕ)
    → fsm_starting s i ≡ false
    → s.in_flight + bit (issues s i) < 128
    → s.in_flight ≡ held s + lost
    → (step s i).in_flight + bit (answers s i) ≡ s.in_flight + bit (issues s i)
in_flight_counts s i lost st room bal = ground (arith, in_flight_step s i st room, answers_lem s i)

-- An empty pipeline stays empty while nothing is issued.
pub held_after_empty :
    (s : State) (i : Inputs) → held s ≡ 0 → issues s i ≡ false → held (step s i) ≡ 0
held_after_empty s i h none_issued = ground (arith, stages_step s i, evaluator_step s i)
