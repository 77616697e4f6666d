-- ===== src/BcpAccelerator/Single/Evaluate.antt =====
-- bcp_accelerator.py: the cycles in which the evaluator has the only clause.
use cdcl_sat_solver.Base.{
  ℕ, suc, ◌+◌, ◌≤◌, ◌<◌, ◌≡◌, inl, refl, ap, ◌∙◌, true, false, arith, List, [], ◌∷◌, length,
  if◌then◌else◌, ◌==◌,
}
use cdcl_sat_solver.AssignmentMemory
use cdcl_sat_solver.WatchListManager
use cdcl_sat_solver.WatchListManager.Front
use cdcl_sat_solver.WatchListManager.Bounds.{idle_stays}
use cdcl_sat_solver.ClauseEvaluator
use cdcl_sat_solver.ClauseEvaluator.{eval, output}
use cdcl_sat_solver.ClauseEvaluator.Run.{tick}
use cdcl_sat_solver.BcpAccelerator.{
  Inputs, State, active, fsm_starting, front_cycle, eval_inputs, step,
}
use cdcl_sat_solver.BcpAccelerator.Run.{run, AllActive}
use cdcl_sat_solver.BcpAccelerator.Flow.{stages_step, answers_lem, meta_valid_lem}
use cdcl_sat_solver.BcpAccelerator.Invariant.{start_port, not_starting, nothing_issued, mgr_step}
use cdcl_sat_solver.BcpAccelerator.Single.{Calm, AllCalm}
use cdcl_sat_solver.BcpAccelerator.Single.Keeps.{Silent, Silent-step}

-- The list has been read, and nothing is before the evaluator.
pub record Rest (t : State) : Type 0 where
  pub no_first : t.fetch.pre.stage1_valid ≡ false
  pub no_second : t.fetch.pre.stage2_valid ≡ false
  pub mgr_idle : t.front.mgr.fsm ≡ WatchListManager.idle
  pub seen : t.wlm_done_seen ≡ true

pub mgr_stays :
    (t : State) (i : Inputs)
    → fsm_starting t i ≡ false
    → t.front.mgr.fsm ≡ WatchListManager.idle
    → (step t i).front.mgr ≡ t.front.mgr
mgr_stays t i st h =
    mgr_step t i
    ∙ idle_stays t.front.mgr (Front.mgr_inputs t.front (front_cycle t i)) h (start_port t i st)

seen_stays :
    (t : State) (i : Inputs)
    → t.fsm ≡ active
    → t.wlm_done_seen ≡ true
    → (step t i).wlm_done_seen ≡ true
unfolding step fsm_starting
seen_stays t i fa h = ground arith

pub later_Rest :
    (t : State) (i : Inputs)
    → t.fsm ≡ active
    → t.fetch.pre.stage1_valid ≡ false
    → t.front.mgr.fsm ≡ WatchListManager.idle
    → t.wlm_done_seen ≡ true
    → Rest (step t i)
later_Rest t i fa nf mi se =
    let (one, two) = stages_step t i in
    record {
      no_first = one ∙ nothing_issued t i mi;
      no_second = two ∙ nf;
      mgr_idle = ap (λ m. m.fsm) (mgr_stays t i (not_starting t i fa) mi) ∙ mi;
      seen = seen_stays t i fa se;
    }

-- `n` literals of the clause are left.
pub record Working (n : ℕ) (t : State) : Type 0 where
  pub in_eval : t.evaluator.fsm ≡ eval
  pub left : t.evaluator.lit_idx + n ≡ t.evaluator.size_reg
  pub small : t.evaluator.size_reg ≤ 5
  pub rest : Rest t

-- The edge of the evaluator, with the assignment memory behind its read port.
pub evaluator_tick :
    (t : State) (i : Inputs)
    → (step t i).evaluator
      ≡ tick (AssignmentMemory.rd_data t.assign_mem) t.evaluator (eval_inputs t i)
unfolding step eval_inputs tick
evaluator_tick t i = refl

eval_step :
    (e : ClauseEvaluator.State) (i : ClauseEvaluator.Inputs)
    → e.fsm ≡ eval
    → e.size_reg ≤ 5
    → e.lit_idx < e.size_reg
    → ((ClauseEvaluator.step e i).fsm ≡ (if e.lit_idx + 1 == e.size_reg then output else eval))
      × ((ClauseEvaluator.step e i).lit_idx
          ≡ (if e.lit_idx + 1 == e.size_reg then e.lit_idx else e.lit_idx + 1))
      × ((ClauseEvaluator.step e i).size_reg ≡ e.size_reg)
unfolding ClauseEvaluator.step
eval_step e i fe b lt = ground arith

pub latch_step :
    (e : ClauseEvaluator.State) (i : ClauseEvaluator.Inputs)
    → e.fsm ≡ ClauseEvaluator.idle
    → i.meta_valid ≡ true
    → i.clause.sat_bit ≡ false
    → ((ClauseEvaluator.step e i).fsm ≡ eval)
      × ((ClauseEvaluator.step e i).lit_idx ≡ 0)
      × ((ClauseEvaluator.step e i).size_reg ≡ i.clause.size)
unfolding ClauseEvaluator.step
latch_step e i fi mv sb = ground arith

pub step_evaluator :
    (t : State) (i : Inputs)
    → (step t i).evaluator ≡ ClauseEvaluator.step t.evaluator (eval_inputs t i)
unfolding step
step_evaluator t i = refl

busy_silent :
    (s t : State) (n : ℕ) (i : Inputs) → Calm i → Working n t → Silent s t → Silent s (step t i)
busy_silent s t n i c w u =
    let fe = w.in_eval in
    let ns = w.rest.no_second in
    let b = u.flows.balanced in
    Silent-step s t i c (answers_lem t i ∙ rw fe refl) (ground (arith, meta_valid_lem t i))
      (inl (ground arith)) u

-- The only clause has its answer.
pub record Ready (s t : State) : Type 0 where
  pub silent : Silent s t
  pub in_output : t.evaluator.fsm ≡ output
  pub rest : Rest t

Working-Rest : (s t : State) (n : ℕ) (i : Inputs) → Working n t → Silent s t → Rest (step t i)
Working-Rest s t n i w u = later_Rest t i u.running w.rest.no_first w.rest.mgr_idle w.rest.seen

Working-last : (s t : State) (i : Inputs) → Calm i → Working 1 t → Silent s t → Ready s (step t i)
Working-last s t i c w u =
    let lt = w.left in
    let e = eval_step t.evaluator (eval_inputs t i) w.in_eval w.small (omega arith) in
    record {
      silent = busy_silent s t 1 i c w u;
      in_output = rw (step_evaluator t i) (ground arith);
      rest = Working-Rest s t 1 i w u;
    }

Working-more :
    (s t : State) (n : ℕ) (i : Inputs)
    → Calm i
    → Working (suc (suc n)) t
    → Silent s t
    → Silent s (step t i) × Working (suc n) (step t i)
Working-more s t n i c w u =
    let lt = w.left in
    let e = eval_step t.evaluator (eval_inputs t i) w.in_eval w.small (omega arith) in
    let same = step_evaluator t i in
    (
      busy_silent s t (suc (suc n)) i c w u,
      record {
        in_eval = rw same (ground arith);
        left = rw same (ground arith);
        small = rw same (omega (arith, w.small));
        rest = Working-Rest s t (suc (suc n)) i w u;
      },
    )

pub works :
    (s t : State) (i : Inputs) (is : List Inputs)
    → AllCalm (i ∷ is)
    → Working (length (i ∷ is)) t
    → Silent s t
    → Ready s (run t (i ∷ is)) × AllActive t (i ∷ is)
unfolding run
works s t i [] c w u = (Working-last s t i c.0 w u, (u.running, tt))
works s t i (j ∷ js) c w u =
    let (v, x) = Working-more s t (length js) i c.0 w u in
    let (r, a) = works s (step t i) j js c.1 x v in (r, (u.running, a))
