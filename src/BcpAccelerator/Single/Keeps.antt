-- ===== src/BcpAccelerator/Single/Keeps.antt =====
-- bcp_accelerator.py: what a cycle that answers nothing leaves alone.
use cdcl_sat_solver.Base.{◌+◌, ◌<◌, ◌≡◌, ◌⊎◌, refl, ◌∙◌, subst, true, false, ◌||◌, bit, arith}
use cdcl_sat_solver.Memory.{write}
use cdcl_sat_solver.ImplicationFifo
use cdcl_sat_solver.ImplicationFifo.{default_fifo_depth}
use cdcl_sat_solver.WatchListManager.Front
use cdcl_sat_solver.BcpAccelerator.{
  Inputs, State, idle, active, fsm_starting, front_cycle, mgr_outputs, fifo_inputs, detect_conflict,
  step,
}
use cdcl_sat_solver.BcpAccelerator.Run.{answers, drops}
use cdcl_sat_solver.BcpAccelerator.Contents.{Contents, contents, contents-step, writes_in, written}
use cdcl_sat_solver.BcpAccelerator.Invariant.{IsDrained, Flows, step-Flows, start-Flows}
use cdcl_sat_solver.BcpAccelerator.Opening.{still_active}
use cdcl_sat_solver.BcpAccelerator.Single.{Calm}

written-Calm : (i : Inputs) (m : Contents) → Calm i → written (writes_in i) m ≡ m
unfolding written write
written-Calm i m c = rw (c.no_entry, c.no_len, c.no_clause, c.no_assign) refl

pub contents-Calm : (s : State) (i : Inputs) → Calm i → contents (step s i) ≡ contents s
contents-Calm s i c = contents-step s i ∙ written-Calm i (contents s) c

pub NoWrite-Calm : (s : State) (i : Inputs) → Calm i → Front.NoWrite (front_cycle s i)
unfolding front_cycle
NoWrite-Calm s i c = (c.no_entry, c.no_len)

fifo_still :
    (f : ImplicationFifo.State) (i : ImplicationFifo.Inputs)
    → i.push_valid ≡ false
    → i.pop_ready ≡ false
    → ImplicationFifo.step default_fifo_depth f i ≡ f
unfolding ImplicationFifo.step write
fifo_still f i h k = rw (h, k) refl

pub fifo-Calm :
    (s : State) (i : Inputs) → Calm i → answers s i ≡ false → (step s i).impl_fifo ≡ s.impl_fifo
unfolding step fifo_inputs
fifo-Calm s i c h =
    fifo_still s.impl_fifo (fifo_inputs s i) (unfold fifo_inputs in rw h refl) c.no_pop

-- A run that started in `s`, and has answered nothing and lost nothing.
pub record Silent (s t : State) : Type 0 where
  pub running : t.fsm ≡ active
  pub no_conflict : t.conflict_reg ≡ false
  pub no_cid : t.conflict_cid_reg ≡ 0
  pub flows : Flows t 0
  pub mem_kept : contents t ≡ contents s
  pub fifo_kept : t.impl_fifo ≡ s.impl_fifo

no_detect : (s : State) (i : Inputs) → answers s i ≡ false → detect_conflict s ≡ false
unfolding detect_conflict
no_detect s i h = rw h refl

cid_step :
    (s : State) (i : Inputs)
    → s.fsm ≡ active
    → detect_conflict s ≡ false
    → (step s i).conflict_cid_reg ≡ s.conflict_cid_reg
unfolding step fsm_starting
cid_step s i fa nd = ground arith

pub Silent-step :
    (s t : State) (i : Inputs)
    → Calm i
    → answers t i ≡ false
    → drops t i ≡ false
    → ((0 < t.in_flight) ⊎ (t.wlm_done_seen || (mgr_outputs t i).done ≡ false))
    → Silent s t
    → Silent s (step t i)
Silent-step s t i c na nl go u =
    let nd = no_detect t i na in
    let (fa, nc) = still_active t i u.running u.no_conflict nd go in
    record {
      running = fa;
      no_conflict = nc;
      no_cid = cid_step t i u.running nd ∙ u.no_cid;
      flows = subst (λ d. Flows (step t i) (bit d + 0)) nl (step-Flows t i 0 u.running u.flows);
      mem_kept = contents-Calm t i c ∙ u.mem_kept;
      fifo_kept = fifo-Calm t i c na ∙ u.fifo_kept;
    }

start_regs :
    (s : State) (i : Inputs)
    → s.fsm ≡ idle
    → i.start ≡ true
    → ((step s i).fsm ≡ active)
      × ((step s i).conflict_reg ≡ false)
      × ((step s i).conflict_cid_reg ≡ 0)
unfolding step fsm_starting
start_regs s i fi st = ground arith

pub start-Silent :
    (s : State) (i : Inputs)
    → IsDrained s
    → Calm i
    → i.start ≡ true
    → answers s i ≡ false
    → Silent s (step s i)
start-Silent s i d c st na =
    let (fa, nc, cid) = start_regs s i d.waiting st in
    record {
      running = fa;
      no_conflict = nc;
      no_cid = cid;
      flows = start-Flows s i d st;
      mem_kept = contents-Calm s i c;
      fifo_kept = fifo-Calm s i c na;
    }
