-- ===== src/JtagHostInterface/Kept.antt =====
-- jtag_host_interface.py: what the state machine and the LEDs leave alone.
use cdcl_sat_solver.Base.{ℕ, ◌≡◌, ◌∙◌, Bool, arith}
use cdcl_sat_solver.JtagHostInterface.Protocol.{
  Fsm, idle, bcp_wait, impl_check, impl_ready, done_ready, BcpPorts,
}
use cdcl_sat_solver.JtagHostInterface.Core.{
  State, synchronise, process, clear_pulses, fsm_in, hold, step,
}

-- What the state machine and the LEDs leave alone.
pub record Same (s t : State) : Type 0 where
  pub sync1 : t.toggle_sync1 ≡ s.toggle_sync1
  pub sync2 : t.toggle_sync2 ≡ s.toggle_sync2
  pub prev : t.toggle_prev ≡ s.toggle_prev
  pub pending : t.cmd_pending ≡ s.cmd_pending
  pub rx_data : t.rx_data_latched ≡ s.rx_data_latched
  pub latched : t.latched ≡ s.latched
  pub seq : t.ack_seq ≡ s.ack_seq
  pub clause_wr : t.flags.clause_wr_pending ≡ s.flags.clause_wr_pending
  pub wl_wr : t.flags.wl_wr_pending ≡ s.flags.wl_wr_pending
  pub wl_len : t.flags.wl_len_pending ≡ s.flags.wl_len_pending
  pub assign_wr : t.flags.assign_wr_pending ≡ s.flags.assign_wr_pending

fsm_in-Same : (f : Fsm) (s : State) (p : BcpPorts) (t : State) → Same t (fsm_in f s p t)
unfolding fsm_in
fsm_in-Same idle s p t = ground arith
fsm_in-Same bcp_wait s p t = ground arith
fsm_in-Same impl_check s p t = ground arith
fsm_in-Same impl_ready s p t = ground arith
fsm_in-Same done_ready s p t = ground arith

hold-Same : (s t : State) → Same t (hold s t)
unfolding hold
hold-Same s t = ground arith

-- The commands alone.
unfoldable pub before_fsm : State → ℕ → Bool → State
unfolding synchronise process clear_pulses
before_fsm s rx tog = clear_pulses s (process s (synchronise rx tog s))

Same-trans : {s t u : State} → Same s t → Same t u → Same s u
Same-trans a b = record {
  sync1 = b.sync1 ∙ a.sync1;
  sync2 = b.sync2 ∙ a.sync2;
  prev = b.prev ∙ a.prev;
  pending = b.pending ∙ a.pending;
  rx_data = b.rx_data ∙ a.rx_data;
  latched = b.latched ∙ a.latched;
  seq = b.seq ∙ a.seq;
  clause_wr = b.clause_wr ∙ a.clause_wr;
  wl_wr = b.wl_wr ∙ a.wl_wr;
  wl_len = b.wl_len ∙ a.wl_len;
  assign_wr = b.assign_wr ∙ a.assign_wr;
}

pub step-Same :
    (s : State) (rx : ℕ) (tog : Bool) (p : BcpPorts) → Same (before_fsm s rx tog) (step s rx tog p)
unfolding step before_fsm
step-Same s rx tog p = Same-trans (fsm_in-Same s.fsm s p (before_fsm s rx tog)) (hold-Same s _)
