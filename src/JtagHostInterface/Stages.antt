-- ===== src/JtagHostInterface/Stages.antt =====
-- jtag_host_interface.py: a word that the chain has latched on its way through the synchroniser and
-- the flags.
use cdcl_sat_solver.Base.{ℕ, ◌<◌, ◌≡◌, refl, ◌∙◌, Bool, true, false, not, arith}
use mathlib.Core.Bool.{xor}
use cdcl_sat_solver.HostInterface.Commands.{
  Command, write_clause, write_wl_entry, write_wl_len, write_assign, bcp_start, opcode, Fits,
}
use cdcl_sat_solver.JtagHostInterface.Protocol.{BcpPorts}
use cdcl_sat_solver.JtagHostInterface.Core.{
  State, Latched, no_flags, is_command, synchronise, process, clear_pulses, step,
}
use cdcl_sat_solver.JtagHostInterface.Requests.{
  request, latch, raise, request-opcode, request-seq, dispatch-request,
}
use cdcl_sat_solver.JtagHostInterface.Kept.{Same, before_fsm, step-Same}

-- Between two words: the synchroniser holds a, b and c, and nothing is pending.
pub record Waiting (s : State) (a b c : Bool) : Type 0 where
  pub sync1 : s.toggle_sync1 ≡ a
  pub sync2 : s.toggle_sync2 ≡ b
  pub prev : s.toggle_prev ≡ c
  pub pending : s.cmd_pending ≡ false
  pub clause_wr : s.flags.clause_wr_pending ≡ false
  pub wl_wr : s.flags.wl_wr_pending ≡ false
  pub wl_len : s.flags.wl_len_pending ≡ false
  pub assign_wr : s.flags.assign_wr_pending ≡ false

xor_self : (b : Bool) → xor b b ≡ false
unfolding xor
xor_self true = refl
xor_self false = refl

xor-not : (b : Bool) → xor (not b) b ≡ true
unfolding xor
xor-not true = refl
xor-not false = refl

before-Waiting :
    (s : State) (rx : ℕ) (tog a b : Bool) → Waiting s a b b → Waiting (before_fsm s rx tog) tog a b
unfolding before_fsm synchronise process clear_pulses
before-Waiting s rx tog a b w = ground (arith, xor_self b)

Waiting-Same : {s t : State} {a b c : Bool} → Same s t → Waiting s a b c → Waiting t a b c
Waiting-Same e w = record {
  sync1 = e.sync1 ∙ w.sync1;
  sync2 = e.sync2 ∙ w.sync2;
  prev = e.prev ∙ w.prev;
  pending = e.pending ∙ w.pending;
  clause_wr = e.clause_wr ∙ w.clause_wr;
  wl_wr = e.wl_wr ∙ w.wl_wr;
  wl_len = e.wl_len ∙ w.wl_len;
  assign_wr = e.assign_wr ∙ w.assign_wr;
}

-- An edge without a new word.
pub step-Waiting :
    (s : State) (rx : ℕ) (tog a b : Bool) (p : BcpPorts)
    → Waiting s a b b
    → Waiting (step s rx tog p) tog a b
step-Waiting s rx tog a b p w = Waiting-Same (step-Same s rx tog p) (before-Waiting s rx tog a b w)

-- A word has been taken over, and is processed at the next edge.
pub record Holding (s : State) (tog : Bool) (rx : ℕ) : Type 0 where
  pub sync1 : s.toggle_sync1 ≡ tog
  pub sync2 : s.toggle_sync2 ≡ tog
  pub prev : s.toggle_prev ≡ tog
  pub pending : s.cmd_pending ≡ true
  pub rx_data : s.rx_data_latched ≡ rx
  pub clause_wr : s.flags.clause_wr_pending ≡ false
  pub wl_wr : s.flags.wl_wr_pending ≡ false
  pub wl_len : s.flags.wl_len_pending ≡ false
  pub assign_wr : s.flags.assign_wr_pending ≡ false

before-Holding :
    (s : State) (rx : ℕ) (t : Bool)
    → Waiting s (not t) (not t) t
    → Holding (before_fsm s rx (not t)) (not t) rx
unfolding before_fsm synchronise process clear_pulses
before-Holding s rx t w = ground (arith, xor-not t)

pub step-Holding :
    (s : State) (rx : ℕ) (t : Bool) (p : BcpPorts)
    → Waiting s (not t) (not t) t
    → Holding (step s rx (not t) p) (not t) rx
step-Holding s rx t p w =
    let e = step-Same s rx (not t) p in
    let h = before-Holding s rx t w in
    record {
      sync1 = e.sync1 ∙ h.sync1;
      sync2 = e.sync2 ∙ h.sync2;
      prev = e.prev ∙ h.prev;
      pending = e.pending ∙ h.pending;
      rx_data = e.rx_data ∙ h.rx_data;
      clause_wr = e.clause_wr ∙ h.clause_wr;
      wl_wr = e.wl_wr ∙ h.wl_wr;
      wl_len = e.wl_len ∙ h.wl_len;
      assign_wr = e.assign_wr ∙ h.assign_wr;
    }

opcode-is_command : (c : Command) → is_command (opcode c) ≡ true
opcode-is_command (write_clause _ _) = refl
opcode-is_command (write_wl_entry _ _ _) = refl
opcode-is_command (write_wl_len _ _) = refl
opcode-is_command (write_assign _ _) = refl
opcode-is_command (bcp_start _) = refl

pub process-request :
    (s t : State) (c : Command) (seq : ℕ)
    → Fits c
    → seq < 256
    → s.cmd_pending ≡ true
    → s.rx_data_latched ≡ request c seq
    → process s t ≡ record t {
      cmd_pending = false;
      latched = latch c t.latched;
      flags = raise c (record t.flags { any_cmd_processed = true });
      ack_seq = seq;
    }
unfolding process
process-request s t c seq f h p e =
    rw (p, e, request-opcode c seq f h, request-seq c seq f h, opcode-is_command c)
      (dispatch-request c seq _ f h)

-- The command is latched, and its flag is raised.
pub record Raised (s : State) (tog : Bool) (c : Command) (seq : ℕ) (l : Latched) : Type 0 where
  pub sync1 : s.toggle_sync1 ≡ tog
  pub sync2 : s.toggle_sync2 ≡ tog
  pub prev : s.toggle_prev ≡ tog
  pub pending : s.cmd_pending ≡ false
  pub latched : s.latched ≡ latch c l
  pub seq_back : s.ack_seq ≡ seq
  pub clause_wr : s.flags.clause_wr_pending ≡ (raise c no_flags).clause_wr_pending
  pub wl_wr : s.flags.wl_wr_pending ≡ (raise c no_flags).wl_wr_pending
  pub wl_len : s.flags.wl_len_pending ≡ (raise c no_flags).wl_len_pending
  pub assign_wr : s.flags.assign_wr_pending ≡ (raise c no_flags).assign_wr_pending

before-Raised :
    (s : State) (rx : ℕ) (tog : Bool) (c : Command) (seq : ℕ)
    → Fits c
    → seq < 256
    → Holding s tog (request c seq)
    → Raised (before_fsm s rx tog) tog c seq s.latched
unfolding before_fsm synchronise clear_pulses
before-Raised s rx tog (write_clause a k) seq f lt h =
    rw (process-request s (synchronise rx tog s) (write_clause a k) seq f lt h.pending h.rx_data)
      (ground (arith, xor_self tog))
before-Raised s rx tog (write_wl_entry a j k) seq f lt h =
    rw
      (process-request s (synchronise rx tog s) (write_wl_entry a j k) seq f lt h.pending h.rx_data)
      (ground (arith, xor_self tog))
before-Raised s rx tog (write_wl_len a k) seq f lt h =
    rw (process-request s (synchronise rx tog s) (write_wl_len a k) seq f lt h.pending h.rx_data)
      (ground (arith, xor_self tog))
before-Raised s rx tog (write_assign a k) seq f lt h =
    rw (process-request s (synchronise rx tog s) (write_assign a k) seq f lt h.pending h.rx_data)
      (ground (arith, xor_self tog))
before-Raised s rx tog (bcp_start a) seq f lt h =
    rw (process-request s (synchronise rx tog s) (bcp_start a) seq f lt h.pending h.rx_data)
      (ground (arith, xor_self tog))

pub step-Raised :
    (s : State) (rx : ℕ) (tog : Bool) (c : Command) (seq : ℕ) (p : BcpPorts)
    → Fits c
    → seq < 256
    → Holding s tog (request c seq)
    → Raised (step s rx tog p) tog c seq s.latched
step-Raised s rx tog c seq p f lt h =
    let e = step-Same s rx tog p in
    let r = before-Raised s rx tog c seq f lt h in
    record {
      sync1 = e.sync1 ∙ r.sync1;
      sync2 = e.sync2 ∙ r.sync2;
      prev = e.prev ∙ r.prev;
      pending = e.pending ∙ r.pending;
      latched = e.latched ∙ r.latched;
      seq_back = e.seq ∙ r.seq_back;
      clause_wr = e.clause_wr ∙ r.clause_wr;
      wl_wr = e.wl_wr ∙ r.wl_wr;
      wl_len = e.wl_len ∙ r.wl_len;
      assign_wr = e.assign_wr ∙ r.assign_wr;
    }

-- A flag lasts for one cycle.
before-cleared :
    (s : State) (rx : ℕ) (tog : Bool) (c : Command) (seq : ℕ) (l : Latched)
    → Raised s tog c seq l
    → Waiting (before_fsm s rx tog) tog tog tog
unfolding before_fsm synchronise process clear_pulses
before-cleared s rx tog c seq l r = ground (arith, xor_self tog)

pub step-cleared :
    (s : State) (rx : ℕ) (tog : Bool) (c : Command) (seq : ℕ) (l : Latched) (p : BcpPorts)
    → Raised s tog c seq l
    → Waiting (step s rx tog p) tog tog tog
step-cleared s rx tog c seq l p r =
    Waiting-Same (step-Same s rx tog p) (before-cleared s rx tog c seq l r)

before-seq :
    (s : State) (rx : ℕ) (tog : Bool)
    → s.cmd_pending ≡ false
    → (before_fsm s rx tog).ack_seq ≡ s.ack_seq
unfolding before_fsm synchronise process clear_pulses
before-seq s rx tog p = ground arith

-- The number that is echoed stays until the next word.
pub step-seq :
    (s : State) (rx : ℕ) (tog : Bool) (c : Command) (seq : ℕ) (l : Latched) (p : BcpPorts)
    → Raised s tog c seq l
    → (step s rx tog p).ack_seq ≡ seq
step-seq s rx tog c seq l p r =
    (step-Same s rx tog p).seq ∙ before-seq s rx tog r.pending ∙ r.seq_back

pub step-seq_waiting :
    (s : State) (rx : ℕ) (tog : Bool) (p : BcpPorts)
    → s.cmd_pending ≡ false
    → (step s rx tog p).ack_seq ≡ s.ack_seq
step-seq_waiting s rx tog p np = (step-Same s rx tog p).seq ∙ before-seq s rx tog np
