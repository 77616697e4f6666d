-- ===== src/JtagHostInterface/Answers.antt =====
-- jtag_host_interface.py: acknowledgements of implications, in time and too early.
use cdcl_sat_solver.Base.{
  ℕ, ◌<◌, ◌^◌, ◌≡◌, refl, ap, ◌∙◌, true, false, List, [], ◌∷◌, arith, bit, bit-lt-two, Bool-cases,
  inl, inr,
}
use cdcl_sat_solver.ImplicationFifo.{Entry}
use cdcl_sat_solver.JtagHostInterface.Protocol.{
  Fsm, idle, bcp_wait, impl_check, impl_ready, done_ready, BcpPorts, rsp_implication,
}
use cdcl_sat_solver.JtagHostInterface.Core.{
  State, jtag_data, synchronise, dispatch, process, clear_pulses, fsm_in, hold, step, outputs,
  cmd_byte, is_impl_ready,
}
use cdcl_sat_solver.JtagHostInterface.Life.{
  Cycle, next, run, pops, Unanswered, Showing, shows, keeps, waits, status, var, val, reason,
  before_fsm,
}

-- The response word shows an implication.
abbrev pub IsResponse : Entry → State → Type 0
IsResponse e s =
    (status (jtag_data s) ≡ rsp_implication)
    × (var (jtag_data s) ≡ e.var)
    × (val (jtag_data s) ≡ bit e.value)
    × (reason (jtag_data s) ≡ e.reason)

-- It does in each cycle, and after them.
abbrev pub AlwaysResponse : Entry → State → List Cycle → Type 0
AlwaysResponse e s [] = IsResponse e s
AlwaysResponse e s (c ∷ cs) = IsResponse e s × AlwaysResponse e (next s c) cs

response :
    (s : State) (e : Entry)
    → Showing s e
    → s.ack_seq < 2 ^ 8
    → e.var < 2 ^ 9
    → e.reason < 2 ^ 13
    → IsResponse e s
unfolding jtag_data
response s e h a v r =
    rw (h.fsm, h.var_reg, h.val_reg, h.reason_reg) (omega (arith, bit-lt-two e.value))

-- The acknowledged number keeps its 8 bits.
dispatch-ack_seq : (c rx : ℕ) (t : State) → (dispatch c rx t).ack_seq ≡ t.ack_seq
unfolding dispatch
dispatch-ack_seq c rx t = ground arith

process-ack_seq : (s t : State) → t.ack_seq < 2 ^ 8 → (process s t).ack_seq < 2 ^ 8
unfolding process
process-ack_seq s t h = elim (Bool-cases s.cmd_pending) [
  | inl p ↦ rw (p, dispatch-ack_seq (cmd_byte s) s.rx_data_latched _) (ground arith)
  | inr p ↦ rw p h
]

fsm_in-ack_seq :
    (f : Fsm) (s : State) (p : BcpPorts) (t : State) → (fsm_in f s p t).ack_seq ≡ t.ack_seq
unfolding fsm_in
fsm_in-ack_seq idle s p t = ground arith
fsm_in-ack_seq bcp_wait s p t = ground arith
fsm_in-ack_seq impl_check s p t = ground arith
fsm_in-ack_seq impl_ready s p t = ground arith
fsm_in-ack_seq done_ready s p t = ground arith

hold-ack_seq : (s t : State) → (hold s t).ack_seq ≡ t.ack_seq
unfolding hold
hold-ack_seq s t = ground arith

next-ack_seq : (s : State) (c : Cycle) → s.ack_seq < 2 ^ 8 → (next s c).ack_seq < 2 ^ 8
unfolding step clear_pulses synchronise
next-ack_seq s c h =
    let u = process s (synchronise c.jtag_rx c.jtag_rx_toggle s) in
    let t = clear_pulses s u in
    omega (
      arith,
      hold-ack_seq s (fsm_in s.fsm s c.bcp t),
      fsm_in-ack_seq s.fsm s c.bcp t,
      process-ack_seq s (synchronise c.jtag_rx c.jtag_rx_toggle s) h,
    )

always_shown :
    (cs : List Cycle) (s : State) (e : Entry)
    → Showing s e
    → s.ack_seq < 2 ^ 8
    → e.var < 2 ^ 9
    → e.reason < 2 ^ 13
    → Unanswered s cs
    → AlwaysResponse e s cs
always_shown [] s e h q v r u = response s e h q v r
always_shown (c ∷ cs) s e h q v r u = (
  response s e h q v r,
  always_shown cs (next s c) e (keeps s c e u.0 u.1 h) (next-ack_seq s c q) v r u.2,
)

answered_fsm :
    (s t : State) (p : BcpPorts)
    → s.flags.ack_impl_pending ≡ true
    → ((fsm_in impl_ready s p t).fsm ≡ impl_check)
      × ((fsm_in impl_ready s p t).flags.ack_impl_pending ≡ false)
unfolding fsm_in
answered_fsm s t p a = rw a (refl, refl)

hold-answered : (s t : State) → ((hold s t).fsm ≡ t.fsm) × ((hold s t).flags ≡ t.flags)
unfolding hold
hold-answered s t = ground arith

answered :
    (s : State) (c : Cycle)
    → s.fsm ≡ impl_ready
    → s.flags.ack_impl_pending ≡ true
    → ((next s c).fsm ≡ impl_check) × ((next s c).flags.ack_impl_pending ≡ false)
unfolding step before_fsm
answered s c f a =
    let t = before_fsm s c in
    let h = hold-answered s (fsm_in s.fsm s c.bcp t) in
    let r = answered_fsm s t c.bcp a in
    (
      h.0 ∙ ap (λ q. (fsm_in q s c.bcp t).fsm) f ∙ r.0,
      ap (λ g. g.ack_impl_pending) h.1
          ∙ ap (λ q. (fsm_in q s c.bcp t).flags.ack_impl_pending) f
          ∙ r.1,
    )

pops_answered :
    (s : State)
    → s.fsm ≡ impl_ready
    → s.flags.ack_impl_pending ≡ true
    → (outputs s).impl_ready ≡ true
unfolding outputs
pops_answered s f a = rw (f, a) refl

pops_elsewhere : (s : State) → is_impl_ready s.fsm ≡ false → (outputs s).impl_ready ≡ false
unfolding outputs
pops_elsewhere s f = rw f refl

-- An implication that IMPL_CHECK finds is in the response in every cycle from the next one on up to the
-- one that sees the acknowledgement pending, as long as no other command is processed: its status,
-- variable, value and reason. It is popped in that last cycle, and not before, and the next
-- implication is looked for, with no acknowledgement left over.
pub shown_until_answered :
    (s : State) (c : Cycle) (cs : List Cycle) (k : Cycle)
    → s.fsm ≡ impl_check
    → s.ack_seq < 2 ^ 8
    → c.bcp.impl_valid ≡ true
    → c.bcp.impl.var < 2 ^ 9
    → c.bcp.impl.reason < 2 ^ 13
    → Unanswered (next s c) cs
    → (run (next s c) cs).flags.ack_impl_pending ≡ true
    → let t = run (next s c) cs in
      AlwaysResponse c.bcp.impl (next s c) cs
      × (pops s (c ∷ cs) ≡ 0)
      × (pops t (k ∷ []) ≡ 1)
      × ((next t k).fsm ≡ impl_check)
      × ((next t k).flags.ack_impl_pending ≡ false)
unfolding pops
shown_until_answered s c cs k f q v lv lr un a =
    let e = c.bcp.impl in
    let t = run (next s c) cs in
    let shown = shows s c f v in
    let w = waits cs (next s c) e shown un in
    let r = answered t k w.0.fsm a in
    (
      always_shown cs (next s c) e shown (next-ack_seq s c q) lv lr un,
      rw (pops_elsewhere s (ap is_impl_ready f)) (omega (arith, w.1)),
      rw (pops_answered t w.0.fsm a) (omega arith),
      r.0,
      r.1,
    )

-- The state machine is elsewhere than in IMPL_READY in each cycle.
abbrev pub Elsewhere : State → List Cycle → Type 0
Elsewhere s [] = Unit
Elsewhere s (c ∷ cs) = (is_impl_ready s.fsm ≡ false) × Elsewhere (next s c) cs

dispatch-keeps_ack :
    (c rx : ℕ) (t : State)
    → t.flags.ack_impl_pending ≡ true
    → (dispatch c rx t).flags.ack_impl_pending ≡ true
unfolding dispatch
dispatch-keeps_ack c rx t a = ground arith

process-keeps_ack :
    (s t : State) → t.flags.ack_impl_pending ≡ true → (process s t).flags.ack_impl_pending ≡ true
unfolding process
process-keeps_ack s t a = elim (Bool-cases s.cmd_pending) [
  | inl p ↦ rw p (dispatch-keeps_ack (cmd_byte s) s.rx_data_latched _ a)
  | inr p ↦ rw p a
]

fsm_in-keeps_ack :
    (f : Fsm) (s : State) (p : BcpPorts) (t : State)
    → is_impl_ready f ≡ false
    → t.flags.ack_impl_pending ≡ true
    → (fsm_in f s p t).flags.ack_impl_pending ≡ true
unfolding fsm_in
fsm_in-keeps_ack idle s p t f a = ground arith
fsm_in-keeps_ack bcp_wait s p t f a = ground arith
fsm_in-keeps_ack impl_check s p t f a = ground arith
fsm_in-keeps_ack impl_ready s p t f a = cc
fsm_in-keeps_ack done_ready s p t f a = ground arith

next-keeps_ack :
    (s : State) (c : Cycle)
    → is_impl_ready s.fsm ≡ false
    → s.flags.ack_impl_pending ≡ true
    → (next s c).flags.ack_impl_pending ≡ true
unfolding step clear_pulses synchronise
next-keeps_ack s c f a =
    let t = clear_pulses s (process s (synchronise c.jtag_rx c.jtag_rx_toggle s)) in
    ap (λ g. g.ack_impl_pending) (hold-answered s (fsm_in s.fsm s c.bcp t)).1
    ∙ fsm_in-keeps_ack s.fsm s c.bcp t f
        (process-keeps_ack s (synchronise c.jtag_rx c.jtag_rx_toggle s) a)

run-keeps_ack :
    (cs : List Cycle) (s : State)
    → Elsewhere s cs
    → s.flags.ack_impl_pending ≡ true
    → (run s cs).flags.ack_impl_pending ≡ true
unfolding run
run-keeps_ack [] s el a = a
run-keeps_ack (c ∷ cs) s el a = run-keeps_ack cs (next s c) el.1 (next-keeps_ack s c el.0 a)

-- An acknowledgement that is pending outside IMPL_READY stays pending, however long, and pops the
-- next implication that IMPL_CHECK finds in the first cycle in which it is shown.
pub early_answer_pops :
    (s : State) (cs : List Cycle) (c k : Cycle)
    → s.flags.ack_impl_pending ≡ true
    → Elsewhere s cs
    → (run s cs).fsm ≡ impl_check
    → c.bcp.impl_valid ≡ true
    → let t = next (run s cs) c in
      Showing t c.bcp.impl × (pops t (k ∷ []) ≡ 1) × ((next t k).fsm ≡ impl_check)
unfolding pops
early_answer_pops s cs c k a el f v =
    let t = next (run s cs) c in
    let h = shows (run s cs) c f v in
    let ack = next-keeps_ack (run s cs) c (ap is_impl_ready f) (run-keeps_ack cs s el a) in
    (h, rw (pops_answered t h.fsm ack) (omega arith), (answered t k h.fsm ack).0)
