-- ===== src/JtagHostInterface/Life.antt =====
-- jtag_host_interface.py: the life of a run, from its start to its result.
use cdcl_sat_solver.Base.{
  ℕ, ◌+◌, ◌≡◌, refl, ◌∙◌, sym, subst, Bool, true, false, List, [], ◌∷◌, arith, bit, slice,
  Bool-cases, inl, inr,
}
use cdcl_sat_solver.ImplicationFifo.{Entry}
use cdcl_sat_solver.JtagHostInterface.Protocol.{impl_check, impl_ready, BcpPorts}
use cdcl_sat_solver.JtagHostInterface.Core.{
  State, synchronise, dispatch, process, clear_pulses, fsm_in, hold, step, outputs, cmd_byte,
}

-- The fields of a response.
abbrev pub status : ℕ → ℕ
status w = slice 120 8 w

abbrev pub var : ℕ → ℕ
var w = slice 104 16 w

abbrev pub val : ℕ → ℕ
val w = slice 96 8 w

abbrev pub reason : ℕ → ℕ
reason w = slice 80 16 w

abbrev pub ack_of : ℕ → ℕ
ack_of w = slice 0 8 w

-- A cycle of `sync`: what the port holds, and what the accelerator shows.
pub record Cycle : Type 0 where
  pub jtag_rx : ℕ
  pub jtag_rx_toggle : Bool
  pub bcp : BcpPorts

abbrev pub next : State → Cycle → State
next s c = step s c.jtag_rx c.jtag_rx_toggle c.bcp

unfoldable pub run : State → List Cycle → State
run s [] = s
run s (c ∷ cs) = run (next s c) cs

-- How often the accelerator is told to pop an implication.
unfoldable pub pops : State → List Cycle → ℕ
pops s [] = 0
pops s (c ∷ cs) = bit (outputs s).impl_ready + pops (next s c) cs

-- In each cycle no acknowledgement is pending, and no command has just been processed.
abbrev pub Unanswered : State → List Cycle → Type 0
Unanswered s [] = Unit
Unanswered s (c ∷ cs) =
    (s.flags.ack_impl_pending ≡ false)
    × (s.flags.any_cmd_processed ≡ false)
    × Unanswered (next s c) cs

-- An implication is in the response.
pub record Showing (s : State) (e : Entry) : Type 0 where
  pub fsm : s.fsm ≡ impl_ready
  pub var_reg : s.rsp_var ≡ e.var
  pub val_reg : s.rsp_val ≡ bit e.value
  pub reason_reg : s.rsp_reason_id ≡ e.reason

-- What the processing of commands leaves alone.
record Untouched (s t : State) : Type 0 where
  var_reg : t.rsp_var ≡ s.rsp_var
  val_reg : t.rsp_val ≡ s.rsp_val
  reason_reg : t.rsp_reason_id ≡ s.rsp_reason_id
  fsm : t.fsm ≡ s.fsm

dispatch-Untouched : (c rx : ℕ) (t : State) → Untouched t (dispatch c rx t)
unfolding dispatch
dispatch-Untouched c rx t = ground arith

process-Untouched : (s t : State) → Untouched t (process s t)
unfolding process
process-Untouched s t = elim (Bool-cases s.cmd_pending) [
  | inl p ↦
      let d = dispatch-Untouched (cmd_byte s) s.rx_data_latched _ in
      rw p (record {
        var_reg = d.var_reg;
        val_reg = d.val_reg;
        reason_reg = d.reason_reg;
        fsm = d.fsm;
      })
  | inr p ↦ rw p (record { var_reg = refl; val_reg = refl; reason_reg = refl; fsm = refl })
]

unfoldable pub before_fsm : State → Cycle → State
unfolding clear_pulses process synchronise
before_fsm s c = clear_pulses s (process s (synchronise c.jtag_rx c.jtag_rx_toggle s))

before-Untouched : (s : State) (c : Cycle) → Untouched s (before_fsm s c)
unfolding before_fsm clear_pulses synchronise
before-Untouched s c =
    let d = process-Untouched s (synchronise c.jtag_rx c.jtag_rx_toggle s) in
    record { var_reg = d.var_reg; val_reg = d.val_reg; reason_reg = d.reason_reg; fsm = d.fsm }

hold-Untouched : (s t : State) → Untouched t (hold s t)
unfolding hold
hold-Untouched s t = ground arith

shows_fsm :
    (s t : State) (p : BcpPorts) → p.impl_valid ≡ true → Showing (fsm_in impl_check s p t) p.impl
unfolding fsm_in
shows_fsm s t p v = rw v (record { fsm = refl; var_reg = refl; val_reg = refl; reason_reg = refl })

Showing-Untouched : {s t : State} {e : Entry} → Untouched s t → Showing s e → Showing t e
Showing-Untouched u h = record {
  fsm = u.fsm ∙ h.fsm;
  var_reg = u.var_reg ∙ h.var_reg;
  val_reg = u.val_reg ∙ h.val_reg;
  reason_reg = u.reason_reg ∙ h.reason_reg;
}

next-parts : (s : State) (c : Cycle) → Untouched (fsm_in s.fsm s c.bcp (before_fsm s c)) (next s c)
unfolding step before_fsm
next-parts s c = hold-Untouched s _

pub shows :
    (s : State) (c : Cycle)
    → s.fsm ≡ impl_check
    → c.bcp.impl_valid ≡ true
    → Showing (next s c) c.bcp.impl
shows s c f v = Showing-Untouched (next-parts s c) (
    subst (λ q. Showing (fsm_in q s c.bcp (before_fsm s c)) c.bcp.impl) (sym f)
      (shows_fsm s (before_fsm s c) c.bcp v))

keeps_fsm :
    (s t : State) (p : BcpPorts) (e : Entry)
    → s.flags.ack_impl_pending ≡ false
    → s.flags.any_cmd_processed ≡ false
    → Showing t e
    → Showing (fsm_in impl_ready s p t) e
unfolding fsm_in
keeps_fsm s t p e a n h =
    rw (a, n)
      (record { fsm = h.fsm; var_reg = h.var_reg; val_reg = h.val_reg; reason_reg = h.reason_reg })

pub keeps :
    (s : State) (c : Cycle) (e : Entry)
    → s.flags.ack_impl_pending ≡ false
    → s.flags.any_cmd_processed ≡ false
    → Showing s e
    → Showing (next s c) e
keeps s c e a n h = Showing-Untouched (next-parts s c) (
    subst (λ q. Showing (fsm_in q s c.bcp (before_fsm s c)) e) (sym h.fsm)
      (keeps_fsm s (before_fsm s c) c.bcp e a n (Showing-Untouched (before-Untouched s c) h)))

pub no_pop_unanswered :
    (s : State) (e : Entry)
    → Showing s e
    → s.flags.ack_impl_pending ≡ false
    → (outputs s).impl_ready ≡ false
unfolding outputs
no_pop_unanswered s e h a = rw (h.fsm, a) refl

pub waits :
    (cs : List Cycle) (s : State) (e : Entry)
    → Showing s e
    → Unanswered s cs
    → Showing (run s cs) e × (pops s cs ≡ 0)
unfolding run pops
waits [] s e h u = (h, refl)
waits (c ∷ cs) s e h u =
    let r = waits cs (next s c) e (keeps s c e u.0 u.1 h) u.2 in
    (r.0, rw (no_pop_unanswered s e h u.0) (omega (arith, r.1)))
