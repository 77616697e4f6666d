-- ===== src/JtagHostInterface/Start.antt =====
-- jtag_host_interface.py: a request for a run starts the accelerator.
use cdcl_sat_solver.Base.{
  ℕ, ◌<◌, ◌≡◌, refl, ap, ap₂, ◌∙◌, Bool, true, false, not, List, [], ◌∷◌, arith,
}
use cdcl_sat_solver.HostInterface.Commands.{bcp_start, Fits}
use cdcl_sat_solver.JtagHostInterface.Protocol.{
  Fsm, idle, bcp_wait, impl_check, impl_ready, done_ready, BcpPorts, Outputs,
}
use cdcl_sat_solver.JtagHostInterface.Core.{
  State, synchronise, process, clear_pulses, fsm_in, hold, step, outputs, starts,
}
use cdcl_sat_solver.JtagHostInterface.Requests.{request}
use cdcl_sat_solver.JtagHostInterface.Stages.{
  Waiting, step-Waiting, Holding, step-Holding, step-Raised, process-request,
}
use cdcl_sat_solver.JtagHostInterface.Kept.{before_fsm}
use cdcl_sat_solver.JtagHostInterface.Delivery.{core_run}

-- In IDLE or DONE_READY, with no start asked for and no command just processed.
pub record Parked (s : State) : Type 0 where
  pub parked : starts s.fsm ≡ true
  pub not_asked : s.flags.bcp_start_pending ≡ false
  pub not_processed : s.flags.any_cmd_processed ≡ false

-- What the accelerator is asked for in a cycle.
abbrev pub start_ports : Outputs → Bool × ℕ
start_ports o = (o.bcp_start, o.bcp_false_lit)

unfoldable pub starts_over : State → ℕ → Bool → List BcpPorts → List (Bool × ℕ)
starts_over s rx tog [] = []
starts_over s rx tog (p ∷ ps) = start_ports (outputs s) ∷ starts_over (step s rx tog p) rx tog ps

hold-fsm : (s t : State) → ((hold s t).fsm ≡ t.fsm) × ((hold s t).flags ≡ t.flags)
unfolding hold
hold-fsm s t = ground arith

-- A cycle in which no command is processed.
fsm_in-Parked :
    (f : Fsm) (s : State) (p : BcpPorts) (t : State)
    → starts f ≡ true
    → s.flags.bcp_start_pending ≡ false
    → s.flags.any_cmd_processed ≡ false
    → t.fsm ≡ f
    → ((fsm_in f s p t).fsm ≡ f) × ((fsm_in f s p t).flags ≡ t.flags)
unfolding fsm_in
fsm_in-Parked idle s p t st b n e = rw b (e, refl)
fsm_in-Parked bcp_wait s p t st b n e = cc
fsm_in-Parked impl_check s p t st b n e = cc
fsm_in-Parked impl_ready s p t st b n e = cc
fsm_in-Parked done_ready s p t st b n e = rw (b, n) (e, refl)

before-idle :
    (s : State) (rx : ℕ) (tog : Bool)
    → s.cmd_pending ≡ false
    → ((before_fsm s rx tog).fsm ≡ s.fsm)
      × ((before_fsm s rx tog).flags.bcp_start_pending ≡ s.flags.bcp_start_pending)
      × ((before_fsm s rx tog).flags.any_cmd_processed ≡ false)
unfolding before_fsm synchronise process clear_pulses
before-idle s rx tog p = rw p (refl, refl, refl)

step-Parked :
    (s : State) (rx : ℕ) (tog : Bool) (p : BcpPorts)
    → s.cmd_pending ≡ false
    → Parked s
    → Parked (step s rx tog p)
unfolding step before_fsm
step-Parked s rx tog p np k =
    let t = before_fsm s rx tog in
    let h = hold-fsm s (fsm_in s.fsm s p t) in
    let b = before-idle s rx tog np in
    let f = fsm_in-Parked s.fsm s p t k.parked k.not_asked k.not_processed b.0 in
    record {
      parked = ap starts (h.0 ∙ f.0) ∙ k.parked;
      not_asked = ap (λ g. g.bcp_start_pending) (h.1 ∙ f.1) ∙ b.1 ∙ k.not_asked;
      not_processed = ap (λ g. g.any_cmd_processed) (h.1 ∙ f.1) ∙ b.2;
    }

before-asked :
    (s : State) (rx : ℕ) (tog : Bool) (lit seq : ℕ)
    → Fits (bcp_start lit)
    → seq < 256
    → Holding s tog (request (bcp_start lit) seq)
    → ((before_fsm s rx tog).fsm ≡ s.fsm) × ((before_fsm s rx tog).flags.bcp_start_pending ≡ true)
unfolding before_fsm synchronise clear_pulses
before-asked s rx tog lit seq f h k =
    rw (process-request s (synchronise rx tog s) (bcp_start lit) seq f h k.pending k.rx_data)
      (refl, refl)

step-asked :
    (s : State) (rx : ℕ) (tog : Bool) (lit seq : ℕ) (p : BcpPorts)
    → Fits (bcp_start lit)
    → seq < 256
    → Holding s tog (request (bcp_start lit) seq)
    → Parked s
    → (starts (step s rx tog p).fsm ≡ true) × ((step s rx tog p).flags.bcp_start_pending ≡ true)
unfolding step before_fsm
step-asked s rx tog lit seq p fi lt h k =
    let t = before_fsm s rx tog in
    let e = hold-fsm s (fsm_in s.fsm s p t) in
    let b = before-asked s rx tog lit seq fi lt h in
    let f = fsm_in-Parked s.fsm s p t k.parked k.not_asked k.not_processed b.0 in
    (ap starts (e.0 ∙ f.0) ∙ k.parked, ap (λ g. g.bcp_start_pending) (e.1 ∙ f.1) ∙ b.1)

fsm_in-starts :
    (f : Fsm) (s : State) (p : BcpPorts) (t : State)
    → starts f ≡ true
    → s.flags.bcp_start_pending ≡ true
    → ((fsm_in f s p t).fsm ≡ bcp_wait) × ((fsm_in f s p t).flags.bcp_start_pending ≡ false)
unfolding fsm_in
fsm_in-starts idle s p t st b = rw b (refl, refl)
fsm_in-starts bcp_wait s p t st b = cc
fsm_in-starts impl_check s p t st b = cc
fsm_in-starts impl_ready s p t st b = cc
fsm_in-starts done_ready s p t st b = rw b (refl, refl)

step-starts :
    (s : State) (rx : ℕ) (tog : Bool) (p : BcpPorts)
    → starts s.fsm ≡ true
    → s.flags.bcp_start_pending ≡ true
    → ((step s rx tog p).fsm ≡ bcp_wait) × ((step s rx tog p).flags.bcp_start_pending ≡ false)
unfolding step
step-starts s rx tog p st b =
    let t = clear_pulses s (process s (synchronise rx tog s)) in
    let h = hold-fsm s (fsm_in s.fsm s p t) in
    let f = fsm_in-starts s.fsm s p t st b in (h.0 ∙ f.0, ap (λ g. g.bcp_start_pending) h.1 ∙ f.1)

Parked-outputs : (s : State) → Parked s → start_ports (outputs s) ≡ (false, 0)
unfolding outputs
Parked-outputs s k = rw (k.parked, k.not_asked) refl

starting-outputs :
    (s : State) (lit : ℕ)
    → starts s.fsm ≡ true
    → s.flags.bcp_start_pending ≡ true
    → s.latched.bcp_false_lit_r ≡ lit
    → start_ports (outputs s) ≡ (true, lit)
unfolding outputs
starting-outputs s lit st b l = rw (st, b, l) refl

-- A request for a run, in IDLE or DONE_READY, starts the accelerator on its literal for one cycle,
-- the fifth from the new word, and not before; the interface then waits for the end of the run,
-- with no other start pending.
pub start_reaches :
    (s : State) (t : Bool) (lit seq : ℕ) (p1 p2 p3 p4 p5 : BcpPorts)
    → Fits (bcp_start lit)
    → seq < 256
    → Waiting s t t t
    → Parked s
    → let rx = request (bcp_start lit) seq in
      let after = core_run s rx (not t) (p1 ∷ p2 ∷ p3 ∷ p4 ∷ p5 ∷ []) in
      (starts_over s rx (not t) (p1 ∷ p2 ∷ p3 ∷ p4 ∷ p5 ∷ [])
        ≡ (false, 0) ∷ (false, 0) ∷ (false, 0) ∷ (false, 0) ∷ (true, lit) ∷ [])
      × (after.fsm ≡ bcp_wait)
      × (after.flags.bcp_start_pending ≡ false)
unfolding starts_over core_run
start_reaches s t lit seq p1 p2 p3 p4 p5 f h w0 k0 =
    let rx = request (bcp_start lit) seq in
    let n = not t in
    let s1 = step s rx n p1 in
    let s2 = step s1 rx n p2 in
    let s3 = step s2 rx n p3 in
    let s4 = step s3 rx n p4 in
    let w1 = step-Waiting s rx n t t p1 w0 in
    let w2 = step-Waiting s1 rx n n t p2 w1 in
    let w3 = step-Holding s2 rx t p3 w2 in
    let w4 = step-Raised s3 rx n (bcp_start lit) seq p4 f h w3 in
    let k1 = step-Parked s rx n p1 w0.pending k0 in
    let k2 = step-Parked s1 rx n p2 w1.pending k1 in
    let k3 = step-Parked s2 rx n p3 w2.pending k2 in
    let a = step-asked s3 rx n lit seq p4 f h w3 k3 in
    let e = step-starts s4 rx n p5 a.0 a.1 in
    (
      ap₂ ◌∷◌ (Parked-outputs s k0) (
          ap₂ ◌∷◌ (Parked-outputs s1 k1) (
            ap₂ ◌∷◌ (Parked-outputs s2 k2) (
              ap₂ ◌∷◌ (Parked-outputs s3 k3) (
                ap (λ o. o ∷ [])
                  (starting-outputs s4 lit a.0 a.1 (ap (λ l. l.bcp_false_lit_r) w4.latched)))))),
      e.0,
      e.1,
    )
