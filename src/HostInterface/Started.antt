-- ===== src/HostInterface/Started.antt =====
-- host_interface.py: the start of a run.
use cdcl_sat_solver.Base.{
  ℕ, zero, suc, ◌^◌, ◌<◌, ◌≡◌, refl, ap, ap₂, ◌∙◌, sym, subst, true, false, List, [], ◌∷◌, ◌++◌,
  length, replicate, arith, Bool-cases, inl, inr, if◌then◌else◌, ◌==◌,
}
use cdcl_sat_solver.HostInterface.{
  Fsm, State, Inputs, Outputs, cmd_wait, payload_recv, cmd_exec, bcp_wait, impl_check, impl_send,
  done_send, outputs, outputs_in, step, accept, shift_out, quiet,
}
use cdcl_sat_solver.HostInterface.Receive.{
  bytes, run, trace, run-append, trace-append, bytes-idle, bytes-valid,
}
use cdcl_sat_solver.HostInterface.Commands.{bcp_start, opcode, payload, delivers, effect}
use cdcl_sat_solver.HostInterface.Stored.{waits}
use cdcl_sat_solver.HostInterface.Split.{Spaced}
use cdcl_sat_solver.HostInterface.Located.{locate}

-- The literals of the cycles in which a start is driven.
unfoldable pub started : List Outputs → List ℕ
started [] = []
started (o ∷ os) = if o.bcp_start then o.bcp_false_lit ∷ started os else started os

started-append : (os ps : List Outputs) → started (os ++ ps) ≡ started os ++ started ps
unfolding started
started-append [] ps = refl
started-append (o ∷ os) ps = elim (Bool-cases o.bcp_start) [
  | inl v ↦ rw (v, started-append os ps) refl
  | inr v ↦ rw (v, started-append os ps) refl
]

quiet-started : (n : ℕ) → started (replicate n quiet) ≡ []
unfolding started
quiet-started zero = refl
quiet-started (suc n) = quiet-started n

-- Without bytes the interface stays in these states.
abbrev Reports : Fsm → Type 0
Reports cmd_exec = true ≡ false
Reports payload_recv = true ≡ false
Reports _ = Unit

-- A cycle in one of them, whose input has no byte, drives no start and leads to one of them.
no_start :
    (f : Fsm) (s : State) (i : Inputs)
    → s.fsm ≡ f
    → Reports f
    → i.rx_valid ≡ false
    → ((outputs s i).bcp_start ≡ false) × Reports (step s i).fsm
unfolding outputs outputs_in step accept shift_out
no_start cmd_wait s i e r v = rw (e, v) (refl, tt)
no_start payload_recv s i e r v = let bad : true ≡ false = r in absurd (cc)
no_start cmd_exec s i e r v = let bad : true ≡ false = r in absurd (cc)
no_start bcp_wait s i e r v = elim (Bool-cases i.bcp_done) [
  | inl d ↦ rw (e, d) (refl, tt)
  | inr d ↦ rw (e, d) (refl, tt)
]
no_start impl_check s i e r v = elim (Bool-cases i.impl_valid) [
  | inl d ↦ rw (e, d) (refl, tt)
  | inr d ↦ rw (e, d) (refl, tt)
]
no_start impl_send s i e r v = elim (Bool-cases i.tx_ready) [
  | inl d ↦ elim (Bool-cases (s.tx_count == 1)) [
    | inl z ↦ rw (e, d, z) (refl, tt)
    | inr z ↦ rw (e, d, z) (refl, tt)
  ]
  | inr d ↦ rw (e, d) (refl, tt)
]
no_start done_send s i e r v = elim (Bool-cases i.tx_ready) [
  | inl d ↦ elim (Bool-cases (s.tx_count == 1)) [
    | inl z ↦ rw (e, d, z) (refl, tt)
    | inr z ↦ rw (e, d, z) (refl, tt)
  ]
  | inr d ↦ rw (e, d) (refl, tt)
]

none_started :
    (s : State) (is : List Inputs) → Reports s.fsm → bytes is ≡ [] → started (trace s is) ≡ []
unfolding started trace
none_started s [] r e = refl
none_started s (i ∷ is) r e = elim (Bool-cases i.rx_valid) [
  | inl v ↦
      let bad : i.rx_data ∷ bytes is ≡ [] = sym (bytes-valid i is v) ∙ e in
      absurd (omega (arith, ap length bad))
  | inr v ↦
      let (o, t) = no_start s.fsm s i refl r v in
      rw o (none_started (step s i) is t (sym (bytes-idle i is v) ∙ e))
]

one_start :
    (lit n : ℕ)
    → started ((quiet ∷ replicate n quiet ++ quiet ∷ []) ++ effect (bcp_start lit) ∷ []) ≡ lit ∷ []
unfolding started
one_start lit n =
    started-append (quiet ∷ replicate n quiet ++ quiet ∷ []) (effect (bcp_start lit) ∷ [])
    ∙ ap (λ bs. bs ++ lit ∷ [])
        (started-append (quiet ∷ replicate n quiet) (quiet ∷ [])
          ∙ ap (λ bs. bs ++ []) (quiet-started (suc n)))

-- A start that arrives at an interface that waits for a command, never two of its bytes in a row of
-- cycles, is driven in one cycle, with its literal, whatever comes meanwhile on the other ports.
pub starts_once :
    (s : State) (lit : ℕ) (is : List Inputs)
    → lit < 2 ^ 10
    → s.fsm ≡ cmd_wait
    → Spaced is
    → bytes is ≡ opcode (bcp_start lit) ∷ payload (bcp_start lit)
    → started (trace s is) ≡ lit ∷ []
starts_once s lit is f w sp e =
    let l = locate (bcp_start lit) [] is sp e in
    let cycles = (l.head ∷ l.mid ++ l.last ∷ []) ++ l.ex ∷ [] in
    let (stays, still) = waits s l.gap w l.silent in
    let (shown, ends) =
      delivers s (bcp_start lit) l.head l.mid l.last l.ex f w l.head_valid l.head_data l.last_valid
        l.filled in
    let there : run s (l.gap ++ cycles) ≡ run s cycles =
      run-append s l.gap cycles ∙ ap (λ u. run u cycles) stays in
    let rests : Reports (run s (l.gap ++ cycles)).fsm =
      subst Reports (sym (ap (λ u. u.fsm) there ∙ ends)) tt in
    let once : started (trace s (l.gap ++ cycles)) ≡ lit ∷ [] =
      ap started (trace-append s l.gap cycles)
      ∙ started-append (trace s l.gap) (trace (run s l.gap) cycles)
      ∙ ap₂ ◌++◌ (ap started still ∙ quiet-started (length l.gap))
          (ap started (ap (λ u. trace u cycles) stays ∙ shown) ∙ one_start lit (length l.mid)) in
    ap (λ r. started (trace s r)) l.whole
    ∙ ap started (trace-append s (l.gap ++ cycles) l.rest)
    ∙ started-append (trace s (l.gap ++ cycles)) (trace (run s (l.gap ++ cycles)) l.rest)
    ∙ ap₂ ◌++◌ once (none_started (run s (l.gap ++ cycles)) l.rest rests l.more)
