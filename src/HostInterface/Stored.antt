-- ===== src/HostInterface/Stored.antt =====
-- host_interface.py over many cycles: what its write ports do to the memories.
use cdcl_sat_solver.Base.{
  ℕ, ◌≡◌, refl, ap, ap₂, ◌∙◌, sym, false, List, [], ◌∷◌, ◌++◌, length, replicate, arith, inl, inr,
  Bool-cases, zero, suc,
}
use cdcl_sat_solver.HostInterface.{
  State, Inputs, Outputs, cmd_wait, quiet, outputs, step, accept, outputs_in,
}
use cdcl_sat_solver.HostInterface.Receive.{
  bytes, run, trace, run-append, trace-append, bytes-valid, bytes-idle,
}
use cdcl_sat_solver.HostInterface.Commands.{Command, Fits, effect}
use cdcl_sat_solver.BcpAccelerator.Contents.{
  Contents, Writes, writes_of, written, all_written, all_written-append, NoWrites,
  all_written-NoWrites, store, written-effect,
}

-- The write ports in each cycle.
abbrev pub writes_on : List Outputs → List Writes
writes_on [] = []
writes_on (o ∷ os) = (o.clause_wr, o.wl_wr, o.assign_wr) ∷ writes_on os

pub writes_on-append : (xs ys : List Outputs) → writes_on (xs ++ ys) ≡ writes_on xs ++ writes_on ys
writes_on-append [] ys = refl
writes_on-append (x ∷ xs) ys =
    ap (λ ws. (x.clause_wr, x.wl_wr, x.assign_wr) ∷ ws) (writes_on-append xs ys)

pub quiet-NoWrites : (n : ℕ) → NoWrites (writes_on (replicate n quiet))
quiet-NoWrites zero = tt
quiet-NoWrites (suc n) = (refl, quiet-NoWrites n)

-- The memories after the cycles of a run.
abbrev pub after : State → List Inputs → Contents → Contents
after s is m = all_written (writes_on (trace s is)) m

pub after-append :
    (s : State) (is js : List Inputs) (m : Contents)
    → after s (is ++ js) m ≡ after (run s is) js (after s is m)
after-append s is js m =
    ap (λ os. all_written (writes_on os) m) (trace-append s is js)
    ∙ ap (λ ws. all_written ws m) (writes_on-append (trace s is) (trace (run s is) js))
    ∙ all_written-append (writes_on (trace s is)) (writes_on (trace (run s is) js)) m

waits_cycle : (s : State) (i : Inputs) → s.fsm ≡ cmd_wait → i.rx_valid ≡ false → step s i ≡ s
unfolding step accept
waits_cycle s i w v = rw (w, v) refl

quiet_waiting : (s : State) (i : Inputs) → s.fsm ≡ cmd_wait → outputs s i ≡ quiet
unfolding outputs outputs_in
quiet_waiting s i w = rw w refl

-- Cycles without a byte leave an interface that waits alone.
pub waits :
    (s : State) (is : List Inputs)
    → s.fsm ≡ cmd_wait
    → bytes is ≡ []
    → (run s is ≡ s) × (trace s is ≡ replicate (length is) quiet)
unfolding run trace
waits s [] w e = (refl, refl)
waits s (i ∷ is) w e = elim (Bool-cases i.rx_valid) [
  | inl v ↦
      let bad : i.rx_data ∷ bytes is ≡ [] = sym (bytes-valid i is v) ∙ e in
      absurd (omega (arith, ap length bad))
  | inr v ↦
      let stays = waits_cycle s i w v in
      let (r, t) = waits s is w (sym (bytes-idle i is v) ∙ e) in
      (ap (λ u. run u is) stays ∙ r, ap₂ ◌∷◌ (quiet_waiting s i w) (ap (λ u. trace u is) stays ∙ t))
]

-- Cycles without a byte before them change nothing.
pub after_waiting :
    (s : State) (gap is : List Inputs) (m : Contents)
    → s.fsm ≡ cmd_wait
    → bytes gap ≡ []
    → (after s (gap ++ is) m ≡ after s is m) × (run s (gap ++ is) ≡ run s is)
after_waiting s gap is m w e =
    let (r, t) = waits s gap w e in
    (
      after-append s gap is m
          ∙ ap₂ (λ u k. after u is k) r
              (ap (λ os. all_written (writes_on os) m) t
                ∙ all_written-NoWrites (writes_on (replicate (length gap) quiet)) m
                    (quiet-NoWrites (length gap))),
      run-append s gap is ∙ ap (λ u. run u is) r,
    )

quiet_end : (n : ℕ) → NoWrites (writes_on (replicate n quiet ++ quiet ∷ []))
quiet_end zero = (refl, tt)
quiet_end (suc n) = (refl, quiet_end n)

-- What the ports of one command do to the memories.
pub one_effect :
    (n : ℕ) (c : Command) (m : Contents)
    → Fits c
    → all_written (writes_on ((quiet ∷ replicate n quiet ++ quiet ∷ []) ++ effect c ∷ [])) m
      ≡ store c m
unfolding all_written
one_effect n c m f =
    let before = quiet ∷ replicate n quiet ++ quiet ∷ [] in
    ap (λ ws. all_written ws m) (writes_on-append before (effect c ∷ []))
    ∙ all_written-append (writes_on before) (writes_of c ∷ []) m
    ∙ ap (written (writes_of c)) (all_written-NoWrites (writes_on before) m (refl, quiet_end n))
    ∙ written-effect c m f
