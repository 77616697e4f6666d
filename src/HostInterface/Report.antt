-- ===== src/HostInterface/Report.antt =====
-- host_interface.py: the whole report of a run, from IMPL_CHECK to CMD_WAIT.
use cdcl_sat_solver.Base.{
  ℕ, ◌+◌, ◌^◌, ◌<◌, ◌≡◌, refl, ap, ap₂, ◌∙◌, sym, subst, Bool, true, false, ◌&&◌, if◌then◌else◌,
  List, [], ◌∷◌, ◌++◌, length, arith,
}
use cdcl_sat_solver.HostInterface.{State, Inputs, cmd_wait, impl_check, outputs, step}
use cdcl_sat_solver.HostInterface.Receive.{run, run-append}
use cdcl_sat_solver.HostInterface.Send.{sent, pops, ready_cycles}
use cdcl_sat_solver.HostInterface.Packets.{
  implication_bytes, done_bytes, reports_implication, reports_end,
}

-- The cycles of one packet: the one in IMPL_CHECK, which shows the head of the FIFO, those in which
-- bytes go out, and the one that takes the last byte.
pub record Packet : Type 0 where
  pub shown : Inputs
  pub during : List Inputs
  pub last : Inputs

abbrev pub cycles : Packet → List Inputs
cycles p = p.shown ∷ p.during ++ p.last ∷ []

abbrev pub all_cycles : List Packet → Packet → List Inputs
all_cycles [] end = cycles end
all_cycles (p ∷ ps) end = cycles p ++ all_cycles ps end

-- The FIFO shows an implication, and the transmitter takes six bytes.
abbrev pub Implications : List Packet → Type 0
Implications [] = Unit
Implications (p ∷ ps) =
    (p.shown.impl_valid ≡ true)
    × (p.shown.impl.var < 2 ^ 9)
    × (p.shown.impl.reason < 2 ^ 13)
    × (ready_cycles p.during ≡ 5)
    × (p.last.tx_ready ≡ true)
    × Implications ps

abbrev pub report_bytes : List Packet → List ℕ → List ℕ
report_bytes [] end = end
report_bytes (p ∷ ps) end = implication_bytes p.shown.impl ++ report_bytes ps end

if_append :
    (c : Bool) (x : ℕ) (r q : List ℕ)
    → (if c then x ∷ r ++ q else r ++ q) ≡ (if c then x ∷ r else r) ++ q
if_append true x r q = refl
if_append false x r q = refl

sent-append :
    (s : State) (xs ys : List Inputs) → sent s (xs ++ ys) ≡ sent s xs ++ sent (run s xs) ys
unfolding sent run
sent-append s [] ys = refl
sent-append s (x ∷ xs) ys =
    let c = (outputs s x).tx_valid && x.tx_ready in
    let b = (outputs s x).tx_data in
    ap (λ r. if c then b ∷ r else r) (sent-append (step s x) xs ys)
    ∙ if_append c b (sent (step s x) xs) (sent (run (step s x) xs) ys)

pops-append : (s : State) (xs ys : List Inputs) → pops s (xs ++ ys) ≡ pops s xs + pops (run s xs) ys
unfolding pops run
pops-append s [] ys = omega arith
pops-append s (x ∷ xs) ys = omega (arith, pops-append (step s x) xs ys)

-- From IMPL_CHECK, as the FIFO shows one implication after another and is then empty, whatever the
-- pauses of the transmitter: the packets of the implications go out in their order and then the
-- packet with the latched result, the FIFO is popped once for each implication, and the interface
-- waits for a command.
pub reports :
    (s : State) (ps : List Packet) (end : Packet)
    → s.fsm ≡ impl_check
    → s.conflict_id_reg < 2 ^ 13
    → Implications ps
    → end.shown.impl_valid ≡ false
    → ready_cycles end.during ≡ 3
    → end.last.tx_ready ≡ true
    → (sent s (all_cycles ps end) ≡ report_bytes ps (done_bytes s.conflict_reg s.conflict_id_reg))
      × (pops s (all_cycles ps end) ≡ length ps)
      × ((run s (all_cycles ps end)).fsm ≡ cmd_wait)
reports s [] end f w k v n l = reports_end s end.shown end.during end.last f v w n l
reports s (p ∷ ps) end f w k v n l =
    let one = reports_implication s p.shown p.during p.last f k.0 k.1 k.2 k.3 k.4 in
    let t = run s (cycles p) in
    let more = reports t ps end one.2 (subst (λ c. c < 2 ^ 13) (sym one.4) w) k.5 v n l in
    (
      sent-append s (cycles p) (all_cycles ps end)
          ∙ ap₂ ◌++◌ one.0 (more.0 ∙ ap₂ (λ c i. report_bytes ps (done_bytes c i)) one.3 one.4),
      pops-append s (cycles p) (all_cycles ps end) ∙ omega (arith, one.1, more.1),
      ap (λ u. u.fsm) (run-append s (cycles p) (all_cycles ps end)) ∙ more.2,
    )
