-- ===== src/JtagHostInterface/Writes.antt =====
-- jtag_host_interface.py: from the scan of a request to the write ports.
use cdcl_sat_solver.Base.{
  ℕ, ◌^◌, ◌<◌, ◌≡◌, refl, ap, ap₂, ◌∙◌, sym, subst, true, false, not, List, [], ◌∷◌, ◌++◌, length,
}
use cdcl_sat_solver.HostInterface.Commands.{Command, Fits}
use cdcl_sat_solver.JtagHostInterface.{State, Edge, jtck, clk, step}
use cdcl_sat_solver.JtagHostInterface.Protocol.{BcpPorts}
use cdcl_sat_solver.JtagHostInterface.Port
use cdcl_sat_solver.JtagHostInterface.Core
use cdcl_sat_solver.JtagHostInterface.Words.{value}
use cdcl_sat_solver.JtagHostInterface.Scan.{run, Shifts, bits_in}
use cdcl_sat_solver.JtagHostInterface.Exchange.{Pauses, latches, run-append}
use cdcl_sat_solver.JtagHostInterface.Requests.{request}
use cdcl_sat_solver.JtagHostInterface.Stages.{Waiting}
use cdcl_sat_solver.BcpAccelerator.Contents.{Writes}
use cdcl_sat_solver.JtagHostInterface.Delivery.{
  writes, writes_over, core_run, core_run-Waiting, word_reaches, written_fifth,
}

-- No edge of the chain is an update.
abbrev pub NoUpdate : List Edge → Type 0
NoUpdate [] = Unit
NoUpdate (jtck i ∷ es) = (i.jupdate ≡ false) × NoUpdate es
NoUpdate (clk p ∷ es) = NoUpdate es

-- The edges of `sync`.
abbrev pub clks : List Edge → List BcpPorts
clks [] = []
clks (jtck i ∷ es) = clks es
clks (clk p ∷ es) = p ∷ clks es

-- The write ports in each cycle of `sync`.
unfoldable pub writes_out : State → List Edge → List Writes
writes_out s [] = []
writes_out s (jtck i ∷ es) = writes_out (step s (jtck i)) es
writes_out s (clk p ∷ es) = writes (Core.outputs s.core) ∷ writes_out (step s (clk p)) es

-- Without an update the port keeps its word, and the other domain runs as if alone.
pub one-kept :
    (s : State) (i : Port.Inputs)
    → i.jupdate ≡ false
    → ((step s (jtck i)).port.jtag_rx ≡ s.port.jtag_rx)
      × ((step s (jtck i)).port.jtag_rx_toggle ≡ s.port.jtag_rx_toggle)
unfolding step
one-kept s i u = rw u (refl, refl)

pub writes_out-NoUpdate :
    (es : List Edge) (s : State)
    → NoUpdate es
    → writes_out s es ≡ writes_over s.core s.port.jtag_rx s.port.jtag_rx_toggle (clks es)
unfolding writes_out writes_over step
writes_out-NoUpdate [] s nu = refl
writes_out-NoUpdate (clk p ∷ es) s nu =
    ap (λ ws. writes (Core.outputs s.core) ∷ ws) (writes_out-NoUpdate es (step s (clk p)) nu)
writes_out-NoUpdate (jtck i ∷ es) s nu =
    let k = one-kept s i nu.0 in
    writes_out-NoUpdate es (step s (jtck i)) nu.1
    ∙ ap₂ (λ rx tog. writes_over s.core rx tog (clks es)) k.0 k.1

pub core-NoUpdate :
    (es : List Edge) (s : State)
    → NoUpdate es
    → (run s es).core ≡ core_run s.core s.port.jtag_rx s.port.jtag_rx_toggle (clks es)
unfolding run core_run step
core-NoUpdate [] s nu = refl
core-NoUpdate (clk p ∷ es) s nu = core-NoUpdate es (step s (clk p)) nu
core-NoUpdate (jtck i ∷ es) s nu =
    let k = one-kept s i nu.0 in
    core-NoUpdate es (step s (jtck i)) nu.1
    ∙ ap₂ (λ rx tog. core_run s.core rx tog (clks es)) k.0 k.1

pub NoUpdate-Shifts : (es : List Edge) → Shifts es → NoUpdate es
NoUpdate-Shifts [] sh = tt
NoUpdate-Shifts (clk p ∷ es) sh = NoUpdate-Shifts es sh
NoUpdate-Shifts (jtck i ∷ es) sh = (sh.2, NoUpdate-Shifts es sh.3)

pub NoUpdate-Pauses : (es : List Edge) → Pauses es → NoUpdate es
NoUpdate-Pauses [] pa = tt
NoUpdate-Pauses (clk p ∷ es) pa = NoUpdate-Pauses es pa
NoUpdate-Pauses (jtck i ∷ es) pa = (pa.1, NoUpdate-Pauses es pa.2)

pub NoUpdate-append : (xs ys : List Edge) → NoUpdate xs → NoUpdate ys → NoUpdate (xs ++ ys)
NoUpdate-append [] ys a b = b
NoUpdate-append (jtck i ∷ xs) ys a b = (a.0, NoUpdate-append xs ys a.1 b)
NoUpdate-append (clk p ∷ xs) ys a b = NoUpdate-append xs ys a b

-- During a scan and its update the other domain waits on.
scan-Waiting :
    (s : State) (shifts gs : List Edge) (u : Port.Inputs)
    → Shifts shifts
    → Pauses gs
    → Waiting s.core s.port.jtag_rx_toggle s.port.jtag_rx_toggle s.port.jtag_rx_toggle
    → let after = run s (shifts ++ (gs ++ jtck u ∷ [])) in
      Waiting after.core s.port.jtag_rx_toggle s.port.jtag_rx_toggle s.port.jtag_rx_toggle
unfolding run step
scan-Waiting s shifts gs u sh pa w =
    let t = s.port.jtag_rx_toggle in
    let es = shifts ++ gs in
    let ran =
      run-append s shifts (gs ++ jtck u ∷ []) ∙ run-append (run s shifts) gs (jtck u ∷ []) in
    let scanned =
      core-NoUpdate es s
        (NoUpdate-append shifts gs (NoUpdate-Shifts shifts sh) (NoUpdate-Pauses gs pa)) in
    subst (λ c. Waiting c t t t)
      (sym (ap (λ v. v.core) ran ∙ sym (ap (λ v. v.core) (run-append s shifts gs)) ∙ scanned))
      (core_run-Waiting (clks es) s.core s.port.jtag_rx t w).0

-- A request that is scanned in while the other domain waits for a word drives the write ports for
-- one cycle, the fifth after the update, as the command asks, and neither before nor after; its
-- number is then the number that is echoed, and the other domain waits again. Edges of the chain
-- may come in between anywhere, but no second update.
pub scan_writes :
    (s : State) (c : Command) (seq : ℕ) (i : Port.Inputs) (es gs : List Edge) (u : Port.Inputs)
    (fs : List Edge) (p1 p2 p3 p4 p5 : BcpPorts) (more : List BcpPorts)
    → Fits c
    → seq < 256
    → Shifts (jtck i ∷ es)
    → length (bits_in (jtck i ∷ es)) ≡ 128
    → value (bits_in (jtck i ∷ es)) ≡ request c seq
    → Pauses gs
    → u.jupdate ≡ true
    → NoUpdate fs
    → clks fs ≡ p1 ∷ p2 ∷ p3 ∷ p4 ∷ p5 ∷ more
    → s.port.rx_shift < 2 ^ 128
    → Waiting s.core s.port.jtag_rx_toggle s.port.jtag_rx_toggle s.port.jtag_rx_toggle
    → let after = run s ((jtck i ∷ es) ++ (gs ++ jtck u ∷ [])) in
      let n = not s.port.jtag_rx_toggle in
      (writes_out after fs ≡ written_fifth c more)
      × ((run after fs).core.ack_seq ≡ seq)
      × Waiting (run after fs).core n n n
scan_writes s c seq i es gs u fs p1 p2 p3 p4 p5 more f h sh len v pa up nu cl rx w =
    let n = not s.port.jtag_rx_toggle in
    let scan = (jtck i ∷ es) ++ (gs ++ jtck u ∷ []) in
    let after = run s scan in
    let word = latches s i es gs u sh len pa up rx in
    let w' = scan-Waiting s (jtck i ∷ es) gs u sh pa w in
    let reached = word_reaches after.core s.port.jtag_rx_toggle c seq p1 p2 p3 p4 p5 more f h w' in
    let core =
      core-NoUpdate fs after nu
      ∙ ap₂ (λ x y. core_run after.core x y (clks fs)) (word.0 ∙ v) word.1
      ∙ ap (core_run after.core (request c seq) n) cl in
    (
      writes_out-NoUpdate fs after nu
          ∙ ap₂ (λ x y. writes_over after.core x y (clks fs)) (word.0 ∙ v) word.1
          ∙ ap (writes_over after.core (request c seq) n) cl
          ∙ reached.0,
      ap (λ k. k.ack_seq) core ∙ reached.1,
      subst (λ k. Waiting k n n n) (sym core) reached.2,
    )

pub writes_out-append :
    (xs ys : List Edge) (s : State)
    → writes_out s (xs ++ ys) ≡ writes_out s xs ++ writes_out (run s xs) ys
unfolding writes_out run
writes_out-append [] ys s = refl
writes_out-append (jtck i ∷ xs) ys s = writes_out-append xs ys (step s (jtck i))
writes_out-append (clk p ∷ xs) ys s =
    ap (λ ws. writes (Core.outputs s.core) ∷ ws) (writes_out-append xs ys (step s (clk p)))
