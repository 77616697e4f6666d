-- ===== src/JtagHostInterface/Exchange.antt =====
-- jtag_host_interface.py: a whole scan, from the first shift to the update.
use cdcl_sat_solver.Base.{
  ◌^◌, ◌<◌, ◌≡◌, refl, ap, ◌∙◌, sym, subst, true, false, not, List, [], ◌∷◌, ◌++◌, length, arith,
}
use cdcl_sat_solver.JtagHostInterface.{State, Edge, jtck, clk, step}
use cdcl_sat_solver.JtagHostInterface.Port
use cdcl_sat_solver.JtagHostInterface.Words.{
  value, shift_all_whole, rotated_bits, rotated_bits_whole, value-low_bits_of, pow2-128,
}
use cdcl_sat_solver.JtagHostInterface.Scan.{run, Shifts, bits_in, bits_out, scan-Shifts, reads}

pub run-append : (s : State) (xs ys : List Edge) → run s (xs ++ ys) ≡ run (run s xs) ys
unfolding run
run-append s [] ys = refl
run-append s (x ∷ xs) ys = run-append (step s x) xs ys

-- Edges of the chain between the shifts and the update.
abbrev pub Pauses : List Edge → Type 0
Pauses [] = Unit
Pauses (jtck i ∷ es) = (i.jshift ≡ false) × (i.jupdate ≡ false) × Pauses es
Pauses (clk p ∷ es) = Pauses es

abbrev Selected : State → Type 0
Selected s = s.port.er1_was_selected ≡ true

one-Selected :
    (s : State) (i : Port.Inputs) → i.jce1 ≡ true → i.jshift ≡ true → Selected (step s (jtck i))
unfolding step
one-Selected s i c h = rw (c, h) refl

scan-Selected : (es : List Edge) (s : State) → Shifts es → Selected s → Selected (run s es)
unfolding run step
scan-Selected [] s sh e = e
scan-Selected (clk p ∷ es) s sh e = scan-Selected es (step s (clk p)) sh e
scan-Selected (jtck i ∷ es) s sh e =
    scan-Selected es (step s (jtck i)) sh.3 (one-Selected s i sh.0 sh.1)

-- What a pause leaves alone.
abbrev Unmoved : State → State → Type 0
Unmoved s t =
    (t.port.rx_shift ≡ s.port.rx_shift)
    × (t.port.jtag_rx ≡ s.port.jtag_rx)
    × (t.port.jtag_rx_toggle ≡ s.port.jtag_rx_toggle)
    × (t.port.er1_was_selected ≡ s.port.er1_was_selected)

one-pauses :
    (s : State) (i : Port.Inputs)
    → i.jshift ≡ false
    → i.jupdate ≡ false
    → Unmoved s (step s (jtck i))
unfolding step
one-pauses s i h u = ground arith

Pauses-Unmoved : (es : List Edge) (s : State) → Pauses es → Unmoved s (run s es)
unfolding run step
Pauses-Unmoved [] s p = (refl, refl, refl, refl)
Pauses-Unmoved (clk q ∷ es) s p = Pauses-Unmoved es (step s (clk q)) p
Pauses-Unmoved (jtck i ∷ es) s p =
    let one = one-pauses s i p.0 p.1 in
    let more = Pauses-Unmoved es (step s (jtck i)) p.2 in
    (more.0 ∙ one.0, more.1 ∙ one.1, more.2 ∙ one.2, more.3 ∙ one.3)

-- The update of a selected port.
updates :
    (s : State) (u : Port.Inputs)
    → Selected s
    → u.jupdate ≡ true
    → ((step s (jtck u)).port.jtag_rx ≡ s.port.rx_shift)
      × ((step s (jtck u)).port.jtag_rx_toggle ≡ not s.port.jtag_rx_toggle)
unfolding step
updates s u e h = ground arith

word_read :
    (s : State) (i : Port.Inputs) (es : List Edge)
    → Shifts (jtck i ∷ es)
    → length (bits_in (jtck i ∷ es)) ≡ 128
    → s.port.jshift_prev ≡ false
    → s.core.jtag_shadow < 2 ^ 128
    → value (bits_out s (jtck i ∷ es)) ≡ s.core.jtag_shadow
word_read s i es sh len prev sd =
    let w = s.core.jtag_shadow in
    ap value (reads i es s sh prev ∙ ap (λ n. rotated_bits n w) len ∙ rotated_bits_whole w)
    ∙ value-low_bits_of 128 w (subst (λ p. w < p) (sym pow2-128) sd)

-- The word that was shifted in is latched by the update.
pub latches :
    (s : State) (i : Port.Inputs) (es gs : List Edge) (u : Port.Inputs)
    → Shifts (jtck i ∷ es)
    → length (bits_in (jtck i ∷ es)) ≡ 128
    → Pauses gs
    → u.jupdate ≡ true
    → s.port.rx_shift < 2 ^ 128
    → let after = run s ((jtck i ∷ es) ++ (gs ++ jtck u ∷ [])) in
      (after.port.jtag_rx ≡ value (bits_in (jtck i ∷ es)))
      × (after.port.jtag_rx_toggle ≡ not s.port.jtag_rx_toggle)
unfolding run
latches s i es gs u sh len pa up rx =
    let shifts = jtck i ∷ es in
    let t = run s shifts in
    let v = run t gs in
    let ran = run-append s shifts (gs ++ jtck u ∷ []) ∙ run-append t gs (jtck u ∷ []) in
    let moved = scan-Shifts shifts s sh in
    let kept = Pauses-Unmoved gs t pa in
    let on : Selected v =
      kept.3 ∙ scan-Selected es (step s (jtck i)) sh.3 (one-Selected s i sh.0 sh.1) in
    let latch = updates v u on up in
    (
      ap (λ w. w.port.jtag_rx) ran
          ∙ latch.0
          ∙ kept.0
          ∙ moved.0
          ∙ shift_all_whole (bits_in shifts) s.port.rx_shift len rx,
      ap (λ w. w.port.jtag_rx_toggle) ran ∙ latch.1 ∙ ap not (kept.2 ∙ moved.2),
    )

-- One scan of 128 shifts exchanges two words, whatever edges of the other clock come in between:
-- the word that is read is the response as it stood at the first shift, and after the update the
-- word that was written is latched and the toggle is turned.
pub exchanges :
    (s : State) (i : Port.Inputs) (es gs : List Edge) (u : Port.Inputs)
    → Shifts (jtck i ∷ es)
    → length (bits_in (jtck i ∷ es)) ≡ 128
    → Pauses gs
    → u.jupdate ≡ true
    → s.port.jshift_prev ≡ false
    → s.port.rx_shift < 2 ^ 128
    → s.core.jtag_shadow < 2 ^ 128
    → let after = run s ((jtck i ∷ es) ++ (gs ++ jtck u ∷ [])) in
      (value (bits_out s (jtck i ∷ es)) ≡ s.core.jtag_shadow)
      × (after.port.jtag_rx ≡ value (bits_in (jtck i ∷ es)))
      × (after.port.jtag_rx_toggle ≡ not s.port.jtag_rx_toggle)
exchanges s i es gs u sh len pa up prev rx sd =
    let latched = latches s i es gs u sh len pa up rx in
    (word_read s i es sh len prev sd, latched.0, latched.1)
