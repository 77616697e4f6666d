-- ===== src/JtagHostInterface/Scan.antt =====
-- jtag_host_interface.py: one scan of the 128-bit register, with any edges of the other clock in
-- between.
use cdcl_sat_solver.Base.{
  ℕ, ◌≡◌, refl, ap, ap₂, ◌∙◌, Bool, true, false, List, [], ◌∷◌, length, bit_at,
}
use cdcl_sat_solver.JtagHostInterface.{State, Edge, jtck, clk, step, jtdo1}
use cdcl_sat_solver.JtagHostInterface.Port
use cdcl_sat_solver.JtagHostInterface.Words.{shift_all, rotated_bits}

unfoldable pub run : State → List Edge → State
run s [] = s
run s (e ∷ es) = run (step s e) es

-- Every edge of the chain shifts the register, which is selected.
abbrev pub Shifts : List Edge → Type 0
Shifts [] = Unit
Shifts (jtck i ∷ es) = (i.jce1 ≡ true) × (i.jshift ≡ true) × (i.jupdate ≡ false) × Shifts es
Shifts (clk p ∷ es) = Shifts es

-- The bits on `jtdi`, and those on `jtdo1`, at the edges of the chain.
abbrev pub bits_in : List Edge → List Bool
bits_in [] = []
bits_in (jtck i ∷ es) = i.jtdi ∷ bits_in es
bits_in (clk p ∷ es) = bits_in es

unfoldable pub bits_out : State → List Edge → List Bool
bits_out s [] = []
bits_out s (jtck i ∷ es) = jtdo1 s i ∷ bits_out (step s (jtck i)) es
bits_out s (clk p ∷ es) = bits_out (step s (clk p)) es

-- The port after some shifts, and what of it a scan leaves alone.
abbrev pub Shifted : Port.State → ℕ → Port.State → Type 0
Shifted a x b = (b.rx_shift ≡ x) × (b.jtag_rx ≡ a.jtag_rx) × (b.jtag_rx_toggle ≡ a.jtag_rx_toggle)

pub one-Shifts :
    (s : State) (i : Port.Inputs)
    → i.jce1 ≡ true
    → i.jshift ≡ true
    → i.jupdate ≡ false
    → Shifted s.port (Port.shift_in i.jtdi s.port.rx_shift) (step s (jtck i)).port
unfolding step
one-Shifts s i c h u = rw (c, h, u) (refl, refl, refl)

pub scan-Shifts :
    (es : List Edge) (s : State)
    → Shifts es
    → Shifted s.port (shift_all (bits_in es) s.port.rx_shift) (run s es).port
unfolding run shift_all step
scan-Shifts [] s sh = (refl, refl, refl)
scan-Shifts (clk p ∷ es) s sh = scan-Shifts es (step s (clk p)) sh
scan-Shifts (jtck i ∷ es) s sh =
    let one = one-Shifts s i sh.0 sh.1 sh.2 in
    let more = scan-Shifts es (step s (jtck i)) sh.3 in
    (more.0 ∙ ap (shift_all (bits_in es)) one.0, more.1 ∙ one.1, more.2 ∙ one.2)

one_reads :
    (s : State) (i : Port.Inputs)
    → i.jce1 ≡ true
    → i.jshift ≡ true
    → s.port.jshift_prev ≡ true
    → (jtdo1 s i ≡ bit_at 0 s.port.shift_reg)
      × ((step s (jtck i)).port.shift_reg ≡ Port.rotate s.port.shift_reg)
      × ((step s (jtck i)).port.jshift_prev ≡ true)
unfolding step jtdo1
one_reads s i c h p = (rw (c, h, p) refl, rw (c, h, p) refl, h)

first_reads :
    (s : State) (i : Port.Inputs)
    → i.jce1 ≡ true
    → i.jshift ≡ true
    → s.port.jshift_prev ≡ false
    → (jtdo1 s i ≡ bit_at 0 s.core.jtag_shadow)
      × ((step s (jtck i)).port.shift_reg ≡ Port.rotate s.core.jtag_shadow)
      × ((step s (jtck i)).port.jshift_prev ≡ true)
unfolding step jtdo1
first_reads s i c h p = (rw (c, h, p) refl, rw (c, h, p) refl, h)

-- After the first shift the response comes out of the register of the port.
reads_on :
    (es : List Edge) (s : State)
    → Shifts es
    → s.port.jshift_prev ≡ true
    → bits_out s es ≡ rotated_bits (length (bits_in es)) s.port.shift_reg
unfolding bits_out rotated_bits step
reads_on [] s sh prev = refl
reads_on (clk p ∷ es) s sh prev = reads_on es (step s (clk p)) sh prev
reads_on (jtck i ∷ es) s sh prev =
    let (out, reg, now) = one_reads s i sh.0 sh.1 prev in
    ap₂ ◌∷◌ out
      (reads_on es (step s (jtck i)) sh.3 now ∙ ap (rotated_bits (length (bits_in es))) reg)

-- The first shift takes the response as it is at that edge; what the other clock does before it
-- counts, and what it does after it does not.
pub reads :
    (i : Port.Inputs) (es : List Edge) (s : State)
    → Shifts (jtck i ∷ es)
    → s.port.jshift_prev ≡ false
    → bits_out s (jtck i ∷ es) ≡ rotated_bits (length (bits_in (jtck i ∷ es))) s.core.jtag_shadow
unfolding bits_out rotated_bits
reads i es s sh prev =
    let (out, reg, now) = first_reads s i sh.0 sh.1 prev in
    ap₂ ◌∷◌ out
      (reads_on es (step s (jtck i)) sh.3 now ∙ ap (rotated_bits (length (bits_in es))) reg)
