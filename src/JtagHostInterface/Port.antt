-- ===== src/JtagHostInterface/Port.antt =====
-- jtag_host_interface.py, the jtag clock domain: the shift registers between the chain of the JTAG
-- primitive and the words of 128 bits. The signals of the primitive are inputs.
use cdcl_sat_solver.Base.{
  ℕ, ◌+◌, ◌*◌, ◌/◌, ◌%◌, ◌^◌, Bool, true, false, not, ◌&&◌, if◌then◌else◌, bit, bit_at,
}

-- `jtag_shadow` is a register of the other clock domain.
pub record Inputs : Type 0 where
  pub jshift : Bool
  pub jupdate : Bool
  pub jtdi : Bool
  pub jce1 : Bool

pub record State : Type 0 where
  pub shift_reg : ℕ
  pub jshift_prev : Bool
  pub rx_shift : ℕ
  pub jtag_rx : ℕ
  pub jtag_rx_toggle : Bool
  pub er1_was_selected : Bool

abbrev pub reset : State
reset = record {
  shift_reg = 0;
  jshift_prev = false;
  rx_shift = 0;
  jtag_rx = 0;
  jtag_rx_toggle = false;
  er1_was_selected = false;
}

-- `Cat(x[1:], b)` on a word of 128 bits.
abbrev pub shift_in : Bool → ℕ → ℕ
shift_in b x = x / 2 + bit b * 2 ^ 127

-- `Cat(x[1:], x[0])`
abbrev pub rotate : ℕ → ℕ
rotate x = x / 2 + x % 2 * 2 ^ 127

-- The response: `jtdo1`, which goes out, and `shift_reg`.
unfoldable pub jtdo1 : State → ℕ → Inputs → Bool
jtdo1 s jtag_shadow i =
    if i.jce1
    then (if i.jshift && not s.jshift_prev
        then bit_at 0 jtag_shadow
        else (if i.jshift then bit_at 0 s.shift_reg else false))
    else false

unfoldable pub next_shift_reg : State → ℕ → Inputs → ℕ
next_shift_reg s jtag_shadow i =
    if i.jce1
    then (if i.jshift && not s.jshift_prev
        then rotate jtag_shadow
        else (if i.jshift
            then rotate s.shift_reg
            else (if not i.jshift && s.jshift_prev then jtag_shadow else s.shift_reg)))
    else s.shift_reg

-- One edge of the clock of the chain.
unfoldable pub step : State → ℕ → Inputs → State
unfolding next_shift_reg
step s jtag_shadow i =
    let latch = i.jupdate && s.er1_was_selected in
    record {
      shift_reg = next_shift_reg s jtag_shadow i;
      jshift_prev = i.jshift;
      rx_shift = if i.jce1 && i.jshift then shift_in i.jtdi s.rx_shift else s.rx_shift;
      jtag_rx = if latch then s.rx_shift else s.jtag_rx;
      jtag_rx_toggle = if latch then not s.jtag_rx_toggle else s.jtag_rx_toggle;
      er1_was_selected =
          if i.jce1 && i.jshift then true else (if i.jupdate then false else s.er1_was_selected);
    }
