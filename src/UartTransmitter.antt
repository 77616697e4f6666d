-- ===== src/UartTransmitter.antt =====
-- src/hardware/communication/uart_tx.py: a byte goes out as a start bit, eight data bits and a stop
-- bit, each for `divisor` cycles.
pub mod Frame
use cdcl_sat_solver.Base.{
  ℕ, ◌+◌, ◌-◌, ◌/◌, Bool, true, false, if◌then◌else◌, ◌==◌, bit_at, low_bits,
}

pub data Fsm : Type 0 where
  idle start data_bits stop : Fsm

pub record Inputs : Type 0 where
  pub tx_data : ℕ
  pub tx_valid : Bool

pub record Outputs : Type 0 where
  pub tx_pin : Bool
  pub tx_ready : Bool

-- The timer holds the numbers below the divisor, which are all that it is set to.
pub record State : Type 0 where
  pub fsm : Fsm
  pub bit_timer : ℕ
  pub bit_count : ℕ
  pub shift_reg : ℕ

abbrev pub reset : State
reset = record { fsm = idle; bit_timer = 0; bit_count = 0; shift_reg = 0 }

abbrev pub outputs_in : Fsm → State → Outputs
outputs_in idle s = record { tx_pin = true; tx_ready = true }
outputs_in start s = record { tx_pin = false; tx_ready = false }
outputs_in data_bits s = record { tx_pin = bit_at 0 s.shift_reg; tx_ready = false }
outputs_in stop s = record { tx_pin = true; tx_ready = false }

unfoldable pub outputs : State → Outputs
outputs s = outputs_in s.fsm s

module _ (divisor : ℕ) where
  -- A bit boundary, where the timer has run down.
  abbrev pub boundary : Fsm → State → State
  boundary idle s = s
  boundary start s = record s { bit_timer = divisor - 1; fsm = data_bits }
  boundary data_bits s = record s {
    shift_reg = s.shift_reg / 2;
    bit_timer = divisor - 1;
    bit_count = low_bits 4 (s.bit_count + 1);
    fsm = if s.bit_count == 7 then stop else data_bits;
  }
  boundary stop s = record s { fsm = idle }

  -- START, DATA and STOP count the timer down.
  abbrev pub timed : State → State
  timed s = if s.bit_timer == 0 then boundary s.fsm s else record s { bit_timer = s.bit_timer - 1 }

  abbrev pub step_in : Fsm → State → Inputs → State
  step_in idle s i =
      if i.tx_valid
      then record s { shift_reg = i.tx_data; bit_timer = divisor - 1; bit_count = 0; fsm = start }
      else s
  step_in _ s i = timed s

  -- One clock edge.
  unfoldable pub step : State → Inputs → State
  step s i = step_in s.fsm s i
