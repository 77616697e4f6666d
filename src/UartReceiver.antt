-- ===== src/UartReceiver.antt =====
-- src/hardware/communication/uart_rx.py: finds the start bit of a frame, samples each bit at its
-- middle, and reports the byte.
pub mod Samples
pub mod RoundTrip
pub mod Blocks
pub mod Heard
pub mod Spacing
pub mod Errors
use cdcl_sat_solver.Base.{
  ℕ, ◌+◌, ◌-◌, ◌*◌, ◌/◌, ◌^◌, Bool, true, false, not, ◌&&◌, if◌then◌else◌, ◌==◌, bit, low_bits,
}

pub data Fsm : Type 0 where
  idle start data_bits stop : Fsm

pub record Outputs : Type 0 where
  pub rx_data : ℕ
  pub rx_valid : Bool
  pub rx_err : Bool

-- The only input is `rx_pin`. The timer holds the numbers below the divisor, which are all that it
-- is set to.
pub record State : Type 0 where
  pub fsm : Fsm
  pub rx_sync0 : Bool
  pub rx_sync1 : Bool
  pub rx_prev : Bool
  pub bit_timer : ℕ
  pub bit_count : ℕ
  pub shift_reg : ℕ

abbrev pub reset : State
reset = record {
  fsm = idle;
  rx_sync0 = true;
  rx_sync1 = true;
  rx_prev = true;
  bit_timer = 0;
  bit_count = 0;
  shift_reg = 0;
}

abbrev pub falling_edge : State → Bool
falling_edge s = s.rx_prev && not s.rx_sync1

-- At the end of STOP the level tells a byte from a framing error.
abbrev pub outputs_in : Fsm → State → Outputs
outputs_in stop s = record {
  rx_data = s.shift_reg;
  rx_valid = (s.bit_timer == 0) && s.rx_sync1;
  rx_err = (s.bit_timer == 0) && not s.rx_sync1;
}
outputs_in _ s = record { rx_data = s.shift_reg; rx_valid = false; rx_err = false }

unfoldable pub outputs : State → Outputs
outputs s = outputs_in s.fsm s

module _ (divisor : ℕ) where
  -- A sample, where the timer has run down.
  abbrev pub sample : Fsm → State → State
  sample idle s = s
  sample start s =
      if s.rx_sync1
      then record s { fsm = idle }
      else record s { bit_timer = divisor - 1; bit_count = 0; fsm = data_bits }
  sample data_bits s = record s {
    shift_reg = s.shift_reg / 2 + bit s.rx_sync1 * 2 ^ 7;
    bit_timer = divisor - 1;
    bit_count = low_bits 4 (s.bit_count + 1);
    fsm = if s.bit_count == 7 then stop else data_bits;
  }
  sample stop s = record s { fsm = idle }

  abbrev pub timed : State → State
  timed s = if s.bit_timer == 0 then sample s.fsm s else record s { bit_timer = s.bit_timer - 1 }

  abbrev pub step_in : Fsm → State → State
  step_in idle s =
      if falling_edge s then record s { bit_timer = divisor / 2 - 1; fsm = start } else s
  step_in _ s = timed s

  -- One clock edge: the state machine reads the synchroniser as it was before the edge.
  unfoldable pub step : State → Bool → State
  step s rx_pin = record (step_in s.fsm s) {
    rx_sync0 = rx_pin;
    rx_sync1 = s.rx_sync0;
    rx_prev = s.rx_sync1;
  }
