-- ===== src/BcpTop.antt =====
-- src/hardware/top.py: the receiver, the host interface, the accelerator and the transmitter, wired
-- together between the two pins.
pub mod Parts
pub mod Session
pub mod Start
pub mod Transmit
use cdcl_sat_solver.Base.{ℕ, ◌+◌, Bool, low_bits, bit_at}
use cdcl_sat_solver.UartReceiver
use cdcl_sat_solver.UartTransmitter
use cdcl_sat_solver.HostInterface
use cdcl_sat_solver.BcpAccelerator

pub record State : Type 0 where
  pub uart_rx : UartReceiver.State
  pub uart_tx : UartTransmitter.State
  pub host_if : HostInterface.State
  pub bcp : BcpAccelerator.State
  pub heartbeat : ℕ  -- 23 bits

abbrev pub reset : State
reset = record {
  uart_rx = UartReceiver.reset;
  uart_tx = UartTransmitter.reset;
  host_if = HostInterface.reset;
  bcp = BcpAccelerator.reset;
  heartbeat = 0;
}

-- Cycles of each bit: 1 Mbaud at 12 MHz.
abbrev pub divisor : ℕ
divisor = 12

-- What the host interface sees: the byte that is received, whether the transmitter is ready, and
-- the ports of the accelerator. All of it comes from registers.
unfoldable pub host_inputs : State → HostInterface.Inputs
unfolding UartReceiver.outputs UartTransmitter.outputs BcpAccelerator.outputs
host_inputs s =
    let rx = UartReceiver.outputs s.uart_rx in
    let bcp = BcpAccelerator.outputs s.bcp in
    record {
      rx_data = rx.rx_data;
      rx_valid = rx.rx_valid;
      tx_ready = (UartTransmitter.outputs s.uart_tx).tx_ready;
      bcp_done = bcp.done;
      bcp_conflict = bcp.conflict;
      bcp_conflict_id = bcp.conflict_clause_id;
      impl_valid = bcp.impl.pop_valid;
      impl = bcp.impl.pop;
    }

unfoldable pub host_outputs : State → HostInterface.Outputs
unfolding host_inputs HostInterface.outputs
host_outputs s = HostInterface.outputs s.host_if (host_inputs s)

unfoldable pub tx_inputs : State → UartTransmitter.Inputs
unfolding host_outputs
tx_inputs s =
    let host = host_outputs s in record { tx_data = host.tx_data; tx_valid = host.tx_valid }

unfoldable pub bcp_inputs : State → BcpAccelerator.Inputs
unfolding host_outputs
bcp_inputs s =
    let host = host_outputs s in
    record {
      start = host.bcp_start;
      false_lit = host.bcp_false_lit;
      impl_ready = host.impl_ready;
      clause_wr = host.clause_wr;
      wl_wr = host.wl_wr;
      assign_wr = host.assign_wr;
    }

unfoldable pub tx_pin : State → Bool
unfolding UartTransmitter.outputs
tx_pin s = (UartTransmitter.outputs s.uart_tx).tx_pin

-- `led.o`
unfoldable pub led : State → Bool
led s = bit_at 22 s.heartbeat

-- One clock edge, with the level of the receive pin.
unfoldable pub step : State → Bool → State
unfolding host_inputs tx_inputs bcp_inputs UartReceiver.step UartTransmitter.step HostInterface.step
    BcpAccelerator.step
step s rx_pin = record {
  uart_rx = UartReceiver.step divisor s.uart_rx rx_pin;
  uart_tx = UartTransmitter.step divisor s.uart_tx (tx_inputs s);
  host_if = HostInterface.step s.host_if (host_inputs s);
  bcp = BcpAccelerator.step s.bcp (bcp_inputs s);
  heartbeat = low_bits 23 (s.heartbeat + 1);
}
