-- ===== src/JtagHostInterface.antt =====
-- src/hardware/communication/jtag_host_interface.py: commands come in, and responses go out, as
-- words of 128 bits through the JTAG chain. Its two clocks have no fixed relation: a run is a
-- sequence of edges of either.
pub mod Protocol
pub mod Port
pub mod Core
pub mod Words
pub mod Scan
pub mod Exchange
pub mod Requests
pub mod Kept
pub mod Stages
pub mod Delivery
pub mod Writes
pub mod Stores
pub mod Life
pub mod Answers
pub mod Start
use cdcl_sat_solver.Base.{Bool}
use cdcl_sat_solver.JtagHostInterface.Protocol.{BcpPorts}
use cdcl_sat_solver.JtagHostInterface.Port
use cdcl_sat_solver.JtagHostInterface.Core

pub record State : Type 0 where
  pub port : Port.State
  pub core : Core.State

abbrev pub reset : State
reset = record { port = Port.reset; core = Core.reset }

-- An edge of the clock of the chain, or of `sync`.
pub data Edge : Type 0 where
  jtck : Port.Inputs → Edge
  clk : BcpPorts → Edge

unfoldable pub step : State → Edge → State
unfolding Port.step Core.step
step s (jtck i) = record s { port = Port.step s.port s.core.jtag_shadow i }
step s (clk p) = record s { core = Core.step s.core s.port.jtag_rx s.port.jtag_rx_toggle p }

-- `jtdo1`
unfoldable pub jtdo1 : State → Port.Inputs → Bool
unfolding Port.jtdo1
jtdo1 s i = Port.jtdo1 s.port s.core.jtag_shadow i
