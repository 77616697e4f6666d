-- ===== src/BcpTopJtag.antt =====
-- src/hardware/top_jtag.py: the JTAG host interface and the accelerator, wired together.
pub mod Parts
use cdcl_sat_solver.JtagHostInterface
use cdcl_sat_solver.JtagHostInterface.Protocol.{BcpPorts, Outputs}
use cdcl_sat_solver.JtagHostInterface.Port
use cdcl_sat_solver.JtagHostInterface.Core
use cdcl_sat_solver.BcpAccelerator

pub record State : Type 0 where
  pub host_if : JtagHostInterface.State
  pub bcp : BcpAccelerator.State

abbrev pub reset : State
reset = record { host_if = JtagHostInterface.reset; bcp = BcpAccelerator.reset }

-- Edges of the clock of the chain, which the accelerator does not see, and of `sync`.
pub data Edge : Type 0 where
  jtck : Port.Inputs → Edge
  clk : Edge

-- What the host interface sees of the accelerator.
unfoldable pub bcp_ports : State → BcpPorts
unfolding BcpAccelerator.outputs
bcp_ports s =
    let bcp = BcpAccelerator.outputs s.bcp in
    record {
      bcp_done = bcp.done;
      bcp_conflict = bcp.conflict;
      bcp_conflict_id = bcp.conflict_clause_id;
      impl_valid = bcp.impl.pop_valid;
      impl = bcp.impl.pop;
    }

-- What the accelerator sees of the host interface.
unfoldable pub bcp_inputs : State → BcpAccelerator.Inputs
unfolding Core.outputs
bcp_inputs s =
    let host = Core.outputs s.host_if.core in
    record {
      start = host.bcp_start;
      false_lit = host.bcp_false_lit;
      impl_ready = host.impl_ready;
      clause_wr = host.clause_wr;
      wl_wr = host.wl_wr;
      assign_wr = host.assign_wr;
    }

unfoldable pub step : State → Edge → State
unfolding bcp_ports bcp_inputs JtagHostInterface.step BcpAccelerator.step
step s (jtck i) = record s { host_if = JtagHostInterface.step s.host_if (JtagHostInterface.jtck i) }
step s clk = record {
  host_if = JtagHostInterface.step s.host_if (JtagHostInterface.clk (bcp_ports s));
  bcp = BcpAccelerator.step s.bcp (bcp_inputs s);
}
