-- ===== src/Tests/JtagTop.antt =====
-- top_jtag.py: one request from the chain to the memory of assignments.
use cdcl_sat_solver.Base.{◌/◌, ◌≡◌, refl, sym, Bool, true, List, [], ◌∷◌, ◌++◌, arith}
use mathlib.Core.List.{append-nil}
use cdcl_sat_solver.HostInterface.Commands.{write_assign}
use cdcl_sat_solver.JtagHostInterface
use cdcl_sat_solver.JtagHostInterface.Protocol.{BcpPorts}
use cdcl_sat_solver.JtagHostInterface.Words.{low_bits_of}
use cdcl_sat_solver.JtagHostInterface.Scan.{Shifts}
use cdcl_sat_solver.JtagHostInterface.Stores.{Ready, Request, Step}
use cdcl_sat_solver.BcpAccelerator
use cdcl_sat_solver.BcpAccelerator.Contents.{contents, store}
use cdcl_sat_solver.BcpTopJtag.{Edge, jtck, clk, reset, bcp_ports}
use cdcl_sat_solver.BcpTopJtag.Parts.{run, host_edges, session_stores}
use cdcl_sat_solver.Tests.Jtag.{first_shift, update, word, reset-Waiting}

abbrev shifts : List Bool → List Edge
shifts [] = []
shifts (b ∷ bs) = jtck (first_shift b) ∷ shifts bs

abbrev host_shifts : List Bool → List JtagHostInterface.Edge
host_shifts [] = []
host_shifts (b ∷ bs) = JtagHostInterface.jtck (first_shift b) ∷ host_shifts bs

host_shifts-Shifts : (bs : List Bool) → Shifts (host_shifts bs)
host_shifts-Shifts [] = tt
host_shifts-Shifts (b ∷ bs) = (refl, refl, refl, host_shifts-Shifts bs)

abbrev scan : List Edge
scan = shifts (low_bits_of 128 word) ++ jtck update ∷ []

abbrev session : List Edge
session = scan ++ clk ∷ clk ∷ clk ∷ clk ∷ clk ∷ []

-- What the accelerator shows n cycles after the scan.
abbrev shown : List Edge → BcpPorts
shown es = bcp_ports (run reset (scan ++ es))

abbrev request : Step
request = record { command = write_assign 300 2; seq = 9; edges = host_edges reset session }

reset-Ready : Ready JtagHostInterface.reset
reset-Ready = record { rx_fits = omega arith; waiting = reset-Waiting }

Request-Request : Request (write_assign 300 2) 9 (host_edges reset session)
unfolding host_edges run
Request-Request = record {
  first = first_shift true;
  rest = host_shifts (low_bits_of 127 (word / 2));
  pauses = [];
  update = update;
  cycles =
      JtagHostInterface.clk (shown [])
      ∷ JtagHostInterface.clk (shown (clk ∷ []))
      ∷ JtagHostInterface.clk (shown (clk ∷ clk ∷ []))
      ∷ JtagHostInterface.clk (shown (clk ∷ clk ∷ clk ∷ []))
      ∷ JtagHostInterface.clk (shown (clk ∷ clk ∷ clk ∷ clk ∷ []))
      ∷ [];
  p1 = shown [];
  p2 = shown (clk ∷ []);
  p3 = shown (clk ∷ clk ∷ []);
  p4 = shown (clk ∷ clk ∷ clk ∷ []);
  p5 = shown (clk ∷ clk ∷ clk ∷ clk ∷ []);
  more = [];
  fits = omega arith;
  seq_fits = omega arith;
  shifting = (refl, refl, refl, host_shifts-Shifts (low_bits_of 127 (word / 2)));
  whole = refl;
  word = refl;
  pausing = tt;
  updating = refl;
  no_update = tt;
  five = refl;
  whole_run = refl;
}

session_stores_example :
    (contents (run reset session).bcp ≡ store (write_assign 300 2) (contents BcpAccelerator.reset))
    × Ready (run reset session).host_if
session_stores_example =
    session_stores reset session (request ∷ []) reset-Ready (Request-Request, tt)
      (sym (append-nil (host_edges reset session)))
