-- ===== src/Tests/Jtag.antt =====
-- jtag_host_interface.py on a scan, a start and two acknowledgements.
use cdcl_sat_solver.Base.{
  ℕ, ◌+◌, ◌*◌, ◌^◌, ◌/◌, ◌≡◌, refl, Bool, true, false, List, [], ◌∷◌, ◌++◌, arith,
}
use cdcl_sat_solver.HostInterface.Commands.{write_assign, bcp_start}
use cdcl_sat_solver.JtagHostInterface.{State, Edge, jtck, clk, reset}
use cdcl_sat_solver.JtagHostInterface.Protocol.{BcpPorts, impl_check, bcp_wait}
use cdcl_sat_solver.JtagHostInterface.Port
use cdcl_sat_solver.JtagHostInterface.Core
use cdcl_sat_solver.JtagHostInterface.Core.{jtag_data, outputs}
use cdcl_sat_solver.JtagHostInterface.Words.{value, low_bits_of}
use cdcl_sat_solver.JtagHostInterface.Scan.{Shifts, run, bits_in, bits_out}
use cdcl_sat_solver.JtagHostInterface.Exchange.{exchanges}
use cdcl_sat_solver.JtagHostInterface.Requests.{request}
use cdcl_sat_solver.JtagHostInterface.Stages.{Waiting}
use cdcl_sat_solver.JtagHostInterface.Delivery.{core_run}
use cdcl_sat_solver.JtagHostInterface.Life
use cdcl_sat_solver.JtagHostInterface.Life.{Cycle, Showing, pops, status, var, val, reason}
use cdcl_sat_solver.JtagHostInterface.Answers.{
  AlwaysResponse, shown_until_answered, early_answer_pops,
}
use cdcl_sat_solver.JtagHostInterface.Start.{starts_over, start_reaches}

abbrev silent : BcpPorts
silent = record {
  bcp_done = false;
  bcp_conflict = false;
  bcp_conflict_id = 0;
  impl_valid = false;
  impl = record { var = 0; value = false; reason = 0 };
}

abbrev shift : Bool → Edge
shift b = jtck (record { jshift = true; jupdate = false; jtdi = b; jce1 = true })

abbrev pause : Edge
pause = jtck (record { jshift = false; jupdate = false; jtdi = false; jce1 = false })

abbrev pub update : Port.Inputs
update = record { jshift = false; jupdate = true; jtdi = false; jce1 = false }

-- An edge of `sync` after each shift.
abbrev shifts : List Bool → List Edge
shifts [] = []
shifts (b ∷ bs) = shift b ∷ clk silent ∷ shifts bs

abbrev pub first_shift : Bool → Port.Inputs
first_shift b = record { jshift = true; jupdate = false; jtdi = b; jce1 = true }

-- Variable 300 is set to 2, with number 9.
abbrev pub word : ℕ
word = request (write_assign 300 2) 9

abbrev rest_of_scan : List Edge
rest_of_scan = shifts (low_bits_of 127 (word / 2))

shifts-Shifts : (bs : List Bool) → Shifts (shifts bs)
shifts-Shifts [] = tt
shifts-Shifts (b ∷ bs) = (refl, refl, refl, shifts-Shifts bs)

abbrev responding : State
responding = record reset { core = record Core.reset { jtag_shadow = 12345 } }

exchanges_example :
    let after =
      run responding ((shift true ∷ rest_of_scan) ++ ((pause ∷ []) ++ jtck update ∷ [])) in
    (value (bits_out responding (shift true ∷ rest_of_scan)) ≡ 12345)
    × (after.port.jtag_rx ≡ value (bits_in (shift true ∷ rest_of_scan)))
    × (after.port.jtag_rx_toggle ≡ true)
exchanges_example =
    exchanges responding (first_shift true) rest_of_scan (pause ∷ []) update
      (refl, refl, refl, shifts-Shifts (low_bits_of 127 (word / 2))) refl (refl, refl, tt) refl refl
      (omega arith) (omega arith)

pub reset-Waiting : Waiting Core.reset false false false
reset-Waiting = record {
  sync1 = refl;
  sync2 = refl;
  prev = refl;
  pending = refl;
  clause_wr = refl;
  wl_wr = refl;
  wl_len = refl;
  assign_wr = refl;
}

start_reaches_example :
    let rx = request (bcp_start 7) 1 in
    let after = core_run Core.reset rx true (silent ∷ silent ∷ silent ∷ silent ∷ silent ∷ []) in
    (starts_over Core.reset rx true (silent ∷ silent ∷ silent ∷ silent ∷ silent ∷ [])
      ≡ (false, 0) ∷ (false, 0) ∷ (false, 0) ∷ (false, 0) ∷ (true, 7) ∷ [])
    × (after.fsm ≡ bcp_wait)
    × (after.flags.bcp_start_pending ≡ false)
start_reaches_example =
    start_reaches Core.reset false 7 1 silent silent silent silent silent (omega arith)
      (omega arith) reset-Waiting (record { parked = refl; not_asked = refl; not_processed = refl })

-- The response, with an acknowledgement on its way.
abbrev cycle : BcpPorts → Cycle
cycle p = record { jtag_rx = 7 * 2 ^ 120 + 5; jtag_rx_toggle = true; bcp = p }

abbrev finding : BcpPorts
finding = record silent {
  impl_valid = true;
  impl = record { var = 300; value = true; reason = 515 };
}

abbrev checking : Core.State
checking = record Core.reset { fsm = impl_check }

-- The word arrives in the first of these cycles, and has been processed after the fourth.
abbrev waiting_cycles : List Cycle
waiting_cycles = cycle silent ∷ cycle silent ∷ cycle silent ∷ []

shown_until_answered_example :
    let t = Life.run (Life.next checking (cycle finding)) waiting_cycles in
    AlwaysResponse finding.impl (Life.next checking (cycle finding)) waiting_cycles
    × (pops checking (cycle finding ∷ waiting_cycles) ≡ 0)
    × (pops t (cycle silent ∷ []) ≡ 1)
    × ((Life.next t (cycle silent)).fsm ≡ impl_check)
    × ((Life.next t (cycle silent)).flags.ack_impl_pending ≡ false)
unfolding Life.run Core.step
shown_until_answered_example =
    shown_until_answered checking (cycle finding) waiting_cycles (cycle silent) refl (omega arith)
      refl (omega arith) (omega arith) (refl, refl, (refl, refl, (refl, refl, tt))) refl

-- An acknowledgement that nobody asked for.
abbrev answered_early : Core.State
answered_early = record Core.reset {
  fsm = bcp_wait;
  flags = record Core.no_flags { ack_impl_pending = true };
}

abbrev run_ends : List Cycle
run_ends = cycle silent ∷ cycle (record silent { bcp_done = true }) ∷ []

early_answer_pops_example :
    let t = Life.next (Life.run answered_early run_ends) (cycle finding) in
    Showing t finding.impl
    × (pops t (cycle silent ∷ []) ≡ 1)
    × ((Life.next t (cycle silent)).fsm ≡ impl_check)
unfolding Life.run Core.step
early_answer_pops_example =
    early_answer_pops answered_early run_ends (cycle finding) (cycle silent) refl (refl, (refl, tt))
      refl refl
