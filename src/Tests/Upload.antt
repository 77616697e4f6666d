-- ===== src/Tests/Upload.antt =====
-- hw_interface.c: the problem of two small clauses, sent over the receive pin.
use cdcl_sat_solver.Base.{
  ℕ, zero, suc, ◌<◌, ◌≡◌, refl, ap, Bool, true, false, ltb, ltb→lt, ◌&&◌, set_at, set_at-all, List,
  [], ◌∷◌, ◌++◌, map, arith, ℤ, pos, negsuc,
}
use cdcl_sat_solver.UartReceiver.RoundTrip.{Block, Sound, byte_cycles, bytes_in, cycles, pin}
use cdcl_sat_solver.UartTransmitter
use cdcl_sat_solver.UartTransmitter.Frame
use cdcl_sat_solver.HostInterface
use cdcl_sat_solver.BcpAccelerator
use cdcl_sat_solver.BcpAccelerator.Contents.{contents}
use cdcl_sat_solver.BcpTop.{reset}
use cdcl_sat_solver.BcpTop.Parts.{run}
use cdcl_sat_solver.Cdcl.{Solver, no_lits, create, add_clause, lit_to_code, push_clause, watch_add}
use cdcl_sat_solver.UartDriver.{
  init_bytes, clause_bytes, list_bytes, entries_bytes, write_assign_bytes, for_upto,
  sw_to_hw_assign,
}
use cdcl_sat_solver.UartDriver.Commands.{FitsHardware, AllBelow}
use cdcl_sat_solver.UartDriver.Upload.{Mirrors, init_mirrored}
use cdcl_sat_solver.Tests.Uart.{byte, ten_periods}

abbrev block_of : ℕ → Block
block_of b = byte_cycles (byte b) (ten_periods 12)

AllBelow→Sound : (bs : List ℕ) → AllBelow 256 bs → Sound (map block_of bs)
AllBelow→Sound [] h = tt
AllBelow→Sound (b ∷ bs) h = (
  refl,
  h.0,
  refl,
  (refl, (refl, (refl, (refl, (refl, (refl, (refl, (refl, (refl, (refl, tt)))))))))),
  AllBelow→Sound bs h.1,
)

bytes_in-block_of : (bs : List ℕ) → bytes_in (map block_of bs) ≡ bs
bytes_in-block_of [] = refl
bytes_in-block_of (b ∷ bs) = ap (λ l. b ∷ l) (bytes_in-block_of bs)

abbrev all_bytes : List ℕ → Bool
all_bytes [] = true
all_bytes (b ∷ bs) = ltb b 256 && all_bytes bs

AllBelow-tested : (bs : List ℕ) → all_bytes bs ≡ true → AllBelow 256 bs
AllBelow-tested [] h = tt
AllBelow-tested (b ∷ bs) h = (ltb→lt b 256 (ground arith), AllBelow-tested bs (ground arith))

abbrev pub one_then_not_two : ℕ → ℤ
one_then_not_two zero = pos 1
one_then_not_two _ = negsuc 1

abbrev solver : Solver
unfolding add_clause
solver = (add_clause (create 2) one_then_not_two 2).0

code_small : (k : ℕ) → lit_to_code (one_then_not_two k) < 1024
unfolding lit_to_code
code_small zero = omega arith
code_small (suc k) = omega arith

solver-FitsHardware : FitsHardware solver
unfolding add_clause lit_to_code push_clause watch_add
solver-FitsHardware = record {
  few_clauses = omega arith;
  few_vars = omega arith;
  short_lists = λ lit. ground arith;
  ids_fit = λ lit.
      set_at-all (AllBelow 8192) (set_at (λ _. []) 2 (0 ∷ [])) 5 (0 ∷ []) lit (omega arith, tt)
        (λ l. set_at-all (AllBelow 8192) (λ _. []) 2 (0 ∷ []) l (omega arith, tt) (λ _. tt));
  lits_fit = λ ci k.
      set_at-all (λ c. c.lits k < 1024) (λ _. no_lits) 0
        (record { size = 2; learnt = false; lits = λ j. lit_to_code (one_then_not_two j) }) ci
        (code_small k) (λ _. omega arith);
}

init_mirrored_example :
    let blocks = map block_of (init_bytes solver) in
    let pins = map pin (Frame.line 12 UartTransmitter.reset (cycles blocks)) ++ true ∷ [] in
    Mirrors solver (contents BcpAccelerator.reset) (contents (run reset pins).bcp)
    × ((run reset pins).host_if.fsm ≡ HostInterface.cmd_wait)
unfolding init_bytes clause_bytes list_bytes entries_bytes write_assign_bytes for_upto
    sw_to_hw_assign add_clause lit_to_code push_clause watch_add
init_mirrored_example =
    init_mirrored solver reset 0 0 0 UartTransmitter.reset (map block_of (init_bytes solver)) true
      solver-FitsHardware refl refl (omega arith) refl
      (AllBelow→Sound (init_bytes solver) (AllBelow-tested (init_bytes solver) refl))
      (bytes_in-block_of (init_bytes solver))
