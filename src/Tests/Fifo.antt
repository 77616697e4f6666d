-- ===== src/Tests/Fifo.antt =====
-- implication_fifo.py with room for two implications.
use cdcl_sat_solver.Base.{ℕ, ◌+◌, ◌≡◌, refl, true, false, List, [], ◌∷◌, arith}
use cdcl_sat_solver.Memory.{read, write}
use cdcl_sat_solver.ImplicationFifo.{Entry, Inputs, reset, pack, unpack, step, outputs}
use cdcl_sat_solver.ImplicationFifo.Inv.{IsValid, reset-IsValid, step-IsValid, run}
use cdcl_sat_solver.ImplicationFifo.Queue
use cdcl_sat_solver.ImplicationFifo.Refine.{Shows, contents, run_refines}

abbrev entry : ℕ → Entry
entry n = record { var = n; value = true; reason = n + 100 }

abbrev pushes : ℕ → Inputs
pushes n = record { push_valid = true; push = entry n; pop_ready = false }

abbrev both : ℕ → Inputs
both n = record { push_valid = true; push = entry n; pop_ready = true }

abbrev script : List Inputs
script = pushes 1 ∷ pushes 2 ∷ pushes 3 ∷ both 4 ∷ both 5 ∷ []

-- The third push is lost, and so is the fourth, which comes while the queue is still full.
script_leaves : Queue.run 2 [] script ≡ entry 5 ∷ []
unfolding Queue.run Queue.step
script_leaves = refl

script_shows : (outputs 2 (run 2 reset script)).pop ≡ entry 5
unfolding outputs run step pack unpack read write
script_shows = refl

step-IsValid_example : IsValid 2 (step 2 reset (both 1))
step-IsValid_example = step-IsValid 2 (both 1) (reset-IsValid 2 (omega arith))

run_refines_example :
    Shows 2 (Queue.run 2 (contents 2 reset) script) (outputs 2 (run 2 reset script))
run_refines_example = run_refines 2 reset script (reset-IsValid 2 (omega arith)) (omega arith)
