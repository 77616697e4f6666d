-- ===== src/ImplicationFifo/Queue.antt =====
-- What implication_fifo.py promises: a queue of at most `depth` implications, oldest first.
use cdcl_sat_solver.Base.{ℕ, not, ◌&&◌, ◌==◌, if◌then◌else◌, List, [], ◌∷◌, ◌++◌, length}
use cdcl_sat_solver.ImplicationFifo.{Entry, Inputs}

abbrev pub Queue : Type 0
Queue = List Entry

abbrev pub rest : Queue → Queue
rest [] = []
rest (e ∷ q) = q

-- A push is lost when the queue is full, also if the same edge pops.
unfoldable pub step : ℕ → Queue → Inputs → Queue
step depth q i =
    (if i.pop_ready then rest q else q)
    ++ (if i.push_valid && not (length q == depth) then i.push ∷ [] else [])

unfoldable pub run : ℕ → Queue → List Inputs → Queue
run depth q [] = q
run depth q (i ∷ is) = run depth (step depth q i) is
