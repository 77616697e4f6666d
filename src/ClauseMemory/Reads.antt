-- ===== src/ClauseMemory/Reads.antt =====
-- Reads of clause_memory.py: their latency, and that a clause is read as it was written.
use cdcl_sat_solver.Base.{ℕ, ◌<◌, ◌≡◌, ◌≢◌, true, List, [], ◌∷◌, refl, sym, ap, ◌∙◌}
use cdcl_sat_solver.Memory.{read, read-write_self, read-write_ne}
use cdcl_sat_solver.ClauseMemory.{Inputs, State, max_clauses, pack, unpack, rd_data, rd_valid, step}
use cdcl_sat_solver.ClauseMemory.Fields.{IsClause, unpack-pack}

-- A sequence of clock edges.
unfoldable pub run : State → List Inputs → State
run s [] = s
run s (i ∷ is) = run (step s i) is

-- No write of the sequence goes to the address.
abbrev pub Spares : ℕ → List Inputs → Type 0
Spares a [] = Unit
Spares a (i ∷ is) = (i.wr_addr ≢ a) × Spares a is

-- A read that is enabled at an edge gives its clause, marked valid, after one more edge, whatever
-- the inputs of that edge are.
pub read_latency :
    (s : State) (r i : Inputs)
    → r.rd_en ≡ true
    → (rd_data (step (step s r) i) ≡ unpack (read max_clauses s.cells r.rd_addr))
      × (rd_valid (step (step s r) i) ≡ true)
unfolding rd_data rd_valid step
read_latency s r i h = (rw h, h)

read-run :
    (s : State) (is : List Inputs) (a : ℕ)
    → Spares a is
    → read max_clauses (run s is).cells a ≡ read max_clauses s.cells a
unfolding run step
read-run s [] a h = refl
read-run s (i ∷ is) a h =
    read-run (step s i) is a h.1
    ∙ read-write_ne max_clauses s.cells i.wr_en i.wr_addr (pack i.wr_data) a (λ e. h.0 (sym e))

-- A clause that fits its ports and is written to an address of the memory is what a later read of
-- that address gives, two edges after it is asked for, if no edge between them writes there.
pub read_after_write :
    (s : State) (w r i : Inputs) (is : List Inputs)
    → w.wr_en ≡ true
    → w.wr_addr < max_clauses
    → IsClause w.wr_data
    → Spares w.wr_addr is
    → r.rd_en ≡ true
    → r.rd_addr ≡ w.wr_addr
    → rd_data (step (step (run (step s w) is) r) i) ≡ w.wr_data
read_after_write s w r i is we wa v sp re ra =
    (read_latency (run (step s w) is) r i re).0
    ∙ ap unpack (rw ra (read-run (step s w) is w.wr_addr sp) ∙ stored)
    ∙ unpack-pack v
  where
    stored : read max_clauses (step s w).cells w.wr_addr ≡ pack w.wr_data
    stored =
        unfold step in rw we (read-write_self max_clauses s.cells w.wr_addr (pack w.wr_data) wa)
