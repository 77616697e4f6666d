-- ===== src/ClausePrefetcher/Fetch.antt =====
-- clause_prefetcher.py wired to clause_memory.py, as bcp_accelerator.py does it: a clause comes out
-- beside its own number.
use cdcl_sat_solver.Base.{
  ℕ, ◌≡◌, refl, ap, ap₂, ◌∙◌, Bool, false, if◌then◌else◌, Option, none, some, List, [], ◌∷◌, ◌++◌,
  map, arith,
}
use cdcl_sat_solver.Memory.{Cells, read, write}
use cdcl_sat_solver.ClauseMemory
use cdcl_sat_solver.ClauseMemory.{Clause, max_clauses, unpack}
use cdcl_sat_solver.ClausePrefetcher

pub record Fetch : Type 0 where
  pub pre : ClausePrefetcher.State
  pub mem : ClauseMemory.State

-- The inputs of a cycle. Of `writes` only the write ports count.
pub record Cycle : Type 0 where
  pub clause_id : ℕ
  pub clause_id_valid : Bool
  pub writes : ClauseMemory.Inputs

unfoldable pub pre_inputs : Fetch → Cycle → ClausePrefetcher.Inputs
unfolding ClauseMemory.rd_data
pre_inputs f c = record {
  clause_id_in = c.clause_id;
  clause_id_valid = c.clause_id_valid;
  clause = ClauseMemory.rd_data f.mem;
}

unfoldable pub pre_outputs : Fetch → Cycle → ClausePrefetcher.Outputs
unfolding pre_inputs ClausePrefetcher.outputs
pre_outputs f c = ClausePrefetcher.outputs f.pre (pre_inputs f c)

-- The read port of the memory is driven by the prefetcher.
unfoldable pub mem_inputs : ClausePrefetcher.Outputs → ClauseMemory.Inputs → ClauseMemory.Inputs
mem_inputs o w = record w { rd_addr = o.clause_rd_addr; rd_en = o.clause_rd_en }

unfoldable pub step : Fetch → Cycle → Fetch
unfolding pre_inputs pre_outputs mem_inputs ClausePrefetcher.step
step f c = record {
  pre = ClausePrefetcher.step f.pre (pre_inputs f c);
  mem = ClauseMemory.step f.mem (mem_inputs (pre_outputs f c) c.writes);
}

-- What the evaluator is handed in a cycle.
abbrev pub shown : ClausePrefetcher.Outputs → Option (ℕ × Clause)
shown o = if o.meta_valid then some (o.clause_id_out, o.clause) else none

unfoldable pub trace : Fetch → List Cycle → List (Option (ℕ × Clause))
trace f [] = []
trace f (c ∷ cs) = shown (pre_outputs f c) ∷ trace (step f c) cs

abbrev pub NoWrites : List Cycle → Type 0
NoWrites [] = Unit
NoWrites (c ∷ cs) = (c.writes.wr_en ≡ false) × NoWrites cs

-- The clause of a number, as the database holds it.
abbrev pub clause_of : Cells → Cycle → Option (ℕ × Clause)
clause_of cells c =
    if c.clause_id_valid
    then some (c.clause_id, unpack (read max_clauses cells c.clause_id))
    else none

-- The two cycles that are in the pipeline.
abbrev pub second : Fetch → Option (ℕ × Clause)
second f = if f.pre.stage1_valid then some (f.pre.stage1_cid, unpack f.mem.rd_port_data) else none

shown-step : (f : Fetch) (c d : Cycle) → shown (pre_outputs (step f c) d) ≡ second f
unfolding step ClauseMemory.step
shown-step f c d = refl

second-step : (f : Fetch) (c : Cycle) → second (step f c) ≡ clause_of f.mem.cells c
unfolding step ClauseMemory.step
second-step f c = ground arith

step-cells : (f : Fetch) (c : Cycle) → c.writes.wr_en ≡ false → (step f c).mem.cells ≡ f.mem.cells
unfolding step ClauseMemory.step
step-cells f c h = rw h (unfold write in refl)

trace_tail :
    (f : Fetch) (cs : List Cycle) (c d e : Cycle)
    → NoWrites (c ∷ cs)
    → trace (step f c) (cs ++ d ∷ e ∷ []) ≡ second f ∷ map (clause_of f.mem.cells) (c ∷ cs)
unfolding trace
trace_tail f [] c d e nw =
    ap₂ ◌∷◌ (shown-step f c d) (ap (λ o. o ∷ []) (shown-step (step f c) d e ∙ second-step f c))
trace_tail f (x ∷ cs) c d e nw = ap₂ ◌∷◌ (shown-step f c x) (
    trace_tail (step f c) cs x d e nw.1
    ∙ ap₂ ◌∷◌ (second-step f c) (ap (λ m. map (clause_of m) (x ∷ cs)) (step-cells f c nw.0)))

-- While nobody writes to the database, each clause number that enters the prefetcher leaves it two
-- cycles later beside the fields of its clause, in the order of entry; cycles without a number
-- leave it empty.
pub fetches :
    (f : Fetch) (c d e : Cycle) (cs : List Cycle)
    → NoWrites (c ∷ cs)
    → trace f (c ∷ cs ++ d ∷ e ∷ [])
      ≡ shown (pre_outputs f c) ∷ second f ∷ map (clause_of f.mem.cells) (c ∷ cs)
unfolding trace
fetches f c d e cs nw = ap (λ t. shown (pre_outputs f c) ∷ t) (trace_tail f cs c d e nw)
