-- ===== src/BcpAccelerator/Hang.antt =====
-- bcp_accelerator.py on watch lists of two or more clauses: the evaluator takes one clause at a
-- time, and nothing holds the next ones back.
use cdcl_sat_solver.Base.{
  ℕ, ◌+◌, ◌<◌, ◌≡◌, ◌⊎◌, true, false, inl, inr, ◌∙◌, bit, arith, refl, sym, subst, List, [], ◌∷◌,
}
use cdcl_sat_solver.WatchListMemory.Reads.{entry, list_length}
use cdcl_sat_solver.WatchListManager.Front
use cdcl_sat_solver.WatchListManager.Front.{event, id}
use cdcl_sat_solver.WatchListManager.Pipeline.{
  Holds, Arriving, Streaming, Arriving-event, Arriving-more, Streaming-event,
}
use cdcl_sat_solver.ClauseEvaluator.Occupied.{occupied}
use cdcl_sat_solver.BcpAccelerator.{Inputs, State, active, front_cycle, detect_conflict, step}
use cdcl_sat_solver.BcpAccelerator.Run.{run, issues, drops}
use cdcl_sat_solver.BcpAccelerator.Flow.{held, stages_step, evaluator_step, meta_valid_lem}
use cdcl_sat_solver.BcpAccelerator.Invariant.{IsDrained, Flows, step-Flows}
use cdcl_sat_solver.BcpAccelerator.Opening.{
  Underway, Underway-step, still_active, front_step, issues_of_event, Holds-next, starts, fetched,
}

-- The evaluator shows no CONFLICT in the cycles of a run.
abbrev pub NoConflict : State → List Inputs → Type 0
NoConflict s [] = Unit
NoConflict s (i ∷ is) = (detect_conflict s ≡ false) × NoConflict (step s i) is

-- A clause is lost, or two stand so close together that one will be.
abbrev Clogged : State → ℕ → Type 0
Clogged s lost =
    (0 < lost)
    ⊎ ((s.fetch.pre.stage2_valid ≡ true)
        × ((occupied s.evaluator.fsm ≡ true) ⊎ (s.fetch.pre.stage1_valid ≡ true)))

record IsClogged (s : State) (lost : ℕ) : Type 0 where
  running : s.fsm ≡ active
  no_conflict : s.conflict_reg ≡ false
  flows : Flows s lost
  clogged : Clogged s lost

Clogged-step :
    (s : State) (i : Inputs) (lost : ℕ)
    → Clogged s lost
    → Clogged (step s i) (bit (drops s i) + lost)
Clogged-step s i lost c = ground (arith, stages_step s i, evaluator_step s i, meta_valid_lem s i)

in_flight_of_Clogged :
    (s : State) (lost : ℕ) → Clogged s lost → s.in_flight ≡ held s + lost → 0 < s.in_flight
in_flight_of_Clogged s lost c b = ground arith

IsClogged-step :
    (s : State) (i : Inputs) (lost : ℕ)
    → detect_conflict s ≡ false
    → IsClogged s lost
    → IsClogged (step s i) (bit (drops s i) + lost)
IsClogged-step s i lost nd c =
    let (fa, nc) =
      still_active s i c.running c.no_conflict nd
        (inl (in_flight_of_Clogged s lost c.clogged c.flows.balanced)) in
    record {
      running = fa;
      no_conflict = nc;
      flows = step-Flows s i lost c.running c.flows;
      clogged = Clogged-step s i lost c.clogged;
    }

clogged_for_ever :
    (s : State) (is : List Inputs) (lost : ℕ)
    → NoConflict s is
    → IsClogged s lost
    → (run s is).fsm ≡ active
unfolding run
clogged_for_ever s [] lost nd c = c.running
clogged_for_ever s (i ∷ is) lost nd c =
    clogged_for_ever (step s i) is (bit (drops s i) + lost) nd.1 (IsClogged-step s i lost nd.0 c)

-- The first two clauses are issued in two cycles on end.
module _ (l n : ℕ) (E : ℕ → ℕ) (s : State) (i : Inputs) (small : n < 128)
    (h : Holds l n E s.front.mem) where
  first_issued :
      1 < n
      → detect_conflict s ≡ false
      → Arriving l n E s.front × Underway s
      → Streaming l n 1 E (step s i).front
        × Underway (step s i)
        × ((step s i).fetch.pre.stage1_valid ≡ true)
  first_issued more nd (a, u) = (
    subst (Streaming l n 1 E) (sym (front_step s i))
        (Arriving-more l n E s.front (front_cycle s i) small h more a),
    Underway-step s i nd (inr a.in_stream) u,
    (stages_step s i).0
        ∙ issues_of_event s i
            (Arriving-event l n E s.front (front_cycle s i) small h (omega arith) a),
  )

  second_issued :
      detect_conflict s ≡ false
      → Streaming l n 1 E s.front × Underway s × (s.fetch.pre.stage1_valid ≡ true)
      → (lost : ℕ) × IsClogged (step s i) lost
  second_issued nd (a, u, one) =
      let v = Underway-step s i nd (inr a.in_stream) u in
      let (stage1, stage2) = stages_step s i in
      let two : issues s i ≡ true =
        issues_of_event s i
          (Streaming-event l n E s.front (front_cycle s i) small h 1 (omega arith) a) in
      (
        v.flows.0,
        record {
          running = v.running;
          no_conflict = v.no_conflict;
          flows = v.flows.1;
          clogged = inr (stage2 ∙ one, inr (stage1 ∙ two));
        },
      )

-- Once a drained accelerator is started on a literal whose list has two to 127 entries, and its
-- list is not written in the first three cycles, it stays in ACTIVE for ever, unless the evaluator
-- shows a conflict: it is never done.
pub long_list_hangs :
    (s : State) (i j k l : Inputs) (is : List Inputs)
    → IsDrained s
    → i.start ≡ true
    → i.false_lit < 1024
    → 1 < list_length s.front.mem i.false_lit
    → list_length s.front.mem i.false_lit < 128
    → Front.NoWrite (front_cycle s i)
    → Front.NoWrite (front_cycle (step s i) j)
    → Front.NoWrite (front_cycle (step (step s i) j) k)
    → NoConflict (step s i) (j ∷ k ∷ l ∷ is)
    → (run (step s i) (j ∷ k ∷ l ∷ is)).fsm ≡ active
unfolding run
long_list_hangs s i j k l is d st lo more small w0 w1 w2 nd =
    let s1 = step s i in
    let s2 = step s1 j in
    let s3 = step s2 k in
    let n = list_length s.front.mem i.false_lit in
    let E = entry s.front.mem i.false_lit in
    let q = i.false_lit in
    let h0 : Holds q n E s.front.mem = record { len_is = refl; entries_are = λ x. refl } in
    let h1 = Holds-next q n E s i small h0 w0 in
    let h2 = Holds-next q n E s1 j small h1 w1 in
    let h3 = Holds-next q n E s2 k small h2 w2 in
    let begun = starts q n E s i small h0 d st refl lo in
    let arriving = fetched q n E s1 j small h1 nd.0 begun in
    let streaming = first_issued q n E s2 k small h2 more nd.1.0 arriving in
    let (lost, c) = second_issued q n E s3 l small h3 nd.1.1.0 streaming in
    clogged_for_ever (step s3 l) is lost nd.1.1.1 c
