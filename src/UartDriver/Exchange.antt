-- ===== src/UartDriver/Exchange.antt =====
-- hw_interface.c, hw_propagate: what a call leaves of the solver, and every byte that it writes.
use cdcl_sat_solver.Base.{ℕ, ◌+◌, ◌<◌, ◌≡◌, refl, ap, ap₂, ◌∙◌, true, List, ◌++◌, length, arith}
use mathlib.Core.List.{append_assoc}
use cdcl_sat_solver.ImplicationFifo.{Entry}
use cdcl_sat_solver.Cdcl.{Solver}
use cdcl_sat_solver.UartDriver.{Link, no_conflict, conflict_at, hw_propagate}
use cdcl_sat_solver.UartDriver.Answers.{report, all_false}
use cdcl_sat_solver.UartDriver.Rounds.{
  Round, answers, Turns, after_rounds, all_false-sizes, ends_without_conflict, ends_in_conflict,
}
use cdcl_sat_solver.UartDriver.Written.{
  start_packet, false_packets, exchanged, all_implied, solver_after, after_one, after_one-solver,
  after_one-outgoing, solver_after-append, after_rounds-solver, after_rounds-outgoing, same_link,
  length_implied,
}

-- When every literal of the trail from the head on is answered by a report without a conflict, the
-- implications' literals that lengthen the trail included, hw_propagate with fuel for one run more
-- than there are reports ends without a conflict. The implications are on the trail as negative
-- literals with their reasons, and the head is at the end of the trail. What was written is, for each
-- literal of the trail in its order, BCP_START on its negation and then WRITE_ASSIGN of FALSE for each
-- implication that its report brought, byte for byte; what follows the reports is still to be read.
pub propagates_all :
    (n : ℕ) (k : Link) (rs : List Round) (rest : List ℕ)
    → length rs < n
    → k.incoming ≡ answers rs rest
    → Turns k.solver.prop_head k.solver.trail_size rs
    → k.solver.prop_head + length rs ≡ k.solver.trail_size + length (all_implied rs)
    → let es = all_implied rs in
      let trail = (all_false es k.solver).trail in
      (hw_propagate n k
        ≡ no_conflict (record {
          solver = solver_after k.solver es (length rs);
          incoming = rest;
          outgoing = k.outgoing ++ exchanged trail k.solver.prop_head rs;
        }))
      × ((solver_after k.solver es (length rs)).trail_size ≡ k.solver.prop_head + length rs)
propagates_all n k rs rest h i t e =
    let es = all_implied rs in
    let (done_so, at_end, left) =
      ends_without_conflict n k rs rest h i t
        (omega (arith, e, length_implied k.solver.trail_size rs)) in
    (
      done_so
          ∙ ap no_conflict
              (same_link (after_rounds-solver rs k rest) left (after_rounds-outgoing rs k rest t)),
      omega (arith, (all_false-sizes es k.solver).1, e),
    )

-- When some literals of the trail are answered by reports without a conflict and the next one by a
-- report with a conflict, hw_propagate with fuel for a run more ends with the clause of that report.
-- The implications of all the reports, that one included, are on the trail as negative literals with
-- their reasons, and the head is past that literal. What was written is, for each of these literals in
-- their order, BCP_START on its negation and then WRITE_ASSIGN of FALSE for each implication that its
-- report brought, byte for byte; what follows the reports is still to be read.
pub propagates_to_conflict :
    (n : ℕ) (k : Link) (rs : List Round) (es : List Entry) (ci : ℕ) (rest : List ℕ)
    → length rs < n
    → k.incoming ≡ answers rs (report es true ci ++ rest)
    → Turns k.solver.prop_head k.solver.trail_size rs
    → k.solver.prop_head + length rs < k.solver.trail_size + length (all_implied rs)
    → let trail = (all_false (all_implied rs) k.solver).trail in
      hw_propagate n k
      ≡ conflict_at ci (record {
        solver = solver_after k.solver (all_implied rs ++ es) (length rs + 1);
        incoming = rest;
        outgoing =
            k.outgoing
            ++ (exchanged trail k.solver.prop_head rs
                ++ (start_packet (trail (k.solver.prop_head + length rs)) ++ false_packets es));
      })
unfolding after_one
propagates_to_conflict n k rs es ci rest h i t e =
    let s = k.solver in
    let last = report es true ci ++ rest in
    let k' = after_rounds rs last k in
    let r : Round = record { implied = es; clause_id = ci } in
    let solver' = after_rounds-solver rs k last in
    let trail = (all_false (all_implied rs) s).trail in
    let written = exchanged trail s.prop_head rs in
    let start = start_packet (trail (s.prop_head + length rs)) ++ false_packets es in
    ends_in_conflict n k rs es ci rest h i t (omega (arith, e, length_implied s.trail_size rs))
    ∙ ap (conflict_at ci) (
        same_link
          (after_one-solver k' r rest
            ∙ ap (λ u. solver_after u es 1) solver'
            ∙ solver_after-append s (all_implied rs) es (length rs) 1)
          refl
          (after_one-outgoing k' r rest
            ∙ ap₂
                (λ bs (u : Solver). bs ++ (start_packet (u.trail u.prop_head) ++ false_packets es))
                (after_rounds-outgoing rs k last t) solver'
            ∙ append_assoc k.outgoing written start))
