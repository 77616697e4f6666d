-- ===== src/UartDriver/Rounds.antt =====
-- hw_interface.c, hw_propagate: its loop over the trail, a run after another.
use cdcl_sat_solver.Base.{
  ℕ, suc, ◌+◌, ◌-◌, ◌*◌, ◌<◌, ◌≤◌, ◌≡◌, refl, ap, ◌∙◌, sym, subst, Bool, true, false, lt→ltb, List,
  [], ◌∷◌, ◌++◌, length, length-append, arith, some,
}
use cdcl_sat_solver.ImplicationFifo.{Entry}
use cdcl_sat_solver.Cdcl.{Solver, enqueue}
use cdcl_sat_solver.UartDriver.{
  Link, Reading, done, done_conflict, no_conflict, conflict_at, advance, send_start, one_run,
  next_literal, hw_propagate,
}
use cdcl_sat_solver.UartDriver.Answers.{
  report, length-report, all_false, false_bytes, ended, reads_report,
}

-- The implications that a run reports, and the clause number in its last packet.
pub record Round : Type 0 where
  pub implied : List Entry
  pub clause_id : ℕ

-- The bytes of runs without a conflict, before those that follow.
abbrev pub answers : List Round → List ℕ → List ℕ
answers [] rest = rest
answers (r ∷ rs) rest = report r.implied false r.clause_id ++ answers rs rest

-- The runs are as many as the trail has literals to propagate while they go on.
abbrev pub Turns : ℕ → ℕ → List Round → Type 0
Turns head size [] = Unit
Turns head size (r ∷ rs) = (head < size) × Turns (head + 1) (size + length r.implied) rs

abbrev pub final_size : ℕ → List Round → ℕ
final_size size [] = size
final_size size (r ∷ rs) = final_size (size + length r.implied) rs

-- After the start and the packets of a run.
abbrev pub after_packets : List Entry → List ℕ → Link → Link
after_packets es rest k = record {
  solver = all_false es k.solver;
  incoming = rest;
  outgoing = (send_start k).outgoing ++ false_bytes es;
}

-- After some runs: a start is sent, the implications are taken as false, and the next literal is
-- turned to.
abbrev pub after_rounds : List Round → List ℕ → Link → Link
after_rounds [] rest k = k
after_rounds (r ∷ rs) rest k =
    after_rounds rs rest (advance (after_packets r.implied (answers rs rest) k))

same_solver : (k : Link) → (send_start k).solver ≡ k.solver
unfolding send_start
same_solver k = refl

same_incoming : (k : Link) → (send_start k).incoming ≡ k.incoming
unfolding send_start
same_incoming k = refl

one_run_lem :
    (k : Link) (es : List Entry) (conflict : Bool) (ci : ℕ) (rest : List ℕ)
    → k.incoming ≡ report es conflict ci ++ rest
    → one_run k ≡ ended conflict ci (after_packets es rest k)
unfolding one_run
one_run_lem k es conflict ci rest e =
    let sent = send_start k in
    let arrived = same_incoming k ∙ e in
    reads_report (length sent.incoming + 1) sent es conflict ci rest
      (omega (
        arith,
        ap length arrived ∙ length-append (report es conflict ci) rest,
        length-report es conflict ci,
      ))
      arrived
    ∙ ap
        (λ (s : Solver). ended conflict ci (record {
          solver = all_false es s;
          incoming = rest;
          outgoing = sent.outgoing ++ false_bytes es;
        }))
        (same_solver k)

-- The implications lengthen the trail, and the head stays.
pub all_false-sizes :
    (es : List Entry) (s : Solver)
    → ((all_false es s).prop_head ≡ s.prop_head)
      × ((all_false es s).trail_size ≡ s.trail_size + length es)
unfolding enqueue
all_false-sizes [] s = (refl, omega arith)
all_false-sizes (e ∷ es) s =
    let (h, t) = all_false-sizes es (enqueue s (2 * e.var + 1) (some e.reason)) in
    (h, omega (arith, t))

hw_propagate-run :
    (n : ℕ) (k : Link) (r : Reading)
    → k.solver.prop_head < k.solver.trail_size
    → one_run k ≡ r
    → hw_propagate (suc n) k ≡ next_literal (hw_propagate n) r
unfolding hw_propagate
hw_propagate-run n k r lt e = rw (lt→ltb k.solver.prop_head k.solver.trail_size lt, e) refl

skip_rounds :
    (n m : ℕ) (k : Link) (rs : List Round) (rest : List ℕ)
    → n ≡ length rs + m
    → k.incoming ≡ answers rs rest
    → Turns k.solver.prop_head k.solver.trail_size rs
    → hw_propagate n k ≡ hw_propagate m (after_rounds rs rest k)
unfolding next_literal
skip_rounds n m k [] rest e i t = ap (λ x. hw_propagate x k) (omega (arith, e))
skip_rounds n m k (r ∷ rs) rest e i t =
    let k' = after_packets r.implied (answers rs rest) k in
    let (h, z) = all_false-sizes r.implied k.solver in
    let fuel : n ≡ suc (length rs + m) = omega (arith, e) in
    ap (λ x. hw_propagate x k) fuel
    ∙ hw_propagate-run (length rs + m) k (done k') t.0
        (one_run_lem k r.implied false r.clause_id (answers rs rest) i)
    ∙ skip_rounds (length rs + m) m (advance k') rs rest refl refl (
        subst (λ x. Turns (x + 1) (all_false r.implied k.solver).trail_size rs) (sym h)
          (subst (λ x. Turns (k.solver.prop_head + 1) x rs) (sym z) t.1))

after_rounds-sizes :
    (k : Link) (rs : List Round) (rest : List ℕ)
    → ((after_rounds rs rest k).solver.prop_head ≡ k.solver.prop_head + length rs)
      × ((after_rounds rs rest k).solver.trail_size ≡ final_size k.solver.trail_size rs)
after_rounds-sizes k [] rest = (omega arith, refl)
after_rounds-sizes k (r ∷ rs) rest =
    let (h, z) = all_false-sizes r.implied k.solver in
    let (a, b) =
      after_rounds-sizes (advance (after_packets r.implied (answers rs rest) k)) rs rest in
    (omega (arith, a, h), b ∙ ap (λ x. final_size x rs) z)

after_rounds-incoming :
    (k : Link) (rs : List Round) (rest : List ℕ)
    → k.incoming ≡ answers rs rest
    → (after_rounds rs rest k).incoming ≡ rest
after_rounds-incoming k [] rest e = e
after_rounds-incoming k (r ∷ rs) rest e =
    after_rounds-incoming (advance (after_packets r.implied (answers rs rest) k)) rs rest refl

nothing_left :
    (m : ℕ) (k : Link)
    → k.solver.trail_size ≤ k.solver.prop_head
    → hw_propagate (suc m) k ≡ no_conflict k
unfolding hw_propagate
nothing_left m k h = ground arith

-- The runs of a call that ends without a conflict, and with one.
pub ends_without_conflict :
    (n : ℕ) (k : Link) (rs : List Round) (rest : List ℕ)
    → length rs < n
    → k.incoming ≡ answers rs rest
    → Turns k.solver.prop_head k.solver.trail_size rs
    → k.solver.prop_head + length rs ≡ final_size k.solver.trail_size rs
    → (hw_propagate n k ≡ no_conflict (after_rounds rs rest k))
      × ((after_rounds rs rest k).solver.prop_head ≡ (after_rounds rs rest k).solver.trail_size)
      × ((after_rounds rs rest k).incoming ≡ rest)
ends_without_conflict n k rs rest h i t e =
    let (a, b) = after_rounds-sizes k rs rest in
    let m = n - (length rs + 1) in
    (
      skip_rounds n (suc m) k rs rest (omega arith) i t
          ∙ nothing_left m (after_rounds rs rest k) (omega (arith, a, b, e)),
      a ∙ e ∙ sym b,
      after_rounds-incoming k rs rest i,
    )

pub ends_in_conflict :
    (n : ℕ) (k : Link) (rs : List Round) (es : List Entry) (ci : ℕ) (rest : List ℕ)
    → length rs < n
    → k.incoming ≡ answers rs (report es true ci ++ rest)
    → Turns k.solver.prop_head k.solver.trail_size rs
    → k.solver.prop_head + length rs < final_size k.solver.trail_size rs
    → hw_propagate n k
      ≡ conflict_at ci
          (advance (after_packets es rest (after_rounds rs (report es true ci ++ rest) k)))
unfolding next_literal
ends_in_conflict n k rs es ci rest h i t e =
    let last = report es true ci ++ rest in
    let k' = after_rounds rs last k in
    let (a, b) = after_rounds-sizes k rs last in
    let m = n - (length rs + 1) in
    skip_rounds n (suc m) k rs last (omega arith) i t
    ∙ hw_propagate-run m k' (done_conflict ci (after_packets es rest k')) (omega (arith, a, b, e))
        (one_run_lem k' es true ci rest (after_rounds-incoming k rs last i))
