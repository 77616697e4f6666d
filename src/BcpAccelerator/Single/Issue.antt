-- ===== src/BcpAccelerator/Single/Issue.antt =====
-- bcp_accelerator.py: one clause on its way from the watch list to the evaluator.
use cdcl_sat_solver.Base.{
  ℕ, ◌<◌, ◌≡◌, inl, inr, ◌||◌, ap₂, refl, sym, ap, ◌∙◌, subst, true, false, arith,
}
use cdcl_sat_solver.Memory.{Cells}
use cdcl_sat_solver.WatchListMemory.Reads.{entry, list_length}
use cdcl_sat_solver.WatchListManager
use cdcl_sat_solver.WatchListManager.{stream}
use cdcl_sat_solver.WatchListManager.Front
use cdcl_sat_solver.WatchListManager.Front.{event, id}
use cdcl_sat_solver.WatchListManager.Pipeline.{
  Holds, Arriving, IsDone, Arriving-event, Arriving-one,
}
use cdcl_sat_solver.BcpAccelerator.{Inputs, State, front_cycle, mgr_outputs, step}
use cdcl_sat_solver.BcpAccelerator.Run.{issues}
use cdcl_sat_solver.BcpAccelerator.Flow.{stages_step}
use cdcl_sat_solver.BcpAccelerator.Invariant.{IsDrained, nothing_issued}
use cdcl_sat_solver.BcpAccelerator.Opening.{
  Holds-next, starts, fetched, front_step, issues_of_event, not_done,
}
use cdcl_sat_solver.BcpAccelerator.Single.{Calm, OneClause, watched_id}
use cdcl_sat_solver.BcpAccelerator.Single.Stages.{
  Empty, Empty-drained, vacant_answers, vacant_drops, vacant_step, no_conflicts, Empty-step, Sent,
  issue_reads, Sent-step, AtHand,
}
use cdcl_sat_solver.BcpAccelerator.Single.Keeps.{Silent, Silent-step, start-Silent, NoWrite-Calm}

-- The run up to the arrival of the list's only entry.
pub record Opened (s t : State) : Type 0 where
  pub silent : Silent s t
  pub empty : Empty t

Opened-start :
    (s : State) (i : Inputs) → IsDrained s → Calm i → i.start ≡ true → Opened s (step s i)
Opened-start s i d c st =
    let e = Empty-drained s d in
    record {
      silent = start-Silent s i d c st (vacant_answers s i e.vacant);
      empty = Empty-step s i e (nothing_issued s i d.mgr_idle);
    }

fetch_len_issues :
    (t : State) (i : Inputs) → t.front.mgr.fsm ≡ WatchListManager.fetch_len → issues t i ≡ false
unfolding mgr_outputs Front.mgr_outputs WatchListManager.outputs
fetch_len_issues t i h = ground arith

Opened-fetch :
    (s t : State) (i : Inputs)
    → Calm i
    → t.front.mgr.fsm ≡ WatchListManager.fetch_len
    → t.wlm_done_seen ≡ false
    → Opened s t
    → Opened s (step t i)
Opened-fetch s t i c fl ns o = record {
  silent =
      Silent-step s t i c (vacant_answers t i o.empty.vacant) (vacant_drops t i o.empty.vacant)
        (inr (ap₂ ◌||◌ ns (not_done t i (inl fl)))) o.silent;
  empty = Empty-step t i o.empty (fetch_len_issues t i fl);
}

-- The cycle that issues the clause number.
sends :
    (l : ℕ) (E : ℕ → ℕ) (s t : State) (i : Inputs)
    → Holds l 1 E t.front.mem
    → Calm i
    → t.wlm_done_seen ≡ false
    → Arriving l 1 E t.front
    → Opened s t
    → Silent s (step t i) × Sent t.fetch.mem.cells (E 0) (step t i)
sends l E s t i h c ns a o =
    let e = Arriving-event l 1 E t.front (front_cycle t i) (omega arith) h (omega arith) a in
    let (cid1, data1) = issue_reads t i (E 0) e in
    let (one, two) = stages_step t i in
    (
      Silent-step s t i c (vacant_answers t i o.empty.vacant) (vacant_drops t i o.empty.vacant)
          (inr (ap₂ ◌||◌ ns (not_done t i (inr a.in_stream)))) o.silent,
      record {
        vacant = vacant_step t i o.empty.vacant o.empty.no_second;
        first = one ∙ issues_of_event t i e;
        first_id = cid1;
        no_second = two ∙ o.empty.no_first;
        word = data1;
        list_over =
            subst IsDone (sym (front_step t i))
              (Arriving-one l 1 E t.front (front_cycle t i) (omega arith) h refl a);
      },
    )

Sent-in_flight :
    (cells : Cells) (cid : ℕ) (s t : State) → Silent s t → Sent cells cid t → 0 < t.in_flight
Sent-in_flight cells cid s t u n = let b = u.flows.balanced in let f = n.first in ground arith

arrives :
    (cells : Cells) (cid : ℕ) (s t : State) (i : Inputs)
    → Calm i
    → Silent s t × Sent cells cid t
    → Silent s (step t i) × AtHand cells cid (step t i)
arrives cells cid s t i c (u, n) = (
  Silent-step s t i c (vacant_answers t i n.vacant) (vacant_drops t i n.vacant)
      (inl (Sent-in_flight cells cid s t u n)) u,
  Sent-step cells cid t i u.running n,
)

-- The length and the first entry of the list of `n` clauses are at the manager.
pub record Arrival (n : ℕ) (s : State) (lit : ℕ) (t : State) : Type 0 where
  pub opened : Opened s t
  pub holds : Holds lit n (entry s.front.mem lit) t.front.mem
  pub arriving : Arriving lit n (entry s.front.mem lit) t.front
  pub not_seen : t.wlm_done_seen ≡ false

pub opens :
    (s : State) (i j : Inputs) (n : ℕ)
    → IsDrained s
    → i.start ≡ true
    → i.false_lit < 1024
    → n < 128
    → list_length s.front.mem i.false_lit ≡ n
    → Calm i
    → Calm j
    → Silent s (step s i) × Arrival n s i.false_lit (step (step s i) j)
opens s i j n d st lo small len ci cj =
    let s1 = step s i in
    let q = i.false_lit in
    let E = entry s.front.mem q in
    let h0 : Holds q n E s.front.mem = record { len_is = len; entries_are = λ x. refl } in
    let h1 = Holds-next q n E s i small h0 (NoWrite-Calm s i ci) in
    let o1 = Opened-start s i d ci st in
    let (f1, u1) = starts q n E s i small h0 d st refl lo in
    let (a2, u2) = fetched q n E s1 j small h1 (no_conflicts s1 o1.empty.vacant) (f1, u1) in
    (
      o1.silent,
      record {
        opened = Opened-fetch s s1 j cj f1.in_fetch u1.not_seen o1;
        holds = Holds-next q n E s1 j small h1 (NoWrite-Calm s1 j cj);
        arriving = a2;
        not_seen = u2.not_seen;
      },
    )

-- Four edges after the start the clause that a drained accelerator found on the list is before the
-- evaluator.
pub issued :
    (s : State) (i j k l : Inputs)
    → IsDrained s
    → i.start ≡ true
    → OneClause s i.false_lit
    → (Calm i × Calm j × Calm k × Calm l)
    → Silent s (step s i)
      × Silent s (step (step s i) j)
      × Silent s (step (step (step s i) j) k)
      × Silent s (step (step (step (step s i) j) k) l)
      × AtHand s.fetch.mem.cells (watched_id s i.false_lit) (step (step (step (step s i) j) k) l)
issued s i j k l d st one (ci, cj, ck, cl) =
    let s2 = step (step s i) j in
    let q = i.false_lit in
    let E = entry s.front.mem q in
    let (u1, a2) = opens s i j 1 d st one.lit_fits (omega arith) one.one_entry ci cj in
    let o2 = a2.opened in
    let three = sends q E s s2 k a2.holds ck a2.not_seen a2.arriving o2 in
    let cells_kept : s2.fetch.mem.cells ≡ s.fetch.mem.cells =
      ap (λ m. m.clauses) o2.silent.mem_kept in
    let four = arrives s2.fetch.mem.cells (E 0) s (step s2 k) l cl three in
    (
      u1,
      o2.silent,
      three.0,
      four.0,
      subst (λ m. AtHand m (E 0) (step (step s2 k) l)) cells_kept four.1,
    )
