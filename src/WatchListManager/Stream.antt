-- ===== src/WatchListManager/Stream.antt =====
-- watch_list_manager.py: which clause numbers are streamed, in which order, and when.
use cdcl_sat_solver.Base.{
  ℕ, zero, suc, ◌+◌, ◌<◌, ◌≡◌, refl, ap, ap₂, true, List, [], ◌∷◌, ◌++◌, length, arith,
}
use cdcl_sat_solver.WatchListMemory.Reads.{entry, list_length}
use cdcl_sat_solver.WatchListManager.{idle}
use cdcl_sat_solver.WatchListManager.Front.{
  Front, Cycle, Event, silent, id, step, trace, run, NoWrites,
}
use cdcl_sat_solver.WatchListManager.Pipeline.{
  Holds, step-Holds, Streaming, Arriving, IsDone, Streaming-step, Streaming-event, Streaming-last,
  start-Fetching, start-event, Fetching-step, Fetching-event, Arriving-none, Arriving-event,
  Arriving-one, Arriving-more, IsDone-step,
}

-- The numbers from one place of the list on.
abbrev pub ids : (ℕ → ℕ) → ℕ → ℕ → List Event
ids E k zero = []
ids E k (suc m) = id (E k) ∷ ids E (k + 1) m

length-ids : (E : ℕ → ℕ) (k m : ℕ) → length (ids E k m) ≡ m
length-ids E k zero = refl
length-ids E k (suc m) = ap suc (length-ids E (k + 1) m)

-- What a list of `n` entries sends down the pipeline; an empty one takes a cycle too.
abbrev pub streamed : (ℕ → ℕ) → ℕ → List Event
streamed E zero = silent ∷ []
streamed E (suc m) = ids E 0 (suc m)

IsDone-run :
    (f : Front) (c : Cycle)
    → IsDone f
    → (trace f (c ∷ []) ≡ Event.finished ∷ []) × ((run f (c ∷ [])).mgr.fsm ≡ idle)
unfolding trace run
IsDone-run f c h = (ap (λ e. e ∷ []) (IsDone-step f c h).1, (IsDone-step f c h).0)

Streaming-run :
    (l n : ℕ) (E : ℕ → ℕ) (f : Front) (cs : List Cycle) (r k : ℕ)
    → n < 128
    → Holds l n E f.mem
    → 0 < k
    → k + suc r ≡ n
    → length cs ≡ suc (suc r)
    → NoWrites cs
    → Streaming l n k E f
    → (trace f cs ≡ ids E k (suc r) ++ Event.finished ∷ []) × ((run f cs).mgr.fsm ≡ idle)
unfolding trace run
Streaming-run l n E f [] r k small h lo e len nw s = absurd (omega arith)
Streaming-run l n E f (c ∷ []) r k small h lo e len nw s = absurd (omega arith)
Streaming-run l n E f (c ∷ d ∷ x ∷ cs) zero k small h lo e len nw s = absurd (omega arith)
Streaming-run l n E f (c ∷ d ∷ []) zero k small h lo e len nw s =
    let (at_end, idle_again) =
      IsDone-run (step f c) d (Streaming-last l n E f c small h k lo (omega arith) s) in
    (ap₂ ◌∷◌ (Streaming-event l n E f c small h k lo s) at_end, idle_again)
Streaming-run l n E f (c ∷ d ∷ cs) (suc r) k small h lo e len nw s =
    let (later, at_end) =
      Streaming-run l n E (step f c) (d ∷ cs) r (k + 1) small (step-Holds l n E f c nw.0 h)
        (omega arith) (omega arith) (omega arith) nw.1
        (Streaming-step l n E f c small h k lo (omega arith) s) in
    (ap₂ ◌∷◌ (Streaming-event l n E f c small h k lo s) later, at_end)

-- From the cycle in which the length and the first entry arrive.
Arriving-run :
    (l n : ℕ) (E : ℕ → ℕ) (f : Front) (cs : List Cycle)
    → n < 128
    → Holds l n E f.mem
    → length cs ≡ length (streamed E n) + 1
    → NoWrites cs
    → Arriving l n E f
    → (trace f cs ≡ streamed E n ++ Event.finished ∷ []) × ((run f cs).mgr.fsm ≡ idle)
unfolding trace run
Arriving-run l n E f [] small h len nw s = absurd (omega arith)
Arriving-run l zero E f (c ∷ []) small h len nw s = absurd (omega arith)
Arriving-run l zero E f (c ∷ d ∷ x ∷ cs) small h len nw s = absurd (omega arith)
Arriving-run l zero E f (c ∷ d ∷ []) small h len nw s =
    let (done, ev) = Arriving-none l 0 E f c small h refl s in
    let (at_end, idle_again) = IsDone-run (step f c) d done in (ap₂ ◌∷◌ ev at_end, idle_again)
Arriving-run l (suc zero) E f (c ∷ []) small h len nw s = absurd (omega arith)
Arriving-run l (suc zero) E f (c ∷ d ∷ x ∷ cs) small h len nw s = absurd (omega arith)
Arriving-run l (suc zero) E f (c ∷ d ∷ []) small h len nw s =
    let (at_end, idle_again) = IsDone-run (step f c) d (Arriving-one l 1 E f c small h refl s) in
    (ap₂ ◌∷◌ (Arriving-event l 1 E f c small h (omega arith) s) at_end, idle_again)
Arriving-run l (suc (suc m)) E f (c ∷ cs) small h len nw s =
    let (later, at_end) =
      Streaming-run l (suc (suc m)) E (step f c) cs m 1 small
        (step-Holds l (suc (suc m)) E f c nw.0 h) (omega arith) (omega arith)
        (omega (arith, length-ids E 1 (suc m))) nw.1
        (Arriving-more l (suc (suc m)) E f c small h (omega arith) s) in
    (ap₂ ◌∷◌ (Arriving-event l (suc (suc m)) E f c small h (omega arith) s) later, at_end)

-- When an idle manager is started on a literal, and nobody writes to the watch lists, it streams
-- the entries of that literal's list in order, one in each cycle from the third on, then reports
-- that it is done and is idle again; further starts in the meantime are ignored.
pub streams :
    (f : Front) (c : Cycle) (cs : List Cycle)
    → f.mgr.fsm ≡ idle
    → c.start ≡ true
    → c.false_lit < 1024
    → list_length f.mem c.false_lit < 128
    → length cs ≡ length (streamed (entry f.mem c.false_lit) (list_length f.mem c.false_lit)) + 2
    → NoWrites (c ∷ cs)
    → (trace f (c ∷ cs)
        ≡ silent ∷ silent ∷ streamed (entry f.mem c.false_lit) (list_length f.mem c.false_lit)
          ++ Event.finished ∷ [])
      × ((run f (c ∷ cs)).mgr.fsm ≡ idle)
unfolding trace run
streams f c [] fi st lo small len nw = absurd (omega arith)
streams f c (d ∷ cs) fi st lo small len nw =
    let l = c.false_lit in
    let n = list_length f.mem l in
    let E = entry f.mem l in
    let h : Holds l n E f.mem = record { len_is = refl; entries_are = λ k. refl } in
    let h1 = step-Holds l n E f c nw.0 h in
    let fetching = start-Fetching l n E f c small h fi st refl lo in
    let (later, idle_again) =
      Arriving-run l n E (step (step f c) d) cs small (step-Holds l n E (step f c) d nw.1.0 h1)
        (omega arith) nw.1.1 (Fetching-step l n E (step f c) d small h1 fetching) in
    (
      ap₂ ◌∷◌ (start-event l n E f c small h fi)
          (ap₂ ◌∷◌ (Fetching-event l n E (step f c) d small h1 fetching) later),
      idle_again,
    )
