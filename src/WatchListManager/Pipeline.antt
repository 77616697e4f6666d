-- ===== src/WatchListManager/Pipeline.antt =====
-- watch_list_manager.py: each cycle of the pipeline between the manager and its memory.
use cdcl_sat_solver.Base.{ℕ, ◌+◌, ◌<◌, ◌≡◌, refl, true, false, min, arith}
use cdcl_sat_solver.Memory.{write}
use cdcl_sat_solver.WatchListMemory
use cdcl_sat_solver.WatchListMemory.Reads.{entry, list_length}
use cdcl_sat_solver.WatchListManager
use cdcl_sat_solver.WatchListManager.{stream, fetch_len, idle}
use cdcl_sat_solver.WatchListManager.Front.{
  Front, Cycle, Event, silent, id, mgr_outputs, event, step, NoWrite,
}

abbrev pub mgr_done : WatchListManager.Fsm
mgr_done = WatchListManager.finished

-- The watch list of a literal: its length and its entries.
pub record Holds (l n : ℕ) (E : ℕ → ℕ) (m : WatchListMemory.State) : Type 0 where
  pub len_is : list_length m l ≡ n
  pub entries_are : (k : ℕ) → entry m l k ≡ E k

write-disabled : (depth : ℕ) (m : ℕ → ℕ) (a v : ℕ) → write depth m false a v ≡ m
unfolding write
write-disabled depth m a v = refl

step-cells :
    (f : Front) (c : Cycle)
    → NoWrite c
    → ((step f c).mem.len_cells ≡ f.mem.len_cells) × ((step f c).mem.cid_cells ≡ f.mem.cid_cells)
unfolding step WatchListMemory.step
step-cells f c nw = (rw nw.1 (write-disabled _ _ _ _), rw nw.0 (write-disabled _ _ _ _))

pub step-Holds :
    (l n : ℕ) (E : ℕ → ℕ) (f : Front) (c : Cycle)
    → NoWrite c
    → Holds l n E f.mem
    → Holds l n E (step f c).mem
step-Holds l n E f c nw h =
    let (le, ce) = step-cells f c nw in
    record { len_is = rw le h.len_is; entries_are = λ k. rw ce (h.entries_are k) }

-- In STREAM with `k` numbers shown, the next two stand in the pipeline of the memory.
pub record Streaming (l n k : ℕ) (E : ℕ → ℕ) (f : Front) : Type 0 where
  pub in_stream : f.mgr.fsm ≡ stream
  pub lit_stored : f.mgr.stored_lit ≡ l
  pub shown : f.mgr.output_count ≡ k
  pub len_known : f.mgr.watch_len ≡ n
  pub now : f.mem.stage2_data ≡ E k
  pub next : k + 1 < n → f.mem.cid_rd_data ≡ E (k + 1)
  pub issued : f.mgr.pipe_idx ≡ min (k + 2) n

-- The first read has been issued.
pub record Fetching (l n : ℕ) (E : ℕ → ℕ) (f : Front) : Type 0 where
  pub in_fetch : f.mgr.fsm ≡ fetch_len
  pub lit_stored : f.mgr.stored_lit ≡ l
  pub shown : f.mgr.output_count ≡ 0
  pub issued : f.mgr.pipe_idx ≡ 1
  pub len_next : f.mem.len_rd_data ≡ n
  pub next : f.mem.cid_rd_data ≡ E 0

-- The first data are on the ports.
pub record Arriving (l n : ℕ) (E : ℕ → ℕ) (f : Front) : Type 0 where
  pub in_stream : f.mgr.fsm ≡ stream
  pub lit_stored : f.mgr.stored_lit ≡ l
  pub shown : f.mgr.output_count ≡ 0
  pub issued : f.mgr.pipe_idx ≡ 2
  pub len_now : f.mem.stage2_len ≡ n
  pub now : f.mem.stage2_data ≡ E 0
  pub next : f.mem.cid_rd_data ≡ E 1

abbrev pub IsDone : Front → Type 0
IsDone f = f.mgr.fsm ≡ mgr_done

module _ (l n : ℕ) (E : ℕ → ℕ) (f : Front) (c : Cycle) (small : n < 128)
    (h : Holds l n E f.mem) where
  pub Streaming-step :
      (k : ℕ) → 0 < k → k + 1 < n → Streaming l n k E f → Streaming l n (k + 1) E (step f c)
  unfolding step WatchListManager.step WatchListManager.outputs WatchListMemory.step
  Streaming-step k lo hi s = ground (arith, h.entries_are (k + 2))

  pub Streaming-event : (k : ℕ) → 0 < k → Streaming l n k E f → event (mgr_outputs f c) ≡ id (E k)
  unfolding mgr_outputs WatchListManager.outputs
  Streaming-event k lo s = ground arith

  pub Streaming-last : (k : ℕ) → 0 < k → k + 1 ≡ n → Streaming l n k E f → IsDone (step f c)
  unfolding step WatchListManager.step
  Streaming-last k lo hi s = ground arith

  pub start-Fetching :
      f.mgr.fsm ≡ idle → c.start ≡ true → c.false_lit ≡ l → l < 1024 → Fetching l n E (step f c)
  unfolding step WatchListManager.step WatchListManager.outputs WatchListMemory.step
  start-Fetching fi st fl lo = ground (arith, h.len_is, h.entries_are 0)

  pub start-event : f.mgr.fsm ≡ idle → event (mgr_outputs f c) ≡ silent
  unfolding mgr_outputs WatchListManager.outputs
  start-event fi = ground arith

  pub Fetching-step : Fetching l n E f → Arriving l n E (step f c)
  unfolding step WatchListManager.step WatchListManager.outputs WatchListMemory.step
  Fetching-step s = ground (arith, h.entries_are 1)

  pub Fetching-event : Fetching l n E f → event (mgr_outputs f c) ≡ silent
  unfolding mgr_outputs WatchListManager.outputs
  Fetching-event s = ground arith

  pub Arriving-none :
      n ≡ 0 → Arriving l n E f → IsDone (step f c) × (event (mgr_outputs f c) ≡ silent)
  unfolding step WatchListManager.step mgr_outputs WatchListManager.outputs
  Arriving-none z s = ground arith

  pub Arriving-event : 0 < n → Arriving l n E f → event (mgr_outputs f c) ≡ id (E 0)
  unfolding mgr_outputs WatchListManager.outputs
  Arriving-event z s = ground arith

  pub Arriving-one : n ≡ 1 → Arriving l n E f → IsDone (step f c)
  unfolding step WatchListManager.step
  Arriving-one z s = ground arith

  pub Arriving-more : 1 < n → Arriving l n E f → Streaming l n 1 E (step f c)
  unfolding step WatchListManager.step WatchListManager.outputs WatchListMemory.step
  Arriving-more z s = ground (arith, h.entries_are 2)

pub IsDone-step :
    (f : Front) (c : Cycle)
    → IsDone f
    → ((step f c).mgr.fsm ≡ idle) × (event (mgr_outputs f c) ≡ Event.finished)
unfolding step WatchListManager.step mgr_outputs WatchListManager.outputs
IsDone-step f c h = ground arith
