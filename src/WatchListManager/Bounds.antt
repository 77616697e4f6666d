-- ===== src/WatchListManager/Bounds.antt =====
-- watch_list_manager.py: how many clause numbers it can have issued.
use cdcl_sat_solver.Base.{ℕ, ◌+◌, ◌≤◌, ◌<◌, ◌≡◌, ◌⊎◌, true, false, bit, arith}
use cdcl_sat_solver.WatchListManager
use cdcl_sat_solver.WatchListManager.{Inputs, State, fetch_len, stream, step, outputs}

-- `n` is at most the count of the numbers that were issued, and a list ends before 2 ^ 7.
pub record Tracks (s : State) (n : ℕ) : Type 0 where
  pub len_fits : s.watch_len < 128
  pub in_stream :
      s.fsm ≡ stream
      → (n ≤ s.output_count) × ((s.output_count ≡ 0) ⊎ (s.output_count < s.watch_len))
  pub in_fetch : s.fsm ≡ fetch_len → (n ≤ s.output_count) × (s.output_count ≡ 0)

-- A manager that is not started keeps count, and issues fewer than 2 ^ 7 numbers.
pub step-Tracks :
    (s : State) (i : Inputs) (n m : ℕ)
    → i.start ≡ false
    → i.wl_rd_len < 128
    → Tracks s n
    → m ≤ n + bit (outputs s i).clause_id_valid
    → Tracks (step s i) m
unfolding step outputs
step-Tracks s i n m st len t le = ground arith

pub issue_room :
    (s : State) (i : Inputs) (n : ℕ)
    → Tracks s n
    → n ≤ 127
    → n + bit (outputs s i).clause_id_valid < 128
unfolding outputs
issue_room s i n t le = ground arith

-- The list of an idle manager that is started has not begun.
pub start-Tracks :
    (s : State) (i : Inputs)
    → s.watch_len < 128
    → i.wl_rd_len < 128
    → s.fsm ≡ WatchListManager.idle
    → Tracks (step s i) 0
unfolding step
start-Tracks s i w len fi = ground arith

-- Outside STREAM no number is issued.
pub idle_silent :
    (s : State) (i : Inputs) → s.fsm ≡ WatchListManager.idle → (outputs s i).clause_id_valid ≡ false
unfolding outputs
idle_silent s i h = ground arith

pub idle_stays :
    (s : State) (i : Inputs) → s.fsm ≡ WatchListManager.idle → i.start ≡ false → step s i ≡ s
unfolding step
idle_stays s i h st = ground arith

pub done_to_idle :
    (s : State) (i : Inputs)
    → (outputs s i).done ≡ true
    → ((step s i).fsm ≡ WatchListManager.idle)
      × ((step s i).watch_len ≡ s.watch_len)
      × ((outputs s i).clause_id_valid ≡ false)
unfolding step outputs
done_to_idle s i h = ground arith
