-- ===== src/WatchListMemory/Reads.antt =====
-- watch_list_memory.py: the composite address keeps the lists of two literals apart, and an entry
-- is read as it was written.
use cdcl_sat_solver.Base.{ℕ, ◌<◌, ◌≡◌, true, if◌then◌else◌, ◌&&◌, ◌==◌, arith}
use cdcl_sat_solver.Memory.{read, write}
use cdcl_sat_solver.WatchListMemory.{
  Inputs, State, num_literals, max_watch_len, clause_id_depth, cid_addr, step,
}

-- Addresses of entries of the lists are in range, and no two entries share one.
pub cid_addr-injective :
    (l k i j : ℕ)
    → l < num_literals
    → i < max_watch_len
    → k < num_literals
    → j < max_watch_len
    → cid_addr l i ≡ cid_addr k j
    → (l ≡ k) × (i ≡ j)
unfolding cid_addr
cid_addr-injective l k i j hl hi hk hj e = omega arith

pub cid_addr-lt : (l i : ℕ) → l < num_literals → i < max_watch_len → cid_addr l i < clause_id_depth
unfolding cid_addr
cid_addr-lt l i hl hi = omega arith

-- The entry of a literal's list that the memory holds, and the length of the list.
abbrev pub entry : State → ℕ → ℕ → ℕ
entry s l i = read clause_id_depth s.cid_cells (cid_addr l i)

abbrev pub list_length : State → ℕ → ℕ
list_length s l = read num_literals s.len_cells l

-- Writing an entry of a list inside the bounds of the memory changes that entry alone, among all
-- entries of all lists.
pub entry-step :
    (s : State) (w : Inputs) (l i : ℕ)
    → w.wr_en ≡ true
    → w.wr_lit < num_literals
    → w.wr_idx < max_watch_len
    → w.wr_data < 8192
    → l < num_literals
    → i < max_watch_len
    → entry (step s w) l i ≡ (if (l == w.wr_lit) && (i == w.wr_idx) then w.wr_data else entry s l i)
unfolding step read write
entry-step s w l i we wl wi wd hl hi = ground (
  arith,
  cid_addr-lt w.wr_lit w.wr_idx,
  cid_addr-lt l i,
  cid_addr-injective l w.wr_lit i w.wr_idx,
)

-- Writing a length below 2 ^ 7 changes the length of that literal alone.
pub list_length-step :
    (s : State) (w : Inputs) (l : ℕ)
    → w.wr_len_en ≡ true
    → w.wr_lit < num_literals
    → w.wr_len < 128
    → list_length (step s w) l ≡ (if l == w.wr_lit then w.wr_len else list_length s l)
unfolding step read write
list_length-step s w l we wl wd = ground arith
