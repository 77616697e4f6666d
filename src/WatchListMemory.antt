-- ===== src/WatchListMemory.antt =====
-- src/hardware/memory/watch_list_memory.py: for each literal the clause numbers that watch it and
-- how many there are, in two memories read together with a latency of two cycles.
pub mod Reads
use cdcl_sat_solver.Base.{ℕ, ◌+◌, ◌*◌, Bool, false, if◌then◌else◌, low_bits}
use cdcl_sat_solver.Memory.{Cells, read, write, blank}

abbrev pub num_literals : ℕ
num_literals = 1024

abbrev pub max_watch_len : ℕ
max_watch_len = 100

abbrev pub clause_id_width : ℕ
clause_id_width = 13

abbrev pub length_width : ℕ
length_width = 7

abbrev pub clause_id_depth : ℕ
clause_id_depth = num_literals * max_watch_len

pub record Inputs : Type 0 where
  pub rd_lit : ℕ
  pub rd_idx : ℕ
  pub rd_en : Bool
  pub wr_lit : ℕ
  pub wr_idx : ℕ
  pub wr_data : ℕ
  pub wr_len : ℕ
  pub wr_en : Bool
  pub wr_len_en : Bool

-- The two memories, the output registers of their read ports, and the registers of `elaborate`.
pub record State : Type 0 where
  pub len_cells : Cells
  pub cid_cells : Cells
  pub len_rd_data : ℕ
  pub cid_rd_data : ℕ
  pub stage2_len : ℕ
  pub stage2_data : ℕ
  pub rd_en_pipe1 : Bool
  pub rd_en_pipe2 : Bool

abbrev pub reset : State
reset = record {
  len_cells = blank;
  cid_cells = blank;
  len_rd_data = 0;
  cid_rd_data = 0;
  stage2_len = 0;
  stage2_data = 0;
  rd_en_pipe1 = false;
  rd_en_pipe2 = false;
}

-- `rd_cid_addr` and `wr_cid_addr`, signals of 17 bits.
unfoldable pub cid_addr : ℕ → ℕ → ℕ
cid_addr lit idx = low_bits 17 (lit * max_watch_len + idx)

unfoldable pub rd_len : State → ℕ
rd_len s = s.stage2_len

unfoldable pub rd_data : State → ℕ
rd_data s = s.stage2_data

unfoldable pub rd_valid : State → Bool
rd_valid s = s.rd_en_pipe2

-- One clock edge.
unfoldable pub step : State → Inputs → State
step s i = record {
  len_cells = write num_literals s.len_cells i.wr_len_en i.wr_lit (low_bits length_width i.wr_len);
  cid_cells =
      write clause_id_depth s.cid_cells i.wr_en (cid_addr i.wr_lit i.wr_idx)
        (low_bits clause_id_width i.wr_data);
  len_rd_data = if i.rd_en then read num_literals s.len_cells i.rd_lit else s.len_rd_data;
  cid_rd_data =
      if i.rd_en
      then read clause_id_depth s.cid_cells (cid_addr i.rd_lit i.rd_idx)
      else s.cid_rd_data;
  stage2_len = s.len_rd_data;
  stage2_data = s.cid_rd_data;
  rd_en_pipe1 = i.rd_en;
  rd_en_pipe2 = s.rd_en_pipe1;
}
