-- ===== src/ClauseMemory.antt =====
-- src/hardware/memory/clause_memory.py: the clause database, one 84-bit word for a clause, read
-- with a latency of two cycles.
pub mod Fields
pub mod Reads
use cdcl_sat_solver.Base.{
  ℕ, ◌+◌, ◌*◌, ◌^◌, Bool, false, if◌then◌else◌, low_bits, slice, bit_at, bit,
}
use cdcl_sat_solver.Memory.{Cells, read, write, blank}

abbrev pub max_clauses : ℕ
max_clauses = 8192

-- LIT_WIDTH; MAX_K, the number of literals of a clause, is 5.
abbrev pub lit_width : ℕ
lit_width = 16

abbrev pub clause_word_width : ℕ
clause_word_width = 84

-- The fields that the `wr_data_*` and `rd_data_*` ports carry.
pub record Clause : Type 0 where
  pub sat_bit : Bool
  pub size : ℕ  -- 3 bits
  pub lit0 : ℕ  -- 16 bits each
  pub lit1 : ℕ
  pub lit2 : ℕ
  pub lit3 : ℕ
  pub lit4 : ℕ

pub record Inputs : Type 0 where
  pub rd_addr : ℕ
  pub rd_en : Bool
  pub wr_addr : ℕ
  pub wr_data : Clause
  pub wr_en : Bool

-- The memory, the output register of its read port, and the registers of `elaborate`.
pub record State : Type 0 where
  pub cells : Cells
  pub rd_port_data : ℕ
  pub stage2_data : ℕ
  pub rd_en_pipe1 : Bool
  pub rd_en_pipe2 : Bool

abbrev pub reset : State
reset = record {
  cells = blank;
  rd_port_data = 0;
  stage2_data = 0;
  rd_en_pipe1 = false;
  rd_en_pipe2 = false;
}

-- `wr_word`: each field in its slice of the word.
unfoldable pub pack : Clause → ℕ
pack c =
    bit c.sat_bit
    + low_bits 3 c.size * 2 ^ 1
    + low_bits lit_width c.lit0 * 2 ^ 4
    + low_bits lit_width c.lit1 * 2 ^ 20
    + low_bits lit_width c.lit2 * 2 ^ 36
    + low_bits lit_width c.lit3 * 2 ^ 52
    + low_bits lit_width c.lit4 * 2 ^ 68

unfoldable pub unpack : ℕ → Clause
unpack w = record {
  sat_bit = bit_at 0 w;
  size = slice 1 3 w;
  lit0 = slice 4 16 w;
  lit1 = slice 20 16 w;
  lit2 = slice 36 16 w;
  lit3 = slice 52 16 w;
  lit4 = slice 68 16 w;
}

-- The combinational outputs `rd_data_*`, and `rd_valid`.
unfoldable pub rd_data : State → Clause
rd_data s = unpack s.stage2_data

unfoldable pub rd_valid : State → Bool
rd_valid s = s.rd_en_pipe2

-- One clock edge. The read port keeps its word while it is not enabled, and does not see a write
-- of the same edge.
unfoldable pub step : State → Inputs → State
step s i = record {
  cells = write max_clauses s.cells i.wr_en i.wr_addr (pack i.wr_data);
  rd_port_data = if i.rd_en then read max_clauses s.cells i.rd_addr else s.rd_port_data;
  stage2_data = s.rd_port_data;
  rd_en_pipe1 = i.rd_en;
  rd_en_pipe2 = s.rd_en_pipe1;
}
