-- ===== src/ImplicationFifo.antt =====
-- src/hardware/modules/implication_fifo.py: a circular buffer of implications, with a handshake on
-- each side. Every definition takes the depth, `fifo_depth` of the source.
pub mod Entries
pub mod Inv
pub mod Queue
pub mod Refine
use cdcl_sat_solver.Base.{
  ℕ, ◌+◌, ◌-◌, ◌*◌, ◌^◌, Bool, true, false, not, ◌&&◌, ◌==◌, if◌then◌else◌, low_bits, slice, bit_at,
  bit,
}
use cdcl_sat_solver.Memory.{Cells, read, write, blank}

abbrev pub default_fifo_depth : ℕ
default_fifo_depth = 16

-- `push_var`, `push_value`, `push_reason`, and the same on the pop side.
pub record Entry : Type 0 where
  pub var : ℕ  -- 9 bits
  pub value : Bool
  pub reason : ℕ  -- 13 bits

pub record Inputs : Type 0 where
  pub push_valid : Bool
  pub push : Entry
  pub pop_ready : Bool

pub record State : Type 0 where
  pub mem : Cells
  pub wr_ptr : ℕ
  pub rd_ptr : ℕ
  pub count : ℕ

pub record Outputs : Type 0 where
  pub pop_valid : Bool
  pub pop : Entry
  pub fifo_empty : Bool
  pub fifo_full : Bool

abbrev pub reset : State
reset = record { mem = blank; wr_ptr = 0; rd_ptr = 0; count = 0 }

-- `push_word`, 23 bits.
unfoldable pub pack : Entry → ℕ
pack e = low_bits 9 e.var + bit e.value * 2 ^ 9 + low_bits 13 e.reason * 2 ^ 10

unfoldable pub unpack : ℕ → Entry
unpack w = record { var = slice 0 9 w; value = bit_at 9 w; reason = slice 10 13 w }

module _ (depth : ℕ) where
  abbrev pub empty : State → Bool
  empty s = s.count == 0

  abbrev pub full : State → Bool
  full s = s.count == depth

  abbrev pub do_push : State → Inputs → Bool
  do_push s i = i.push_valid && not (full s)

  abbrev pub do_pop : State → Inputs → Bool
  do_pop s i = i.pop_ready && not (empty s)

  -- A pointer moves on by one and wraps at the depth.
  abbrev pub next_ptr : ℕ → ℕ
  next_ptr p = if p == depth - 1 then 0 else p + 1

  -- The combinational outputs.
  unfoldable pub outputs : State → Outputs
  outputs s = record {
    pop_valid = not (empty s);
    pop = unpack (read depth s.mem s.rd_ptr);
    fifo_empty = empty s;
    fifo_full = full s;
  }

  -- One clock edge. The counter moves by one only where it stays from 0 to `depth`.
  unfoldable pub step : State → Inputs → State
  step s i = record {
    mem = write depth s.mem (do_push s i) s.wr_ptr (pack i.push);
    wr_ptr = if do_push s i then next_ptr s.wr_ptr else s.wr_ptr;
    rd_ptr = if do_pop s i then next_ptr s.rd_ptr else s.rd_ptr;
    count =
        if do_push s i && not (do_pop s i)
        then s.count + 1
        else if do_pop s i && not (do_push s i)
        then s.count - 1
        else s.count;
  }
