-- ===== src/ImplicationFifo/Entries.antt =====
-- implication_fifo.py: the 23-bit word holds the fields of an implication apart.
use cdcl_sat_solver.Base.{◌^◌, ◌<◌, ◌≡◌, bit-lt-two, arith}
use cdcl_sat_solver.ImplicationFifo.{Entry, pack, unpack}

-- Every field fits its port.
pub record IsEntry (e : Entry) : Type 0 where
  pub var_fits : e.var < 2 ^ 9
  pub reason_fits : e.reason < 2 ^ 13

pub unpack-pack : {e : Entry} → IsEntry e → unpack (pack e) ≡ e
unfolding pack unpack
unpack-pack {e} v = ground (arith, bit-lt-two e.value)
