-- ===== src/ClauseMemory/Fields.antt =====
-- The 84-bit word of clause_memory.py holds the fields of a clause apart.
use cdcl_sat_solver.Base.{◌^◌, ◌<◌, ◌≡◌, bit-lt-two, arith}
use cdcl_sat_solver.ClauseMemory.{Clause, pack, unpack, clause_word_width}

-- Every field fits its port.
pub record IsClause (c : Clause) : Type 0 where
  pub size_fits : c.size < 2 ^ 3
  pub lit0_fits : c.lit0 < 2 ^ 16
  pub lit1_fits : c.lit1 < 2 ^ 16
  pub lit2_fits : c.lit2 < 2 ^ 16
  pub lit3_fits : c.lit3 < 2 ^ 16
  pub lit4_fits : c.lit4 < 2 ^ 16

pub pack-lt : (c : Clause) → pack c < 2 ^ clause_word_width
unfolding pack
pack-lt c = omega (arith, bit-lt-two c.sat_bit)

-- A clause whose fields fit their ports is unpacked from its word as it was packed.
pub unpack-pack : {c : Clause} → IsClause c → unpack (pack c) ≡ c
unfolding pack unpack
unpack-pack {c} v = ground (arith, bit-lt-two c.sat_bit)
