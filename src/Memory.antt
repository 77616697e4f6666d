-- ===== src/Memory.antt =====
-- The memory primitive of the hardware language (amaranth.lib.memory), as the memory modules use
-- it: a read outside the depth gives 0, and a write outside it is lost.
use cdcl_sat_solver.Base.{
  ℕ, ◌<◌, ◌≡◌, ◌≢◌, Bool, true, false, ◌&&◌, ltb, ◌==◌, if◌then◌else◌, arith,
}

abbrev pub Cells : Type 0
Cells = ℕ → ℕ

-- The contents that `init=[]` stands for.
abbrev pub blank : Cells
blank _ = 0

-- A read port: the word at an address.
unfoldable pub read : ℕ → Cells → ℕ → ℕ
read depth cells addr = if ltb addr depth then cells addr else 0

-- A write port at a clock edge: the contents after it.
unfoldable pub write : ℕ → Cells → Bool → ℕ → ℕ → Cells
write depth cells en addr v i = if en && (ltb addr depth && i == addr) then v else cells i

pub read-write_self :
    (depth : ℕ) (cells : Cells) (addr v : ℕ)
    → addr < depth
    → read depth (write depth cells true addr v) addr ≡ v
unfolding read write
read-write_self depth cells addr v h = ground arith

pub read-write_ne :
    (depth : ℕ) (cells : Cells) (en : Bool) (addr v a : ℕ)
    → a ≢ addr
    → read depth (write depth cells en addr v) a ≡ read depth cells a
unfolding read write
read-write_ne depth cells en addr v a h = ground arith

pub read-write_disabled :
    (depth : ℕ) (cells : Cells) (addr v a : ℕ)
    → read depth (write depth cells false addr v) a ≡ read depth cells a
unfolding read write
read-write_disabled depth cells addr v a = ground arith
