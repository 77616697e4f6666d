-- ===== src/JtagHostInterface/Requests.antt =====
-- jtag_host_interface.py: the words that carry the commands of the protocol.
use cdcl_sat_solver.Base.{
  ℕ, zero, suc, ◌+◌, ◌*◌, ◌^◌, ◌<◌, ◌≡◌, refl, Bool, true, false, List, [], ◌∷◌, bit, bit-lt-two,
  bit_at, slice, arith, low_bits,
}
use cdcl_sat_solver.ClauseMemory.{Clause}
use cdcl_sat_solver.HostInterface.{word16}
use cdcl_sat_solver.HostInterface.Commands.{
  Command, write_clause, write_wl_entry, write_wl_len, write_assign, bcp_start, payload, opcode,
  Fits,
}
use cdcl_sat_solver.JtagHostInterface.Core.{buf, Latched, Flags, State, dispatch}

-- Bytes at the high end of a word of n bytes, the first one highest.
abbrev pub big_endian : ℕ → List ℕ → ℕ
big_endian n [] = 0
big_endian zero (b ∷ bs) = 0
big_endian (suc n) (b ∷ bs) = b * 256 ^ n + big_endian n bs

-- Command byte, payload and sequence number; the payload is that of the byte stream.
abbrev pub request : Command → ℕ → ℕ
request c seq = big_endian 16 (opcode c ∷ payload c) + seq

-- The registers that a command writes, and the flag that it raises.
abbrev pub latch : Command → Latched → Latched
latch (write_clause cid c) l = record l { clause_addr_r = cid; clause_r = c }
latch (write_wl_entry lit idx cid) l = record l { wl_lit_r = lit; wl_idx_r = idx; wl_data_r = cid }
latch (write_wl_len lit len) l = record l { wl_lit_r = lit; wl_len_r = len }
latch (write_assign var val) l = record l { assign_addr_r = var; assign_data_r = val }
latch (bcp_start lit) l = record l { bcp_false_lit_r = lit }

abbrev pub raise : Command → Flags → Flags
raise (write_clause _ _) f = record f { clause_wr_pending = true }
raise (write_wl_entry _ _ _) f = record f { wl_wr_pending = true }
raise (write_wl_len _ _) f = record f { wl_len_pending = true }
raise (write_assign _ _) f = record f { assign_wr_pending = true }
raise (bcp_start _) f = record f { bcp_start_pending = true }

pub request-opcode :
    (c : Command) (seq : ℕ) → Fits c → seq < 256 → slice 120 8 (request c seq) ≡ opcode c
request-opcode (write_clause cid c) seq f h = omega (arith, bit-lt-two c.sat_bit)
request-opcode (write_wl_entry lit idx cid) seq f h = omega arith
request-opcode (write_wl_len lit len) seq f h = omega arith
request-opcode (write_assign var val) seq f h = omega arith
request-opcode (bcp_start lit) seq f h = omega arith

pub request-seq : (c : Command) (seq : ℕ) → Fits c → seq < 256 → slice 0 8 (request c seq) ≡ seq
request-seq (write_clause cid c) seq f h = omega (arith, bit-lt-two c.sat_bit)
request-seq (write_wl_entry lit idx cid) seq f h = omega arith
request-seq (write_wl_len lit len) seq f h = omega arith
request-seq (write_assign var val) seq f h = omega arith
request-seq (bcp_start lit) seq f h = omega arith

-- The bytes of a clause, where the fields of the request stand.
clause_fields :
    (cid : ℕ) (c : Clause) (seq : ℕ)
    → Fits (write_clause cid c)
    → seq < 256
    → let b = buf (request (write_clause cid c) seq) in
      (low_bits 13 (word16 b 0) ≡ cid)
      × (low_bits 3 (b 2) ≡ c.size)
      × (b 3 ≡ bit c.sat_bit)
      × (word16 b 4 ≡ c.lit0)
      × (word16 b 6 ≡ c.lit1)
      × (word16 b 8 ≡ c.lit2)
      × (word16 b 10 ≡ c.lit3)
      × (word16 b 12 ≡ c.lit4)
clause_fields cid c seq f h = omega (arith, bit-lt-two c.sat_bit)

entry_fields :
    (lit idx cid seq : ℕ)
    → Fits (write_wl_entry lit idx cid)
    → seq < 256
    → let b = buf (request (write_wl_entry lit idx cid) seq) in
      (low_bits 10 (word16 b 0) ≡ lit) × (low_bits 7 (b 2) ≡ idx) × (low_bits 13 (word16 b 3) ≡ cid)
entry_fields lit idx cid seq f h = omega arith

len_fields :
    (lit len seq : ℕ)
    → Fits (write_wl_len lit len)
    → seq < 256
    → let b = buf (request (write_wl_len lit len) seq) in
      (low_bits 10 (word16 b 0) ≡ lit) × (low_bits 7 (b 2) ≡ len)
len_fields lit len seq f h = omega arith

assign_fields :
    (var val seq : ℕ)
    → Fits (write_assign var val)
    → seq < 256
    → let b = buf (request (write_assign var val) seq) in
      (low_bits 9 (word16 b 0) ≡ var) × (low_bits 2 (b 2) ≡ val)
assign_fields var val seq f h = omega arith

start_field :
    (lit seq : ℕ)
    → Fits (bcp_start lit)
    → seq < 256
    → let b = buf (request (bcp_start lit) seq) in (low_bits 10 (word16 b 0) ≡ lit)
start_field lit seq f h = omega arith

bit_at-bit : (b : Bool) (x : ℕ) → x ≡ bit b → bit_at 0 x ≡ b
bit_at-bit true x e = rw e refl
bit_at-bit false x e = rw e refl

pub dispatch-request :
    (c : Command) (seq : ℕ) (t : State)
    → Fits c
    → seq < 256
    → dispatch (opcode c) (request c seq) t
      ≡ record t { latched = latch c t.latched; flags = raise c t.flags }
unfolding dispatch
dispatch-request (write_clause cid c) seq t f h =
    let e = clause_fields cid c seq f h in
    rw (e.0, e.1, bit_at-bit c.sat_bit _ e.2, e.3, e.4, e.5, e.6, e.7) refl
dispatch-request (write_wl_entry lit idx cid) seq t f h =
    let e = entry_fields lit idx cid seq f h in rw (e.0, e.1, e.2) refl
dispatch-request (write_wl_len lit len) seq t f h =
    let e = len_fields lit len seq f h in rw (e.0, e.1) refl
dispatch-request (write_assign var val) seq t f h =
    let e = assign_fields var val seq f h in rw (e.0, e.1) refl
dispatch-request (bcp_start lit) seq t f h = let e = start_field lit seq f h in rw (e) refl
