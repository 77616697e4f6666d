-- ===== src/HostInterface/Commands.antt =====
-- host_interface.py: the commands of the protocol, and CMD_EXEC.
use cdcl_sat_solver.Base.{
  ℕ, ◌+◌, ◌*◌, ◌/◌, ◌%◌, ◌^◌, ◌<◌, ◌≡◌, refl, ap, ap₂, ◌∙◌, sym, Bool, true, false, List, [], ◌∷◌,
  ◌++◌, length, replicate, arith, bit, bit_at, low_bits, length-append,
}
use native.Mathlib.Nat.{mod-eq_of_lt}
use cdcl_sat_solver.ClauseMemory.{Clause}
use cdcl_sat_solver.HostInterface.{
  Fsm, State, Inputs, Outputs, cmd_wait, bcp_wait, payload_of, quiet, outputs, step, exec_outputs,
  outputs_in, no_clause, no_wl, no_assign, cmd_write_clause, cmd_write_wl_entry, cmd_write_wl_len,
  cmd_write_assign, cmd_bcp_start, put,
}
use cdcl_sat_solver.HostInterface.Receive.{
  bytes, load, run, trace, executing, receives, quiet_receiving, trace-append, run-append,
}

-- The commands of the module's documentation, with their fields.
pub data Command : Type 0 where
  write_clause : (clause_id : ℕ) (clause : Clause) → Command
  write_wl_entry : (lit idx clause_id : ℕ) → Command
  write_wl_len : (lit len : ℕ) → Command
  write_assign : (var val : ℕ) → Command
  bcp_start : (false_lit : ℕ) → Command

-- A field of two bytes, the high one first, before the bytes that follow.
abbrev pub word : ℕ → List ℕ → List ℕ
word x bs = x / 256 ∷ x % 256 ∷ bs

abbrev pub opcode : Command → ℕ
opcode (write_clause _ _) = cmd_write_clause
opcode (write_wl_entry _ _ _) = cmd_write_wl_entry
opcode (write_wl_len _ _) = cmd_write_wl_len
opcode (write_assign _ _) = cmd_write_assign
opcode (bcp_start _) = cmd_bcp_start

abbrev pub payload : Command → List ℕ
payload (write_clause cid c) = word cid (
    c.size ∷ bit c.sat_bit ∷ word c.lit0 (word c.lit1 (word c.lit2 (word c.lit3 (word c.lit4 [])))))
payload (write_wl_entry lit idx cid) = word lit (idx ∷ word cid [])
payload (write_wl_len lit len) = word lit (len ∷ [])
payload (write_assign var val) = word var (val ∷ [])
payload (bcp_start lit) = word lit []

-- The fields are as wide as the ports they go to.
abbrev pub Fits : Command → Type 0
Fits (write_clause cid c) =
    (cid < 2 ^ 13)
    × (c.size < 2 ^ 3)
    × (c.lit0 < 2 ^ 16)
    × (c.lit1 < 2 ^ 16)
    × (c.lit2 < 2 ^ 16)
    × (c.lit3 < 2 ^ 16)
    × (c.lit4 < 2 ^ 16)
Fits (write_wl_entry lit idx cid) = (lit < 2 ^ 10) × (idx < 2 ^ 7) × (cid < 2 ^ 13)
Fits (write_wl_len lit len) = (lit < 2 ^ 10) × (len < 2 ^ 7)
Fits (write_assign var val) = (var < 2 ^ 9) × (val < 2 ^ 2)
Fits (bcp_start lit) = lit < 2 ^ 10

-- What a command asks for: one write, or the start.
abbrev pub effect : Command → Outputs
effect (write_clause cid c) = record quiet {
  clause_wr = record no_clause { wr_addr = cid; wr_data = c; wr_en = true };
}
effect (write_wl_entry lit idx cid) = record quiet {
  wl_wr = record no_wl { wr_lit = lit; wr_idx = idx; wr_data = cid; wr_en = true };
}
effect (write_wl_len lit len) = record quiet {
  wl_wr = record no_wl { wr_lit = lit; wr_len = len; wr_len_en = true };
}
effect (write_assign var val) = record quiet {
  assign_wr = record no_assign { wr_addr = var; wr_data = val; wr_en = true };
}
effect (bcp_start lit) = record quiet { bcp_start = true; bcp_false_lit = lit }

-- The state that a command leads to.
abbrev pub next : Command → Fsm
next (bcp_start _) = bcp_wait
next _ = cmd_wait

read_word : (x : ℕ) → x % 256 + x / 256 * 256 ≡ x
read_word x = omega arith

narrow : (w x : ℕ) → x < 2 ^ w → low_bits w x ≡ x
narrow w x lt = mod-eq_of_lt lt

bit_at-bit : (b : Bool) → bit_at 0 (bit b) ≡ b
bit_at-bit true = refl
bit_at-bit false = refl

executes :
    (s : State) (i : Inputs) (c : Command)
    → Fits c
    → outputs (executing s (opcode c) (payload c)) i ≡ effect c
unfolding outputs outputs_in exec_outputs load put
executes s i (write_clause cid c) f =
    rw
      (
        read_word cid,
        read_word c.lit0,
        read_word c.lit1,
        read_word c.lit2,
        read_word c.lit3,
        read_word c.lit4,
        bit_at-bit c.sat_bit,
        narrow 13 cid f.0,
        narrow 3 c.size f.1,
      )
      refl
executes s i (write_wl_entry lit idx cid) f =
    rw (read_word lit, read_word cid, narrow 10 lit f.0, narrow 7 idx f.1, narrow 13 cid f.2) refl
executes s i (write_wl_len lit len) f = rw (read_word lit, narrow 10 lit f.0, narrow 7 len f.1) refl
executes s i (write_assign var val) f = rw (read_word var, narrow 9 var f.0, narrow 2 val f.1) refl
executes s i (bcp_start lit) f = rw (read_word lit, narrow 10 lit f) refl

after_executing :
    (s : State) (i : Inputs) (c : Command) (bs : List ℕ)
    → (step (executing s (opcode c) bs) i).fsm ≡ next c
unfolding step
after_executing s i (write_clause _ _) bs = refl
after_executing s i (write_wl_entry _ _ _) bs = refl
after_executing s i (write_wl_len _ _) bs = refl
after_executing s i (write_assign _ _) bs = refl
after_executing s i (bcp_start _) bs = refl

payload-length : (c : Command) → length (payload c) ≡ payload_of (opcode c)
unfolding payload_of
payload-length (write_clause _ _) = refl
payload-length (write_wl_entry _ _ _) = refl
payload-length (write_wl_len _ _) = refl
payload-length (write_assign _ _) = refl
payload-length (bcp_start _) = refl

-- A command whose fields fit, sent as its opcode and its payload with any gaps between the bytes
-- to an interface that waits for a command: its effect is driven in the cycle after the last byte,
-- nothing is driven before, and the interface then waits for the next command, or for the end of
-- the run after a start.
pub delivers :
    (s : State) (c : Command) (head : Inputs) (is : List Inputs) (last i : Inputs)
    → Fits c
    → s.fsm ≡ cmd_wait
    → head.rx_valid ≡ true
    → head.rx_data ≡ opcode c
    → last.rx_valid ≡ true
    → bytes is ++ last.rx_data ∷ [] ≡ payload c
    → (trace s ((head ∷ is ++ last ∷ []) ++ i ∷ [])
        ≡ (quiet ∷ replicate (length is) quiet ++ quiet ∷ []) ++ effect c ∷ [])
      × ((run s ((head ∷ is ++ last ∷ []) ++ i ∷ [])).fsm ≡ next c)
unfolding trace run
delivers s c head is last i f w hv hd lv pl =
    let enough : length (bytes is) + 1 ≡ payload_of head.rx_data =
      sym (length-append (bytes is) (last.rx_data ∷ []))
      ∙ ap length pl
      ∙ payload-length c
      ∙ ap payload_of (sym hd) in
    let arrived : run s (head ∷ is ++ last ∷ []) ≡ executing s (opcode c) (payload c) =
      receives s head is last w hv lv enough ∙ ap₂ (executing s) hd pl in
    (
      trace-append s (head ∷ is ++ last ∷ []) (i ∷ [])
          ∙ ap₂ ◌++◌ (quiet_receiving s head is last w hv lv enough)
              (ap (λ t. outputs t i ∷ []) arrived ∙ ap (λ o. o ∷ []) (executes s i c f)),
      ap (λ t. t.fsm) (run-append s (head ∷ is ++ last ∷ []) (i ∷ []) ∙ ap (λ t. step t i) arrived)
          ∙ after_executing s i c (payload c),
    )
