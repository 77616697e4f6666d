-- ===== src/UartDriver.antt =====
-- src/software/hw_interface.c: the driver of the accelerator on the UART. What it writes and reads
-- on the serial port are lists of bytes; the operating system's calls are left out.
pub mod Commands
pub mod Stores
pub mod Answers
pub mod Rounds
pub mod Written
pub mod Exchange
pub mod Lists
pub mod Upload
use cdcl_sat_solver.Base.{
  ℕ, zero, suc, ◌+◌, ◌*◌, ◌/◌, ◌%◌, ◌-◌, Bool, true, false, ◌==◌, ltb, if◌then◌else◌, List, [], ◌∷◌,
  ◌++◌, length, none, some, Option, set_at,
}
use cdcl_sat_solver.Cdcl.{
  Value, false_value, true_value, unassigned_value, Clause, Solver, lit_neg, enqueue,
}
use cdcl_sat_solver.HostInterface.{
  cmd_write_clause, cmd_write_wl_entry, cmd_write_wl_len, cmd_write_assign, cmd_bcp_start,
  rsp_implication, rsp_done_ok, rsp_done_conf,
}

-- HW_UNASSIGNED, HW_FALSE and HW_TRUE.
abbrev pub hw_true : ℕ
hw_true = 2

unfoldable pub sw_to_hw_assign : Value → ℕ
sw_to_hw_assign true_value = 2
sw_to_hw_assign false_value = 1
sw_to_hw_assign unassigned_value = 0

-- `(x >> 8) & 0xFF` and `x & 0xFF`.
abbrev pub two_bytes : ℕ → List ℕ → List ℕ
two_bytes x bs = x / 256 % 256 ∷ x % 256 ∷ bs

-- The body of a loop for 0 to n - 1, one after another.
unfoldable pub for_upto {ℓ} : {A : Type ℓ} → (ℕ → List A) → ℕ → List A
for_upto body zero = []
for_upto body (suc n) = for_upto body n ++ body n

-- `hw_init`, a clause: at most five literals.
abbrev pub sent_size : Clause → ℕ
sent_size c = if ltb 5 c.size then 5 else c.size

abbrev pub sent_lit : Clause → ℕ → ℕ
sent_lit c k = if ltb k (sent_size c) then c.lits k else 0

unfoldable pub clause_bytes : Solver → ℕ → List ℕ
clause_bytes s ci =
    let c = s.clauses ci in
    cmd_write_clause
    ∷ two_bytes ci (
        sent_size c % 256
        ∷ 0
        ∷ two_bytes (sent_lit c 0) (
            two_bytes (sent_lit c 1)
              (two_bytes (sent_lit c 2) (two_bytes (sent_lit c 3) (two_bytes (sent_lit c 4) [])))))

-- `hw_init`, a watch list: its length and its entries, unless it is empty.
-- The entries from place `j` on.
unfoldable pub entries_bytes : ℕ → ℕ → List ℕ → List ℕ
entries_bytes lit j [] = []
entries_bytes lit j (cid ∷ cids) =
    (cmd_write_wl_entry ∷ two_bytes lit (j % 256 ∷ two_bytes cid []))
    ++ entries_bytes lit (j + 1) cids

unfoldable pub list_bytes : ℕ → List ℕ → List ℕ
unfolding entries_bytes
list_bytes lit cids =
    let wlen = length cids in
    if wlen == 0
    then []
    else (cmd_write_wl_len ∷ two_bytes lit (wlen % 256 ∷ [])) ++ entries_bytes lit 0 cids

-- `hw_write_assign`
unfoldable pub write_assign_bytes : ℕ → Value → List ℕ
unfolding sw_to_hw_assign
write_assign_bytes var val = cmd_write_assign ∷ two_bytes var (sw_to_hw_assign val ∷ [])

-- `hw_init`
unfoldable pub init_bytes : Solver → List ℕ
unfolding clause_bytes list_bytes write_assign_bytes for_upto
init_bytes s =
    for_upto (clause_bytes s) s.clause_count
    ++ (for_upto (λ lit. list_bytes lit (s.watches lit)) (2 * s.num_vars + 2)
        ++ for_upto (λ v. write_assign_bytes (v + 1) (s.assigns (v + 1))) s.num_vars)

-- `hw_sync_assigns`
abbrev pub is_unassigned : Value → Bool
is_unassigned unassigned_value = true
is_unassigned _ = false

unfoldable pub sync_bytes : Solver → List ℕ
unfolding write_assign_bytes for_upto
sync_bytes s =
    for_upto
      (λ v.
        if is_unassigned (s.assigns (v + 1))
        then write_assign_bytes (v + 1) unassigned_value
        else [])
      s.num_vars

-- The solver and the bytes on the line: those to be read, and those that were written.
pub record Link : Type 0 where
  pub solver : Solver
  pub incoming : List ℕ
  pub outgoing : List ℕ

-- What a packet leads to.
pub data Reading : Type 0 where
  again : Link → Reading
  done : Link → Reading
  done_conflict : ℕ → Link → Reading
  unexpected : Link → Reading
  starved : Link → Reading

-- The literal that the driver makes of a packet's variable and value.
unfoldable pub implied_code : ℕ → ℕ → ℕ
implied_code var hw_val = if hw_val == hw_true then 2 * var else 2 * var + 1

-- The case RSP_IMPLICATION, after its six bytes.
unfoldable pub take_implication : Link → ℕ → ℕ → ℕ → List ℕ → Link
unfolding implied_code write_assign_bytes enqueue
take_implication k var hw_val reason rest =
    let s = enqueue k.solver (implied_code var hw_val) (some reason) in
    record {
      solver = s;
      incoming = rest;
      outgoing = k.outgoing ++ write_assign_bytes var (s.assigns var);
    }

unfoldable pub implication_at : List ℕ → Link → Reading
unfolding take_implication
implication_at (vh ∷ vl ∷ v ∷ rh ∷ rl ∷ rest) k =
    again (take_implication k (vh * 256 + vl) v (rh * 256 + rl) rest)
implication_at _ k = starved k

unfoldable pub done_at : Bool → List ℕ → Link → Reading
done_at conflict (h ∷ l ∷ z ∷ rest) k =
    if conflict
    then done_conflict (h * 256 + l) (record k { incoming = rest })
    else done (record k { incoming = rest })
done_at conflict _ k = starved k

-- The body of `while (!done)`: one packet.
unfoldable pub read_packet : List ℕ → Link → Reading
unfolding implication_at done_at
read_packet [] k = starved k
read_packet (b ∷ bs) k =
    if b == rsp_implication
    then implication_at bs k
    else if b == rsp_done_ok
    then done_at false bs k
    else if b == rsp_done_conf
    then done_at true bs k
    else unexpected (record k { incoming = bs })

-- After a packet: the loop goes on, or is over.
abbrev pub go_on : (Link → Reading) → Reading → Reading
go_on more (again k) = more k
go_on more r = r

-- `while (!done)`, for so many packets at the most.
unfoldable pub read_packets : ℕ → Link → Reading
unfolding read_packet
read_packets zero k = again k
read_packets (suc n) k = go_on (read_packets n) (read_packet k.incoming k)

-- What `hw_propagate` returns: -1, or the clause of a conflict; and how it came to that.
pub data Ending : Type 0 where
  no_conflict : Link → Ending
  conflict_at : ℕ → Link → Ending
  broken : Link → Ending
  waiting : Link → Ending

abbrev pub returned : Ending → Option ℕ
returned (conflict_at ci k) = some ci
returned _ = none

abbrev pub advance : Link → Link
advance k = record k { solver = record k.solver { prop_head = k.solver.prop_head + 1 } }

abbrev pub start_bytes : ℕ → List ℕ
start_bytes false_lit = cmd_bcp_start ∷ two_bytes false_lit []

-- BCP_START on the negation of the next literal of the trail.
unfoldable pub send_start : Link → Link
unfolding lit_neg
send_start k = record k {
  outgoing = k.outgoing ++ start_bytes (lit_neg (k.solver.trail k.solver.prop_head));
}

-- After the packets of a run.
unfoldable pub next_literal : (Link → Ending) → Reading → Ending
next_literal more (again k) = waiting k
next_literal more (done k) = more (advance k)
next_literal more (done_conflict ci k) = conflict_at ci (advance k)
next_literal more (unexpected k) = broken k
next_literal more (starved k) = waiting k

-- One run: as many packets are read as the line can hold.
unfoldable pub one_run : Link → Reading
unfolding read_packets send_start
one_run k = let sent = send_start k in read_packets (length sent.incoming + 1) sent

-- `hw_propagate`, for so many runs at the most.
unfoldable pub hw_propagate : ℕ → Link → Ending
unfolding one_run next_literal
hw_propagate zero k = waiting k
hw_propagate (suc n) k =
    let rest = next_literal (hw_propagate n) (one_run k) in
    if ltb k.solver.prop_head k.solver.trail_size then rest else no_conflict k
