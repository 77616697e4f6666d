-- ===== src/UartDriver/Commands.antt =====
-- hw_interface.c, hw_init: its bytes are those of commands.
use cdcl_sat_solver.Base.{
  ℕ, zero, suc, ◌+◌, ◌*◌, ◌/◌, ◌%◌, ◌<◌, ◌≤◌, ◌≡◌, refl, ap, ap₂, ◌∙◌, sym, false, ◌==◌, List, [],
  ◌∷◌, ◌++◌, length, arith,
}
use mathlib.Core.List.{append_assoc}
use cdcl_sat_solver.ClauseMemory
use cdcl_sat_solver.HostInterface.Commands.{
  Command, write_clause, write_wl_entry, write_wl_len, write_assign, opcode, payload,
}
use cdcl_sat_solver.HostInterface.Session.{sent_bytes}
use cdcl_sat_solver.Cdcl.{Value, Clause, Solver}
use cdcl_sat_solver.UartDriver.{
  sw_to_hw_assign, for_upto, sent_size, sent_lit, clause_bytes, entries_bytes, list_bytes,
  write_assign_bytes, init_bytes,
}

-- A clause as the clause database should hold it.
abbrev pub image : Clause → ClauseMemory.Clause
image c = record {
  sat_bit = false;
  size = sent_size c;
  lit0 = sent_lit c 0;
  lit1 = sent_lit c 1;
  lit2 = sent_lit c 2;
  lit3 = sent_lit c 3;
  lit4 = sent_lit c 4;
}

abbrev pub entry_commands : ℕ → ℕ → List ℕ → List Command
entry_commands lit j [] = []
entry_commands lit j (cid ∷ cids) = write_wl_entry lit j cid ∷ entry_commands lit (j + 1) cids

abbrev pub list_commands : ℕ → List ℕ → List Command
list_commands lit [] = []
list_commands lit (cid ∷ cids) =
    write_wl_len lit (length (cid ∷ cids)) ∷ entry_commands lit 0 (cid ∷ cids)

abbrev pub assign_command : Solver → ℕ → Command
assign_command s v = write_assign (v + 1) (sw_to_hw_assign (s.assigns (v + 1)))

abbrev pub init_commands : Solver → List Command
init_commands s =
    for_upto (λ ci. write_clause ci (image (s.clauses ci)) ∷ []) s.clause_count
    ++ (for_upto (λ lit. list_commands lit (s.watches lit)) (2 * s.num_vars + 2)
        ++ for_upto (λ v. assign_command s v ∷ []) s.num_vars)

abbrev pub AllBelow : ℕ → List ℕ → Type 0
AllBelow b [] = Unit
AllBelow b (x ∷ xs) = (x < b) × AllBelow b xs

-- The problem is within the accelerator's bounds.
pub record FitsHardware (s : Solver) : Type 0 where
  pub few_clauses : s.clause_count ≤ 8192
  pub few_vars : s.num_vars < 512
  pub short_lists : (lit : ℕ) → length (s.watches lit) ≤ 100
  pub ids_fit : (lit : ℕ) → AllBelow 8192 (s.watches lit)
  pub lits_fit : (ci k : ℕ) → (s.clauses ci).lits k < 1024

high_byte : (x : ℕ) → x < 65536 → x / 256 % 256 ≡ x / 256
high_byte x h = omega arith

one_byte : (x : ℕ) → x < 256 → x % 256 ≡ x
one_byte x h = omega arith

pub sent_lit-lt : (c : Clause) (k : ℕ) → c.lits k < 1024 → sent_lit c k < 65536
sent_lit-lt c k h = ground arith

pub sent_size-lt : (c : Clause) → sent_size c < 8
sent_size-lt c = ground arith

pub clause_bytes_lem :
    (s : Solver) (ci : ℕ)
    → FitsHardware s
    → ci < 8192
    → clause_bytes s ci ≡ sent_bytes (write_clause ci (image (s.clauses ci)) ∷ [])
unfolding clause_bytes
clause_bytes_lem s ci f lt =
    let c = s.clauses ci in
    let fits = λ (k : ℕ). high_byte (sent_lit c k) (sent_lit-lt c k (f.lits_fit ci k)) in
    rw
      (
        high_byte ci (omega arith),
        one_byte (sent_size c) (omega (arith, sent_size-lt c)),
        fits 0,
        fits 1,
        fits 2,
        fits 3,
        fits 4,
      )
      refl

pub hw_value-lt : (v : Value) → sw_to_hw_assign v < 4
unfolding sw_to_hw_assign
hw_value-lt v = ground arith

entries_bytes_lem :
    (lit j : ℕ) (cids : List ℕ)
    → lit < 1024
    → j + length cids ≤ 100
    → AllBelow 8192 cids
    → entries_bytes lit j cids ≡ sent_bytes (entry_commands lit j cids)
unfolding entries_bytes
entries_bytes_lem lit j [] lo sh be = refl
entries_bytes_lem lit j (cid ∷ cids) lo sh be =
    rw
      (
        high_byte lit (omega arith),
        one_byte j (omega arith),
        high_byte cid (omega (arith, be.0)),
        entries_bytes_lem lit (j + 1) cids lo (omega arith) be.1,
      )
      refl

not_empty : (n : ℕ) → (suc n == 0) ≡ false
not_empty n = ground arith

list_bytes_lem :
    (lit : ℕ) (cids : List ℕ)
    → lit < 1024
    → length cids ≤ 100
    → AllBelow 8192 cids
    → list_bytes lit cids ≡ sent_bytes (list_commands lit cids)
unfolding list_bytes
list_bytes_lem lit [] lo sh be = refl
list_bytes_lem lit (cid ∷ cids) lo sh be =
    rw
      (
        not_empty (length cids),
        high_byte lit (omega arith),
        one_byte (suc (length cids)) (omega arith),
        high_byte cid (omega (arith, be.0)),
        entries_bytes_lem lit 1 cids lo (omega arith) be.1,
      )
      refl

write_assign_bytes_lem :
    (s : Solver) (v : ℕ)
    → v < 511
    → write_assign_bytes (v + 1) (s.assigns (v + 1)) ≡ sent_bytes (assign_command s v ∷ [])
unfolding write_assign_bytes
write_assign_bytes_lem s v lt = rw (high_byte (v + 1) (omega arith)) refl

sent_bytes-append : (xs ys : List Command) → sent_bytes (xs ++ ys) ≡ sent_bytes xs ++ sent_bytes ys
sent_bytes-append [] ys = refl
sent_bytes-append (c ∷ xs) ys =
    ap (λ bs. (opcode c ∷ payload c) ++ bs) (sent_bytes-append xs ys)
    ∙ sym (append_assoc (opcode c ∷ payload c) (sent_bytes xs) (sent_bytes ys))

for_upto-sent_bytes :
    (cmds : ℕ → List Command) (body : ℕ → List ℕ) (n : ℕ)
    → ((i : ℕ) → i < n → body i ≡ sent_bytes (cmds i))
    → for_upto body n ≡ sent_bytes (for_upto cmds n)
unfolding for_upto
for_upto-sent_bytes cmds body zero h = refl
for_upto-sent_bytes cmds body (suc n) h =
    ap₂ ◌++◌ (for_upto-sent_bytes cmds body n (λ i lt. h i (omega arith))) (h n (omega arith))
    ∙ sym (sent_bytes-append (for_upto cmds n) (cmds n))

pub init_bytes_lem : (s : Solver) → FitsHardware s → init_bytes s ≡ sent_bytes (init_commands s)
unfolding init_bytes
init_bytes_lem s f =
    let clauses = λ (ci : ℕ). write_clause ci (image (s.clauses ci)) ∷ [] in
    let lists = λ (lit : ℕ). list_commands lit (s.watches lit) in
    let assigns = λ (v : ℕ). assign_command s v ∷ [] in
    let n = 2 * s.num_vars + 2 in
    ap₂ ◌++◌
      (for_upto-sent_bytes clauses (clause_bytes s) s.clause_count
        (λ ci lt. clause_bytes_lem s ci f (omega (arith, f.few_clauses))))
      (ap₂ ◌++◌
          (for_upto-sent_bytes lists (λ lit. list_bytes lit (s.watches lit)) n
            (λ lit lt.
              list_bytes_lem lit (s.watches lit) (omega (arith, f.few_vars)) (f.short_lists lit)
                (f.ids_fit lit)))
          (for_upto-sent_bytes assigns (λ v. write_assign_bytes (v + 1) (s.assigns (v + 1)))
            s.num_vars (λ v lt. write_assign_bytes_lem s v (omega (arith, f.few_vars))))
        ∙ sym (sent_bytes-append (for_upto lists n) (for_upto assigns s.num_vars)))
    ∙ sym (
        sent_bytes-append (for_upto clauses s.clause_count)
          (for_upto lists n ++ for_upto assigns s.num_vars))
