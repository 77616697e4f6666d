-- ===== src/UartDriver/Stores.antt =====
-- hw_interface.c, hw_init: its commands fit their fields, and none of them starts a run.
use cdcl_sat_solver.Base.{ℕ, zero, suc, ◌+◌, ◌*◌, ◌<◌, ◌≤◌, List, [], ◌∷◌, ◌++◌, length, arith}
use cdcl_sat_solver.HostInterface.Commands.{Command, write_clause}
use cdcl_sat_solver.HostInterface.Session.{AllStores}
use cdcl_sat_solver.Cdcl.{Solver}
use cdcl_sat_solver.UartDriver.{for_upto}
use cdcl_sat_solver.UartDriver.Commands.{
  image, entry_commands, list_commands, assign_command, init_commands, AllBelow, FitsHardware,
  hw_value-lt, sent_lit-lt, sent_size-lt,
}

AllStores-append : (xs ys : List Command) → AllStores xs → AllStores ys → AllStores (xs ++ ys)
AllStores-append [] ys a b = b
AllStores-append (x ∷ xs) ys a b = (a.0, a.1, AllStores-append xs ys a.2 b)

for_upto-AllStores :
    (cmds : ℕ → List Command) (n : ℕ)
    → ((i : ℕ) → i < n → AllStores (cmds i))
    → AllStores (for_upto cmds n)
unfolding for_upto
for_upto-AllStores cmds zero h = tt
for_upto-AllStores cmds (suc n) h =
    AllStores-append (for_upto cmds n) (cmds n)
      (for_upto-AllStores cmds n (λ i lt. h i (omega arith))) (h n (omega arith))

entries-AllStores :
    (lit j : ℕ) (cids : List ℕ)
    → lit < 1024
    → j + length cids ≤ 100
    → AllBelow 8192 cids
    → AllStores (entry_commands lit j cids)
entries-AllStores lit j [] lo sh be = tt
entries-AllStores lit j (cid ∷ cids) lo sh be =
    ((lo, omega arith, be.0), tt, entries-AllStores lit (j + 1) cids lo (omega arith) be.1)

list-AllStores :
    (lit : ℕ) (cids : List ℕ)
    → lit < 1024
    → length cids ≤ 100
    → AllBelow 8192 cids
    → AllStores (list_commands lit cids)
list-AllStores lit [] lo sh be = tt
list-AllStores lit (cid ∷ cids) lo sh be =
    ((lo, omega arith), tt, entries-AllStores lit 0 (cid ∷ cids) lo (omega arith) be)

pub init-AllStores : (s : Solver) → FitsHardware s → AllStores (init_commands s)
init-AllStores s f =
    let clauses = λ (ci : ℕ). write_clause ci (image (s.clauses ci)) ∷ [] in
    let lists = λ (lit : ℕ). list_commands lit (s.watches lit) in
    let assigns = λ (v : ℕ). assign_command s v ∷ [] in
    let n = 2 * s.num_vars + 2 in
    let fits = λ (ci k : ℕ). sent_lit-lt (s.clauses ci) k (f.lits_fit ci k) in
    AllStores-append (for_upto clauses s.clause_count)
      (for_upto lists n ++ for_upto assigns s.num_vars)
      (for_upto-AllStores clauses s.clause_count (λ ci lt. (
        (
          omega (arith, f.few_clauses),
          sent_size-lt (s.clauses ci),
          fits ci 0,
          fits ci 1,
          fits ci 2,
          fits ci 3,
          fits ci 4,
        ),
        tt,
        tt,
      )))
      (AllStores-append (for_upto lists n) (for_upto assigns s.num_vars)
        (for_upto-AllStores lists n (λ lit lt.
          list-AllStores lit (s.watches lit) (omega (arith, f.few_vars)) (f.short_lists lit)
            (f.ids_fit lit)))
        (for_upto-AllStores assigns s.num_vars
          (λ v lt. ((omega (arith, f.few_vars), hw_value-lt (s.assigns (v + 1))), tt, tt))))
