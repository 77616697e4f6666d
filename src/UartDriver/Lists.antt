-- ===== src/UartDriver/Lists.antt =====
-- hw_interface.c, hw_init: what its commands for the watch lists store.
use cdcl_sat_solver.Base.{
  ℕ, zero, suc, ◌+◌, ◌<◌, ◌≤◌, ◌≡◌, ◌≢◌, ◌⊎◌, inl, inr, refl, ap, ◌∙◌, sym, subst, true, ◌==◌,
  if◌then◌else◌, List, [], ◌∷◌, ◌++◌, length, arith,
}
use cdcl_sat_solver.Memory.{Cells, read, read-write_self, read-write_ne}
use cdcl_sat_solver.WatchListMemory.{num_literals, clause_id_depth, cid_addr}
use cdcl_sat_solver.WatchListMemory.Reads.{cid_addr-injective, cid_addr-lt}
use cdcl_sat_solver.HostInterface.Commands.{Command, write_wl_entry, write_wl_len}
use cdcl_sat_solver.HostInterface.Session.{stored_by}
use cdcl_sat_solver.BcpAccelerator.Contents.{Contents, store}
use cdcl_sat_solver.UartDriver.{for_upto}
use cdcl_sat_solver.UartDriver.Commands.{entry_commands, list_commands}

-- The clause numbers stand in the list of a literal, from place `j` on.
abbrev pub Entries : Cells → ℕ → ℕ → List ℕ → Type 0
Entries cells lit j [] = Unit
Entries cells lit j (cid ∷ cids) =
    (read clause_id_depth cells (cid_addr lit j) ≡ cid) × Entries cells lit (j + 1) cids

-- The list of a literal, in the memories.
abbrev pub entry_at : Contents → ℕ → ℕ → ℕ
entry_at m lit k = read clause_id_depth m.entries (cid_addr lit k)

abbrev pub length_at : Contents → ℕ → ℕ
length_at m lit = read num_literals m.lengths lit

Entries-same :
    (m m' : Contents) (lit j : ℕ) (cids : List ℕ)
    → j + length cids ≤ 100
    → ((k : ℕ) → k < 100 → j ≤ k → entry_at m' lit k ≡ entry_at m lit k)
    → Entries m.entries lit j cids
    → Entries m'.entries lit j cids
Entries-same m m' lit j [] b h e = tt
Entries-same m m' lit j (cid ∷ cids) b h e = (
  h j (omega arith) (omega arith) ∙ e.0,
  Entries-same m m' lit (j + 1) cids (omega arith) (λ k lt le. h k lt (omega arith)) e.1,
)

-- Commands that store nothing but watch lists.
pub record SameElsewhere (m m' : Contents) : Type 0 where
  pub clauses : m'.clauses ≡ m.clauses
  pub assigns : m'.assigns ≡ m.assigns

-- After the entries of a literal from place `j` on.
record Filled (lit j : ℕ) (cids : List ℕ) (m m' : Contents) : Type 0 where
  pub here : Entries m'.entries lit j cids
  pub others :
      (l k : ℕ) → l < 1024 → k < 100 → (l ≢ lit) ⊎ (k < j) → entry_at m' l k ≡ entry_at m l k
  pub lengths : m'.lengths ≡ m.lengths
  pub elsewhere : SameElsewhere m m'

away :
    (m : Contents) (lit j l k cid : ℕ)
    → lit < 1024
    → j < 100
    → l < 1024
    → k < 100
    → (l ≢ lit) ⊎ (k < j)
    → entry_at (store (write_wl_entry lit j cid) m) l k ≡ entry_at m l k
away m lit j l k cid a b c d apart =
    read-write_ne clause_id_depth m.entries true (cid_addr lit j) cid (cid_addr l k)
      (λ e. let (x, y) = cid_addr-injective l lit k j c d a b e in ground (arith))

entries-Filled :
    (lit j : ℕ) (cids : List ℕ) (m : Contents)
    → lit < 1024
    → j + length cids ≤ 100
    → Filled lit j cids m (stored_by (entry_commands lit j cids) m)
entries-Filled lit j [] m a b = record {
  here = tt;
  others = λ l k lo ko x. refl;
  lengths = refl;
  elsewhere = record { clauses = refl; assigns = refl };
}
entries-Filled lit j (cid ∷ cids) m a b =
    let m1 = store (write_wl_entry lit j cid) m in
    let more = entries-Filled lit (j + 1) cids m1 a (omega arith) in
    record {
      here = (
        more.others lit j a (omega arith) (inr (omega arith))
            ∙ read-write_self clause_id_depth m.entries (cid_addr lit j) cid
                (cid_addr-lt lit j a (omega arith)),
        more.here,
      );
      others = λ l k lo ko x.
          more.others l k lo ko (elim x [ inl n ↦ inl n | inr lt ↦ inr (omega arith) ])
          ∙ away m lit j l k cid a (omega arith) lo ko x;
      lengths = more.lengths;
      elsewhere = record { clauses = more.elsewhere.clauses; assigns = more.elsewhere.assigns };
    }

-- The length that a literal has after a list was sent for it, if it is not empty.
abbrev pub sent_length : List ℕ → ℕ → ℕ
sent_length cids old = if length cids == 0 then old else length cids

-- After the commands for the list of a literal.
record OneList (lit : ℕ) (cids : List ℕ) (m m' : Contents) : Type 0 where
  pub here : Entries m'.entries lit 0 cids
  pub others : (l k : ℕ) → l < 1024 → k < 100 → l ≢ lit → entry_at m' l k ≡ entry_at m l k
  pub long : length_at m' lit ≡ sent_length cids (length_at m lit)
  pub lengths : (l : ℕ) → l ≢ lit → length_at m' l ≡ length_at m l
  pub elsewhere : SameElsewhere m m'

list-OneList :
    (lit : ℕ) (cids : List ℕ) (m : Contents)
    → lit < 1024
    → length cids ≤ 100
    → OneList lit cids m (stored_by (list_commands lit cids) m)
list-OneList lit [] m a b = record {
  here = tt;
  others = λ l k lo ko n. refl;
  long = refl;
  lengths = λ l n. refl;
  elsewhere = record { clauses = refl; assigns = refl };
}
list-OneList lit (cid ∷ cids) m a b =
    let len = length (cid ∷ cids) in
    let m1 = store (write_wl_len lit len) m in
    let filled = entries-Filled lit 0 (cid ∷ cids) m1 a (omega arith) in
    record {
      here = filled.here;
      others = λ l k lo ko n. filled.others l k lo ko (inl n);
      long =
          ap (λ c. read num_literals c lit) filled.lengths
          ∙ read-write_self num_literals m.lengths lit len a
          ∙ ground (arith);
      lengths = λ l n.
          ap (λ c. read num_literals c l) filled.lengths
          ∙ read-write_ne num_literals m.lengths true lit len l n;
      elsewhere = record { clauses = filled.elsewhere.clauses; assigns = filled.elsewhere.assigns };
    }

-- After the lists of the literals below a bound.
pub record Listed (w : ℕ → List ℕ) (n : ℕ) (m m' : Contents) : Type 0 where
  pub entries : (lit : ℕ) → lit < n → Entries m'.entries lit 0 (w lit)
  pub below : (lit : ℕ) → lit < n → length_at m' lit ≡ sent_length (w lit) (length_at m lit)
  pub above : (lit : ℕ) → n ≤ lit → length_at m' lit ≡ length_at m lit
  pub elsewhere : SameElsewhere m m'

pub stored_by-append :
    (xs ys : List Command) (m : Contents) → stored_by (xs ++ ys) m ≡ stored_by ys (stored_by xs m)
stored_by-append [] ys m = refl
stored_by-append (x ∷ xs) ys m = stored_by-append xs ys (store x m)

pub last_or_less : (lit n : ℕ) → lit < suc n → (lit ≡ n) ⊎ (lit < n)
last_or_less lit n h = ground arith

one_more :
    (w : ℕ → List ℕ) (n : ℕ) (m a b : Contents)
    → n < 1024
    → ((lit : ℕ) → length (w lit) ≤ 100)
    → Listed w n m a
    → OneList n (w n) a b
    → Listed w (suc n) m b
one_more w n m a b lo sh l o = record {
  entries = λ lit lt. elim (last_or_less lit n lt) [
    | inl e ↦ subst (λ i. Entries b.entries i 0 (w i)) (sym e) o.here
    | inr less ↦
        Entries-same a b lit 0 (w lit) (omega (arith, sh lit))
          (λ k ko le. o.others lit k (omega arith) ko (λ e. omega arith)) (l.entries lit less)
  ];
  below = λ lit lt. elim (last_or_less lit n lt) [
    | inl e ↦
        subst (λ i. length_at b i ≡ sent_length (w i) (length_at m i)) (sym e)
          (o.long ∙ ap (sent_length (w n)) (l.above n (omega arith)))
    | inr less ↦ o.lengths lit (λ e. omega arith) ∙ l.below lit less
  ];
  above = λ lit le. o.lengths lit (λ e. omega arith) ∙ l.above lit (omega arith);
  elsewhere = record {
    clauses = o.elsewhere.clauses ∙ l.elsewhere.clauses;
    assigns = o.elsewhere.assigns ∙ l.elsewhere.assigns;
  };
}

pub lists-Listed :
    (w : ℕ → List ℕ) (n : ℕ) (m : Contents)
    → n ≤ 1024
    → ((lit : ℕ) → length (w lit) ≤ 100)
    → Listed w n m (stored_by (for_upto (λ lit. list_commands lit (w lit)) n) m)
unfolding for_upto
lists-Listed w zero m lo sh = record {
  entries = λ lit lt. absurd (omega arith);
  below = λ lit lt. absurd (omega arith);
  above = λ lit le. refl;
  elsewhere = record { clauses = refl; assigns = refl };
}
lists-Listed w (suc n) m lo sh =
    let before = stored_by (for_upto (λ lit. list_commands lit (w lit)) n) m in
    subst (Listed w (suc n) m)
      (sym (
        stored_by-append (for_upto (λ lit. list_commands lit (w lit)) n) (list_commands n (w n)) m))
      (one_more w n m before (stored_by (list_commands n (w n)) before) (omega arith) sh
        (lists-Listed w n m (omega arith) sh) (list-OneList n (w n) before (omega arith) (sh n)))
