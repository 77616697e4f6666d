-- ===== src/UartDriver/Upload.antt =====
-- hw_interface.c, hw_init: what the accelerator's memories hold when its bytes have arrived.
use cdcl_sat_solver.Base.{
  ℕ, zero, suc, ◌+◌, ◌*◌, ◌<◌, ◌≤◌, ◌≡◌, inl, inr, refl, ap, ◌∙◌, sym, subst, Bool, true, List, [],
  ◌∷◌, ◌++◌, map, arith,
}
use cdcl_sat_solver.Memory.{read, write, read-write_self, read-write_ne}
use cdcl_sat_solver.ClauseMemory.{max_clauses, pack, unpack}
use cdcl_sat_solver.ClauseMemory.Fields.{IsClause, unpack-pack}
use cdcl_sat_solver.AssignmentMemory.{max_vars}
use cdcl_sat_solver.UartTransmitter
use cdcl_sat_solver.UartTransmitter.Frame
use cdcl_sat_solver.UartReceiver.Samples.{listening}
use cdcl_sat_solver.UartReceiver.RoundTrip.{Block, Sound, cycles, bytes_in, pin}
use cdcl_sat_solver.HostInterface
use cdcl_sat_solver.HostInterface.Commands.{Command, write_clause}
use cdcl_sat_solver.HostInterface.Session.{stored_by}
use cdcl_sat_solver.BcpAccelerator.Contents.{Contents, contents}
use cdcl_sat_solver.BcpTop.{State, divisor}
use cdcl_sat_solver.BcpTop.Parts.{run}
use cdcl_sat_solver.BcpTop.Session.{pin_session_stores}
use cdcl_sat_solver.Cdcl.{Solver}
use cdcl_sat_solver.UartDriver.{sw_to_hw_assign, for_upto, init_bytes}
use cdcl_sat_solver.UartDriver.Commands.{
  image, assign_command, list_commands, init_commands, FitsHardware, init_bytes_lem, sent_size-lt,
  sent_lit-lt,
}
use cdcl_sat_solver.UartDriver.Stores.{init-AllStores}
use cdcl_sat_solver.UartDriver.Lists.{
  Entries, length_at, sent_length, lists-Listed, stored_by-append, last_or_less,
}

abbrev clause_commands : Solver → ℕ → List Command
clause_commands s ci = write_clause ci (image (s.clauses ci)) ∷ []

-- After the clauses below a bound.
record ClausesSent (s : Solver) (n : ℕ) (m m' : Contents) : Type 0 where
  pub words : (ci : ℕ) → ci < n → read max_clauses m'.clauses ci ≡ pack (image (s.clauses ci))
  pub lengths : m'.lengths ≡ m.lengths

clauses_sent :
    (s : Solver) (n : ℕ) (m : Contents)
    → n ≤ 8192
    → ClausesSent s n m (stored_by (for_upto (clause_commands s) n) m)
unfolding for_upto
clauses_sent s zero m b = record { words = λ ci lt. absurd (omega arith); lengths = refl }
clauses_sent s (suc n) m b =
    let before = stored_by (for_upto (clause_commands s) n) m in
    let sent = clauses_sent s n m (omega arith) in
    let word = pack (image (s.clauses n)) in
    subst (ClausesSent s (suc n) m)
      (sym (stored_by-append (for_upto (clause_commands s) n) (clause_commands s n) m))
      (record {
        words = λ ci lt. elim (last_or_less ci n lt) [
          | inl e ↦
              subst
                (λ i.
                  read max_clauses (write max_clauses before.clauses true n word) i
                  ≡ pack (image (s.clauses i)))
                (sym e) (read-write_self max_clauses before.clauses n word (omega arith))
          | inr less ↦
              read-write_ne max_clauses before.clauses true n word ci (λ e. omega arith)
              ∙ sent.words ci less
        ];
        lengths = sent.lengths;
      })

abbrev assign_commands : Solver → ℕ → List Command
assign_commands s v = assign_command s v ∷ []

-- After the assignments of the variables from 1 to a bound.
record AssignsSent (s : Solver) (n : ℕ) (m m' : Contents) : Type 0 where
  pub values :
      (v : ℕ) → v < n → read max_vars m'.assigns (v + 1) ≡ sw_to_hw_assign (s.assigns (v + 1))
  pub clauses : m'.clauses ≡ m.clauses
  pub lengths : m'.lengths ≡ m.lengths
  pub entries : m'.entries ≡ m.entries

assigns_sent :
    (s : Solver) (n : ℕ) (m : Contents)
    → n < 512
    → AssignsSent s n m (stored_by (for_upto (assign_commands s) n) m)
unfolding for_upto
assigns_sent s zero m b = record {
  values = λ v lt. absurd (omega arith);
  clauses = refl;
  lengths = refl;
  entries = refl;
}
assigns_sent s (suc n) m b =
    let before = stored_by (for_upto (assign_commands s) n) m in
    let sent = assigns_sent s n m (omega arith) in
    let value = sw_to_hw_assign (s.assigns (n + 1)) in
    subst (AssignsSent s (suc n) m)
      (sym (stored_by-append (for_upto (assign_commands s) n) (assign_commands s n) m))
      (record {
        values = λ v lt. elim (last_or_less v n lt) [
          | inl e ↦
              subst
                (λ i.
                  read max_vars (write max_vars before.assigns true (n + 1) value) (i + 1)
                  ≡ sw_to_hw_assign (s.assigns (i + 1)))
                (sym e) (read-write_self max_vars before.assigns (n + 1) value (omega arith))
          | inr less ↦
              read-write_ne max_vars before.assigns true (n + 1) value (v + 1) (λ e. omega arith)
              ∙ sent.values v less
        ];
        clauses = sent.clauses;
        lengths = sent.lengths;
        entries = sent.entries;
      })

-- The memories mirror the solver; `old` is what they held before.
pub record Mirrors (s : Solver) (old m : Contents) : Type 0 where
  pub clauses :
      (ci : ℕ) → ci < s.clause_count → unpack (read max_clauses m.clauses ci) ≡ image (s.clauses ci)
  pub lengths :
      (lit : ℕ)
      → lit < 2 * s.num_vars + 2
      → length_at m lit ≡ sent_length (s.watches lit) (length_at old lit)
  pub entries : (lit : ℕ) → lit < 2 * s.num_vars + 2 → Entries m.entries lit 0 (s.watches lit)
  pub assigns :
      (v : ℕ)
      → v < s.num_vars
      → read max_vars m.assigns (v + 1) ≡ sw_to_hw_assign (s.assigns (v + 1))

image-IsClause : (s : Solver) (ci : ℕ) → FitsHardware s → IsClause (image (s.clauses ci))
image-IsClause s ci f =
    let c = s.clauses ci in
    let fits = λ (k : ℕ). sent_lit-lt c k (f.lits_fit ci k) in
    record {
      size_fits = sent_size-lt c;
      lit0_fits = fits 0;
      lit1_fits = fits 1;
      lit2_fits = fits 2;
      lit3_fits = fits 3;
      lit4_fits = fits 4;
    }

init-Mirrors :
    (s : Solver) (m : Contents) → FitsHardware s → Mirrors s m (stored_by (init_commands s) m)
init-Mirrors s m f =
    let n = 2 * s.num_vars + 2 in
    let cs = for_upto (clause_commands s) s.clause_count in
    let ls = for_upto (λ lit. list_commands lit (s.watches lit)) n in
    let vs = for_upto (assign_commands s) s.num_vars in
    let a = stored_by cs m in
    let b = stored_by ls a in
    let one = clauses_sent s s.clause_count m f.few_clauses in
    let two = lists-Listed s.watches n a (omega (arith, f.few_vars)) f.short_lists in
    let three = assigns_sent s s.num_vars b f.few_vars in
    subst (Mirrors s m) (sym (stored_by-append cs (ls ++ vs) m ∙ stored_by-append ls vs a))
      (record {
        clauses = λ ci lt.
            ap (λ c. unpack (read max_clauses c ci)) (three.clauses ∙ two.elsewhere.clauses)
            ∙ ap unpack (one.words ci lt)
            ∙ unpack-pack (image-IsClause s ci f);
        lengths = λ lit lt.
            ap (λ c. read 1024 c lit) three.lengths
            ∙ two.below lit lt
            ∙ ap (λ c. sent_length (s.watches lit) (read 1024 c lit)) one.lengths;
        entries = λ lit lt.
            subst (λ c. Entries c lit 0 (s.watches lit)) (sym three.entries) (two.entries lit lt);
        assigns = three.values;
      })

-- The bytes that hw_init writes for a solver within the accelerator's bounds, sent to the receive pin
-- by a transmitter at the same divisor with any rests between the bytes, while the receiver listens and
-- the host interface waits for a command, leave memories that mirror the solver: each clause with its
-- first five literals and no satisfied bit, the entries of each watch list in their order, the value of
-- each variable, and the length of each watch list that is not empty; a literal with an empty list keeps
-- the length that the memory held. The host interface then waits for the next command.
pub init_mirrored :
    (c : Solver) (s : State) (t k x : ℕ) (far : UartTransmitter.State) (blocks : List Block)
    (b : Bool)
    → FitsHardware c
    → s.host_if.fsm ≡ HostInterface.cmd_wait
    → s.uart_rx ≡ listening t k x
    → x < 256
    → far.fsm ≡ UartTransmitter.idle
    → Sound blocks
    → bytes_in blocks ≡ init_bytes c
    → let pins = map pin (Frame.line divisor far (cycles blocks)) ++ b ∷ [] in
      Mirrors c (contents s.bcp) (contents (run s pins).bcp)
      × ((run s pins).host_if.fsm ≡ HostInterface.cmd_wait)
init_mirrored c s t k x far blocks b f w l h idle sound e =
    let (stored, ends) =
      pin_session_stores (init_commands c) s t k x far blocks b (init-AllStores c f) w l h idle
        sound (e ∙ init_bytes_lem c f) in
    (subst (Mirrors c (contents s.bcp)) (sym stored) (init-Mirrors c (contents s.bcp) f), ends)
