-- ===== src/HostInterface/Session.antt =====
-- host_interface.py over a session: commands that store, one after another.
use cdcl_sat_solver.Base.{
  ℕ, ◌≡◌, refl, ap, ◌∙◌, true, false, List, [], ◌∷◌, ◌++◌, length, replicate,
}
use cdcl_sat_solver.HostInterface.{State, Inputs, cmd_wait, quiet}
use cdcl_sat_solver.HostInterface.Receive.{bytes, run, run-append}
use cdcl_sat_solver.HostInterface.Commands.{
  Command, write_clause, write_wl_entry, write_wl_len, write_assign, bcp_start, opcode, payload,
  Fits, next, delivers,
}
use cdcl_sat_solver.HostInterface.Stored.{
  after, after-append, waits, after_waiting, one_effect, writes_on, quiet-NoWrites,
}
use cdcl_sat_solver.HostInterface.Split.{Spaced}
use cdcl_sat_solver.HostInterface.Located.{locate}
use cdcl_sat_solver.BcpAccelerator.Contents.{Contents, all_written, all_written-NoWrites, store}

-- Commands that store, and do not start a run.
abbrev pub Stores : Command → Type 0
Stores (bcp_start _) = true ≡ false
Stores _ = Unit

Stores-next : (c : Command) → Stores c → next c ≡ cmd_wait
Stores-next (write_clause _ _) w = refl
Stores-next (write_wl_entry _ _ _) w = refl
Stores-next (write_wl_len _ _) w = refl
Stores-next (write_assign _ _) w = refl
Stores-next (bcp_start lit) w = let no : true ≡ false = w in cc

-- A run that begins with the bytes of a command: the cycles of the command, and those after it.
record Executed (s : State) (c : Command) (xs : List ℕ) (is : List Inputs) (m : Contents)
    : Type 0 where
  front : List Inputs
  rest : List Inputs
  parted : is ≡ front ++ rest
  stored : after s front m ≡ store c m
  waiting : (run s front).fsm ≡ cmd_wait
  spaced : Spaced rest
  more : bytes rest ≡ xs

-- The cycles of one command, from its first byte on.
one_command :
    (s : State) (c : Command) (head : Inputs) (mid : List Inputs) (last ex : Inputs) (m : Contents)
    → Fits c
    → Stores c
    → s.fsm ≡ cmd_wait
    → head.rx_valid ≡ true
    → head.rx_data ≡ opcode c
    → last.rx_valid ≡ true
    → bytes mid ++ last.rx_data ∷ [] ≡ payload c
    → (after s ((head ∷ mid ++ last ∷ []) ++ ex ∷ []) m ≡ store c m)
      × ((run s ((head ∷ mid ++ last ∷ []) ++ ex ∷ [])).fsm ≡ cmd_wait)
one_command s c head mid last ex m f st w hv hd lv pl =
    let (shown, ends) = delivers s c head mid last ex f w hv hd lv pl in
    (
      ap (λ os. all_written (writes_on os) m) shown ∙ one_effect (length mid) c m f,
      ends ∙ Stores-next c st,
    )

Executed-first :
    (s : State) (c : Command) (xs : List ℕ) (is : List Inputs) (m : Contents)
    → Fits c
    → Stores c
    → s.fsm ≡ cmd_wait
    → Spaced is
    → bytes is ≡ (opcode c ∷ payload c) ++ xs
    → Executed s c xs is m
Executed-first s c xs is m f st w sp e =
    let l = locate c xs is sp e in
    let cycles = (l.head ∷ l.mid ++ l.last ∷ []) ++ l.ex ∷ [] in
    let (idle_after, idle_run) = after_waiting s l.gap cycles m w l.silent in
    let (did, ends) =
      one_command s c l.head l.mid l.last l.ex m f st w l.head_valid l.head_data l.last_valid
        l.filled in
    record {
      front = l.gap ++ cycles;
      rest = l.rest;
      parted = l.whole;
      stored = idle_after ∙ did;
      waiting = ap (λ u. u.fsm) idle_run ∙ ends;
      spaced = l.spaced;
      more = l.more;
    }

-- The bytes of some commands.
abbrev pub sent_bytes : List Command → List ℕ
sent_bytes [] = []
sent_bytes (c ∷ cs) = (opcode c ∷ payload c) ++ sent_bytes cs

abbrev pub AllStores : List Command → Type 0
AllStores [] = Unit
AllStores (c ∷ cs) = Fits c × Stores c × AllStores cs

abbrev pub stored_by : List Command → Contents → Contents
stored_by [] m = m
stored_by (c ∷ cs) m = stored_by cs (store c m)

-- When the bytes of some commands that store arrive at an interface that waits for a command,
-- never two in a row of cycles, what it writes is what the commands store, in their order, and
-- nothing else, whatever the gaps; it then waits for a command.
pub session_stored :
    (cs : List Command) (s : State) (is : List Inputs) (m : Contents)
    → AllStores cs
    → s.fsm ≡ cmd_wait
    → Spaced is
    → bytes is ≡ sent_bytes cs
    → (after s is m ≡ stored_by cs m) × ((run s is).fsm ≡ cmd_wait)
session_stored [] s is m ok w sp e =
    let (r, t) = waits s is w e in
    (
      ap (λ os. all_written (writes_on os) m) t
          ∙ all_written-NoWrites (writes_on (replicate (length is) quiet)) m
              (quiet-NoWrites (length is)),
      ap (λ u. u.fsm) r ∙ w,
    )
session_stored (c ∷ cs) s is m ok w sp e =
    let x = Executed-first s c (sent_bytes cs) is m ok.0 ok.1 w sp e in
    let (later, ends) =
      session_stored cs (run s x.front) x.rest (store c m) ok.2 x.waiting x.spaced x.more in
    (
      ap (λ l. after s l m) x.parted
          ∙ after-append s x.front x.rest m
          ∙ ap (after (run s x.front) x.rest) x.stored
          ∙ later,
      ap (λ u. u.fsm) (ap (run s) x.parted ∙ run-append s x.front x.rest) ∙ ends,
    )
