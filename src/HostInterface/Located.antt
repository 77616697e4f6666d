-- ===== src/HostInterface/Located.antt =====
-- host_interface.py: where in a run the bytes of one command arrive.
use cdcl_sat_solver.Base.{
  ℕ, ◌≡◌, refl, ap, ap₂, ◌∙◌, sym, subst, true, false, List, [], ◌∷◌, ◌++◌, arith,
}
use mathlib.Core.List.{append_assoc}
use cdcl_sat_solver.HostInterface.{Inputs}
use cdcl_sat_solver.HostInterface.Receive.{bytes, bytes-idle}
use cdcl_sat_solver.HostInterface.Commands.{
  Command, write_clause, write_wl_entry, write_wl_len, write_assign, bcp_start, opcode, payload,
}
use cdcl_sat_solver.HostInterface.Split.{Spaced, Spaced-append, arrives}

last_of : (y : ℕ) (ys : List ℕ) → (ps : List ℕ) × (x : ℕ) × (y ∷ ys ≡ ps ++ x ∷ [])
last_of y [] = ([], y, refl)
last_of y (z ∷ zs) = let (ps, x, e) = last_of z zs in (y ∷ ps, x, ap (λ l. y ∷ l) e)

-- The payload has a last byte.
last_byte : (c : Command) → (ps : List ℕ) × (x : ℕ) × (payload c ≡ ps ++ x ∷ [])
last_byte (write_clause cid c) = last_of _ _
last_byte (write_wl_entry lit idx cid) = last_of _ _
last_byte (write_wl_len lit len) = last_of _ _
last_byte (write_assign var val) = last_of _ _
last_byte (bcp_start lit) = last_of _ _

-- The cycle after one with a byte.
next_cycle :
    (i : Inputs) (is : List Inputs)
    → i.rx_valid ≡ true
    → Spaced (i ∷ is)
    → (j : Inputs) × (js : List Inputs) × (is ≡ j ∷ js) × (j.rx_valid ≡ false)
next_cycle i [] v sp = let no : true ≡ false = sym v ∙ sp in absurd (cc)
next_cycle i (j ∷ js) v sp = (j, js, refl, ground arith)

regroup :
    (gap : List Inputs) (head : Inputs) (mid : List Inputs) (last ex : Inputs) (js : List Inputs)
    → (gap ++ ((head ∷ mid ++ last ∷ []) ++ ex ∷ [])) ++ js ≡ gap ++ head ∷ (mid ++ last ∷ ex ∷ js)
regroup gap head mid last ex js =
    append_assoc gap ((head ∷ mid ++ last ∷ []) ++ ex ∷ []) js
    ∙ ap (λ l. gap ++ l)
        (append_assoc (head ∷ mid ++ last ∷ []) (ex ∷ []) js
          ∙ append_assoc (head ∷ mid) (last ∷ []) (ex ∷ js))

-- Where in a run the bytes of a command are: after a gap, its first byte, its last one, and the cycle
-- that executes it.
pub record Located (c : Command) (xs : List ℕ) (is : List Inputs) : Type 0 where
  pub gap : List Inputs
  pub head : Inputs
  pub mid : List Inputs
  pub last : Inputs
  pub ex : Inputs
  pub rest : List Inputs
  pub whole : is ≡ (gap ++ ((head ∷ mid ++ last ∷ []) ++ ex ∷ [])) ++ rest
  pub silent : bytes gap ≡ []
  pub head_valid : head.rx_valid ≡ true
  pub head_data : head.rx_data ≡ opcode c
  pub last_valid : last.rx_valid ≡ true
  pub filled : bytes mid ++ last.rx_data ∷ [] ≡ payload c
  pub spaced : Spaced rest
  pub more : bytes rest ≡ xs

pub locate :
    (c : Command) (xs : List ℕ) (is : List Inputs)
    → Spaced is
    → bytes is ≡ (opcode c ∷ payload c) ++ xs
    → Located c xs is
locate c xs is sp e =
    let (ps, x, split) = last_byte c in
    let h = arrives [] (opcode c) (payload c ++ xs) is e in
    let l =
      arrives ps x xs h.after (h.later ∙ ap (λ bs. bs ++ xs) split ∙ append_assoc ps (x ∷ []) xs) in
    let sp1 : Spaced (h.now ∷ h.after) =
      Spaced-append h.before (h.now ∷ h.after) (subst Spaced h.whole sp) in
    let sp2 : Spaced (l.now ∷ l.after) =
      Spaced-append (h.now ∷ l.before) (l.now ∷ l.after)
        (subst (λ r. Spaced (h.now ∷ r)) l.whole sp1) in
    let (ex, js, follows, none) = next_cycle l.now l.after l.valid sp2 in
    let sp3 : Spaced (ex ∷ js) =
      Spaced-append (l.now ∷ []) (ex ∷ js) (subst (λ r. Spaced (l.now ∷ r)) follows sp2) in
    record {
      gap = h.before;
      head = h.now;
      mid = l.before;
      last = l.now;
      ex = ex;
      rest = js;
      whole =
          h.whole
          ∙ ap (λ r. h.before ++ h.now ∷ r) (l.whole ∙ ap (λ r. l.before ++ l.now ∷ r) follows)
          ∙ sym (regroup h.before h.now l.before l.now ex js);
      silent = h.earlier;
      head_valid = h.valid;
      head_data = h.carries;
      last_valid = l.valid;
      filled = ap₂ (λ bs b. bs ++ b ∷ []) l.earlier l.carries ∙ sym split;
      spaced = Spaced-append (ex ∷ []) js sp3;
      more = sym (bytes-idle ex js none) ∙ ap bytes (sym follows) ∙ l.later;
    }
