-- ===== src/HostInterface/Receive.antt =====
-- host_interface.py, CMD_WAIT and PAYLOAD_RECV: the bytes of a command are gathered in the buffer.
use cdcl_sat_solver.Base.{
  ℕ, ◌+◌, ◌<◌, ◌≤◌, ◌≡◌, refl, ap, ap₂, ◌∙◌, sym, subst, true, false, if◌then◌else◌, List, [], ◌∷◌,
  ◌++◌, length, replicate, ◌-◌, arith, leb, ◌==◌, inl, inr, Bool-cases, length-append,
}
use cdcl_sat_solver.HostInterface.{
  State, Inputs, Outputs, cmd_wait, payload_recv, cmd_exec, put, payload_of, quiet, outputs, step,
  receive, outputs_in, accept,
}

unfoldable pub run : State → List Inputs → State
run s [] = s
run s (i ∷ is) = run (step s i) is

-- What the interface drives, cycle by cycle.
unfoldable pub trace : State → List Inputs → List Outputs
trace s [] = []
trace s (i ∷ is) = outputs s i ∷ trace (step s i) is

-- The bytes that arrive: the data of the cycles with a strobe.
unfoldable pub bytes : List Inputs → List ℕ
bytes [] = []
bytes (i ∷ is) = if i.rx_valid then i.rx_data ∷ bytes is else bytes is

-- The buffer after some bytes are stored one after another.
unfoldable pub load : (ℕ → ℕ) → ℕ → List ℕ → ℕ → ℕ
load b k [] = b
load b k (x ∷ xs) = load (put b k x) (k + 1) xs

-- The receiver, waiting for the byte that goes to place k.
abbrev pub gathering : State → (ℕ → ℕ) → ℕ → State
gathering s b k = record s { fsm = payload_recv; buf = b; buf_idx = k }

reached : (m n : ℕ) → m ≤ n → leb m n ≡ true
reached m n le = ground arith

not_reached : (m n : ℕ) → n < m → leb m n ≡ false
not_reached m n lt = ground arith

take_byte :
    (s : State) (i : Inputs) (b : ℕ → ℕ) (k : ℕ)
    → i.rx_valid ≡ true
    → k + 1 < s.payload_len
    → s.payload_len ≤ 14
    → step (gathering s b k) i ≡ gathering s (put b k i.rx_data) (k + 1)
unfolding step receive
take_byte s i b k v lt le =
    rw v (
      rw (not_reached s.payload_len (k + 1) lt)
        (ap (gathering s (put b k i.rx_data)) (omega arith)))

take_last :
    (s : State) (i : Inputs) (b : ℕ → ℕ) (k : ℕ)
    → i.rx_valid ≡ true
    → k + 1 ≡ s.payload_len
    → step (gathering s b k) i ≡ record s { fsm = cmd_exec; buf = put b k i.rx_data; buf_idx = k }
unfolding step receive
take_last s i b k v eq = rw v (rw (reached s.payload_len (k + 1) (omega arith)) refl)

skip_cycle :
    (s : State) (i : Inputs) (b : ℕ → ℕ) (k : ℕ)
    → i.rx_valid ≡ false
    → step (gathering s b k) i ≡ gathering s b k
unfolding step receive
skip_cycle s i b k v = rw v refl

pub bytes-valid :
    (i : Inputs) (is : List Inputs) → i.rx_valid ≡ true → bytes (i ∷ is) ≡ i.rx_data ∷ bytes is
unfolding bytes
bytes-valid i is v = rw v refl

pub bytes-idle : (i : Inputs) (is : List Inputs) → i.rx_valid ≡ false → bytes (i ∷ is) ≡ bytes is
unfolding bytes
bytes-idle i is v = rw v refl

-- While fewer bytes than expected have come, they are in the buffer.
gathers :
    (s : State) (b : ℕ → ℕ) (k : ℕ) (is : List Inputs)
    → k + length (bytes is) < s.payload_len
    → s.payload_len ≤ 14
    → run (gathering s b k) is ≡ gathering s (load b k (bytes is)) (k + length (bytes is))
unfolding run load bytes
gathers s b k [] lt le = ap (gathering s b) (omega arith)
gathers s b k (i ∷ is) lt le = elim (Bool-cases i.rx_valid) [
  | inl v ↦
      let e = bytes-valid i is v in
      let room = subst (λ bs. k + length bs < s.payload_len) e lt in
      rw (e, take_byte s i b k v (omega arith) le)
        (gathers s (put b k i.rx_data) (k + 1) is (omega arith) le
          ∙ ap (gathering s (load b k (i.rx_data ∷ bytes is))) (omega arith))
  | inr v ↦
      let e = bytes-idle i is v in
      rw (e, skip_cycle s i b k v)
        (gathers s b k is (subst (λ bs. k + length bs < s.payload_len) e lt) le)
]

-- Meanwhile nothing is driven.
drives_nothing :
    (s : State) (b : ℕ → ℕ) (k : ℕ) (is : List Inputs)
    → k + length (bytes is) < s.payload_len
    → s.payload_len ≤ 14
    → trace (gathering s b k) is ≡ replicate (length is) quiet
unfolding trace outputs outputs_in
drives_nothing s b k [] lt le = refl
drives_nothing s b k (i ∷ is) lt le = ap (◌∷◌ quiet) (elim (Bool-cases i.rx_valid) [
  | inl v ↦
      let room = subst (λ bs. k + length bs < s.payload_len) (bytes-valid i is v) lt in
      rw (take_byte s i b k v (omega arith) le)
        (drives_nothing s (put b k i.rx_data) (k + 1) is (omega arith) le)
  | inr v ↦ rw (skip_cycle s i b k v) (
      drives_nothing s b k is (subst (λ bs. k + length bs < s.payload_len) (bytes-idle i is v) lt)
        le)
])

pub run-append : (s : State) (xs ys : List Inputs) → run s (xs ++ ys) ≡ run (run s xs) ys
unfolding run
run-append s [] ys = refl
run-append s (x ∷ xs) ys = run-append (step s x) xs ys

pub trace-append :
    (s : State) (xs ys : List Inputs) → trace s (xs ++ ys) ≡ trace s xs ++ trace (run s xs) ys
unfolding run trace
trace-append s [] ys = refl
trace-append s (x ∷ xs) ys = ap (λ os. outputs s x ∷ os) (trace-append (step s x) xs ys)

load-append :
    (b : ℕ → ℕ) (k : ℕ) (xs : List ℕ) (x : ℕ)
    → load b k (xs ++ x ∷ []) ≡ put (load b k xs) (k + length xs) x
unfolding load
load-append b k [] x = ap (λ j. put b j x) (omega arith)
load-append b k (y ∷ xs) x =
    load-append (put b k y) (k + 1) xs x
    ∙ ap (λ j. put (load (put b k y) (k + 1) xs) j x) (omega arith)

-- CMD_EXEC with the command c and the payload bs in the buffer.
abbrev pub executing : State → ℕ → List ℕ → State
executing s c bs = record s {
  fsm = cmd_exec;
  cmd = c;
  payload_len = payload_of c;
  buf = load s.buf 0 bs;
  buf_idx = length bs - 1;
}

payload_of-le : (c : ℕ) → payload_of c ≤ 14
unfolding payload_of
payload_of-le c = ground arith

has_payload : (c n : ℕ) → n + 1 ≡ payload_of c → (payload_of c == 0) ≡ false
has_payload c n e = ground arith

module _ (s : State) (head : Inputs) (is : List Inputs) (last : Inputs) (waiting : s.fsm ≡ cmd_wait)
    (head_valid : head.rx_valid ≡ true) (last_valid : last.rx_valid ≡ true)
    (enough : length (bytes is) + 1 ≡ payload_of head.rx_data) where
  abbrev called : State
  called = record s { cmd = head.rx_data; payload_len = payload_of head.rx_data }

  fits : payload_of head.rx_data ≤ 14
  fits = payload_of-le head.rx_data

  room : 0 + length (bytes is) < payload_of head.rx_data
  room = omega (arith, enough)

  accepts : step s head ≡ gathering called s.buf 0
  unfolding step accept
  accepts = rw (waiting, head_valid, has_payload head.rx_data (length (bytes is)) enough) refl

  stores :
      step (gathering called (load s.buf 0 (bytes is)) (0 + length (bytes is))) last
      ≡ executing s head.rx_data (bytes is ++ last.rx_data ∷ [])
  stores =
      take_last called last (load s.buf 0 (bytes is)) (0 + length (bytes is)) last_valid
        (omega (arith, enough))
      ∙ ap₂ (λ b k. record called { fsm = cmd_exec; buf = b; buf_idx = k })
          (sym (load-append s.buf 0 (bytes is) last.rx_data))
          (omega (arith, length-append (bytes is) (last.rx_data ∷ [])))

  -- A command byte and as many bytes as its payload has, whatever the gaps: the command is executed
  -- with the payload in the buffer.
  pub receives :
      run s (head ∷ is ++ last ∷ []) ≡ executing s head.rx_data (bytes is ++ last.rx_data ∷ [])
  unfolding run
  receives =
      ap (λ t. run t (is ++ last ∷ [])) accepts
      ∙ run-append (gathering called s.buf 0) is (last ∷ [])
      ∙ ap (λ t. step t last) (gathers called s.buf 0 is room fits)
      ∙ stores

  idle_outputs : outputs s head ≡ quiet
  unfolding outputs outputs_in
  idle_outputs = rw waiting refl

  pub quiet_receiving :
      trace s (head ∷ is ++ last ∷ []) ≡ quiet ∷ replicate (length is) quiet ++ quiet ∷ []
  unfolding trace outputs outputs_in
  quiet_receiving = ap₂ ◌∷◌ idle_outputs (
      ap (λ t. trace t (is ++ last ∷ [])) accepts
      ∙ trace-append (gathering called s.buf 0) is (last ∷ [])
      ∙ ap₂ ◌++◌ (drives_nothing called s.buf 0 is room fits)
          (ap (λ t. outputs t last ∷ []) (gathers called s.buf 0 is room fits)))
