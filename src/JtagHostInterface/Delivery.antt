-- ===== src/JtagHostInterface/Delivery.antt =====
-- jtag_host_interface.py: a word that the chain has latched becomes the writes of its command.
use cdcl_sat_solver.Base.{ℕ, ◌<◌, ◌≡◌, refl, ap₂, ◌∙◌, Bool, not, List, [], ◌∷◌, length, replicate}
use cdcl_sat_solver.HostInterface.Commands.{
  Command, write_clause, write_wl_entry, write_wl_len, write_assign, bcp_start, Fits,
}
use cdcl_sat_solver.JtagHostInterface.Protocol.{BcpPorts, Outputs}
use cdcl_sat_solver.JtagHostInterface.Core.{State, Latched, step, outputs}
use cdcl_sat_solver.BcpAccelerator.Contents.{Writes, no_writes, writes_of}
use cdcl_sat_solver.JtagHostInterface.Stages.{
  Waiting, step-Waiting, Holding, step-Holding, Raised, step-Raised, step-cleared, step-seq,
  step-seq_waiting,
}
use cdcl_sat_solver.JtagHostInterface.Requests.{request}

-- The write ports.
abbrev pub writes : Outputs → Writes
writes o = (o.clause_wr, o.wl_wr, o.assign_wr)

pub Waiting-writes : (s : State) (a b c : Bool) → Waiting s a b c → writes (outputs s) ≡ no_writes
unfolding outputs
Waiting-writes s a b c w = rw (w.clause_wr, w.wl_wr, w.wl_len, w.assign_wr) refl

Holding-writes :
    (s : State) (tog : Bool) (rx : ℕ) → Holding s tog rx → writes (outputs s) ≡ no_writes
unfolding outputs
Holding-writes s tog rx w = rw (w.clause_wr, w.wl_wr, w.wl_len, w.assign_wr) refl

Raised-writes :
    (s : State) (tog : Bool) (c : Command) (seq : ℕ) (l : Latched)
    → Raised s tog c seq l
    → writes (outputs s) ≡ writes_of c
unfolding outputs
Raised-writes s tog (write_clause a k) seq l w =
    rw (w.latched, w.clause_wr, w.wl_wr, w.wl_len, w.assign_wr) refl
Raised-writes s tog (write_wl_entry a j k) seq l w =
    rw (w.latched, w.clause_wr, w.wl_wr, w.wl_len, w.assign_wr) refl
Raised-writes s tog (write_wl_len a k) seq l w =
    rw (w.latched, w.clause_wr, w.wl_wr, w.wl_len, w.assign_wr) refl
Raised-writes s tog (write_assign a k) seq l w =
    rw (w.latched, w.clause_wr, w.wl_wr, w.wl_len, w.assign_wr) refl
Raised-writes s tog (bcp_start a) seq l w = rw (w.clause_wr, w.wl_wr, w.wl_len, w.assign_wr) refl

-- The write ports over some cycles, and the registers after them, while the port holds one word.
unfoldable pub writes_over : State → ℕ → Bool → List BcpPorts → List Writes
writes_over s rx tog [] = []
writes_over s rx tog (p ∷ ps) = writes (outputs s) ∷ writes_over (step s rx tog p) rx tog ps

unfoldable pub core_run : State → ℕ → Bool → List BcpPorts → State
core_run s rx tog [] = s
core_run s rx tog (p ∷ ps) = core_run (step s rx tog p) rx tog ps

-- While no new word comes, nothing is written, and the number is kept.
pub writes_over-Waiting :
    (ps : List BcpPorts) (s : State) (rx : ℕ) (t : Bool)
    → Waiting s t t t
    → writes_over s rx t ps ≡ replicate (length ps) no_writes
unfolding writes_over
writes_over-Waiting [] s rx t w = refl
writes_over-Waiting (p ∷ ps) s rx t w =
    ap₂ ◌∷◌ (Waiting-writes s t t t w)
      (writes_over-Waiting ps (step s rx t p) rx t (step-Waiting s rx t t t p w))

pub core_run-Waiting :
    (ps : List BcpPorts) (s : State) (rx : ℕ) (t : Bool)
    → Waiting s t t t
    → Waiting (core_run s rx t ps) t t t × ((core_run s rx t ps).ack_seq ≡ s.ack_seq)
unfolding core_run
core_run-Waiting [] s rx t w = (w, refl)
core_run-Waiting (p ∷ ps) s rx t w =
    let more = core_run-Waiting ps (step s rx t p) rx t (step-Waiting s rx t t t p w) in
    (more.0, more.1 ∙ step-seq_waiting s rx t p w.pending)

-- The writes of a request in the cycles after its word has come.
abbrev pub written_fifth : Command → List BcpPorts → List Writes
written_fifth c more =
    no_writes ∷ no_writes ∷ no_writes ∷ no_writes ∷ writes_of c ∷ replicate (length more) no_writes

-- A new word with a request is written in the fifth cycle, and its number is echoed from then on.
pub word_reaches :
    (s : State) (t : Bool) (c : Command) (seq : ℕ) (p1 p2 p3 p4 p5 : BcpPorts)
    (more : List BcpPorts)
    → Fits c
    → seq < 256
    → Waiting s t t t
    → let rx = request c seq in
      let ps = p1 ∷ p2 ∷ p3 ∷ p4 ∷ p5 ∷ more in
      (writes_over s rx (not t) ps ≡ written_fifth c more)
      × ((core_run s rx (not t) ps).ack_seq ≡ seq)
      × Waiting (core_run s rx (not t) ps) (not t) (not t) (not t)
unfolding writes_over core_run
word_reaches s t c seq p1 p2 p3 p4 p5 more f h w0 =
    let rx = request c seq in
    let n = not t in
    let s1 = step s rx n p1 in
    let s2 = step s1 rx n p2 in
    let s3 = step s2 rx n p3 in
    let s4 = step s3 rx n p4 in
    let s5 = step s4 rx n p5 in
    let w1 = step-Waiting s rx n t t p1 w0 in
    let w2 = step-Waiting s1 rx n n t p2 w1 in
    let w3 = step-Holding s2 rx t p3 w2 in
    let w4 = step-Raised s3 rx n c seq p4 f h w3 in
    let w5 = step-cleared s4 rx n c seq s3.latched p5 w4 in
    let rest = core_run-Waiting more s5 rx n w5 in
    (
      ap₂ ◌∷◌ (Waiting-writes s t t t w0) (
          ap₂ ◌∷◌ (Waiting-writes s1 n t t w1) (
            ap₂ ◌∷◌ (Waiting-writes s2 n n t w2) (
              ap₂ ◌∷◌ (Holding-writes s3 n rx w3) (
                ap₂ ◌∷◌ (Raised-writes s4 n c seq s3.latched w4)
                  (writes_over-Waiting more s5 rx n w5))))),
      rest.1 ∙ step-seq s4 rx n c seq s3.latched p5 w4,
      rest.0,
    )
