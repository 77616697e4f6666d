-- ===== src/JtagHostInterface/Stores.antt =====
-- jtag_host_interface.py: what the memories behind the write ports hold after a scan.
use cdcl_sat_solver.Base.{
  ℕ, ◌^◌, ◌<◌, ◌≡◌, refl, ap, ◌∙◌, sym, subst, true, List, [], ◌∷◌, ◌++◌, length, replicate, zero,
  suc, arith, bit-lt-two,
}
use mathlib.Core.List.{append_assoc, append-nil}
use cdcl_sat_solver.Memory.{write}
use cdcl_sat_solver.HostInterface.Commands.{Command, Fits}
use cdcl_sat_solver.BcpAccelerator.Contents.{
  Contents, NoWrites, no_writes, writes_of, store, all_written, all_written-NoWrites,
  all_written-append, written-effect, written,
}
use cdcl_sat_solver.JtagHostInterface.{State, Edge, jtck, clk, step}
use cdcl_sat_solver.JtagHostInterface.Protocol.{BcpPorts}
use cdcl_sat_solver.JtagHostInterface.Port
use cdcl_sat_solver.JtagHostInterface.Words.{value}
use cdcl_sat_solver.JtagHostInterface.Scan.{run, Shifts, bits_in}
use cdcl_sat_solver.JtagHostInterface.Exchange.{Pauses, latches, run-append}
use cdcl_sat_solver.JtagHostInterface.Requests.{request}
use cdcl_sat_solver.JtagHostInterface.Stages.{Waiting}
use cdcl_sat_solver.JtagHostInterface.Delivery.{writes_over-Waiting, written_fifth}
use cdcl_sat_solver.JtagHostInterface.Writes.{
  NoUpdate, clks, writes_out, writes_out-NoUpdate, writes_out-append, scan_writes, NoUpdate-Shifts,
  NoUpdate-Pauses, NoUpdate-append, one-kept,
}

-- The scan of a request, its update, and the cycles after it, five at least.
pub record Request (c : Command) (seq : ℕ) (all : List Edge) : Type 0 where
  pub first : Port.Inputs
  pub rest : List Edge
  pub pauses : List Edge
  pub update : Port.Inputs
  pub cycles : List Edge
  pub p1 : BcpPorts
  pub p2 : BcpPorts
  pub p3 : BcpPorts
  pub p4 : BcpPorts
  pub p5 : BcpPorts
  pub more : List BcpPorts
  pub fits : Fits c
  pub seq_fits : seq < 256
  pub shifting : Shifts (jtck first ∷ rest)
  pub whole : length (bits_in (jtck first ∷ rest)) ≡ 128
  pub word : value (bits_in (jtck first ∷ rest)) ≡ request c seq
  pub pausing : Pauses pauses
  pub updating : update.jupdate ≡ true
  pub no_update : NoUpdate cycles
  pub five : clks cycles ≡ p1 ∷ p2 ∷ p3 ∷ p4 ∷ p5 ∷ more
  pub whole_run : all ≡ ((jtck first ∷ rest) ++ (pauses ++ jtck update ∷ [])) ++ cycles

-- The other domain waits for a word.
pub record Ready (s : State) : Type 0 where
  pub rx_fits : s.port.rx_shift < 2 ^ 128
  pub waiting : Waiting s.core s.port.jtag_rx_toggle s.port.jtag_rx_toggle s.port.jtag_rx_toggle

NoWrites-replicate : (n : ℕ) → NoWrites (replicate n no_writes)
NoWrites-replicate zero = tt
NoWrites-replicate (suc n) = (refl, NoWrites-replicate n)

writes_out-scan :
    (s : State) (shifts gs : List Edge) (u : Port.Inputs)
    → Shifts shifts
    → Pauses gs
    → Ready s
    → NoWrites (writes_out s (shifts ++ (gs ++ jtck u ∷ [])))
unfolding writes_out
writes_out-scan s shifts gs u sh pa r =
    let t = s.port.jtag_rx_toggle in
    let split =
      ap (writes_out s) (sym (append_assoc shifts gs (jtck u ∷ [])))
      ∙ writes_out-append (shifts ++ gs) (jtck u ∷ []) s
      ∙ append-nil (writes_out s (shifts ++ gs)) in
    let alone =
      writes_out-NoUpdate (shifts ++ gs) s
        (NoUpdate-append shifts gs (NoUpdate-Shifts shifts sh) (NoUpdate-Pauses gs pa)) in
    subst NoWrites
      (sym (
        split
        ∙ alone
        ∙ writes_over-Waiting (clks (shifts ++ gs)) s.core s.port.jtag_rx t r.waiting))
      (NoWrites-replicate (length (clks (shifts ++ gs))))

fifth_written :
    (c : Command) (more : List BcpPorts) (m : Contents)
    → Fits c
    → all_written (written_fifth c more) m ≡ store c m
unfolding all_written written write
fifth_written c more m f =
    all_written-NoWrites (replicate (length more) no_writes) (written (writes_of c) m)
      (NoWrites-replicate (length more))
    ∙ written-effect c m f

run-rx_fits :
    (es : List Edge) (s : State) → s.port.rx_shift < 2 ^ 128 → (run s es).port.rx_shift < 2 ^ 128
unfolding run step
run-rx_fits [] s h = h
run-rx_fits (clk p ∷ es) s h = run-rx_fits es (step s (clk p)) h
run-rx_fits (jtck i ∷ es) s h = run-rx_fits es (step s (jtck i)) (ground (arith, bit-lt-two i.jtdi))

run-toggle :
    (es : List Edge) (s : State)
    → NoUpdate es
    → (run s es).port.jtag_rx_toggle ≡ s.port.jtag_rx_toggle
unfolding run step
run-toggle [] s nu = refl
run-toggle (clk p ∷ es) s nu = run-toggle es (step s (clk p)) nu
run-toggle (jtck i ∷ es) s nu = run-toggle es (step s (jtck i)) nu.1 ∙ (one-kept s i nu.0).1

-- A request that is scanned in stores what its command says, and nothing else, its number is
-- echoed, and the interface is ready for the next one.
Request-stores :
    (s : State) (c : Command) (seq : ℕ) (all : List Edge) (m : Contents)
    → Ready s
    → Request c seq all
    → (all_written (writes_out s all) m ≡ store c m)
      × ((run s all).core.ack_seq ≡ seq)
      × Ready (run s all)
Request-stores s c seq all m r q =
    let scan = (jtck q.first ∷ q.rest) ++ (q.pauses ++ jtck q.update ∷ []) in
    let after = run s scan in
    let w =
      scan_writes s c seq q.first q.rest q.pauses q.update q.cycles q.p1 q.p2 q.p3 q.p4 q.p5 q.more
        q.fits q.seq_fits q.shifting q.whole q.word q.pausing q.updating q.no_update q.five
        r.rx_fits r.waiting in
    let latch =
      latches s q.first q.rest q.pauses q.update q.shifting q.whole q.pausing q.updating
        r.rx_fits in
    let quiet =
      writes_out-scan s (jtck q.first ∷ q.rest) q.pauses q.update q.shifting q.pausing r in
    let ran = ap (run s) q.whole_run ∙ run-append s scan q.cycles in
    let toggle = run-toggle q.cycles after q.no_update ∙ latch.1 in
    (
      ap (λ es. all_written (writes_out s es) m) q.whole_run
          ∙ ap (λ ws. all_written ws m) (writes_out-append scan q.cycles s)
          ∙ all_written-append (writes_out s scan) (writes_out after q.cycles) m
          ∙ ap (all_written (writes_out after q.cycles))
              (all_written-NoWrites (writes_out s scan) m quiet)
          ∙ ap (λ ws. all_written ws m) w.0
          ∙ fifth_written c q.more m q.fits,
      ap (λ v. v.core.ack_seq) ran ∙ w.1,
      record {
        rx_fits = run-rx_fits all s r.rx_fits;
        waiting =
            subst
              (λ v.
                Waiting v.core v.port.jtag_rx_toggle v.port.jtag_rx_toggle v.port.jtag_rx_toggle)
              (sym ran) (subst (λ n. Waiting (run after q.cycles).core n n n) (sym toggle) w.2);
      },
    )

-- Some requests, each with its edges.
pub record Step : Type 0 where
  pub command : Command
  pub seq : ℕ
  pub edges : List Edge

abbrev pub Requests : List Step → Type 0
Requests [] = Unit
Requests (q ∷ qs) = Request q.command q.seq q.edges × Requests qs

abbrev pub all_edges : List Step → List Edge
all_edges [] = []
all_edges (q ∷ qs) = q.edges ++ all_edges qs

abbrev pub all_stored : List Step → Contents → Contents
all_stored [] m = m
all_stored (q ∷ qs) m = all_stored qs (store q.command m)

-- Requests that are scanned in one after another, each with five cycles of `sync` or more after its update,
-- store what their commands say, in their order, and nothing else; the interface is then ready for
-- the next.
pub Requests-store :
    (qs : List Step) (s : State) (m : Contents)
    → Ready s
    → Requests qs
    → (all_written (writes_out s (all_edges qs)) m ≡ all_stored qs m) × Ready (run s (all_edges qs))
unfolding all_written writes_out run
Requests-store [] s m r q = (refl, r)
Requests-store (q ∷ qs) s m r ok =
    let one = Request-stores s q.command q.seq q.edges m r ok.0 in
    let more = Requests-store qs (run s q.edges) (store q.command m) one.2 ok.1 in
    (
      ap (λ ws. all_written ws m) (writes_out-append q.edges (all_edges qs) s)
          ∙ all_written-append (writes_out s q.edges) (writes_out (run s q.edges) (all_edges qs)) m
          ∙ ap (all_written (writes_out (run s q.edges) (all_edges qs))) one.0
          ∙ more.0,
      subst Ready (sym (run-append s q.edges (all_edges qs))) more.1,
    )
