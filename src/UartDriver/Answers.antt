-- ===== src/UartDriver/Answers.antt =====
-- hw_interface.c, the loop `while (!done)` of hw_propagate, over the report of a run.
use cdcl_sat_solver.Base.{
  ℕ, zero, suc, ◌+◌, ◌*◌, ◌/◌, ◌%◌, ◌^◌, ◌<◌, ◌≡◌, refl, ap, ◌∙◌, sym, Bool, true, false,
  if◌then◌else◌, List, [], ◌∷◌, ◌++◌, length, length-append, arith, bit, some,
}
use mathlib.Core.List.{append_assoc, append-nil}
use cdcl_sat_solver.ImplicationFifo.{Entry}
use cdcl_sat_solver.HostInterface
use cdcl_sat_solver.HostInterface.Send.{sent, ready_cycles}
use cdcl_sat_solver.HostInterface.Packets.{implication_bytes, done_bytes}
use cdcl_sat_solver.HostInterface.Report.{Packet, Implications, all_cycles, report_bytes, reports}
use cdcl_sat_solver.Cdcl.{Solver, false_value, enqueue, value_of, lit_var}
use cdcl_sat_solver.UartDriver.{
  Link, Reading, again, done, done_conflict, read_packet, read_packets, take_implication,
  implication_at, done_at, write_assign_bytes, implied_code,
}

-- The bytes of a report: the packets of the implications and the packet of the end.
abbrev pub report : List Entry → Bool → ℕ → List ℕ
report [] conflict ci = done_bytes conflict ci
report (e ∷ es) conflict ci = implication_bytes e ++ report es conflict ci

-- The negative literals of the variables, one after another on the trail, with their reasons.
abbrev pub all_false : List Entry → Solver → Solver
all_false [] s = s
all_false (e ∷ es) s = all_false es (enqueue s (2 * e.var + 1) (some e.reason))

-- The assignments of them, as WRITE_ASSIGN.
abbrev pub false_bytes : List Entry → List ℕ
false_bytes [] = []
false_bytes (e ∷ es) = write_assign_bytes e.var false_value ++ false_bytes es

abbrev pub ended : Bool → ℕ → Link → Reading
ended conflict ci k = if conflict then done_conflict ci k else done k

word_back : (x : ℕ) → x / 256 * 256 + x % 256 ≡ x
word_back x = omega arith

never_true : (b : Bool) (v : ℕ) → implied_code v (bit b) ≡ 2 * v + 1
unfolding implied_code
never_true true v = refl
never_true false v = refl

odd_value : (v : ℕ) → value_of (2 * v + 1) ≡ false_value
odd_value v = ground arith

odd_var : (v : ℕ) → lit_var (2 * v + 1) ≡ v
odd_var v = omega arith

assigned_false :
    (s : Solver) (v : ℕ) (e : Entry)
    → (enqueue s (2 * v + 1) (some e.reason)).assigns v ≡ false_value
unfolding enqueue
assigned_false s v e = rw (odd_var v, odd_value v) (ground arith)

one_packet :
    (k : Link) (e : Entry) (rest : List ℕ)
    → read_packet (implication_bytes e ++ rest) k
      ≡ again (record {
        solver = enqueue k.solver (2 * e.var + 1) (some e.reason);
        incoming = rest;
        outgoing = k.outgoing ++ write_assign_bytes e.var false_value;
      })
unfolding read_packet implication_at take_implication
one_packet k e rest =
    rw
      (
        word_back e.var,
        word_back e.reason,
        never_true e.value e.var,
        assigned_false k.solver e.var e,
      )
      refl

last_packet :
    (k : Link) (conflict : Bool) (ci : ℕ) (rest : List ℕ)
    → read_packet (done_bytes conflict ci ++ rest) k
      ≡ ended conflict ci (record k { incoming = rest })
unfolding read_packet done_at
last_packet k true ci rest = rw (word_back ci) refl
last_packet k false ci rest = refl

read_packets-again :
    (n : ℕ) (k k' : Link)
    → read_packet k.incoming k ≡ again k'
    → read_packets (suc n) k ≡ read_packets n k'
unfolding read_packets
read_packets-again n k k' e = rw e refl

read_packets-ended :
    (n : ℕ) (k k' : Link) (conflict : Bool) (ci : ℕ)
    → read_packet k.incoming k ≡ ended conflict ci k'
    → read_packets (suc n) k ≡ ended conflict ci k'
unfolding read_packets
read_packets-ended n k k' true ci e = rw e refl
read_packets-ended n k k' false ci e = rw e refl

-- The packets of a report are read one after another, if there is enough fuel.
pub reads_report :
    (n : ℕ) (k : Link) (es : List Entry) (conflict : Bool) (ci : ℕ) (rest : List ℕ)
    → length es < n
    → k.incoming ≡ report es conflict ci ++ rest
    → read_packets n k
      ≡ ended conflict ci (record {
        solver = all_false es k.solver;
        incoming = rest;
        outgoing = k.outgoing ++ false_bytes es;
      })
reads_report zero k es conflict ci rest h e = absurd (omega arith)
reads_report (suc n) k [] conflict ci rest h e =
    let k' : Link = record k { incoming = rest } in
    read_packets-ended n k k' conflict ci
      (ap (λ bs. read_packet bs k) e ∙ last_packet k conflict ci rest)
    ∙ ap (λ bs. ended conflict ci (record k' { outgoing = bs })) (sym (append-nil k.outgoing))
reads_report (suc n) k (x ∷ es) conflict ci rest h e =
    let more = report es conflict ci ++ rest in
    let k' : Link = record {
      solver = enqueue k.solver (2 * x.var + 1) (some x.reason);
      incoming = more;
      outgoing = k.outgoing ++ write_assign_bytes x.var false_value;
    } in
    read_packets-again n k k' (
      ap (λ bs. read_packet bs k)
        (e ∙ append_assoc (implication_bytes x) (report es conflict ci) rest)
      ∙ one_packet k x more)
    ∙ reads_report n k' es conflict ci rest (omega arith) refl
    ∙ ap
        (λ bs.
          ended conflict ci
            (record { solver = all_false es k'.solver; incoming = rest; outgoing = bs }))
        (append_assoc k.outgoing (write_assign_bytes x.var false_value) (false_bytes es))

abbrev pub entries : List Packet → List Entry
entries [] = []
entries (p ∷ ps) = p.shown.impl ∷ entries ps

report_bytes_lem :
    (ps : List Packet) (conflict : Bool) (ci : ℕ)
    → report_bytes ps (done_bytes conflict ci) ≡ report (entries ps) conflict ci
report_bytes_lem [] conflict ci = refl
report_bytes_lem (p ∷ ps) conflict ci =
    ap (λ bs. implication_bytes p.shown.impl ++ bs) (report_bytes_lem ps conflict ci)

pub length-report :
    (es : List Entry) (conflict : Bool) (ci : ℕ) → length es < length (report es conflict ci)
length-report [] conflict ci = omega arith
length-report (e ∷ es) conflict ci = omega (arith, length-report es conflict ci)

-- What the FPGA's host interface sends from IMPL_CHECK on, as in `Report.reports`, the driver reads
-- whole, up to the bytes that follow it on the line, with fuel for one packet more than there are
-- bytes: every implication that the FIFO showed is put on the trail in its order, with its reason and
-- FALSE as its value, whatever value was reported, and WRITE_ASSIGN of FALSE goes out for it; the
-- loop ends with a conflict exactly if the run latched one, and then with its clause.
pub reads_report-sent :
    (u : HostInterface.State) (ps : List Packet) (end : Packet) (k : Link) (rest : List ℕ)
    → u.fsm ≡ HostInterface.impl_check
    → u.conflict_id_reg < 2 ^ 13
    → Implications ps
    → end.shown.impl_valid ≡ false
    → ready_cycles end.during ≡ 3
    → end.last.tx_ready ≡ true
    → k.incoming ≡ sent u (all_cycles ps end) ++ rest
    → read_packets (length k.incoming + 1) k
      ≡ ended u.conflict_reg u.conflict_id_reg (record {
        solver = all_false (entries ps) k.solver;
        incoming = rest;
        outgoing = k.outgoing ++ false_bytes (entries ps);
      })
reads_report-sent u ps end k rest f w imps v n l e =
    let es = entries ps in
    let bytes = report es u.conflict_reg u.conflict_id_reg in
    let arrived =
      e
      ∙ ap (λ bs. bs ++ rest)
          ((reports u ps end f w imps v n l).0
            ∙ report_bytes_lem ps u.conflict_reg u.conflict_id_reg) in
    let enough = length-report es u.conflict_reg u.conflict_id_reg in
    reads_report (length k.incoming + 1) k es u.conflict_reg u.conflict_id_reg rest
      (omega (arith, ap length arrived ∙ length-append bytes rest)) arrived
