-- ===== src/UartDriver/Written.antt =====
-- hw_interface.c, hw_propagate: the solver and the bytes after some runs.
use cdcl_sat_solver.Base.{
  ℕ, ◌+◌, ◌-◌, ◌*◌, ◌/◌, ◌%◌, ◌<◌, ◌≡◌, refl, ap, ap₂, ◌∙◌, sym, subst, false, ◌==◌, List, [], ◌∷◌,
  ◌++◌, length, length-append, arith, some, if◌then◌else◌,
}
use mathlib.Core.List.{append_assoc, append-nil}
use cdcl_sat_solver.ImplicationFifo.{Entry}
use cdcl_sat_solver.Cdcl.{Solver, enqueue, lit_neg}
use cdcl_sat_solver.UartDriver.{Link, advance, send_start, write_assign_bytes, sw_to_hw_assign}
use cdcl_sat_solver.UartDriver.Answers.{all_false, false_bytes}
use cdcl_sat_solver.UartDriver.Rounds.{
  Round, answers, Turns, final_size, after_packets, after_rounds, all_false-sizes,
}

-- BCP_START (0x05) on the negation of a literal, its high byte first: 2v and 2v + 1 are the literals of
-- the variable v.
abbrev pub start_packet : ℕ → List ℕ
start_packet lit =
    let negated = 2 * (lit / 2) + (1 - lit % 2) in 0x05 ∷ negated / 256 % 256 ∷ negated % 256 ∷ []

-- WRITE_ASSIGN (0x04) of FALSE (1) for each variable.
abbrev pub false_packets : List Entry → List ℕ
false_packets [] = []
false_packets (e ∷ es) = 0x04 ∷ e.var / 256 % 256 ∷ e.var % 256 ∷ 1 ∷ false_packets es

-- What is written for some literals of a trail, from a place on: a start for each of them, and the
-- assignments of the implications that answer it.
abbrev pub exchanged : (ℕ → ℕ) → ℕ → List Round → List ℕ
exchanged trail place [] = []
exchanged trail place (r ∷ rs) =
    start_packet (trail place) ++ (false_packets r.implied ++ exchanged trail (place + 1) rs)

abbrev pub all_implied : List Round → List Entry
all_implied [] = []
all_implied (r ∷ rs) = r.implied ++ all_implied rs

negated_lem : (lit : ℕ) → lit_neg lit ≡ 2 * (lit / 2) + (1 - lit % 2)
unfolding lit_neg
negated_lem lit = ground arith

false_bytes_lem : (es : List Entry) → false_bytes es ≡ false_packets es
unfolding write_assign_bytes sw_to_hw_assign
false_bytes_lem [] = refl
false_bytes_lem (e ∷ es) =
    ap (λ bs. 0x04 ∷ e.var / 256 % 256 ∷ e.var % 256 ∷ 1 ∷ bs) (false_bytes_lem es)

send_start_lem :
    (k : Link)
    → (send_start k).outgoing ≡ k.outgoing ++ start_packet (k.solver.trail k.solver.prop_head)
unfolding send_start
send_start_lem k =
    ap (λ x. k.outgoing ++ 0x05 ∷ x / 256 % 256 ∷ x % 256 ∷ [])
      (negated_lem (k.solver.trail k.solver.prop_head))

-- The implications do not touch the head, nor the trail before its end.
all_false-head :
    (es : List Entry) (s : Solver) (h : ℕ)
    → all_false es (record s { prop_head = h }) ≡ record (all_false es s) { prop_head = h }
unfolding enqueue
all_false-head [] s h = refl
all_false-head (e ∷ es) s h = all_false-head es (enqueue s (2 * e.var + 1) (some e.reason)) h

all_false-append :
    (xs ys : List Entry) (s : Solver) → all_false (xs ++ ys) s ≡ all_false ys (all_false xs s)
all_false-append [] ys s = refl
all_false-append (x ∷ xs) ys s = all_false-append xs ys (enqueue s (2 * x.var + 1) (some x.reason))

all_false-trail :
    (es : List Entry) (s : Solver) (i : ℕ) → i < s.trail_size → (all_false es s).trail i ≡ s.trail i
unfolding enqueue
all_false-trail [] s i lt = refl
all_false-trail (e ∷ es) s i lt =
    let other : (i == s.trail_size) ≡ false = ground arith in
    all_false-trail es (enqueue s (2 * e.var + 1) (some e.reason)) i (omega arith)
    ∙ ap (λ b. if b then 2 * e.var + 1 else s.trail i) other

-- The solver after some runs: all implications are on the trail, and the head has moved on.
abbrev pub solver_after : Solver → List Entry → ℕ → Solver
solver_after s es n = record (all_false es s) { prop_head = s.prop_head + n }

unfoldable pub after_one : Link → Round → List ℕ → Link
after_one k r rest = advance (after_packets r.implied rest k)

pub after_one-solver :
    (k : Link) (r : Round) (rest : List ℕ)
    → (after_one k r rest).solver ≡ solver_after k.solver r.implied 1
unfolding after_one
after_one-solver k r rest =
    ap (λ h. record (all_false r.implied k.solver) { prop_head = h + 1 })
      (all_false-sizes r.implied k.solver).0

pub after_one-outgoing :
    (k : Link) (r : Round) (rest : List ℕ)
    → (after_one k r rest).outgoing
      ≡ k.outgoing ++ (start_packet (k.solver.trail k.solver.prop_head) ++ false_packets r.implied)
unfolding after_one
after_one-outgoing k r rest =
    ap₂ ◌++◌ (send_start_lem k) (false_bytes_lem r.implied)
    ∙ append_assoc k.outgoing (start_packet (k.solver.trail k.solver.prop_head))
        (false_packets r.implied)

pub solver_after-append :
    (s : Solver) (xs ys : List Entry) (m n : ℕ)
    → solver_after (solver_after s xs m) ys n ≡ solver_after s (xs ++ ys) (m + n)
solver_after-append s xs ys m n =
    ap (λ (t : Solver). record t { prop_head = s.prop_head + m + n })
      (all_false-head ys (all_false xs s) (s.prop_head + m)
        ∙ ap (λ (t : Solver). record t { prop_head = s.prop_head + m })
            (sym (all_false-append xs ys s)))
    ∙ ap (λ h. record (all_false (xs ++ ys) s) { prop_head = h }) (omega arith)

pub after_rounds-solver :
    (rs : List Round) (k : Link) (rest : List ℕ)
    → (after_rounds rs rest k).solver ≡ solver_after k.solver (all_implied rs) (length rs)
unfolding after_one
after_rounds-solver [] k rest = ap (λ h. record k.solver { prop_head = h }) (omega arith)
after_rounds-solver (r ∷ rs) k rest =
    after_rounds-solver rs (after_one k r (answers rs rest)) rest
    ∙ ap (λ s. solver_after s (all_implied rs) (length rs)) (after_one-solver k r (answers rs rest))
    ∙ solver_after-append k.solver r.implied (all_implied rs) 1 (length rs)
    ∙ ap (solver_after k.solver (all_implied (r ∷ rs))) (omega arith)

Turns-after :
    (k : Link) (r : Round) (rs : List Round) (rest : List ℕ)
    → Turns k.solver.prop_head k.solver.trail_size (r ∷ rs)
    → let s = (after_one k r rest).solver in Turns s.prop_head s.trail_size rs
Turns-after k r rs rest t =
    subst (λ s. Turns s.prop_head s.trail_size rs) (sym (after_one-solver k r rest))
      (subst (λ z. Turns (k.solver.prop_head + 1) z rs) (sym (all_false-sizes r.implied k.solver).1)
        t.1)

pub after_rounds-outgoing :
    (rs : List Round) (k : Link) (rest : List ℕ)
    → Turns k.solver.prop_head k.solver.trail_size rs
    → (after_rounds rs rest k).outgoing
      ≡ k.outgoing ++ exchanged (all_false (all_implied rs) k.solver).trail k.solver.prop_head rs
unfolding after_one
after_rounds-outgoing [] k rest t = sym (append-nil k.outgoing)
after_rounds-outgoing (r ∷ rs) k rest t =
    let s = k.solver in
    let k1 = after_one k r (answers rs rest) in
    let head = s.prop_head in
    let whole = (all_false (all_implied (r ∷ rs)) s).trail in
    let same_solver = after_one-solver k r (answers rs rest) in
    let same_trail : (all_false (all_implied rs) k1.solver).trail ≡ whole =
      ap (λ u. (all_false (all_implied rs) u).trail) same_solver
      ∙ ap (λ u. u.trail) (solver_after-append s r.implied (all_implied rs) 1 (length rs)) in
    let at_head : whole head ≡ s.trail head = all_false-trail (all_implied (r ∷ rs)) s head t.0 in
    let later = exchanged whole (head + 1) rs in
    after_rounds-outgoing rs k1 rest (Turns-after k r rs (answers rs rest) t)
    ∙ ap₂ (λ f p. k1.outgoing ++ exchanged f p rs) same_trail (ap (λ u. u.prop_head) same_solver)
    ∙ ap (λ bs. bs ++ later) (after_one-outgoing k r (answers rs rest))
    ∙ append_assoc k.outgoing (start_packet (s.trail head) ++ false_packets r.implied) later
    ∙ ap (λ bs. k.outgoing ++ bs)
        (append_assoc (start_packet (s.trail head)) (false_packets r.implied) later
          ∙ ap (λ l. start_packet l ++ (false_packets r.implied ++ later)) (sym at_head))

-- Two links with the same fields.
pub same_link :
    {k : Link} {s : Solver} {i o : List ℕ}
    → k.solver ≡ s
    → k.incoming ≡ i
    → k.outgoing ≡ o
    → k ≡ record { solver = s; incoming = i; outgoing = o }
same_link a b c j = record { solver = a j; incoming = b j; outgoing = c j }

pub length_implied :
    (size : ℕ) (rs : List Round) → final_size size rs ≡ size + length (all_implied rs)
length_implied size [] = omega arith
length_implied size (r ∷ rs) =
    omega
      (arith, length_implied (size + length r.implied) rs, length-append r.implied (all_implied rs))
