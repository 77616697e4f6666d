-- ===== src/ClauseEvaluator/Session.antt =====
-- clause_evaluator.py: clauses one after another, with pauses.
use cdcl_sat_solver.Base.{
  ℕ, ◌≤◌, ◌<◌, ◌≡◌, ◌⊎◌, inl, inr, refl, sym, ap, ap₂, ◌∙◌, subst, Bool, true, false, if◌then◌else◌,
  List, [], ◌∷◌, ◌++◌, length, replicate, Bool-cases, arith,
}
use cdcl_sat_solver.ClauseEvaluator.{Inputs, Outputs, State, idle, step, outputs, quiet}
use cdcl_sat_solver.ClauseEvaluator.Verdict.{Assignment, verdict, verdict_satisfied}
use cdcl_sat_solver.ClauseEvaluator.Run.{tick, run, trace, literals, Below}
use cdcl_sat_solver.ClauseEvaluator.Answer.{evaluates, sat_bit_exit, trace-append, run-append}

-- A cycle without a clause; or a clause in the first of its cycles, and the cycles up to its answer.
pub data Job : Type 0 where
  pause : (i : Inputs) → Job
  clause : (first : Inputs) (during : List Inputs) (last : Inputs) → Job

abbrev pub job_cycles : Job → List Inputs
job_cycles (pause i) = i ∷ []
job_cycles (clause first during last) = first ∷ during ++ last ∷ []

abbrev pub cycles : List Job → List Inputs
cycles [] = []
cycles (j ∷ js) = job_cycles j ++ cycles js

-- How many cycles there are between the clause and its answer.
abbrev pub delay : Inputs → ℕ
delay i = if i.clause.sat_bit then 0 else i.clause.size

-- One to five literals of variables that exist, unless the sat bit is set.
abbrev pub IsClause : Inputs → Type 0
IsClause i =
    (i.clause.sat_bit ≡ true)
    ⊎ ((0 < i.clause.size) × (i.clause.size ≤ 5) × Below 1024 (literals i.clause))

abbrev pub Sound : List Job → Type 0
Sound [] = Unit
Sound (pause i ∷ js) = (i.meta_valid ≡ false) × Sound js
Sound (clause first during last ∷ js) =
    (first.meta_valid ≡ true) × (length during ≡ delay first) × IsClause first × Sound js

-- The outputs in the cycles of a job.
abbrev pub job_answer : Assignment → Job → List Outputs
job_answer a (pause i) = quiet ∷ []
job_answer a (clause first during last) =
    quiet ∷ replicate (delay first) quiet
    ++ (if first.clause.sat_bit
        then verdict_satisfied first.clause_id_in
        else verdict a first.clause_id_in (literals first.clause))
      ∷ []

abbrev pub answers : Assignment → List Job → List Outputs
answers a [] = []
answers a (j ∷ js) = job_answer a j ++ answers a js

-- What a job does, its sat bit given.
abbrev Answers : Assignment → State → Inputs → List Inputs → Inputs → Bool → Type 0
Answers a s first during last b =
    (trace a s (first ∷ during ++ last ∷ [])
      ≡ quiet ∷ replicate (if b then 0 else first.clause.size) quiet
        ++ (if b
            then verdict_satisfied first.clause_id_in
            else verdict a first.clause_id_in (literals first.clause))
          ∷ [])
    × ((run a s (first ∷ during ++ last ∷ [])).fsm ≡ idle)

abbrev Done : Assignment → State → Job → Type 0
Done a s j = (trace a s (job_cycles j) ≡ job_answer a j) × ((run a s (job_cycles j)).fsm ≡ idle)

pause-Done :
    (a : Assignment) (s : State) (i : Inputs)
    → s.fsm ≡ idle
    → i.meta_valid ≡ false
    → Done a s (pause i)
unfolding trace run tick step outputs
pause-Done a s i f v = ground arith

sat-Done :
    (a : Assignment) (s : State) (first : Inputs) (during : List Inputs) (last : Inputs)
    → s.fsm ≡ idle
    → first.meta_valid ≡ true
    → first.clause.sat_bit ≡ true
    → length during ≡ delay first
    → Done a s (clause first during last)
sat-Done a s first [] last f v b l =
    subst (Answers a s first [] last) (sym b) (sat_bit_exit a s first last f v b)
sat-Done a s first (d ∷ during) last f v b l =
    let none : length (d ∷ during) ≡ 0 = l ∙ ap (λ x. if x then 0 else first.clause.size) b in
    absurd (omega (arith, none))

open-Done :
    (a : Assignment) (s : State) (first : Inputs) (during : List Inputs) (last : Inputs)
    → s.fsm ≡ idle
    → first.meta_valid ≡ true
    → first.clause.sat_bit ≡ false
    → length during ≡ delay first
    → IsClause first
    → Done a s (clause first during last)
open-Done a s first during last f v b l (inl y) = let no : true ≡ false = sym y ∙ b in absurd (cc)
open-Done a s first during last f v b l (inr (p, q, w)) =
    subst (Answers a s first during last) (sym b) (
      evaluates a s first during last (record {
        waiting = f;
        shown = v;
        sat_clear = b;
        some_literal = p;
        at_most_five = q;
        literals_fit = w;
        cycles = l ∙ ap (λ x. if x then 0 else first.clause.size) b;
      }))

one-Done :
    (a : Assignment) (s : State) (j : Job) (js : List Job)
    → s.fsm ≡ idle
    → Sound (j ∷ js)
    → Done a s j × Sound js
one-Done a s (pause i) js f k = (pause-Done a s i f k.0, k.1)
one-Done a s (clause first during last) js f k = elim (Bool-cases first.clause.sat_bit) [
  | inl b ↦ (sat-Done a s first during last f k.0 b k.1, k.3)
  | inr b ↦ (open-Done a s first during last f k.0 b k.1 k.2, k.3)
]

-- An idle evaluator that is given clauses one after another, each in a cycle in which it is idle,
-- with any pauses between them and anything on its inputs while it works, answers each of them once
-- and in their order: a clause whose sat bit is set is SATISFIED one cycle after it was shown, and
-- another one, of one to five literals of variables that exist, has the verdict on its literals as
-- many cycles later as it has literals and one more. Nothing is shown in any other cycle, and the
-- evaluator is idle again after the last answer.
pub answers_all :
    (a : Assignment) (s : State) (js : List Job)
    → s.fsm ≡ idle
    → Sound js
    → (trace a s (cycles js) ≡ answers a js) × ((run a s (cycles js)).fsm ≡ idle)
unfolding trace run
answers_all a s [] f k = (refl, f)
answers_all a s (j ∷ js) f k =
    let (done_so, sound) = one-Done a s j js f k in
    let (shown, ends) = answers_all a (run a s (job_cycles j)) js done_so.1 sound in
    (
      trace-append a s (job_cycles j) (cycles js) ∙ ap₂ ◌++◌ done_so.0 shown,
      ap (λ t. t.fsm) (run-append a s (job_cycles j) (cycles js)) ∙ ends,
    )
