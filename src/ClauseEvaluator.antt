-- ===== src/ClauseEvaluator.antt =====
-- src/hardware/modules/clause_evaluator.py: the state machine that evaluates one clause against
-- the assignments, a literal in each cycle.
pub mod Verdict
pub mod Run
pub mod Answer
pub mod Semantics
pub mod Session
pub mod Occupied
pub mod Hang
use cdcl_sat_solver.Base.{
  ℕ, zero, suc, ◌+◌, ◌/◌, Bool, true, false, not, ◌&&◌, ◌||◌, ◌==◌, if◌then◌else◌, low_bits, bit_at,
}
use cdcl_sat_solver.ClauseMemory.{Clause}
use cdcl_sat_solver.AssignmentMemory.{unassigned, is_false, is_true}

-- SATISFIED = 0, UNIT = 1, CONFLICT = 2, UNRESOLVED = 3.
pub data Status : Type 0 where
  satisfied unit conflict unresolved : Status

-- The states IDLE, EVAL and OUTPUT.
pub data Fsm : Type 0 where
  idle eval output : Fsm

-- The input ports; `clause` is `sat_bit`, `size` and `lit0` to `lit4`.
pub record Inputs : Type 0 where
  pub clause_id_in : ℕ
  pub meta_valid : Bool
  pub clause : Clause
  pub assign_rd_data : ℕ

pub record Outputs : Type 0 where
  pub result_status : Status
  pub result_implied_var : ℕ
  pub result_implied_val : Bool
  pub result_clause_id : ℕ
  pub result_valid : Bool

-- The registers of `elaborate`. `lit_regs` is its `Array`, as a function of the index.
pub record State : Type 0 where
  pub fsm : Fsm
  pub clause_id_reg : ℕ
  pub size_reg : ℕ
  pub is_satisfied : Bool
  pub unassigned_count : ℕ
  pub last_unassigned_lit : ℕ
  pub lit_idx : ℕ
  pub lit_regs : ℕ → ℕ

abbrev pub reset : State
reset = record {
  fsm = idle;
  clause_id_reg = 0;
  size_reg = 0;
  is_satisfied = false;
  unassigned_count = 0;
  last_unassigned_lit = 0;
  lit_idx = 0;
  lit_regs = λ _. 0;
}

-- `Array` reads its last element past its end.
unfoldable pub array : Clause → ℕ → ℕ
array c zero = c.lit0
array c (suc zero) = c.lit1
array c (suc (suc zero)) = c.lit2
array c (suc (suc (suc zero))) = c.lit3
array c (suc (suc (suc (suc k)))) = c.lit4

abbrev pub current_lit : State → ℕ
current_lit s = s.lit_regs s.lit_idx

-- A port of 9 bits.
unfoldable pub assign_rd_addr : State → ℕ
assign_rd_addr s = low_bits 9 (current_lit s / 2)

-- `lit_true` of the state EVAL: bit 0 of a literal is its polarity.
unfoldable pub lit_true : ℕ → ℕ → Bool
lit_true lit assign_val =
    not (bit_at 0 lit) && (assign_val == is_true) || bit_at 0 lit && (assign_val == is_false)

-- IDLE: latch the clause and clear the accumulators.
latch : State → Inputs → State
latch s i =
    let fresh = record s {
      clause_id_reg = i.clause_id_in;
      size_reg = i.clause.size;
      lit_regs = array i.clause;
      unassigned_count = 0;
      last_unassigned_lit = 0;
    } in
    if i.clause.sat_bit
    then record fresh { is_satisfied = true; fsm = output }
    else record fresh { is_satisfied = false; lit_idx = 0; fsm = eval }

-- EVAL: account for one literal. The test `lit_idx == size_reg - 1` compares integers, so it is
-- that of `lit_idx + 1` with `size_reg`, and fails at a size of 0.
accumulate : State → Inputs → State
unfolding lit_true
accumulate s i =
    let lit = current_lit s in
    let lit_unassigned = i.assign_rd_data == unassigned in
    let last = (s.lit_idx + 1) == s.size_reg in
    record s {
      is_satisfied = if lit_true lit i.assign_rd_data then true else s.is_satisfied;
      unassigned_count =
          if lit_unassigned then low_bits 3 (s.unassigned_count + 1) else s.unassigned_count;
      last_unassigned_lit = if lit_unassigned then lit else s.last_unassigned_lit;
      fsm = if last then output else eval;
      lit_idx = if last then s.lit_idx else low_bits 3 (s.lit_idx + 1);
    }

step_in : Fsm → State → Inputs → State
unfolding latch accumulate
step_in idle s i = if i.meta_valid then latch s i else s
step_in eval s i = accumulate s i
step_in output s i = record s { fsm = idle }

-- One clock edge.
unfoldable pub step : State → Inputs → State
unfolding step_in
step s i = step_in s.fsm s i

-- Ports that a state does not drive are 0.
abbrev pub quiet : Outputs
quiet = record {
  result_status = satisfied;
  result_implied_var = 0;
  result_implied_val = false;
  result_clause_id = 0;
  result_valid = false;
}

-- OUTPUT: the status, and for a unit clause the variable and its value.
result : State → Outputs
result s =
    let valid = record quiet { result_clause_id = s.clause_id_reg; result_valid = true } in
    if s.is_satisfied
    then record valid { result_status = satisfied }
    else if s.unassigned_count == 0
    then record valid { result_status = conflict }
    else if s.unassigned_count == 1
    then record valid {
      result_status = unit;
      result_implied_var = low_bits 9 (s.last_unassigned_lit / 2);
      result_implied_val = not (bit_at 0 s.last_unassigned_lit);
    }
    else record valid { result_status = unresolved }

outputs_in : Fsm → State → Outputs
unfolding result
outputs_in output s = result s
outputs_in _ s = quiet

-- The combinational outputs.
unfoldable pub outputs : State → Outputs
unfolding outputs_in
outputs s = outputs_in s.fsm s
