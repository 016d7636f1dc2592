-- ===== src/Vm.antt =====
-- src/vm/vm.rs: the loop of `run` within one execution context. The instructions that enter a function
-- or build an object end the run with `elsewhere`; so does what would leave the context.
pub mod Runs
pub mod Expression
pub mod Compiled
pub mod Jumps
pub mod Branches
pub mod Operators
pub mod Conjunction
pub mod Variables
pub mod Numbers
pub mod Applied
pub mod Correct
pub mod Script
mod Tests
use rapidus.Prelude.{
  ℕ, zero, suc, zero, suc, ◌+◌, ◌-◌, ◌==◌, ◌&&◌, ltb, leb, Bool, true, false, not, String, List, [],
  ◌∷◌, Option, none, some, if◌then◌else◌, get_elem?, at,
}
use rapidus.Prelude.Int.{ℤ, pos, pos_part, ◌+ℤ◌}
use rapidus.JsValue.F64.{F64}
use rapidus.JsValue.Value.{Value, number, bool, null, undefined, seperator}
use rapidus.JsValue.Function.{Exception, DestinationKind, catch, finally}
use rapidus.Constant
use rapidus.Constant.{ConstantTable, as_value, as_string}
use rapidus.Bytecode.Inst
use rapidus.Bytecode.Words.{ByteCode, read_i32, read_index, read_int8}

-- The methods of `Value` that the arithmetic instructions call.
pub data ValueMethod : Type 0 where
  add sub mul div rem exp eq ne strict_eq strict_ne lt le and or xor shift_l shift_r z_shift_r :
      ValueMethod

pub data UnaryMethod : Type 0 where
  minus positive bitwise_not type_of : UnaryMethod

-- What a call that may fail gives: a value, or the value of the error that it raises.
pub data Answer (A : Type 0) : Type 0 where
  answer : A → Answer A
  raise : Value → Answer A

-- The interface to the values and environments of src/vm/jsvalue and src/vm/exec_context.rs, over the
-- machine's memory.
pub record Runtime : Type 1 where
  pub Memory : Type 0
  pub binary : ValueMethod → Value → Value → Memory → Value × Memory
  pub unary : UnaryMethod → Value → Memory → Value × Memory
  pub to_boolean : Value → Memory → Bool
  pub of_int : ℤ → F64
  pub get_value : String → Memory → Answer Value
  pub set_value : String → Value → Memory → Answer Memory

pub data SubroutineKind : Type 0 where
  ordinary : ℕ → SubroutineKind
  throw return : SubroutineKind

-- The parts of a function that the loop reads.
pub record Program : Type 0 where
  pub code : ByteCode
  pub exception_table : List Exception
  pub constant_table : ConstantTable
  pub this : Value

-- The arms of the `match` on the instruction, those with one body under one name.
pub data Arm : Type 0 where
  binary_method swapped_method : ValueMethod → Arm
  unary_method : UnaryMethod → Arm
  lnot push_int8 push_int32 push_const push_this set_value get_value double pop jmp_if_false jmp
        jmp_sub return_try return_sub throw end_run other_context :
      Arm
  push : Value → Arm

-- `GT`, `GE`, `AND`, `OR` and `XOR` call the method of the right operand.
abbrev pub arms : List (ℕ × Arm)
arms =
    (Inst.add, binary_method ValueMethod.add)
    ∷ (Inst.sub, binary_method sub)
    ∷ (Inst.mul, binary_method mul)
    ∷ (Inst.div, binary_method div)
    ∷ (Inst.rem, binary_method rem)
    ∷ (Inst.exp, binary_method exp)
    ∷ (Inst.eq, binary_method eq)
    ∷ (Inst.seq, binary_method strict_eq)
    ∷ (Inst.ne, binary_method ne)
    ∷ (Inst.sne, binary_method strict_ne)
    ∷ (Inst.lt, binary_method lt)
    ∷ (Inst.le, binary_method le)
    ∷ (Inst.gt, swapped_method lt)
    ∷ (Inst.ge, swapped_method le)
    ∷ (Inst.and, swapped_method and)
    ∷ (Inst.or, swapped_method or)
    ∷ (Inst.xor, swapped_method xor)
    ∷ (Inst.not, unary_method bitwise_not)
    ∷ (Inst.shl, binary_method shift_l)
    ∷ (Inst.shr, binary_method shift_r)
    ∷ (Inst.zfshr, binary_method z_shift_r)
    ∷ (Inst.neg, unary_method minus)
    ∷ (Inst.posi, unary_method positive)
    ∷ (Inst.lnot, lnot)
    ∷ (Inst.push_int8, push_int8)
    ∷ (Inst.push_int32, push_int32)
    ∷ (Inst.push_const, push_const)
    ∷ (Inst.push_null, push null)
    ∷ (Inst.push_undefined, push undefined)
    ∷ (Inst.push_seperator, push seperator)
    ∷ (Inst.push_this, push_this)
    ∷ (Inst.push_false, push (bool 0))
    ∷ (Inst.push_true, push (bool 1))
    ∷ (Inst.set_value, set_value)
    ∷ (Inst.get_value, get_value)
    ∷ (Inst.double, double)
    ∷ (Inst.pop, pop)
    ∷ (Inst.jmp_if_false, jmp_if_false)
    ∷ (Inst.jmp, jmp)
    ∷ (Inst.jmp_sub, jmp_sub)
    ∷ (Inst.return_try, return_try)
    ∷ (Inst.return_sub, return_sub)
    ∷ (Inst.throw, throw)
    ∷ (Inst.typeof_op, unary_method type_of)
    ∷ (Inst.end, end_run)
    ∷ (Inst.return_op, end_run)
    ∷ (Inst.spread_array, other_context)
    ∷ (Inst.get_member, other_context)
    ∷ (Inst.set_member, other_context)
    ∷ (Inst.construct, other_context)
    ∷ (Inst.call, other_context)
    ∷ (Inst.call_method, other_context)
    ∷ (Inst.set_outer_env, other_context)
    ∷ (Inst.create_object, other_context)
    ∷ (Inst.create_array, other_context)
    ∷ (Inst.push_env, other_context)
    ∷ (Inst.pop_env, other_context)
    ∷ []

-- The entry of the exception table for an address, if there is one.
unfoldable pub find_exception : ℕ → List Exception → Option Exception
find_exception pc [] = none
find_exception pc (e ∷ rest) =
    if leb e.start pc && ltb pc e.end then some e else find_exception pc rest

module _ (R : Runtime) where
  open R use {Memory, binary, unary, to_boolean, of_int}

  pub record Machine : Type 0 where
    pub pc : ℕ
    pub stack : List Value
    pub memory : Memory
    pub subroutine_stack : List SubroutineKind

  pub data Outcome : Type 0 where
    running : Machine → Outcome
    -- `END`, or `RETURN` of the outermost context, and the value of the run.
    finished : Value → Machine → Outcome
    -- No entry of the exception table covers the instruction: the run raises the value.
    uncaught : Value → Machine → Outcome
    elsewhere : Machine → Outcome
    panic : Outcome

  -- `(pc as isize + dst) as usize`: below zero the next instruction is out of bounds.
  unfoldable pub jump_to : ℤ → Machine → Outcome
  jump_to (pos pc) m = running (record m { pc = pc })
  jump_to _ m = panic

  -- A jump by an `i32` at `pc`, counted from behind it, once `prepare` has seen that address.
  unfoldable pub jump_by : Option ℤ → (ℕ → Machine → Machine) → Machine → Outcome
  unfolding jump_to
  jump_by none prepare m = panic
  jump_by (some dst) prepare m = jump_to (pos (m.pc + 4) +ℤ dst) (prepare (m.pc + 4) m)

  -- `stack.pop()` for the result of the run.
  unfoldable pub finish : List Value → Machine → Outcome
  finish [] m = finished undefined m
  finish (v ∷ rest) m = finished v (record m { stack = rest })

  unfoldable pub not_caught : List Value → Machine → Outcome
  not_caught [] m = panic
  not_caught (v ∷ rest) m = uncaught v (record m { stack = rest })

  unfoldable pub handled : Option Exception → Machine → Outcome
  unfolding not_caught
  handled none m = not_caught m.stack m
  handled (some e) m = elim e.dst_kind [
    | catch ↦ running (record m { pc = e.end })
    | finally ↦ running (record m { pc = e.end; subroutine_stack = throw ∷ m.subroutine_stack })
  ]

  -- `handle_exception`, in the outermost context.
  unfoldable pub handle_exception : Program → Machine → Outcome
  unfolding find_exception handled
  handle_exception P m = handled (find_exception m.pc P.exception_table) m

  unfoldable pub pushed : Value → Machine → Outcome
  pushed v m = running (record m { stack = v ∷ m.stack })

  -- `etry!`: a raised error is pushed and handled.
  raised : Program → Value → Machine → Outcome
  unfolding handle_exception
  raised P v m = handle_exception P (record m { stack = v ∷ m.stack })

  -- Both operands are popped, the right one first.
  unfoldable pub run_binary : ValueMethod → Bool → List Value → Machine → Outcome
  run_binary method swapped (rhs ∷ lhs ∷ rest) m =
      let (v, memory) =
        if swapped then binary method rhs lhs m.memory else binary method lhs rhs m.memory in
      running (record m { stack = v ∷ rest; memory = memory })
  run_binary method swapped _ m = panic

  unfoldable pub run_unary : UnaryMethod → List Value → Machine → Outcome
  run_unary method (v ∷ rest) m =
      let (w, memory) = unary method v m.memory in
      running (record m { stack = w ∷ rest; memory = memory })
  run_unary method [] m = panic

  unfoldable pub run_lnot : List Value → Machine → Outcome
  run_lnot (v ∷ rest) m =
      running (record m { stack = bool (if to_boolean v m.memory then 0 else 1) ∷ rest })
  run_lnot [] m = panic

  -- `JMP_IF_FALSE` behind its operand `dst`.
  unfoldable pub run_jmp_if_false : Option ℤ → List Value → Machine → Outcome
  unfolding jump_by
  run_jmp_if_false dst (v ∷ rest) m =
      let m' = record m { stack = rest } in
      if to_boolean v m.memory
      then running (record m' { pc = m.pc + 4 })
      else jump_by dst (λ pc m. m) m'
  run_jmp_if_false dst [] m = panic

  unfoldable pub run_double : List Value → Machine → Outcome
  unfolding pushed
  run_double (v ∷ rest) m = pushed v m
  run_double [] m = panic

  -- `stack.pop()` on an empty stack does nothing.
  unfoldable pub drop_top : List Value → List Value
  drop_top [] = []
  drop_top (v ∷ rest) = rest

  unfoldable pub constant_value : Option Constant.Constant → Option Value
  constant_value none = none
  constant_value (some c) = as_value c

  unfoldable pub constant_string : Option Constant.Constant → Option String
  constant_string none = none
  constant_string (some c) = as_string c

  -- The constant at the index that stands at `pc`.
  unfoldable pub constant_at : Program → ℕ → Option Constant.Constant
  unfolding read_index
  constant_at P pc = elim (read_index P.code pc) [
    | none ↦ none
    | some id ↦ Constant.get P.constant_table id
  ]

  unfoldable pub run_push_const : Option Value → Machine → Outcome
  unfolding pushed
  run_push_const none m = panic
  run_push_const (some v) m = pushed v (record m { pc = m.pc + 4 })

  unfoldable pub got : Program → Answer Value → Machine → Outcome
  unfolding pushed raised
  got P (answer v) m = pushed v m
  got P (raise e) m = raised P e m

  unfoldable pub run_get_value : Program → Option String → Machine → Outcome
  unfolding got
  run_get_value P none m = panic
  run_get_value P (some name) m = got P (R.get_value name m.memory) (record m { pc = m.pc + 4 })

  unfoldable pub stored : Program → Answer Memory → Machine → Outcome
  unfolding raised
  stored P (answer memory) m = running (record m { memory = memory })
  stored P (raise e) m = raised P e m

  unfoldable pub run_set_value : Program → Option String → List Value → Machine → Outcome
  unfolding stored
  run_set_value P (some name) (v ∷ rest) m =
      stored P (R.set_value name v m.memory) (record m { pc = m.pc + 4; stack = rest })
  run_set_value P _ _ m = panic

  run_return_sub : Program → List SubroutineKind → Machine → Outcome
  unfolding handle_exception
  run_return_sub P [] m = panic
  run_return_sub P (ordinary p ∷ rest) m = running (record m { pc = p; subroutine_stack = rest })
  run_return_sub P (throw ∷ rest) m = handle_exception P (record m { subroutine_stack = rest })
  run_return_sub P (return ∷ rest) m = elsewhere (record m { subroutine_stack = rest })

  unfoldable pub run_int : Option ℤ → ℕ → Machine → Outcome
  unfolding pushed
  run_int none size m = panic
  run_int (some i) size m = pushed (number (of_int i)) (record m { pc = m.pc + size })

  unfoldable pub byte_as_int : Option ℕ → Option ℤ
  byte_as_int none = none
  byte_as_int (some b) = some (pos b)

  -- An arm, with `pc` behind the opcode.
  unfoldable pub run_arm : Program → Arm → Machine → Outcome
  unfolding run_binary run_unary run_lnot run_int byte_as_int read_int8 read_i32 run_push_const
      constant_value constant_string constant_at pushed run_set_value run_get_value run_double
      drop_top run_jmp_if_false jump_by run_return_sub handle_exception finish
  run_arm P (binary_method method) m = run_binary method false m.stack m
  run_arm P (swapped_method method) m = run_binary method true m.stack m
  run_arm P (unary_method method) m = run_unary method m.stack m
  run_arm P lnot m = run_lnot m.stack m
  run_arm P push_int8 m = run_int (byte_as_int (read_int8 P.code m.pc)) 1 m
  run_arm P push_int32 m = run_int (read_i32 P.code m.pc) 4 m
  run_arm P push_const m = run_push_const (constant_value (constant_at P m.pc)) m
  run_arm P (push v) m = pushed v m
  run_arm P push_this m = pushed P.this m
  run_arm P Arm.set_value m = run_set_value P (constant_string (constant_at P m.pc)) m.stack m
  run_arm P Arm.get_value m = run_get_value P (constant_string (constant_at P m.pc)) m
  run_arm P double m = run_double m.stack m
  run_arm P pop m = running (record m { stack = drop_top m.stack })
  run_arm P jmp_if_false m = run_jmp_if_false (read_i32 P.code m.pc) m.stack m
  run_arm P jmp m = jump_by (read_i32 P.code m.pc) (λ pc m. m) m
  run_arm P jmp_sub m =
      jump_by (read_i32 P.code m.pc)
        (λ pc m. record m { subroutine_stack = ordinary pc ∷ m.subroutine_stack }) m
  run_arm P return_try m =
      jump_by (read_i32 P.code m.pc)
        (λ pc m. record m { subroutine_stack = return ∷ m.subroutine_stack }) m
  run_arm P return_sub m = run_return_sub P m.subroutine_stack m
  run_arm P Arm.throw m = handle_exception P m
  run_arm P end_run m = finish m.stack m
  run_arm P other_context m = elsewhere m

  unfoldable pub run_inst : Program → Option Arm → Machine → Outcome
  unfolding run_arm
  run_inst P none m = panic
  run_inst P (some arm) m = run_arm P arm (record m { pc = m.pc + 1 })

  unfoldable pub fetched : Program → Option ℕ → Machine → Outcome
  unfolding run_inst at
  fetched P none m = panic
  fetched P (some op) m = run_inst P (at op arms) m

  -- One turn of the loop.
  unfoldable pub step : Program → Machine → Outcome
  unfolding fetched
  step P m = fetched P (get_elem? P.code m.pc) m

  -- The loop goes on unless it has ended.
  unfoldable pub proceed : (Machine → Outcome) → Outcome → Outcome
  proceed loop (running m) = loop m
  proceed loop outcome = outcome

  -- The loop, for as many turns as there is fuel.
  unfoldable pub run : ℕ → Program → Machine → Outcome
  unfolding step proceed
  run zero P m = running m
  run (suc n) P m = proceed (run n P) (step P m)
