-- ===== src/Bytecode/Numbers.antt =====
-- The machine's side of a number literal: what the three `PUSH_` instructions of the loop in
-- src/vm/vm.rs put on the stack.
mod Tests
use rapidus.Prelude.{
  ℕ, ◌+◌, ◌^◌, ◌<◌, ◌≤◌, ◌≡◌, ◌≢◌, refl, ap, Bool, true, false, List, [], ◌∷◌, ◌++◌, Option, none,
  some, ◌⊎◌, inl, inr, if◌then◌else◌, ◌==◌, get_elem?, length, arith, Bool-cases, Option-cases, ◌∙◌,
  append_assoc, length-append,
}
use rapidus.Prelude.Int.{ℤ, pos, negsuc, pos_part, neg_part}
use rapidus.JsValue.F64.{F64, int_value}
use rapidus.JsValue.Value.{Value, number, value_eq}
use rapidus.Constant.{ConstantTable, value, get, as_value, add_value}
use rapidus.Constant.Interned.{get-add_value, add_value-le}
use rapidus.Bytecode.Inst
use rapidus.Bytecode.Words.{
  ByteCode, read_int8, read_i32, read_index, append_int8, append_int32, IsI32, as_i32, byte,
}
use rapidus.Bytecode.Words.RoundTrip.{
  read_i32-append_int32, read_index-append_int32, get_elem?-append_start, get_elem?-append_middle,
}
use rapidus.Bytecode.Gen.{
  append_push_number, push_as, push_integer, fits_int8, fits_int32, with_int32, low_i32,
  append_push_int8, append_push_const,
}

-- The value that is pushed: `Value::Number` of an integer operand, or a value of the constant table.
pub data Pushed : Type 0 where
  integer : ℤ → Pushed
  constant : Value → Pushed

byte_operand : Option ℕ → Option Pushed
byte_operand none = none
byte_operand (some v) = some (integer (pos v))

word_operand : Option ℤ → Option Pushed
word_operand none = none
word_operand (some v) = some (integer v)

-- `constant_table.get(id).as_value()` for the id read.
constant_operand : ConstantTable → Option ℕ → Option Pushed
unfolding get as_value
constant_operand t (some id) = elim (get t id) [
  | none ↦ none
  | some c ↦ elim (as_value c) [ none ↦ none | some v ↦ some (constant v) ]
]
constant_operand t none = none

push_at : ConstantTable → ByteCode → ℕ → Option ℕ → Option Pushed
unfolding byte_operand word_operand constant_operand
push_at t code pc none = none
push_at t code pc (some inst) =
    if inst == Inst.push_int8
    then byte_operand (read_int8 code (pc + 1))
    else if inst == Inst.push_int32
    then word_operand (read_i32 code (pc + 1))
    else if inst == Inst.push_const
    then constant_operand t (read_index code (pc + 1))
    else none

-- One round of the machine's loop at `pc`, on the three instructions that push a number.
unfoldable pub pushed : ConstantTable → ByteCode → ℕ → Option Pushed
unfolding push_at
pushed t code pc = push_at t code pc (get_elem? code pc)

module _ (op : ℕ) (n : ℤ) (iseq rest : ByteCode) where
  opcode_of : get_elem? (with_int32 op n iseq ++ rest) (length iseq) ≡ some op
  unfolding with_int32 append_int32
  opcode_of = rw (append_assoc iseq (op ∷ [])) (get_elem?-append_start iseq _ rest op)

  operand_of : IsI32 n → read_i32 (with_int32 op n iseq ++ rest) (length iseq + 1) ≡ some n
  unfolding with_int32
  operand_of h = rw length-append at (read_i32-append_int32 n (iseq ++ op ∷ []) rest h)

index_of_operand :
    (op id : ℕ) (iseq rest : ByteCode)
    → id < 2 ^ 31
    → read_index (with_int32 op (low_i32 id) iseq ++ rest) (length iseq + 1) ≡ some id
unfolding with_int32
index_of_operand op id iseq rest h =
    let exact : low_i32 id ≡ pos id = unfold low_i32 as_i32 in ground arith in
    rw exact (rw length-append at (read_index-append_int32 id (iseq ++ op ∷ []) rest h))

-- The value pushed stands for the number `n`.
abbrev pub Denotes : F64 → Pushed → Type 0
Denotes n (integer i) = int_value n ≡ some i
Denotes n (constant v) = (value_eq (number n) v ≡ true) ⊎ (number n ≡ v)

-- Numbers that are no negative integers, as the lexer makes them.
abbrev pub IsLiteral : F64 → Type 0
IsLiteral n = (k : ℕ) → int_value n ≢ some (negsuc k)

constant_operand-get :
    (t : ConstantTable) (id : ℕ) (w : Value)
    → get t id ≡ some (value w)
    → constant_operand t (some id) ≡ some (constant w)
unfolding constant_operand
constant_operand-get t id w h = ground (arith, h)

pushed-append_push_const :
    (v : Value) (t : ConstantTable) (iseq rest : ByteCode)
    → length t.table < 2 ^ 31
    → (w : Value) × (pushed
          (append_push_const v t iseq).0
          ((append_push_const v t iseq).1 ++ rest)
          (length iseq)
        ≡ some (constant w))
      × ((value_eq v w ≡ true) ⊎ (v ≡ w))
unfolding pushed append_push_const
pushed-append_push_const v t iseq rest room =
    let (id, t') = add_value v t in
    let (w, at_id, same) = get-add_value v t in
    let op = opcode_of Inst.push_const (low_i32 id) iseq rest in
    let id_read = index_of_operand Inst.push_const id iseq rest (omega (arith, add_value-le v t)) in
    (w, rw (op, id_read) (constant_operand-get t' id w at_id), same)

low_byte : (k : ℕ) → k < 128 → byte (pos k) 0 ≡ k
unfolding byte
low_byte k h = omega arith

pushed-push_int8 :
    (k : ℕ) (t : ConstantTable) (iseq rest : ByteCode)
    → k < 128
    → pushed t (append_push_int8 (pos k) iseq ++ rest) (length iseq) ≡ some (integer (pos k))
unfolding pushed append_push_int8 append_int8
pushed-push_int8 k t iseq rest small =
    let op : get_elem? (append_push_int8 (pos k) iseq ++ rest) (length iseq) ≡ some Inst.push_int8 =
      rw (append_assoc iseq (Inst.push_int8 ∷ []))
        (get_elem?-append_start iseq _ rest Inst.push_int8) in
    let at_byte =
      rw length-append at
        (get_elem?-append_middle (iseq ++ Inst.push_int8 ∷ []) rest (byte (pos k) 0)) in
    let operand : read_int8 (append_push_int8 (pos k) iseq ++ rest) (length iseq + 1) ≡ some k =
      unfold read_int8 in at_byte ∙ ap some (low_byte k small) in
    rw (op, operand)

pushed-push_int32 :
    (i : ℤ) (t : ConstantTable) (iseq rest : ByteCode)
    → IsI32 i
    → pushed t (with_int32 Inst.push_int32 i iseq ++ rest) (length iseq) ≡ some (integer i)
unfolding pushed
pushed-push_int32 i t iseq rest h =
    rw (opcode_of Inst.push_int32 i iseq rest, operand_of Inst.push_int32 i iseq rest h)

pushed-push_integer :
    (n : F64) (i : ℤ) (t : ConstantTable) (iseq rest : ByteCode)
    → int_value n ≡ some i
    → ((k : ℕ) → i ≢ negsuc k)
    → length t.table < 2 ^ 31
    → (p : Pushed) × (pushed
          (push_integer n i t iseq).0
          ((push_integer n i t iseq).1 ++ rest)
          (length iseq)
        ≡ some p)
      × Denotes n p
unfolding push_integer
pushed-push_integer n (negsuc k) t iseq rest e lit room = absurd (lit k refl)
pushed-push_integer n (pos k) t iseq rest e lit room = elim (Bool-cases (fits_int8 (pos k))) [
  | inl small ↦ (
    integer (pos k),
    rw small (pushed-push_int8 k t iseq rest (unfold fits_int8 in ground arith)),
    e,
  )
  | inr large ↦ elim (Bool-cases (fits_int32 (pos k))) [
    | inl word ↦ (
      integer (pos k),
      rw (large, word) (pushed-push_int32 (pos k) t iseq rest (unfold fits_int32 in ground arith)),
      e,
    )
    | inr huge ↦
        let (w, at_start, same) = pushed-append_push_const (number n) t iseq rest room in
        (constant w, rw (large, huge) at_start, same)
  ]
]

-- Running the instruction that a number literal compiles to, at the place where it was emitted and
-- whatever follows it, pushes that number, provided that it is no negative integer and that the
-- constant table has fewer than 2 ^ 31 entries.
pub pushed-append_push_number :
    (n : F64) (t : ConstantTable) (iseq rest : ByteCode)
    → IsLiteral n
    → length t.table < 2 ^ 31
    → (p : Pushed) × (pushed
          (append_push_number n t iseq).0
          ((append_push_number n t iseq).1 ++ rest)
          (length iseq)
        ≡ some p)
      × Denotes n p
unfolding append_push_number push_as
pushed-append_push_number n t iseq rest lit room = elim (Option-cases (int_value n)) [
  | inl none_of ↦
      let (w, at_start, same) = pushed-append_push_const (number n) t iseq rest room in
      (constant w, rw none_of at_start, same)
  | inr (i, e) ↦
      rw e (pushed-push_integer n i t iseq rest e (λ k neg. lit k (e ∙ ap some neg)) room)
]
