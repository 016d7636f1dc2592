-- ===== src/Codegen/State.antt =====
-- The state of `CodeGenerator` of src/vm/codegen.rs and the steps that its methods share. The code
-- that a method is given as `iseq` is a field of the state, and so is the function on top of
-- `function_stack`, which is there from `new` to the end of `compile`.
use rapidus.Prelude.{
  ℕ, zero, suc, ◌+◌, Bool, String, List, [], ◌∷◌, ◌++◌, Option, none, some, if◌then◌else◌, ◌≡◌,
  refl, length,
}
use rapidus.Prelude.Int.{sub_ℕ}
use rapidus.JsValue.Function.{Exception}
use rapidus.Constant.{ConstantTable}
use rapidus.Factory
use rapidus.Factory.{Factory}
use rapidus.Bytecode.Words.{ByteCode, patch}
use rapidus.Bytecode.Gen.{append_pop, append_pop_env, append_push_const}
use rapidus.Codegen.Levels.{Level, ToSourcePos, append, FunctionInfo}

pub data ErrorKind : Type 0 where
  general unimplemented : ErrorKind

pub record Error : Type 0 where
  pub msg : String
  pub token_pos : ℕ
  pub kind : ErrorKind

-- `CodeGenResult`, or a panic.
pub data Result {ℓ} (A : Type ℓ) : Type ℓ where
  ok : A → Result A
  err : Error → Result A
  panic : Result A

infixl 5 ◌>>=◌
abbrev pub ◌>>=◌ {ℓ κ} : {A : Type ℓ} {B : Type κ} → Result A → (A → Result B) → Result B
ok a >>= f = f a
err e >>= f = err e
panic >>= f = panic

abbrev pub unwrap {ℓ} : {A : Type ℓ} → Option A → Result A
unwrap none = panic
unwrap (some a) = ok a

abbrev pub new_general_error {ℓ} : {A : Type ℓ} → String → ℕ → Result A
new_general_error msg token_pos = err (record { msg = msg; token_pos = token_pos; kind = general })

pub record CodeGenerator : Type 0 where
  pub iseq : ByteCode
  pub constant_table : ConstantTable
  pub factory : Factory
  pub current_function : FunctionInfo
  pub outer_functions : List FunctionInfo
  pub to_source_map : List (ℕ × ToSourcePos)
  pub node_pos : ℕ
  pub module_func_id : ℕ

-- The method of a node: whether its value is used, and the generator.
abbrev pub Visitor : Type 0
Visitor = Bool → CodeGenerator → Result CodeGenerator

unfoldable pub emit : (ByteCode → ByteCode) → CodeGenerator → CodeGenerator
emit f g = record g { iseq = f g.iseq }

-- A method of the bytecode generator that also adds to the constant table.
unfoldable pub emit_const :
    (ConstantTable → ByteCode → ConstantTable × ByteCode) → CodeGenerator → CodeGenerator
emit_const f g =
    let (table, iseq) = f g.constant_table g.iseq in
    record g { constant_table = table; iseq = iseq }

unfoldable pub pop_unless : Bool → CodeGenerator → CodeGenerator
unfolding emit append_pop
pop_unless use_value g = if use_value then g else emit append_pop g

unfoldable pub with_level : List Level → CodeGenerator → CodeGenerator
with_level ls g = record g { current_function = record g.current_function { level = ls } }

unfoldable pub push_level : Level → CodeGenerator → CodeGenerator
unfolding with_level
push_level l g = with_level (l ∷ g.current_function.level) g

unfoldable pub pop_from : List Level → CodeGenerator → Result (Level × CodeGenerator)
unfolding with_level
pop_from [] g = panic
pop_from (l ∷ rest) g = ok (l, with_level rest g)

-- `self.current_function().level.pop().unwrap()`.
unfoldable pub pop_level : CodeGenerator → Result (Level × CodeGenerator)
unfolding pop_from
pop_level g = pop_from g.current_function.level g

unfoldable pub save_source_pos : CodeGenerator → CodeGenerator
unfolding append
save_source_pos g = record g {
  current_function = record g.current_function {
    to_source_pos = append (length g.iseq) g.node_pos g.current_function.to_source_pos;
  };
}

-- `replace_int32((dst - p) as i32 - 5, &mut iseq[p + 1..p + 5])`. Only the low 32 bits of the
-- distance are written, so the casts change nothing.
unfoldable pub patch_jump : ℕ → ℕ → CodeGenerator → Result CodeGenerator
unfolding patch
patch_jump dst p g = elim (patch g.iseq p (sub_ℕ dst (p + 5))) [
  | none ↦ panic
  | some code ↦ ok (record g { iseq = code })
]

-- The loop that patches each of the jumps recorded in a level.
unfoldable pub patch_jumps : ℕ → List ℕ → CodeGenerator → Result CodeGenerator
unfolding patch_jump
patch_jumps dst [] g = ok g
patch_jumps dst (p ∷ rest) g = patch_jump dst p g >>= patch_jumps dst rest

-- `append_pop_env`, as often as blocks are left.
unfoldable pub pop_envs : ℕ → CodeGenerator → CodeGenerator
unfolding emit append_pop_env
pop_envs zero g = g
pop_envs (suc n) g = pop_envs n (emit append_pop_env g)

-- `append_push_const(self.factory.string(s), iseq)`.
unfoldable pub push_string : String → CodeGenerator → Result CodeGenerator
unfolding Factory.string emit_const append_push_const
push_string s g = elim (Factory.string s g.factory) [
  | none ↦ panic
  | some (v, f) ↦ ok (emit_const (append_push_const v) (record g { factory = f }))
]

unfoldable pub add_exception : Exception → CodeGenerator → CodeGenerator
add_exception e g = record g {
  current_function = record g.current_function {
    exception_table = g.current_function.exception_table ++ e ∷ [];
  };
}

pub >>=-ok {ℓ} : {A : Type ℓ} (r : Result A) → (r >>= ok) ≡ r
>>=-ok (ok a) = refl
>>=-ok (err e) = refl
>>=-ok panic = refl
