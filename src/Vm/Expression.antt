-- ===== src/Vm/Expression.antt =====
-- The value of an expression, independently of bytecode: the reference that compiled code of
-- src/vm/codegen.rs is held against. It is defined for constants, integers, variables and their assignment,
-- operators, `&&` and `?:`, where no step raises an error.
use rapidus.Prelude.{Bool, true, false, String, Option, none, some, if◌then◌else◌}
use rapidus.Prelude.Int.{ℤ}
use rapidus.JsValue.F64.{int_value}
use rapidus.JsValue.Value.{Value, number, bool, null}
use rapidus.Token.Symbol.{BinOp}
use rapidus.Node.{UnaryOp, Node, node, NodeBase}
use rapidus.Vm.{ValueMethod, bitwise_not, minus, positive, type_of, Answer, answer, raise, Runtime}

infixl 5 ◌>>=◌
abbrev pub ◌>>=◌ {ℓ κ} : {A : Type ℓ} {B : Type κ} → Option A → (A → Option B) → Option B
none >>= f = none
some a >>= f = f a

-- The method of an operator, and whether it is that of the right operand.
unfoldable pub method_of : BinOp → Option (ValueMethod × Bool)
method_of BinOp.add = some (ValueMethod.add, false)
method_of BinOp.sub = some (ValueMethod.sub, false)
method_of BinOp.mul = some (ValueMethod.mul, false)
method_of BinOp.div = some (ValueMethod.div, false)
method_of BinOp.rem = some (ValueMethod.rem, false)
method_of BinOp.exp = some (ValueMethod.exp, false)
method_of BinOp.eq = some (ValueMethod.eq, false)
method_of BinOp.ne = some (ValueMethod.ne, false)
method_of BinOp.strict_eq = some (ValueMethod.strict_eq, false)
method_of BinOp.strict_ne = some (ValueMethod.strict_ne, false)
method_of BinOp.lt = some (ValueMethod.lt, false)
method_of BinOp.le = some (ValueMethod.le, false)
method_of BinOp.gt = some (ValueMethod.lt, true)
method_of BinOp.ge = some (ValueMethod.le, true)
method_of BinOp.and = some (ValueMethod.and, true)
method_of BinOp.or = some (ValueMethod.or, true)
method_of BinOp.xor = some (ValueMethod.xor, true)
method_of BinOp.shl = some (ValueMethod.shift_l, false)
method_of BinOp.shr = some (ValueMethod.shift_r, false)
method_of BinOp.zf_shr = some (ValueMethod.z_shift_r, false)
method_of _ = none

module _ (R : Runtime) (this : Value) where
  open R use {Memory, binary, unary, to_boolean}

  -- An expression takes the memory to its value and the memory after it.
  abbrev pub Evaluation : Type 0
  Evaluation = Memory → Option (Value × Memory)

  abbrev pub apply : ValueMethod → Bool → Value → Value → Memory → Value × Memory
  apply method swapped a b m = if swapped then binary method b a m else binary method a b m

  unfoldable pub value_of : Answer Value → Evaluation
  value_of (answer v) m = some (v, m)
  value_of (raise e) m = none

  unfoldable pub stored_in : Answer Memory → Value → Option (Value × Memory)
  stored_in (answer m) v = some (v, m)
  stored_in (raise e) v = none

  -- The literal of an integer; the others are left out.
  unfoldable pub eval_number : Option ℤ → Evaluation
  eval_number none m = none
  eval_number (some i) m = some (number (R.of_int i), m)

  unfoldable pub eval_unary : UnaryOp → Value → Memory → Option (Value × Memory)
  eval_unary UnaryOp.typeof v m = some (unary type_of v m)
  eval_unary UnaryOp.plus v m = some (unary positive v m)
  eval_unary UnaryOp.minus v m = some (unary minus v m)
  eval_unary UnaryOp.bitwise_not v m = some (unary bitwise_not v m)
  eval_unary UnaryOp.not v m = some (bool (if to_boolean v m then 0 else 1), m)
  eval_unary _ v m = none

  unfoldable pub eval_operator : Option (ValueMethod × Bool) → Evaluation → Evaluation → Evaluation
  eval_operator none l r m = none
  eval_operator (some (method, swapped)) l r m = do
    (a, m₁) ← l m
    (b, m₂) ← r m₁
    some (apply method swapped a b m₂)

  unfoldable pub eval_and : Evaluation → Evaluation → Evaluation
  eval_and l r m = do (a, m₁) ← l m; if to_boolean a m₁ then r m₁ else some (a, m₁)

  unfoldable pub eval_binary : BinOp → Evaluation → Evaluation → Evaluation
  unfolding eval_operator eval_and method_of
  eval_binary BinOp.l_and l r m = eval_and l r m
  eval_binary op l r m = eval_operator (method_of op) l r m

  unfoldable pub eval_ternary : Evaluation → Evaluation → Evaluation → Evaluation
  eval_ternary c t e m = do (v, m₁) ← c m; if to_boolean v m₁ then t m₁ else e m₁

  unfoldable pub eval_assign : String → Evaluation → Evaluation
  unfolding stored_in
  eval_assign name src m = do (v, m₁) ← src m; stored_in (R.set_value name v m₁) v

  unfoldable mutual
    unfolding value_of eval_number int_value eval_unary eval_binary eval_ternary eval_assign

    pub eval : Node → Evaluation
    eval (node base p) m = eval_base base m

    pub eval_base : NodeBase → Evaluation
    eval_base NodeBase.null m = some (null, m)
    eval_base NodeBase.this m = some (this, m)
    eval_base (NodeBase.boolean b) m = some (bool (if b then 1 else 0), m)
    eval_base (NodeBase.number n) m = eval_number (int_value n) m
    eval_base (NodeBase.identifier name) m = value_of (R.get_value name m) m
    eval_base (NodeBase.unary_op expr op) m = do (v, m₁) ← eval expr m; eval_unary op v m₁
    eval_base (NodeBase.binary_op lhs rhs op) m = eval_binary op (eval lhs) (eval rhs) m
    eval_base (NodeBase.ternary_op c t e) m = eval_ternary (eval c) (eval t) (eval e) m
    eval_base (NodeBase.assign (node (NodeBase.identifier name) p) src) m =
        eval_assign name (eval src) m
    eval_base _ m = none
