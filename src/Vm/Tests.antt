-- ===== src/Vm/Tests.antt =====
-- The compiled `x = (x && (x ? 300 + this : null))` on a machine with one variable.
use rapidus.Prelude.{
  ℕ, ◌≢◌, zero, suc, ◌+◌, ◌≡◌, ◌<◌, ◌^◌, refl, Bool, true, false, [], ◌∷◌, some, arith, length,
  get_elem?, at,
}
use rapidus.JsValue.Value.{Value, bool, null, object}
use rapidus.JsValue.F64.{F64, int_value}
use rapidus.Node.{Node, node, NodeBase}
use rapidus.Token.Symbol.{BinOp}
use rapidus.Constant
use rapidus.Factory
use rapidus.Factory.{Host}
use rapidus.Codegen.State.{CodeGenerator, ok}
use rapidus.Codegen.Visit.{visit, new_generator}
use rapidus.Vm.{Runtime, Program, answer, running, step}
use rapidus.Vm.Expression.{eval}
use rapidus.Vm.Runs.{Reaches}
use rapidus.Vm.Compiled.{at_pc, Holds}
use rapidus.Vm.Correct.{IsExpression, compiled, compiled-Reaches}

abbrev host : Host
host = record { address = λ n. n + 1; as_f64 = λ n. n; has_nul = λ s. false }

abbrev prototypes : Factory.ObjectPrototypes
prototypes = record {
  object = null;
  function = null;
  string = null;
  array = null;
  symbol = null;
  error = null;
}

abbrev truth : Value → Value → Bool
truth (bool zero) memory = false
truth (object n) memory = true
truth _ memory = false

-- The memory is the value of the one variable; an operator gives its right operand.
abbrev runtime : Runtime
runtime = record {
  Memory = Value;
  binary = λ method a b m. (b, m);
  unary = λ method a m. (a, m);
  to_boolean = truth;
  of_int = λ i. 0;
  get_value = λ name m. answer m;
  set_value = λ name v m. answer v;
}

abbrev e : NodeBase → Node
e base = node base 0

abbrev x : Node
x = e (NodeBase.identifier "x")

abbrev three_hundred : F64
three_hundred = 4643985272004935680

abbrev sum : Node
sum = e (NodeBase.binary_op (e (NodeBase.number three_hundred)) (e NodeBase.this) BinOp.add)

abbrev expression : Node
expression = e (
    NodeBase.assign x
      (e (NodeBase.binary_op x (e (NodeBase.ternary_op x sum (e NodeBase.null))) BinOp.l_and)))

-- The factory once the script has its id, 1.
factory : Factory.Factory
unfolding Factory.new Factory.new_func_id
factory = (Factory.new_func_id (Factory.new host [] prototypes)).1

abbrev start : CodeGenerator
start = new_generator Constant.new factory 1

abbrev program : Program
program = record {
  code = (compiled expression start).iseq;
  exception_table = [];
  constant_table = (compiled expression start).constant_table;
  this = object 7;
}

kept :
    (op : BinOp)
    → op ≢ BinOp.comma
    → op ≢ BinOp.l_or
    → op ≢ BinOp.assign
    → (op ≢ BinOp.comma) × (op ≢ BinOp.l_or) × (op ≢ BinOp.assign)
kept op a b c = (a, b, c)

expression-IsExpression : IsExpression expression
unfolding IsExpression int_value
expression-IsExpression = (
  kept BinOp.l_and (λ h. absurd (cc h)) (λ h. absurd (cc h)) (λ h. absurd (cc h)),
  tt,
  (
    tt,
    (
      kept BinOp.add (λ h. absurd (cc h)) (λ h. absurd (cc h)) (λ h. absurd (cc h)),
      (300, refl, omega arith),
      tt,
    ),
    tt,
  ),
)

one_entry :
    (id : ℕ) {c : Constant.Constant}
    → get_elem? (Constant.string "x" ∷ []) id ≡ some c
    → id < 2 ^ 31
one_entry zero h = omega arith
one_entry (suc id) h = absurd (cc h)

program_length : length (compiled expression start).iseq ≡ 41
unfolding compiled Constant.add_string Constant.position new_generator int_value
program_length = refl

program-Holds : Holds runtime program start (compiled expression start)
unfolding compiled Constant.get Constant.add_string Constant.position new_generator int_value
program-Holds = record {
  code = λ i lo hi. refl;
  constants = λ id h. h;
  bounded = omega (arith, program_length);
  few = one_entry;
}

compiled-Reaches_example :
    (visit expression true start ≡ ok (compiled expression start))
    × Reaches runtime program
        (at_pc runtime 0 (null ∷ []) (object 3) [])
        (at_pc runtime 41 (object 7 ∷ null ∷ []) (object 7) [])
unfolding compiled eval int_value Constant.add_string Constant.position new_generator
compiled-Reaches_example =
    compiled-Reaches runtime expression start program (null ∷ []) (object 3) [] (object 7)
      (object 7) expression-IsExpression program-Holds refl

-- One turn of the loop.
first_step :
    step runtime program (at_pc runtime 0 [] (object 3) [])
    ≡ running (at_pc runtime 5 (object 3 ∷ []) (object 3) [])
unfolding step compiled Constant.add_string Constant.position new_generator at Constant.as_string
    int_value
first_step = refl
