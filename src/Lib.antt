-- ===== src/Lib.antt =====
-- rapidus, a JavaScript engine: the parts of it that this library models.
--
-- A script goes through four stages. The lexer (src/lexer.rs) turns text into a buffer of tokens
-- (src/token.rs), the parser (src/parser.rs) reads the buffer into a syntax tree (src/node.rs), the
-- code generator (src/vm/codegen.rs) emits bytecode with the help of src/bytecode_gen.rs and of the
-- constant table (src/vm/constant.rs), and the virtual machine (src/vm/vm.rs) runs it over values and
-- objects (src/vm/jsvalue), environments (src/vm/exec_context.rs) and a garbage-collected memory
-- (src/gc.rs).
--
-- The files:
--   Prelude        shared names, lists and maps over the native numbers, integers.
--   Id             src/id.rs: `IdGen`, whose vector is the list `id` with the last counter first.
--   JsValue        src/vm/jsvalue: `Value` (value.rs), the shapes of objects and properties
--                  (object.rs, function.rs, symbol.rs, error.rs), lookup and assignment of
--                  properties under text keys (Lookup, also from value.rs) and the elements of
--                  arrays (Array, array.rs), strict equality, truth and `typeof` (Equality,
--                  value.rs) and the registry of symbols (Registry, symbol.rs). `F64` is the
--                  comparison `==` and the test for an integer on the bit patterns of `f64`.
--   Constant       src/vm/constant.rs: `ConstantTable` and its methods, under the same names.
--   Token          src/token.rs: tokens, keywords, symbols, under the same names.
--   Lexer          src/lexer.rs: the buffer of tokens that the parser reads (Lexer), characters,
--                  white space and comments (Lexer/Chars), symbols (Lexer/Symbols),
--                  identifiers and digits (Lexer/Words).
--   Node           src/node.rs: the types of the syntax tree.
--   Factory        src/vm/factory.rs: allocation of strings, objects and functions, and the table of
--                  functions (Factory/Registered).
--   Codegen        src/vm/codegen.rs: the levels of a function (Codegen/Levels), the generator's state
--                  (Codegen/State), the visits to statements (Codegen/Control), `try`, `throw` and
--                  `return` (Codegen/Exceptions), expressions (Codegen/Operators), functions and
--                  declarations (Codegen/Functions) and the recursion on the tree (Codegen/Visit). A
--                  visitor is a function of the state; Codegen/Safety is about what it keeps.
--   Vm             src/vm/vm.rs: `run` within one execution context as a step on the state `Machine`
--                  (pc, stack, memory, subroutine stack), arm by arm; the reference evaluation of
--                  expressions (Vm/Expression), the code compiled for them (Vm/Compiled and the
--                  modules beside it), and a whole script (Vm/Script).
--   Bytecode       src/bytecode_gen.rs: the opcodes (Bytecode/Inst), operands (Bytecode/Words), the
--                  `append_` methods (Bytecode/Gen), the printer (Bytecode/Sweep), and the number
--                  instructions of src/vm/vm.rs (Bytecode/Numbers).
--   Env            src/vm/exec_context.rs: environments and execution contexts, and variables
--                  (Env/Scopes): `get_value`, `set_value` and the like.
--   Gc             src/gc.rs: `MemoryAllocator` and its methods (Gc/Allocator, Gc/Roots), what each
--                  type traces (Gc/Pointers), the sizes it counts (Gc/Accounting), and a
--                  whole collection (Gc/Cycle).
--
-- A method that changes its object takes the state and returns the new one. A panic is `none`, an
-- `Err` a constructor of the result. Addresses, ids and lengths are natural numbers; the machine's
-- memory is large enough for them not to overflow as `usize`. An `i32` is an integer, and its bytes
-- are computed as the source shifts and masks them. A hash map is an association list and a hash set
-- a list, in any order in which the program may walk it.
--
-- Bounds and fuel: `Lexer.read_loop` gets one round more than tokens are left, and a round takes one.
-- `Bytecode.Sweep.show_inst_seq` runs on fuel, of which an instruction takes one. Lookups along
-- prototypes and environments run on fuel, of which an object or an environment takes one; along a
-- cycle the source recurses without an end, and the model runs out of any fuel. A collection is
-- stepped a number of times that its theorem bounds by the number of objects. The visits of the code
-- generator recurse on the tree. The machine's loop `Vm.run` takes one unit of fuel for a turn, and a
-- run that ends is one for every fuel that is large enough. Where compiled code runs, it has fewer than
-- 2 ^ 31 bytes and constants, since jumps and ids are `i32` operands.
--
-- Parameters: the sizes of the three types that the memory holds, which the compiler chooses, and the
-- address of a new object, which the system allocator chooses; and which characters are alphanumeric,
-- a table of Unicode. The symbol that the factory makes for the registry is an argument. `Factory.Host`
-- has the addresses that the allocator gives, the conversion of a length to `f64` and the test for a NUL
-- in a text. `Vm.Runtime` is the machine's interface to the methods of values and to variables.
--
-- Not modelled: the literals of numbers and strings in the lexer and its loop, the parser, the machine's
-- calls, its instructions on objects and block environments, the unwinding of execution contexts and
-- the builtin functions; the just-in-time compiler, which is not built; the program's command line and
-- terminal output. `Codegen.Safety` leaves out the statement `try`, whose visits are modelled: that what
-- it patches is an operand needs the positions of instructions, which are not tracked.
pub mod Prelude
pub mod Id
pub mod JsValue
pub mod Constant
pub mod Token
pub mod Lexer
pub mod Bytecode
pub mod Env
pub mod Gc
pub mod Codegen
pub mod Factory
pub mod Node
pub mod Vm
