-- ===== src/Codegen/Safety.antt =====
-- What a visit of src/vm/codegen.rs may rely on and what it keeps: the levels of the current function
-- are in step with the tree around the node, every jump that they record lies within the code, and the
-- table of functions has room.
pub mod Steps
pub mod Control
pub mod Blocks
pub mod Operators
pub mod Expressions
pub mod Functions
pub mod Declarations
pub mod Names
pub mod Leaves
pub mod Supported
pub mod Visit
pub mod Compile
use rapidus.Prelude.{
  ℕ, ◌+◌, ◌≤◌, ◌<◌, ◌≡◌, refl, Bool, true, false, List, [], ◌∷◌, ◌++◌, Option, none, some, String,
  arith, length, get_elem?, ◌∙◌,
}
use rapidus.Bytecode.Words.{ByteCode}
use rapidus.Constant
use rapidus.Constant.{ConstantTable, lexical_environment_info}
use rapidus.Factory.{Host, Factory, get_func_ref}
use rapidus.Codegen.Levels.{Level, block, loop}
use rapidus.Codegen.State.{Result, ok, err, panic, Error, ◌>>=◌, CodeGenerator, Visitor}

-- What a node stands in: a function, a block, or a loop whose code starts at an address.
pub data Frame : Type 0 where
  function_frame block_frame : Frame
  loop_frame : ℕ → Frame

unfoldable pub has_loop : List Frame → Bool
has_loop [] = false
has_loop (loop_frame start ∷ rest) = true
has_loop (_ ∷ rest) = has_loop rest

-- Jumps of five bytes each, within a range of the code.
abbrev pub AreWithin : ℕ → ℕ → List ℕ → Type 0
AreWithin lo hi [] = Unit
AreWithin lo hi (p ∷ rest) = (lo ≤ p) × (p + 5 ≤ hi) × AreWithin lo hi rest

abbrev pub LevelFits : Frame → ℕ → Level → Type 0
LevelFits function_frame hi Level.function = Unit
LevelFits block_frame hi (block names) = Unit
LevelFits (loop_frame start) hi (loop breaks continues) =
    (start ≤ hi) × AreWithin start hi breaks × AreWithin start hi continues
LevelFits _ hi _ = ⊥

abbrev pub LevelsFit : List Frame → ℕ → List Level → Type 0
LevelsFit [] hi [] = Unit
LevelsFit (fr ∷ frames) hi (l ∷ levels) = LevelFits fr hi l × LevelsFit frames hi levels
LevelsFit _ hi _ = ⊥

-- No id to come has a function yet, nor has the script's own.
pub record HasRoom (f : Factory) (module_func_id : ℕ) : Type 0 where
  pub fresh : (k : ℕ) → f.next_func_id ≤ k → get_func_ref k f ≡ none
  pub module_free : get_func_ref module_func_id f ≡ none
  pub module_old : module_func_id < f.next_func_id

pub record IsReady (host : Host) (frames : List Frame) (g : CodeGenerator) : Type 0 where
  pub levels : LevelsFit frames (length g.iseq) g.current_function.level
  pub host_kept : g.factory.host ≡ host
  pub room : HasRoom g.factory g.module_func_id

-- The second code starts with the first.
pub record Extends (old code : ByteCode) : Type 0 where
  pub longer : length old ≤ length code
  pub same : (i : ℕ) → i < length old → get_elem? code i ≡ get_elem? old i

-- An id stands for the names of an environment.
abbrev pub HasEnv : ConstantTable → ℕ → Type 0
HasEnv t id = (names : List String) × (Constant.get t id ≡ some (lexical_environment_info names))

-- Such ids go on to do so.
abbrev pub KeepsEnvs : ConstantTable → ConstantTable → Type 0
KeepsEnvs t t' = (id : ℕ) → HasEnv t id → HasEnv t' id

-- The code is only added to, and the functions around the current one are left alone.
pub record Keeps (g g' : CodeGenerator) : Type 0 where
  pub code : Extends g.iseq g'.iseq
  pub envs : KeepsEnvs g.constant_table g'.constant_table
  pub outer : g'.outer_functions ≡ g.outer_functions
  pub module_id : g'.module_func_id ≡ g.module_func_id

-- A visit ends with a generator that is ready for what follows, or with an error; it does not panic.
pub data Ends (host : Host) (frames : List Frame) (g : CodeGenerator)
    : Result CodeGenerator → Type 0 where
  returns : {g' : CodeGenerator} → IsReady host frames g' → Keeps g g' → Ends host frames g (ok g')
  raises : {e : Error} → Ends host frames g (err e)

-- A visitor that ends so wherever it is called, if need be within a loop.
abbrev pub IsSafe : Host → Bool → Visitor → Type 0
IsSafe host in_loop v =
    (frames : List Frame)
    → (in_loop ≡ true → has_loop frames ≡ true)
    → (use_value : Bool) (g : CodeGenerator) → IsReady host frames g
    → Ends host frames g (v use_value g)

pub Extends-refl : (c : ByteCode) → Extends c c
Extends-refl c = record { longer = omega arith; same = λ i h. refl }

pub Extends-trans : {a b c : ByteCode} → Extends a b → Extends b c → Extends a c
Extends-trans p q = record {
  longer = omega arith;
  same = λ i h. q.same i (omega (arith, p.longer)) ∙ p.same i h;
}

pub Keeps-trans : {a b c : CodeGenerator} → Keeps a b → Keeps b c → Keeps a c
Keeps-trans p q = record {
  code = Extends-trans p.code q.code;
  envs = λ id h. q.envs id (p.envs id h);
  outer = q.outer ∙ p.outer;
  module_id = q.module_id ∙ p.module_id;
}

pub Keeps-refl : (g : CodeGenerator) → Keeps g g
Keeps-refl g = record {
  code = Extends-refl g.iseq;
  envs = λ id h. h;
  outer = refl;
  module_id = refl;
}

pub bind-Ends :
    {host : Host} {inner frames : List Frame} {g base : CodeGenerator} {r : Result CodeGenerator}
    {f : CodeGenerator → Result CodeGenerator}
    → Ends host inner g r
    → ((g' : CodeGenerator) → IsReady host inner g' → Keeps g g' → Ends host frames base (f g'))
    → Ends host frames base (r >>= f)
bind-Ends (returns r k) next = next _ r k
bind-Ends raises next = raises

-- What is relative to a later generator is relative to an earlier one.
pub Ends-from :
    {host : Host} {frames : List Frame} {base g : CodeGenerator} {r : Result CodeGenerator}
    → Keeps base g
    → Ends host frames g r
    → Ends host frames base r
Ends-from k (returns r k') = returns r (Keeps-trans k k')
Ends-from k raises = raises

pub not-Ends-panic :
    {host : Host} {frames : List Frame} {g : CodeGenerator} → Ends host frames g panic → ⊥
not-Ends-panic ends = elim ends [ ]
