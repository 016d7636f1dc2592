-- ===== src/Vm/Compiled.antt =====
-- Compiled expressions of src/vm/codegen.rs on the machine of src/vm/vm.rs.
use rapidus.Prelude.{
  ℕ, zero, suc, ◌+◌, ◌^◌, ◌≤◌, ◌<◌, ◌≡◌, refl, ap, sym, subst, ◌∙◌, ◌⊎◌, inl, List, [], ◌∷◌, ◌++◌,
  Option, some, arith, length, get_elem?, length-append,
}
use rapidus.Prelude.Int.{sub_ℕ}
use rapidus.JsValue.Value.{Value}
use rapidus.Constant
use rapidus.Constant.{ConstantTable}
use rapidus.Bytecode.Words.{ByteCode, IsI32, read_i32}
use rapidus.Bytecode.Words.RoundTrip.{patch_runs}
use rapidus.Codegen.State.{Result, ok, ◌>>=◌, CodeGenerator, patch_jump}
use rapidus.Vm.{Runtime, Program, Machine, SubroutineKind}
use rapidus.Vm.Runs.{Agrees, Reaches}

-- The second code starts with the first, and the constants of the first table keep their ids.
pub record Grows (g g' : CodeGenerator) : Type 0 where
  pub longer : length g.iseq ≤ length g'.iseq
  pub same : (i : ℕ) → i < length g.iseq → get_elem? g'.iseq i ≡ get_elem? g.iseq i
  pub constants :
      (id : ℕ) {c : Constant.Constant}
      → Constant.get g.constant_table id ≡ some c
      → Constant.get g'.constant_table id ≡ some c

pub Grows-refl : (g : CodeGenerator) → Grows g g
Grows-refl g = record { longer = omega arith; same = λ i h. refl; constants = λ id e. e }

pub Grows-trans : {a b c : CodeGenerator} → Grows a b → Grows b c → Grows a c
Grows-trans p q = record {
  longer = omega (arith, p.longer, q.longer);
  same = λ i h. q.same i (omega (arith, p.longer)) ∙ p.same i h;
  constants = λ id e. q.constants id (p.constants id e);
}

-- The operand of the jump at `p` is the distance to `dst`, and nothing else has changed.
pub record IsPatched (dst p : ℕ) (g g' : CodeGenerator) : Type 0 where
  pub len : length g'.iseq ≡ length g.iseq
  pub same : (i : ℕ) → (i < p + 1) ⊎ (p + 5 ≤ i) → get_elem? g'.iseq i ≡ get_elem? g.iseq i
  pub operand : IsI32 (sub_ℕ dst (p + 5)) → read_i32 g'.iseq (p + 1) ≡ some (sub_ℕ dst (p + 5))
  pub table : g'.constant_table ≡ g.constant_table

pub patch_jump-IsPatched :
    (dst p : ℕ) (g : CodeGenerator)
    → p + 5 ≤ length g.iseq
    → (g' : CodeGenerator) × (patch_jump dst p g ≡ ok g') × IsPatched dst p g g'
unfolding patch_jump
patch_jump-IsPatched dst p g h =
    let (code, e, len, same, operand) = patch_runs g.iseq p (sub_ℕ dst (p + 5)) h in
    (
      record g { iseq = code },
      rw (e, patch_jump) refl,
      record { len = len; same = same; operand = operand; table = refl },
    )

-- The code up to the opcode of a patched jump is what it was.
pub Grows-patched :
    {dst p : ℕ} {base g g' : CodeGenerator}
    → length base.iseq ≤ p
    → Grows base g
    → IsPatched dst p g g'
    → Grows base g'
Grows-patched {base} {g} lo k q = record {
  longer = omega (arith, k.longer, q.len);
  same = λ i h. q.same i (inl (omega arith)) ∙ k.same i h;
  constants = λ id {c} e. subst (λ t. Constant.get t id ≡ some c) (sym q.table) (k.constants id e);
}

-- An instruction is added, with its operand.
pub record Emits (op : ℕ) (operand : ByteCode) (g g' : CodeGenerator) : Type 0 where
  pub code : g'.iseq ≡ g.iseq ++ op ∷ operand
  pub table : g'.constant_table ≡ g.constant_table

get_elem?-append : (c w : ByteCode) (i : ℕ) → i < length c → get_elem? (c ++ w) i ≡ get_elem? c i
get_elem?-append [] w i h = absurd (omega arith)
get_elem?-append (x ∷ c) w zero h = refl
get_elem?-append (x ∷ c) w (suc i) h = get_elem?-append c w i (omega arith)

get_elem?-op : (c w : ByteCode) (op : ℕ) → get_elem? (c ++ op ∷ w) (length c) ≡ some op
get_elem?-op [] w op = refl
get_elem?-op (x ∷ c) w op = get_elem?-op c w op

module _ {op : ℕ} {w : ByteCode} {g g' : CodeGenerator} (e : Emits op w g g') where
  pub length-Emits : length g'.iseq ≡ length g.iseq + 1 + length w
  length-Emits =
      omega (arith, ap (λ (c : ByteCode). length c) e.code, length-append {0} g.iseq (op ∷ w))

  pub opcode-Emits : get_elem? g'.iseq (length g.iseq) ≡ some op
  opcode-Emits =
      ap (λ (c : ByteCode). get_elem? c (length g.iseq)) e.code ∙ get_elem?-op g.iseq w op

  pub Grows-Emits : Grows g g'
  Grows-Emits = record {
    longer = omega (arith, length-Emits);
    same =
        λ i h. ap (λ (c : ByteCode). get_elem? c i) e.code ∙ get_elem?-append g.iseq (op ∷ w) i h;
    constants = λ id {c} h. subst (λ t. Constant.get t id ≡ some c) (sym e.table) h;
  }

module _ (R : Runtime) where
  abbrev pub at_pc : ℕ → List Value → R.Memory → List SubroutineKind → Machine R
  at_pc pc stack memory subroutine_stack = record {
    pc = pc;
    stack = stack;
    memory = memory;
    subroutine_stack = subroutine_stack;
  }

  -- A program has the code between two generators, and their constants.
  pub record Holds (P : Program) (g g' : CodeGenerator) : Type 0 where
    pub code : Agrees (length g.iseq) (length g'.iseq) g'.iseq P.code
    pub constants :
        (id : ℕ) {c : Constant.Constant}
        → Constant.get g'.constant_table id ≡ some c
        → Constant.get P.constant_table id ≡ some c
    pub bounded : length g'.iseq < 2 ^ 31
    -- An id fits in an `i32`.
    pub few :
        (id : ℕ) {c : Constant.Constant} → Constant.get P.constant_table id ≡ some c → id < 2 ^ 31

  -- In such a program the code pushes the value of the evaluation.
  abbrev pub Simulates :
      (Value → R.Memory → Option (Value × R.Memory)) → CodeGenerator → CodeGenerator → Type 0
  Simulates ev g g' =
      (P : Program)
      → Holds P g g'
      → (s : List Value) (m : R.Memory) (subs : List SubroutineKind) (v : Value) (m' : R.Memory)
      → ev P.this m ≡ some (v, m')
      → Reaches R P (at_pc (length g.iseq) s m subs) (at_pc (length g'.iseq) (v ∷ s) m' subs)

  -- A visit succeeds, and adds such code.
  pub data Does (ev : Value → R.Memory → Option (Value × R.Memory)) (g : CodeGenerator)
      : Result CodeGenerator → Type 0 where
    adds : {g' : CodeGenerator} → Grows g g' → Simulates ev g g' → Does ev g (ok g')

  pub Does-bind :
      {ev ev' : Value → R.Memory → Option (Value × R.Memory)} {g base : CodeGenerator}
      {r : Result CodeGenerator} {f : CodeGenerator → Result CodeGenerator}
      → Does ev' g r
      → ((g' : CodeGenerator) → Grows g g' → Simulates ev' g g' → Does ev base (f g'))
      → Does ev base (r >>= f)
  Does-bind (adds grows sim) k = k _ grows sim

  module _ {ev : Value → R.Memory → Option (Value × R.Memory)} {base : CodeGenerator} where
    pub patch-bind :
        {f : CodeGenerator → Result CodeGenerator} (dst p : ℕ) (g : CodeGenerator)
        → p + 5 ≤ length g.iseq
        → ((g' : CodeGenerator) → IsPatched dst p g g' → Does ev base (f g'))
        → Does ev base (patch_jump dst p g >>= f)
    patch-bind dst p g h k = let (g', e, q) = patch_jump-IsPatched dst p g h in rw e (k g' q)

    pub patch_jump-Does :
        (dst p : ℕ) (g : CodeGenerator)
        → p + 5 ≤ length g.iseq
        → ((g' : CodeGenerator) → IsPatched dst p g g' → Grows base g' × Simulates ev base g')
        → Does ev base (patch_jump dst p g)
    patch_jump-Does dst p g h k =
        let (g', e, q) = patch_jump-IsPatched dst p g h in rw e (adds (k g' q).0 (k g' q).1)
