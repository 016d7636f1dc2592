-- ===== src/Vm/Branches.antt =====
-- The compiled `?:` of src/vm/codegen.rs on the machine of src/vm/vm.rs.
use rapidus.Prelude.{
  ℕ, ◌+◌, ◌≤◌, ◌<◌, ◌≡◌, refl, sym, subst, ◌∙◌, ◌⊎◌, inl, inr, true, Bool-cases, Option-cases,
  append_assoc, List, [], ◌∷◌, Option, some, arith, length, get_elem?, if◌then◌else◌,
}
use rapidus.Prelude.Int.{pos}
use rapidus.JsValue.Value.{Value}
use rapidus.Constant
use rapidus.Bytecode.Inst
use rapidus.Bytecode.Words.{ByteCode, append_int32}
use rapidus.Bytecode.Gen
use rapidus.Codegen.State.{CodeGenerator, Visitor, emit}
use rapidus.Codegen.Control.{visit_ternary_op}
use rapidus.Vm.{Runtime, Program, SubroutineKind}
use rapidus.Vm.Expression.{eval_ternary}
use rapidus.Vm.Runs.{Agrees, Reaches, Reaches_trans, read_i32-Agrees}
use rapidus.Vm.Compiled.{
  Grows, Grows-trans, Grows-patched, Grows-Emits, length-Emits, opcode-Emits, IsPatched, Emits,
  at_pc, Holds, Simulates, Does, Does-bind, patch-bind, patch_jump-Does,
}
use rapidus.Vm.Jumps.{jmp-Reaches, jmp_if_false-Reaches, distance-IsI32}

-- A value is computed, and one of two evaluations goes on from it.
abbrev pub Eval : Runtime → Type 0
Eval R = Value → R.Memory → Option (Value × R.Memory)

-- The operand that `append_jmp(0)` and `append_jmp_if_false(0)` leave to be patched.
abbrev pub unpatched : ByteCode
unpatched = 0 ∷ 0 ∷ 0 ∷ 0 ∷ []

append_jmp-Emits :
    (g : CodeGenerator) → Emits Inst.jmp unpatched g (emit (Gen.append_jmp (pos 0)) g)
unfolding emit Gen.append_jmp append_int32
append_jmp-Emits g = record { code = append_assoc g.iseq (Inst.jmp ∷ []) unpatched; table = refl }

pub append_jmp_if_false-Emits :
    (g : CodeGenerator)
    → Emits Inst.jmp_if_false unpatched g (emit (Gen.append_jmp_if_false (pos 0)) g)
unfolding emit Gen.append_jmp_if_false append_int32
append_jmp_if_false-Emits g = record {
  code = append_assoc g.iseq (Inst.jmp_if_false ∷ []) unpatched;
  table = refl;
}

-- The generators of a conditional: each part adds code, each jump is emitted, then patched.
module _ {g₁ g₂ g₃ g₄ g₅ g₆ g₇ : CodeGenerator} (jif : Emits Inst.jmp_if_false unpatched g₁ g₂)
    (k₂ : Grows g₂ g₃) (jmp : Emits Inst.jmp unpatched g₃ g₄)
    (q₁ : IsPatched (length g₄.iseq) (length g₁.iseq) g₄ g₅) (k₃ : Grows g₅ g₆)
    (q₂ : IsPatched (length g₆.iseq) (length g₃.iseq) g₆ g₇) where
  -- Which generator's code a byte of the whole is from.
  from_jump :
      (i : ℕ)
      → i < length g₃.iseq
      → (i < length g₁.iseq + 1) ⊎ (length g₁.iseq + 5 ≤ i)
      → get_elem? g₇.iseq i ≡ get_elem? g₃.iseq i
  from_jump i h o =
      q₂.same i (inl (omega arith))
      ∙ k₃.same i (omega (arith, q₁.len, length-Emits jmp))
      ∙ q₁.same i o
      ∙ (Grows-Emits jmp).same i h

  lengths :
      (length g₂.iseq ≡ length g₁.iseq + 5)
      × (length g₂.iseq ≤ length g₃.iseq)
      × (length g₅.iseq ≡ length g₃.iseq + 5)
      × (length g₅.iseq ≤ length g₆.iseq)
      × (length g₇.iseq ≡ length g₆.iseq)
  lengths = (
    omega (arith, length-Emits jif),
    k₂.longer,
    omega (arith, q₁.len, length-Emits jmp),
    k₃.longer,
    q₂.len,
  )

  later : Grows g₁ g₇
  later =
      Grows-patched (omega (arith, lengths))
        (Grows-trans
          (Grows-patched (omega arith)
            (Grows-trans (Grows-Emits jif) (Grows-trans k₂ (Grows-Emits jmp))) q₁)
          k₃)
        q₂

  constants_later :
      (id : ℕ) {c : Constant.Constant}
      → Constant.get g₃.constant_table id ≡ some c
      → Constant.get g₇.constant_table id ≡ some c
  constants_later id {c} e =
      subst (λ t. Constant.get t id ≡ some c) (sym q₂.table)
        (k₃.constants id (subst (λ t. Constant.get t id ≡ some c) (sym (q₁.table ∙ jmp.table)) e))

  module _ (R : Runtime) (P : Program) {g : CodeGenerator} (k₁ : Grows g g₁)
      (H : Holds R P g g₇) where
    Holds-cond : Holds R P g g₁
    Holds-cond = record {
      code = λ i lo hi. H.code i lo (omega (arith, later.longer)) ∙ later.same i hi;
      constants = λ id e. H.constants id (later.constants id e);
      bounded = omega (arith, later.longer, H.bounded);
      few = H.few;
    }

    Holds-then : Holds R P g₂ g₃
    Holds-then = record {
      code = λ i lo hi.
          H.code i (omega (arith, lengths, k₁.longer)) (omega (arith, lengths))
          ∙ from_jump i hi (inr (omega (arith, lengths)));
      constants = λ id e. H.constants id (constants_later id e);
      bounded = omega (arith, lengths, H.bounded);
      few = H.few;
    }

    Holds-else : Holds R P g₅ g₆
    Holds-else = record {
      code = λ i lo hi.
          H.code i (omega (arith, lengths, k₁.longer)) (omega (arith, lengths))
          ∙ q₂.same i (inr (omega (arith, lengths)));
      constants =
          λ id {c} e. H.constants id (subst (λ t. Constant.get t id ≡ some c) (sym q₂.table) e);
      bounded = omega (arith, lengths, H.bounded);
      few = H.few;
    }

    -- The first jump leads behind the second.
    branch :
        (v : Value) (s : List Value) (m : R.Memory) (subs : List SubroutineKind)
        → Reaches R P
            (at_pc R (length g₁.iseq) (v ∷ s) m subs)
            (at_pc R (if R.to_boolean v m then length g₂.iseq else length g₅.iseq) s m subs)
    branch v s m subs =
        let d = length g₄.iseq in
        let d_eq : length g₄.iseq ≡ length g₅.iseq = sym q₁.len in
        let opcode : get_elem? P.code (length g₁.iseq) ≡ some Inst.jmp_if_false =
          H.code (length g₁.iseq) k₁.longer (omega (arith, lengths))
          ∙ from_jump (length g₁.iseq) (omega (arith, lengths)) (inl (omega arith))
          ∙ k₂.same (length g₁.iseq) (omega (arith, lengths))
          ∙ opcode-Emits jif in
        let same : Agrees (length g₁.iseq + 1) (length g₁.iseq + 1 + 4) g₅.iseq P.code = λ i lo hi.
          H.code i (omega (arith, k₁.longer)) (omega (arith, lengths))
          ∙ q₂.same i (inl (omega (arith, lengths)))
          ∙ k₃.same i (omega (arith, lengths)) in
        let operand =
          read_i32-Agrees g₅.iseq P.code (length g₁.iseq + 1) same
          ∙ q₁.operand (
              distance-IsI32 (length g₁.iseq + 5) d (omega (arith, lengths, d_eq))
                (omega (arith, lengths, d_eq, H.bounded))) in
        subst
          (λ n.
            Reaches R P (at_pc R (length g₁.iseq) (v ∷ s) m subs)
              (at_pc R (if R.to_boolean v m then n else length g₅.iseq) s m subs))
          (sym lengths.0)
          (subst
            (λ n.
              Reaches R P (at_pc R (length g₁.iseq) (v ∷ s) m subs)
                (at_pc R (if R.to_boolean v m then length g₁.iseq + 5 else n) s m subs))
            d_eq
            (jmp_if_false-Reaches R P (length g₁.iseq) d s m subs v opcode operand
              (omega (arith, lengths, d_eq))))

    -- The second jump leads to the end.
    leave :
        (s : List Value) (m : R.Memory) (subs : List SubroutineKind)
        → Reaches R P (at_pc R (length g₃.iseq) s m subs) (at_pc R (length g₇.iseq) s m subs)
    leave s m subs =
        let d = length g₆.iseq in
        let opcode : get_elem? P.code (length g₃.iseq) ≡ some Inst.jmp =
          H.code (length g₃.iseq) (omega (arith, lengths, k₁.longer)) (omega (arith, lengths))
          ∙ q₂.same (length g₃.iseq) (inl (omega arith))
          ∙ k₃.same (length g₃.iseq) (omega (arith, lengths))
          ∙ q₁.same (length g₃.iseq) (inr (omega (arith, lengths)))
          ∙ opcode-Emits jmp in
        let same : Agrees (length g₃.iseq + 1) (length g₃.iseq + 1 + 4) g₇.iseq P.code =
          λ i lo hi. H.code i (omega (arith, lengths, k₁.longer)) (omega (arith, lengths)) in
        let operand =
          read_i32-Agrees g₇.iseq P.code (length g₃.iseq + 1) same
          ∙ q₂.operand (
              distance-IsI32 (length g₃.iseq + 5) d (omega (arith, lengths))
                (omega (arith, lengths, H.bounded))) in
        subst (λ n. Reaches R P (at_pc R (length g₃.iseq) s m subs) (at_pc R n s m subs))
          (sym q₂.len)
          (jmp-Reaches R P (length g₃.iseq) d s m subs opcode operand (omega (arith, lengths)))

    -- Once the condition is known, one of the two parts runs, and the end is reached.
    choose :
        (t e : Eval R)
        → Simulates R t g₂ g₃
        → Simulates R e g₅ g₆
        → (w : Value) (s : List Value) (m : R.Memory) (subs : List SubroutineKind) (v : Value)
          (m' : R.Memory)
        → (if R.to_boolean w m then t P.this m else e P.this m) ≡ some (v, m')
        → Reaches R P
            (at_pc R (length g₁.iseq) (w ∷ s) m subs)
            (at_pc R (length g₇.iseq) (v ∷ s) m' subs)
    choose t e sim_t sim_e w s m subs v m' result = elim (Bool-cases (R.to_boolean w m)) [
      | inl truthy ↦ Reaches_trans R P (rw truthy at (branch w s m subs)) (
          Reaches_trans R P (sim_t P Holds-then s m subs v m' (rw truthy at result))
            (leave (v ∷ s) m' subs))
      | inr falsy ↦ Reaches_trans R P (rw falsy at (branch w s m subs)) (
          subst (λ n. Reaches R P (at_pc R (length g₅.iseq) s m subs) (at_pc R n (v ∷ s) m' subs))
            (sym q₂.len) (sim_e P Holds-else s m subs v m' (rw falsy at result)))
    ]

module _ (R : Runtime) where
  pub visit_ternary_op-Does :
      (c t e : Eval R) (cond then_exp else_exp : Visitor)
      → ((g : CodeGenerator) → Does R c g (cond true g))
      → ((g : CodeGenerator) → Does R t g (then_exp true g))
      → ((g : CodeGenerator) → Does R e g (else_exp true g))
      → (g : CodeGenerator)
      → Does R
          (λ this. eval_ternary R this (c this) (t this) (e this))
          g
          (visit_ternary_op cond then_exp else_exp true g)
  unfolding visit_ternary_op eval_ternary
  visit_ternary_op-Does c t e cond then_exp else_exp hc ht he g = Does-bind R (hc g) (λ g₁ k₁ sim₁.
      let g₂ = emit (Gen.append_jmp_if_false (pos 0)) g₁ in
      let jif = append_jmp_if_false-Emits g₁ in
      Does-bind R (ht g₂) (λ g₃ k₂ sim₂.
        let g₄ = emit (Gen.append_jmp (pos 0)) g₃ in
        let jmp = append_jmp-Emits g₃ in
        patch-bind R (length g₄.iseq) (length g₁.iseq) g₄
          (omega (arith, length-Emits jif, length-Emits jmp, k₂.longer))
          (λ g₅ q₁. Does-bind R (he g₅) (λ g₆ k₃ sim₃.
            patch_jump-Does R (length g₆.iseq) (length g₃.iseq) g₆
              (omega (arith, q₁.len, length-Emits jmp, k₃.longer))
              (λ g₇ q₂. (
                Grows-trans k₁ (later jif k₂ jmp q₁ k₃ q₂),
                conditional g g₁ k₁ sim₁ (λ P H. choose jif k₂ jmp q₁ k₃ q₂ R P k₁ H t e sim₂ sim₃)
                    (λ P H. Holds-cond jif k₂ jmp q₁ k₃ q₂ R P k₁ H),
              ))))))
    where
      conditional :
          (g g₁ : CodeGenerator) {g₇ : CodeGenerator}
          → Grows g g₁
          → Simulates R c g g₁
          → ((P : Program)
              → Holds R P g g₇
              → (w : Value) (s : List Value) (m : R.Memory) (subs : List SubroutineKind) (v : Value)
                (m' : R.Memory)
              → (if R.to_boolean w m then t P.this m else e P.this m) ≡ some (v, m')
              → Reaches R P
                  (at_pc R (length g₁.iseq) (w ∷ s) m subs)
                  (at_pc R (length g₇.iseq) (v ∷ s) m' subs))
          → ((P : Program) → Holds R P g g₇ → Holds R P g g₁)
          → Simulates R (λ this. eval_ternary R this (c this) (t this) (e this)) g g₇
      conditional g g₁ k₁ sim chosen held P H s m subs v m' result =
          elim (Option-cases (c P.this m)) [
            | inl undefined ↦ absurd (cc (rw undefined at result))
            | inr (a, defined) ↦
                Reaches_trans R P (sim P (held P H) s m subs a.0 a.1 defined)
                  (chosen P H a.0 s a.1 subs v m' (rw defined at result))
          ]
