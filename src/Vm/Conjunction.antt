-- ===== src/Vm/Conjunction.antt =====
-- The compiled `&&` of src/vm/codegen.rs on the machine of src/vm/vm.rs.
use rapidus.Prelude.{
  ℕ, ◌+◌, ◌≤◌, ◌<◌, ◌≡◌, refl, sym, subst, ◌∙◌, inl, inr, true, Bool-cases, Option-cases, List, [],
  ◌∷◌, some, arith, length, get_elem?, at, if◌then◌else◌,
}
use rapidus.Prelude.Int.{pos}
use rapidus.JsValue.Value.{Value}
use rapidus.Constant
use rapidus.Bytecode.Inst
use rapidus.Bytecode.Gen
use rapidus.Codegen.State.{CodeGenerator, Visitor, emit, pop_unless}
use rapidus.Codegen.Operators.{visit_and}
use rapidus.Vm
use rapidus.Vm.{
  Runtime, Program, Machine, SubroutineKind, running, run_arm, run_double, pushed, drop_top,
}
use rapidus.Vm.Expression.{eval_and}
use rapidus.Vm.Runs.{Agrees, Reaches, Reaches_trans, read_i32-Agrees}
use rapidus.Vm.Compiled.{
  Grows, Grows-trans, Grows-patched, Grows-Emits, length-Emits, opcode-Emits, IsPatched, Emits,
  at_pc, Holds, Simulates, Does, adds, Does-bind, patch-bind,
}
use rapidus.Vm.Jumps.{jmp_if_false-Reaches, distance-IsI32}
use rapidus.Vm.Branches.{Eval, unpatched, append_jmp_if_false-Emits}
use rapidus.Vm.Operators.{some_inj, Holds-first, Holds-second, byte-Reaches}

pub append_double-Emits : (g : CodeGenerator) → Emits Inst.double [] g (emit Gen.append_double g)
unfolding emit Gen.append_double
append_double-Emits g = record { code = refl; table = refl }

append_pop-Emits : (g : CodeGenerator) → Emits Inst.pop [] g (emit Gen.append_pop g)
unfolding emit Gen.append_pop
append_pop-Emits g = record { code = refl; table = refl }

module _ {g g₁ g₂ g₃ g₄ g₅ g₆ : CodeGenerator} (k₁ : Grows g g₁)
    (doubled : Emits Inst.double [] g₁ g₂) (jif : Emits Inst.jmp_if_false unpatched g₂ g₃)
    (popped : Emits Inst.pop [] g₃ g₄) (k₂ : Grows g₄ g₅)
    (q : IsPatched (length g₅.iseq) (length g₂.iseq) g₅ g₆) where
  lengths :
      (length g₂.iseq ≡ length g₁.iseq + 1)
      × (length g₃.iseq ≡ length g₂.iseq + 5)
      × (length g₄.iseq ≡ length g₃.iseq + 1)
      × (length g₄.iseq ≤ length g₅.iseq)
      × (length g₆.iseq ≡ length g₅.iseq)
  lengths = (
    omega (arith, length-Emits doubled),
    omega (arith, length-Emits jif),
    omega (arith, length-Emits popped),
    k₂.longer,
    q.len,
  )

  later : Grows g₂ g₆
  later =
      Grows-patched (omega arith)
        (Grows-trans (Grows-Emits jif) (Grows-trans (Grows-Emits popped) k₂)) q

  module _ (R : Runtime) (P : Program) (H : Holds R P g g₆) where
    -- Behind the jump the code is that before the patch.
    after_jump :
        (i : ℕ) → length g₃.iseq ≤ i → i < length g₅.iseq → get_elem? P.code i ≡ get_elem? g₅.iseq i
    after_jump i lo hi =
        H.code i (omega (arith, lengths, k₁.longer)) (omega (arith, lengths))
        ∙ q.same i (inr (omega (arith, lengths)))

    Holds-popped : Holds R P g₃ g₄
    Holds-popped = record {
      code = λ i lo hi. after_jump i lo (omega (arith, lengths)) ∙ k₂.same i hi;
      constants = λ id {c} e.
          H.constants id
            (subst (λ t. Constant.get t id ≡ some c) (sym q.table) (k₂.constants id e));
      bounded = omega (arith, lengths, H.bounded);
      few = H.few;
    }

    Holds-rhs : Holds R P g₄ g₅
    Holds-rhs = record {
      code = λ i lo hi. after_jump i (omega (arith, lengths)) hi;
      constants =
          λ id {c} e. H.constants id (subst (λ t. Constant.get t id ≡ some c) (sym q.table) e);
      bounded = omega (arith, lengths, H.bounded);
      few = H.few;
    }

    branch :
        (v : Value) (s : List Value) (m : R.Memory) (subs : List SubroutineKind)
        → Reaches R P
            (at_pc R (length g₂.iseq) (v ∷ s) m subs)
            (at_pc R (if R.to_boolean v m then length g₃.iseq else length g₆.iseq) s m subs)
    branch v s m subs =
        let opcode : get_elem? P.code (length g₂.iseq) ≡ some Inst.jmp_if_false =
          H.code (length g₂.iseq) (omega (arith, lengths, k₁.longer)) (omega (arith, lengths))
          ∙ q.same (length g₂.iseq) (inl (omega arith))
          ∙ k₂.same (length g₂.iseq) (omega (arith, lengths))
          ∙ (Grows-Emits popped).same (length g₂.iseq) (omega (arith, lengths))
          ∙ opcode-Emits jif in
        let same : Agrees (length g₂.iseq + 1) (length g₂.iseq + 1 + 4) g₆.iseq P.code =
          λ i lo hi. H.code i (omega (arith, lengths, k₁.longer)) (omega (arith, lengths)) in
        let operand =
          read_i32-Agrees g₆.iseq P.code (length g₂.iseq + 1) same
          ∙ q.operand (
              distance-IsI32 (length g₂.iseq + 5) (length g₅.iseq) (omega (arith, lengths))
                (omega (arith, lengths, H.bounded))) in
        subst
          (λ n.
            Reaches R P (at_pc R (length g₂.iseq) (v ∷ s) m subs)
              (at_pc R (if R.to_boolean v m then n else length g₆.iseq) s m subs))
          (sym lengths.1)
          (subst
            (λ n.
              Reaches R P (at_pc R (length g₂.iseq) (v ∷ s) m subs)
                (at_pc R (if R.to_boolean v m then length g₂.iseq + 5 else n) s m subs))
            (sym q.len)
            (jmp_if_false-Reaches R P (length g₂.iseq) (length g₅.iseq) s m subs v opcode operand
              (omega (arith, lengths))))

    -- A false value stays; a true one gives way to the second operand's.
    conclude :
        (r : Eval R)
        → Simulates R r g₄ g₅
        → (a : Value) (s : List Value) (m : R.Memory) (subs : List SubroutineKind) (v : Value)
          (m' : R.Memory)
        → (if R.to_boolean a m then r P.this m else some (a, m)) ≡ some (v, m')
        → Reaches R P
            (at_pc R (length g₂.iseq) (a ∷ a ∷ s) m subs)
            (at_pc R (length g₆.iseq) (v ∷ s) m' subs)
    unfolding run_arm drop_top at
    conclude r sim a s m subs v m' result = elim (Bool-cases (R.to_boolean a m)) [
      | inl truthy ↦ Reaches_trans R P (rw truthy at (branch a (a ∷ s) m subs)) (
          Reaches_trans R P
            (byte-Reaches R P Inst.pop Vm.pop (a ∷ s) s m m subs popped Holds-popped refl refl)
            (subst
              (λ n. Reaches R P (at_pc R (length g₄.iseq) s m subs) (at_pc R n (v ∷ s) m' subs))
              (sym q.len) (sim P Holds-rhs s m subs v m' (rw truthy at result))))
      | inr falsy ↦
          subst
            (λ (x : Value × R.Memory).
              Reaches R P (at_pc R (length g₂.iseq) (a ∷ a ∷ s) m subs)
                (at_pc R (length g₆.iseq) (x.0 ∷ s) x.1 subs))
            (some_inj (rw falsy at result)) (rw falsy at (branch a (a ∷ s) m subs))
    ]

    run_and :
        (l r : Eval R)
        → Simulates R l g g₁
        → Simulates R r g₄ g₅
        → (s : List Value) (m : R.Memory) (subs : List SubroutineKind) (v : Value) (m' : R.Memory)
        → eval_and R P.this (l P.this) (r P.this) m ≡ some (v, m')
        → Reaches R P (at_pc R (length g.iseq) s m subs) (at_pc R (length g₆.iseq) (v ∷ s) m' subs)
    unfolding eval_and run_arm run_double pushed at
    run_and l r sim_l sim_r s m subs v m' result = elim (Option-cases (l P.this m)) [
      | inl undefined ↦ absurd (cc (rw undefined at result))
      | inr (a, defined) ↦
          let H₁ = Holds-second R P k₁ (Grows-trans (Grows-Emits doubled) later) H in
          Reaches_trans R P
            (sim_l P (Holds-first R P k₁ (Grows-trans (Grows-Emits doubled) later) H) s m subs a.0
              a.1 defined)
            (Reaches_trans R P
              (byte-Reaches R P Inst.double Vm.double (a.0 ∷ s) (a.0 ∷ a.0 ∷ s) a.1 a.1 subs doubled
                (Holds-first R P (Grows-Emits doubled) later H₁) refl refl)
              (conclude r sim_r a.0 s a.1 subs v m' (rw defined at result)))
    ]

pub visit_and-Does :
    (R : Runtime) (l r : Eval R) (lhs rhs : Visitor)
    → ((g : CodeGenerator) → Does R l g (lhs true g))
    → ((g : CodeGenerator) → Does R r g (rhs true g))
    → (g : CodeGenerator)
    → Does R (λ this. eval_and R this (l this) (r this)) g (visit_and lhs rhs true g)
unfolding visit_and pop_unless
visit_and-Does R l r lhs rhs hl hr g = Does-bind R (hl g) (λ g₁ k₁ sim_l.
    let doubled = append_double-Emits g₁ in
    let g₂ = emit Gen.append_double g₁ in
    let jif = append_jmp_if_false-Emits g₂ in
    let g₃ = emit (Gen.append_jmp_if_false (pos 0)) g₂ in
    let popped = append_pop-Emits g₃ in
    Does-bind R (hr (emit Gen.append_pop g₃)) (λ g₅ k₂ sim_r.
      patch-bind R (length g₅.iseq) (length g₂.iseq) g₅
        (omega (arith, length-Emits jif, length-Emits popped, k₂.longer))
        (λ g₆ q.
          adds
            (Grows-trans k₁ (Grows-trans (Grows-Emits doubled) (later k₁ doubled jif popped k₂ q)))
            (λ P H. run_and k₁ doubled jif popped k₂ q R P H l r sim_l sim_r))))
