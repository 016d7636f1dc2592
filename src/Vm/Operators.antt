-- ===== src/Vm/Operators.antt =====
-- Constants and operators compiled by src/vm/codegen.rs, on the machine of src/vm/vm.rs.
use rapidus.Prelude.{
  ℕ, ◌+◌, ◌≡◌, ap, subst, ◌∙◌, ◌⊎◌, Bool, true, Option-cases, inl, inr, List, [], ◌∷◌, Option, none,
  some, arith, length, at,
}
use rapidus.JsValue.Value.{Value}
use rapidus.Bytecode.Words.{ByteCode}
use rapidus.Codegen.State.{Result, ok, ◌>>=◌, CodeGenerator, Visitor, emit, pop_unless}
use rapidus.Codegen.Operators.{visit_operator}
use rapidus.Vm.{
  Runtime, Program, Machine, SubroutineKind, Arm, arms, running, run_arm, pushed, run_binary,
  ValueMethod,
}
use rapidus.Vm.Expression
use rapidus.Vm.Expression.{eval_unary, eval_operator, method_of, apply}
use rapidus.Vm.Runs.{Reaches, here, next, Reaches_trans, step-run_arm}
use rapidus.Vm.Compiled.{
  Grows, Grows-trans, Grows-Emits, length-Emits, opcode-Emits, Emits, at_pc, Holds, Simulates, Does,
  adds, Does-bind,
}
use rapidus.Vm.Branches.{Eval}

pub some_inj {ℓ} : {A : Type ℓ} {a b : A} → some a ≡ some b → a ≡ b
some_inj e = cc e

-- Two parts one after the other, neither patched later.
module _ (R : Runtime) (P : Program) {g g₁ g₂ : CodeGenerator} (k : Grows g g₁) (k₁ : Grows g₁ g₂)
    (H : Holds R P g g₂) where
  pub Holds-first : Holds R P g g₁
  Holds-first = record {
    code = λ i lo hi. H.code i lo (omega (arith, k₁.longer)) ∙ k₁.same i hi;
    constants = λ id e. H.constants id (k₁.constants id e);
    bounded = omega (arith, k₁.longer, H.bounded);
    few = H.few;
  }

  pub Holds-second : Holds R P g₁ g₂
  Holds-second = record {
    code = λ i lo hi. H.code i (omega (arith, k.longer)) hi;
    constants = H.constants;
    bounded = H.bounded;
    few = H.few;
  }

module _ (R : Runtime) (P : Program) where
  -- One byte of code is run.
  pub byte-Reaches :
      (op : ℕ) (arm : Arm) {g g' : CodeGenerator} (s s' : List Value) (m m' : R.Memory)
      (subs : List SubroutineKind)
      → Emits op [] g g'
      → Holds R P g g'
      → at op arms ≡ some arm
      → run_arm R P arm (at_pc R (length g.iseq + 1) s m subs)
        ≡ running (at_pc R (length g.iseq + 1) s' m' subs)
      → Reaches R P (at_pc R (length g.iseq) s m subs) (at_pc R (length g'.iseq) s' m' subs)
  byte-Reaches op arm {g} {g'} s s' m m' subs e H is_arm runs =
      let len : length g.iseq + 1 ≡ length g'.iseq = omega (arith, length-Emits e) in
      let opcode = H.code (length g.iseq) (omega arith) (omega (arith, len)) ∙ opcode-Emits e in
      subst (λ n. Reaches R P (at_pc R (length g.iseq) s m subs) (at_pc R n s' m' subs)) len
        (next (step-run_arm R P op arm (at_pc R (length g.iseq) s m subs) opcode is_arm ∙ runs)
          here)

module _ (R : Runtime) where
  -- An instruction that pushes a value.
  pub push-Does :
      (op : ℕ) (arm : Arm) (val : Value → Value) (g g' : CodeGenerator)
      → Emits op [] g g'
      → at op arms ≡ some arm
      → ((P : Program) (n : Machine R) → run_arm R P arm n ≡ pushed R (val P.this) n)
      → Does R (λ this m. some (val this, m)) g (ok g')
  unfolding pushed
  push-Does op arm val g g' e is_arm runs = adds (Grows-Emits e) (λ P H s m subs v m' result.
      subst
        (λ (q : Value × R.Memory).
          Reaches R P (at_pc R (length g.iseq) s m subs)
            (at_pc R (length g'.iseq) (q.0 ∷ s) q.1 subs))
        (some_inj result)
        (byte-Reaches R P op arm s (val P.this ∷ s) m m subs e H is_arm (runs P _)))

  -- An instruction that works on the top of the stack, behind the code of an operand.
  pub unary-Does :
      (op : ℕ) (arm : Arm) (ev : Eval R) (k : Value → R.Memory → Option (Value × R.Memory))
      (g : CodeGenerator) {r : Result CodeGenerator} (f : CodeGenerator → CodeGenerator)
      → Does R ev g r
      → ((g₁ : CodeGenerator) → Emits op [] g₁ (f g₁))
      → at op arms ≡ some arm
      → ((P : Program) (pc : ℕ) (s : List Value) (m : R.Memory) (subs : List SubroutineKind)
            (v w : Value) (m' : R.Memory)
          → k v m ≡ some (w, m')
          → run_arm R P arm (at_pc R pc (v ∷ s) m subs) ≡ running (at_pc R pc (w ∷ s) m' subs))
      → Does R (λ this m. Expression.◌>>=◌ (ev this m) (λ q. k q.0 q.1)) g (r >>= λ g₁. ok (f g₁))
  unary-Does op arm ev k g f does e is_arm runs = Does-bind R does (λ g₁ k₁ sim.
      adds (Grows-trans k₁ (Grows-Emits (e g₁))) (λ P H s m subs v m' result.
        elim (Option-cases (ev P.this m)) [
          | inl undefined ↦ absurd (cc (rw undefined at result))
          | inr (a, defined) ↦
              Reaches_trans R P
                (sim P (Holds-first R P k₁ (Grows-Emits (e g₁)) H) s m subs a.0 a.1 defined)
                (byte-Reaches R P op arm (a.0 ∷ s) (v ∷ s) a.1 m' subs (e g₁)
                  (Holds-second R P k₁ (Grows-Emits (e g₁)) H) is_arm
                  (runs P _ s a.1 subs a.0 v m' (rw defined at result)))
        ]))

  -- An instruction that takes both its operands from the stack.
  pub binary-Does :
      (op : ℕ) (method : ValueMethod) (swapped : Bool) (l r : Eval R) (lhs rhs : Visitor)
      (f : ByteCode → ByteCode)
      → ((g : CodeGenerator) → Does R l g (lhs true g))
      → ((g : CodeGenerator) → Does R r g (rhs true g))
      → ((g : CodeGenerator) → Emits op [] g (emit f g))
      → (arm : Arm) → at op arms ≡ some arm
      → ((P : Program) (n : Machine R) → run_arm R P arm n ≡ run_binary R method swapped n.stack n)
      → (g : CodeGenerator)
      → Does R
          (λ this. eval_operator R this (some (method, swapped)) (l this) (r this))
          g
          (visit_operator lhs rhs (some f) true g)
  unfolding visit_operator eval_operator run_binary pop_unless
  binary-Does op method swapped l r lhs rhs f hl hr e arm is_arm runs g =
      Does-bind R (hl g) (λ g₁ k₁ sim₁. Does-bind R (hr g₁) (λ g₂ k₂ sim₂.
        let k₃ = Grows-Emits (e g₂) in
        adds (Grows-trans k₁ (Grows-trans k₂ k₃)) (λ P H s m subs v m' result.
          operands P g g₁ g₂ k₁ k₂ k₃ sim₁ sim₂ (e g₂) H s m subs v m' result
            (Option-cases (l P.this m)))))
    where
      operands :
          (P : Program) (g g₁ g₂ : CodeGenerator)
          → Grows g g₁
          → Grows g₁ g₂
          → Grows g₂ (emit f g₂)
          → Simulates R l g g₁
          → Simulates R r g₁ g₂
          → Emits op [] g₂ (emit f g₂)
          → Holds R P g (emit f g₂)
          → (s : List Value) (m : R.Memory) (subs : List SubroutineKind) (v : Value) (m' : R.Memory)
          → eval_operator R P.this (some (method, swapped)) (l P.this) (r P.this) m ≡ some (v, m')
          → (l P.this m ≡ none) ⊎ ((a : Value × R.Memory) × (l P.this m ≡ some a))
          → Reaches R P
              (at_pc R (length g.iseq) s m subs)
              (at_pc R (length (emit f g₂).iseq) (v ∷ s) m' subs)
      operands P g g₁ g₂ k₁ k₂ k₃ sim₁ sim₂ e H s m subs v m' result (inl undefined) =
          absurd (cc (rw undefined at result))
      operands P g g₁ g₂ k₁ k₂ k₃ sim₁ sim₂ e H s m subs v m' result (inr (a, defined)) =
          elim (Option-cases (r P.this a.1)) [
            | inl undefined ↦ absurd (cc (rw (defined, undefined) at result))
            | inr (b, defined_b) ↦
                let H₂ = Holds-second R P k₁ (Grows-trans k₂ k₃) H in
                Reaches_trans R P
                  (sim₁ P (Holds-first R P k₁ (Grows-trans k₂ k₃) H) s m subs a.0 a.1 defined)
                  (Reaches_trans R P
                    (sim₂ P (Holds-first R P k₂ k₃ H₂) (a.0 ∷ s) a.1 subs b.0 b.1 defined_b)
                    (byte-Reaches R P op arm (b.0 ∷ a.0 ∷ s) (v ∷ s) b.1 m' subs e
                      (Holds-second R P k₂ k₃ H₂) is_arm
                      (runs P _
                        ∙ ap
                            (λ (q : Value × R.Memory).
                              running (at_pc R (length g₂.iseq + 1) (q.0 ∷ s) q.1 subs))
                            (some_inj (rw (defined, defined_b) at result)))))
          ]
