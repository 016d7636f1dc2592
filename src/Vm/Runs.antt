-- ===== src/Vm/Runs.antt =====
-- Runs of the machine of src/vm/vm.rs, and what it reads from code that agrees with other code.
use native.Mathlib.Nat.{suc-add}
use rapidus.Prelude.{
  ℕ, zero, suc, ◌+◌, ◌≤◌, ◌<◌, ◌≡◌, refl, [], ◌∷◌, Option, none, some, arith, get_elem?, at, drop,
}
use rapidus.Bytecode.Words.{ByteCode, slice_to_int32, read_i32, read_index, index_of}
use rapidus.Vm.{Runtime, Program, Arm, arms, Machine, running, step, run_arm, run_inst, fetched}

-- Code that is the same between two addresses.
abbrev pub Agrees : ℕ → ℕ → ByteCode → ByteCode → Type 0
Agrees lo hi c d = (i : ℕ) → lo ≤ i → i < hi → get_elem? d i ≡ get_elem? c i

module _ {X : Type 0} where
  quad : (ℕ → ℕ → ℕ → ℕ → Option X) → Option ℕ → Option ℕ → Option ℕ → Option ℕ → Option X
  quad g (some a) (some b) (some c) (some d) = g a b c d
  quad g _ _ _ _ = none

  -- A reader of four bytes.
  abbrev ReadsFour : (ByteCode → Option X) → (ℕ → ℕ → ℕ → ℕ → Option X) → Type 0
  ReadsFour f g =
      (l : ByteCode) → f l ≡ quad g (get_elem? l 0) (get_elem? l 1) (get_elem? l 2) (get_elem? l 3)

  reads-drop :
      (f : ByteCode → Option X) (g : ℕ → ℕ → ℕ → ℕ → Option X)
      → ReadsFour f g
      → (c : ByteCode) (pc : ℕ)
      → f (drop pc c)
        ≡ quad g
            (get_elem? c pc)
            (get_elem? c (pc + 1))
            (get_elem? c (pc + 2))
            (get_elem? c (pc + 3))
  reads-drop f g h c zero = h c
  reads-drop f g h [] (suc pc) = h []
  reads-drop f g h (a ∷ rest) (suc pc) =
      rw (suc-add pc 1, suc-add pc 2, suc-add pc 3) (reads-drop f g h rest pc)

  reads-Agrees :
      (f : ByteCode → Option X) (g : ℕ → ℕ → ℕ → ℕ → Option X)
      → ReadsFour f g
      → (c d : ByteCode) (pc : ℕ) → Agrees pc (pc + 4) c d
      → f (drop pc d) ≡ f (drop pc c)
  reads-Agrees f g h c d pc same =
      let e₀ = same pc (omega arith) (omega arith) in
      let e₁ = same (pc + 1) (omega arith) (omega arith) in
      let e₂ = same (pc + 2) (omega arith) (omega arith) in
      let e₃ = same (pc + 3) (omega arith) (omega arith) in
      cc (reads-drop f g h c pc, reads-drop f g h d pc)

slice-ReadsFour :
    (l : ByteCode)
    → slice_to_int32 l
      ≡ quad
          (λ a b c d. slice_to_int32 (a ∷ b ∷ c ∷ d ∷ []))
          (get_elem? l 0)
          (get_elem? l 1)
          (get_elem? l 2)
          (get_elem? l 3)
unfolding slice_to_int32 quad
slice-ReadsFour [] = refl
slice-ReadsFour (a ∷ []) = refl
slice-ReadsFour (a ∷ b ∷ []) = refl
slice-ReadsFour (a ∷ b ∷ c ∷ []) = refl
slice-ReadsFour (a ∷ b ∷ c ∷ d ∷ l) = refl

index-ReadsFour :
    (l : ByteCode)
    → index_of l
      ≡ quad
          (λ a b c d. index_of (a ∷ b ∷ c ∷ d ∷ []))
          (get_elem? l 0)
          (get_elem? l 1)
          (get_elem? l 2)
          (get_elem? l 3)
unfolding index_of quad
index-ReadsFour [] = refl
index-ReadsFour (a ∷ []) = refl
index-ReadsFour (a ∷ b ∷ []) = refl
index-ReadsFour (a ∷ b ∷ c ∷ []) = refl
index-ReadsFour (a ∷ b ∷ c ∷ d ∷ l) = refl

module _ (c d : ByteCode) (pc : ℕ) (same : Agrees pc (pc + 4) c d) where
  pub read_i32-Agrees : read_i32 d pc ≡ read_i32 c pc
  unfolding read_i32
  read_i32-Agrees = reads-Agrees slice_to_int32 _ slice-ReadsFour c d pc same

  pub read_index-Agrees : read_index d pc ≡ read_index c pc
  unfolding read_index
  read_index-Agrees = reads-Agrees index_of _ index-ReadsFour c d pc same

module _ (R : Runtime) (P : Program) where
  -- The machine goes from one state to another.
  pub data Reaches : Machine R → Machine R → Type 0 where
    here : {m : Machine R} → Reaches m m
    next : {m m' n : Machine R} → step R P m ≡ running m' → Reaches m' n → Reaches m n

  pub Reaches_trans : {l m n : Machine R} → Reaches l m → Reaches m n → Reaches l n
  Reaches_trans here q = q
  Reaches_trans (next e p) q = next e (Reaches_trans p q)

  -- The arm of the instruction at the program counter.
  pub step-run_arm :
      (op : ℕ) (arm : Arm) (m : Machine R)
      → get_elem? P.code m.pc ≡ some op
      → at op arms ≡ some arm
      → step R P m ≡ run_arm R P arm (record m { pc = m.pc + 1 })
  unfolding step
  step-run_arm op arm m e f = rw (e, fetched, f, run_inst) refl
