-- ===== src/Bytecode/Words/RoundTrip.antt =====
-- The operands of src/bytecode_gen.rs, from the writers to the readers.
use rapidus.Prelude.{
  ℕ, zero, suc, ◌+◌, ◌*◌, ◌%◌, ◌^◌, ◌≤◌, ◌<◌, ◌≡◌, refl, ap, List, [], ◌∷◌, ◌++◌, some,
  if◌then◌else◌, length, get_elem?, take, drop, arith, ◌⊎◌, inl, inr, le→leb, append_assoc,
  length-drop,
}
use rapidus.Prelude.Int.{ℤ, pos, negsuc, ◌+ℤ◌, ltb_ℤ, pos_part, neg_part}
use rapidus.Bytecode.Words.{
  ByteCode, byte, as_i32, append_int32, replace_int32, patch, slice_to_int32, read_int32, IsI32,
  read_int8, append_int8, read_index, read_i32,
}

-- The bytes of an `i32`, added up as those of a `u32`, read as an `i32`.
as_i32-bytes :
    (n : ℤ)
    → IsI32 n
    → as_i32 ((byte n 24 * 2 ^ 24 + byte n 16 * 2 ^ 16 + byte n 8 * 2 ^ 8 + byte n 0) % 2 ^ 32) ≡ n
unfolding as_i32 byte
as_i32-bytes (pos n) h = ground arith
as_i32-bytes (negsuc n) h = ground arith

pub drop-append_length {ℓ} : {A : Type ℓ} (xs ys : List A) → drop (length xs) (xs ++ ys) ≡ ys
drop-append_length [] ys = refl
drop-append_length (x ∷ xs) ys = drop-append_length xs ys

-- An `i32` appended to any code is read back at the place where it was appended, whatever is
-- appended after it.
pub read_int32-append_int32 :
    (n : ℤ) (iseq rest : ByteCode)
    → IsI32 n
    → read_int32 (append_int32 n iseq ++ rest) (length iseq) ≡ some n
unfolding read_int32 append_int32
read_int32-append_int32 n iseq rest h =
    rw (append_assoc, drop-append_length) (ap some (as_i32-bytes n h))

signed-bytes :
    (n : ℤ)
    → IsI32 n
    → as_i32 (byte n 24 * 2 ^ 24 % 2 ^ 32)
        +ℤ pos (byte n 16 * 2 ^ 16)
        +ℤ pos (byte n 8 * 2 ^ 8)
        +ℤ pos (byte n 0)
      ≡ n
unfolding as_i32 byte ◌+ℤ◌
signed-bytes (pos n) h = ground arith
signed-bytes (negsuc n) h = ground arith

-- The machine's reader of an `i32` gets it back as well.
pub read_i32-append_int32 :
    (n : ℤ) (iseq rest : ByteCode)
    → IsI32 n
    → read_i32 (append_int32 n iseq ++ rest) (length iseq) ≡ some n
unfolding read_i32 append_int32
read_i32-append_int32 n iseq rest h =
    rw (append_assoc, drop-append_length) (ap some (signed-bytes n h))

index-bytes :
    (n : ℕ)
    → n < 2 ^ 31
    → byte (pos n) 24 * 2 ^ 24 + byte (pos n) 16 * 2 ^ 16 + byte (pos n) 8 * 2 ^ 8 + byte (pos n) 0
      ≡ n
unfolding byte
index-bytes n h = omega arith

-- A number below 2 ^ 31 that was appended as an `i32` is read back as an index.
pub read_index-append_int32 :
    (n : ℕ) (iseq rest : ByteCode)
    → n < 2 ^ 31
    → read_index (append_int32 (pos n) iseq ++ rest) (length iseq) ≡ some n
unfolding read_index append_int32
read_index-append_int32 n iseq rest h =
    rw (append_assoc, drop-append_length) (ap some (index-bytes n h))

abbrev pub AreBytes : ByteCode → Type 0
AreBytes [] = Unit
AreBytes (b ∷ rest) = (b < 256) × AreBytes rest

-- The two readers agree on bytes, on every length of the slice.
pub slice_to_int32-eq-read_int32 :
    (iseq : ByteCode) → AreBytes iseq → slice_to_int32 iseq ≡ read_int32 iseq 0
unfolding slice_to_int32 read_int32
slice_to_int32-eq-read_int32 (b₀ ∷ b₁ ∷ b₂ ∷ b₃ ∷ rest) h = ground arith
slice_to_int32-eq-read_int32 _ h = refl

get_elem?-overwrite :
    (k : ℕ) (l : ByteCode) (a b c d i : ℕ)
    → k + 4 ≤ length l
    → (i < k) ⊎ (k + 4 ≤ i)
    → get_elem? (take k l ++ a ∷ b ∷ c ∷ d ∷ drop 4 (drop k l)) i ≡ get_elem? l i
get_elem?-overwrite zero (x₀ ∷ x₁ ∷ x₂ ∷ x₃ ∷ l) a b c d (suc (suc (suc (suc i)))) h o = refl
get_elem?-overwrite zero l a b c d i h o = absurd (omega arith)
get_elem?-overwrite (suc k) (x ∷ l) a b c d zero h o = refl
get_elem?-overwrite (suc k) (x ∷ l) a b c d (suc i) h o =
    get_elem?-overwrite k l a b c d i (omega arith)
      (elim o [ inl p ↦ inl (omega arith) | inr p ↦ inr (omega arith) ])
get_elem?-overwrite (suc k) [] a b c d i h o = absurd (omega arith)

take_four : (l : ByteCode) → 4 ≤ length l → (a b c d : ℕ) × (take 4 l ≡ a ∷ b ∷ c ∷ d ∷ [])
take_four (a ∷ b ∷ c ∷ d ∷ l) h = (a, b, c, d, refl)
take_four l h = absurd (omega arith)

drop-overwrite : (k : ℕ) (l w : ByteCode) → k ≤ length l → drop k (take k l ++ w) ≡ w
drop-overwrite zero l w h = refl
drop-overwrite (suc k) [] w h = absurd (omega arith)
drop-overwrite (suc k) (x ∷ l) w h = drop-overwrite k l w (omega arith)

length-overwrite :
    (k : ℕ) (l : ByteCode) (a b c d : ℕ)
    → k + 4 ≤ length l
    → length (take k l ++ a ∷ b ∷ c ∷ d ∷ drop 4 (drop k l)) ≡ length l
length-overwrite zero (x₀ ∷ x₁ ∷ x₂ ∷ x₃ ∷ l) a b c d h = refl
length-overwrite zero l a b c d h = absurd (omega arith)
length-overwrite (suc k) (x ∷ l) a b c d h = ap suc (length-overwrite k l a b c d (omega arith))
length-overwrite (suc k) [] a b c d h = absurd (omega arith)

-- The word that `patch` leaves at `p + 1`, with the code around it.
abbrev overwritten : ByteCode → ℕ → ℤ → ByteCode
overwritten l k n = take k l ++ byte n 0 ∷ byte n 8 ∷ byte n 16 ∷ byte n 24 ∷ drop 4 (drop k l)

patch_lem :
    (iseq : ByteCode) (p : ℕ) (n : ℤ)
    → p + 5 ≤ length iseq
    → patch iseq p n ≡ some (overwritten iseq (p + 1) n)
unfolding patch replace_int32
patch_lem iseq p n h =
    let (a, b, c, d, e) = take_four (drop (p + 1) iseq) (omega (arith, length-drop (p + 1) iseq)) in
    rw (le→leb (p + 5) (length iseq) h, e)

-- Patching a jump whose operand lies within the code succeeds: the operand then reads as the new
-- distance, the code is as long as before, and every byte outside the operand is what it was.
pub patch_reads :
    (iseq : ByteCode) (p : ℕ) (n : ℤ)
    → IsI32 n
    → p + 5 ≤ length iseq
    → (code : ByteCode) × (patch iseq p n ≡ some code)
      × (read_int32 code (p + 1) ≡ some n)
      × (length code ≡ length iseq)
      × ((i : ℕ) → (i < p + 1) ⊎ (p + 5 ≤ i) → get_elem? code i ≡ get_elem? iseq i)
unfolding read_int32
patch_reads iseq p n is_i32 h =
    let k = p + 1 in
    (
      overwritten iseq k n,
      patch_lem iseq p n h,
      rw (drop-overwrite k iseq _ (omega arith)) (ap some (as_i32-bytes n is_i32)),
      length-overwrite k iseq _ _ _ _ (omega arith),
      λ i o.
          get_elem?-overwrite k iseq _ _ _ _ i (omega arith)
            (elim o [ inl q ↦ inl q | inr q ↦ inr (omega arith) ]),
    )

-- The same without a bound on the distance, for what the code is elsewhere.
pub patch_keeps :
    (iseq : ByteCode) (p : ℕ) (n : ℤ)
    → p + 5 ≤ length iseq
    → (code : ByteCode) × (patch iseq p n ≡ some code)
      × (length code ≡ length iseq)
      × ((i : ℕ) → (i < p + 1) ⊎ (p + 5 ≤ i) → get_elem? code i ≡ get_elem? iseq i)
patch_keeps iseq p n h = (
  overwritten iseq (p + 1) n,
  patch_lem iseq p n h,
  length-overwrite (p + 1) iseq _ _ _ _ (omega arith),
  λ i o.
      get_elem?-overwrite (p + 1) iseq _ _ _ _ i (omega arith)
        (elim o [ inl q ↦ inl q | inr q ↦ inr (omega arith) ]),
)

-- What the machine reads from a patched operand.
pub patch_runs :
    (iseq : ByteCode) (p : ℕ) (n : ℤ)
    → p + 5 ≤ length iseq
    → (code : ByteCode) × (patch iseq p n ≡ some code)
      × (length code ≡ length iseq)
      × ((i : ℕ) → (i < p + 1) ⊎ (p + 5 ≤ i) → get_elem? code i ≡ get_elem? iseq i)
      × (IsI32 n → read_i32 code (p + 1) ≡ some n)
unfolding read_i32
patch_runs iseq p n h =
    let k = p + 1 in
    (
      overwritten iseq k n,
      patch_lem iseq p n h,
      length-overwrite k iseq _ _ _ _ (omega arith),
      λ i o.
          get_elem?-overwrite k iseq _ _ _ _ i (omega arith)
            (elim o [ inl q ↦ inl q | inr q ↦ inr (omega arith) ]),
      λ is_i32. rw (drop-overwrite k iseq _ (omega arith)) (ap some (signed-bytes n is_i32)),
    )

pub get_elem?-append_start :
    (code operands rest : ByteCode) (op : ℕ)
    → get_elem? ((code ++ op ∷ operands) ++ rest) (length code) ≡ some op
get_elem?-append_start [] operands rest op = refl
get_elem?-append_start (b ∷ code) operands rest op = get_elem?-append_start code operands rest op

pub get_elem?-append_middle :
    (l rest : ByteCode) (x : ℕ) → get_elem? ((l ++ x ∷ []) ++ rest) (length l) ≡ some x
get_elem?-append_middle [] rest x = refl
get_elem?-append_middle (y ∷ l) rest x = get_elem?-append_middle l rest x

pub byte_unsigned :
    (n : ℤ)
    → pos_part n < 128
    → neg_part n ≤ 128
    → pos (byte n 0) ≡ (if ltb_ℤ n (pos 0) then n +ℤ pos 256 else n)
unfolding byte ◌+ℤ◌
byte_unsigned (pos n) h k = ground arith
byte_unsigned (negsuc n) h k = ground arith

-- The machine reads a byte operand without its sign: what `append_int8` wrote comes back as itself
-- if it is not negative, and 256 greater if it is.
pub read_int8-append_int8 :
    (n : ℤ) (iseq rest : ByteCode)
    → pos_part n < 128
    → neg_part n ≤ 128
    → (v : ℕ) × (read_int8 (append_int8 n iseq ++ rest) (length iseq) ≡ some v)
      × (pos v ≡ (if ltb_ℤ n (pos 0) then n +ℤ pos 256 else n))
unfolding read_int8 append_int8
read_int8-append_int8 n iseq rest h k =
    (byte n 0, get_elem?-append_middle iseq rest (byte n 0), byte_unsigned n h k)
