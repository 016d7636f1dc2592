-- ===== src/Bytecode/Words.antt =====
-- The operands: `append_int8`, `append_int32`, `append_uint32`, `replace_int32` and the readers
-- `slice_to_int32` and `read_int32` of src/bytecode_gen.rs. An `i32` is an integer, a `u8` a number
-- below 256. A read or a write out of bounds panics: `none`.
pub mod RoundTrip
mod Tests
use rapidus.Prelude.{
  ℕ, ◌+◌, ◌-◌, ◌*◌, ◌/◌, ◌%◌, ◌^◌, ◌≤◌, ◌<◌, List, [], ◌∷◌, ◌++◌, Option, none, some, if◌then◌else◌,
  ltb, get_elem?, take, drop, leb, length,
}
use rapidus.Prelude.Int.{ℤ, pos, negsuc, ◌+ℤ◌}

abbrev pub ByteCode : Type 0
ByteCode = List ℕ

-- `((n >> k) & 0xff) as u8`: the shift of an `i32` keeps the sign.
unfoldable pub byte : ℤ → ℕ → ℕ
byte (pos n) k = n / 2 ^ k % 256
byte (negsuc n) k = 255 - n / 2 ^ k % 256

-- `u as i32` of a `u32`.
unfoldable pub as_i32 : ℕ → ℤ
as_i32 u = if ltb u (2 ^ 31) then pos u else negsuc (2 ^ 32 - 1 - u)

unfoldable pub append_int8 : ℤ → ByteCode → ByteCode
unfolding byte
append_int8 n iseq = iseq ++ byte n 0 ∷ []

unfoldable pub append_int32 : ℤ → ByteCode → ByteCode
unfolding byte
append_int32 n iseq = iseq ++ byte n 0 ∷ byte n 8 ∷ byte n 16 ∷ byte n 24 ∷ []

unfoldable pub append_uint32 : ℕ → ByteCode → ByteCode
append_uint32 n iseq =
    iseq ++ (n % 256) ∷ (n / 2 ^ 8 % 256) ∷ (n / 2 ^ 16 % 256) ∷ (n / 2 ^ 24 % 256) ∷ []

-- The four assignments to a slice.
unfoldable pub replace_int32 : ℤ → ByteCode → Option ByteCode
unfolding byte
replace_int32 n (_ ∷ _ ∷ _ ∷ _ ∷ rest) = some (byte n 0 ∷ byte n 8 ∷ byte n 16 ∷ byte n 24 ∷ rest)
replace_int32 n _ = none

-- `replace_int32(n, &mut iseq[p + 1..p + 5])`, as the code generator writes it.
unfoldable pub patch : ByteCode → ℕ → ℤ → Option ByteCode
unfolding replace_int32
patch iseq p n =
    if leb (p + 5) (length iseq)
    then elim (replace_int32 n (take 4 (drop (p + 1) iseq))) [
      | none ↦ none
      | some word ↦ some (take (p + 1) iseq ++ (word ++ drop 4 (drop (p + 1) iseq)))
    ]
    else none

-- The sum is one of `i32`; only its first term can be negative.
unfoldable pub slice_to_int32 : ByteCode → Option ℤ
unfolding as_i32 ◌+ℤ◌
slice_to_int32 (b₀ ∷ b₁ ∷ b₂ ∷ b₃ ∷ _) =
    some (as_i32 (b₃ * 2 ^ 24 % 2 ^ 32) +ℤ pos (b₂ * 2 ^ 16) +ℤ pos (b₁ * 2 ^ 8) +ℤ pos b₀)
slice_to_int32 _ = none

-- The sum is one of `u32`, and is then read as an `i32`.
unfoldable pub read_word : ByteCode → Option ℤ
unfolding as_i32
read_word (b₀ ∷ b₁ ∷ b₂ ∷ b₃ ∷ _) =
    some (as_i32 ((b₃ * 2 ^ 24 + b₂ * 2 ^ 16 + b₁ * 2 ^ 8 + b₀) % 2 ^ 32))
read_word _ = none

unfoldable pub read_int32 : ByteCode → ℕ → Option ℤ
unfolding read_word
read_int32 iseq pc = read_word (drop pc iseq)

unfoldable pub index_of : ByteCode → Option ℕ
index_of (b₀ ∷ b₁ ∷ b₂ ∷ b₃ ∷ _) = some (b₃ * 2 ^ 24 + b₂ * 2 ^ 16 + b₁ * 2 ^ 8 + b₀)
index_of _ = none

-- `read_int32!` of src/vm/vm.rs at the type `usize`, as it reads ids and counts.
unfoldable pub read_index : ByteCode → ℕ → Option ℕ
unfolding index_of
read_index iseq pc = index_of (drop pc iseq)

-- `read_int32!` at the type `i32`: the sum of `slice_to_int32`.
unfoldable pub read_i32 : ByteCode → ℕ → Option ℤ
unfolding slice_to_int32
read_i32 iseq pc = slice_to_int32 (drop pc iseq)

-- `read_int8!` of src/vm/vm.rs: the byte of the code, an unsigned number, as it is pushed.
unfoldable pub read_int8 : ByteCode → ℕ → Option ℕ
read_int8 iseq pc = get_elem? iseq pc

abbrev pub IsI32 : ℤ → Type 0
IsI32 (pos n) = n < 2 ^ 31
IsI32 (negsuc n) = n < 2 ^ 31
