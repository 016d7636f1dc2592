-- ===== src/Bytecode/Words/Tests.antt =====
-- Runs of the operands, and the instances of the theorems.
use rapidus.Prelude.{
  ℕ, ◌<◌, ◌≤◌, ◌≡◌, refl, ◌⊎◌, [], ◌∷◌, ◌++◌, some, length, get_elem?, arith, if◌then◌else◌,
}
use rapidus.Prelude.Int.{pos, negsuc, ◌+ℤ◌, ltb_ℤ}
use rapidus.Bytecode.Words.{
  ByteCode, append_int8, append_int32, read_int8, read_int32, patch, slice_to_int32,
}
use rapidus.Bytecode.Words.RoundTrip.{
  read_int32-append_int32, slice_to_int32-eq-read_int32, patch_reads, read_int8-append_int8,
}

abbrev some_code : ByteCode
some_code = 28 ∷ 1 ∷ 25 ∷ 0 ∷ 0 ∷ 0 ∷ 0 ∷ []

minus_two : append_int32 (negsuc 1) [] ≡ 254 ∷ 255 ∷ 255 ∷ 255 ∷ []
unfolding append_int32
minus_two = refl

read_int32-append_int32_example :
    read_int32 (append_int32 (negsuc 1) some_code ++ some_code) 7 ≡ some (negsuc 1)
read_int32-append_int32_example =
    read_int32-append_int32 (negsuc 1) some_code some_code (omega arith)

slice_to_int32-eq-read_int32_example : slice_to_int32 some_code ≡ read_int32 some_code 0
slice_to_int32-eq-read_int32_example = slice_to_int32-eq-read_int32 some_code (
  omega arith,
  (omega arith, (omega arith, (omega arith, (omega arith, (omega arith, (omega arith, tt)))))),
)

patch_reads_example :
    (code : ByteCode) × (patch some_code 2 (negsuc 6) ≡ some code)
    × (read_int32 code 3 ≡ some (negsuc 6))
    × (length code ≡ 7)
    × ((i : ℕ) → (i < 3) ⊎ (7 ≤ i) → get_elem? code i ≡ get_elem? some_code i)
patch_reads_example = patch_reads some_code 2 (negsuc 6) (omega arith) (omega arith)

-- A byte operand -1 is read as 255.
read_int8-append_int8_example :
    (v : ℕ) × (read_int8 (append_int8 (negsuc 0) some_code ++ []) 7 ≡ some v)
    × (pos v ≡ (if ltb_ℤ (negsuc 0) (pos 0) then negsuc 0 +ℤ pos 256 else negsuc 0))
read_int8-append_int8_example =
    read_int8-append_int8 (negsuc 0) some_code [] (omega arith) (omega arith)
