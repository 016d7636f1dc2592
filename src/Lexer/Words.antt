-- ===== src/Lexer/Words.antt =====
-- `read_identifier` of src/lexer.rs, and the digits of its numbers. Which characters are alphanumeric,
-- `char::is_alphanumeric`, is a table of Unicode and a parameter.
pub mod Reading
use Prim.Native.Char.{Char, code}
use Prim.Native.String.{String}
use rapidus.Prelude.{
  ℕ, ◌+◌, ◌-◌, ◌*◌, ◌^◌, Bool, true, false, ◌&&◌, ◌||◌, List, [], ◌∷◌, Option, none, some,
  if◌then◌else◌, ◌==◌, ltb, leb,
}
use rapidus.Token.{Token, new_keyword, new_identifier}
use rapidus.Token.Keyword.{Keyword, convert_reserved_keyword}
use rapidus.Lexer.{Lexer, Result, ok}
use rapidus.Lexer.Chars.{take_char_while}

-- The characters of a word as a `String`.
unfoldable pub text : List Char → String
text [] = String.[]
text (c ∷ cs) = String.◌∷◌ c (text cs)

word_token : ℕ → String → Option Keyword → Token
unfolding new_keyword new_identifier
word_token pos ident none = new_identifier pos ident
word_token pos ident (some keyword) = new_keyword pos keyword

module _ (is_alphanumeric : Char → Bool) where
  -- The closure of `read_identifier`.
  unfoldable pub in_identifier : Char → Bool
  in_identifier c = is_alphanumeric c || code c == b'_' || code c == b'$'

  unfoldable pub read_identifier : Lexer → Result Token × Lexer
  unfolding take_char_while in_identifier text word_token convert_reserved_keyword
  read_identifier l =
      let (ident, l') = take_char_while in_identifier l in
      (ok (word_token l.pos (text ident) (convert_reserved_keyword (text ident))), l')

-- `c.to_digit(radix)` of the characters that the folds let through.
digit : ℕ → Option ℕ
digit c =
    if leb b'0' c && leb c b'9'
    then some (c - b'0')
    else if leb b'a' c && leb c b'f'
    then some (c - b'a' + 10)
    else if leb b'A' c && leb c b'F'
    then some (c - b'A' + 10)
    else none

-- One step of a fold in the radix `r`; a character that is no digit of it is skipped. An `i64`
-- that overflows panics, as in a build with overflow checks.
fold_digit : ℕ → ℕ → Option ℕ → Option ℕ
fold_digit r n none = some n
fold_digit r n (some d) =
    if ltb d r then (if ltb (n * r + d) (2 ^ 63) then some (n * r + d) else none) else some n

unfoldable pub fold_digits : ℕ → ℕ → List Char → Option ℕ
unfolding digit fold_digit
fold_digits r n [] = some n
fold_digits r n (c ∷ cs) = elim (fold_digit r n (digit (code c))) [
  | none ↦ none
  | some n' ↦ fold_digits r n' cs
]

unfoldable pub read_hex_num : List Char → Option ℕ
unfolding fold_digits
read_hex_num num_literal = fold_digits 16 0 num_literal

unfoldable pub read_oct_num : List Char → Option ℕ
unfolding fold_digits
read_oct_num num_literal = fold_digits 8 0 num_literal

unfoldable pub read_bin_num : List Char → Option ℕ
unfolding fold_digits
read_bin_num num_literal = fold_digits 2 0 num_literal
