-- ===== src/Lexer/Tests.antt =====
-- Instances of the theorems on the lexer.
use Prim.Native.Char.{Char, code}
use rapidus.Prelude.{ℕ, ◌≡◌, refl, List, [], ◌∷◌, some, arith, ◌⊎◌, inl}
use rapidus.Token.{Token, new_line_terminator, new_symbol}
use rapidus.Token.Symbol
use rapidus.Lexer.{Lexer, new, ok, marked, next, next_skip_lineterminator, unget}
use rapidus.Lexer.Buffer.{unget-next}
use rapidus.Lexer.Skipping.{Finds, Misses, skipping_agrees}
use rapidus.Lexer.Chars.{skip_normal_comment}
use rapidus.Lexer.Comments.{bytes, line_ends, skip_normal_comment_lem}
use rapidus.Token.{new_keyword, new_identifier}
use rapidus.Token.Keyword.{Keyword, to_str}
use rapidus.Prelude.{String, ◌+◌, Bool, leb, ◌&&◌, ◌↔◌}
use rapidus.Lexer.Words.{text, in_identifier, read_identifier}
use rapidus.Lexer.Words.Reading.{read_identifier_lem}
use rapidus.Lexer.Symbols.{read_symbol}
use rapidus.Lexer.Symbols.Spelling.{behind, spelling, read_symbol-spelling, read_symbol-mixed_signs}

-- A semicolon between two line ends.
abbrev three_tokens : Lexer
three_tokens = record (new []) {
  buf = new_line_terminator 0 ∷ new_symbol 1 Symbol.semicolon ∷ new_line_terminator 2 ∷ [];
}

unget-next_example :
    (unget (next three_tokens).1 ≡ marked three_tokens)
    × (unget (next_skip_lineterminator three_tokens).1 ≡ marked three_tokens)
unget-next_example = unget-next three_tokens (omega arith)

skipping_agrees_example : ((k : ℕ) × (tok : Token) × Finds three_tokens k tok) ⊎ Misses three_tokens
skipping_agrees_example = skipping_agrees three_tokens (omega arith)

abbrev script : List Char → Lexer
script text = new text

skip_normal_comment_lem_example :
    skip_normal_comment (script ("/" ∷ "*" ∷ "a" ∷ "\n" ∷ "*" ∷ "/" ∷ ";" ∷ []))
    ≡ some (
      ok tt,
      record (script (";" ∷ [])) { pos = 6; line = 2; pos_line_list = (0, 1) ∷ (5, 2) ∷ [] },
    )
unfolding bytes line_ends
skip_normal_comment_lem_example =
    skip_normal_comment_lem (script ("/" ∷ "*" ∷ "a" ∷ "\n" ∷ "*" ∷ "/" ∷ ";" ∷ []))
      ("a" ∷ "\n" ∷ []) (";" ∷ []) refl (refl, (refl, tt))

-- `/*/` is read as a whole comment.
short_comment :
    skip_normal_comment (script ("/" ∷ "*" ∷ "/" ∷ ";" ∷ []))
    ≡ some (ok tt, record (script (";" ∷ [])) { pos = 3 })
unfolding skip_normal_comment
short_comment = refl

read_symbol-spelling_example : read_symbol (script ("=" ∷ "=" ∷ "=" ∷ "x" ∷ [])) ≡ (
  ok (new_symbol 0 Symbol.strict_eq),
  behind (script ("=" ∷ "=" ∷ "=" ∷ "x" ∷ [])) 3 ("x" ∷ []),
)
unfolding spelling
read_symbol-spelling_example =
    read_symbol-spelling Symbol.strict_eq (script ("=" ∷ "=" ∷ "=" ∷ "x" ∷ [])) "x" []
      (
        ground arith,
        ground arith,
        ground arith,
        ground arith,
        ground arith,
        ground arith,
        ground arith,
        ground arith,
        ground arith,
      )
      refl

read_symbol-mixed_signs_example :
    read_symbol (script ("+" ∷ "-" ∷ "1" ∷ []))
    ≡ (ok (new_symbol 0 Symbol.hash), behind (script ("+" ∷ "-" ∷ "1" ∷ [])) 2 ("1" ∷ []))
read_symbol-mixed_signs_example =
    read_symbol-mixed_signs (script ("+" ∷ "-" ∷ "1" ∷ [])) "+" "-" ("1" ∷ []) (inl (refl, refl))
      refl

abbrev is_letter : Char → Bool
is_letter c = leb b'a' (code c) && leb (code c) b'z'

read_identifier_lem_example :
    (tok : Token) × (read_identifier is_letter (script ("i" ∷ "f" ∷ "(" ∷ []))
      ≡ (ok tok, record (script ("(" ∷ [])) { pos = 0 + bytes ("i" ∷ "f" ∷ []) }))
    × ((k : Keyword) → (tok ≡ new_keyword 0 k) ↔ (text ("i" ∷ "f" ∷ []) ≡ to_str k))
    × ((s : String)
        → (tok ≡ new_identifier 0 s)
          ↔ ((text ("i" ∷ "f" ∷ []) ≡ s) × ((k : Keyword) → text ("i" ∷ "f" ∷ []) ≡ to_str k → ⊥)))
unfolding in_identifier
read_identifier_lem_example =
    read_identifier_lem is_letter (script ("i" ∷ "f" ∷ "(" ∷ [])) ("i" ∷ "f" ∷ []) ("(" ∷ [])
      (refl, (refl, tt)) refl refl
