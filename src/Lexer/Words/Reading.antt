-- ===== src/Lexer/Words/Reading.antt =====
-- How `read_identifier` of src/lexer.rs reads a word.
use Prim.Native.Char.{Char, len_utf8}
use rapidus.Prelude.{
  ℕ, ◌+◌, ◌≡◌, refl, ap, Bool, true, false, List, [], ◌∷◌, ◌++◌, Option, none, some, arith, ◌↔◌,
  ◌∙◌, String, Option-cases, inl, inr,
}
use rapidus.Token.{Token, new_keyword, new_identifier}
use rapidus.Token.Keyword.{Keyword, convert_reserved_keyword, to_str}
use rapidus.Token.Words.{convert_reserved_keyword_iff}
use rapidus.Lexer.{Lexer, ok}
use rapidus.Lexer.Chars.{while_loop, stateless, take_char_while}
use rapidus.Lexer.Comments.{bytes}
use rapidus.Lexer.Words.{text, word_token, in_identifier, read_identifier}

abbrev pub AllPass : (Char → Bool) → List Char → Type 0
AllPass f [] = Unit
AllPass f (c ∷ cs) = (f c ≡ true) × AllPass f cs

-- The first character of what follows does not belong to the word.
abbrev pub Stops : (Char → Bool) → List Char → Type 0
Stops f [] = Unit
Stops f (c ∷ cs) = f c ≡ false

while_loop-word :
    (f : Char → Bool) (word rest : List Char) (pos : ℕ)
    → AllPass f word
    → Stops f rest
    → while_loop (stateless f) tt (word ++ rest) pos
      ≡ record { taken = word; rest = rest; pos = pos + bytes word; state = tt }
unfolding while_loop bytes
while_loop-word f [] [] pos all stops = ground arith
while_loop-word f [] (c ∷ rest) pos all stops = ground arith
while_loop-word f (c ∷ word) rest pos all stops =
    ground (arith, all.0, while_loop-word f word rest (pos + len_utf8 c) all.1 stops)

module _ (pos : ℕ) (ident : String) where
  keyword_token :
      (o : Option Keyword) (k : Keyword)
      → (word_token pos ident o ≡ new_keyword pos k) ↔ (o ≡ some k)
  unfolding word_token new_keyword new_identifier
  keyword_token none k = ((λ e. absurd (ground arith)), λ e. absurd (ground arith))
  keyword_token (some j) k = ((λ e. ground arith), λ e. ground arith)

  identifier_token :
      (o : Option Keyword) (s : String)
      → (word_token pos ident o ≡ new_identifier pos s) ↔ ((ident ≡ s) × (o ≡ none))
  unfolding word_token new_keyword new_identifier
  identifier_token none s = ((λ e. (ground arith, refl)), λ e. ground arith)
  identifier_token (some j) s = ((λ e. absurd (ground arith)), λ e. absurd (ground arith))

-- No keyword is converted exactly when the word is the text of none.
no_keyword :
    (word : String) → (convert_reserved_keyword word ≡ none) ↔ ((k : Keyword) → word ≡ to_str k → ⊥)
no_keyword word = (
  λ e k is_k. let found = (convert_reserved_keyword_iff word k).1 is_k in ground (arith, e, found),
  λ other. elim (Option-cases (convert_reserved_keyword word)) [
    | inl e ↦ e
    | inr (k, e) ↦ absurd (other k ((convert_reserved_keyword_iff word k).0 e))
  ],
)

-- A word of identifier characters, up to the end of the script or a character that is none, is read to
-- its end. The token stands where the word begins; it is the keyword `k` if the word is the text of
-- `k`, and an identifier with the word's text if the word is not the text of any keyword.
pub read_identifier_lem :
    (is_alphanumeric : Char → Bool) (l : Lexer) (word rest : List Char)
    → AllPass (in_identifier is_alphanumeric) word
    → Stops (in_identifier is_alphanumeric) rest
    → l.code ≡ word ++ rest
    → (tok : Token) × (read_identifier is_alphanumeric l
        ≡ (ok tok, record l { code = rest; pos = l.pos + bytes word }))
      × ((k : Keyword) → (tok ≡ new_keyword l.pos k) ↔ (text word ≡ to_str k))
      × ((s : String)
          → (tok ≡ new_identifier l.pos s)
            ↔ ((text word ≡ s) × ((k : Keyword) → text word ≡ to_str k → ⊥)))
unfolding read_identifier take_char_while
read_identifier_lem is_alphanumeric l word rest all stops e =
    let f = in_identifier is_alphanumeric in
    let ident = text word in
    let read =
      ap (λ script. while_loop (stateless f) tt script l.pos) e
      ∙ while_loop-word f word rest l.pos all stops in
    (
      word_token l.pos ident (convert_reserved_keyword ident),
      rw (read_identifier, take_char_while, read) refl,
      λ k.
          let (to, from) = keyword_token l.pos ident (convert_reserved_keyword ident) k in
          let (to', from') = convert_reserved_keyword_iff ident k in
          ((λ t. to' (to t)), λ t. from (from' t)),
      λ s.
          let (to, from) = identifier_token l.pos ident (convert_reserved_keyword ident) s in
          let (to', from') = no_keyword ident in
          ((λ t. ((to t).0, to' (to t).1)), λ t. from (t.0, from' t.1)),
    )
