-- ===== src/Lexer/Comments.antt =====
-- The comments of src/lexer.rs: where they end.
use Prim.Native.Char.{Char, code, len_utf8}
use rapidus.Prelude.{
  ℕ, ◌+◌, ◌≡◌, ap, ◌∙◌, false, ◌&&◌, List, [], ◌∷◌, ◌++◌, some, if◌then◌else◌, ◌==◌, arith,
}
use rapidus.Lexer.{Lexer, ok}
use rapidus.Lexer.Chars.{while_loop, in_comment, skip_normal_comment, take_char, skip_char_while}

-- The bytes and the line ends of a text.
unfoldable pub bytes : List Char → ℕ
bytes [] = 0
bytes (c ∷ cs) = len_utf8 c + bytes cs

unfoldable pub line_ends : List Char → ℕ
line_ends [] = 0
line_ends (c ∷ cs) = (if code c == b'\n' then 1 else 0) + line_ends cs

-- No `/` of the text comes right after a `*`, nor first if `last` is a `*`.
abbrev pub NeverCloses : ℕ → List Char → Type 0
NeverCloses last [] = Unit
NeverCloses last (c ∷ cs) = ((last == b'*' && code c == b'/') ≡ false) × NeverCloses (code c) cs

in_comment-body :
    (body rest : List Char) (last line pos : ℕ)
    → NeverCloses last body
    → while_loop in_comment (last, line) (body ++ "*" ∷ "/" ∷ rest) pos ≡ record {
      taken = body ++ "*" ∷ [];
      rest = "/" ∷ rest;
      pos = pos + bytes body + 1;
      state = (b'/', line + line_ends body);
    }
unfolding while_loop in_comment bytes line_ends
in_comment-body [] rest last line pos h = ground arith
in_comment-body (c ∷ cs) rest last line pos h = ground (
  arith,
  h.0,
  in_comment-body cs rest (code c) (if code c == b'\n' then line + 1 else line) (pos + len_utf8 c)
      h.1,
)

in_comment-opened :
    (body rest : List Char) (line pos : ℕ)
    → NeverCloses b'*' body
    → while_loop in_comment (b' ', line) ("/" ∷ "*" ∷ (body ++ "*" ∷ "/" ∷ rest)) pos ≡ record {
      taken = "/" ∷ "*" ∷ (body ++ "*" ∷ []);
      rest = "/" ∷ rest;
      pos = pos + bytes body + 3;
      state = (b'/', line + line_ends body);
    }
unfolding while_loop in_comment
in_comment-opened body rest line pos h =
    ground (arith, in_comment-body body rest b'*' line (pos + 1 + 1) h)

-- A comment `/*`, `body`, `*/` is skipped to its end without a panic, and its line ends are counted,
-- provided that `*/` does not occur earlier: where the body begins with `/`, that `/` closes it.
pub skip_normal_comment_lem :
    (l : Lexer) (body rest : List Char)
    → l.code ≡ "/" ∷ "*" ∷ (body ++ "*" ∷ "/" ∷ rest)
    → NeverCloses b'*' body
    → skip_normal_comment l
      ≡ some (
        ok tt,
        record l {
          code = rest;
          pos = l.pos + bytes body + 4;
          line = l.line + line_ends body;
          pos_line_list =
              if line_ends body == 0
              then l.pos_line_list
              else l.pos_line_list ++ (l.pos + bytes body + 3, l.line + line_ends body) ∷ [];
        },
      )
unfolding skip_normal_comment skip_char_while take_char
skip_normal_comment_lem l body rest e h =
    let scanned =
      ap (λ text. while_loop in_comment (b' ', l.line) text l.pos) e
      ∙ in_comment-opened body rest l.line l.pos h in
    rw (skip_normal_comment, skip_char_while, scanned) (ground arith)
