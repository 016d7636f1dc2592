-- ===== src/Lexer/Buffer.antt =====
-- Reading the buffer with and without line terminators, and going back.
use rapidus.Prelude.{
  drop-get_elem?, drop-beyond, get_elem?-lt, get_elem?-none, ℕ, zero, suc, ◌+◌, ◌-◌, ◌≤◌, ◌<◌, ◌≡◌,
  ap, Option, none, some, length, get_elem?, drop, arith, Option-cases, inl, inr,
}
use rapidus.Token.{Token}
use rapidus.Lexer.{
  Lexer, Result, ok, err, normal_eof, read_token, marked, next, read_loop, next_skip_lineterminator,
  scan, unget,
}

-- The lexer at another token.
abbrev pub at_token : Lexer → ℕ → Lexer
at_token l i = record l { token_pos = i }

-- What `next_skip_lineterminator` makes of the search.
abbrev pub found : Lexer → Option (ℕ × Token) → Result Token × Lexer
found l (some (i, tok)) = (ok tok, at_token l (i + 1))
found l none = (err normal_eof, at_token l (length l.buf))

-- The loop over `read_token` finds what the search over the rest of the buffer finds.
pub read_loop_lem :
    (fuel : ℕ) (l : Lexer)
    → l.token_pos ≤ length l.buf
    → length l.buf - l.token_pos < fuel
    → read_loop fuel l ≡ found l (scan l.token_pos (drop l.token_pos l.buf))
unfolding read_loop read_token scan
read_loop_lem zero l h enough = absurd (omega arith)
read_loop_lem (suc fuel) l h enough = elim (Option-cases (get_elem? l.buf l.token_pos)) [
  | inl e ↦
      let last : l.token_pos ≡ length l.buf = ground (arith, get_elem?-none l.buf l.token_pos e) in
      ground (arith, e, drop-beyond l.buf l.token_pos e, ap (at_token l) last)
  | inr (tok, e) ↦
      let i = l.token_pos in
      let later =
        read_loop_lem fuel (at_token l (i + 1)) (omega (arith, get_elem?-lt l.buf i tok e))
          (omega (arith, get_elem?-lt l.buf i tok e)) in
      ground (arith, e, drop-get_elem? l.buf i tok e, later)
]

-- Every token that was read is given back: whatever `next` or `next_skip_lineterminator` returned,
-- `unget` brings the lexer back to where it was, with that place remembered.
pub unget-next :
    (l : Lexer)
    → l.token_pos ≤ length l.buf
    → (unget (next l).1 ≡ marked l) × (unget (next_skip_lineterminator l).1 ≡ marked l)
unfolding unget next next_skip_lineterminator read_token
unget-next l h =
    let at_pos = l.token_pos in
    (
      elim (Option-cases (get_elem? l.buf at_pos)) [
        | inl e ↦ ground (arith, e)
        | inr (tok, e) ↦ ground (arith, e)
      ],
      elim (Option-cases (scan at_pos (drop at_pos l.buf))) [
        | inl e ↦
            ground (arith, e, read_loop_lem (length l.buf - at_pos + 1) (marked l) h (omega arith))
        | inr ((i, tok), e) ↦
            ground (arith, e, read_loop_lem (length l.buf - at_pos + 1) (marked l) h (omega arith))
      ],
    )
