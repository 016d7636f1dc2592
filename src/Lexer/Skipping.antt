-- ===== src/Lexer/Skipping.antt =====
-- The methods of src/lexer.rs that skip line terminators.
use rapidus.Prelude.{
  ℕ, zero, suc, ◌+◌, ◌-◌, ◌≤◌, ◌<◌, ◌≡◌, refl, true, false, List, [], ◌∷◌, none, some,
  if◌then◌else◌, length, get_elem?, drop, arith, Bool-cases, inl, inr, ◌⊎◌,
}
use rapidus.Token.{Token, Kind, kind_eq}
use rapidus.Lexer.{
  Lexer, ok, err, normal_eof, is_line_terminator, marked, next_skip_lineterminator, scan,
  skip_lineterminator, peek_skip_lineterminator, next_if_skip_lineterminator,
}
use rapidus.Lexer.Buffer.{at_token, read_loop_lem}

-- The first token that is no line terminator stands at `k`.
abbrev pub IsFirst : List Token → ℕ → Token → Type 0
IsFirst toks k tok =
    (get_elem? toks k ≡ some tok)
    × (is_line_terminator tok ≡ false)
    × ((j : ℕ) (t : Token) → j < k → get_elem? toks j ≡ some t → is_line_terminator t ≡ true)

abbrev pub AllTerminators : List Token → Type 0
AllTerminators toks = (j : ℕ) (t : Token) → get_elem? toks j ≡ some t → is_line_terminator t ≡ true

scan-cases :
    (i : ℕ) (toks : List Token)
    → ((k : ℕ) × (tok : Token) × (scan i toks ≡ some (i + k, tok)) × IsFirst toks k tok)
      ⊎ ((scan i toks ≡ none) × AllTerminators toks)
unfolding scan
scan-cases i [] = inr (refl, λ j t e. absurd (cc))
scan-cases i (tok ∷ toks) = elim (Bool-cases (is_line_terminator tok)) [
  | inr here ↦ inl (0, tok, ground (arith, here), (refl, here, λ j t lt e. absurd (omega arith)))
  | inl skip ↦ elim (scan-cases (i + 1) toks) [
    | inl (k, t, found, (at_k, ends, before)) ↦
        let moved : i + 1 + k ≡ i + suc k = omega arith in
        inl
          (suc k, t, ground (arith, skip, found, moved), (at_k, ends, first tok toks k skip before))
    | inr (missed, all) ↦ inr (ground (arith, skip, missed), every tok toks skip all)
  ]
]
  where
    first :
        (tok : Token) (toks : List Token) (k : ℕ)
        → is_line_terminator tok ≡ true
        → ((j : ℕ) (t : Token) → j < k → get_elem? toks j ≡ some t → is_line_terminator t ≡ true)
        → (j : ℕ) (t : Token) → j < suc k
        → get_elem? (tok ∷ toks) j ≡ some t
        → is_line_terminator t ≡ true
    first tok toks k skip before zero t lt e = ground arith
    first tok toks k skip before (suc j) t lt e = before j t (omega arith) e

    every :
        (tok : Token) (toks : List Token)
        → is_line_terminator tok ≡ true
        → AllTerminators toks
        → AllTerminators (tok ∷ toks)
    every tok toks skip all zero t e = ground arith
    every tok toks skip all (suc j) t e = all j t e

-- Skipping to a token: the four methods, when the first token of the rest that is no line
-- terminator stands at `k` of it.
abbrev pub Finds : Lexer → ℕ → Token → Type 0
Finds l k tok =
    IsFirst (drop l.token_pos l.buf) k tok
    × (next_skip_lineterminator l ≡ (ok tok, at_token (marked l) (l.token_pos + k + 1)))
    × (peek_skip_lineterminator l ≡ ok tok)
    × (skip_lineterminator l ≡ (ok tt, at_token l (l.token_pos + k)))
    × ((kind : Kind)
        → next_if_skip_lineterminator kind l ≡ (
            if kind_eq tok.kind kind
            then (ok true, at_token (marked l) (l.token_pos + k + 1))
            else (ok false, l)))

abbrev pub Misses : Lexer → Type 0
Misses l =
    AllTerminators (drop l.token_pos l.buf)
    × (next_skip_lineterminator l ≡ (err normal_eof, at_token (marked l) (length l.buf)))
    × (peek_skip_lineterminator l ≡ err normal_eof)
    × (skip_lineterminator l ≡ (err normal_eof, l))
    × ((kind : Kind) → next_if_skip_lineterminator kind l ≡ (err normal_eof, l))

-- From a place within the buffer, if a token that is no line terminator is left, then taking a token
-- returns the first one and moves behind it, peeking returns the same one, skipping moves to it, and
-- taking it only if it has a kind moves exactly when it has; if none is left, all four report the
-- end, taking moves to the end of the buffer and the others do not move.
pub skipping_agrees :
    (l : Lexer) → l.token_pos ≤ length l.buf → ((k : ℕ) × (tok : Token) × Finds l k tok) ⊎ Misses l
unfolding next_if_skip_lineterminator next_skip_lineterminator peek_skip_lineterminator
    skip_lineterminator
skipping_agrees l h =
    let loop = read_loop_lem (length l.buf - l.token_pos + 1) (marked l) h (omega arith) in
    elim (scan-cases l.token_pos (drop l.token_pos l.buf)) [
      | inl (k, tok, found, is_first) ↦ inl (
        k,
        tok,
        (
          is_first,
          ground (arith, loop, found),
          ground (arith, found),
          ground (arith, found),
          λ kind. ground (arith, loop, found),
        ),
      )
      | inr (missed, all) ↦ inr (
        all,
        ground (arith, loop, missed),
        ground (arith, missed),
        ground (arith, missed),
        λ kind. ground (arith, missed),
      )
    ]
