-- ===== src/Token/Words.antt =====
-- The reserved words of src/token.rs and their texts.
use rapidus.Prelude.{◌≡◌, refl, ◌↔◌, String, eq_iff, List, [], ◌∷◌, some, get, arith, subst, sym}
use rapidus.Token.Keyword.{Keyword, to_str, reserved, convert_reserved_keyword, abstract}

-- Every arm of the table maps the text of a keyword to that keyword.
abbrev AllSpelt : List (String × Keyword) → Type 0
AllSpelt [] = Unit
AllSpelt ((word, k) ∷ rest) = (to_str k ≡ word) × AllSpelt rest

get-AllSpelt :
    (arms : List (String × Keyword)) (word : String) (k : Keyword)
    → AllSpelt arms
    → get word arms ≡ some k
    → word ≡ to_str k
unfolding get
get-AllSpelt [] word k h e = absurd (ground arith)
get-AllSpelt ((w, j) ∷ rest) word k h e =
    ground (arith, eq_iff w word, get-AllSpelt rest word k h.1)

reserved-AllSpelt : AllSpelt reserved
unfolding reserved to_str
reserved-AllSpelt = (
  refl,
  (
    refl,
    (
      refl,
      (
        refl,
        (
          refl,
          (
            refl,
            (
              refl,
              (
                refl,
                (
                  refl,
                  (
                    refl,
                    (
                      refl,
                      (
                        refl,
                        (
                          refl,
                          (
                            refl,
                            (
                              refl,
                              (
                                refl,
                                (
                                  refl,
                                  (
                                    refl,
                                    (
                                      refl,
                                      (
                                        refl,
                                        (
                                          refl,
                                          (
                                            refl,
                                            (
                                              refl,
                                              (
                                                refl,
                                                (refl, (refl, (refl, (refl, (refl, (refl, tt)))))),
                                              ),
                                            ),
                                          ),
                                        ),
                                      ),
                                    ),
                                  ),
                                ),
                              ),
                            ),
                          ),
                        ),
                      ),
                    ),
                  ),
                ),
              ),
            ),
          ),
        ),
      ),
    ),
  ),
)

convert-to_str : (k : Keyword) → convert_reserved_keyword (to_str k) ≡ some k
unfolding convert_reserved_keyword to_str get
convert-to_str abstract = refl
convert-to_str _ = refl

-- The lexer takes a word for the keyword `k` exactly when the word is the text of `k`.
pub convert_reserved_keyword_iff :
    (word : String) (k : Keyword) → (convert_reserved_keyword word ≡ some k) ↔ (word ≡ to_str k)
convert_reserved_keyword_iff word k = (
  λ h. get-AllSpelt reserved word k reserved-AllSpelt (unfold convert_reserved_keyword in h),
  λ e. subst (λ w. convert_reserved_keyword w ≡ some k) (sym e) (convert-to_str k),
)
