-- ===== src/Prelude/Positions.antt =====
-- What stands where in a list that is cut or grown.
use Prim.Native.Nat.{ℕ, zero, suc, ◌+◌, ◌≤◌, ◌<◌}
use mathlib.Core.Path.{◌≡◌, refl, ap, ◌∙◌}
use mathlib.Core.List.{List, [], ◌∷◌, ◌++◌}
use mathlib.Core.Option.{none, some}
use native.Mathlib.Omega.{arith}
use rapidus.Prelude.Tests.{ltb, if◌then◌else◌}
use rapidus.Prelude.Lists.{length, get_elem?, take, drop}

module _ {ℓ} {A : Type ℓ} where
  pub get_elem?-take :
      (n : ℕ) (l : List A) (j : ℕ)
      → get_elem? (take n l) j ≡ (if ltb j n then get_elem? l j else none)
  get_elem?-take zero l j = ground arith
  get_elem?-take (suc n) [] j = ground arith
  get_elem?-take (suc n) (p ∷ l) zero = ground arith
  get_elem?-take (suc n) (p ∷ l) (suc j) = ground (arith, get_elem?-take n l j)

  pub get_elem?-beyond : (l : List A) (j : ℕ) → length l ≤ j → get_elem? l j ≡ none
  get_elem?-beyond [] j h = refl
  get_elem?-beyond (p ∷ l) zero h = absurd (omega arith)
  get_elem?-beyond (p ∷ l) (suc j) h = get_elem?-beyond l j (omega arith)

  pub get_elem?-within : (l : List A) (i : ℕ) → i < length l → (p : A) × (get_elem? l i ≡ some p)
  get_elem?-within [] i h = absurd (omega arith)
  get_elem?-within (p ∷ l) zero h = (p, refl)
  get_elem?-within (p ∷ l) (suc i) h = get_elem?-within l i (omega arith)

  pub get_elem?-append_old :
      (l : List A) (p : A) (i : ℕ) → i < length l → get_elem? (l ++ p ∷ []) i ≡ get_elem? l i
  get_elem?-append_old [] p i h = absurd (omega arith)
  get_elem?-append_old (q ∷ l) p zero h = refl
  get_elem?-append_old (q ∷ l) p (suc i) h = get_elem?-append_old l p i (omega arith)

  pub get_elem?-append_last : (l : List A) (x : A) → get_elem? (l ++ x ∷ []) (length l) ≡ some x
  get_elem?-append_last [] x = refl
  get_elem?-append_last (y ∷ l) x = get_elem?-append_last l x

  pub get_elem?-append_of_some :
      (l : List A) (i : ℕ) (x y : A) → get_elem? l i ≡ some y → get_elem? (l ++ x ∷ []) i ≡ some y
  get_elem?-append_of_some [] i x y h = absurd (cc)
  get_elem?-append_of_some (z ∷ l) zero x y h = h
  get_elem?-append_of_some (z ∷ l) (suc i) x y h = get_elem?-append_of_some l i x y h

  pub drop-get_elem? :
      (l : List A) (i : ℕ) (x : A) → get_elem? l i ≡ some x → drop i l ≡ x ∷ drop (i + 1) l
  drop-get_elem? [] i x e = absurd (cc)
  drop-get_elem? (y ∷ l) zero x e = ground arith
  drop-get_elem? (y ∷ l) (suc i) x e =
      let later : suc (i + 1) ≡ suc i + 1 = omega arith in
      drop-get_elem? l i x e ∙ ap (λ n. x ∷ drop n (y ∷ l)) later

  pub drop-beyond : (l : List A) (i : ℕ) → get_elem? l i ≡ none → drop i l ≡ []
  drop-beyond [] zero e = refl
  drop-beyond [] (suc i) e = refl
  drop-beyond (y ∷ l) zero e = absurd (cc)
  drop-beyond (y ∷ l) (suc i) e = drop-beyond l i e

  pub get_elem?-lt : (l : List A) (i : ℕ) (x : A) → get_elem? l i ≡ some x → i < length l
  get_elem?-lt [] i x e = absurd (cc)
  get_elem?-lt (y ∷ l) zero x e = omega arith
  get_elem?-lt (y ∷ l) (suc i) x e = omega (arith, get_elem?-lt l i x e)

  pub get_elem?-none : (l : List A) (i : ℕ) → get_elem? l i ≡ none → length l ≤ i
  get_elem?-none [] i e = omega arith
  get_elem?-none (y ∷ l) zero e = absurd (cc)
  get_elem?-none (y ∷ l) (suc i) e = omega (arith, get_elem?-none l i e)
