-- ===== src/Prelude/Maps.antt =====
-- Maps as association lists: by text (`FxHashMap<String, V>`) and by number (addresses, ids).
use Prim.Native.Nat.{ℕ}
use Prim.Native.String.{String}
use text.Mathlib.Text.{◌==◌ as str_eq}
use text.Mathlib.TextEquality.{eq_iff}
use mathlib.Core.Path.{◌≡◌, refl}
use mathlib.Core.List.{List, [], ◌∷◌}
use mathlib.Core.Option.{Option, none, some}
use native.Mathlib.Omega.{arith}
use rapidus.Prelude.Tests.{◌==◌, if◌then◌else◌}

module _ {ℓ} {V : Type ℓ} where
  -- `map.get(&k)` and `map.insert(k, v)`: an insertion replaces the value of a key that is there.
  unfoldable pub get : String → List (String × V) → Option V
  get k [] = none
  get k ((j, v) ∷ m) = if str_eq j k then some v else get k m

  unfoldable pub insert : String → V → List (String × V) → List (String × V)
  insert k v [] = (k, v) ∷ []
  insert k v ((j, w) ∷ m) = if str_eq j k then (k, v) ∷ m else (j, w) ∷ insert k v m

  pub get-insert :
      (k j : String) (v : V) (m : List (String × V))
      → get j (insert k v m) ≡ (if str_eq k j then some v else get j m)
  unfolding get insert
  get-insert k j v [] = refl
  get-insert k j v ((i, w) ∷ m) =
      ground (arith, eq_iff k j, eq_iff i k, eq_iff i j, get-insert k j v m)

  -- The same for keys that are numbers.
  unfoldable pub at : ℕ → List (ℕ × V) → Option V
  at k [] = none
  at k ((j, v) ∷ m) = if j == k then some v else at k m

  unfoldable pub put : ℕ → V → List (ℕ × V) → List (ℕ × V)
  put k v [] = (k, v) ∷ []
  put k v ((j, w) ∷ m) = if j == k then (k, v) ∷ m else (j, w) ∷ put k v m

  pub at-put :
      (k j : ℕ) (v : V) (m : List (ℕ × V)) → at j (put k v m) ≡ (if k == j then some v else at j m)
  unfolding at put
  at-put k j v [] = refl
  at-put k j v ((i, w) ∷ m) = ground (arith, at-put k j v m)
