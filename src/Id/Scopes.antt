-- ===== src/Id/Scopes.antt =====
-- The scopes of the generator of src/id.rs.
use rapidus.Prelude.{ℕ, ◌+◌, ◌≡◌, refl, List, ◌∷◌, Option, none, some, arith}
use rapidus.Id.{IdGen, gen_id, save, restore}

-- What a piece of code may do with the generator: take an id, or work in a scope of its own.
mutual
  pub data Use : Type 0 where
    take_id : Use
    scope : Uses → Use

  pub data Uses : Type 0 where
    done : Uses
    then : Use → Uses → Uses

-- The generator after a use.
unfoldable mutual
  pub run : Use → IdGen → Option IdGen
  run take_id g = elim (gen_id g) [ none ↦ none | some (n, g') ↦ some g' ]
  run (scope us) g = elim (run_all us (save g)) [ none ↦ none | some g' ↦ some (restore g') ]

  pub run_all : Uses → IdGen → Option IdGen
  run_all done g = some g
  run_all (then u us) g = elim (run u g) [ none ↦ none | some g' ↦ run_all us g' ]

-- The ids that a use takes in the scope where it stands.
abbrev pub taken : Use → ℕ
taken take_id = 1
taken (scope us) = 0

abbrev pub taken_all : Uses → ℕ
taken_all done = 0
taken_all (then u us) = taken u + taken_all us

mutual
  unfolding run gen_id save restore

  run_lem :
      (u : Use) (n : ℕ) (l : List ℕ)
      → run u (record { id = n ∷ l }) ≡ some (record { id = (n + taken u) ∷ l })
  run_lem take_id n l = refl
  run_lem (scope us) n l = ground (arith, run_all_lem us 0 (n ∷ l))

  run_all_lem :
      (us : Uses) (n : ℕ) (l : List ℕ)
      → run_all us (record { id = n ∷ l }) ≡ some (record { id = (n + taken_all us) ∷ l })
  run_all_lem done n l = ground arith
  run_all_lem (then u us) n l = ground (arith, run_lem u n l, run_all_lem us (n + taken u) l)

-- Code that runs between `save` and `restore` and balances its own scopes, from a generator
-- with at least one counter, never panics and leaves the generator exactly as it was.
pub restore-save :
    (us : Uses) (g : IdGen) (n : ℕ) (l : List ℕ) → g.id ≡ n ∷ l → run (scope us) g ≡ some g
restore-save us g n l e = ground (arith, run_lem (scope us) n l)
