-- ===== src/Id/Tests.antt =====
-- The unit test of src/id.rs, and the instances of the theorems.
use rapidus.Prelude.{◌≡◌, refl, [], ◌∷◌, some}
use rapidus.Id.{get_cur_id}
use rapidus.Id.Scopes.{take_id, scope, done, then, run, restore-save}

-- The ids of the source's unit test.
saved_counter : get_cur_id (record { id = 2 ∷ 2 ∷ [] }) ≡ some 2
unfolding get_cur_id
saved_counter = refl

restore-save_example :
    run (scope (then take_id (then take_id done))) (record { id = 2 ∷ [] })
    ≡ some (record { id = 2 ∷ [] })
restore-save_example =
    restore-save (then take_id (then take_id done)) (record { id = 2 ∷ [] }) 2 [] refl
