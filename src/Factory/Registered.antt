-- ===== src/Factory/Registered.antt =====
-- The table of functions of src/vm/factory.rs: what `get_func_ref` finds.
use rapidus.Prelude.{
  ℕ, zero, suc, ◌-◌, ◌≤◌, ◌<◌, ◌==◌, ltb, ◌≡◌, refl, if◌then◌else◌, List, [], ◌∷◌, ◌++◌, Option,
  none, some, length, get_elem?, set, replicate, arith, inl, inr, Bool-cases, ltb→lt,
}
use rapidus.JsValue.Function.{UserFunctionInfo}
use rapidus.Factory.{
  Factory, Host, Allocation, ObjectPrototypes, new, alloc_user_func_info, get_func_ref, in_slot,
  new_slot, alloc, function_info,
}

in_slot-append_beyond :
    (l : List (Option ℕ)) (id r k : ℕ)
    → length l ≤ id
    → in_slot (get_elem? (l ++ (replicate (id - length l) none ++ some r ∷ [])) k)
      ≡ (if id == k then some r else in_slot (get_elem? l k))
unfolding in_slot
in_slot-append_beyond [] zero r zero h = refl
in_slot-append_beyond [] zero r (suc k) h = ground arith
in_slot-append_beyond [] (suc id) r zero h = ground arith
in_slot-append_beyond [] (suc id) r (suc k) h =
    ground (arith, in_slot-append_beyond [] id r k (omega arith))
in_slot-append_beyond (x ∷ l) zero r k h = absurd (omega arith)
in_slot-append_beyond (x ∷ l) (suc id) r zero h = ground arith
in_slot-append_beyond (x ∷ l) (suc id) r (suc k) h =
    ground (arith, in_slot-append_beyond l id r k (omega arith))

in_slot-set :
    (l : List (Option ℕ)) (id r k : ℕ)
    → id < length l
    → in_slot (get_elem? (set l id (some r)) k)
      ≡ (if id == k then some r else in_slot (get_elem? l k))
unfolding in_slot
in_slot-set [] id r k h = absurd (omega arith)
in_slot-set (x ∷ l) zero r zero h = refl
in_slot-set (x ∷ l) zero r (suc k) h = ground arith
in_slot-set (x ∷ l) (suc id) r zero h = ground arith
in_slot-set (x ∷ l) (suc id) r (suc k) h = ground (arith, in_slot-set l id r k (omega arith))

occupied :
    (l : List (Option ℕ)) (id : ℕ)
    → id < length l
    → in_slot (get_elem? l id) ≡ none
    → get_elem? l id ≡ some none
unfolding in_slot
occupied [] id h e = absurd (omega arith)
occupied (none ∷ l) zero h e = refl
occupied (some r ∷ l) zero h e = absurd (cc)
occupied (x ∷ l) (suc id) h e = occupied l id (omega arith) e

-- Storing a function's information under an id that has none succeeds. The id then has the new
-- reference, every other id what it had, and the ids to come are the same.
pub get_func_ref-alloc_user_func_info :
    (id : ℕ) (info : UserFunctionInfo) (f : Factory)
    → get_func_ref id f ≡ none
    → (r : ℕ) × (f' : Factory) × (alloc_user_func_info id info f ≡ some (r, f'))
      × ((k : ℕ) → get_func_ref k f' ≡ (if id == k then some r else get_func_ref k f))
      × (f'.next_func_id ≡ f.next_func_id)
      × (f'.host ≡ f.host)
unfolding get_func_ref alloc_user_func_info
get_func_ref-alloc_user_func_info id info f free =
    let r = (alloc (function_info info) f).0 in
    let f₁ = (alloc (function_info info) f).1 in
    elim (Bool-cases (ltb id (length f.func_refs))) [
      | inl inside ↦
          let within : id < length f.func_refs = ltb→lt _ _ inside in
          let slot = occupied f.func_refs id within free in
          (
            r,
            record f₁ { func_refs = set f.func_refs id (some r) },
            rw (inside, slot) refl,
            λ k. in_slot-set f.func_refs id r k within,
            refl,
            refl,
          )
      | inr beyond ↦ (
        r,
        new_slot id r f₁,
        rw beyond refl,
        λ k. in_slot-append_beyond f.func_refs id r k (ground arith),
        refl,
        refl,
      )
    ]

in_slot-replicate : (n k : ℕ) → in_slot (get_elem? (replicate n none) k) ≡ none
unfolding in_slot
in_slot-replicate zero k = refl
in_slot-replicate (suc n) zero = refl
in_slot-replicate (suc n) (suc k) = in_slot-replicate n k

-- A new factory has the default function alone.
pub get_func_ref-new :
    (host : Host) (memory : List Allocation) (prototypes : ObjectPrototypes) (k : ℕ)
    → 1 ≤ k
    → get_func_ref k (new host memory prototypes) ≡ none
unfolding get_func_ref new
get_func_ref-new host memory prototypes zero h = absurd (omega arith)
get_func_ref-new host memory prototypes (suc k) h = in_slot-replicate 29 k
