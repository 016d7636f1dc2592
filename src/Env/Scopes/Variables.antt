-- ===== src/Env/Scopes/Variables.antt =====
-- Reading and assigning variables in chains of records (src/vm/exec_context.rs).
use rapidus.Prelude.{
  ℕ, zero, suc, ◌<◌, ◌≡◌, refl, ap, ◌∙◌, false, String, str_eq, eq_iff, Option, none, some,
  if◌then◌else◌, get, insert, get-insert, ◌==◌, arith, Bool-cases, Option-cases, inl, inr,
}
use rapidus.JsValue.Value.{Value, uninitialized, value_eq}
use rapidus.JsValue.Lookup.{Outcome, ok, Objects}
use rapidus.Env
use rapidus.Env.{Bindings, EnvironmentRecord, LexicalEnvironment}
use rapidus.Env.Scopes.{
  Store, not_defined, initialized, own_value, get_value, with_env, rebind, rebound, bindings_of,
  holder, set_value,
}

-- From the environment `e`, the name `x` is declared in the environment `d`, `n` records further out,
-- and `w` is its value. No object stands in between.
pub data Declared (s : Store) (x : String) (d : ℕ) (w : Value) : ℕ → ℕ → Type 0 where
  here :
      {env : LexicalEnvironment} {bs : Bindings}
      → s.envs d ≡ some env
      → holder env.bindings ≡ bindings_of bs
      → get x bs ≡ some w
      → Declared s x d w 0 d
  outward :
      {n e o : ℕ} {env : LexicalEnvironment} {bs : Bindings}
      → s.envs e ≡ some env
      → holder env.bindings ≡ bindings_of bs
      → get x bs ≡ none
      → env.outer ≡ some o
      → Declared s x d w n o
      → Declared s x d w (suc n) e

pub own_value-holder :
    (fuel : ℕ) (objs : Objects) (r : EnvironmentRecord) (bs : Bindings) (x : String)
    → holder r ≡ bindings_of bs
    → own_value fuel objs r x ≡ initialized x (get x bs)
unfolding own_value holder
own_value-holder fuel objs (Env.declarative bs') bs x e = ground arith
own_value-holder fuel objs (Env.function this bs') bs x e = ground arith
own_value-holder fuel objs (Env.module_record this bs') bs x e = ground arith
own_value-holder fuel objs _ bs x e = absurd (cc)

-- Reading a declared name gives its value, unless it is not initialized.
pub get_value-Declared :
    (s : Store) (x : String) (d : ℕ) (w : Value) (n e fuel : ℕ)
    → Declared s x d w n e
    → n < fuel
    → get_value fuel s e x ≡ (if value_eq w uninitialized then not_defined x else ok w)
unfolding get_value initialized
get_value-Declared s x d w n e zero dec lt = absurd (omega arith)
get_value-Declared s x d w n e (suc fuel) (here {env = env} {bs = bs} at_d is_bs found) lt =
    ground (arith, at_d, found, own_value-holder (suc fuel) s.objs env.bindings bs x is_bs)
get_value-Declared s x d w n e (suc fuel)
      (outward {n = m} {o = o} {env = env} {bs = bs} at_e is_bs missing out rest) lt =
    ground (
      arith,
      at_e,
      missing,
      out,
      own_value-holder (suc fuel) s.objs env.bindings bs x is_bs,
      get_value-Declared s x d w m o fuel rest (omega arith),
    )

-- The environment `d` with another value of `x`.
abbrev pub assigned : Store → ℕ → LexicalEnvironment → Bindings → String → Value → Store
assigned s d env bs x v = with_env s d (rebound env (insert x v bs))

-- Assigning to a declared name changes the environment where it is declared, and no other.
set_value-Declared :
    (s : Store) (x : String) (d : ℕ) (w : Value) (n e fuel : ℕ) (v : Value)
    → Declared s x d w n e
    → n < fuel
    → (env : LexicalEnvironment) × (bs : Bindings) × (s.envs d ≡ some env)
      × (holder env.bindings ≡ bindings_of bs)
      × (get x bs ≡ some w)
      × (set_value fuel s e x v ≡ ok (assigned s d env bs x v))
unfolding set_value
set_value-Declared s x d w n e zero v dec lt = absurd (omega arith)
set_value-Declared s x d w n e (suc fuel) v (here {env = env} {bs = bs} at_d is_bs found) lt =
    (env, bs, at_d, is_bs, found, ground (arith, at_d, is_bs, found))
set_value-Declared s x d w n e (suc fuel) v
      (outward {n = m} {o = o} {env = env} {bs = bs} at_e is_bs missing out rest) lt =
    let (env', bs', at_d, is_bs', found, sets) =
      set_value-Declared s x d w m o fuel v rest (omega arith) in
    (env', bs', at_d, is_bs', found, ground (arith, at_e, is_bs, missing, out, sets))

pub holder-rebind :
    (r : EnvironmentRecord) (bs bs' : Bindings)
    → holder r ≡ bindings_of bs
    → holder (rebind r bs') ≡ bindings_of bs'
unfolding holder
holder-rebind (Env.declarative _) bs bs' e = refl
holder-rebind (Env.function _ _) bs bs' e = refl
holder-rebind (Env.module_record _ _) bs bs' e = refl
holder-rebind _ bs bs' e = absurd (cc)

module _ (s : Store) (x : String) (d : ℕ) (env : LexicalEnvironment) (bs : Bindings) (v : Value)
    (at_d : s.envs d ≡ some env) (is_bs : holder env.bindings ≡ bindings_of bs) where
  abbrev after : Store
  after = assigned s d env bs x v

  outer-other :
      (fuel : ℕ) (o : Option ℕ) (y : String)
      → ((e : ℕ) → get_value fuel after e y ≡ get_value fuel s e y)
      → elim o as (λ _. Outcome Value) [ none ↦ not_defined y | some e ↦ get_value fuel after e y ]
        ≡ elim o as (λ _. Outcome Value) [ none ↦ not_defined y | some e ↦ get_value fuel s e y ]
  outer-other fuel none y ih = refl
  outer-other fuel (some e) y ih = ih e

  -- Other names read as before, from everywhere.
  pub get_value-other :
      (y : String) (fuel e : ℕ)
      → str_eq x y ≡ false
      → get_value fuel after e y ≡ get_value fuel s e y
  unfolding get_value
  get_value-other y zero e other = refl
  get_value-other y (suc fuel) e other =
      let ih = λ (o : ℕ). get_value-other y fuel o other in
      elim (Bool-cases (d == e)) [
        | inl same ↦
            let at_e : s.envs e ≡ some env = ap s.envs (ground arith) ∙ at_d in
            ground (
              arith,
              at_e,
              own_value-holder (suc fuel) s.objs env.bindings bs y is_bs,
              own_value-holder (suc fuel) s.objs (rebind env.bindings (insert x v bs))
                  (insert x v bs) y (holder-rebind env.bindings bs (insert x v bs) is_bs),
              get-insert x y v bs,
              outer-other fuel env.outer y ih,
            )
        | inr apart ↦ elim (Option-cases (s.envs e)) [
          | inl gone ↦ ground (arith, gone)
          | inr (env', at_e) ↦ ground (arith, at_e, outer-other fuel env'.outer y ih)
        ]
      ]

  -- Whoever had the name declared in `d` has it declared there with the new value.
  Declared-assigned :
      (w : Value) (n e : ℕ) → get x bs ≡ some w → Declared s x d w n e → Declared after x d v n e
  Declared-assigned w n e found (here at_e is_bs' found') =
      here {env = rebound env (insert x v bs)} {bs = insert x v bs} (ground arith)
        (holder-rebind env.bindings bs (insert x v bs) is_bs)
        (ground (arith, get-insert x x v bs, eq_iff x x))
  Declared-assigned w n e found
        (outward {n = m} {env = env'} {bs = bs'} at_e is_bs' missing out rest) =
      outward {env = env'} {bs = bs'} stays is_bs' missing out (Declared-assigned w m _ found rest)
    where
      stays : after.envs e ≡ some env'
      stays = elim (Bool-cases (d == e)) [
        | inr apart ↦ ground (arith, at_e)
        | inl same ↦
            let at_e' : s.envs e ≡ some env = ap s.envs (ground arith) ∙ at_d in
            absurd (ground (arith, at_e', at_e, is_bs, is_bs', missing, found))
      ]

-- If, looked up from `e`, the name `x` is declared in `d`, records only in between, then assigning an
-- initialized value to it from `e` succeeds. From every environment from which `x` is declared in
-- `d` it then reads as that value; and every other name reads as before from everywhere.
pub get_value-set_value :
    (s : Store) (x : String) (d : ℕ) (w v : Value) (n e m e' fuel fuel' : ℕ)
    → Declared s x d w n e
    → Declared s x d w m e'
    → n < fuel
    → m < fuel'
    → value_eq v uninitialized ≡ false
    → (s' : Store) × (set_value fuel s e x v ≡ ok s')
      × (get_value fuel' s' e' x ≡ ok v)
      × ((y : String) (k c : ℕ) → str_eq x y ≡ false → get_value k s' c y ≡ get_value k s c y)
get_value-set_value s x d w v n e m e' fuel fuel' dec dec' lt lt' init =
    let (env, bs, at_d, is_bs, found, sets) = set_value-Declared s x d w n e fuel v dec lt in
    let dec'' = Declared-assigned s x d env bs v at_d is_bs w m e' found dec' in
    (
      assigned s d env bs x v,
      sets,
      ground (arith, get_value-Declared (assigned s d env bs x v) x d v m e' fuel' dec'' lt', init),
      λ y k c other. get_value-other s x d env bs v at_d is_bs y k c other,
    )
