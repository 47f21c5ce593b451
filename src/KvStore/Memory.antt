-- ===== src/KvStore/Memory.antt =====
-- core/InMemoryJsonStore.py. `json.dumps` and `json.loads` are the section's parameters. An exception is
-- `none`.
use mathlib.Core.Option
use test_looper.Common.{
  ℕ, ◌≡◌, inl, inr, Bool-cases, Option-cases, ==_iff, refl, ◌∙◌, ap, Bool, true, false, Option,
  none, some, List, [], ◌∷◌, arith, ◌==◌, if◌then◌else◌, Map, update,
}
use test_looper.KvStore.{KvStore, last_write}

is_present : {S : Type 0} → Option S → Bool
is_present none = false
is_present (some _) = true

-- `exists`, and the test `key in self.values`
unfoldable pub exists : {S : Type 0} → Map S → ℕ → Bool
unfolding is_present
exists values key = is_present (values key)

-- `del self.values[key]`, a KeyError where the key is not there
unfoldable pub del_item : {S : Type 0} → Map S → ℕ → Option (Map S)
del_item values key = elim (values key) [ none ↦ none | some v ↦ some (update values key none) ]

unfoldable pub delete : {S : Type 0} → Map S → ℕ → Option (Map S)
unfolding exists del_item
delete values key = if exists values key then del_item values key else some values

module _ {J S : Type 0} (dumps : J → S) (loads : S → J) where
  -- `values` is the whole state; the lock makes each operation one step.
  unfoldable pub get : Map S → ℕ → Option J
  get values key = Option.map loads (values key)

  unfoldable pub set : Map S → ℕ → Option J → Option (Map S)
  unfolding exists del_item
  set values key none = if exists values key then del_item values key else some values
  set values key (some value) = some (update values key (some (dumps value)))

  unfoldable pub set_several : Map S → List (ℕ × Option J) → Option (Map S)
  unfolding set
  set_several values [] = some values
  set_several values ((k, v) ∷ kvs) = elim (set values k v) [
    | none ↦ none
    | some values' ↦ set_several values' kvs
  ]

module _ {J S : Type 0} (dumps : J → S) (loads : S → J)
    (round : (v : J) → loads (dumps v) ≡ v) where
  -- The deletion behind the guard raises nothing, and takes out the key alone.
  get-del_item :
      (values : Map S) (key : ℕ)
      → (values' : Map S) × ((if exists values key then del_item values key else some values)
          ≡ some values')
        × ((k : ℕ) → values' k ≡ (if k == key then none else values k))
  unfolding exists del_item
  get-del_item values key = elim (Option-cases (values key)) [
    | inl gone ↦ (
      values,
      ground (arith, gone),
      λ k. elim (Bool-cases (k == key)) [
        | inl here ↦ rw here (ap values ((==_iff k key).0 here) ∙ gone)
        | inr other ↦ rw other refl
      ],
    )
    | inr (v, there) ↦ (update values key none, ground (arith, there), λ k. refl)
  ]

  -- After `set` the key holds the value, None stands for deletion, and other keys are untouched.
  get-set :
      (values : Map S) (key : ℕ) (v : Option J)
      → (values' : Map S) × (set dumps loads values key v ≡ some values')
        × ((k : ℕ) → get dumps loads values' k ≡ (if k == key then v else get dumps loads values k))
  unfolding get set
  get-set values key none =
      let (values', e, at) = get-del_item values key in
      (values', e, λ k. ap (Option.map loads) (at k) ∙ ground arith)
  get-set values key (some v) =
      (update values key (some (dumps v)), refl, λ k. ground (arith, round v))

  -- Where loading undoes dumping, `setSeveral` raises nothing, and after it each key has the last value
  -- that was set for it, None standing for deletion, and the others have what they had.
  pub get-set_several :
      (values : Map S) (kvs : List (ℕ × Option J))
      → (values' : Map S) × (set_several dumps loads values kvs ≡ some values')
        × ((k : ℕ) → get dumps loads values' k ≡ last_write kvs k (get dumps loads values k))
  unfolding set_several
  get-set_several values [] = (values, refl, λ k. refl)
  get-set_several values ((j, v) ∷ kvs) =
      let (values₁, e₁, at₁) = get-set values j v in
      let (values₂, e₂, at₂) = get-set_several values₁ kvs in
      (
        values₂,
        ap
              (λ x. elim x as (λ y. Option (Map S)) [
                | none ↦ none
                | some values' ↦ set_several dumps loads values' kvs
              ])
              e₁
            ∙ e₂,
        λ k. at₂ k ∙ ap (last_write kvs k) (at₁ k),
      )

  -- The state after `setSeveral`, which raises nothing.
  abbrev pub store_after : Map S → List (ℕ × Option J) → Map S
  store_after values kvs = elim (set_several dumps loads values kvs) [
    | none ↦ values
    | some values' ↦ values'
  ]

  pub get-store_after :
      (values : Map S) (kvs : List (ℕ × Option J)) (k : ℕ)
      → get dumps loads (store_after values kvs) k ≡ last_write kvs k (get dumps loads values k)
  get-store_after values kvs k =
      let (values', e, at) = get-set_several values kvs in
      ap
        (λ x.
          get dumps loads (elim x as (λ y. Map S) [ none ↦ values | some values'' ↦ values'' ]) k)
        e
      ∙ at k

  -- The interface that the database takes.
  abbrev pub memory_store : KvStore J
  memory_store = record {
    Store = Map S;
    get = get dumps loads;
    set_several = store_after;
    get-set_several = get-store_after;
  }

  -- `delete` raises nothing, whether the key is there or not: after it the key does not exist and `get` gives
  -- None for it, every other key exists as before with the same value, and it does what `set` does with None.
  pub exists-delete :
      (values : Map S) (key : ℕ)
      → (values' : Map S) × (delete values key ≡ some values')
        × ((k : ℕ) → exists values' k ≡ (if k == key then false else exists values k))
        × ((k : ℕ)
            → get dumps loads values' k ≡ (if k == key then none else get dumps loads values k))
        × (set dumps loads values key none ≡ some values')
  unfolding delete exists get set
  exists-delete values key =
      let (values', e, at) = get-del_item values key in
      (
        values',
        e,
        λ k. ap is_present (at k) ∙ ground arith,
        λ k. ap (Option.map loads) (at k) ∙ ground arith,
        e,
      )
