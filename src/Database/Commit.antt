-- ===== src/Database/Commit.antt =====
-- `_set_versioned_object_data` of core/object_database.py key by key: what the loops over the
-- writes leave at each key.
use mathlib.Core.Option
use test_looper.Common.{
  ℕ, ◌≡◌, refl, sym, ap, subst, Bool, true, false, Option, none, some, List, [], ◌∷◌, ◌++◌, map,
  inl, inr, arith, ◌==◌, if◌then◌else◌, Bool-cases, ==_iff, Map, update, elem, Distinct,
}
use test_looper.KvStore.{KvStore, last_write}
use test_looper.Database.Versions.{Db, Entry, keep_tails, add_numbers, add_objects}

-- The value that a dict of writes has for a key.
abbrev pub find : {E : Type 0} → List (ℕ × E) → ℕ → Option E
find [] k = none
find ((key, value) ∷ writes) k = if k == key then some value else find writes k

abbrev pub keys_of : {E : Type 0} → List (ℕ × E) → List ℕ
keys_of writes = map (λ w. w.0) writes

-- Case on whether a key is written.
abbrev pub on_found : {E A : Type 0} → Option E → A → (E → A) → A
on_found none old new = old
on_found (some e) old new = new e

unfoldable pub is_found : {E : Type 0} → Option E → Bool
is_found none = false
is_found (some e) = true

pub elem-keys_of :
    {E : Type 0} (writes : List (ℕ × E)) (k : ℕ)
    → elem k (keys_of writes) ≡ is_found (find writes k)
unfolding is_found
elem-keys_of [] k = refl
elem-keys_of ((key, value) ∷ writes) k = elim (Bool-cases (k == key)) [
  | inl same ↦ rw same
  | inr other ↦ rw other (elem-keys_of writes k)
]

find-fresh :
    {E : Type 0} (writes : List (ℕ × E)) (k : ℕ)
    → elem k (keys_of writes) ≡ false
    → find writes k ≡ none
find-fresh [] k h = refl
find-fresh ((key, value) ∷ writes) k h = elim (Bool-cases (k == key)) [
  | inl same ↦ ground (arith, same, h)
  | inr other ↦ rw other (find-fresh writes k (ground (arith, other, h)))
]

module _ {E : Type 0} (t : ℕ) where
  pub add_numbers-at :
      (writes : List (ℕ × E)) (numbers : Map (List ℕ)) (k : ℕ)
      → Distinct (keys_of writes)
      → add_numbers t writes numbers k
        ≡ on_found (find writes k) (numbers k) (λ _. some (Option.get_or (numbers k) [] ++ t ∷ []))
  unfolding add_numbers
  add_numbers-at [] numbers k ok = refl
  add_numbers-at ((key, value) ∷ writes) numbers k ok = elim (Bool-cases (k == key)) [
    | inl same ↦
        let e = (==_iff k key).0 same in
        let fresh : find writes k ≡ none =
          find-fresh writes k (subst (λ j. elem j (keys_of writes) ≡ false) (sym e) ok.0) in
        rw (add_numbers-at writes _ k ok.1, fresh, same)
          (ap (λ j. some (Option.get_or (numbers j) [] ++ t ∷ [])) (sym e))
    | inr other ↦ rw (add_numbers-at writes _ k ok.1, other)
  ]

  pub add_objects-at :
      (writes : List (ℕ × E)) (objects : ℕ → Map E) (k : ℕ)
      → Distinct (keys_of writes)
      → add_objects t writes objects k
        ≡ on_found (find writes k) (objects k) (λ e. update (objects k) t (some e))
  unfolding add_objects
  add_objects-at [] objects k ok = refl
  add_objects-at ((key, value) ∷ writes) objects k ok = elim (Bool-cases (k == key)) [
    | inl same ↦
        let e = (==_iff k key).0 same in
        let fresh : find writes k ≡ none =
          find-fresh writes k (subst (λ j. elem j (keys_of writes) ≡ false) (sym e) ok.0) in
        rw (add_objects-at writes _ k ok.1, fresh, same)
          (ap (λ j. update (objects j) t (some value)) (sym e))
    | inr other ↦ rw (add_objects-at writes _ k ok.1, other)
  ]

pub last_write-at :
    {J O : Type 0} (writes : List (ℕ × Entry J O)) (k : ℕ) (old : Option J)
    → Distinct (keys_of writes)
    → last_write (map (λ w. (w.0, w.1.0)) writes) k old ≡ on_found (find writes k) old (λ e. e.0)
last_write-at [] k old ok = refl
last_write-at ((key, value) ∷ writes) k old ok = elim (Bool-cases (k == key)) [
  | inl same ↦
      let fresh : find writes k ≡ none =
        find-fresh writes k
          (subst (λ j. elem j (keys_of writes) ≡ false) (sym ((==_iff k key).0 same)) ok.0) in
      rw (last_write-at writes k _ ok.1, fresh, same)
  | inr other ↦ rw (last_write-at writes k _ ok.1, other)
]

module _ {J O : Type 0} {kv : KvStore J} (db : Db O kv) where
  abbrev pub kept : ℕ → Option (Entry J O) → Option (Entry J O)
  kept k old = elim (db.key_version_numbers k) [
    | none ↦ some (kv.get db.kvstore k, db.object_cache k)
    | some _ ↦ old
  ]

  abbrev with_kept : ℕ → Map (Entry J O) → Map (Entry J O)
  with_kept key tails = elim (db.key_version_numbers key) [
    | none ↦ update tails key (some (kv.get db.kvstore key, db.object_cache key))
    | some _ ↦ tails
  ]

  with_kept_self :
      (key : ℕ) (tails : Map (Entry J O)) → with_kept key tails key ≡ kept key (tails key)
  with_kept_self key tails = ground arith

  with_kept_other :
      (key k : ℕ) (tails : Map (Entry J O)) → (k == key) ≡ false → with_kept key tails k ≡ tails k
  with_kept_other key k tails other = ground (arith, other)

  pub keep_tails-at :
      (writes : List (ℕ × Entry J O)) (tails : Map (Entry J O)) (k : ℕ)
      → Distinct (keys_of writes)
      → keep_tails db writes tails k ≡ on_found (find writes k) (tails k) (λ _. kept k (tails k))
  unfolding keep_tails
  keep_tails-at [] tails k ok = refl
  keep_tails-at ((key, value) ∷ writes) tails k ok = elim (Bool-cases (k == key)) [
    | inl same ↦
        let e = (==_iff k key).0 same in
        let fresh : find writes k ≡ none =
          find-fresh writes k (subst (λ j. elem j (keys_of writes) ≡ false) (sym e) ok.0) in
        rw (keep_tails-at writes _ k ok.1, fresh, same)
          (subst (λ j. with_kept key tails j ≡ kept j (tails j)) (sym e) (with_kept_self key tails))
    | inr other ↦
        rw (keep_tails-at writes _ k ok.1, other)
          (ap (λ o. on_found (find writes k) o (λ _. kept k o)) (with_kept_other key k tails other))
  ]
