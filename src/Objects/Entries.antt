-- ===== src/Objects/Entries.antt =====
-- What the edits of core/object_database.py do to the entries of an index: how often each object
-- stands under each value.
use test_looper.Common.{
  ℕ, ◌+◌, ◌≡◌, refl, sym, ap, subst, ◌∙◌, Bool, true, false, not, ◌&&◌, inl, inr, Option, none,
  some, List, [], ◌∷◌, ◌++◌, arith, ◌==◌, if◌then◌else◌, keep, Assoc, has_key, keys, Distinct,
  Bool-cases, All, ==_iff, ==_refl, has_key-elem,
}
use test_looper.Objects.{
  Cell, identities, index_key, View, same_value, write, cell_identities, get_fields, exists_object,
  get_identities,
}
use test_looper.Objects.Edits.{
  leave_index, join_index, update_index, update_indices, enter_index, enter_indices,
}

abbrev pub occurs : ℕ → List ℕ → ℕ
occurs o [] = 0
occurs o (x ∷ xs) = (if x == o then 1 else 0) + occurs o xs

-- How often an object with the index value `entry` is to stand under `v`.
abbrev pub tally : Option ℕ → ℕ → ℕ
tally none v = 0
tally (some w) v = if w == v then 1 else 0

pub occurs-snoc :
    (o : ℕ) (xs : List ℕ) (x : ℕ)
    → occurs o (xs ++ x ∷ []) ≡ occurs o xs + (if x == o then 1 else 0)
occurs-snoc o [] x = omega arith
occurs-snoc o (y ∷ xs) x = omega (arith, occurs-snoc o xs x)

pub occurs-keep :
    (o : ℕ) (xs : List ℕ) (x : ℕ)
    → occurs o (keep (λ y. not (y == x)) xs) ≡ (if x == o then 0 else occurs o xs)
occurs-keep o [] x = ground arith
occurs-keep o (y ∷ xs) x = ground (arith, occurs-keep o xs x)

tally-same : (cur new : Option ℕ) (v : ℕ) → same_value cur new ≡ true → tally cur v ≡ tally new v
tally-same none none v e = refl
tally-same none (some n) v e = absurd (ground (arith, e))
tally-same (some c) none v e = absurd (ground (arith, e))
tally-same (some c) (some n) v e = ground (arith, e)

tally-value : (cur : Option ℕ) (v : ℕ) → tally cur v ≡ (if same_value cur (some v) then 1 else 0)
tally-value none v = refl
tally-value (some c) v = refl

module _ {V : Type 0} where
  -- The entries for an object under a value of an index.
  abbrev pub entries : View V → ℕ → ℕ → ℕ → ℕ
  entries view name v o = occurs o (get_identities (index_key name v) view)

  cell_identities-if :
      (here : Bool) (os : List ℕ) (written : Option (Option (Cell V))) (stored : Option (Cell V))
      → cell_identities
          (elim (if here then some (some (identities os)) else written) as (λ x. Option (Cell V)) [
            | some cell ↦ cell
            | none ↦ stored
          ])
        ≡ (if here
            then os
            else cell_identities
                (elim written as (λ x. Option (Cell V)) [ some cell ↦ cell | none ↦ stored ]))
  cell_identities-if true os written stored = refl
  cell_identities-if false os written stored = refl

  get_identities-write :
      (i w : ℕ) (os : List ℕ) (view : View V) (name v : ℕ)
      → get_identities (index_key name v) (write (index_key i w) (some (identities os)) view)
        ≡ (if i == name && w == v then os else get_identities (index_key name v) view)
  get_identities-write i w os view name v =
      cell_identities-if (i == name && w == v) os (view.writes (index_key name v))
        (view.db (index_key name v))

  get_identities-same :
      (view : View V) (i w name v : ℕ)
      → i == name && w == v ≡ true
      → get_identities (index_key i w) view ≡ get_identities (index_key name v) view
  get_identities-same view i w name v here =
      let name_same : i ≡ name = ground (arith, here) in
      let value_same : w ≡ v = ground (arith, here) in
      subst (λ n. get_identities (index_key i w) view ≡ get_identities (index_key n v) view)
        name_same (ap (λ n. get_identities (index_key i n) view) value_same)

  -- The entries after a list is written.
  entries-write :
      (i w : ℕ) (os : List ℕ) (view : View V) (name v o : ℕ)
      → entries (write (index_key i w) (some (identities os)) view) name v o
        ≡ (if i == name && w == v then occurs o os else entries view name v o)
  entries-write i w os view name v o =
      ap (occurs o) (get_identities-write i w os view name v)
      ∙ elim (Bool-cases (i == name && w == v)) [
        | inl here ↦ ground (arith, here)
        | inr away ↦ ground (arith, away)
      ]

  entries-leave_index :
      (name : ℕ) (cur : Option ℕ) (o : ℕ) (view : View V) (i v p : ℕ)
      → entries (leave_index name cur o view) i v p
        ≡ (if name == i && same_value cur (some v) && o == p then 0 else entries view i v p)
  entries-leave_index name none o view i v p = elim (Bool-cases (name == i)) [
    | inl e ↦ rw e refl
    | inr e ↦ rw e refl
  ]
  entries-leave_index name (some w) o view i v p =
      let os = get_identities (index_key name w) view in
      let written = entries-write name w (keep (λ x. not (x == o)) os) view i v p in
      elim (Bool-cases (name == i && w == v)) [
        | inl here ↦ ground (
          arith,
          here,
          written,
          occurs-keep p os o,
          ap (occurs p) (get_identities-same view name w i v here),
        )
        | inr away ↦ ground (arith, away, written)
      ]

  entries-join_index :
      (name : ℕ) (new : Option ℕ) (o : ℕ) (view : View V) (i v p : ℕ)
      → entries (join_index name new o view) i v p
        ≡ entries view i v p + (if name == i && o == p then tally new v else 0)
  entries-join_index name none o view i v p = ground arith
  entries-join_index name (some w) o view i v p =
      let os = get_identities (index_key name w) view in
      let written = entries-write name w (os ++ o ∷ []) view i v p in
      elim (Bool-cases (name == i && w == v)) [
        | inl here ↦ ground (
          arith,
          here,
          written,
          occurs-snoc p os o,
          ap (occurs p) (get_identities-same view name w i v here),
        )
        | inr away ↦ ground (arith, away, written)
      ]

  -- One index: the object's entries turn from those of the value `cur` into those of `new`.
  entries-update_index :
      (name : ℕ) (cur new : Option ℕ) (o : ℕ) (view : View V)
      → ((v : ℕ) → entries view name v o ≡ tally cur v)
      → (i v p : ℕ)
      → entries (update_index name cur new o view) i v p
        ≡ (if name == i && o == p then tally new v else entries view i v p)
  unfolding update_index
  entries-update_index name cur new o view before i v p =
      let left = entries-leave_index name cur o view i v p in
      let joined = entries-join_index name new o (leave_index name cur o view) i v p in
      let at : name == i && o == p ≡ true → entries view i v p ≡ tally cur v = λ here.
        let same_name : name ≡ i = ground (arith, here) in
        let same_object : o ≡ p = ground (arith, here) in
        ap (λ n. entries view n v p) (sym same_name)
        ∙ ap (λ q. entries view name v q) (sym same_object)
        ∙ before v in
      elim (Bool-cases (same_value cur new)) [
        | inl same ↦ elim (Bool-cases (name == i && o == p)) [
          | inl here ↦ rw (same, here) (at here ∙ tally-same cur new v same)
          | inr away ↦ rw (same, away) refl
        ]
        | inr other ↦ elim (Bool-cases (name == i && o == p)) [
          | inl here ↦ rw other (joined ∙ ground (arith, left, here, at here, tally-value cur v))
          | inr away ↦ rw other (joined ∙ ground (arith, left, away))
        ]
      ]

  update_index-keeps :
      (name : ℕ) (cur new : Option ℕ) (o : ℕ) (view : View V) (p : ℕ)
      → (get_fields p (update_index name cur new o view) ≡ get_fields p view)
        × (exists_object p (update_index name cur new o view) ≡ exists_object p view)
  unfolding update_index
  update_index-keeps name none none o view p = (refl, refl)
  update_index-keeps name none (some n) o view p = (refl, refl)
  update_index-keeps name (some c) none o view p = (refl, refl)
  update_index-keeps name (some c) (some n) o view p = elim (Bool-cases (c == n)) [
    | inl e ↦ rw e (refl, refl)
    | inr e ↦ rw e (refl, refl)
  ]

module _ {V : Type 0} {A : Type 0} where
  pub update_indices-keeps :
      (indices : Assoc A) (o : ℕ) (cur new : ℕ → Option ℕ) (view : View V) (p : ℕ)
      → (get_fields p (update_indices indices o cur new view) ≡ get_fields p view)
        × (exists_object p (update_indices indices o cur new view) ≡ exists_object p view)
  unfolding update_indices
  update_indices-keeps [] o cur new view p = (refl, refl)
  update_indices-keeps ((name, a) ∷ indices) o cur new view p =
      let one = update_index-keeps name (cur name) (new name) o view p in
      let rest =
        update_indices-keeps indices o cur new (update_index name (cur name) (new name) o view) p in
      (rest.0 ∙ one.0, rest.1 ∙ one.1)

  -- All indices: the entries of the object turn from those of `cur` into those of `new`, and no
  -- other entries change.
  pub entries-update_indices :
      (indices : Assoc A) (o : ℕ) (cur new : ℕ → Option ℕ) (view : View V)
      → Distinct (keys indices)
      → ((name v : ℕ) → has_key indices name ≡ true → entries view name v o ≡ tally (cur name) v)
      → (i v p : ℕ)
      → entries (update_indices indices o cur new view) i v p
        ≡ (if has_key indices i && o == p then tally (new i) v else entries view i v p)
  unfolding update_indices
  entries-update_indices [] o cur new view d before i v p = refl
  entries-update_indices ((name, a) ∷ indices) o cur new view d before i v p =
      let fresh = has_key-elem indices name ∙ d.0 in
      let here =
        entries-update_index name (cur name) (new name) o view
          (λ v. before name v (rw (==_refl name) refl)) in
      let kept : (n v : ℕ)
          → has_key indices n ≡ true
          → entries (update_index name (cur name) (new name) o view) n v o ≡ tally (cur n) v =
        λ n v has. elim (Bool-cases (name == n)) [
          | inl same ↦
              absurd (ground (arith, fresh, has, ap (has_key indices) ((==_iff name n).0 same)))
          | inr other ↦ ground (arith, here n v o, other, before n v (ground (arith, has, other)))
        ] in
      let rest =
        entries-update_indices indices o cur new (update_index name (cur name) (new name) o view)
          d.1 kept i v p in
      elim (Bool-cases (name == i)) [
        | inl same ↦ ground (
          arith,
          rest,
          here i v p,
          same,
          fresh,
          ap (has_key indices) ((==_iff name i).0 same),
          ap (λ n. tally (new n) v) ((==_iff name i).0 same),
        )
        | inr other ↦ ground (arith, rest, here i v p, other)
      ]

existing-cell :
    {V : Type 0} (written : Option (Option (Cell V))) (stored : Option (Cell V))
    → elim written as (λ x. List ℕ) [
      | some cell ↦ cell_identities cell
      | none ↦
          cell_identities
            (elim written as (λ x. Option (Cell V)) [ some cell ↦ cell | none ↦ stored ])
    ]
      ≡ cell_identities
          (elim written as (λ x. Option (Cell V)) [ some cell ↦ cell | none ↦ stored ])
existing-cell none stored = refl
existing-cell (some cell) stored = refl

-- The loop of `_new` is the one of `_update_indices` for an object that had no index values.
enter_index_lem :
    {V : Type 0} (name : ℕ) (new : Option ℕ) (o : ℕ) (view : View V)
    → enter_index name new o view ≡ update_index name none new o view
unfolding update_index
enter_index_lem name none o view = refl
enter_index_lem name (some n) o view =
    ap (λ os. write (index_key name n) (some (identities (os ++ o ∷ []))) view)
      (existing-cell (view.writes (index_key name n)) (view.db (index_key name n)))

pub enter_indices_lem :
    {V : Type 0} (indices : Assoc ((ℕ → Option V) → Option ℕ)) (o : ℕ) (new : ℕ → Option ℕ)
    (view : View V) (fields : ℕ → Option V)
    → get_fields o view ≡ fields
    → All (λ e. e.1 fields ≡ new e.0) indices
    → enter_indices indices o view ≡ update_indices indices o (λ name. none) new view
unfolding enter_indices update_indices
enter_indices_lem [] o new view fields same given = refl
enter_indices_lem ((name, index_fun) ∷ indices) o new view fields same given =
    let step : enter_index name (index_fun (get_fields o view)) o view
        ≡ update_index name none (new name) o view =
      ap (λ x. enter_index name x o view) (ap index_fun same ∙ given.0)
      ∙ enter_index_lem name (new name) o view in
    ap (enter_indices indices o) step
    ∙ enter_indices_lem indices o new (update_index name none (new name) o view) fields
        ((update_index-keeps name none (new name) o view o).0 ∙ same) given.1
