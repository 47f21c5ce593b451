-- ===== src/Objects/Edits.antt =====
-- What `DatabaseView` and the accessors of `DatabaseObject` in core/object_database.py do to an
-- object, and how they keep the indices. A Python exception is `none`.
use test_looper.Common.{
  ℕ, not, Option, none, some, List, [], ◌∷◌, ◌++◌, ◌==◌, if◌then◌else◌, elem, keep, Assoc, get_key,
  has_key, put_key,
}
use test_looper.Objects.{
  value, present, identities, data_key, exists_key, index_key, View, same_value, get_dbkey, write,
  cell_identities, get_fields, get_identities,
}

-- `algebraic.default_initialize` and `algebraic.coerce_instance` at a field's type, and the class's
-- fields and indices. An index function reads the object that it is given through its fields.
pub record Class (V : Type 0) : Type 0 where
  pub types : List ℕ
  pub indices : Assoc ((ℕ → Option V) → Option ℕ)
  pub default_initialize : ℕ → Option V
  pub coerce_instance : ℕ → V → Option V

module _ {V : Type 0} where
  -- `_compute_index_vals`, with `.get(index_name, None)` as the result's application
  abbrev pub compute_index_vals : Class V → ℕ → View V → ℕ → Option ℕ
  compute_index_vals cls o view name = elim (get_key cls.indices name) [
    | none ↦ none
    | some index_fun ↦ index_fun (get_fields o view)
  ]

  -- The first half of the loop's body in `_update_indices`.
  abbrev pub leave_index : ℕ → Option ℕ → ℕ → View V → View V
  leave_index name none o view = view
  leave_index name (some cur) o view =
      write (index_key name cur)
        (some (identities (keep (λ x. not (x == o)) (get_identities (index_key name cur) view))))
        view

  -- The second half.
  abbrev pub join_index : ℕ → Option ℕ → ℕ → View V → View V
  join_index name none o view = view
  join_index name (some new) o view =
      write (index_key name new)
        (some (identities (get_identities (index_key name new) view ++ o ∷ []))) view

  unfoldable pub update_index : ℕ → Option ℕ → Option ℕ → ℕ → View V → View V
  update_index name cur new o view =
      if same_value cur new then view else join_index name new o (leave_index name cur o view)

  -- `_update_indices`
  unfoldable pub update_indices :
      {A : Type 0} → Assoc A → ℕ → (cur new : ℕ → Option ℕ) → View V → View V
  unfolding update_index
  update_indices [] o cur new view = view
  update_indices ((name, _) ∷ indices) o cur new view =
      update_indices indices o cur new (update_index name (cur name) (new name) o view)

  -- `_set`, on a writeable view
  unfoldable pub set_field : Class V → ℕ → ℕ → V → View V → View V
  unfolding update_indices
  set_field cls o field val view =
      let written = write (data_key o field) (some (value val)) view in
      update_indices cls.indices o (compute_index_vals cls o view)
        (compute_index_vals cls o written) written

  -- `DatabaseObject.__setattr__`
  unfoldable pub set_attr : Class V → ℕ → ℕ → V → View V → Option (View V)
  unfolding set_field
  set_attr cls o field val view =
      if elem field cls.types
      then elim (cls.coerce_instance field val) [
        | none ↦ none
        | some coerced ↦
            if view.is_writeable then some (set_field cls o field coerced view) else none
      ]
      else none

  abbrev pub erase_fields : List ℕ → ℕ → View V → View V
  erase_fields [] o view = view
  erase_fields (name ∷ names) o view = erase_fields names o (write (data_key o name) none view)

  -- `_delete`, which does not ask whether the view is writeable
  unfoldable pub delete_object : Class V → ℕ → View V → View V
  unfolding update_indices
  delete_object cls o view =
      update_indices cls.indices o (compute_index_vals cls o view) (λ name. none)
        (write (exists_key o) none (erase_fields cls.types o view))

  -- The first loop of `_new`: the defaults of the fields that are not given.
  abbrev pub with_defaults : Class V → List ℕ → Assoc V → Option (Assoc V)
  with_defaults cls [] kwds = some kwds
  with_defaults cls (name ∷ names) kwds =
      if has_key kwds name
      then with_defaults cls names kwds
      else elim (cls.default_initialize name) [
        | none ↦ none
        | some val ↦ with_defaults cls names (put_key kwds name val)
      ]

  -- The second loop: the fields are coerced and written.
  abbrev pub write_fields : Class V → Assoc V → ℕ → View V → Option (View V)
  write_fields cls [] o view = some view
  write_fields cls ((name, val) ∷ kwds) o view =
      if elem name cls.types
      then elim (cls.coerce_instance name val) [
        | none ↦ none
        | some coerced ↦
            write_fields cls kwds o (write (data_key o name) (some (value coerced)) view)
      ]
      else none

  -- The body of the third loop, for an index value.
  abbrev pub enter_index : ℕ → Option ℕ → ℕ → View V → View V
  enter_index name none o view = view
  enter_index name (some val) o view =
      let key = index_key name val in
      let existing : List ℕ = elim (view.writes key) [
        | some written ↦ cell_identities written
        | none ↦ cell_identities (get_dbkey key view)
      ] in
      write key (some (identities (existing ++ o ∷ []))) view

  unfoldable pub enter_indices : Assoc ((ℕ → Option V) → Option ℕ) → ℕ → View V → View V
  enter_indices [] o view = view
  enter_indices ((name, index_fun) ∷ indices) o view =
      enter_indices indices o (enter_index name (index_fun (get_fields o view)) o view)

  -- `_new` for the identity `o`
  unfoldable pub new_object : Class V → ℕ → Assoc V → View V → Option (View V)
  unfolding enter_indices
  new_object cls o kwds view =
      if view.is_writeable
      then elim (with_defaults cls cls.types kwds) [
        | none ↦ none
        | some kwds ↦ elim (write_fields cls kwds o view) [
          | none ↦ none
          | some written ↦
              some (enter_indices cls.indices o (write (exists_key o) (some present) written))
        ]
      ]
      else none

  -- `indexLookup`
  unfoldable pub index_lookup : Class V → ℕ → ℕ → View V → Option (List ℕ)
  index_lookup cls name val view =
      if has_key cls.indices name then some (get_identities (index_key name val) view) else none

  -- `indexLookupAny`: `some none` is the None that it returns.
  unfoldable pub index_lookup_any : Class V → ℕ → ℕ → View V → Option (Option ℕ)
  index_lookup_any cls name val view =
      if has_key cls.indices name
      then elim (get_identities (index_key name val) view) [
        | [] ↦ some none
        | o ∷ _ ↦ some (some o)
      ]
      else none

  -- `indexLookupOne`
  unfoldable pub index_lookup_one : Class V → ℕ → ℕ → View V → Option ℕ
  unfolding index_lookup
  index_lookup_one cls name val view = elim (index_lookup cls name val view) [
    | none ↦ none
    | some [] ↦ none
    | some (o ∷ []) ↦ some o
    | some (_ ∷ _ ∷ _) ↦ none
  ]
