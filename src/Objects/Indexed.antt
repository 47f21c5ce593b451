-- ===== src/Objects/Indexed.antt =====
-- The indices of core/object_database.py stay right: over any run of edits each lists exactly the
-- objects that have a value of it.
use test_looper.Common.{
  Distinct-get_key, ℕ, ◌≤◌, ◌⊎◌, ◌≡◌, ◌≢◌, refl, sym, ap, subst, ◌∙◌, true, false, inl, inr, Option,
  none, some, List, [], ◌∷◌, arith, ◌==◌, if◌then◌else◌, Assoc, has_key, keys, elem, Distinct, All,
  Bool-cases, Option-cases, ==_iff, All-map,
}
use test_looper.Objects.{
  value, present, data_key, exists_key, index_key, View, get_dbkey, write, get_fields,
  exists_object, get_identities,
}
use test_looper.Objects.Edits.{
  Class, compute_index_vals, set_field, set_attr, erase_fields, delete_object, write_fields,
  with_defaults, enter_indices, new_object, index_lookup, index_lookup_any,
}
use test_looper.Objects.Entries.{occurs, tally, entries, enter_indices_lem}
use test_looper.Objects.Edited.{
  index_val, IsIndexed, exists_object-write, write-Edited, exists_key-Edited, Edited-trans,
  erase_fields-Edited, write_fields-Edited, Edited-IsIndexed,
}

tally_pos : (val : Option ℕ) (v : ℕ) → 1 ≤ tally val v → val ≡ some v
tally_pos none v h = absurd (ground (arith, h))
tally_pos (some w) v h = elim (Bool-cases (w == v)) [
  | inl same ↦ ap some ((==_iff w v).0 same)
  | inr other ↦ absurd (ground (arith, other, h))
]

module _ {V : Type 0} where
  -- A store that holds nothing.
  abbrev pub empty_view : View V
  empty_view = record { db = λ k. none; writes = λ k. none; is_writeable = true }

  -- The views of transactions that one after the other create objects, set and delete those that
  -- exist, and commit.
  pub data Runs (cls : Class V) : View V → Type 0 where
    fresh : Runs cls empty_view
    creates :
        {view view' : View V} (o : ℕ) (kwds : Assoc V)
        → Runs cls view
        → exists_object o view ≡ false
        → new_object cls o kwds view ≡ some view'
        → Runs cls view'
    sets :
        {view view' : View V} (o field : ℕ) (val : V)
        → Runs cls view
        → exists_object o view ≡ true
        → set_attr cls o field val view ≡ some view'
        → Runs cls view'
    deletes :
        {view : View V} (o : ℕ)
        → Runs cls view
        → exists_object o view ≡ true
        → Runs cls (delete_object cls o view)
    commits :
        {view : View V}
        → Runs cls view
        → Runs cls (record { db = λ k. get_dbkey k view; writes = λ k. none; is_writeable = true })

  set_field-IsIndexed :
      (cls : Class V) (o field : ℕ) (val : V) (view : View V)
      → Distinct (keys cls.indices)
      → exists_object o view ≡ true
      → IsIndexed cls view
      → IsIndexed cls (set_field cls o field val view)
  unfolding set_field
  set_field-IsIndexed cls o field val view d there ok =
      let written = write (data_key o field) (some (value val)) view in
      Edited-IsIndexed cls o view written (compute_index_vals cls o view)
        (compute_index_vals cls o written) d ok (write-Edited cls o field (some (value val)) view)
        (λ name has. rw there refl) (λ name has. rw there refl)

  delete_object-IsIndexed :
      (cls : Class V) (o : ℕ) (view : View V)
      → Distinct (keys cls.indices)
      → exists_object o view ≡ true
      → IsIndexed cls view
      → IsIndexed cls (delete_object cls o view)
  unfolding delete_object
  delete_object-IsIndexed cls o view d there ok =
      let erased = erase_fields cls.types o view in
      let gone = write (exists_key o) none erased in
      Edited-IsIndexed cls o view gone (compute_index_vals cls o view) (λ name. none) d ok
        (Edited-trans cls o view erased gone (erase_fields-Edited cls cls.types o view)
          (exists_key-Edited cls o none erased))
        (λ name has. rw there refl)
        (λ name has.
          ap (λ b. if b then compute_index_vals cls o gone name else none)
            (sym (exists_object-write o none erased)))

  new_object-IsIndexed :
      (cls : Class V) (o : ℕ) (kwds : Assoc V) (view view' : View V)
      → Distinct (keys cls.indices)
      → exists_object o view ≡ false
      → IsIndexed cls view
      → new_object cls o kwds view ≡ some view'
      → IsIndexed cls view'
  unfolding new_object
  new_object-IsIndexed cls o kwds view view' d missing ok h = elim (Bool-cases view.is_writeable) [
    | inr closed ↦ absurd (ground (arith, closed, h))
    | inl writes ↦ elim (Option-cases (with_defaults cls cls.types kwds)) [
      | inl e ↦ absurd (ground (arith, writes, e, h))
      | inr (given, e) ↦ elim (Option-cases (write_fields cls given o view)) [
        | inl f ↦ absurd (ground (arith, writes, e, f, h))
        | inr (written, f) ↦
            let made = write (exists_key o) (some present) written in
            let eq : enter_indices cls.indices o made ≡ view' = ground (arith, writes, e, f, h) in
            let vals = compute_index_vals cls o made in
            let given_vals : All (λ x. x.1 (get_fields o made) ≡ vals x.0) cls.indices =
              All-map cls.indices
                (λ x found.
                  ap
                    (λ f. elim f as (λ y. Option ℕ) [
                      | none ↦ none
                      | some index_fun ↦ index_fun (get_fields o made)
                    ])
                    (sym found))
                (Distinct-get_key cls.indices d) in
            let entered =
              enter_indices_lem cls.indices o vals made (get_fields o made) refl given_vals in
            let edited =
              Edited-trans cls o view written made (write_fields-Edited cls given o view written f)
                (exists_key-Edited cls o (some present) written) in
            subst (IsIndexed cls) (sym entered ∙ eq) (
              Edited-IsIndexed cls o view made (λ name. none) vals d ok edited
                (λ name has. rw missing refl)
                (λ name has.
                  ap (λ b. if b then vals name else none)
                    (sym (exists_object-write o (some present) written))))
      ]
    ]
  ]

  set_attr-IsIndexed :
      (cls : Class V) (o field : ℕ) (val : V) (view view' : View V)
      → Distinct (keys cls.indices)
      → exists_object o view ≡ true
      → IsIndexed cls view
      → set_attr cls o field val view ≡ some view'
      → IsIndexed cls view'
  unfolding set_attr
  set_attr-IsIndexed cls o field val view view' d there ok h =
      elim (Bool-cases (elem field cls.types)) [
        | inr unknown ↦ absurd (ground (arith, unknown, h))
        | inl known ↦ elim (Option-cases (cls.coerce_instance field val)) [
          | inl e ↦ absurd (ground (arith, known, e, h))
          | inr (coerced, e) ↦ elim (Bool-cases view.is_writeable) [
            | inr closed ↦ absurd (ground (arith, known, e, closed, h))
            | inl writes ↦
                let eq : set_field cls o field coerced view ≡ view' =
                  ground (arith, known, e, writes, h) in
                subst (IsIndexed cls) eq (set_field-IsIndexed cls o field coerced view d there ok)
          ]
        ]
      ]

  -- Every run of transactions keeps the indices right: each object stands once under its value of
  -- each index, and nowhere else.
  Runs-IsIndexed :
      (cls : Class V) (view : View V)
      → Distinct (keys cls.indices)
      → Runs cls view
      → IsIndexed cls view
  Runs-IsIndexed cls _ d fresh = λ name v o has. refl
  Runs-IsIndexed cls _ d (creates {view} {view'} o kwds r missing h) =
      new_object-IsIndexed cls o kwds view view' d missing (Runs-IsIndexed cls view d r) h
  Runs-IsIndexed cls _ d (sets {view} {view'} o field val r there h) =
      set_attr-IsIndexed cls o field val view view' d there (Runs-IsIndexed cls view d r) h
  Runs-IsIndexed cls _ d (deletes {view} o r there) =
      delete_object-IsIndexed cls o view d there (Runs-IsIndexed cls view d r)
  Runs-IsIndexed cls _ d (commits {view} r) = Runs-IsIndexed cls view d r

  -- In the view of every run of transactions that create objects which do not exist, and set or
  -- delete objects that do, `indexLookup` at an index of the class lists an object exactly once if
  -- the object exists and has the asked value, and does not list it otherwise.
  pub index_lookup-Runs :
      (cls : Class V) (view : View V) (name v : ℕ)
      → Distinct (keys cls.indices)
      → has_key cls.indices name ≡ true
      → Runs cls view
      → (os : List ℕ) × (index_lookup cls name v view ≡ some os)
        × ((o : ℕ) → occurs o os ≡ tally (index_val cls view name o) v)
  unfolding index_lookup
  index_lookup-Runs cls view name v d has r = (
    get_identities (index_key name v) view,
    rw has refl,
    λ o. Runs-IsIndexed cls view d r name v o has,
  )

  -- In the view of every run of transactions that create objects which do not exist, and set or
  -- delete objects that do, `indexLookupAny` at an index of the class gives an object that exists and has the value, or
  -- None if there is no such object.
  pub index_lookup_any-Runs :
      (cls : Class V) (view : View V) (name v : ℕ)
      → Distinct (keys cls.indices)
      → has_key cls.indices name ≡ true
      → Runs cls view
      → ((index_lookup_any cls name v view ≡ some none)
          × ((o : ℕ) → index_val cls view name o ≢ some v))
        ⊎ ((o : ℕ) × (index_lookup_any cls name v view ≡ some (some o))
            × (index_val cls view name o ≡ some v))
  unfolding index_lookup_any
  index_lookup_any-Runs cls view name v d has r = find (get_identities (index_key name v) view) refl
    where
      at : (o : ℕ) → entries view name v o ≡ tally (index_val cls view name o) v
      at o = Runs-IsIndexed cls view d r name v o has

      find :
          (os : List ℕ)
          → get_identities (index_key name v) view ≡ os
          → ((index_lookup_any cls name v view ≡ some none)
              × ((o : ℕ) → index_val cls view name o ≢ some v))
            ⊎ ((o : ℕ) × (index_lookup_any cls name v view ≡ some (some o))
                × (index_val cls view name o ≡ some v))
      find [] e = inl (
        rw (has, e) refl,
        λ o h. absurd (ground (arith, at o, ap (occurs o) e, ap (λ x. tally x v) h)),
      )
      find (o ∷ os) e = inr (
        o,
        rw (has, e) refl,
        tally_pos (index_val cls view name o) v (ground (arith, at o, ap (occurs o) e)),
      )
