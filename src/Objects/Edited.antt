-- ===== src/Objects/Edited.antt =====
-- What an edit of one object in core/object_database.py changes, and why the indices stay right.
use test_looper.Common.{
  ℕ, ◌≡◌, refl, sym, ap, subst, ◌∙◌, Bool, true, false, inl, inr, Option, none, some, List, [], ◌∷◌,
  arith, ◌==◌, if◌then◌else◌, Assoc, get_key, has_key, keys, elem, Distinct, Bool-cases,
  Option-cases, ==_iff, ==_refl,
}
use test_looper.Objects.{
  Cell, value, Key, data_key, exists_key, same_key, View, cell_value, is_cell, get_dbkey, write,
  get_fields, exists_object,
}
use test_looper.Objects.Edits.{
  Class, compute_index_vals, update_indices, erase_fields, write_fields,
}
use test_looper.Objects.Entries.{tally, entries, update_indices-keeps, entries-update_indices}

module _ {V : Type 0} where
  -- The value of an object for an index, none where the object does not exist.
  abbrev pub index_val : Class V → View V → ℕ → ℕ → Option ℕ
  index_val cls view name o =
      if exists_object o view then compute_index_vals cls o view name else none

  -- Each object stands once under its value of each index, and nowhere else.
  abbrev pub IsIndexed : Class V → View V → Type 0
  IsIndexed cls view =
      (name v o : ℕ)
      → has_key cls.indices name ≡ true
      → entries view name v o ≡ tally (index_val cls view name o) v

  -- What an edit of one object has done before the indices are updated.
  pub record Edited (cls : Class V) (o : ℕ) (view view' : View V) : Type 0 where
    pub others : (p : ℕ) → o == p ≡ false → get_fields p view' ≡ get_fields p view
    pub still : (p : ℕ) → o == p ≡ false → exists_object p view' ≡ exists_object p view
    pub lists : (name v p : ℕ) → entries view' name v p ≡ entries view name v p

  pub get_dbkey-write :
      (key other : Key) (cell : Option (Cell V)) (view : View V)
      → same_key key other ≡ false
      → get_dbkey other (write key cell view) ≡ get_dbkey other view
  get_dbkey-write key other cell view away =
      ap
        (λ (b : Bool). elim (if b then some cell else view.writes other) as (λ x. Option (Cell V)) [
          | some cell ↦ cell
          | none ↦ view.db other
        ])
        away

  pub exists_object-write :
      (o : ℕ) (cell : Option (Cell V)) (view : View V)
      → exists_object o (write (exists_key o) cell view) ≡ is_cell cell
  exists_object-write o cell view =
      ap
        (λ (b : Bool).
          is_cell
            (elim (if b then some cell else view.writes (exists_key o)) as (λ x. Option (Cell V)) [
              | some cell ↦ cell
              | none ↦ view.db (exists_key o)
            ]))
        (==_refl o)

  pub index_val-ap :
      (cls : Class V) (view view' : View V) (name o : ℕ)
      → get_fields o view' ≡ get_fields o view
      → exists_object o view' ≡ exists_object o view
      → index_val cls view' name o ≡ index_val cls view name o
  index_val-ap cls view view' name o fields still =
      ap (λ (b : Bool). if b then compute_index_vals cls o view' name else none) still
      ∙ ap
          (λ fs.
            if exists_object o view
            then (elim (get_key cls.indices name) as (λ x. Option ℕ) [
              | none ↦ none
              | some index_fun ↦ index_fun fs
            ])
            else none)
          fields

  pub write-Edited :
      (cls : Class V) (o field : ℕ) (cell : Option (Cell V)) (view : View V)
      → Edited cls o view (write (data_key o field) cell view)
  write-Edited cls o field cell view = record {
    others = λ p away i g.
        cell_value
          (get_dbkey-write (data_key o field) (data_key p g) cell view (ground (arith, away)) i);
    still = λ p away. refl;
    lists = λ name v p. refl;
  }

  pub exists_key-Edited :
      (cls : Class V) (o : ℕ) (cell : Option (Cell V)) (view : View V)
      → Edited cls o view (write (exists_key o) cell view)
  exists_key-Edited cls o cell view = record {
    others = λ p away. refl;
    still = λ p away. ap is_cell (get_dbkey-write (exists_key o) (exists_key p) cell view away);
    lists = λ name v p. refl;
  }

  pub Edited-trans :
      (cls : Class V) (o : ℕ) (view mid view' : View V)
      → Edited cls o view mid
      → Edited cls o mid view'
      → Edited cls o view view'
  Edited-trans cls o view mid view' e f = record {
    others = λ p away. f.others p away ∙ e.others p away;
    still = λ p away. f.still p away ∙ e.still p away;
    lists = λ name v p. f.lists name v p ∙ e.lists name v p;
  }

  pub erase_fields-Edited :
      (cls : Class V) (names : List ℕ) (o : ℕ) (view : View V)
      → Edited cls o view (erase_fields names o view)
  erase_fields-Edited cls [] o view = record {
    others = λ p away. refl;
    still = λ p away. refl;
    lists = λ name v p. refl;
  }
  erase_fields-Edited cls (name ∷ names) o view =
      let first = write (data_key o name) none view in
      Edited-trans cls o view first (erase_fields names o first) (write-Edited cls o name none view)
        (erase_fields-Edited cls names o first)

  pub write_fields-Edited :
      (cls : Class V) (kwds : Assoc V) (o : ℕ) (view view' : View V)
      → write_fields cls kwds o view ≡ some view'
      → Edited cls o view view'
  write_fields-Edited cls [] o view view' h =
      let eq : view ≡ view' = cc in
      subst (Edited cls o view) eq
        (record { others = λ p away. refl; still = λ p away. refl; lists = λ name v p. refl })
  write_fields-Edited cls ((name, val) ∷ kwds) o view view' h =
      elim (Bool-cases (elem name cls.types)) [
        | inr unknown ↦ absurd (ground (arith, unknown, h))
        | inl known ↦ elim (Option-cases (cls.coerce_instance name val)) [
          | inl e ↦ absurd (ground (arith, known, e, h))
          | inr (coerced, e) ↦
              let first = write (data_key o name) (some (value coerced)) view in
              let rest : write_fields cls kwds o first ≡ some view' = ground (arith, known, e, h) in
              Edited-trans cls o view first view'
                (write-Edited cls o name (some (value coerced)) view)
                (write_fields-Edited cls kwds o first view' rest)
        ]
      ]

  -- An edit keeps the indices right where the update turns the entries of the object from its
  -- values before into its values after.
  pub Edited-IsIndexed :
      (cls : Class V) (o : ℕ) (view edited : View V) (cur new : ℕ → Option ℕ)
      → Distinct (keys cls.indices)
      → IsIndexed cls view
      → Edited cls o view edited
      → ((name : ℕ) → has_key cls.indices name ≡ true → cur name ≡ index_val cls view name o)
      → ((name : ℕ) → has_key cls.indices name ≡ true → new name ≡ index_val cls edited name o)
      → IsIndexed cls (update_indices cls.indices o cur new edited)
  Edited-IsIndexed cls o view edited cur new d ok e before after name v p has =
      let updated = update_indices cls.indices o cur new edited in
      let result =
        entries-update_indices cls.indices o cur new edited d
          (λ n w has. e.lists n w o ∙ ok n w o has ∙ ap (λ x. tally x w) (sym (before n has))) name
          v p in
      let keeps = update_indices-keeps cls.indices o cur new edited p in
      let val : index_val cls updated name p ≡ index_val cls edited name p =
        index_val-ap cls edited updated name p keeps.0 keeps.1 in
      elim (Bool-cases (o == p)) [
        | inl here ↦
            let same : o ≡ p = (==_iff o p).0 here in
            ground (
              arith,
              has,
              here,
              result,
              ap (λ x. tally x v) (val ∙ ap (index_val cls edited name) (sym same)),
              ap (λ x. tally x v) (after name has),
            )
        | inr away ↦
            let kept = index_val-ap cls view edited name p (e.others p away) (e.still p away) in
            ground (
              arith,
              away,
              result,
              e.lists name v p,
              ok name v p has,
              ap (λ x. tally x v) (val ∙ kept),
            )
      ]
