-- ===== src/Objects/Tests.antt =====
-- A class with one index, and the theorems of core/object_database.py's views at a run over it.
use test_looper.Common.{
  ℕ, ◌≡◌, ◌≢◌, ◌⊎◌, refl, Option, none, some, List, [], ◌∷◌, if◌then◌else◌, leb,
}
use test_looper.Objects.{View}
use test_looper.Objects.Edits.{Class, new_object, index_lookup, index_lookup_any}
use test_looper.Objects.Entries.{occurs, tally}
use test_looper.Objects.Edited.{index_val}
use test_looper.Objects.Indexed.{
  Runs, fresh, creates, empty_view, index_lookup-Runs, index_lookup_any-Runs,
}

-- Field 0 holds a number below ten, and index 7 has the value of the field if it is not 0.
abbrev numbers : Class ℕ
numbers = record {
  types = 0 ∷ [];
  indices =
      (7, λ fields. elim (fields 0) [ none ↦ none | some v ↦ if leb v 0 then none else some v ])
      ∷ [];
  default_initialize = λ field. some 0;
  coerce_instance = λ field v. if leb v 9 then some v else none;
}

abbrev made : Option (View ℕ)
made = new_object numbers 3 ((0, 5) ∷ []) empty_view

abbrev view : View ℕ
view = elim made [ none ↦ empty_view | some v ↦ v ]

view-Runs : Runs numbers view
unfolding new_object
view-Runs = creates 3 ((0, 5) ∷ []) fresh refl refl

index_lookup_test : index_lookup numbers 7 5 view ≡ some (3 ∷ [])
unfolding index_lookup new_object
index_lookup_test = refl

index_lookup-Runs_example :
    (os : List ℕ) × (index_lookup numbers 7 5 view ≡ some os)
    × ((o : ℕ) → occurs o os ≡ tally (index_val numbers view 7 o) 5)
index_lookup-Runs_example = index_lookup-Runs numbers view 7 5 (refl, tt) refl view-Runs

index_lookup_any-Runs_example :
    ((index_lookup_any numbers 7 5 view ≡ some none)
      × ((o : ℕ) → index_val numbers view 7 o ≢ some 5))
    ⊎ ((o : ℕ) × (index_lookup_any numbers 7 5 view ≡ some (some o))
        × (index_val numbers view 7 o ≡ some 5))
index_lookup_any-Runs_example = index_lookup_any-Runs numbers view 7 5 (refl, tt) refl view-Runs
