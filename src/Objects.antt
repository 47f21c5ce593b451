-- ===== src/Objects.antt =====
-- `DatabaseView` of core/object_database.py, for the objects of one class: the keys of the store, and
-- what a view reads at one, its own writes before the database. A field, an identity and the value
-- of an index are numbers. What the database holds at the view's transaction number is a function,
-- the parsing of JSON included.
pub mod Edits
pub mod Entries
pub mod Edited
pub mod Indexed
mod Tests
use test_looper.Common.{
  ℕ, Bool, true, false, ◌&&◌, Option, none, some, List, [], ◌==◌, if◌then◌else◌,
}

-- The class's name is a part of every key, and the class is one throughout.
pub data Key : Type 0 where
  data_key : (identity field : ℕ) → Key
  -- `data_key(..., ".exists")`
  exists_key : (identity : ℕ) → Key
  index_key : (index val : ℕ) → Key

pub data Cell (V : Type 0) : Type 0 where
  value : V → Cell V
  present : Cell V
  identities : List ℕ → Cell V

pub record View (V : Type 0) : Type 0 where
  pub db : Key → Option (Cell V)
  -- `self._writes`, where `some none` is a None
  pub writes : Key → Option (Option (Cell V))
  pub is_writeable : Bool

abbrev pub same_key : Key → Key → Bool
same_key (data_key o f) (data_key p g) = o == p && f == g
same_key (exists_key o) (exists_key p) = o == p
same_key (index_key i v) (index_key j w) = i == j && v == w
same_key _ _ = false

abbrev pub same_value : Option ℕ → Option ℕ → Bool
same_value none none = true
same_value (some v) (some w) = v == w
same_value _ _ = false

module _ {V : Type 0} where
  -- `_get_dbkey`
  abbrev pub get_dbkey : Key → View V → Option (Cell V)
  get_dbkey key view = elim (view.writes key) [ some cell ↦ cell | none ↦ view.db key ]

  -- `self._writes[key] = cell`
  abbrev pub write : Key → Option (Cell V) → View V → View V
  write key cell view = record view {
    writes = λ k. if same_key key k then some cell else view.writes k;
  }

  abbrev pub cell_value : Option (Cell V) → Option V
  cell_value (some (value v)) = some v
  cell_value _ = none

  abbrev pub cell_identities : Option (Cell V) → List ℕ
  cell_identities (some (identities os)) = os
  cell_identities _ = []

  abbrev pub is_cell : Option (Cell V) → Bool
  is_cell none = false
  is_cell (some _) = true

  -- `_get`
  abbrev pub get_fields : ℕ → View V → ℕ → Option V
  get_fields o view field = cell_value (get_dbkey (data_key o field) view)

  -- `_exists`
  abbrev pub exists_object : ℕ → View V → Bool
  exists_object o view = is_cell (get_dbkey (exists_key o) view)

  -- `tuple(self._get_dbkey(key) or ())`
  abbrev pub get_identities : Key → View V → List ℕ
  get_identities key view = cell_identities (get_dbkey key view)
