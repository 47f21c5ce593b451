-- ===== src/Database/Versions.antt =====
-- core/object_database.py, class `Database`: versions, views and clean-up. A dict is a function
-- into `Option`; a Python exception (KeyError, AssertionError, RevisionConflictException) is
-- `none`. An entry is the pair of a json value and the parsed object, each possibly None.
use mathlib.Core.Option
use test_looper.Common.{
  ℕ, zero, suc, ◌+◌, Bool, true, false, ◌&&◌, Option, none, some, List, [], ◌∷◌, ◌++◌, map, ltb,
  leb, ◌==◌, if◌then◌else◌, Map, update,
}
use test_looper.KvStore.{KvStore}

-- For a chain of steps that may raise.
infixl 5 ◌>>=◌
abbrev pub ◌>>=◌ {ℓ κ} : {A : Type ℓ} {B : Type κ} → Option A → (A → Option B) → Option B
none >>= f = none
some a >>= f = f a

abbrev pub Entry : Type 0 → Type 0 → Type 0
Entry J O = Option J × Option O

pub record Db {J : Type 0} (O : Type 0) (kv : KvStore J) : Type 0 where
  pub kvstore : kv.Store
  pub cur : ℕ
  pub min : ℕ
  pub counts : List (ℕ × ℕ)
  pub min_reffed : Option ℕ
  pub version_numbers : List ℕ
  pub version_number_objects : Map (List ℕ)
  pub key_version_numbers : Map (List ℕ)
  pub key_and_version_to_object : ℕ → Map (Entry J O)
  pub tail_values : Map (Entry J O)
  pub object_cache : Map O

-- `_version_number_counts[t]`
abbrev pub count_of : List (ℕ × ℕ) → ℕ → Option ℕ
count_of [] t = none
count_of ((u, n) ∷ counts) t = if u == t then some n else count_of counts t

abbrev pub set_count : List (ℕ × ℕ) → ℕ → ℕ → List (ℕ × ℕ)
set_count [] t m = (t, m) ∷ []
set_count ((u, n) ∷ counts) t m = if u == t then (u, m) ∷ counts else (u, n) ∷ set_count counts t m

abbrev pub del_count : List (ℕ × ℕ) → ℕ → List (ℕ × ℕ)
del_count [] t = []
del_count ((u, n) ∷ counts) t = if u == t then counts else (u, n) ∷ del_count counts t

-- `min(a, b)` where None is no number yet
abbrev pub min_with : ℕ → Option ℕ → Option ℕ
min_with a none = some a
min_with a (some b) = some (if leb a b then a else b)

-- `min(self._version_number_counts)`, None if there is no key
abbrev pub min_key : List (ℕ × ℕ) → Option ℕ
min_key [] = none
min_key ((u, n) ∷ counts) = min_with u (min_key counts)

-- The scan of `_best_version_for` from the end: a later version is preferred.
abbrev pub prefer : ℕ → ℕ → Option ℕ → Option ℕ
prefer t v none = if leb v t then some v else none
prefer t v (some w) = some w

unfoldable pub best_version_for : ℕ → List ℕ → Option ℕ
best_version_for t [] = none
best_version_for t (v ∷ vs) = prefer t v (best_version_for t vs)

-- `self._min_reffed_version_number < lowest`; in Python 2 None is less than every number.
abbrev pub refers_below : Option ℕ → ℕ → Bool
refers_below none lowest = true
refers_below (some m) lowest = ltb m lowest

unfoldable pub cache_writes : {J O : Type 0} → List (ℕ × Entry J O) → Map O → Map O
cache_writes [] cache = cache
cache_writes ((key, value) ∷ writes) cache = cache_writes writes (update cache key value.1)

-- The last loop of `_set_versioned_object_data`, for each of the two dicts that it writes.
unfoldable pub add_numbers : {E : Type 0} → ℕ → List (ℕ × E) → Map (List ℕ) → Map (List ℕ)
add_numbers t [] numbers = numbers
add_numbers t ((key, value) ∷ writes) numbers =
    add_numbers t writes (update numbers key (some (Option.get_or (numbers key) [] ++ t ∷ [])))

unfoldable pub add_objects : {E : Type 0} → ℕ → List (ℕ × E) → (ℕ → Map E) → ℕ → Map E
add_objects t [] objects = objects
add_objects t ((key, value) ∷ writes) objects =
    add_objects t writes (update objects key (update (objects key) t (some value)))

module _ {J O : Type 0} {kv : KvStore J} where
  abbrev pub init_db : kv.Store → Db O kv
  init_db store = record {
    kvstore = store;
    cur = 0;
    min = 0;
    counts = [];
    min_reffed = none;
    version_numbers = [];
    version_number_objects = λ v. none;
    key_version_numbers = λ k. none;
    key_and_version_to_object = λ k v. none;
    tail_values = λ k. none;
    object_cache = λ k. none;
  }

  unfoldable pub incversion : ℕ → Db O kv → Db O kv
  incversion t db = elim (count_of db.counts t) [
    | none ↦ record db { counts = set_count db.counts t 1; min_reffed = min_with t db.min_reffed }
    | some n ↦ record db { counts = set_count db.counts t (n + 1) }
  ]

  unfoldable pub drop_version : ℕ → Db O kv → Db O kv
  drop_version t db =
      let counts = del_count db.counts t in
      let least : Bool = elim db.min_reffed [ none ↦ false | some m ↦ t == m ] in
      record db { counts = counts; min_reffed = if least then min_key counts else db.min_reffed }

  unfoldable pub decversion : ℕ → Db O kv → Option (Db O kv)
  unfolding drop_version
  decversion t db = elim (count_of db.counts t) [
    | none ↦ none
    | some zero ↦ none
    | some (suc n) ↦
        some (if n == 0 then drop_version t db else record db { counts = set_count db.counts t n })
  ]

  -- `view(transaction_id)`, which returns the view's transaction number beside the new state
  unfoldable pub view : Option ℕ → Db O kv → Option (ℕ × Db O kv)
  unfolding incversion
  view transaction_id db =
      let t = Option.get_or transaction_id db.cur in
      if leb t db.cur && leb db.min t then some (t, incversion t db) else none

  unfoldable pub transaction : Db O kv → ℕ × Db O kv
  unfolding incversion
  transaction db = (db.cur, incversion db.cur db)

  -- One round of the `for key in keys_touched` loop of `_cleanup`.
  unfoldable pub clean_key : ℕ → ℕ → Db O kv → Option (Db O kv)
  clean_key lowest key db = elim (db.key_version_numbers key) [
    | none ↦ none
    | some [] ↦ none
    | some (v ∷ []) ↦
        if v == lowest
        then (do
          _ ← db.key_and_version_to_object key lowest
          _ ← db.tail_values key
          some (record db {
            key_version_numbers = update db.key_version_numbers key none;
            key_and_version_to_object =
                update db.key_and_version_to_object key
                  (update (db.key_and_version_to_object key) lowest none);
            tail_values = update db.tail_values key none;
          }))
        else none
    | some (v ∷ w ∷ vs) ↦
        if v == lowest
        then (do
          e ← db.key_and_version_to_object key lowest
          some (record db {
            key_version_numbers = update db.key_version_numbers key (some (w ∷ vs));
            key_and_version_to_object =
                update db.key_and_version_to_object key
                  (update (db.key_and_version_to_object key) lowest none);
            tail_values = update db.tail_values key (some e);
          }))
        else none
  ]

  unfoldable pub clean_keys : ℕ → List ℕ → Db O kv → Option (Db O kv)
  clean_keys lowest [] db = some db
  clean_keys lowest (key ∷ keys) db = clean_key lowest key db >>= clean_keys lowest keys

  -- The body of `_cleanup`'s loop once `lowest` is popped and `rest` is what stays.
  unfoldable pub clean_version : ℕ → List ℕ → Db O kv → Option (Db O kv)
  unfolding clean_keys clean_key
  clean_version lowest rest db = do
    keys_touched ← db.version_number_objects lowest
    let popped = record db {
      version_numbers = rest;
      version_number_objects = update db.version_number_objects lowest none;
    }
    elim rest [
      | [] ↦
          some (record popped {
            min = db.cur;
            key_version_numbers = λ k. none;
            tail_values = λ k. none;
          })
      | _ ∷ _ ↦ clean_keys lowest keys_touched (record popped { min = lowest })
    ]

  -- The `while True` of `_cleanup`; `versions` are the version numbers it may still pop.
  unfoldable pub cleanup_loop : List ℕ → Db O kv → Option (Db O kv)
  unfolding clean_version
  cleanup_loop [] db = some db
  cleanup_loop (lowest ∷ rest) db = elim (refers_below db.min_reffed lowest) [
    | true ↦ some db
    | false ↦ clean_version lowest rest db >>= cleanup_loop rest
  ]

  unfoldable pub cleanup : Db O kv → Option (Db O kv)
  unfolding cleanup_loop
  cleanup db = cleanup_loop db.version_numbers db

  unfoldable pub release_view : ℕ → Db O kv → Option (Db O kv)
  unfolding decversion cleanup
  release_view t db = decversion t db >>= cleanup

  -- `_get_versioned_object_data`
  unfoldable pub get_versioned : ℕ → ℕ → Db O kv → Option (Entry J O)
  unfolding best_version_for
  get_versioned key t db =
      if leb db.min t
      then elim (db.key_version_numbers key) [
        | none ↦
            some (Option.get_or (db.tail_values key) (kv.get db.kvstore key, db.object_cache key))
        | some vs ↦ elim (best_version_for t vs) [
          | none ↦ db.tail_values key
          | some v ↦ db.key_and_version_to_object key v
        ]
      ]
      else none

  -- `_update_versioned_object_data_cache`
  unfoldable pub update_cache : ℕ → ℕ → Option O → Db O kv → Option (Db O kv)
  unfolding best_version_for
  update_cache key t parsed db = elim (db.key_version_numbers key) [
    | none ↦ elim (db.tail_values key) [
      | none ↦ some (record db { object_cache = update db.object_cache key parsed })
      | some e ↦ some (record db { tail_values = update db.tail_values key (some (e.0, parsed)) })
    ]
    | some vs ↦ elim (best_version_for t vs) [
      | none ↦ do
        e ← db.tail_values key
        some (record db { tail_values = update db.tail_values key (some (e.0, parsed)) })
      | some v ↦ do
        e ← db.key_and_version_to_object key v
        some (record db {
          key_and_version_to_object =
              update db.key_and_version_to_object key
                (update (db.key_and_version_to_object key) v (some (e.0, parsed)));
        })
    ]
  ]

  -- The loop that keeps the old value of each key that is not versioned yet.
  unfoldable pub keep_tails : Db O kv → List (ℕ × Entry J O) → Map (Entry J O) → Map (Entry J O)
  keep_tails db [] tails = tails
  keep_tails db ((key, value) ∷ writes) tails =
      keep_tails db writes (elim (db.key_version_numbers key) [
        | none ↦ update tails key (some (kv.get db.kvstore key, db.object_cache key))
        | some _ ↦ tails
      ])

  -- The body of `_set_versioned_object_data` for the new transaction number `t`.
  unfoldable pub commit_at : ℕ → List (ℕ × Entry J O) → Db O kv → Db O kv
  unfolding keep_tails cache_writes add_numbers add_objects
  commit_at t writes db = record db {
    cur = suc db.cur;
    tail_values = keep_tails db writes db.tail_values;
    kvstore = kv.set_several db.kvstore (map (λ w. (w.0, w.1.0)) writes);
    object_cache = cache_writes writes db.object_cache;
    version_number_objects = update db.version_number_objects t (some (map (λ w. w.0) writes));
    version_numbers = db.version_numbers ++ t ∷ [];
    key_version_numbers = add_numbers t writes db.key_version_numbers;
    key_and_version_to_object = add_objects t writes db.key_and_version_to_object;
  }

  -- `_set_versioned_object_data`; `none` is the RevisionConflictException.
  unfoldable pub set_versioned : List (ℕ × Entry J O) → ℕ → Db O kv → Option (Db O kv)
  unfolding commit_at
  set_versioned writes transaction_id db =
      if transaction_id == db.cur then some (commit_at (suc transaction_id) writes db) else none
