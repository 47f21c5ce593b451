-- ===== src/Database/Parsed.antt =====
-- The parsed objects that core/object_database.py keeps beside the JSON values, in all states that the
-- operations reach.
use test_looper.Common.{
  ℕ, suc, ◌≡◌, Option, none, some, List, [], ◌∷◌, inl, inr, arith, ◌==◌, leb, map, All, Map, update,
  Option-cases, Bool-cases, ==_iff, sym, subst,
}
use test_looper.KvStore.{KvStore}
use test_looper.Database.Versions.{
  Db, Entry, init_db, incversion, view, transaction, get_versioned, update_cache, set_versioned,
  commit_at, cache_writes, keep_tails, release_view, best_version_for,
}
use test_looper.Database.Matching.{
  Matches, Matches-update, Matches-update_at, AllMatch, add_objects-Matches, cache_writes-Fits,
  release_view-AllMatch, incversion-AllMatch,
}

-- The states that the operations reach from a store, where `Fits v o` says that the parsed object `o` goes with
-- the JSON value `v`: what is committed and what is put in the cache after a read goes together.
pub data Keeps {J O : Type 0} {kv : KvStore J} (Fits : Option J → Option O → Type 0)
    : Db O kv → Type 0 where
  start : (store : kv.Store) → Keeps Fits (init_db store)
  open_view :
      (db db' : Db O kv) (number : Option ℕ) (t : ℕ)
      → Keeps Fits db
      → view number db ≡ some (t, db')
      → Keeps Fits db'
  open_transaction : (db db' : Db O kv) → Keeps Fits db → (transaction db).1 ≡ db' → Keeps Fits db'
  cache :
      (db db' : Db O kv) (key t : ℕ) (read : Entry J O) (parsed : Option O)
      → Keeps Fits db
      → get_versioned key t db ≡ some read
      → Fits read.0 parsed
      → update_cache key t parsed db ≡ some db'
      → Keeps Fits db'
  commit :
      (db db' : Db O kv) (t : ℕ) (writes : List (ℕ × Entry J O))
      → Keeps Fits db
      → All (λ w. Fits w.1.0 w.1.1) writes
      → set_versioned writes t db ≡ some db'
      → Keeps Fits db'
  release :
      (db db' : Db O kv) (t : ℕ) → Keeps Fits db → release_view t db ≡ some db' → Keeps Fits db'

module _ {J O : Type 0} {kv : KvStore J} (Fits : Option J → Option O → Type 0) where
  -- The entry that a read finds.
  get_versioned-Matches :
      (key t : ℕ) (db : Db O kv) (e : Entry J O)
      → get_versioned key t db ≡ some e
      → AllMatch Fits db
      → Fits e.0 e.1
  unfolding get_versioned
  get_versioned-Matches key t db e h a = elim (Bool-cases (leb db.min t)) [
    | inr early ↦ absurd (ground (arith, h, early))
    | inl held ↦ elim (Option-cases (db.key_version_numbers key)) [
      | inl unversioned ↦ elim (Option-cases (db.tail_values key)) [
        | inl no_tail ↦
            let found : (kv.get db.kvstore key, db.object_cache key) ≡ e =
              ground (arith, h, held, unversioned, no_tail) in
            subst (λ x. Fits x.0 x.1) found (a.current key)
        | inr (u, tail) ↦
            let found : u ≡ e = ground (arith, h, held, unversioned, tail) in
            subst (λ x. Fits x.0 x.1) found (subst (Matches Fits) tail (a.tails key))
      ]
      | inr (vs, versioned) ↦ elim (Option-cases (best_version_for t vs)) [
        | inl before ↦
            let found : db.tail_values key ≡ some e = ground (arith, h, held, versioned, before) in
            subst (Matches Fits) found (a.tails key)
        | inr (v, best) ↦
            let found : db.key_and_version_to_object key v ≡ some e =
              ground (arith, h, held, versioned, best) in
            subst (Matches Fits) found (a.objects key v)
      ]
    ]
  ]

  keep_tails-Matches :
      (db : Db O kv) (writes : List (ℕ × Entry J O)) (tails : Map (Entry J O))
      → ((k : ℕ) → Fits (kv.get db.kvstore k) (db.object_cache k))
      → ((k : ℕ) → Matches Fits (tails k))
      → (k : ℕ) → Matches Fits (keep_tails db writes tails k)
  unfolding keep_tails
  keep_tails-Matches db [] tails now a = a
  keep_tails-Matches db ((key, value) ∷ writes) tails now a =
      elim (Option-cases (db.key_version_numbers key)) [
        | inl new ↦ rw new (
            keep_tails-Matches db writes _ now (
              Matches-update Fits tails key (some (kv.get db.kvstore key, db.object_cache key)) a
                (now key)))
        | inr (vs, old) ↦ rw old (keep_tails-Matches db writes tails now a)
      ]

  set_versioned-AllMatch :
      (writes : List (ℕ × Entry J O)) (t : ℕ) (db db' : Db O kv)
      → All (λ w. Fits w.1.0 w.1.1) writes
      → set_versioned writes t db ≡ some db'
      → AllMatch Fits db
      → AllMatch Fits db'
  unfolding set_versioned commit_at
  set_versioned-AllMatch writes t db db' fit h a = elim (Bool-cases (t == db.cur)) [
    | inr other ↦ absurd (ground (arith, h, other))
    | inl same ↦
        let done : commit_at (suc t) writes db ≡ db' = ground (arith, h, same) in
        subst (AllMatch Fits) done (record {
          objects =
              add_objects-Matches Fits (suc t) writes db.key_and_version_to_object fit a.objects;
          tails = keep_tails-Matches db writes db.tail_values a.current a.tails;
          current = λ k.
              subst (λ x. Fits x (cache_writes writes db.object_cache k))
                (sym (kv.get-set_several db.kvstore (map (λ w. (w.0, w.1.0)) writes) k))
                (cache_writes-Fits Fits writes db.object_cache k (kv.get db.kvstore k) fit
                  (a.current k));
        })
  ]

  view-AllMatch :
      (number : Option ℕ) (t : ℕ) (db db' : Db O kv)
      → view number db ≡ some (t, db')
      → AllMatch Fits db
      → AllMatch Fits db'
  unfolding view
  view-AllMatch none t db db' h a =
      let done : incversion db.cur db ≡ db' = ground (arith, h) in
      subst (AllMatch Fits) done (incversion-AllMatch Fits db.cur db a)
  view-AllMatch (some u) t db db' h a =
      let done : incversion u db ≡ db' = ground (arith, h) in
      subst (AllMatch Fits) done (incversion-AllMatch Fits u db a)

  with_tail :
      (key : ℕ) (e : Entry J O) (db : Db O kv)
      → Fits e.0 e.1
      → AllMatch Fits db
      → AllMatch Fits (record db { tail_values = update db.tail_values key (some e) })
  with_tail key e db fit a = record {
    objects = a.objects;
    tails = Matches-update Fits db.tail_values key (some e) a.tails fit;
    current = a.current;
  }

  with_object :
      (key v : ℕ) (e : Entry J O) (db : Db O kv)
      → Fits e.0 e.1
      → AllMatch Fits db
      → AllMatch Fits (record db {
        key_and_version_to_object =
            update db.key_and_version_to_object key
              (update (db.key_and_version_to_object key) v (some e));
      })
  with_object key v e db fit a = record {
    objects = Matches-update_at Fits db.key_and_version_to_object key v (some e) a.objects fit;
    tails = a.tails;
    current = a.current;
  }

  with_current :
      (key : ℕ) (parsed : Option O) (db : Db O kv)
      → Fits (kv.get db.kvstore key) parsed
      → AllMatch Fits db
      → AllMatch Fits (record db { object_cache = update db.object_cache key parsed })
  with_current key parsed db fit a = record {
    objects = a.objects;
    tails = a.tails;
    current = λ k. elim (Bool-cases (k == key)) [
      | inl same ↦
          rw same (subst (λ j. Fits (kv.get db.kvstore j) parsed) (sym ((==_iff k key).0 same)) fit)
      | inr other ↦ rw other (a.current k)
    ];
  }

  update_cache-AllMatch :
      (key t : ℕ) (read : Entry J O) (parsed : Option O) (db db' : Db O kv)
      → get_versioned key t db ≡ some read
      → Fits read.0 parsed
      → update_cache key t parsed db ≡ some db'
      → AllMatch Fits db
      → AllMatch Fits db'
  unfolding update_cache get_versioned
  update_cache-AllMatch key t read parsed db db' e fit h a = elim (Bool-cases (leb db.min t)) [
    | inr early ↦ absurd (ground (arith, e, early))
    | inl held ↦ elim (Option-cases (db.key_version_numbers key)) [
      | inl unversioned ↦ elim (Option-cases (db.tail_values key)) [
        | inl no_tail ↦
            let new : Db O kv = record db { object_cache = update db.object_cache key parsed } in
            let done : new ≡ db' = ground (arith, h, unversioned, no_tail) in
            let value : read.0 ≡ kv.get db.kvstore key =
              ground (arith, e, held, unversioned, no_tail) in
            subst (AllMatch Fits) done
              (with_current key parsed db (subst (λ v. Fits v parsed) value fit) a)
        | inr (u, tail) ↦
            let new : Db O kv = record db {
              tail_values = update db.tail_values key (some (u.0, parsed));
            } in
            let done : new ≡ db' = ground (arith, h, unversioned, tail) in
            let value : read.0 ≡ u.0 = ground (arith, e, held, unversioned, tail) in
            subst (AllMatch Fits) done
              (with_tail key (u.0, parsed) db (subst (λ v. Fits v parsed) value fit) a)
      ]
      | inr (vs, versioned) ↦ elim (Option-cases (best_version_for t vs)) [
        | inl before ↦ elim (Option-cases (db.tail_values key)) [
          | inl no_tail ↦ absurd (ground (arith, h, versioned, before, no_tail))
          | inr (u, tail) ↦
              let new : Db O kv = record db {
                tail_values = update db.tail_values key (some (u.0, parsed));
              } in
              let done : new ≡ db' = ground (arith, h, versioned, before, tail) in
              let value : read.0 ≡ u.0 = ground (arith, e, held, versioned, before, tail) in
              subst (AllMatch Fits) done
                (with_tail key (u.0, parsed) db (subst (λ v. Fits v parsed) value fit) a)
        ]
        | inr (v, best) ↦ elim (Option-cases (db.key_and_version_to_object key v)) [
          | inl missing ↦ absurd (ground (arith, h, versioned, best, missing))
          | inr (u, there) ↦
              let new : Db O kv = record db {
                key_and_version_to_object =
                    update db.key_and_version_to_object key
                      (update (db.key_and_version_to_object key) v (some (u.0, parsed)));
              } in
              let done : new ≡ db' = ground (arith, h, versioned, best, there) in
              let value : read.0 ≡ u.0 = ground (arith, e, held, versioned, best, there) in
              subst (AllMatch Fits) done
                (with_object key v (u.0, parsed) db (subst (λ x. Fits x parsed) value fit) a)
        ]
      ]
    ]
  ]

  transaction-AllMatch : (db : Db O kv) → AllMatch Fits db → AllMatch Fits (transaction db).1
  unfolding transaction
  transaction-AllMatch db a = incversion-AllMatch Fits db.cur db a

  Keeps-AllMatch :
      ((v : Option J) → Fits v none) → {db : Db O kv} → Keeps Fits db → AllMatch Fits db
  Keeps-AllMatch empty (start store) = record {
    objects = λ k v. tt;
    tails = λ k. tt;
    current = λ k. empty (kv.get store k);
  }
  Keeps-AllMatch empty (open_view db db' number t r e) =
      view-AllMatch number t db db' e (Keeps-AllMatch empty r)
  Keeps-AllMatch empty (open_transaction db db' r e) =
      subst (AllMatch Fits) e (transaction-AllMatch db (Keeps-AllMatch empty r))
  Keeps-AllMatch empty (cache db db' key t read parsed r e fit h) =
      update_cache-AllMatch key t read parsed db db' e fit h (Keeps-AllMatch empty r)
  Keeps-AllMatch empty (commit db db' t writes r fit e) =
      set_versioned-AllMatch writes t db db' fit e (Keeps-AllMatch empty r)
  Keeps-AllMatch empty (release db db' t r e) =
      release_view-AllMatch Fits t db db' e (Keeps-AllMatch empty r)

  -- Where no parsed object goes with any value, and each parsed object that is committed, or put in the cache
  -- after a read, goes with the JSON value beside it or read: in every state that the operations reach, the
  -- parsed object that a read gives goes with the JSON value that it gives.
  pub get_versioned-Keeps :
      (db : Db O kv) (key t : ℕ) (e : Entry J O)
      → ((v : Option J) → Fits v none)
      → Keeps Fits db
      → get_versioned key t db ≡ some e
      → Fits e.0 e.1
  get_versioned-Keeps db key t e empty r h =
      get_versioned-Matches key t db e h (Keeps-AllMatch empty r)
