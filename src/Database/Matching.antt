-- ===== src/Database/Matching.antt =====
-- Parsed objects that go with the JSON values beside them in core/object_database.py, kept so by views and
-- the clean-up.
use test_looper.Common.{
  ℕ, zero, suc, ◌≡◌, Option, none, some, List, [], ◌∷◌, inl, inr, arith, ◌==◌, map, if◌then◌else◌,
  All, Map, update, Option-cases, Bool-cases, sym, ap, subst, ◌∙◌,
}
use test_looper.KvStore.{KvStore, last_write}
use test_looper.Database.Versions.{
  Db, Entry, count_of, set_count, incversion, cache_writes, add_objects, release_view, decversion,
  drop_version, cleanup, cleanup_loop, clean_version, clean_keys, clean_key, refers_below, ◌>>=◌,
}

module _ {J O : Type 0} (Fits : Option J → Option O → Type 0) where
  -- An entry, if there is one, has a parsed object that goes with its value.
  abbrev pub Matches : Option (Entry J O) → Type 0
  Matches none = Unit
  Matches (some e) = Fits e.0 e.1

  pub Matches-update :
      (m : Map (Entry J O)) (key : ℕ) (e : Option (Entry J O))
      → ((k : ℕ) → Matches (m k))
      → Matches e
      → (k : ℕ) → Matches (update m key e k)
  Matches-update m key e ms h k = elim (Bool-cases (k == key)) [
    | inl same ↦ rw same h
    | inr other ↦ rw other (ms k)
  ]

  pub Matches-update_at :
      (m : ℕ → Map (Entry J O)) (key v : ℕ) (e : Option (Entry J O))
      → ((k w : ℕ) → Matches (m k w))
      → Matches e
      → (k w : ℕ) → Matches (update m key (update (m key) v e) k w)
  Matches-update_at m key v e ms h k w = elim (Bool-cases (k == key)) [
    | inl same ↦ rw same (Matches-update (m key) v e (ms key) h w)
    | inr other ↦ rw other (ms k w)
  ]

  pub add_objects-Matches :
      (t : ℕ) (writes : List (ℕ × Entry J O)) (objects : ℕ → Map (Entry J O))
      → All (λ w. Fits w.1.0 w.1.1) writes
      → ((k v : ℕ) → Matches (objects k v))
      → (k v : ℕ) → Matches (add_objects t writes objects k v)
  unfolding add_objects
  add_objects-Matches t [] objects fit a = a
  add_objects-Matches t ((key, value) ∷ writes) objects fit a =
      add_objects-Matches t writes _ fit.1 (Matches-update_at objects key t (some value) a fit.0)

  pub cache_writes-Fits :
      (writes : List (ℕ × Entry J O)) (objects : Map O) (k : ℕ) (old : Option J)
      → All (λ w. Fits w.1.0 w.1.1) writes
      → Fits old (objects k)
      → Fits (last_write (map (λ w. (w.0, w.1.0)) writes) k old) (cache_writes writes objects k)
  unfolding cache_writes
  cache_writes-Fits [] objects k old fit a = a
  cache_writes-Fits ((key, value) ∷ writes) objects k old fit a =
      cache_writes-Fits writes (update objects key value.1) k (if k == key then value.0 else old)
        fit.1 (elim (Bool-cases (k == key)) [ inl same ↦ rw same fit.0 | inr other ↦ rw other a ])

module _ {J O : Type 0} {kv : KvStore J} (Fits : Option J → Option O → Type 0) where
  pub record AllMatch (db : Db O kv) : Type 0 where
    pub objects : (k v : ℕ) → Matches Fits (db.key_and_version_to_object k v)
    pub tails : (k : ℕ) → Matches Fits (db.tail_values k)
    pub current : (k : ℕ) → Fits (kv.get db.kvstore k) (db.object_cache k)

  clean_key-AllMatch :
      (lowest key : ℕ) (db db' : Db O kv)
      → clean_key lowest key db ≡ some db'
      → AllMatch db
      → AllMatch db'
  unfolding clean_key
  clean_key-AllMatch lowest key db db' h a = elim (Option-cases (db.key_version_numbers key)) [
    | inl missing ↦ absurd (ground (arith, h, missing))
    | inr ([], at) ↦ absurd (ground (arith, h, at))
    | inr (v ∷ [], at) ↦ elim (Bool-cases (v == lowest)) [
      | inr other ↦ absurd (ground (arith, h, at, other))
      | inl same ↦ elim (Option-cases (db.key_and_version_to_object key lowest)) [
        | inl missing ↦ absurd (ground (arith, h, at, same, missing))
        | inr (e, there) ↦ elim (Option-cases (db.tail_values key)) [
          | inl missing ↦ absurd (ground (arith, h, at, same, there, missing))
          | inr (u, tail) ↦
              let new : Db O kv = record db {
                key_version_numbers = update db.key_version_numbers key none;
                key_and_version_to_object =
                    update db.key_and_version_to_object key
                      (update (db.key_and_version_to_object key) lowest none);
                tail_values = update db.tail_values key none;
              } in
              let done : new ≡ db' = ground (arith, h, at, same, there, tail) in
              subst AllMatch done (record {
                objects =
                    Matches-update_at Fits db.key_and_version_to_object key lowest none a.objects
                      tt;
                tails = Matches-update Fits db.tail_values key none a.tails tt;
                current = a.current;
              })
        ]
      ]
    ]
    | inr (v ∷ w ∷ vs, at) ↦ elim (Bool-cases (v == lowest)) [
      | inr other ↦ absurd (ground (arith, h, at, other))
      | inl same ↦ elim (Option-cases (db.key_and_version_to_object key lowest)) [
        | inl missing ↦ absurd (ground (arith, h, at, same, missing))
        | inr (e, there) ↦
            let new : Db O kv = record db {
              key_version_numbers = update db.key_version_numbers key (some (w ∷ vs));
              key_and_version_to_object =
                  update db.key_and_version_to_object key
                    (update (db.key_and_version_to_object key) lowest none);
              tail_values = update db.tail_values key (some e);
            } in
            let done : new ≡ db' = ground (arith, h, at, same, there) in
            subst AllMatch done (record {
              objects =
                  Matches-update_at Fits db.key_and_version_to_object key lowest none a.objects tt;
              tails =
                  Matches-update Fits db.tail_values key (some e) a.tails
                    (subst (Matches Fits) there (a.objects key lowest));
              current = a.current;
            })
      ]
    ]
  ]

  clean_keys-AllMatch :
      (lowest : ℕ) (ks : List ℕ) (db db' : Db O kv)
      → clean_keys lowest ks db ≡ some db'
      → AllMatch db
      → AllMatch db'
  unfolding clean_keys
  clean_keys-AllMatch lowest [] db db' h a = subst AllMatch (ground (arith, h)) a
  clean_keys-AllMatch lowest (k ∷ ks) db db' h a = elim (Option-cases (clean_key lowest k db)) [
    | inl raised ↦ absurd (ground (arith, h, raised))
    | inr (db₁, e) ↦
        clean_keys-AllMatch lowest ks db₁ db' (sym (ap (λ m. m >>= clean_keys lowest ks) e) ∙ h)
          (clean_key-AllMatch lowest k db db₁ e a)
  ]

  clean_version-AllMatch :
      (lowest : ℕ) (rest : List ℕ) (db db' : Db O kv)
      → clean_version lowest rest db ≡ some db'
      → AllMatch db
      → AllMatch db'
  unfolding clean_version
  clean_version-AllMatch lowest [] db db' h a =
      elim (Option-cases (db.version_number_objects lowest)) [
        | inl raised ↦ absurd (ground (arith, h, raised))
        | inr (touched, e) ↦
            let new : Db O kv = record db {
              min = db.cur;
              version_numbers = [];
              version_number_objects = update db.version_number_objects lowest none;
              key_version_numbers = λ k. none;
              tail_values = λ k. none;
            } in
            let done : new ≡ db' = ground (arith, h, e) in
            subst AllMatch done
              (record { objects = a.objects; tails = λ k. tt; current = a.current })
      ]
  clean_version-AllMatch lowest (v ∷ rest) db db' h a =
      elim (Option-cases (db.version_number_objects lowest)) [
        | inl raised ↦ absurd (ground (arith, h, raised))
        | inr (touched, e) ↦
            clean_keys-AllMatch lowest touched _ db' (rw e at h)
              (record { objects = a.objects; tails = a.tails; current = a.current })
      ]

  cleanup_loop-AllMatch :
      (versions : List ℕ) (db db' : Db O kv)
      → cleanup_loop versions db ≡ some db'
      → AllMatch db
      → AllMatch db'
  unfolding cleanup_loop
  cleanup_loop-AllMatch [] db db' h a = subst AllMatch (ground (arith, h)) a
  cleanup_loop-AllMatch (lowest ∷ rest) db db' h a =
      elim (Bool-cases (refers_below db.min_reffed lowest)) [
        | inl below ↦ subst AllMatch (ground (arith, h, below)) a
        | inr above ↦ elim (Option-cases (clean_version lowest rest db)) [
          | inl raised ↦ absurd (ground (arith, h, above, raised))
          | inr (db₁, e) ↦
              cleanup_loop-AllMatch rest db₁ db' (ground (arith, h, above, e))
                (clean_version-AllMatch lowest rest db db₁ e a)
        ]
      ]

  with_counts :
      (counts : List (ℕ × ℕ)) (least : Option ℕ) (db : Db O kv)
      → AllMatch db
      → AllMatch (record db { counts = counts; min_reffed = least })
  with_counts counts least db a = record {
    objects = a.objects;
    tails = a.tails;
    current = a.current;
  }

  decversion-AllMatch :
      (t : ℕ) (db db' : Db O kv) → decversion t db ≡ some db' → AllMatch db → AllMatch db'
  unfolding decversion drop_version
  decversion-AllMatch t db db' h a = elim (Option-cases (count_of db.counts t)) [
    | inl missing ↦ absurd (ground (arith, h, missing))
    | inr (zero, e) ↦ absurd (ground (arith, h, e))
    | inr (suc n, e) ↦ elim (Bool-cases (n == 0)) [
      | inl last ↦
          let done : drop_version t db ≡ db' = ground (arith, h, e, last) in
          subst AllMatch done (with_counts _ _ db a)
      | inr more ↦
          let new : Db O kv = record db { counts = set_count db.counts t n } in
          let done : new ≡ db' = ground (arith, h, e, more) in
          subst AllMatch done (with_counts (set_count db.counts t n) db.min_reffed db a)
    ]
  ]

  pub release_view-AllMatch :
      (t : ℕ) (db db' : Db O kv) → release_view t db ≡ some db' → AllMatch db → AllMatch db'
  unfolding release_view cleanup
  release_view-AllMatch t db db' h a = elim (Option-cases (decversion t db)) [
    | inl raised ↦ absurd (ground (arith, h, raised))
    | inr (db₁, e) ↦
        cleanup_loop-AllMatch db₁.version_numbers db₁ db' (ground (arith, h, e))
          (decversion-AllMatch t db db₁ e a)
  ]

  pub incversion-AllMatch : (t : ℕ) (db : Db O kv) → AllMatch db → AllMatch (incversion t db)
  unfolding incversion
  incversion-AllMatch t db a = elim (Option-cases (count_of db.counts t)) [
    | inl new ↦ rw (new, incversion) (with_counts _ _ db a)
    | inr (n, old) ↦ rw (old, incversion) (with_counts _ db.min_reffed db a)
  ]
