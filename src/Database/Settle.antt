-- ===== src/Database/Settle.antt =====
-- `_cleanup` and `_releaseView` of core/object_database.py: releasing a view that is held never
-- raises, and every view that is still held reads what it did.
use test_looper.Common.{
  ℕ, ◌≤◌, ◌≡◌, refl, sym, ◌∙◌, Option, some, List, [], ◌∷◌, inl, inr, arith, ltb, Option-cases,
  Bool-cases, All-zip, All-map,
}
use test_looper.KvStore.{KvStore}
use test_looper.Database.Versions.{Db, count_of, cleanup_loop, clean_version, cleanup, release_view}
use test_looper.Database.Invariant.{IsConsistent}
use test_looper.Database.Counts.{IsCounted, min_key-All, decversion_lem, recount}
use test_looper.Database.Forget.{Forgot, clean_version-last, clean_version-more}

module _ {J O : Type 0} {kv : KvStore J} (H : ℕ → ℕ → Option J) where
  pub record IsSound (db : Db O kv) : Type 0 where
    pub consistent : IsConsistent H db
    pub counted : IsCounted db

  pub record Settled (db db' : Db O kv) : Type 0 where
    pub sound : IsSound db'
    pub cur : db'.cur ≡ db.cur
    pub counts : db'.counts ≡ db.counts

  clean_version_lem :
      (low : ℕ) (rest : List ℕ) (db : Db O kv)
      → IsConsistent H db
      → db.version_numbers ≡ low ∷ rest
      → (db' : Db O kv) × (clean_version low rest db ≡ some db') × Forgot H low rest db db'
  clean_version_lem low [] db ok e = clean_version-last H db low ok e
  clean_version_lem low (r ∷ rs) db ok e = clean_version-more H db low ok r rs e

  -- No view refers to a time before `m`, the least version that is referred to.
  Forgot-IsCounted :
      (low m : ℕ) (rest : List ℕ) (db db' : Db O kv)
      → IsCounted db
      → db.min_reffed ≡ some m
      → low ≤ m
      → Forgot H low rest db db'
      → IsCounted db'
  Forgot-IsCounted low m rest db db' c least le f = record {
    least = simp (f.min_reffed, f.counts) c.least;
    in_range =
        simp (f.counts, f.min, f.cur)
          (All-zip db.counts (λ x a b. (omega arith, b.1, b.2))
            (min_key-All m db.counts (sym c.least ∙ least)) c.in_range);
  }

  pub cleanup_loop_lem :
      (versions : List ℕ) (db : Db O kv)
      → db.version_numbers ≡ versions
      → IsSound db
      → (db' : Db O kv) × (cleanup_loop versions db ≡ some db') × Settled db db'
  unfolding cleanup_loop
  cleanup_loop_lem [] db e ok = (db, refl, record { sound = ok; cur = refl; counts = refl })
  cleanup_loop_lem (low ∷ rest) db e ok = elim (Option-cases db.min_reffed) [
    | inl absent ↦ (db, ground (arith, absent), record { sound = ok; cur = refl; counts = refl })
    | inr (m, least) ↦ elim (Bool-cases (ltb m low)) [
      | inl below ↦
          (db, ground (arith, least, below), record { sound = ok; cur = refl; counts = refl })
      | inr above ↦
          let (db', one, f) = clean_version_lem low rest db ok.consistent e in
          let counted =
            Forgot-IsCounted low m rest db db' ok.counted least (ground (arith, above)) f in
          let (db'', more, s) =
            cleanup_loop_lem rest db' f.version_numbers
              (record { consistent = f.consistent; counted = counted }) in
          (
            db'',
            ground (arith, least, above, one, more),
            record { sound = s.sound; cur = s.cur ∙ f.cur; counts = s.counts ∙ f.counts },
          )
    ]
  ]

  recount-IsConsistent :
      (counts : List (ℕ × ℕ)) (least : Option ℕ) (db : Db O kv)
      → IsConsistent H db
      → IsConsistent H (recount counts least db)
  recount-IsConsistent counts least db ok = record {
    consecutive = ok.consecutive;
    keys =
        All-map db.version_numbers
          (λ v h. record { keys = h.keys; at = h.at; distinct = h.distinct }) ok.keys;
    shows = ok.shows;
  }

  pub release_view_lem :
      (t n : ℕ) (db : Db O kv)
      → IsSound db
      → count_of db.counts t ≡ some n
      → (db' : Db O kv) × (release_view t db ≡ some db') × IsSound db'
  unfolding release_view cleanup
  release_view_lem t n db ok held =
      let (counts, least, dropped, counted) = decversion_lem t n db ok.counted held in
      let db' = recount counts least db in
      let (db'', cleaned, s) = cleanup_loop_lem db'.version_numbers db' refl (record {
        consistent = recount-IsConsistent counts least db ok.consistent;
        counted = counted;
      }) in
      (db'', rw dropped cleaned, s.sound)
