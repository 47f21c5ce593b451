-- ===== src/Database/Conflict.antt =====
-- Transactions that conflict in core/object_database.py: no operation takes the number of the current
-- transaction back, so that the first committer wins for good.
use test_looper.Common.{
  ℕ, zero, suc, ◌≤◌, ◌≡◌, false, Option, none, some, List, [], ◌∷◌, inl, inr, arith, ◌==◌,
  Option-cases, Bool-cases, sym, ap, subst, ◌∙◌,
}
use test_looper.KvStore.{KvStore}
use test_looper.Database.Versions.{
  Db, Entry, count_of, incversion, view, transaction, update_cache, set_versioned, commit_at,
  release_view, decversion, drop_version, cleanup, cleanup_loop, clean_version, clean_keys,
  clean_key, refers_below, ◌>>=◌,
}

-- The states that the operations reach from a state, in any number of steps.
pub data Follows {J O : Type 0} {kv : KvStore J} (db₀ : Db O kv) : Db O kv → Type 0 where
  nothing : Follows db₀ db₀
  open_view :
      (db db' : Db O kv) (number : Option ℕ) (t : ℕ)
      → Follows db₀ db
      → view number db ≡ some (t, db')
      → Follows db₀ db'
  open_transaction :
      (db db' : Db O kv) → Follows db₀ db → (transaction db).1 ≡ db' → Follows db₀ db'
  cache :
      (db db' : Db O kv) (key t : ℕ) (parsed : Option O)
      → Follows db₀ db
      → update_cache key t parsed db ≡ some db'
      → Follows db₀ db'
  commit :
      (db db' : Db O kv) (t : ℕ) (writes : List (ℕ × Entry J O))
      → Follows db₀ db
      → set_versioned writes t db ≡ some db'
      → Follows db₀ db'
  release :
      (db db' : Db O kv) (t : ℕ) → Follows db₀ db → release_view t db ≡ some db' → Follows db₀ db'

module _ {J O : Type 0} {kv : KvStore J} where
  incversion-cur : (t : ℕ) (db : Db O kv) → (incversion t db).cur ≡ db.cur
  unfolding incversion
  incversion-cur t db = ground arith

  decversion-cur : (t : ℕ) (db db' : Db O kv) → decversion t db ≡ some db' → db'.cur ≡ db.cur
  unfolding decversion drop_version
  decversion-cur t db db' h = elim (Option-cases (count_of db.counts t)) [
    | inl none_there ↦ absurd (ground (arith, h, none_there))
    | inr (zero, e) ↦ absurd (ground (arith, h, e))
    | inr (suc n, e) ↦ ground (arith, h, e)
  ]

  clean_key-cur :
      (lowest key : ℕ) (db db' : Db O kv) → clean_key lowest key db ≡ some db' → db'.cur ≡ db.cur
  unfolding clean_key
  clean_key-cur lowest key db db' h = ground (arith, h)

  clean_keys-cur :
      (lowest : ℕ) (ks : List ℕ) (db db' : Db O kv)
      → clean_keys lowest ks db ≡ some db'
      → db'.cur ≡ db.cur
  unfolding clean_keys
  clean_keys-cur lowest [] db db' h = ground (arith, h)
  clean_keys-cur lowest (k ∷ ks) db db' h = elim (Option-cases (clean_key lowest k db)) [
    | inl raised ↦ absurd (ground (arith, h, raised))
    | inr (db₁, e) ↦
        clean_keys-cur lowest ks db₁ db' (sym (ap (λ m. m >>= clean_keys lowest ks) e) ∙ h)
        ∙ clean_key-cur lowest k db db₁ e
  ]

  clean_version-cur :
      (lowest : ℕ) (rest : List ℕ) (db db' : Db O kv)
      → clean_version lowest rest db ≡ some db'
      → db'.cur ≡ db.cur
  unfolding clean_version
  clean_version-cur lowest [] db db' h = ground (arith, h)
  clean_version-cur lowest (v ∷ rest) db db' h =
      elim (Option-cases (db.version_number_objects lowest)) [
        | inl raised ↦ absurd (ground (arith, h, raised))
        | inr (touched, e) ↦ clean_keys-cur lowest touched _ db' (rw e at h)
      ]

  cleanup_loop-cur :
      (versions : List ℕ) (db db' : Db O kv)
      → cleanup_loop versions db ≡ some db'
      → db'.cur ≡ db.cur
  unfolding cleanup_loop
  cleanup_loop-cur [] db db' h = ground (arith, h)
  cleanup_loop-cur (lowest ∷ rest) db db' h =
      elim (Bool-cases (refers_below db.min_reffed lowest)) [
        | inl below ↦ ground (arith, h, below)
        | inr above ↦ elim (Option-cases (clean_version lowest rest db)) [
          | inl raised ↦ absurd (ground (arith, h, above, raised))
          | inr (db₁, e) ↦
              let later : cleanup_loop rest db₁ ≡ some db' = ground (arith, h, above, e) in
              cleanup_loop-cur rest db₁ db' later ∙ clean_version-cur lowest rest db db₁ e
        ]
      ]

  release_view-cur : (t : ℕ) (db db' : Db O kv) → release_view t db ≡ some db' → db'.cur ≡ db.cur
  unfolding release_view cleanup
  release_view-cur t db db' h = elim (Option-cases (decversion t db)) [
    | inl raised ↦ absurd (ground (arith, h, raised))
    | inr (db₁, e) ↦
        let later : cleanup_loop db₁.version_numbers db₁ ≡ some db' = ground (arith, h, e) in
        cleanup_loop-cur db₁.version_numbers db₁ db' later ∙ decversion-cur t db db₁ e
  ]

  view-cur :
      (number : Option ℕ) (t : ℕ) (db db' : Db O kv)
      → view number db ≡ some (t, db')
      → db'.cur ≡ db.cur
  unfolding view incversion
  view-cur number t db db' h = ground (arith, h)

  update_cache-cur :
      (key t : ℕ) (parsed : Option O) (db db' : Db O kv)
      → update_cache key t parsed db ≡ some db'
      → db'.cur ≡ db.cur
  unfolding update_cache
  update_cache-cur key t parsed db db' h = ground (arith, h)

  set_versioned-cur :
      (writes : List (ℕ × Entry J O)) (t : ℕ) (db db' : Db O kv)
      → set_versioned writes t db ≡ some db'
      → (t ≡ db.cur) × (db'.cur ≡ suc db.cur)
  unfolding set_versioned commit_at
  set_versioned-cur writes t db db' h = elim (Bool-cases (t == db.cur)) [
    | inl same ↦ (ground (arith, same), ground (arith, same, h))
    | inr other ↦ absurd (ground (arith, other, h))
  ]

  Follows-cur : {db₀ db : Db O kv} → Follows db₀ db → db₀.cur ≤ db.cur
  Follows-cur nothing = omega arith
  Follows-cur (open_view db db' number t f e) =
      omega (arith, Follows-cur f, view-cur number t db db' e)
  Follows-cur {db₀} (open_transaction db db' f e) =
      let same : (transaction db).1.cur ≡ db.cur = unfold transaction in incversion-cur db.cur db in
      subst (λ (x : Db O kv). db₀.cur ≤ x.cur) e (omega (arith, Follows-cur f, same))
  Follows-cur (cache db db' key t parsed f e) =
      omega (arith, Follows-cur f, update_cache-cur key t parsed db db' e)
  Follows-cur (commit db db' t writes f e) =
      omega (arith, Follows-cur f, (set_versioned-cur writes t db db' e).1)
  Follows-cur (release db db' t f e) = omega (arith, Follows-cur f, release_view-cur t db db' e)

  -- The first committer wins: once a transaction with number t has committed, a commit with the same number
  -- raises RevisionConflictException in every state that views, transactions, cache updates, commits and
  -- releases reach from then on.
  pub set_versioned_conflict :
      (writes more : List (ℕ × Entry J O)) (t : ℕ) (db db' db'' : Db O kv)
      → set_versioned writes t db ≡ some db'
      → Follows db' db''
      → set_versioned more t db'' ≡ none
  unfolding set_versioned
  set_versioned_conflict writes more t db db' db'' h f =
      let (at, next) = set_versioned-cur writes t db db' h in
      let old : (t == db''.cur) ≡ false = ground (arith, at, next, Follows-cur f) in
      ground (arith, old)
