-- ===== src/Database/Snapshot.antt =====
-- Snapshot isolation of core/object_database.py: what the operations of `Database` can reach, and
-- what a view that is held reads there.
use test_looper.Common.{
  ℕ, suc, ◌≤◌, ◌≡◌, ◌≢◌, refl, sym, ap, ◌∙◌, subst, Option, none, some, List, [], ◌∷◌, inl, inr,
  arith, ◌==◌, Option-cases, Bool-cases, ==_iff, All-map, Distinct,
}
use test_looper.KvStore.{KvStore}
use test_looper.Database.Versions.{
  Db, Entry, init_db, count_of, incversion, view, transaction, get_versioned, update_cache,
  set_versioned, commit_at, release_view, decversion, drop_version, cleanup, cleanup_loop, min_key,
}
use test_looper.Database.Slots.{json, get_versioned-slot}
use test_looper.Database.Invariant.{Consecutive-le, IsConsistent}
use test_looper.Database.Counts.{InRange, All-count_of, incversion-IsCounted, recount}
use test_looper.Database.Settle.{IsSound, release_view_lem}
use test_looper.Database.Commit.{keys_of}
use test_looper.Database.History.{extend, commit_at-IsConsistent}
use test_looper.Database.Cache.{update_cache-SameData, SameData-IsSound}

-- The states that the operations reach from a store, with the history of committed values:
-- `H t key` is the value of the key after transaction `t`.
pub data Reaches {J O : Type 0} {kv : KvStore J} : (ℕ → ℕ → Option J) → Db O kv → Type 0 where
  start : (store : kv.Store) → Reaches (λ t k. kv.get store k) (init_db store)
  open_view :
      {H : ℕ → ℕ → Option J} {db db' : Db O kv} (number : Option ℕ) (t : ℕ)
      → Reaches H db
      → view number db ≡ some (t, db')
      → Reaches H db'
  open_transaction :
      {H : ℕ → ℕ → Option J} {db db' : Db O kv}
      → Reaches H db
      → (transaction db).1 ≡ db'
      → Reaches H db'
  cache :
      {H : ℕ → ℕ → Option J} {db db' : Db O kv} (key t : ℕ) (parsed : Option O)
      → Reaches H db
      → update_cache key t parsed db ≡ some db'
      → Reaches H db'
  commit :
      {H H' : ℕ → ℕ → Option J} {db db' : Db O kv} (t : ℕ) (writes : List (ℕ × Entry J O))
      → Distinct (keys_of writes)
      → Reaches H db
      → set_versioned writes t db ≡ some db'
      → H' ≡ extend H db.cur writes
      → Reaches H' db'
  release :
      {H : ℕ → ℕ → Option J} {db db' : Db O kv} (t n : ℕ)
      → count_of db.counts t ≡ some n
      → Reaches H db
      → release_view t db ≡ some db'
      → Reaches H db'

module _ {J O : Type 0} {kv : KvStore J} where
  init_db-IsSound :
      (store : kv.Store) → IsSound {O = O} (λ t k. kv.get store k) (init_db {kv = kv} store)
  init_db-IsSound store = record {
    consistent = record {
      consecutive = refl;
      keys = tt;
      shows = λ k. record {
        versions = refl;
        no_tail = λ _. refl;
        latest = refl;
        ascends = tt;
        reads = λ t lo hi. refl;
      };
    };
    counted = record { least = refl; in_range = tt };
  }

  incversion-IsConsistent :
      (H : ℕ → ℕ → Option J) (t : ℕ) (db : Db O kv)
      → IsConsistent H db
      → IsConsistent H (incversion t db)
  unfolding incversion
  incversion-IsConsistent H t db ok = elim (Option-cases (count_of db.counts t)) [
    | inl new ↦
        rw (new, incversion)
          (record {
            consecutive = ok.consecutive;
            keys =
                All-map db.version_numbers
                  (λ v h. record { keys = h.keys; at = h.at; distinct = h.distinct }) ok.keys;
            shows = ok.shows;
          })
    | inr (n, old) ↦
        rw (old, incversion)
          (record {
            consecutive = ok.consecutive;
            keys =
                All-map db.version_numbers
                  (λ v h. record { keys = h.keys; at = h.at; distinct = h.distinct }) ok.keys;
            shows = ok.shows;
          })
  ]

  incversion-IsSound :
      (H : ℕ → ℕ → Option J) (t : ℕ) (db : Db O kv)
      → db.min ≤ t
      → t ≤ db.cur
      → IsSound H db
      → IsSound H (incversion t db)
  incversion-IsSound H t db lo hi ok = record {
    consistent = incversion-IsConsistent H t db ok.consistent;
    counted = incversion-IsCounted t db ok.counted lo hi;
  }

  IsConsistent-le : (H : ℕ → ℕ → Option J) (db : Db O kv) → IsConsistent H db → db.min ≤ db.cur
  IsConsistent-le H db ok = Consecutive-le db.min db.version_numbers db.cur ok.consecutive

  commit_at-IsSound :
      (H : ℕ → ℕ → Option J) (writes : List (ℕ × Entry J O))
      → Distinct (keys_of writes)
      → (db : Db O kv) → IsSound H db
      → IsSound (extend H db.cur writes) (commit_at (suc db.cur) writes db)
  unfolding commit_at
  commit_at-IsSound H writes distinct db ok = record {
    consistent = commit_at-IsConsistent H writes distinct db ok.consistent;
    counted = record {
      least = ok.counted.least;
      in_range = All-map db.counts (λ c r. (r.0, omega arith, r.2)) ok.counted.in_range;
    };
  }

  set_versioned_inv :
      (writes : List (ℕ × Entry J O)) (t : ℕ) (db db' : Db O kv)
      → set_versioned writes t db ≡ some db'
      → commit_at (suc db.cur) writes db ≡ db'
  unfolding set_versioned
  set_versioned_inv writes t db db' h = elim (Bool-cases (t == db.cur)) [
    | inl same ↦
        let e : t ≡ db.cur = (==_iff t db.cur).0 same in
        let h' : some (commit_at (suc t) writes db) ≡ some db' = rw same at h in
        let h'' : commit_at (suc t) writes db ≡ db' = cc in
        subst (λ u. commit_at (suc u) writes db ≡ db') e h''
    | inr other ↦ absurd (ground (arith, other, h))
  ]

  view_inv :
      (number : Option ℕ) (t : ℕ) (db db' : Db O kv)
      → view number db ≡ some (t, db')
      → (db.min ≤ t) × (t ≤ db.cur) × (incversion t db ≡ db')
  unfolding view
  view_inv none t db db' h = ground arith
  view_inv (some u) t db db' h = ground arith

  transaction_lem : (db : Db O kv) → (transaction db).1 ≡ incversion db.cur db
  unfolding transaction
  transaction_lem db = refl

  -- Every operation keeps the invariant.
  Reaches-IsSound : {H : ℕ → ℕ → Option J} {db : Db O kv} → Reaches H db → IsSound H db
  Reaches-IsSound (start store) = init_db-IsSound store
  Reaches-IsSound (open_view {H} {db} {db'} number t r h) =
      let (lo, hi, e) = view_inv number t db db' h in
      subst (IsSound H) e (incversion-IsSound H t db lo hi (Reaches-IsSound r))
  Reaches-IsSound (open_transaction {H} {db} {db'} r h) =
      let ok = Reaches-IsSound r in
      subst (IsSound H) (sym (transaction_lem db) ∙ h)
        (incversion-IsSound H db.cur db (IsConsistent-le H db ok.consistent) (omega arith) ok)
  Reaches-IsSound (cache {H} {db} {db'} key t parsed r h) =
      SameData-IsSound H db db' (update_cache-SameData key t parsed db db' h) (Reaches-IsSound r)
  Reaches-IsSound (commit {H} {H'} {db} {db'} t writes distinct r h e) =
      subst (λ K. IsSound K db') (sym e)
        (subst (IsSound (extend H db.cur writes)) (set_versioned_inv writes t db db' h)
          (commit_at-IsSound H writes distinct db (Reaches-IsSound r)))
  Reaches-IsSound (release {H} {db} {db'} t n held r h) =
      let (x, e, ok) = release_view_lem H t n db (Reaches-IsSound r) held in
      let eq : x ≡ db' = cc in subst (IsSound H) eq ok

  -- Snapshot isolation: in every state that the operations reach from a store, the read of a key by
  -- a view or transaction that is held at number `t` does not raise and gives the JSON value that the
  -- key had after transaction `t`. Of the parsed object beside it nothing is said.
  pub get_versioned-Reaches :
      (H : ℕ → ℕ → Option J) (db : Db O kv) (t n key : ℕ)
      → Reaches H db
      → count_of db.counts t ≡ some n
      → json (get_versioned key t db) ≡ some (H t key)
  get_versioned-Reaches H db t n key r held =
      let ok = Reaches-IsSound r in
      let range = All-count_of (InRange db.min db.cur) t n db.counts held ok.counted.in_range in
      get_versioned-slot db _ key t (ok.consistent.shows key) range.0 range.1

  -- In every state that the operations reach, releasing a view that is held does not raise: the
  -- clean-up meets no missing key and no failed assertion.
  pub release_view-Reaches :
      (H : ℕ → ℕ → Option J) (db : Db O kv) (t n : ℕ)
      → Reaches H db
      → count_of db.counts t ≡ some n
      → release_view t db ≢ none
  release_view-Reaches H db t n r held h =
      let (db', e, _) = release_view_lem H t n db (Reaches-IsSound r) held in cc

  dropped_last :
      (db : Db O kv) (t : ℕ)
      → db.counts ≡ (t, 1) ∷ []
      → db.min_reffed ≡ some t
      → decversion t db ≡ some (recount [] none db)
  unfolding decversion drop_version
  dropped_last db t only least = ground (arith, only, least)

  cleanup_loop_unreferred :
      (versions : List ℕ) (db : Db O kv) → db.min_reffed ≡ none → cleanup_loop versions db ≡ some db
  unfolding cleanup_loop
  cleanup_loop_unreferred [] db e = refl
  cleanup_loop_unreferred (v ∷ vs) db e = ground (arith, e)

  -- When the view that is released is the only one, no version is forgotten and no old value is
  -- dropped, however many versions there are.
  pub release_view_last :
      (H : ℕ → ℕ → Option J) (db : Db O kv) (t : ℕ)
      → Reaches H db
      → db.counts ≡ (t, 1) ∷ []
      → (db' : Db O kv) × (release_view t db ≡ some db')
        × (db'.version_numbers ≡ db.version_numbers)
        × (db'.tail_values ≡ db.tail_values)
        × (db'.min ≡ db.min)
  release_view_last H db t r only =
      let least : db.min_reffed ≡ some t = (Reaches-IsSound r).counted.least ∙ ap min_key only in
      (recount [] none db, last least, refl, refl, refl)
    where
      last : db.min_reffed ≡ some t → release_view t db ≡ some (recount [] none db)
      last least =
          unfold release_view cleanup in
          rw (dropped_last db t only least) (cleanup_loop_unreferred db.version_numbers _ refl)
