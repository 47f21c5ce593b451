-- ===== src/Database/Tests.antt =====
-- Runs of core/object_database.py's `Database` over the in-memory store, and the theorems there.
use test_looper.Common.{ℕ, ◌≡◌, ◌≢◌, refl, Option, none, some, List, [], ◌∷◌}
use test_looper.KvStore.{KvStore}
use test_looper.KvStore.Memory.{memory_store}
use test_looper.Database.Versions.{
  Db, Entry, init_db, count_of, incversion, transaction, get_versioned, set_versioned, commit_at,
  release_view,
}
use test_looper.Database.Slots.{json}
use test_looper.Database.History.{extend}
use test_looper.Database.Snapshot.{
  Reaches, start, open_transaction, commit, get_versioned-Reaches, release_view-Reaches,
  release_view_last,
}
use test_looper.Database.Versions.{update_cache}
use test_looper.Common.{◌+◌, update}
use test_looper.Database.Parsed.{Keeps, get_versioned-Keeps}
use test_looper.Database.Conflict.{Follows, set_versioned_conflict}

abbrev store : KvStore ℕ
store = memory_store {J = ℕ} {S = ℕ} (λ v. v) (λ v. v) (λ v. refl)

abbrev empty : Db ℕ store
empty = init_db {kv = store} (λ k. none)

abbrev nothing : ℕ → ℕ → Option ℕ
nothing t k = store.get (λ j. none) k

-- A transaction is open at number 0.
abbrev opened : Db ℕ store
opened = incversion 0 empty

abbrev writes : List (ℕ × Entry ℕ ℕ)
writes = (7, (some 40, none)) ∷ (8, (some 41, some 3)) ∷ []

-- It has committed, and is still open.
abbrev committed : Db ℕ store
committed = commit_at 1 writes opened

opened-Reaches : Reaches nothing opened
unfolding transaction
opened-Reaches = open_transaction (start (λ k. none)) refl

committed-Reaches : Reaches (extend nothing opened.cur writes) committed
unfolding set_versioned incversion
committed-Reaches = commit 0 writes (refl, (refl, tt)) opened-Reaches refl refl

held : count_of committed.counts 0 ≡ some 1
unfolding commit_at incversion
held = refl

-- The open transaction still reads the state that it was opened on.
get_versioned-Reaches_example :
    json (get_versioned 7 0 committed) ≡ some (extend nothing opened.cur writes 0 7)
get_versioned-Reaches_example =
    get_versioned-Reaches (extend nothing opened.cur writes) committed 0 1 7 committed-Reaches held

release_view-Reaches_example : release_view 0 committed ≢ none
release_view-Reaches_example =
    release_view-Reaches (extend nothing opened.cur writes) committed 0 1 committed-Reaches held

first : set_versioned writes 0 opened ≡ some committed
unfolding set_versioned incversion
first = refl

-- A second transaction is opened at number 1 and commits.
abbrev again : Db ℕ store
again = commit_at 2 writes (incversion 1 committed)

again-Follows : Follows committed again
unfolding transaction set_versioned incversion
again-Follows =
    Follows.commit (incversion 1 committed) again 1 writes
      (Follows.open_transaction committed (incversion 1 committed) Follows.nothing refl) refl

set_versioned_conflict_example : set_versioned writes 0 again ≡ none
set_versioned_conflict_example =
    set_versioned_conflict writes writes 0 opened committed again first again-Follows

only : committed.counts ≡ (0, 1) ∷ []
unfolding commit_at incversion
only = refl

release_view_last_example :
    (db' : Db ℕ store) × (release_view 0 committed ≡ some db')
    × (db'.version_numbers ≡ committed.version_numbers)
    × (db'.tail_values ≡ committed.tail_values)
    × (db'.min ≡ committed.min)
release_view_last_example =
    release_view_last (extend nothing opened.cur writes) committed 0 committed-Reaches only

-- A parser that takes 38 off.
abbrev Fits : Option ℕ → Option ℕ → Type 0
Fits v none = Unit
Fits v (some o) = v ≡ some (o + 38)

fits_none : (v : Option ℕ) → Fits v none
fits_none v = tt

committed-Keeps : Keeps Fits committed
unfolding transaction set_versioned incversion
committed-Keeps =
    Keeps.commit opened committed 0 writes
      (Keeps.open_transaction empty opened (Keeps.start (λ k. none)) refl) (tt, (refl, tt)) refl

-- What is read of key 7 is parsed, and the object put in the cache.
abbrev looked_up : Db ℕ store
looked_up = record committed {
  key_and_version_to_object =
      update committed.key_and_version_to_object 7
        (update (committed.key_and_version_to_object 7) 1 (some (some 40, some 2)));
}

looked_up-Keeps : Keeps Fits looked_up
unfolding get_versioned update_cache commit_at incversion
looked_up-Keeps =
    Keeps.cache committed looked_up 7 1 (some 40, none) (some 2) committed-Keeps refl refl refl

read_again : get_versioned 7 1 looked_up ≡ some (some 40, some 2)
unfolding get_versioned commit_at incversion
read_again = refl

get_versioned-Keeps_example : Fits (some 40) (some 2)
get_versioned-Keeps_example =
    get_versioned-Keeps Fits looked_up 7 1 (some 40, some 2) fits_none looked_up-Keeps read_again
