-- ===== src/Database/History.antt =====
-- `_set_versioned_object_data` of core/object_database.py keeps the invariant: the history gets one
-- more time, at which the written keys hold the written values.
use test_looper.Common.{
  ℕ, suc, ◌≤◌, ◌≡◌, refl, ap, ◌∙◌, Bool, true, false, Option, none, some, List, [], ◌∷◌, ◌++◌, map,
  arith, if◌then◌else◌, ==_refl, elem, Distinct, keep-append, keep-congr, All-map, All-zip,
  All-snoc,
}
use mathlib.Core.List.{append-nil}
use test_looper.KvStore.{KvStore}
use test_looper.Database.Versions.{Db, Entry, keep_tails, add_numbers, add_objects, commit_at}
use test_looper.Database.Slots.{slot, Shows}
use test_looper.Database.Invariant.{
  Consecutive, Consecutive-le, Consecutive-All, touched, writers, HasKeys, IsConsistent,
}
use test_looper.Database.Written.{later, written, Shows-still, Shows-written}
use test_looper.Database.Commit.{
  find, keys_of, on_found, is_found, elem-keys_of, add_numbers-at, add_objects-at, keep_tails-at,
  last_write-at,
}

Consecutive-snoc :
    (m : ℕ) (vs : List ℕ) (top : ℕ)
    → Consecutive m vs top
    → Consecutive m (vs ++ suc top ∷ []) (suc top)
Consecutive-snoc m [] top c = (omega arith, refl)
Consecutive-snoc m (v ∷ vs) top c = (c.0, Consecutive-snoc v vs top c.1)

-- The history after a commit at `top`: a written key has its new value, any other its last one.
abbrev pub extend :
    {J O : Type 0} → (ℕ → ℕ → Option J) → ℕ → List (ℕ × Entry J O) → ℕ → ℕ → Option J
extend H top writes t k = later (λ u. H u k) top (on_found (find writes k) (H top k) (λ e. e.0)) t

module _ {J O : Type 0} {kv : KvStore J} (H : ℕ → ℕ → Option J) (writes : List (ℕ × Entry J O))
    (ok : Distinct (keys_of writes)) (db : Db O kv) where
  abbrev next : Db O kv
  next = commit_at (suc db.cur) writes db

  slot-still : (k : ℕ) → find writes k ≡ none → slot next k ≡ slot db k
  unfolding commit_at
  slot-still k absent =
      λ i. record { versions = versions i; objects = objects i; tail = tail i; now = now i }
    where
      versions : add_numbers (suc db.cur) writes db.key_version_numbers k ≡ db.key_version_numbers k
      versions = rw (add_numbers-at (suc db.cur) writes db.key_version_numbers k ok, absent)

      objects :
          add_objects (suc db.cur) writes db.key_and_version_to_object k
          ≡ db.key_and_version_to_object k
      objects = rw (add_objects-at (suc db.cur) writes db.key_and_version_to_object k ok, absent)

      tail : keep_tails db writes db.tail_values k ≡ db.tail_values k
      tail = rw (keep_tails-at db writes db.tail_values k ok, absent)

      now :
          kv.get (kv.set_several db.kvstore (map (λ w. (w.0, w.1.0)) writes)) k
          ≡ kv.get db.kvstore k
      now = rw (kv.get-set_several, last_write-at writes k (kv.get db.kvstore k) ok, absent)

  slot-written :
      (k : ℕ) (e : Entry J O)
      → find writes k ≡ some e
      → slot next k ≡ written (suc db.cur) e (db.object_cache k) (slot db k)
  unfolding commit_at
  slot-written k e found =
      λ i. record { versions = versions i; objects = objects i; tail = tail i; now = now i }
    where
      versions :
          add_numbers (suc db.cur) writes db.key_version_numbers k
          ≡ (written (suc db.cur) e (db.object_cache k) (slot db k)).versions
      versions = rw (add_numbers-at (suc db.cur) writes db.key_version_numbers k ok, found)

      objects :
          add_objects (suc db.cur) writes db.key_and_version_to_object k
          ≡ (written (suc db.cur) e (db.object_cache k) (slot db k)).objects
      objects = rw (add_objects-at (suc db.cur) writes db.key_and_version_to_object k ok, found)

      tail :
          keep_tails db writes db.tail_values k
          ≡ (written (suc db.cur) e (db.object_cache k) (slot db k)).tail
      tail = rw (keep_tails-at db writes db.tail_values k ok, found)

      now : kv.get (kv.set_several db.kvstore (map (λ w. (w.0, w.1.0)) writes)) k ≡ e.0
      now = rw (kv.get-set_several, last_write-at writes k (kv.get db.kvstore k) ok, found)

  touched_old : (v : ℕ) → v ≤ db.cur → touched next v ≡ touched db v
  unfolding commit_at
  touched_old v le = ground arith

  touched_new : touched next (suc db.cur) ≡ keys_of writes
  unfolding commit_at
  touched_new = rw (==_refl (suc db.cur))

  module _ (con : IsConsistent H db) where
    writers_old : (k : ℕ) → writers next k db.version_numbers ≡ writers db k db.version_numbers
    writers_old k =
        keep-congr (λ v. elem k (touched next v)) (λ v. elem k (touched db v)) db.version_numbers
          (All-map db.version_numbers (λ v h. ap (elem k) (touched_old v h.1))
            (Consecutive-All db.min db.version_numbers db.cur con.consecutive))

    writers-next :
        (k : ℕ) (b : Bool)
        → elem k (keys_of writes) ≡ b
        → writers next k next.version_numbers
          ≡ writers db k db.version_numbers ++ (if b then suc db.cur ∷ [] else [])
    unfolding commit_at
    writers-next k b m =
        rw (keep-append (λ v. elem k (touched next v)) db.version_numbers (suc db.cur ∷ []))
          (rw (writers_old k, touched_new, m))

    Shows-next :
        (k : ℕ) (o : Option (Entry J O))
        → find writes k ≡ o
        → Shows db.min
            (suc db.cur)
            (later (λ t. H t k) db.cur (on_found o (H db.cur k) (λ e. e.0)))
            (writers next k next.version_numbers)
            (slot next k)
    unfolding is_found
    Shows-next k none absent =
        rw
          (
            writers-next k false (elem-keys_of writes k ∙ ap is_found absent),
            append-nil,
            slot-still k absent,
          )
          (Shows-still (Consecutive-le db.min db.version_numbers db.cur con.consecutive) _ _
            (con.shows k))
    Shows-next k (some e) found =
        rw (writers-next k true (elem-keys_of writes k ∙ ap is_found found), slot-written k e found)
          (Shows-written (Consecutive-le db.min db.version_numbers db.cur con.consecutive) e
            (db.object_cache k) _ _ (con.shows k))

    pub commit_at-IsConsistent : IsConsistent (extend H db.cur writes) next
    unfolding commit_at
    commit_at-IsConsistent = record {
      consecutive = Consecutive-snoc db.min db.version_numbers db.cur con.consecutive;
      keys =
          All-snoc (HasKeys next) db.version_numbers (suc db.cur)
            (record { keys = keys_of writes; at = rw (==_refl (suc db.cur)); distinct = ok })
            (All-zip db.version_numbers
              (λ v range h. record {
                keys = h.keys;
                at = ground (arith, range, h.at);
                distinct = h.distinct;
              })
              (Consecutive-All db.min db.version_numbers db.cur con.consecutive) con.keys);
      shows = λ k. Shows-next k (find writes k) refl;
    }
