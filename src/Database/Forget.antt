-- ===== src/Database/Forget.antt =====
-- `_cleanup` of core/object_database.py keeps the invariant and never raises.
use mathlib.Core.Option
use test_looper.Common.{
  ℕ, ◌≤◌, ◌<◌, ◌≡◌, refl, sym, ap, ◌∙◌, subst, Bool, true, false, Option, none, some, List, [], ◌∷◌,
  arith, if◌then◌else◌, Map, update, elem, All, All-map, All-zip, keep-congr,
}
use test_looper.KvStore.{KvStore}
use test_looper.Database.Versions.{Db, clean_version}
use test_looper.Database.Slots.{slot, Shows}
use test_looper.Database.Cleanup.{SameRest, Pending, clean_keys_lem}
use test_looper.Database.Invariant.{
  Consecutive, Consecutive-All, Consecutive-le, keep-Ascends, Shows-raise, touched, writers,
  HasKeys, IsConsistent,
}

module _ {J O : Type 0} {kv : KvStore J} (H : ℕ → ℕ → Option J) where
  -- What a clean-up does to the rest of the state.
  pub record Forgot (low : ℕ) (rest : List ℕ) (db db' : Db O kv) : Type 0 where
    pub consistent : IsConsistent H db'
    pub min : db'.min ≡ low
    pub cur : db'.cur ≡ db.cur
    pub counts : db'.counts ≡ db.counts
    pub min_reffed : db'.min_reffed ≡ db.min_reffed
    pub version_numbers : db'.version_numbers ≡ rest

  abbrev popped : ℕ → List ℕ → Db O kv → Db O kv
  popped low rest db = record db {
    version_numbers = rest;
    version_number_objects = update db.version_number_objects low none;
  }

  HasKeys-popped :
      (low : ℕ) (db db' : Db O kv)
      → db'.version_number_objects ≡ update db.version_number_objects low none
      → (v : ℕ) → low < v
      → HasKeys db v
      → HasKeys db' v
  HasKeys-popped low db db' e v lt h = record {
    keys = h.keys;
    at = subst (λ (m : Map (List ℕ)). m v ≡ some h.keys) (sym e) (ground (arith, h.at));
    distinct = h.distinct;
  }

  module _ (db : Db O kv) (low : ℕ) (ok : IsConsistent H db) where
    -- The last version is forgotten: every view reads the store itself.
    pub clean_version-last :
        db.version_numbers ≡ low ∷ []
        → (db' : Db O kv) × (clean_version low [] db ≡ some db') × Forgot low [] db db'
    unfolding clean_version
    clean_version-last e =
        let keys = subst (All (HasKeys db)) e ok.keys in
        let first = keys.0 in
        let con = subst (λ vs. Consecutive db.min vs db.cur) e ok.consecutive in
        (
          record (popped low [] db) {
            min = db.cur;
            key_version_numbers = λ k. none;
            tail_values = λ k. none;
          },
          rw first.at refl,
          record {
            consistent = record {
              consecutive = refl;
              keys = tt;
              shows = λ k. record {
                versions = refl;
                no_tail = λ _. refl;
                latest = (ok.shows k).latest;
                ascends = tt;
                reads = λ t lt le.
                    let now : t ≡ db.cur = omega arith in
                    subst (λ u. some (kv.get db.kvstore k) ≡ some (H u k)) (sym now)
                      (ap some (ok.shows k).latest);
              };
            };
            min = sym con.1;
            cur = refl;
            counts = refl;
            min_reffed = refl;
            version_numbers = refl;
          },
        )

    module _ (r : ℕ) (rs : List ℕ) (e : db.version_numbers ≡ low ∷ r ∷ rs) where
      abbrev started : Db O kv
      started = record (popped low (r ∷ rs) db) { min = low }

      con : Consecutive db.min (low ∷ r ∷ rs) db.cur
      con = subst (λ vs. Consecutive db.min vs db.cur) e ok.consecutive

      keys_ok : All (HasKeys db) (low ∷ r ∷ rs)
      keys_ok = subst (All (HasKeys db)) e ok.keys

      Shows-here :
          (k : ℕ) → Shows db.min db.cur (λ t. H t k) (writers db k (low ∷ r ∷ rs)) (slot db k)
      Shows-here k =
          subst (λ vs. Shows db.min db.cur (λ t. H t k) (writers db k vs) (slot db k)) e
            (ok.shows k)

      touched_low : touched db low ≡ keys_ok.0.keys
      touched_low = rw keys_ok.0.at

      min-le : db.min ≤ db.cur
      min-le = Consecutive-le db.min (low ∷ r ∷ rs) db.cur con

      abbrev left : ℕ → List ℕ
      left k = writers db k (r ∷ rs)

      writers-low :
          (k : ℕ) (b : Bool)
          → elem k keys_ok.0.keys ≡ b
          → writers db k (low ∷ r ∷ rs) ≡ (if b then low ∷ left k else left k)
      writers-low k b m = rw (touched_low, m)

      Pending-start : Pending {low = db.min} {top = db.cur} H low left min-le keys_ok.0.keys started
      Pending-start = record {
        todo = λ k m.
            subst (λ vs. Shows db.min db.cur (λ t. H t k) vs (slot db k)) (writers-low k true m)
              (Shows-here k);
        done = λ k m.
            Shows-raise (left k)
              (subst (λ vs. Shows db.min db.cur (λ t. H t k) vs (slot db k)) (writers-low k false m)
                (Shows-here k))
              (omega (arith, con.0))
              (keep-Ascends (λ v. elem k (touched db v)) low (r ∷ rs) db.cur con.1);
      }

      above : All (λ v. low < v) (r ∷ rs)
      above = All-map (r ∷ rs) (λ v h. h.0) (Consecutive-All low (r ∷ rs) db.cur con.1)

      module _ (db' : Db O kv) (same : SameRest started db') where
        touched-same : (v : ℕ) → low < v → touched db' v ≡ touched db v
        touched-same v lt =
            ap (λ (o : Option (List ℕ)). Option.get_or o [])
              (ap (λ (m : Map (List ℕ)). m v) same.version_number_objects ∙ skip)
          where
            skip : update db.version_number_objects low none v ≡ db.version_number_objects v
            skip = ground arith

        writers-same : (k : ℕ) → writers db' k (r ∷ rs) ≡ left k
        writers-same k =
            keep-congr (λ v. elem k (touched db' v)) (λ v. elem k (touched db v)) (r ∷ rs)
              (All-map (r ∷ rs) (λ v lt. ap (elem k) (touched-same v lt)) above)

        IsConsistent-after :
            ((k : ℕ) → Shows low db.cur (λ t. H t k) (left k) (slot db' k)) → IsConsistent H db'
        IsConsistent-after shows = record {
          consecutive = simp (same.min, same.version_numbers, same.cur) con.1;
          keys = simp same.version_numbers (
              All-zip (r ∷ rs) (HasKeys-popped low db db' same.version_number_objects) above
                keys_ok.1);
          shows = λ k. simp (same.min, same.cur, same.version_numbers, writers-same k) (shows k);
        }

      -- The lowest of several versions is forgotten.
      pub clean_version-more :
          (db' : Db O kv) × (clean_version low (r ∷ rs) db ≡ some db') × Forgot low (r ∷ rs) db db'
      unfolding clean_version
      clean_version-more =
          let (db', steps, shows, same) =
            clean_keys_lem {low = db.min} {top = db.cur} H low left min-le keys_ok.0.keys started
              keys_ok.0.distinct Pending-start in
          (
            db',
            rw keys_ok.0.at steps,
            record {
              consistent = IsConsistent-after db' same shows;
              min = same.min;
              cur = same.cur;
              counts = same.counts;
              min_reffed = same.min_reffed;
              version_numbers = same.version_numbers;
            },
          )
