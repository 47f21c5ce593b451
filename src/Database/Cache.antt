-- ===== src/Database/Cache.antt =====
-- `_update_versioned_object_data_cache` of core/object_database.py changes no json value.
use mathlib.Core.Option
use test_looper.Common.{
  keep, elem, ℕ, ◌≡◌, refl, sym, ap, ◌∙◌, subst, Option, none, some, List, [], ◌∷◌, inl, inr, arith,
  ◌==◌, Option-cases, Bool-cases, ==_iff, Map, update, All-map,
}
use test_looper.KvStore.{KvStore}
use test_looper.Database.Versions.{Db, Entry, best_version_for, update_cache}
use test_looper.Database.Slots.{Slot, slot, json, json_at, Shows}
use test_looper.Database.Invariant.{writers}
use test_looper.Database.Settle.{IsSound}

-- Two slots with the same json values.
pub record SameJson {J O : Type 0} (s s' : Slot J O) : Type 0 where
  pub versions : s'.versions ≡ s.versions
  pub now : s'.now ≡ s.now
  pub tail : json s'.tail ≡ json s.tail
  pub objects : (v : ℕ) → json (s'.objects v) ≡ json (s.objects v)

module _ {J O : Type 0} where
  json-none : (o : Option (Entry J O)) → json o ≡ none → o ≡ none
  json-none none h = refl
  json-none (some e) h = ground arith

  json_at-same :
      (vs : List ℕ) (s s' : Slot J O) → SameJson s s' → (t : ℕ) → json_at s' vs t ≡ json_at s vs t
  json_at-same [] s s' same t = ap some same.now
  json_at-same (v ∷ vs) s s' same t = elim (Option-cases (best_version_for t (v ∷ vs))) [
    | inl e ↦ rw e same.tail
    | inr (w, e) ↦ rw e (same.objects w)
  ]

  Shows-same :
      {low top : ℕ} {h : ℕ → Option J} (vs : List ℕ) (s s' : Slot J O)
      → SameJson s s'
      → Shows low top h vs s
      → Shows low top h vs s'
  Shows-same vs s s' same sh = record {
    versions = same.versions ∙ sh.versions;
    no_tail = λ e. json-none s'.tail (same.tail ∙ ap json (sh.no_tail e));
    latest = same.now ∙ sh.latest;
    ascends = sh.ascends;
    reads = λ t lo hi. json_at-same vs s s' same t ∙ sh.reads t lo hi;
  }

module _ {J O : Type 0} {kv : KvStore J} where
  -- Two states that differ in parsed objects at most.
  pub record SameData (db db' : Db O kv) : Type 0 where
    pub cur : db'.cur ≡ db.cur
    pub min : db'.min ≡ db.min
    pub counts : db'.counts ≡ db.counts
    pub min_reffed : db'.min_reffed ≡ db.min_reffed
    pub version_numbers : db'.version_numbers ≡ db.version_numbers
    pub version_number_objects : db'.version_number_objects ≡ db.version_number_objects
    pub slots : (k : ℕ) → SameJson (slot db k) (slot db' k)

  abbrev with_cache : Map O → Db O kv → Db O kv
  with_cache cache db = record db { object_cache = cache }

  abbrev with_tail : ℕ → Entry J O → Db O kv → Db O kv
  with_tail key e db = record db { tail_values = update db.tail_values key (some e) }

  abbrev with_object : ℕ → ℕ → Entry J O → Db O kv → Db O kv
  with_object key v e db = record db {
    key_and_version_to_object =
        update db.key_and_version_to_object key
          (update (db.key_and_version_to_object key) v (some e));
  }

  SameData-cache : (cache : Map O) (db : Db O kv) → SameData db (with_cache cache db)
  SameData-cache cache db = record {
    cur = refl;
    min = refl;
    counts = refl;
    min_reffed = refl;
    version_numbers = refl;
    version_number_objects = refl;
    slots = λ k. record { versions = refl; now = refl; tail = refl; objects = λ v. refl };
  }

  tail-same :
      (db : Db O kv) (key : ℕ) (e : Entry J O) (p : Option O)
      → db.tail_values key ≡ some e
      → (k : ℕ) → json ((with_tail key (e.0, p) db).tail_values k) ≡ json (db.tail_values k)
  tail-same db key e p at k = elim (Bool-cases (k == key)) [
    | inl same ↦
        let here : db.tail_values k ≡ some e =
          subst (λ j. db.tail_values j ≡ some e) (sym ((==_iff k key).0 same)) at in
        rw (same, here)
    | inr other ↦ rw other
  ]

  SameData-tail :
      (db : Db O kv) (key : ℕ) (e : Entry J O) (p : Option O)
      → db.tail_values key ≡ some e
      → SameData db (with_tail key (e.0, p) db)
  SameData-tail db key e p at = record {
    cur = refl;
    min = refl;
    counts = refl;
    min_reffed = refl;
    version_numbers = refl;
    version_number_objects = refl;
    slots = λ k. record {
      versions = refl;
      now = refl;
      tail = tail-same db key e p at k;
      objects = λ v. refl;
    };
  }

  object-same :
      (db : Db O kv) (key v : ℕ) (e : Entry J O) (p : Option O)
      → db.key_and_version_to_object key v ≡ some e
      → (k w : ℕ)
      → json ((with_object key v (e.0, p) db).key_and_version_to_object k w)
        ≡ json (db.key_and_version_to_object k w)
  object-same db key v e p at k w = elim (Bool-cases (k == key)) [
    | inl same ↦ elim (Bool-cases (w == v)) [
      | inl here ↦
          let there : db.key_and_version_to_object k w ≡ some e =
            subst (λ j. db.key_and_version_to_object j w ≡ some e) (sym ((==_iff k key).0 same))
              (subst (λ u. db.key_and_version_to_object key u ≡ some e) (sym ((==_iff w v).0 here))
                at) in
          rw same (rw (here, there))
      | inr away ↦ rw same (
          rw away (ap (λ j. json (db.key_and_version_to_object j w)) (sym ((==_iff k key).0 same))))
    ]
    | inr other ↦ rw other
  ]

  SameData-object :
      (db : Db O kv) (key v : ℕ) (e : Entry J O) (p : Option O)
      → db.key_and_version_to_object key v ≡ some e
      → SameData db (with_object key v (e.0, p) db)
  SameData-object db key v e p at = record {
    cur = refl;
    min = refl;
    counts = refl;
    min_reffed = refl;
    version_numbers = refl;
    version_number_objects = refl;
    slots = λ k. record {
      versions = refl;
      now = refl;
      tail = refl;
      objects = object-same db key v e p at k;
    };
  }

  landed : {db db' x : Db O kv} → some x ≡ some db' → SameData db x → SameData db db'
  landed {db} {db'} {x} e same = let eq : x ≡ db' = cc in subst (SameData db) eq same

  pub update_cache-SameData :
      (key t : ℕ) (p : Option O) (db db' : Db O kv)
      → update_cache key t p db ≡ some db'
      → SameData db db'
  unfolding update_cache
  update_cache-SameData key t p db db' h = elim (Option-cases (db.key_version_numbers key)) [
    | inl current ↦ elim (Option-cases (db.tail_values key)) [
      | inl absent ↦
          landed (ground (arith, current, absent, h))
            (SameData-cache (update db.object_cache key p) db)
      | inr (e, at) ↦ landed (ground (arith, current, at, h)) (SameData-tail db key e p at)
    ]
    | inr (vs, versions) ↦ elim (Option-cases (best_version_for t vs)) [
      | inl before ↦ elim (Option-cases (db.tail_values key)) [
        | inl absent ↦ absurd (ground (arith, versions, before, absent, h))
        | inr (e, at) ↦
            landed (ground (arith, versions, before, at, h)) (SameData-tail db key e p at)
      ]
      | inr (v, best) ↦ elim (Option-cases (db.key_and_version_to_object key v)) [
        | inl absent ↦ absurd (ground (arith, versions, best, absent, h))
        | inr (e, at) ↦
            landed (ground (arith, versions, best, at, h)) (SameData-object db key v e p at)
      ]
    ]
  ]

  pub SameData-IsSound :
      (H : ℕ → ℕ → Option J) (db db' : Db O kv) → SameData db db' → IsSound H db → IsSound H db'
  SameData-IsSound H db db' same ok = record {
    consistent = record {
      consecutive = simp (same.min, same.cur, same.version_numbers) ok.consistent.consecutive;
      keys = simp same.version_numbers (
          All-map db.version_numbers
            (λ v h. record {
              keys = h.keys;
              at = ap (λ (m : Map (List ℕ)). m v) same.version_number_objects ∙ h.at;
              distinct = h.distinct;
            })
            ok.consistent.keys);
      shows = λ k.
          let chain : writers db' k db'.version_numbers ≡ writers db k db.version_numbers = λ i.
            keep (λ v. elem k (Option.get_or (same.version_number_objects i v) []))
              (same.version_numbers i) in
          simp (same.min, same.cur, chain)
            (Shows-same _ (slot db k) (slot db' k) (same.slots k) (ok.consistent.shows k));
    };
    counted = record {
      least = simp (same.min_reffed, same.counts) ok.counted.least;
      in_range = simp (same.min, same.cur, same.counts) ok.counted.in_range;
    };
  }
