-- ===== src/Database/Cleanup.antt =====
-- `_cleanup` of core/object_database.py: forgetting the lowest version neither raises nor changes
-- what a later time reads.
use test_looper.Common.{
  ℕ, ◌≤◌, ◌≡◌, ◌≢◌, refl, sym, ◌∙◌, true, false, Option, none, some, List, [], ◌∷◌, inl, inr, arith,
  ◌==◌, update, Option-cases, Bool-cases, ==_refl, ==_ne, ==_iff, elem, Distinct, subst,
}
use test_looper.KvStore.{KvStore}
use test_looper.Database.Versions.{Db, Entry, best_version_for, clean_key, clean_keys}
use test_looper.Database.Slots.{Slot, slot, best_none, best-cons, best-gt, json, Shows}

pub json-some :
    {J O : Type 0} (o : Option (Entry J O)) {j : Option J}
    → json o ≡ some j
    → (e : Entry J O) × (o ≡ some e) × (e.0 ≡ j)
json-some none h = ground arith
json-some (some e) h = (e, refl, ground arith)

abbrev clean_one : {J O : Type 0} → ℕ → Slot J O → Slot J O
clean_one n s = record s { versions = none; objects = update s.objects n none; tail = none }

abbrev clean_more : {J O : Type 0} → ℕ → List ℕ → Entry J O → Slot J O → Slot J O
clean_more n vs e s = record s {
  versions = some vs;
  objects = update s.objects n none;
  tail = some e;
}

module _ {J O : Type 0} {low top : ℕ} {h : ℕ → Option J} where
  -- At the lowest version itself the slot holds that version's value.
  pub head_entry :
      (n : ℕ) (vs : List ℕ) {s : Slot J O}
      → Shows low top h (n ∷ vs) s
      → (e : Entry J O) × (s.objects n ≡ some e) × (e.0 ≡ h n)
  unfolding best_version_for
  head_entry n vs {s} sh = json-some (s.objects n) (
      ground (
        arith,
        best_none n n top vs sh.ascends.2 (omega arith),
        sh.reads n (omega arith) sh.ascends.1,
      ))

  pub tail_entry :
      (n : ℕ) (vs : List ℕ) {s : Slot J O}
      → Shows low top h (n ∷ vs) s
      → low ≤ top
      → (e : Entry J O) × (s.tail ≡ some e) × (e.0 ≡ h low)
  tail_entry n vs {s} sh le = json-some s.tail (
      rw (best_none low low top (n ∷ vs) sh.ascends (omega arith)) at
        (sh.reads low (omega arith) le))

  Shows-clean_one :
      (n : ℕ) (s : Slot J O) → Shows low top h (n ∷ []) s → Shows n top h [] (clean_one n s)
  unfolding best_version_for
  Shows-clean_one n s sh = record {
    versions = refl;
    no_tail = λ _. refl;
    latest = sh.latest;
    ascends = tt;
    reads = λ t lt le. ground (
      arith,
      sh.latest,
      sh.reads t (omega arith) le,
      sh.reads top (omega arith) (omega arith),
      sh.ascends.0,
      sh.ascends.1,
    );
  }

  Shows-clean_more :
      (n w : ℕ) (vs : List ℕ) (e : Entry J O) (s : Slot J O)
      → Shows low top h (n ∷ w ∷ vs) s
      → s.objects n ≡ some e
      → Shows n top h (w ∷ vs) (clean_more n (w ∷ vs) e s)
  Shows-clean_more n w vs e s sh at = record {
    versions = refl;
    no_tail = λ p. ground arith;
    latest = sh.latest;
    ascends = sh.ascends.2;
    reads = λ t lt le. elim (Option-cases (best_version_for t (w ∷ vs))) [
      | inl absent ↦
          ground (arith, absent, best-cons t n (w ∷ vs), sh.reads t (omega arith) le, sh.ascends.0)
      | inr (x, found) ↦ ground (
        arith,
        found,
        best-cons t n (w ∷ vs),
        sh.reads t (omega arith) le,
        best-gt t n top (w ∷ vs) sh.ascends.2 found,
      )
    ];
  }

-- What a clean-up of keys leaves alone.
pub record SameRest {J O : Type 0} {kv : KvStore J} (d d' : Db O kv) : Type 0 where
  pub kvstore : d'.kvstore ≡ d.kvstore
  pub cur : d'.cur ≡ d.cur
  pub min : d'.min ≡ d.min
  pub counts : d'.counts ≡ d.counts
  pub min_reffed : d'.min_reffed ≡ d.min_reffed
  pub version_numbers : d'.version_numbers ≡ d.version_numbers
  pub version_number_objects : d'.version_number_objects ≡ d.version_number_objects

module _ {J O : Type 0} {kv : KvStore J} where
  abbrev cleaned_one : ℕ → ℕ → Db O kv → Db O kv
  cleaned_one n key d = record d {
    key_version_numbers = update d.key_version_numbers key none;
    key_and_version_to_object =
        update d.key_and_version_to_object key (update (d.key_and_version_to_object key) n none);
    tail_values = update d.tail_values key none;
  }

  abbrev cleaned_more : ℕ → ℕ → List ℕ → Entry J O → Db O kv → Db O kv
  cleaned_more n key vs e d = record d {
    key_version_numbers = update d.key_version_numbers key (some vs);
    key_and_version_to_object =
        update d.key_and_version_to_object key (update (d.key_and_version_to_object key) n none);
    tail_values = update d.tail_values key (some e);
  }

  -- Forgetting version `n` of one key succeeds, keeps what it shows from `n` on, and touches no
  -- other key.
  pub record Cleaned (n top : ℕ) (h : ℕ → Option J) (vs : List ℕ) (key : ℕ) (d d' : Db O kv)
      : Type 0 where
    pub shows : Shows n top h vs (slot d' key)
    pub others : (j : ℕ) → j ≢ key → slot d' j ≡ slot d j
    pub rest : SameRest d d'

  clean_key_lem :
      {low top : ℕ} {h : ℕ → Option J} (n : ℕ) (vs : List ℕ) (key : ℕ) (d : Db O kv)
      → Shows low top h (n ∷ vs) (slot d key)
      → low ≤ top
      → (d' : Db O kv) × (clean_key n key d ≡ some d') × Cleaned n top h vs key d d'
  unfolding clean_key
  clean_key_lem n [] key d sh le =
      let (e, at, _) = head_entry n [] sh in
      let (e', old, _) = tail_entry n [] sh le in
      (
        cleaned_one n key d,
        ground (arith, sh.versions, at, old),
        record {
          shows = rw (==_refl key) (Shows-clean_one n (slot d key) sh);
          others = λ j ne. rw (==_ne j key ne);
          rest = record {
            kvstore = refl;
            cur = refl;
            min = refl;
            counts = refl;
            min_reffed = refl;
            version_numbers = refl;
            version_number_objects = refl;
          };
        },
      )
  clean_key_lem n (w ∷ vs) key d sh le =
      let (e, at, _) = head_entry n (w ∷ vs) sh in
      (
        cleaned_more n key (w ∷ vs) e d,
        ground (arith, sh.versions, at),
        record {
          shows = rw (==_refl key) (Shows-clean_more n w vs e (slot d key) sh at);
          others = λ j ne. rw (==_ne j key ne);
          rest = record {
            kvstore = refl;
            cur = refl;
            min = refl;
            counts = refl;
            min_reffed = refl;
            version_numbers = refl;
            version_number_objects = refl;
          };
        },
      )

  SameRest-trans : {a b c : Db O kv} → SameRest a b → SameRest b c → SameRest a c
  SameRest-trans p q = record {
    kvstore = q.kvstore ∙ p.kvstore;
    cur = q.cur ∙ p.cur;
    min = q.min ∙ p.min;
    counts = q.counts ∙ p.counts;
    min_reffed = q.min_reffed ∙ p.min_reffed;
    version_numbers = q.version_numbers ∙ p.version_numbers;
    version_number_objects = q.version_number_objects ∙ p.version_number_objects;
  }

  module _ {low top : ℕ} (H : ℕ → ℕ → Option J) (n : ℕ) (vs : ℕ → List ℕ) (le : low ≤ top) where
    -- Every key is done or stands among the keys that the loop has still to visit.
    pub record Pending (keys : List ℕ) (d : Db O kv) : Type 0 where
      pub todo : (k : ℕ) → elem k keys ≡ true → Shows low top (λ t. H t k) (n ∷ vs k) (slot d k)
      pub done : (k : ℕ) → elem k keys ≡ false → Shows n top (λ t. H t k) (vs k) (slot d k)

    Pending-step :
        (key : ℕ) (keys : List ℕ) (d d' : Db O kv)
        → elem key keys ≡ false
        → Pending (key ∷ keys) d
        → Cleaned n top (λ t. H t key) (vs key) key d d'
        → Pending keys d'
    Pending-step key keys d d' fresh p c = record {
      todo = λ k m.
          let ne : k ≢ key = λ e. ground (arith, subst (λ x. elem x keys ≡ true) e m) in
          subst (Shows low top (λ t. H t k) (n ∷ vs k)) (sym (c.others k ne))
            (p.todo k (ground (arith, m)));
      done = λ k m. elim (Bool-cases (k == key)) [
        | inl same ↦
            subst (λ x. Shows n top (λ t. H t x) (vs x) (slot d' x)) (sym ((==_iff k key).0 same))
              c.shows
        | inr other ↦
            let ne : k ≢ key = λ e. ground (arith, e, other) in
            subst (Shows n top (λ t. H t k) (vs k)) (sym (c.others k ne))
              (p.done k (ground (arith, m, other)))
      ];
    }

    pub clean_keys_lem :
        (keys : List ℕ) (d : Db O kv)
        → Distinct keys
        → Pending keys d
        → (d' : Db O kv) × (clean_keys n keys d ≡ some d')
          × ((k : ℕ) → Shows n top (λ t. H t k) (vs k) (slot d' k))
          × SameRest d d'
    unfolding clean_keys
    clean_keys_lem [] d ok p = (
      d,
      refl,
      λ k. p.done k refl,
      record {
        kvstore = refl;
        cur = refl;
        min = refl;
        counts = refl;
        min_reffed = refl;
        version_numbers = refl;
        version_number_objects = refl;
      },
    )
    clean_keys_lem (key ∷ keys) d ok p =
        let (d', step, c) = clean_key_lem n (vs key) key d (p.todo key (rw (==_refl key))) le in
        let (d'', steps, shows, rest) =
          clean_keys_lem keys d' ok.1 (Pending-step key keys d d' ok.0 p c) in
        (d'', rw step steps, shows, SameRest-trans c.rest rest)
