-- ===== src/Database/Slots.antt =====
-- What one key of core/object_database.py's `Database` looks like: its versions, their values, the
-- value before them, and the value in the store.
use test_looper.Common.{
  ℕ, ◌≤◌, ◌<◌, ◌≡◌, refl, Option, none, some, List, [], ◌∷◌, ◌++◌, inl, inr, arith, Map,
  Option-cases,
}
use test_looper.KvStore.{KvStore}
use test_looper.Database.Versions.{Db, Entry, best_version_for, prefer, get_versioned}

pub record Slot (J O : Type 0) : Type 0 where
  pub versions : Option (List ℕ)
  pub objects : Map (Entry J O)
  pub tail : Option (Entry J O)
  pub now : Option J

abbrev pub slot : {J O : Type 0} {kv : KvStore J} → Db O kv → ℕ → Slot J O
slot {kv = kv} db key = record {
  versions = db.key_version_numbers key;
  objects = db.key_and_version_to_object key;
  tail = db.tail_values key;
  now = kv.get db.kvstore key;
}

-- A dict entry for a list that is deleted when it gets empty.
abbrev pub wrap : List ℕ → Option (List ℕ)
wrap [] = none
wrap (v ∷ vs) = some (v ∷ vs)

-- Strictly ascending numbers above `m` and up to `top`.
abbrev pub Ascends : ℕ → List ℕ → ℕ → Type 0
Ascends m [] top = Unit
Ascends m (v ∷ vs) top = (m < v) × (v ≤ top) × Ascends v vs top

pub Ascends-mono : (m n top : ℕ) (vs : List ℕ) → n ≤ m → Ascends m vs top → Ascends n vs top
Ascends-mono m n top [] h a = tt
Ascends-mono m n top (v ∷ vs) h a = (omega arith, a.1, a.2)

pub Ascends-top : (m top up : ℕ) (vs : List ℕ) → top ≤ up → Ascends m vs top → Ascends m vs up
Ascends-top m top up [] h a = tt
Ascends-top m top up (v ∷ vs) h a = (a.0, omega arith, Ascends-top v top up vs h a.2)

pub best-cons :
    (t v : ℕ) (vs : List ℕ) → best_version_for t (v ∷ vs) ≡ prefer t v (best_version_for t vs)
unfolding best_version_for
best-cons t v vs = refl

pub best_none :
    (t m top : ℕ) (vs : List ℕ) → Ascends m vs top → t ≤ m → best_version_for t vs ≡ none
unfolding best_version_for
best_none t m top [] a h = refl
best_none t m top (v ∷ vs) a h = ground (arith, best_none t v top vs a.2 (omega arith))

pub best-le : (t : ℕ) (vs : List ℕ) {w : ℕ} → best_version_for t vs ≡ some w → w ≤ t
unfolding best_version_for
best-le t [] h = ground arith
best-le t (v ∷ vs) h = elim (Option-cases (best_version_for t vs)) [
  | inl e ↦ ground arith
  | inr (w', e) ↦ ground (arith, best-le t vs e)
]

pub best-gt :
    (t m top : ℕ) (vs : List ℕ) {w : ℕ} → Ascends m vs top → best_version_for t vs ≡ some w → m < w
unfolding best_version_for
best-gt t m top [] a h = ground arith
best-gt t m top (v ∷ vs) {w = w} a h = elim (Option-cases (best_version_for t vs)) [
  | inl e ↦ ground arith
  | inr (w', e) ↦ ground (arith, best-gt t v top vs a.2 e)
]

-- Two times past every version have the same best version.
pub best_past :
    (t u m top : ℕ) (vs : List ℕ)
    → Ascends m vs top
    → top ≤ t
    → top ≤ u
    → best_version_for t vs ≡ best_version_for u vs
unfolding best_version_for
best_past t u m top [] a h k = refl
best_past t u m top (v ∷ vs) a h k = ground (arith, best_past t u v top vs a.2 h k)

pub best_snoc_old :
    (t n : ℕ) (vs : List ℕ) → t < n → best_version_for t (vs ++ n ∷ []) ≡ best_version_for t vs
unfolding best_version_for
best_snoc_old t n [] h = ground arith
best_snoc_old t n (v ∷ vs) h = ground (arith, best_snoc_old t n vs h)

pub best_snoc_new : (n : ℕ) (vs : List ℕ) → best_version_for n (vs ++ n ∷ []) ≡ some n
unfolding best_version_for
best_snoc_new n [] = ground arith
best_snoc_new n (v ∷ vs) = ground (arith, best_snoc_new n vs)

module _ {J O : Type 0} where
  abbrev pub json : Option (Entry J O) → Option (Option J)
  json none = none
  json (some e) = some e.0

  abbrev pub pick : Slot J O → Option ℕ → Option (Entry J O)
  pick s none = s.tail
  pick s (some v) = s.objects v

  -- The json value that a slot with versions `vs` shows at time `t`.
  abbrev pub json_at : Slot J O → List ℕ → ℕ → Option (Option J)
  json_at s [] t = some s.now
  json_at s (v ∷ vs) t = json (pick s (best_version_for t (v ∷ vs)))

  -- The slot stands for the history `h` of its key between `low` and `top`.
  pub record Shows (low top : ℕ) (h : ℕ → Option J) (vs : List ℕ) (s : Slot J O) : Type 0 where
    pub versions : s.versions ≡ wrap vs
    pub no_tail : vs ≡ [] → s.tail ≡ none
    pub latest : s.now ≡ h top
    pub ascends : Ascends low vs top
    pub reads : (t : ℕ) → low ≤ t → t ≤ top → json_at s vs t ≡ some (h t)

  pub get_versioned-slot :
      {kv : KvStore J} (db : Db O kv) {h : ℕ → Option J} (vs : List ℕ) (key t : ℕ)
      → Shows db.min db.cur h vs (slot db key)
      → db.min ≤ t
      → t ≤ db.cur
      → json (get_versioned key t db) ≡ some (h t)
  unfolding get_versioned
  get_versioned-slot db [] key t s low top = ground (arith, s.no_tail refl, s.reads t low top)
  get_versioned-slot db (v ∷ vs) key t s low top = ground (arith, s.reads t low top, s.versions)
