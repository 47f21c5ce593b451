-- ===== src/Database/Invariant.antt =====
-- The invariant of core/object_database.py's `Database`: what it holds stands for a history, which
-- gives each key a value at each transaction number.
use mathlib.Core.Option
use test_looper.Common.{
  ℕ, suc, ◌≤◌, ◌<◌, ◌≡◌, Bool, Option, some, List, [], ◌∷◌, inl, inr, arith, Bool-cases, keep, elem,
  Distinct, All, All-map,
}
use test_looper.KvStore.{KvStore}
use test_looper.Database.Versions.{Db}
use test_looper.Database.Slots.{Slot, slot, Ascends, Ascends-mono, Shows}

-- The consecutive numbers above `m` up to `top`.
abbrev pub Consecutive : ℕ → List ℕ → ℕ → Type 0
Consecutive m [] top = m ≡ top
Consecutive m (v ∷ vs) top = (v ≡ suc m) × Consecutive v vs top

pub Consecutive-le : (m : ℕ) (vs : List ℕ) (top : ℕ) → Consecutive m vs top → m ≤ top
Consecutive-le m [] top c = omega arith
Consecutive-le m (v ∷ vs) top c = omega (arith, Consecutive-le v vs top c.1)

pub Consecutive-All :
    (m : ℕ) (vs : List ℕ) (top : ℕ) → Consecutive m vs top → All (λ v. (m < v) × (v ≤ top)) vs
Consecutive-All m [] top c = tt
Consecutive-All m (v ∷ vs) top c = (
  (omega arith, Consecutive-le v vs top c.1),
  All-map vs (λ x h. (omega arith, h.1)) (Consecutive-All v vs top c.1),
)

pub keep-Ascends :
    (p : ℕ → Bool) (m : ℕ) (vs : List ℕ) (top : ℕ)
    → Consecutive m vs top
    → Ascends m (keep p vs) top
keep-Ascends p m [] top c = tt
keep-Ascends p m (v ∷ vs) top c = elim (Bool-cases (p v)) [
  | inl e ↦ rw e (omega arith, Consecutive-le v vs top c.1, keep-Ascends p v vs top c.1)
  | inr e ↦ rw e (Ascends-mono v m top (keep p vs) (omega arith) (keep-Ascends p v vs top c.1))
]

module _ {J O : Type 0} where
  -- Raising the lowest time that counts.
  pub Shows-raise :
      {low low' top : ℕ} {h : ℕ → Option J} (vs : List ℕ) {s : Slot J O}
      → Shows low top h vs s
      → low ≤ low'
      → Ascends low' vs top
      → Shows low' top h vs s
  Shows-raise vs sh le asc = record {
    versions = sh.versions;
    no_tail = sh.no_tail;
    latest = sh.latest;
    ascends = asc;
    reads = λ t lt. sh.reads t (omega arith);
  }

module _ {J O : Type 0} {kv : KvStore J} where
  -- The keys that version `v` wrote.
  abbrev pub touched : Db O kv → ℕ → List ℕ
  touched db v = Option.get_or (db.version_number_objects v) []

  -- The versions among `vs` that wrote `key`.
  abbrev pub writers : Db O kv → ℕ → List ℕ → List ℕ
  writers db key vs = keep (λ v. elem key (touched db v)) vs

  pub record HasKeys (db : Db O kv) (v : ℕ) : Type 0 where
    pub keys : List ℕ
    pub at : db.version_number_objects v ≡ some keys
    pub distinct : Distinct keys

  -- `H t key` is the value of the key after transaction `t`.
  pub record IsConsistent (H : ℕ → ℕ → Option J) (db : Db O kv) : Type 0 where
    pub consecutive : Consecutive db.min db.version_numbers db.cur
    pub keys : All (HasKeys db) db.version_numbers
    pub shows :
        (k : ℕ) → Shows db.min db.cur (λ t. H t k) (writers db k db.version_numbers) (slot db k)
