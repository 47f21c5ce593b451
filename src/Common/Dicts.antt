-- ===== src/Common/Dicts.antt =====
-- Python dicts that the code iterates over or sums: association lists with one pair to a key.
use Prim.Native.Nat.{ℕ, ◌+◌}
use mathlib.Core.Path.{◌≡◌, refl, subst}
use mathlib.Core.Bool.{Bool, true, false}
use mathlib.Core.Option.{Option, none, some}
use mathlib.Core.List.{List, [], ◌∷◌}
use mathlib.Core.Logic.{inl, inr}
use native.Mathlib.Omega.{arith}
use test_looper.Common.Tests.{if◌then◌else◌, ◌==◌, ==_refl, Bool-cases}
use test_looper.Common.Lists.{elem, Distinct, All, All-zip}

abbrev pub Assoc {ℓ} : Type ℓ → Type ℓ
Assoc V = List (ℕ × V)

module _ {ℓ} {V : Type ℓ} where
  -- `d.get(k)`
  abbrev pub get_key : Assoc V → ℕ → Option V
  get_key [] k = none
  get_key ((j, v) ∷ d) k = if j == k then some v else get_key d k

  -- `k in d`
  abbrev pub has_key : Assoc V → ℕ → Bool
  has_key [] k = false
  has_key ((j, v) ∷ d) k = if j == k then true else has_key d k

  -- `d[k] = v`
  abbrev pub put_key : Assoc V → ℕ → V → Assoc V
  put_key [] k v = (k, v) ∷ []
  put_key ((j, w) ∷ d) k v = if j == k then (j, v) ∷ d else (j, w) ∷ put_key d k v

  -- `del d[k]` for a key that is there
  abbrev pub del_key : Assoc V → ℕ → Assoc V
  del_key [] k = []
  del_key ((j, w) ∷ d) k = if j == k then d else (j, w) ∷ del_key d k

  -- `list(d)`
  abbrev pub keys : Assoc V → List ℕ
  keys [] = []
  keys ((j, v) ∷ d) = j ∷ keys d

  abbrev pub total : (V → ℕ) → Assoc V → ℕ
  total f [] = 0
  total f ((j, v) ∷ d) = f v + total f d

  pub has_key-get_key :
      (d : Assoc V) (k : ℕ) → has_key d k ≡ true → (v : V) × (get_key d k ≡ some v)
  has_key-get_key [] k h = absurd (ground arith)
  has_key-get_key ((j, w) ∷ d) k h = elim (Bool-cases (j == k)) [
    | inl same ↦ (w, ground (arith, same))
    | inr other ↦
        let (v, e) = has_key-get_key d k (ground (arith, other, h)) in (v, ground (arith, other, e))
  ]

  pub get_key-put_key :
      (d : Assoc V) (k : ℕ) (v : V) (i : ℕ)
      → get_key (put_key d k v) i ≡ (if k == i then some v else get_key d i)
  get_key-put_key [] k v i = refl
  get_key-put_key ((j, w) ∷ d) k v i = ground (arith, get_key-put_key d k v i)

  pub has_key-put_key :
      (d : Assoc V) (k : ℕ) (v : V) (i : ℕ)
      → has_key (put_key d k v) i ≡ (if k == i then true else has_key d i)
  has_key-put_key [] k v i = refl
  has_key-put_key ((j, w) ∷ d) k v i = ground (arith, has_key-put_key d k v i)

  pub total-put_new :
      (f : V → ℕ) (d : Assoc V) (k : ℕ) (v : V)
      → has_key d k ≡ false
      → total f (put_key d k v) ≡ total f d + f v
  total-put_new f [] k v h = ground arith
  total-put_new f ((j, w) ∷ d) k v h = elim (Bool-cases (j == k)) [
    | inl same ↦ ground (arith, same, h)
    | inr other ↦ ground (arith, other, total-put_new f d k v (ground (arith, other, h)))
  ]

  pub total-put_old :
      (f : V → ℕ) (d : Assoc V) (k : ℕ) (v old : V)
      → get_key d k ≡ some old
      → total f (put_key d k v) + f old ≡ total f d + f v
  total-put_old f [] k v old h = ground arith
  total-put_old f ((j, w) ∷ d) k v old h = elim (Bool-cases (j == k)) [
    | inl same ↦ ground (arith, same, h)
    | inr other ↦ ground (arith, other, total-put_old f d k v old (ground (arith, other, h)))
  ]

  pub total-del_key :
      (f : V → ℕ) (d : Assoc V) (k : ℕ) (old : V)
      → get_key d k ≡ some old
      → total f (del_key d k) + f old ≡ total f d
  total-del_key f [] k old h = ground arith
  total-del_key f ((j, w) ∷ d) k old h = elim (Bool-cases (j == k)) [
    | inl same ↦ ground (arith, same, h)
    | inr other ↦ ground (arith, other, total-del_key f d k old (ground (arith, other, h)))
  ]

-- The same changes on the list of keys.
abbrev pub put_id : List ℕ → ℕ → List ℕ
put_id [] k = k ∷ []
put_id (j ∷ ks) k = if j == k then j ∷ ks else j ∷ put_id ks k

abbrev pub del_id : List ℕ → ℕ → List ℕ
del_id [] k = []
del_id (j ∷ ks) k = if j == k then ks else j ∷ del_id ks k

module _ {ℓ} {V : Type ℓ} where
  pub keys-put_key : (d : Assoc V) (k : ℕ) (v : V) → keys (put_key d k v) ≡ put_id (keys d) k
  keys-put_key [] k v = refl
  keys-put_key ((j, w) ∷ d) k v = ground (arith, keys-put_key d k v)

  pub keys-del_key : (d : Assoc V) (k : ℕ) → keys (del_key d k) ≡ del_id (keys d) k
  keys-del_key [] k = refl
  keys-del_key ((j, w) ∷ d) k = ground (arith, keys-del_key d k)

  pub has_key-elem : (d : Assoc V) (k : ℕ) → has_key d k ≡ elem k (keys d)
  has_key-elem [] k = refl
  has_key-elem ((j, w) ∷ d) k = ground (arith, has_key-elem d k)

pub elem-del_id :
    (ks : List ℕ) (k i : ℕ)
    → Distinct ks
    → elem i (del_id ks k) ≡ (if i == k then false else elem i ks)
elem-del_id [] k i h = ground arith
elem-del_id (j ∷ ks) k i h = elim (Bool-cases (j == k)) [
  | inl same ↦ elim (Bool-cases (i == k)) [
    | inl here ↦
        let e : j ≡ i = ground (arith, same, here) in
        let absent : elem i ks ≡ false = subst (λ x. elem x ks ≡ false) e h.0 in
        ground (arith, same, here, absent)
    | inr away ↦ ground (arith, same, away)
  ]
  | inr other ↦ ground (arith, other, elem-del_id ks k i h.1)
]

pub elem-put_id :
    (ks : List ℕ) (k i : ℕ) → elem i (put_id ks k) ≡ (if i == k then true else elem i ks)
elem-put_id [] k i = ground arith
elem-put_id (j ∷ ks) k i = ground (arith, elem-put_id ks k i)

pub del_id-Distinct : (ks : List ℕ) (k : ℕ) → Distinct ks → Distinct (del_id ks k)
del_id-Distinct [] k h = tt
del_id-Distinct (j ∷ ks) k h = elim (Bool-cases (j == k)) [
  | inl same ↦ rw same h.1
  | inr other ↦ rw other (ground (arith, elem-del_id ks k j h.1, h.0), del_id-Distinct ks k h.1)
]

pub put_id-Distinct : (ks : List ℕ) (k : ℕ) → Distinct ks → Distinct (put_id ks k)
put_id-Distinct [] k h = (refl, tt)
put_id-Distinct (j ∷ ks) k h = elim (Bool-cases (j == k)) [
  | inl same ↦ rw same h
  | inr other ↦ rw other (ground (arith, elem-put_id ks k j, h.0, other), put_id-Distinct ks k h.1)
]

-- In a dict every pair is found by its key.
pub Distinct-get_key :
    {W : Type 0} (d : Assoc W) → Distinct (keys d) → All (λ e. get_key d e.0 ≡ some e.1) d
Distinct-get_key [] h = tt
Distinct-get_key {W} ((k, w) ∷ d) h = (
  rw (==_refl k) refl,
  All-zip {P = λ e. k == e.0 ≡ false} {Q = λ e. get_key d e.0 ≡ some e.1}
      {R = λ e. get_key ((k, w) ∷ d) e.0 ≡ some e.1} d (λ e away found. rw away found)
      (others d h.0) (Distinct-get_key d h.1),
)
  where
    others : (rest : Assoc W) → elem k (keys rest) ≡ false → All (λ e. k == e.0 ≡ false) rest
    others [] away = tt
    others ((j, x) ∷ rest) away = (ground (arith, away), others rest (ground (arith, away)))
