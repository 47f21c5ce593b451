-- ===== src/Scheduler/Results.antt =====
-- The results that a run gets in `recordTestResults` of data_model/TestManager.py.
use test_looper.Common.{
  ℕ, suc, zero, ◌≤◌, ◌≡◌, refl, Bool, false, inl, inr, some, List, [], ◌∷◌, arith, ltb, ◌==◌,
  length, get_elem?, get_or, map, Assoc, get_key, keys, Bool-cases, ==_iff, ap, ◌∙◌,
}
use test_looper.Bitstring.{get_item}
use test_looper.Bitstring.Roundtrip.{get_item-from_bools}
use test_looper.Scheduler.{TestRun, Definitions}
use test_looper.Scheduler.Running.{insert_name, sort_names, succeeded, has_logs, finish_run}

-- Each name is at most the next one.
abbrev pub IsAscending : List ℕ → Type 0
IsAscending [] = Unit
IsAscending (x ∷ []) = Unit
IsAscending (x ∷ y ∷ ys) = (x ≤ y) × IsAscending (y ∷ ys)

-- The names are at least `x`, as far as the first one shows.
abbrev StartsAbove : ℕ → List ℕ → Type 0
StartsAbove x [] = Unit
StartsAbove x (y ∷ ys) = x ≤ y

IsAscending-cons : (x : ℕ) (ys : List ℕ) → StartsAbove x ys → IsAscending ys → IsAscending (x ∷ ys)
IsAscending-cons x [] h a = tt
IsAscending-cons x (y ∷ ys) h a = (h, a)

starts_above : (x : ℕ) (xs : List ℕ) → IsAscending (x ∷ xs) → StartsAbove x xs
starts_above x [] a = tt
starts_above x (y ∷ ys) a = a.0

rest-IsAscending : (x : ℕ) (xs : List ℕ) → IsAscending (x ∷ xs) → IsAscending xs
rest-IsAscending x [] a = tt
rest-IsAscending x (y ∷ ys) a = a.1

insert-StartsAbove :
    (x n : ℕ) (xs : List ℕ) → x ≤ n → StartsAbove x xs → StartsAbove x (insert_name n xs)
insert-StartsAbove x n [] h s = h
insert-StartsAbove x n (y ∷ ys) h s = elim (Bool-cases (ltb y n)) [
  | inl less ↦ rw less s
  | inr more ↦ rw more h
]

insert-IsAscending : (n : ℕ) (xs : List ℕ) → IsAscending xs → IsAscending (insert_name n xs)
insert-IsAscending n [] a = tt
insert-IsAscending n (x ∷ xs) a = elim (Bool-cases (ltb x n)) [
  | inl less ↦ rw less (
      IsAscending-cons x (insert_name n xs)
        (insert-StartsAbove x n xs (ground (arith, less)) (starts_above x xs a))
        (insert-IsAscending n xs (rest-IsAscending x xs a)))
  | inr more ↦ rw more (ground (arith, more), a)
]

sort-IsAscending : (ns : List ℕ) → IsAscending (sort_names ns)
unfolding sort_names
sort-IsAscending [] = tt
sort-IsAscending (n ∷ ns) = insert-IsAscending n (sort_names ns) (sort-IsAscending ns)

length-insert : (n : ℕ) (xs : List ℕ) → length (insert_name n xs) ≡ suc (length xs)
length-insert n [] = refl
length-insert n (x ∷ xs) = elim (Bool-cases (ltb x n)) [
  | inl less ↦ rw less (ap suc (length-insert n xs))
  | inr more ↦ rw more refl
]

length-sort : {V : Type 0} (d : Assoc V) → length (sort_names (keys d)) ≡ length d
unfolding sort_names
length-sort [] = refl
length-sort ((n, v) ∷ d) = length-insert n (sort_names (keys d)) ∙ ap suc (length-sort d)

-- Where a name is in a list.
abbrev Position : List ℕ → ℕ → Type 0
Position xs n = (ix : ℕ) × (get_elem? xs ix ≡ some n)

insert-new : (n : ℕ) (xs : List ℕ) → Position (insert_name n xs) n
insert-new n [] = (0, refl)
insert-new n (x ∷ xs) = elim (Bool-cases (ltb x n)) [
  | inl less ↦ let (ix, at) = insert-new n xs in (suc ix, rw less at)
  | inr more ↦ (0, rw more refl)
]

insert-old : (n m ix : ℕ) (xs : List ℕ) → get_elem? xs ix ≡ some m → Position (insert_name n xs) m
insert-old n m ix [] at = absurd (ground (arith, at))
insert-old n m zero (x ∷ xs) at = elim (Bool-cases (ltb x n)) [
  | inl less ↦ (0, rw less at)
  | inr more ↦ (1, rw more at)
]
insert-old n m (suc ix) (x ∷ xs) at = elim (Bool-cases (ltb x n)) [
  | inl less ↦ let (iy, e) = insert-old n m ix xs at in (suc iy, rw less e)
  | inr more ↦ (suc (suc ix), rw more at)
]

sort-Position :
    {V : Type 0} (d : Assoc V) (n : ℕ) (v : V)
    → get_key d n ≡ some v
    → Position (sort_names (keys d)) n
unfolding sort_names
sort-Position [] n v h = absurd (ground (arith, h))
sort-Position ((m, w) ∷ d) n v h = elim (Bool-cases (m == n)) [
  | inl same ↦
      let (ix, at) = insert-new m (sort_names (keys d)) in (ix, at ∙ ap some ((==_iff m n).0 same))
  | inr other ↦
      let (ix, at) = sort-Position d n v (ground (arith, h, other)) in
      insert-old m n ix (sort_names (keys d)) at
]

get_or-map :
    (f : ℕ → Bool) (xs : List ℕ) (ix n : ℕ)
    → get_elem? xs ix ≡ some n
    → get_or (map f xs) ix false ≡ f n
get_or-map f [] ix n at = absurd (ground (arith, at))
get_or-map f (x ∷ xs) zero n at = ap f (ground (arith, at))
get_or-map f (x ∷ xs) (suc ix) n at = get_or-map f xs ix n at

-- The names that the run keeps are in order, as many as there are results; and a name with a result has a
-- position there, at which the two Bitstrings of the run tell whether that test succeeded and whether it
-- has logs.
pub get_item-finish_run :
    (defs : Definitions) (success : Bool) (results : Assoc (Bool × Bool)) (ts n : ℕ)
    (ok logs : Bool) (run : TestRun)
    → get_key results n ≡ some (ok, logs)
    → IsAscending (finish_run defs success results ts run).test_names
      × (length (finish_run defs success results ts run).test_names ≡ length results)
      × (ix : ℕ) × (get_elem? (finish_run defs success results ts run).test_names ix ≡ some n)
      × (get_item (finish_run defs success results ts run).test_failures ix ≡ some ok)
      × (get_item (finish_run defs success results ts run).test_has_logs ix ≡ some logs)
unfolding finish_run
get_item-finish_run defs success results ts n ok logs run h =
    let names = sort_names (keys results) in
    let (ix, at) = sort-Position results n (ok, logs) h in
    let succeeds : succeeded results n ≡ ok = ground (arith, h) in
    let logged : has_logs results n ≡ logs = ground (arith, h) in
    (
      sort-IsAscending (keys results),
      length-sort results,
      ix,
      at,
      get_item-from_bools (map (succeeded results) names) ix
          ∙ ap some (get_or-map (succeeded results) names ix n at ∙ succeeds),
      get_item-from_bools (map (has_logs results) names) ix
          ∙ ap some (get_or-map (has_logs results) names ix n at ∙ logged),
    )
