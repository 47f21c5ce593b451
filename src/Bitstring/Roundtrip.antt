-- ===== src/Bitstring/Roundtrip.antt =====
-- Reading back what `from_bools` of core/Bitstring.py packed.
use native.Mathlib.Nat.{pow-suc}
use native.Mathlib.Decide.{dec_lt}
use test_looper.Common.{
  Bool-cases, inl, inr, ℕ, zero, suc, ◌+◌, ◌-◌, ◌*◌, ◌/◌, ◌%◌, ◌^◌, ◌≤◌, ◌<◌, ◌≡◌, refl, ◌∙◌, ap,
  sym, subst, Bool, true, false, Option, none, some, List, [], ◌∷◌, arith, length, get_or, take,
  drop, length-drop, ◌==◌, if◌then◌else◌,
}
use test_looper.Bitstring.{
  index_to_char, char_to_index, pack_from, pack_bitstring_to_int, pack_chunks, from_bools, has_bit,
  lookup_bit, char_bit, get_item,
}

-- Whether a test passes at every number under a bound, by running it.
passes : (ℕ → Bool) → ℕ → Bool
passes test zero = true
passes test (suc bound) = if test bound then passes test bound else false

passes_at :
    (test : ℕ → Bool) (bound : ℕ) {i : ℕ} → i < bound → passes test bound ≡ true → test i ≡ true
unfolding passes
passes_at test zero below run = elim below [ ]
passes_at test (suc bound) {i} below run = elim (Bool-cases (i == bound)) [
  | inl top ↦ ground (arith, run, top)
  | inr under ↦ passes_at test bound (ground (arith, under)) (ground (arith, run))
]

same : Bool → Bool → Bool
same true b = b
same false true = false
same false false = true

same-eq : (a b : Bool) → same a b ≡ true → a ≡ b
unfolding same
same-eq true b h = ground arith
same-eq false b h = ground arith

-- Bit `k` by halving.
test_bit : ℕ → ℕ → Bool
test_bit v zero = v % 2 == 1
test_bit v (suc k) = test_bit (v / 2) k

has_bit_table : passes (λ v. passes (λ k. same (has_bit v k) (test_bit v k)) 6) 64 ≡ true
unfolding passes same test_bit has_bit
has_bit_table = refl

has_bit-eq : (v k : ℕ) → v < 64 → k < 6 → has_bit v k ≡ test_bit v k
has_bit-eq v k hv hk = same-eq _ _ (passes_at _ 6 hk (passes_at _ 64 hv has_bit_table))

is_index : Option ℕ → ℕ → Bool
is_index none i = false
is_index (some j) i = j == i

is_index-eq : (o : Option ℕ) (i : ℕ) → is_index o i ≡ true → o ≡ some i
unfolding is_index
is_index-eq none i h = ground arith
is_index-eq (some j) i h = ground arith

index_table : passes (λ i. is_index (char_to_index (index_to_char i)) i) 64 ≡ true
unfolding passes is_index char_to_index index_to_char
index_table = refl

char_to_index-index_to_char : (i : ℕ) → i < 64 → char_to_index (index_to_char i) ≡ some i
char_to_index-index_to_char i h = is_index-eq _ i (passes_at _ 64 h index_table)

-- The number that a list of bits stands for, the first bit least significant.
value : List Bool → ℕ
value [] = 0
value (b ∷ bs) = (if b then 1 else 0) + 2 * value bs

pack_from-eq : (r w : ℕ) (bs : List Bool) → pack_from r w bs ≡ r + w * value bs
unfolding pack_from value
pack_from-eq r w [] = omega arith
pack_from-eq r w (true ∷ bs) = grind (arith, pack_from-eq (r + w) (w * 2) bs)
pack_from-eq r w (false ∷ bs) = grind (arith, pack_from-eq r (w * 2) bs)

test_bit-value : (bs : List Bool) (k : ℕ) → test_bit (value bs) k ≡ get_or bs k false
unfolding test_bit value
test_bit-value [] zero = refl
test_bit-value [] (suc k) = test_bit-value [] k
test_bit-value (true ∷ bs) zero = ground arith
test_bit-value (false ∷ bs) zero = ground arith
test_bit-value (true ∷ bs) (suc k) =
    let e : (1 + 2 * value bs) / 2 ≡ value bs = omega arith in rw e (test_bit-value bs k)
test_bit-value (false ∷ bs) (suc k) =
    let e : (0 + 2 * value bs) / 2 ≡ value bs = omega arith in rw e (test_bit-value bs k)

value-take-lt : (n : ℕ) (bs : List Bool) → value (take n bs) < 2 ^ n
unfolding value
value-take-lt zero bs = omega arith
value-take-lt (suc n) [] = omega (arith, pow-suc 2 n, value-take-lt n [])
value-take-lt (suc n) (true ∷ bs) = omega (arith, pow-suc 2 n, value-take-lt n bs)
value-take-lt (suc n) (false ∷ bs) = omega (arith, pow-suc 2 n, value-take-lt n bs)

get_or-take : (n k : ℕ) (bs : List Bool) → k < n → get_or (take n bs) k false ≡ get_or bs k false
get_or-take zero k bs h = absurd (omega arith)
get_or-take (suc n) k [] h = refl
get_or-take (suc n) zero (b ∷ bs) h = refl
get_or-take (suc n) (suc k) (b ∷ bs) h = get_or-take n k bs (omega arith)

get_or-drop : (n k : ℕ) (bs : List Bool) → get_or (drop n bs) k false ≡ get_or bs (n + k) false
get_or-drop zero k bs = let e : zero + k ≡ k = omega arith in rw e
get_or-drop (suc n) k [] = refl
get_or-drop (suc n) k (b ∷ bs) =
    let e : suc n + k ≡ suc (n + k) = omega arith in rw e (get_or-drop n k bs)

-- One character holds the six bits of its chunk.
chunk_bit :
    (bs : List Bool) (k : ℕ)
    → k < 6
    → char_bit (some (index_to_char (pack_bitstring_to_int (take 6 bs)))) k
      ≡ some (get_or bs k false)
unfolding char_bit lookup_bit pack_bitstring_to_int
chunk_bit bs k h =
    let v = value (take 6 bs) in
    let e : pack_from 0 1 (take 6 bs) ≡ v = omega (arith, pack_from-eq 0 1 (take 6 bs)) in
    let small : v < 64 = value-take-lt 6 bs in
    rw (e, char_to_index-index_to_char v small, has_bit-eq v k small h, test_bit-value)
      (rw (get_or-take 6 k bs h))

get_item-cons : (c : ℕ) (cs : List ℕ) (ix : ℕ) → get_item (c ∷ cs) (6 + ix) ≡ get_item cs ix
unfolding get_item
get_item-cons c cs ix =
    let q : (6 + ix) / 6 ≡ suc (ix / 6) = omega arith in
    let r : (6 + ix) % 6 ≡ ix % 6 = omega arith in rw (q, r) (ground arith)

get_item-nil : (ix : ℕ) → get_item [] ix ≡ some false
unfolding get_item
get_item-nil ix = ground arith

get_item-head :
    (c : ℕ) (cs : List ℕ) (ix : ℕ) → ix < 6 → get_item (c ∷ cs) ix ≡ char_bit (some c) ix
unfolding get_item
get_item-head c cs ix h =
    let q : ix / 6 ≡ 0 = omega arith in
    let r : ix % 6 ≡ ix = omega arith in rw (q, r) (ground arith)

pack_chunks-get :
    (fuel : ℕ) (bs : List Bool) (ix : ℕ)
    → length bs ≤ fuel
    → get_item (pack_chunks fuel bs) ix ≡ some (get_or bs ix false)
unfolding pack_chunks
pack_chunks-get zero [] ix h = get_item-nil ix
pack_chunks-get zero (b ∷ bs) ix h = absurd (omega arith)
pack_chunks-get (suc fuel) [] ix h = get_item-nil ix
pack_chunks-get (suc fuel) (b ∷ bs) ix h = elim (dec_lt ix 6) [
  | yes small ↦ get_item-head _ _ ix small ∙ chunk_bit (b ∷ bs) ix small
  | no large ↦
      let e : ix ≡ 6 + (ix - 6) = omega arith in
      let rest : length (drop 5 bs) ≤ fuel = omega (arith, length-drop 5 bs) in
      let read : get_item (pack_chunks (suc fuel) (b ∷ bs)) (6 + (ix - 6))
          ≡ some (get_or (b ∷ bs) (6 + (ix - 6)) false) =
        get_item-cons _ _ (ix - 6)
        ∙ pack_chunks-get fuel (drop 5 bs) (ix - 6) rest
        ∙ ap some (get_or-drop 6 (ix - 6) (b ∷ bs)) in
      subst (λ j. get_item (pack_chunks (suc fuel) (b ∷ bs)) j ≡ some (get_or (b ∷ bs) j false))
        (sym e) read
]

-- `Bitstring.fromBools(bools)[ix]` is `bools[ix]`, and False for every index past the end.
pub get_item-from_bools :
    (bools : List Bool) (ix : ℕ) → get_item (from_bools bools) ix ≡ some (get_or bools ix false)
unfolding from_bools
get_item-from_bools bools ix = pack_chunks-get (length bools) bools ix (omega arith)

length-pack_chunks :
    (fuel : ℕ) (bs : List Bool)
    → length bs ≤ fuel
    → length (pack_chunks fuel bs) ≡ (length bs + 5) / 6
unfolding pack_chunks
length-pack_chunks zero [] h = refl
length-pack_chunks zero (b ∷ bs) h = absurd (omega arith)
length-pack_chunks (suc fuel) [] h = refl
length-pack_chunks (suc fuel) (b ∷ bs) h =
    omega (
      arith,
      length-drop 5 bs,
      length-pack_chunks fuel (drop 5 bs) (omega (arith, length-drop 5 bs)),
    )

-- The packed text has one character for each six Booleans, the last one rounded up.
pub length-from_bools : (bools : List Bool) → length (from_bools bools) ≡ (length bools + 5) / 6
unfolding from_bools
length-from_bools bools = length-pack_chunks (length bools) bools (omega arith)
