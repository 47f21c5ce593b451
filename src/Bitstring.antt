-- ===== src/Bitstring.antt =====
-- test_looper/core/Bitstring.py: Booleans packed six to a character of a 64-letter alphabet.
pub mod Roundtrip
mod Tests
use Prim.Native.Nat.{bit_and}
use Prim.Native.Char.{code}
use Prim.Native.String.{String}
use test_looper.Common.{
  ℕ, zero, suc, ◌+◌, ◌*◌, ◌/◌, ◌%◌, ◌^◌, Bool, true, false, Option, none, some, List, [], ◌∷◌,
  length, get_or, take, drop, get_elem?, ltb, leb, ◌==◌, if◌then◌else◌,
}

-- A text letter by letter.
abbrev letters : String → List ℕ
letters (String.◌∷◌ first others) = code first ∷ letters others
letters String.[] = []

abbrev alphabet : List ℕ
alphabet = letters "abcdefghijklmnopqrstuvwxyzABCDEFGHIJKLMNOPQRSTUVWXYZ0123456789+/"

-- `_index_to_char[i]`; out of range is the caller's IndexError, which `i < 64` rules out.
index_to_char : ℕ → ℕ
index_to_char i = get_or alphabet i 0

position : ℕ → ℕ → List ℕ → Option ℕ
position c i [] = none
position c i (x ∷ xs) = let rest = position c (i + 1) xs in if x == c then some i else rest

-- `_char_to_index.get(c)`, the dict comprehension over the alphabet's positions.
char_to_index : ℕ → Option ℕ
unfolding position
char_to_index c = position c 0 alphabet

pack_from : ℕ → ℕ → List Bool → ℕ
pack_from res bit [] = res
pack_from res bit (b ∷ bools) = pack_from (if b then res + bit else res) (bit * 2) bools

pack_bitstring_to_int : List Bool → ℕ
unfolding pack_from
pack_bitstring_to_int bools = pack_from 0 1 bools

-- The `while i < len(bools)` loop over what is left of `bools`, on fuel.
pack_chunks : ℕ → List Bool → List ℕ
pack_chunks zero bools = []
pack_chunks (suc fuel) [] = []
pack_chunks (suc fuel) (b ∷ bools) =
    index_to_char (pack_bitstring_to_int (take 6 (b ∷ bools)))
    ∷ pack_chunks fuel (drop 6 (b ∷ bools))

unfoldable pub from_bools : List Bool → List ℕ
unfolding pack_chunks pack_bitstring_to_int index_to_char
from_bools bools = pack_chunks (length bools) bools

-- `(v & (1 << k)) > 0`
has_bit : ℕ → ℕ → Bool
has_bit v k = ltb 0 (bit_and v (2 ^ k))

lookup_bit : Option ℕ → ℕ → Option Bool
unfolding has_bit
lookup_bit none k = none
lookup_bit (some v) k = some (has_bit v k)

char_bit : Option ℕ → ℕ → Option Bool
unfolding lookup_bit char_to_index
char_bit none k = none
char_bit (some c) k = lookup_bit (char_to_index c) k

-- `bits[ix]`; `none` is the KeyError on a character outside the alphabet.
unfoldable pub get_item : List ℕ → ℕ → Option Bool
unfolding char_bit
get_item bits ix =
    if leb (length bits) (ix / 6) then some false else char_bit (get_elem? bits (ix / 6)) (ix % 6)
