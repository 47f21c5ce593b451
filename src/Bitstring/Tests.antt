-- ===== src/Bitstring/Tests.antt =====
-- Runs of the packing.
use test_looper.Common.{Bool, ◌≡◌, refl, true, false, some, List, [], ◌∷◌, get_or, length, ◌+◌, ◌/◌}
use test_looper.Bitstring.{from_bools, get_item}
use test_looper.Bitstring.Roundtrip.{get_item-from_bools, length-from_bools}

abbrev bools : List Bool
bools = true ∷ false ∷ true ∷ true ∷ false ∷ false ∷ true ∷ []

bit_2 : get_item (from_bools bools) 2 ≡ some true
unfolding from_bools get_item
bit_2 = refl

get_item-from_bools_example : get_item (from_bools bools) 6 ≡ some (get_or bools 6 false)
get_item-from_bools_example = get_item-from_bools bools 6

length-from_bools_example : length (from_bools bools) ≡ (length bools + 5) / 6
length-from_bools_example = length-from_bools bools
