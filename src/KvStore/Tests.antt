-- ===== src/KvStore/Tests.antt =====
-- Runs of core/InMemoryJsonStore.py.
use test_looper.Common.{
  ℕ, ◌≡◌, refl, false, Option, none, some, List, [], ◌∷◌, ◌==◌, if◌then◌else◌, Map,
}
use test_looper.KvStore.{last_write}
use test_looper.KvStore.Memory.{
  get, set, set_several, exists, delete, get-set_several, exists-delete,
}

abbrev same : ℕ → ℕ
same v = v

abbrev values : Map ℕ
values k = if k == 3 then some 30 else none

abbrev kvs : List (ℕ × Option ℕ)
kvs = (3, none) ∷ (4, some 40) ∷ []

get-set_several_example :
    (values' : Map ℕ) × (set_several same same values kvs ≡ some values')
    × ((k : ℕ) → get same same values' k ≡ last_write kvs k (get same same values k))
get-set_several_example = get-set_several same same (λ v. refl) values kvs

exists-delete_example :
    (values' : Map ℕ) × (delete values 5 ≡ some values')
    × ((k : ℕ) → exists values' k ≡ (if k == 5 then false else exists values k))
    × ((k : ℕ) → get same same values' k ≡ (if k == 5 then none else get same same values k))
    × (set same same values 5 none ≡ some values')
exists-delete_example = exists-delete same same (λ v. refl) values 5
