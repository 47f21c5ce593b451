-- ===== src/KvStore.antt =====
-- The string-to-json stores: the interface that core/object_database.py uses (`get`, `setSeveral`),
-- and core/InMemoryJsonStore.py, which implements it. Keys are compared only for equality, and
-- stand here as numbers.
pub mod Memory
mod Tests
use test_looper.Common.{ℕ, ◌≡◌, Option, List, [], ◌∷◌, ◌==◌, if◌then◌else◌}

-- What a run of `set` calls leaves at a key that held `old`.
abbrev pub last_write {ℓ} : {V : Type ℓ} → List (ℕ × Option V) → ℕ → Option V → Option V
last_write [] k old = old
last_write ((j, v) ∷ kvs) k old = last_write kvs k (if k == j then v else old)

-- A store as its client sees it: `get` after `setSeveral` has the last value set, and None deletes.
pub record KvStore (J : Type 0) : Type 1 where
  pub Store : Type 0
  pub get : Store → ℕ → Option J
  pub set_several : Store → List (ℕ × Option J) → Store
  pub get-set_several :
      (s : Store) (kvs : List (ℕ × Option J)) (k : ℕ)
      → get (set_several s kvs) k ≡ last_write kvs k (get s k)
