-- ===== src/GitLocks/Tests.antt =====
-- Runs of data_model/TestManager.py's git repo locks, and the theorems at them.
use test_looper.Common.{
  ℕ, zero, suc, ◌≡◌, refl, false, not, ◌&&◌, none, some, List, [], length, ◌==◌,
}
use test_looper.GitLocks.{
  Lock, World, has_request, try_to_allocate_git_repo_lock, git_repo_lock_released,
}
use test_looper.GitLocks.Limits.{
  Runs, unlocked, tries, IsLimited, Runs-IsLimited, try_to_allocate_git_repo_lock-Runs,
  git_repo_lock_released-Runs,
}

-- Run `n` is of the test with the hash `n`, and none is over.
abbrev world : World
world = record { test_run = λ id. some (false, id); deployment = λ id. none }

-- Request `n` is of run `n`.
abbrev request_all : ℕ → List Lock
request_all zero = []
request_all (suc n) = (try_to_allocate_git_repo_lock world n n (request_all n)).1

request_all-Runs : (n : ℕ) → Runs (request_all n)
request_all-Runs zero = unlocked
request_all-Runs (suc n) = tries world n n (request_all-Runs n)

-- A fifth connection is granted, a sixth is not.
connections_test : length (request_all 9) ≡ 5
unfolding try_to_allocate_git_repo_lock
connections_test = refl

Runs-IsLimited_example : IsLimited (request_all 9)
Runs-IsLimited_example = Runs-IsLimited (request_all 9) (request_all-Runs 9)

try_to_allocate_git_repo_lock-Runs_example :
    (try_to_allocate_git_repo_lock world 9 3 (request_all 3)).0
    ≡ has_request 9 (try_to_allocate_git_repo_lock world 9 3 (request_all 3)).1
try_to_allocate_git_repo_lock-Runs_example =
    try_to_allocate_git_repo_lock-Runs world 9 3 (request_all 3) (request_all-Runs 3)

git_repo_lock_released-Runs_example :
    has_request 2 (git_repo_lock_released 1 (request_all 3))
    ≡ (has_request 2 (request_all 3) && not (1 == 2))
git_repo_lock_released-Runs_example =
    git_repo_lock_released-Runs 1 2 (request_all 3) (request_all-Runs 3)
