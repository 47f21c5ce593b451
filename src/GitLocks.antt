-- ===== src/GitLocks.antt =====
-- The git repo locks of data_model/TestManager.py. Request ids, run and deployment ids and test
-- hashes are numbers. What the database has of test runs and deployments at the time of a call is an
-- argument.
pub mod Limits
mod Tests
use test_looper.Common.{
  ℕ, Bool, true, false, not, ◌&&◌, ◌||◌, Option, none, some, List, [], ◌∷◌, ◌++◌, length, ltb, ◌==◌,
  if◌then◌else◌, keep,
}

abbrev pub max_git_connections : ℕ
max_git_connections = 4

-- An object of `AllocatedGitRepoLocks`.
pub record Lock : Type 0 where
  pub request_unique_id : ℕ
  pub test_or_deploy_id : Option ℕ
  pub test_hash : ℕ

-- For a test run whether it is canceled or over, for a deployment whether it is alive, and for both
-- the hash of the test.
pub record World : Type 0 where
  pub test_run : ℕ → Option (Bool × ℕ)
  pub deployment : ℕ → Option (Bool × ℕ)

abbrev pub is_over : Option (Bool × ℕ) → Bool
is_over none = false
is_over (some run) = run.0

abbrev pub is_down : Option (Bool × ℕ) → Bool
is_down none = false
is_down (some deployment) = not deployment.0

-- The tests of `_cleanupGitRepoLocks`.
unfoldable pub is_stale : World → Option ℕ → Bool
is_stale w none = true
is_stale w (some id) = is_over (w.test_run id) || is_down (w.deployment id)

-- `_cleanupGitRepoLocks`
unfoldable pub cleanup_git_repo_locks : World → List Lock → List Lock
unfolding is_stale
cleanup_git_repo_locks w locks = keep (λ lock. not (is_stale w lock.test_or_deploy_id)) locks

abbrev pub same_id : Option ℕ → ℕ → Bool
same_id none j = false
same_id (some id) j = id == j

-- `lookupAny(requestUniqueId=...)`
abbrev pub has_request : ℕ → List Lock → Bool
has_request request [] = false
has_request request (lock ∷ locks) = lock.request_unique_id == request || has_request request locks

abbrev pub locks_of : ℕ → List Lock → List Lock
locks_of id locks = keep (λ lock. same_id lock.test_or_deploy_id id) locks

abbrev pub locks_on : ℕ → List Lock → List Lock
locks_on hash locks = keep (λ lock. lock.test_hash == hash) locks

unfoldable pub find_test_hash : World → ℕ → Option ℕ
find_test_hash w id = elim (w.test_run id) [
  | some run ↦ some run.1
  | none ↦ elim (w.deployment id) [ some deployment ↦ some deployment.1 | none ↦ none ]
]

-- `tryToAllocateGitRepoLock` after the clean-up
unfoldable pub allocate : World → ℕ → ℕ → List Lock → Bool × List Lock
unfolding find_test_hash
allocate w request id locks =
    if has_request request locks then (true, locks) else elim (find_test_hash w id) [
      | none ↦ (false, locks)
      | some hash ↦
          if ltb max_git_connections (length locks)
            || ltb 1 (length (locks_of id locks))
            || ltb 1 (length (locks_on hash locks))
          then (false, locks)
          else (
            true,
            locks
                ++ record {
                  request_unique_id = request;
                  test_or_deploy_id = some id;
                  test_hash = hash;
                }
                  ∷ [],
          )
    ]

-- `tryToAllocateGitRepoLock`
unfoldable pub try_to_allocate_git_repo_lock : World → ℕ → ℕ → List Lock → Bool × List Lock
unfolding cleanup_git_repo_locks allocate
try_to_allocate_git_repo_lock w request id locks =
    allocate w request id (cleanup_git_repo_locks w locks)

-- `gitRepoLockReleased`, which deletes the first lock that the index lists
unfoldable pub git_repo_lock_released : ℕ → List Lock → List Lock
git_repo_lock_released request [] = []
git_repo_lock_released request (lock ∷ locks) =
    let rest = git_repo_lock_released request locks in
    if lock.request_unique_id == request then locks else lock ∷ rest
