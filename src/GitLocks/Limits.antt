-- ===== src/GitLocks/Limits.antt =====
-- How many git repo locks data_model/TestManager.py gives out.
use test_looper.Common.{
  ℕ, ◌+◌, ◌≤◌, ◌≡◌, refl, sym, ap, subst, Bool, false, not, ◌&&◌, ◌||◌, inl, inr, some, List, [],
  ◌∷◌, ◌++◌, arith, length, ltb, ◌==◌, keep, length-append, Bool-cases, Option-cases, ==_iff,
  ==_refl,
}
use test_looper.GitLocks.{
  max_git_connections, Lock, World, is_stale, cleanup_git_repo_locks, same_id, has_request,
  locks_of, locks_on, find_test_hash, allocate, try_to_allocate_git_repo_lock,
  git_repo_lock_released,
}

-- The locks after any sequence of requests and releases, while runs and deployments come and go.
pub data Runs : List Lock → Type 0 where
  unlocked : Runs []
  tries :
      {locks : List Lock} (w : World) (request id : ℕ)
      → Runs locks
      → Runs (try_to_allocate_git_repo_lock w request id locks).1
  releases :
      {locks : List Lock} (request : ℕ) → Runs locks → Runs (git_repo_lock_released request locks)

-- One request has at most one lock.
abbrev pub Unrepeated : List Lock → Type 0
Unrepeated [] = Unit
Unrepeated (lock ∷ locks) = (has_request lock.request_unique_id locks ≡ false) × Unrepeated locks

abbrev count : (Lock → Bool) → List Lock → ℕ
count p locks = length (keep p locks)

-- Fewer locks of every kind.
record Fewer (after before : List Lock) : Type 0 where
  counts : (p : Lock → Bool) → count p after ≤ count p before
  all : length after ≤ length before
  requests : (r : ℕ) → has_request r before ≡ false → has_request r after ≡ false
  unrepeated : Unrepeated before → Unrepeated after

keep-Fewer : (q : Lock → Bool) (locks : List Lock) → Fewer (keep q locks) locks
keep-Fewer q [] = record {
  counts = λ p. omega arith;
  all = omega arith;
  requests = λ r h. h;
  unrepeated = λ h. h;
}
keep-Fewer q (lock ∷ locks) =
    let rest = keep-Fewer q locks in
    elim (Bool-cases (q lock)) [
      | inl kept ↦ rw kept (record {
        counts = λ p. ground (arith, rest.counts p);
        all = omega (arith, rest.all);
        requests = λ r h. ground (arith, h, rest.requests r);
        unrepeated = λ h. (rest.requests lock.request_unique_id h.0, rest.unrepeated h.1);
      })
      | inr dropped ↦ rw dropped (record {
        counts = λ p. ground (arith, rest.counts p);
        all = omega (arith, rest.all);
        requests = λ r h. rest.requests r (ground (arith, h));
        unrepeated = λ h. rest.unrepeated h.1;
      })
    ]

released-Fewer :
    (request : ℕ) (locks : List Lock) → Fewer (git_repo_lock_released request locks) locks
unfolding git_repo_lock_released
released-Fewer request [] = record {
  counts = λ p. omega arith;
  all = omega arith;
  requests = λ r h. h;
  unrepeated = λ h. h;
}
released-Fewer request (lock ∷ locks) =
    let rest = released-Fewer request locks in
    elim (Bool-cases (lock.request_unique_id == request)) [
      | inl here ↦ rw here (record {
        counts = λ p. ground arith;
        all = omega arith;
        requests = λ r h. ground (arith, h);
        unrepeated = λ h. h.1;
      })
      | inr other ↦ rw other (record {
        counts = λ p. ground (arith, rest.counts p);
        all = omega (arith, rest.all);
        requests = λ r h. ground (arith, h, rest.requests r);
        unrepeated = λ h. (rest.requests lock.request_unique_id h.0, rest.unrepeated h.1);
      })
    ]

pub record IsLimited (locks : List Lock) : Type 0 where
  pub connections : length locks ≤ 5
  pub of_one : (id : ℕ) → length (locks_of id locks) ≤ 2
  pub on_one : (hash : ℕ) → length (locks_on hash locks) ≤ 2
  pub unrepeated : Unrepeated locks

Fewer-IsLimited :
    (after before : List Lock) → Fewer after before → IsLimited before → IsLimited after
Fewer-IsLimited after before f i = record {
  connections = omega (arith, f.all, i.connections);
  of_one = λ id. omega (arith, f.counts (λ lock. same_id lock.test_or_deploy_id id), i.of_one id);
  on_one = λ hash. omega (arith, f.counts (λ lock. lock.test_hash == hash), i.on_one hash);
  unrepeated = f.unrepeated i.unrepeated;
}

count-snoc :
    (p : Lock → Bool) (locks : List Lock) (x : Lock) → count p (locks ++ x ∷ []) ≤ count p locks + 1
count-snoc p [] x = ground arith
count-snoc p (lock ∷ locks) x = ground (arith, count-snoc p locks x)

count-snoc_other :
    (p : Lock → Bool) (locks : List Lock) (x : Lock)
    → p x ≡ false
    → count p (locks ++ x ∷ []) ≡ count p locks
count-snoc_other p [] x h = ground (arith, h)
count-snoc_other p (lock ∷ locks) x h = ground (arith, count-snoc_other p locks x h)

has_request-snoc :
    (r : ℕ) (locks : List Lock) (x : Lock)
    → has_request r (locks ++ x ∷ []) ≡ (has_request r locks || x.request_unique_id == r)
has_request-snoc r [] x = ground arith
has_request-snoc r (lock ∷ locks) x = ground (arith, has_request-snoc r locks x)

Unrepeated-snoc :
    (locks : List Lock) (x : Lock)
    → has_request x.request_unique_id locks ≡ false
    → Unrepeated locks
    → Unrepeated (locks ++ x ∷ [])
Unrepeated-snoc [] x h u = (refl, tt)
Unrepeated-snoc (lock ∷ locks) x h u = (
  ground (arith, h, u.0, has_request-snoc lock.request_unique_id locks x),
  Unrepeated-snoc locks x (ground (arith, h)) u.1,
)

-- The new lock of `allocate` where there is room for it.
add_lock-IsLimited :
    (locks : List Lock) (request id hash : ℕ)
    → IsLimited locks
    → has_request request locks ≡ false
    → length locks ≤ 4
    → length (locks_of id locks) ≤ 1
    → length (locks_on hash locks) ≤ 1
    → IsLimited (
        locks
        ++ record { request_unique_id = request; test_or_deploy_id = some id; test_hash = hash }
          ∷ [])
add_lock-IsLimited locks request id hash i new few one two =
    let x : Lock = record {
      request_unique_id = request;
      test_or_deploy_id = some id;
      test_hash = hash;
    } in
    record {
      connections = omega (arith, few, length-append locks (x ∷ []));
      of_one = λ j. elim (Bool-cases (id == j)) [
        | inl same ↦
            let here : length (locks_of j locks) ≤ 1 =
              subst (λ k. length (locks_of k locks) ≤ 1) ((==_iff id j).0 same) one in
            omega (arith, here, count-snoc (λ lock. same_id lock.test_or_deploy_id j) locks x)
        | inr other ↦ omega (
          arith,
          i.of_one j,
          count-snoc_other (λ lock. same_id lock.test_or_deploy_id j) locks x other,
        )
      ];
      on_one = λ j. elim (Bool-cases (hash == j)) [
        | inl same ↦
            let here : length (locks_on j locks) ≤ 1 =
              subst (λ k. length (locks_on k locks) ≤ 1) ((==_iff hash j).0 same) two in
            omega (arith, here, count-snoc (λ lock. lock.test_hash == j) locks x)
        | inr other ↦
            omega (arith, i.on_one j, count-snoc_other (λ lock. lock.test_hash == j) locks x other)
      ];
      unrepeated = Unrepeated-snoc locks x new i.unrepeated;
    }

-- What `tryToAllocateGitRepoLock` answers and what it leaves.
record Allocated (request : ℕ) (answer : Bool × List Lock) : Type 0 where
  limited : IsLimited answer.1
  right : answer.0 ≡ has_request request answer.1

allocate-Allocated :
    (w : World) (request id : ℕ) (locks : List Lock)
    → IsLimited locks
    → Allocated request (allocate w request id locks)
unfolding allocate
allocate-Allocated w request id locks i = elim (Bool-cases (has_request request locks)) [
  | inl there ↦ rw (there, allocate) (record { limited = i; right = sym there })
  | inr new ↦ elim (Option-cases (find_test_hash w id)) [
    | inl e ↦ rw (new, allocate) (rw e (record { limited = i; right = sym new }))
    | inr (hash, e) ↦
        elim (Bool-cases (
          ltb max_git_connections (length locks)
          || ltb 1 (length (locks_of id locks))
          || ltb 1 (length (locks_on hash locks)))) [
            | inl full ↦
                rw (new, allocate) (rw e (rw full (record { limited = i; right = sym new })))
            | inr room ↦
                rw (new, allocate)
                  (rw e (
                    rw room (record {
                      limited =
                          add_lock-IsLimited locks request id hash i new (ground (arith, room))
                            (ground (arith, room)) (ground (arith, room));
                      right =
                          let x : Lock = record {
                            request_unique_id = request;
                            test_or_deploy_id = some id;
                            test_hash = hash;
                          } in
                          ground (arith, has_request-snoc request locks x, ==_refl request);
                    })))
          ]
  ]
]

-- After every sequence of requests and releases there are at most five locks, at most two for one
-- run or deployment, at most two for the tests of one hash, and no two for one request.
pub Runs-IsLimited : (locks : List Lock) → Runs locks → IsLimited locks
unfolding try_to_allocate_git_repo_lock cleanup_git_repo_locks
Runs-IsLimited _ unlocked = record {
  connections = omega arith;
  of_one = λ id. omega arith;
  on_one = λ hash. omega arith;
  unrepeated = tt;
}
Runs-IsLimited _ (tries {locks} w request id r) =
    let clean = cleanup_git_repo_locks w locks in
    let kept = keep-Fewer (λ lock. not (is_stale w lock.test_or_deploy_id)) locks in
    (allocate-Allocated w request id clean
      (Fewer-IsLimited clean locks kept (Runs-IsLimited locks r))).limited
Runs-IsLimited _ (releases {locks} request r) =
    Fewer-IsLimited (git_repo_lock_released request locks) locks (released-Fewer request locks)
      (Runs-IsLimited locks r)

-- In every reachable state `tryToAllocateGitRepoLock` answers True exactly if the request has a lock
-- when it returns.
pub try_to_allocate_git_repo_lock-Runs :
    (w : World) (request id : ℕ) (locks : List Lock)
    → Runs locks
    → (try_to_allocate_git_repo_lock w request id locks).0
      ≡ has_request request (try_to_allocate_git_repo_lock w request id locks).1
unfolding try_to_allocate_git_repo_lock cleanup_git_repo_locks
try_to_allocate_git_repo_lock-Runs w request id locks r =
    let clean = cleanup_git_repo_locks w locks in
    let kept = keep-Fewer (λ lock. not (is_stale w lock.test_or_deploy_id)) locks in
    (allocate-Allocated w request id clean
      (Fewer-IsLimited clean locks kept (Runs-IsLimited locks r))).right

has_request-released :
    (request r : ℕ) (locks : List Lock)
    → Unrepeated locks
    → has_request r (git_repo_lock_released request locks)
      ≡ (has_request r locks && not (request == r))
unfolding git_repo_lock_released
has_request-released request r [] u = refl
has_request-released request r (lock ∷ locks) u =
    let rest = has_request-released request r locks u.1 in
    elim (Bool-cases (lock.request_unique_id == request)) [
      | inl here ↦
          let same = (==_iff lock.request_unique_id request).0 here in
          let gone : has_request request locks ≡ false =
            subst (λ x. has_request x locks ≡ false) same u.0 in
          elim (Bool-cases (request == r)) [
            | inl hit ↦ rw here (
                ground (arith, hit, gone, ap (λ x. has_request x locks) ((==_iff request r).0 hit)))
            | inr miss ↦ rw here (ground (arith, miss, ap (λ x. x == r) same))
          ]
      | inr other ↦ rw other (ground (arith, rest, other))
    ]

-- In every reachable state `gitRepoLockReleased` takes the lock of its request away and leaves those
-- of all other requests.
pub git_repo_lock_released-Runs :
    (request r : ℕ) (locks : List Lock)
    → Runs locks
    → has_request r (git_repo_lock_released request locks)
      ≡ (has_request r locks && not (request == r))
git_repo_lock_released-Runs request r locks runs =
    has_request-released request r locks (Runs-IsLimited locks runs).unrepeated
