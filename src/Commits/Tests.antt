-- ===== src/Commits/Tests.antt =====
-- Walks over a few commits, and the theorems there: commit 3 is a merge of 1 and 2, which come from 0.
use test_looper.Common.{
  elem, true, false, ◌⊎◌, ℕ, ◌≤◌, ◌≡◌, refl, none, some, List, [], ◌∷◌, arith, ◌==◌, if◌then◌else◌,
  length, take, keep, drop, max,
}
use test_looper.Commits.{
  Commits, parents_of, below, top_n_prioritized_commits, commits_to_display, get_n_commits,
}
use test_looper.Commits.Walks.{
  chain, prioritized, Walk, top_n_prioritized_commits-chain, commits_to_display-Walk,
}
use test_looper.Commits.Near.{Near, get_n_commits-Near}
use test_looper.Common.{inl, inr, Bool-cases}
use test_looper.Commits.Priorities.{
  Network, Priorities, update_commit_priority, delete_update, set_commit_user_priority,
}
use test_looper.Commits.Priorities.Settled.{Linked}
use test_looper.Commits.Priorities.Works.{
  IsRight, begin, task_processed, task_deleted, user_sets, Works-IsRight,
}

abbrev g : Commits
g = record {
  parents = λ c. if c == 3 then some (1 ∷ 2 ∷ []) else if c == 0 then none else some (0 ∷ []);
  children = λ c. if c == 0 then 1 ∷ 2 ∷ [] else [];
  user_priority = λ c. if c == 1 then 2 else if c == 3 then 1 else 0;
}

two_parents : (c : ℕ) → length (parents_of g c) ≤ 2
two_parents c = ground arith

shown : commits_to_display g 8 (some 3) (some 3) ≡ some (3 ∷ 1 ∷ 2 ∷ [])
unfolding commits_to_display
shown = refl

top_n_prioritized_commits-chain_example :
    top_n_prioritized_commits g (some 3) 5 500
    ≡ take 5 (keep (prioritized g) (chain g 500 (some 3)))
top_n_prioritized_commits-chain_example = top_n_prioritized_commits-chain g (some 3) 5 500

commits_to_display-Walk_example :
    (r : List ℕ) × (commits_to_display g 8 (some 3) (some 3) ≡ some r)
    × Walk (parents_of g) 3 r
    × (length r ≤ max 3 1)
commits_to_display-Walk_example = commits_to_display-Walk g 3 3 2 8 two_parents (omega arith)

get_n_commits-Near_example :
    (commits : List ℕ) × (get_n_commits g 8 3 3 below [] ≡ some (drop 1 commits))
    × Near g below [] 3 commits
    × (length commits ≤ 3)
get_n_commits-Near_example = get_n_commits-Near g below [] 3 3 2 8 two_parents (omega arith)

-- Commit 1 is the child of commit 0, and the head of branch 4.
abbrev net : Network
net = record {
  branches = λ c. if c == 1 then 4 ∷ [] else [];
  children = λ c. if c == 0 then 1 ∷ [] else [];
  parents = λ c. if c == 1 then some (0 ∷ []) else none;
  tests = λ c. [];
  depends_on = λ t. [];
}

net-Linked : Linked net
net-Linked = record {
  linked = λ c d h. (0 ∷ [], ground (arith, h), ground (arith, h));
  no_loop = λ c. ground arith;
}

abbrev fresh : Priorities
fresh = record {
  any_branch = λ c. none;
  user_priority = λ c. 0;
  calculated_priority = λ c. 0;
  commit_updates = 1 ∷ [];
  test_updates = [];
}

-- Commit 0 is right, and commit 1 has a task.
fresh-IsRight : (d : ℕ) → (elem d fresh.commit_updates ≡ true) ⊎ IsRight net fresh d
fresh-IsRight d = elim (Bool-cases (d == 1)) [
  | inl one ↦ inl (ground (arith, one))
  | inr other ↦ inr (
    λ b l. elim l [
      | inl head ↦ ground (arith, head, other)
      | inr (c, there, at) ↦ ground (arith, at)
    ],
    refl,
  )
]

-- The user sets the priority of commit 0 while the task of commit 1 is processed and not deleted yet.
abbrev run_tasks : Priorities
run_tasks = delete_update 0 (
    update_commit_priority net 0
      (delete_update 1 (set_commit_user_priority 0 2 (update_commit_priority net 1 fresh))))

prioritized_0 : run_tasks.calculated_priority 0 ≡ 2
unfolding update_commit_priority set_commit_user_priority delete_update
prioritized_0 = refl

Works-IsRight_example : IsRight net run_tasks 0
unfolding update_commit_priority set_commit_user_priority delete_update
Works-IsRight_example =
    Works-IsRight net fresh run_tasks none 0 net-Linked fresh-IsRight
      (task_deleted 0 _ run_tasks
        (task_processed 0 _ _
          (task_deleted 1 _ _
            (user_sets (some 1) 0 2 _ _ (task_processed 1 _ _ begin refl refl)
              (λ e. ground (arith, e)) refl)
            refl)
          refl refl)
        refl)
      refl

-- A priority that the user sets between the processing and the deletion of the commit's own task is lost:
-- the commit has no task any more and keeps the old priority.
abbrev lost : Priorities
lost = delete_update 1 (set_commit_user_priority 1 2 (update_commit_priority net 1 fresh))

lost_update :
    (lost.user_priority 1 ≡ 2)
    × (lost.calculated_priority 1 ≡ 0)
    × (elem 1 lost.commit_updates ≡ false)
unfolding update_commit_priority set_commit_user_priority delete_update
lost_update = (refl, refl, refl)
