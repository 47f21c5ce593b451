-- ===== src/Commits/Priorities.antt =====
-- The priorities of commits in data_model/TestManager.py: a commit has the priority that the user gave it
-- while a branch leads to it, and a change is passed on to its parents by tasks. A branch is a
-- number, in the order of the branches' names.
pub mod Settled
pub mod Works
use test_looper.Common.{
  ℕ, Bool, true, false, not, ◌&&◌, ◌||◌, Option, none, some, List, [], ◌∷◌, ◌++◌, leb, ◌==◌,
  if◌then◌else◌, elem, keep, update,
}

-- What does not change: the branches whose head a commit is, the children by CommitRelationship, the
-- parents where its data is there, its tests, and what each of them depends on.
pub record Network : Type 0 where
  pub branches : ℕ → List ℕ
  pub children : ℕ → List ℕ
  pub parents : ℕ → Option (List ℕ)
  pub tests : ℕ → List ℕ
  pub depends_on : ℕ → List ℕ

-- The fields of the commits, and the commits and tests that a task is there for, queued or running.
pub record Priorities : Type 0 where
  pub any_branch : ℕ → Option ℕ
  pub user_priority : ℕ → ℕ
  pub calculated_priority : ℕ → ℕ
  pub commit_updates : List ℕ
  pub test_updates : List ℕ

abbrev pub add_once : ℕ → List ℕ → List ℕ
add_once x xs = if elem x xs then xs else xs ++ x ∷ []

abbrev pub add_all : List ℕ → List ℕ → List ℕ
add_all [] xs = xs
add_all (y ∷ ys) xs = add_all ys (add_once y xs)

-- `sorted(branches)[0]`
abbrev pub least : List ℕ → Option ℕ
least [] = none
least (b ∷ bs) = elim (least bs) [ none ↦ some b | some m ↦ some (if leb b m then b else m) ]

abbrev pub branches_of : (ℕ → Option ℕ) → List ℕ → List ℕ
branches_of any_branch [] = []
branches_of any_branch (c ∷ cs) = elim (any_branch c) [
  | none ↦ branches_of any_branch cs
  | some b ↦ b ∷ branches_of any_branch cs
]

-- `_calcCommitAnybranch`
unfoldable pub calc_commit_anybranch : Network → (ℕ → Option ℕ) → ℕ → Option ℕ
calc_commit_anybranch net any_branch c =
    least (net.branches c ++ branches_of any_branch (net.children c))

-- `_computeCommitPriority`
abbrev pub compute_commit_priority : Option ℕ → ℕ → ℕ
compute_commit_priority none user_priority = 0
compute_commit_priority (some b) user_priority = user_priority

abbrev pub same_branch : Option ℕ → Option ℕ → Bool
same_branch none none = true
same_branch (some b) (some c) = b == c
same_branch _ _ = false

abbrev pub tests_to_update : Network → List ℕ → List ℕ
tests_to_update net [] = []
tests_to_update net (t ∷ ts) = net.depends_on t ++ t ∷ tests_to_update net ts

-- What follows a change of the commit `c`: tasks for its parents and for the tests.
unfoldable pub pass_on : Network → ℕ → Priorities → Priorities
pass_on net c s = elim (net.parents c) [
  | none ↦ s
  | some parents ↦ record s {
    commit_updates = add_all parents s.commit_updates;
    test_updates = add_all (tests_to_update net (net.tests c)) s.test_updates;
  }
]

-- `_updateCommitPriority`
unfoldable pub update_commit_priority : Network → ℕ → Priorities → Priorities
unfolding calc_commit_anybranch pass_on
update_commit_priority net c s =
    let branch = calc_commit_anybranch net s.any_branch c in
    let priority = compute_commit_priority branch (s.user_priority c) in
    let s' = record s {
      any_branch = update s.any_branch c branch;
      calculated_priority = update s.calculated_priority c priority;
    } in
    if same_branch branch (s.any_branch c) && priority == s.calculated_priority c
    then s'
    else pass_on net c s'

-- The last transaction of `performBackgroundWork`, for the task of the commit: the task is deleted. Until
-- then the index `update_commit_priority` lists it, whatever its status.
unfoldable pub delete_update : ℕ → Priorities → Priorities
delete_update c s = record s { commit_updates = keep (λ d. not (d == c)) s.commit_updates }

-- `_setCommitUserPriority`
unfoldable pub set_commit_user_priority : ℕ → ℕ → Priorities → Priorities
set_commit_user_priority c priority s = if priority == s.user_priority c then s else record s {
  user_priority = update s.user_priority c priority;
  commit_updates = add_once c s.commit_updates;
}
