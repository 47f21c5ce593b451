-- ===== src/Commits.antt =====
-- The walks over the commits of data_model/TestManager.py: which commits of a branch are shown, which
-- are near another one, and which are prioritized. Commits are numbers.
mod Walks
mod Near
pub mod Priorities
mod Tests
use test_looper.Common.{
  ℕ, zero, suc, ◌+◌, ◌-◌, Bool, true, false, not, ◌&&◌, ◌||◌, Option, none, some, List, [], ◌∷◌,
  ◌++◌, ltb, leb, ◌==◌, if◌then◌else◌, elem, length, drop, update,
}

-- The commits, with what a walk reads of them: the parents where the commit's data is there, the children
-- by CommitRelationship, and the priority that the user gave.
pub record Commits : Type 0 where
  pub parents : ℕ → Option (List ℕ)
  pub children : ℕ → List ℕ
  pub user_priority : ℕ → ℕ

abbrev pub parents_of : Commits → ℕ → List ℕ
parents_of g c = elim (g.parents c) [ none ↦ [] | some ps ↦ ps ]

-- `commit.data.parents[0]`
abbrev pub first_parent : Commits → ℕ → Option ℕ
first_parent g c = elim (parents_of g c) [ [] ↦ none | p ∷ ps ↦ some p ]

-- The loop of `topNPrioritizedCommitsForBranch`
unfoldable pub top_n_loop : Commits → ℕ → ℕ → Option ℕ → List ℕ → List ℕ
top_n_loop g commit_count zero head res = res
top_n_loop g commit_count (suc max_lookback) none res = res
top_n_loop g commit_count (suc max_lookback) (some head) res =
    let rest =
      top_n_loop g commit_count max_lookback (first_parent g head)
        (if g.user_priority head == 0 then res else res ++ head ∷ []) in
    if ltb (length res) commit_count then rest else res

-- `topNPrioritizedCommitsForBranch`
unfoldable pub top_n_prioritized_commits : Commits → Option ℕ → ℕ → ℕ → List ℕ
unfolding top_n_loop
top_n_prioritized_commits g head commit_count max_lookback =
    top_n_loop g commit_count max_lookback head []

-- `max_commits is not None and len(ordered) >= max_commits`
abbrev pub is_enough : Option ℕ → List ℕ → Bool
is_enough none ordered = false
is_enough (some max_commits) ordered = leb max_commits (length ordered)

-- The loop of `commitsToDisplayForBranch`, on fuel; none where the fuel is not enough. The set `commits`
-- has the same elements as `ordered`.
unfoldable pub display_loop : Commits → Option ℕ → ℕ → List ℕ → List ℕ → Option (List ℕ)
display_loop g max_commits zero ordered new = none
display_loop g max_commits (suc fuel) ordered [] = some ordered
display_loop g max_commits (suc fuel) ordered (n ∷ new) =
    let skip = display_loop g max_commits fuel ordered new in
    let more = display_loop g max_commits fuel (ordered ++ n ∷ []) (new ++ parents_of g n) in
    if elem n ordered
    then skip
    else if is_enough max_commits (ordered ++ n ∷ [])
    then some (ordered ++ n ∷ [])
    else more

-- `commitsToDisplayForBranch`
unfoldable pub commits_to_display : Commits → ℕ → Option ℕ → Option ℕ → Option (List ℕ)
unfolding display_loop
commits_to_display g fuel none max_commits = some []
commits_to_display g fuel (some head) max_commits = display_loop g max_commits fuel [] (head ∷ [])

pub data Direction : Type 0 where
  above below : Direction

abbrev pub neighbours : Commits → Direction → ℕ → List ℕ
neighbours g above c = g.children c
neighbours g below c = parents_of g c

-- `not restrictTo or c in restrictTo`
abbrev pub allowed : List ℕ → ℕ → Bool
allowed [] c = true
allowed (r ∷ rs) c = elem c (r ∷ rs)

-- The loop of `getNCommits`; the set `seen` has the same elements as `commits`.
unfoldable pub n_commits_loop :
    Commits → Direction → List ℕ → ℕ → ℕ → List ℕ → List ℕ → Option (List ℕ)
n_commits_loop g direction restrict_to n zero commits frontier = none
n_commits_loop g direction restrict_to n (suc fuel) commits [] = some commits
n_commits_loop g direction restrict_to n (suc fuel) commits (c ∷ frontier) =
    let skip = n_commits_loop g direction restrict_to n fuel commits frontier in
    let more =
      n_commits_loop g direction restrict_to n fuel (commits ++ c ∷ [])
        (frontier ++ neighbours g direction c) in
    if not (ltb (length commits) n)
    then some commits
    else if not (elem c commits) && allowed restrict_to c
    then more
    else skip

-- `getNCommits`
unfoldable pub get_n_commits : Commits → ℕ → ℕ → ℕ → Direction → List ℕ → Option (List ℕ)
unfolding n_commits_loop
get_n_commits g fuel commit n direction restrict_to =
    elim (n_commits_loop g direction restrict_to n fuel [] (commit ∷ [])) [
      | none ↦ none
      | some commits ↦ some (drop 1 commits)
    ]
