-- ===== src/Commits/Near.antt =====
-- What `getNCommits` of data_model/TestManager.py finds.
use test_looper.Common.{
  ℕ, zero, suc, ◌+◌, ◌-◌, ◌*◌, ◌≤◌, ◌≡◌, refl, true, false, not, ◌&&◌, inl, inr, Option, none, some,
  List, [], ◌∷◌, ◌++◌, arith, ltb, All, All-snoc, elem, length, length-append, drop, Bool-cases, ap,
  subst, ◌∙◌,
}
use native.Mathlib.Nat.{suc-mul}
use test_looper.Commits.{Commits, Direction, neighbours, allowed, n_commits_loop, get_n_commits}
use test_looper.Commits.Walks.{Reaches, here, Walk, All-append, Distinct-snoc, neighbours-Reaches}

module _ (g : Commits) (direction : Direction) (restrict_to : List ℕ) (head : ℕ) where
  -- What the loop collects: a walk within what is allowed.
  abbrev pub Near : List ℕ → Type 0
  Near cs = Walk (neighbours g direction) head cs × All (λ c. allowed restrict_to c ≡ true) cs

  n_commits_loop-Near :
      (n fuel : ℕ) (commits frontier r : List ℕ)
      → Near commits
      → All (Reaches (neighbours g direction) head) frontier
      → length commits ≤ n
      → n_commits_loop g direction restrict_to n fuel commits frontier ≡ some r
      → Near r × (length r ≤ n)
  unfolding n_commits_loop
  n_commits_loop-Near n zero commits frontier r w a short h = absurd (ground (arith, h))
  n_commits_loop-Near n (suc fuel) commits [] r w a short h =
      let same : commits ≡ r = ground (arith, h) in
      subst (λ x. Near x × (length x ≤ n)) same (w, short)
  n_commits_loop-Near n (suc fuel) commits (c ∷ frontier) r w a short h =
      elim (Bool-cases (ltb (length commits) n)) [
        | inr full ↦
            let same : commits ≡ r = ground (arith, h, full) in
            subst (λ x. Near x × (length x ≤ n)) same (w, short)
        | inl less ↦ elim (Bool-cases (not (elem c commits) && allowed restrict_to c)) [
          | inr skip ↦
              n_commits_loop-Near n fuel commits frontier r w a.1 short
                (ground (arith, h, less, skip))
          | inl taken ↦
              let step = neighbours g direction in
              let fresh : elem c commits ≡ false = ground (arith, taken) in
              let fine : allowed restrict_to c ≡ true = ground (arith, taken) in
              n_commits_loop-Near n fuel (commits ++ c ∷ []) (frontier ++ step c) r
                (
                  (
                    Distinct-snoc commits c fresh w.0.0,
                    All-snoc (Reaches step head) commits c a.0 w.0.1,
                  ),
                  All-snoc (λ x. allowed restrict_to x ≡ true) commits c fine w.1,
                )
                (All-append (Reaches step head) frontier (step c) a.1
                  (neighbours-Reaches step head c a.0))
                (ground (arith, less, length-append commits (c ∷ [])))
                (ground (arith, h, less, taken))
        ]
      ]

  n_commits_loop-returns :
      (n k : ℕ)
      → ((c : ℕ) → length (neighbours g direction c) ≤ k)
      → (fuel : ℕ) (commits frontier : List ℕ)
      → length frontier + (n - length commits) * k + 1 ≤ fuel
      → (r : List ℕ) × (n_commits_loop g direction restrict_to n fuel commits frontier ≡ some r)
  unfolding n_commits_loop
  n_commits_loop-returns n k few zero commits frontier h = absurd (omega (arith, h))
  n_commits_loop-returns n k few (suc fuel) commits [] h = (commits, refl)
  n_commits_loop-returns n k few (suc fuel) commits (c ∷ frontier) h =
      elim (Bool-cases (ltb (length commits) n)) [
        | inr full ↦ (commits, rw full refl)
        | inl less ↦ elim (Bool-cases (not (elem c commits) && allowed restrict_to c)) [
          | inr skip ↦
              let (r, e) =
                n_commits_loop-returns n k few fuel commits frontier (omega (arith, h)) in
              (r, rw (less, skip) e)
          | inl taken ↦
              let step = neighbours g direction in
              let longer : length (commits ++ c ∷ []) ≡ length commits + 1 =
                length-append commits (c ∷ []) in
              let queue : length (frontier ++ step c) ≡ length frontier + length (step c) =
                length-append frontier (step c) in
              let left : n - length commits ≡ suc (n - length (commits ++ c ∷ [])) =
                ground (arith, less, longer) in
              let cost : (n - length commits) * k ≡ (n - length (commits ++ c ∷ [])) * k + k =
                ap (λ x. x * k) left ∙ suc-mul (n - length (commits ++ c ∷ [])) k in
              let (r, e) =
                n_commits_loop-returns n k few fuel (commits ++ c ∷ []) (frontier ++ step c)
                  (omega (arith, h, queue, cost, few c)) in
              (r, rw (less, taken) e)
        ]
      ]

-- Where no commit has more than k neighbours in the direction, fuel for n * k + 2 rounds lets `getNCommits`
-- end. What it returns, with one commit before it where it looked at any, are at most n commits that the given
-- one leads to in the direction, none twice, all of them allowed.
pub get_n_commits-Near :
    (g : Commits) (direction : Direction) (restrict_to : List ℕ) (head n k fuel : ℕ)
    → ((c : ℕ) → length (neighbours g direction c) ≤ k)
    → n * k + 2 ≤ fuel
    → (commits : List ℕ) × (get_n_commits g fuel head n direction restrict_to
        ≡ some (drop 1 commits))
      × Near g direction restrict_to head commits
      × (length commits ≤ n)
unfolding get_n_commits
get_n_commits-Near g direction restrict_to head n k fuel few enough =
    let whole : n - 0 ≡ n = omega arith in
    let (r, e) =
      n_commits_loop-returns g direction restrict_to head n k few fuel [] (head ∷ [])
        (omega (arith, enough, ap (λ x. x * k) whole)) in
    let (near, short) =
      n_commits_loop-Near g direction restrict_to head n fuel [] (head ∷ []) r ((tt, tt), tt)
        (here, tt) (omega arith) e in
    (
      r,
      ap
          (λ x. elim x as (λ y. Option (List ℕ)) [
            | none ↦ none
            | some commits ↦ some (drop 1 commits)
          ])
          e,
      near,
      short,
    )
