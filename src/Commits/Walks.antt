-- ===== src/Commits/Walks.antt =====
-- What the walks over commits in data_model/TestManager.py find.
use test_looper.Common.{
  ℕ, zero, suc, ◌+◌, ◌-◌, ◌*◌, ◌≤◌, ◌≡◌, refl, Bool, true, false, not, inl, inr, Option, none, some,
  List, [], ◌∷◌, ◌++◌, arith, ltb, ◌==◌, All, All-snoc, Distinct, elem, elem-append, length,
  length-append, take, keep, Bool-cases, Option-cases, max, sym, ap, subst, ◌∙◌,
}
use native.Mathlib.Nat.{suc-mul}
use test_looper.Commits.{
  Commits, parents_of, first_parent, top_n_loop, top_n_prioritized_commits, is_enough, display_loop,
  commits_to_display,
}

-- The first one of a commit's parents, none where its data is not there or it has no parents.
abbrev pub head_of : Option (List ℕ) → Option ℕ
head_of none = none
head_of (some []) = none
head_of (some (p ∷ ps)) = some p

-- The commits of the chain of first parents from `head` on, at most `n` of them.
abbrev pub chain : Commits → ℕ → Option ℕ → List ℕ
chain g zero head = []
chain g (suc n) none = []
chain g (suc n) (some c) = c ∷ chain g n (head_of (g.parents c))

abbrev pub prioritized : Commits → ℕ → Bool
prioritized g c = not (g.user_priority c == 0)

append_nil : (xs : List ℕ) → xs ++ [] ≡ xs
append_nil [] = refl
append_nil (x ∷ xs) = ap (λ ys. x ∷ ys) (append_nil xs)

append_assoc : (xs ys zs : List ℕ) → (xs ++ ys) ++ zs ≡ xs ++ (ys ++ zs)
append_assoc [] ys zs = refl
append_assoc (x ∷ xs) ys zs = ap (λ us. x ∷ us) (append_assoc xs ys zs)

ends : (res : List ℕ) (k : ℕ) → res ≡ res ++ take k []
ends res zero = sym (append_nil res)
ends res (suc k) = sym (append_nil res)

first_parent_lem : (g : Commits) (c : ℕ) → first_parent g c ≡ head_of (g.parents c)
first_parent_lem g c = elim (Option-cases (g.parents c)) [
  | inl unknown ↦ ground (arith, unknown)
  | inr ([], e) ↦ ground (arith, e)
  | inr (p ∷ ps, e) ↦ ground (arith, e)
]

top_n_loop-chain :
    (g : Commits) (n m : ℕ) (head : Option ℕ) (res : List ℕ)
    → length res ≤ n
    → top_n_loop g n m head res
      ≡ res ++ take (n - length res) (keep (prioritized g) (chain g m head))
unfolding top_n_loop
top_n_loop-chain g n zero head res h = ends res (n - length res)
top_n_loop-chain g n (suc m) none res h = ends res (n - length res)
top_n_loop-chain g n (suc m) (some c) res h = elim (Bool-cases (ltb (length res) n)) [
  | inr full ↦
      let none_left : n - length res ≡ 0 = ground (arith, h, full) in
      rw (full, none_left) (sym (append_nil res))
  | inl short ↦ elim (Bool-cases (g.user_priority c == 0)) [
    | inl plain ↦
        rw (short, plain)
          (top_n_loop-chain g n m (first_parent g c) res h
            ∙ ap (λ p. res ++ take (n - length res) (keep (prioritized g) (chain g m p)))
                (first_parent_lem g c))
    | inr wanted ↦
        let longer : length (res ++ c ∷ []) ≡ length res + 1 = length-append res (c ∷ []) in
        let one_more : n - length res ≡ suc (n - length (res ++ c ∷ [])) =
          ground (arith, short, longer) in
        let rest = keep (prioritized g) (chain g m (head_of (g.parents c))) in
        let k = n - length (res ++ c ∷ []) in
        rw (short, wanted, one_more)
          (top_n_loop-chain g n m (first_parent g c) (res ++ c ∷ []) (ground (arith, short, longer))
            ∙ ap (λ p. (res ++ c ∷ []) ++ take k (keep (prioritized g) (chain g m p)))
                (first_parent_lem g c)
            ∙ append_assoc res (c ∷ []) (take k rest))
  ]
]

-- `topNPrioritizedCommitsForBranch` returns the first `commitCount` of the commits with a user priority
-- among the first `maxLookback` commits of the chain of first parents from the branch's head on.
pub top_n_prioritized_commits-chain :
    (g : Commits) (head : Option ℕ) (n m : ℕ)
    → top_n_prioritized_commits g head n m ≡ take n (keep (prioritized g) (chain g m head))
unfolding top_n_prioritized_commits
top_n_prioritized_commits-chain g head n m =
    let whole : n - 0 ≡ n = omega arith in
    top_n_loop-chain g n m head [] (omega arith)
    ∙ ap (λ x. take x (keep (prioritized g) (chain g m head))) whole

-- A chain of steps of the walk leads from `head` to the commit.
pub data Reaches (step : ℕ → List ℕ) (head : ℕ) : ℕ → Type 0 where
  here : Reaches step head head
  onward : (c d : ℕ) → Reaches step head c → elem d (step c) ≡ true → Reaches step head d

pub All-append :
    {A : Type 0} (P : A → Type 0) (xs ys : List A) → All P xs → All P ys → All P (xs ++ ys)
All-append P [] ys ax ay = ay
All-append P (x ∷ xs) ys ax ay = (ax.0, All-append P xs ys ax.1 ay)

All-elem : (P : ℕ → Type 0) (xs : List ℕ) → ((x : ℕ) → elem x xs ≡ true → P x) → All P xs
All-elem P [] h = tt
All-elem P (x ∷ xs) h = (h x (ground arith), All-elem P xs (λ y e. h y (ground (arith, e))))

pub Distinct-snoc :
    (xs : List ℕ) (n : ℕ) → elem n xs ≡ false → Distinct xs → Distinct (xs ++ n ∷ [])
Distinct-snoc [] n new d = (refl, tt)
Distinct-snoc (x ∷ xs) n new d = (
  ground (arith, new, d.0, elem-append x xs (n ∷ [])),
  Distinct-snoc xs n (ground (arith, new)) d.1,
)

-- What a walk is to find: commits that the head leads to, none twice.
abbrev pub Walk : (ℕ → List ℕ) → ℕ → List ℕ → Type 0
Walk step head cs = Distinct cs × All (Reaches step head) cs

pub neighbours-Reaches :
    (step : ℕ → List ℕ) (head c : ℕ) → Reaches step head c → All (Reaches step head) (step c)
neighbours-Reaches step head c r = All-elem (Reaches step head) (step c) (λ d e. onward c d r e)

-- The number of commits that the walk may still take up.
abbrev room : Option ℕ → List ℕ → ℕ
room none ordered = 0
room (some n) ordered = n - length ordered

module _ (g : Commits) (head : ℕ) where
  display_loop-Walk :
      (max_commits : Option ℕ) (fuel : ℕ) (ordered new r : List ℕ)
      → Walk (parents_of g) head ordered
      → All (Reaches (parents_of g) head) new
      → display_loop g max_commits fuel ordered new ≡ some r
      → Walk (parents_of g) head r
  unfolding display_loop
  display_loop-Walk max_commits zero ordered new r w a h = absurd (ground (arith, h))
  display_loop-Walk max_commits (suc fuel) ordered [] r w a h =
      subst (Walk (parents_of g) head) (ground (arith, h)) w
  display_loop-Walk max_commits (suc fuel) ordered (n ∷ new) r w a h =
      elim (Bool-cases (elem n ordered)) [
        | inl seen ↦
            display_loop-Walk max_commits fuel ordered new r w a.1 (ground (arith, h, seen))
        | inr fresh ↦
            let w' : Walk (parents_of g) head (ordered ++ n ∷ []) = (
              Distinct-snoc ordered n fresh w.0,
              All-snoc (Reaches (parents_of g) head) ordered n a.0 w.1,
            ) in
            elim (Bool-cases (is_enough max_commits (ordered ++ n ∷ []))) [
              | inl enough ↦ subst (Walk (parents_of g) head) (ground (arith, h, fresh, enough)) w'
              | inr more ↦
                  display_loop-Walk max_commits fuel (ordered ++ n ∷ []) (new ++ parents_of g n) r
                    w'
                    (All-append (Reaches (parents_of g) head) new (parents_of g n) a.1
                      (neighbours-Reaches (parents_of g) head n a.0))
                    (ground (arith, h, fresh, more))
            ]
      ]

  display_loop-bound :
      (n fuel : ℕ) (ordered new r : List ℕ)
      → length ordered + 1 ≤ max n 1
      → display_loop g (some n) fuel ordered new ≡ some r
      → length r ≤ max n 1
  unfolding display_loop
  display_loop-bound n zero ordered new r short h = absurd (ground (arith, h))
  display_loop-bound n (suc fuel) ordered [] r short h =
      let same : ordered ≡ r = ground (arith, h) in
      subst (λ x. length x ≤ max n 1) same (omega (arith, short))
  display_loop-bound n (suc fuel) ordered (c ∷ new) r short h = elim (Bool-cases (elem c ordered)) [
    | inl seen ↦ display_loop-bound n fuel ordered new r short (ground (arith, h, seen))
    | inr fresh ↦
        let longer : length (ordered ++ c ∷ []) ≡ length ordered + 1 =
          length-append ordered (c ∷ []) in
        elim (Bool-cases (is_enough (some n) (ordered ++ c ∷ []))) [
          | inl enough ↦
              let same : ordered ++ c ∷ [] ≡ r = ground (arith, h, fresh, enough) in
              subst (λ x. length x ≤ max n 1) same (omega (arith, short, longer))
          | inr more ↦
              display_loop-bound n fuel (ordered ++ c ∷ []) (new ++ parents_of g c) r
                (ground (arith, more, longer)) (ground (arith, h, fresh, more))
        ]
  ]

  -- Fuel for a walk over at most `n` commits, of which each has at most `k` parents.
  display_loop-returns :
      (n k : ℕ)
      → ((c : ℕ) → length (parents_of g c) ≤ k)
      → (fuel : ℕ) (ordered new : List ℕ) → length new + (n - length ordered) * k + 1 ≤ fuel
      → (r : List ℕ) × (display_loop g (some n) fuel ordered new ≡ some r)
  unfolding display_loop
  display_loop-returns n k few zero ordered new h = absurd (omega (arith, h))
  display_loop-returns n k few (suc fuel) ordered [] h = (ordered, refl)
  display_loop-returns n k few (suc fuel) ordered (c ∷ new) h = elim (Bool-cases (elem c ordered)) [
    | inl seen ↦
        let (r, e) = display_loop-returns n k few fuel ordered new (omega (arith, h)) in
        (r, rw seen e)
    | inr fresh ↦ elim (Bool-cases (is_enough (some n) (ordered ++ c ∷ []))) [
      | inl enough ↦ (ordered ++ c ∷ [], rw (fresh, enough) refl)
      | inr more ↦
          let longer : length (ordered ++ c ∷ []) ≡ length ordered + 1 =
            length-append ordered (c ∷ []) in
          let queue : length (new ++ parents_of g c) ≡ length new + length (parents_of g c) =
            length-append new (parents_of g c) in
          let left : n - length ordered ≡ suc (n - length (ordered ++ c ∷ [])) =
            ground (arith, more, longer) in
          let cost : (n - length ordered) * k ≡ (n - length (ordered ++ c ∷ [])) * k + k =
            ap (λ x. x * k) left ∙ suc-mul (n - length (ordered ++ c ∷ [])) k in
          let (r, e) =
            display_loop-returns n k few fuel (ordered ++ c ∷ []) (new ++ parents_of g c)
              (omega (arith, h, queue, cost, few c)) in
          (r, rw (fresh, more) e)
    ]
  ]

-- With a limit of n commits, of which none has more than k parents, fuel for n * k + 2 rounds lets
-- `commitsToDisplayForBranch` end: it returns commits that its head leads to by parents, none twice, and not
-- more than n, or one where n is 0.
pub commits_to_display-Walk :
    (g : Commits) (head n k fuel : ℕ)
    → ((c : ℕ) → length (parents_of g c) ≤ k)
    → n * k + 2 ≤ fuel
    → (r : List ℕ) × (commits_to_display g fuel (some head) (some n) ≡ some r)
      × Walk (parents_of g) head r
      × (length r ≤ max n 1)
unfolding commits_to_display
commits_to_display-Walk g head n k fuel few enough =
    let whole : n - 0 ≡ n = omega arith in
    let (r, e) =
      display_loop-returns g head n k few fuel [] (head ∷ [])
        (omega (arith, enough, ap (λ x. x * k) whole)) in
    (
      r,
      e,
      display_loop-Walk g head (some n) fuel [] (head ∷ []) r (tt, tt) (here, tt) e,
      display_loop-bound g head n fuel [] (head ∷ []) r (omega arith) e,
    )
