-- ===== src/Commits/Priorities/Works.antt =====
-- The background thread and the users of data_model/TestManager.py at work on the priorities of commits, and
-- what the priorities are in the end, said without the methods that compute them.
use test_looper.Common.{
  ℕ, ◌≤◌, ◌≡◌, ◌≢◌, ◌⊎◌, refl, true, false, inl, inr, Option, none, some, List, [], ◌∷◌, ◌++◌,
  arith, ◌==◌, leb, if◌then◌else◌, elem, elem-append, Bool-cases, Option-cases, ==_iff, sym, ap,
  subst, ◌∙◌,
}
use test_looper.Commits.Priorities.{
  Network, Priorities, least, branches_of, calc_commit_anybranch, compute_commit_priority,
  update_commit_priority, delete_update, set_commit_user_priority,
}
use test_looper.Commits.Priorities.Settled.{
  Linked, Settled, Watched, update_commit_priority-Watched, set_commit_user_priority-Watched,
  delete_update-Watched,
}

-- The branch has the commit as its head, or is the branch of a child.
abbrev pub Leads : Network → Priorities → ℕ → ℕ → Type 0
Leads net s c b =
    (elem b (net.branches c) ≡ true)
    ⊎ ((d : ℕ) × (elem d (net.children c) ≡ true) × (s.any_branch d ≡ some b))

-- The first one of those that `P` holds of, none if there is none.
abbrev pub IsFirst : (ℕ → Type 0) → Option ℕ → Type 0
IsFirst P none = (b : ℕ) → ¬ P b
IsFirst P (some m) = P m × ((b : ℕ) → P b → m ≤ b)

abbrev pub HasPriority : Option ℕ → ℕ → ℕ → Type 0
HasPriority none user calculated = calculated ≡ 0
HasPriority (some b) user calculated = calculated ≡ user

-- The commit has the first branch that leads to it, and the priority that goes with it.
abbrev pub IsRight : Network → Priorities → ℕ → Type 0
IsRight net s c =
    IsFirst (Leads net s c) (s.any_branch c)
    × HasPriority (s.any_branch c) (s.user_priority c) (s.calculated_priority c)

IsFirst-unique : (P : ℕ → Type 0) (o o' : Option ℕ) → IsFirst P o → IsFirst P o' → o ≡ o'
IsFirst-unique P none none f f' = refl
IsFirst-unique P none (some m) f f' = absurd (f m f'.0)
IsFirst-unique P (some m) none f f' = absurd (f' m f.0)
IsFirst-unique P (some m) (some n) f f' =
    let below : m ≤ n = f.1 n f'.0 in
    let above : n ≤ m = f'.1 m f.0 in let same : m ≡ n = omega (arith, below, above) in ap some same

least-IsFirst : (bs : List ℕ) → IsFirst (λ b. elem b bs ≡ true) (least bs)
least-IsFirst [] = λ b h. ground (arith, h)
least-IsFirst (b ∷ bs) = go (least bs) (least-IsFirst bs)
  where
    go :
        (o : Option ℕ)
        → IsFirst (λ x. elem x bs ≡ true) o
        → IsFirst
            (λ x. elem x (b ∷ bs) ≡ true)
            (elim o [ none ↦ some b | some m ↦ some (if leb b m then b else m) ])
    go none f = (
      ground arith,
      λ x h. elim (Bool-cases (elem x bs)) [
        | inl there ↦ absurd (f x there)
        | inr other ↦ ground (arith, h, other)
      ],
    )
    go (some m) f = elim (Bool-cases (leb b m)) [
      | inl less ↦ rw less (
        ground arith,
        λ x h. elim (Bool-cases (elem x bs)) [
          | inl there ↦ ground (arith, less, f.1 x there)
          | inr other ↦ ground (arith, h, other)
        ],
      )
      | inr more ↦
          let there : elem m (b ∷ bs) ≡ true = ground (arith, f.0) in
          subst (IsFirst (λ x. elem x (b ∷ bs) ≡ true))
            (sym (ap (λ y. some (if y then b else m)) more))
            (
              there,
              λ x h. elim (Bool-cases (elem x bs)) [
                | inl inside ↦ f.1 x inside
                | inr other ↦ ground (arith, h, other, more)
              ],
            )
    ]

-- The branches of the children, in both directions.
elem-branches_of :
    (any_branch : ℕ → Option ℕ) (cs : List ℕ) (b : ℕ)
    → elem b (branches_of any_branch cs) ≡ true
    → (d : ℕ) × (elem d cs ≡ true) × (any_branch d ≡ some b)
elem-branches_of any_branch [] b h = absurd (ground (arith, h))
elem-branches_of any_branch (c ∷ cs) b h = elim (Option-cases (any_branch c)) [
  | inl e ↦
      let (d, there, at) = elem-branches_of any_branch cs b (ground (arith, h, e)) in
      (d, ground (arith, there), at)
  | inr (x, e) ↦ elim (Bool-cases (b == x)) [
    | inl same ↦ (c, ground arith, e ∙ ap some (sym ((==_iff b x).0 same)))
    | inr other ↦
        let (d, there, at) = elem-branches_of any_branch cs b (ground (arith, h, e, other)) in
        (d, ground (arith, there), at)
  ]
]

branches_of-elem :
    (any_branch : ℕ → Option ℕ) (cs : List ℕ) (b d : ℕ)
    → elem d cs ≡ true
    → any_branch d ≡ some b
    → elem b (branches_of any_branch cs) ≡ true
branches_of-elem any_branch [] b d h at = absurd (ground (arith, h))
branches_of-elem any_branch (c ∷ cs) b d h at = elim (Bool-cases (d == c)) [
  | inl same ↦
      let here : any_branch c ≡ some b = ap any_branch (sym ((==_iff d c).0 same)) ∙ at in
      ground (arith, here)
  | inr other ↦
      let rest = branches_of-elem any_branch cs b d (ground (arith, h, other)) at in
      elim (Option-cases (any_branch c)) [
        | inl e ↦ ground (arith, rest, e)
        | inr (x, e) ↦ ground (arith, rest, e)
      ]
]

IsFirst-iff :
    (P Q : ℕ → Type 0) (o : Option ℕ)
    → ((b : ℕ) → P b → Q b)
    → ((b : ℕ) → Q b → P b)
    → IsFirst P o
    → IsFirst Q o
IsFirst-iff P Q none to from f = λ b q. f b (from b q)
IsFirst-iff P Q (some m) to from f = (to m f.0, λ b q. f.1 b (from b q))

calc_commit_anybranch-IsFirst :
    (net : Network) (s : Priorities) (c : ℕ)
    → IsFirst (Leads net s c) (calc_commit_anybranch net s.any_branch c)
unfolding calc_commit_anybranch
calc_commit_anybranch-IsFirst net s c =
    let children = branches_of s.any_branch (net.children c) in
    IsFirst-iff (λ b. elem b (net.branches c ++ children) ≡ true) (Leads net s c)
      (least (net.branches c ++ children))
      (λ b h. elim (Bool-cases (elem b (net.branches c))) [
        | inl here ↦ inl here
        | inr other ↦ inr (
            elem-branches_of s.any_branch (net.children c) b
              (ground (arith, h, other, elem-append b (net.branches c) children)))
      ])
      (λ b l. elim l [
        | inl here ↦ elem-append b (net.branches c) children ∙ ground (arith, here)
        | inr (d, there, at) ↦
            let child = branches_of-elem s.any_branch (net.children c) b d there at in
            elem-append b (net.branches c) children ∙ ground (arith, child)
      ])
      (least-IsFirst (net.branches c ++ children))

compute_commit_priority-HasPriority :
    (o : Option ℕ) (user : ℕ) → HasPriority o user (compute_commit_priority o user)
compute_commit_priority-HasPriority none user = refl
compute_commit_priority-HasPriority (some b) user = refl

HasPriority-unique :
    (o : Option ℕ) (user x : ℕ) → HasPriority o user x → x ≡ compute_commit_priority o user
HasPriority-unique none user x p = p
HasPriority-unique (some b) user x p = p

Settled-IsRight : (net : Network) (s : Priorities) (c : ℕ) → Settled net s c → IsRight net s c
Settled-IsRight net s c (b, p) = (
  subst (IsFirst (Leads net s c)) (sym b) (calc_commit_anybranch-IsFirst net s c),
  subst (HasPriority (s.any_branch c) (s.user_priority c)) (sym p)
      (compute_commit_priority-HasPriority (s.any_branch c) (s.user_priority c)),
)

IsRight-Settled : (net : Network) (s : Priorities) (c : ℕ) → IsRight net s c → Settled net s c
IsRight-Settled net s c (f, p) = (
  IsFirst-unique (Leads net s c) (s.any_branch c) (calc_commit_anybranch net s.any_branch c) f
      (calc_commit_anybranch-IsFirst net s c),
  HasPriority-unique (s.any_branch c) (s.user_priority c) (s.calculated_priority c) p,
)

-- The transactions on priorities: the background thread processes a task, in one transaction, and
-- deletes it, in a later one, before it takes the next; users set priorities at any time, but not that of
-- the commit whose task is between the two. The index is the commit of such a task.
pub data Works (net : Network) (start : Priorities) : Option ℕ → Priorities → Type 0 where
  begin : Works net start none start
  task_processed :
      (c : ℕ) (s s' : Priorities)
      → Works net start none s
      → elem c s.commit_updates ≡ true
      → update_commit_priority net c s ≡ s'
      → Works net start (some c) s'
  task_deleted :
      (c : ℕ) (s s' : Priorities)
      → Works net start (some c) s
      → delete_update c s ≡ s'
      → Works net start none s'
  user_sets :
      (processed : Option ℕ) (c priority : ℕ) (s s' : Priorities)
      → Works net start processed s
      → processed ≢ some c
      → set_commit_user_priority c priority s ≡ s'
      → Works net start processed s'

Works-Watched :
    (net : Network) (start : Priorities)
    → Linked net
    → Watched net none start
    → {processed : Option ℕ} {s : Priorities} → Works net start processed s
    → Watched net processed s
Works-Watched net start links w begin = w
Works-Watched net start links w (task_processed c s s' r there e) =
    subst (Watched net (some c)) e
      (update_commit_priority-Watched net c s links (Works-Watched net start links w r))
Works-Watched net start links w (task_deleted c s s' r e) =
    subst (Watched net none) e (delete_update-Watched net c s (Works-Watched net start links w r))
Works-Watched net start links w (user_sets processed c priority s s' r apart e) =
    subst (Watched net processed) e (
      set_commit_user_priority-Watched net c priority s processed apart
        (Works-Watched net start links w r))

-- Where children and parents are linked in both directions and no commit is its own child, and at first each
-- commit is right or has a task: after the background thread has processed and deleted tasks and users have
-- set priorities, in any order but never that of a commit between the processing and the deletion of its
-- task, each commit that has no task is right. That is, its branch is the first by name of the
-- branches that have it as head and those of its children, or none, and its priority is the user's with a
-- branch and 0 without.
pub Works-IsRight :
    (net : Network) (start s : Priorities) (processed : Option ℕ) (c : ℕ)
    → Linked net
    → ((d : ℕ) → (elem d start.commit_updates ≡ true) ⊎ IsRight net start d)
    → Works net start processed s
    → elem c s.commit_updates ≡ false
    → IsRight net s c
Works-IsRight net start s processed c links w r idle =
    elim (Works-Watched net start links watched r c) [
      | inl (waits, apart) ↦ absurd (ground (arith, idle, waits))
      | inr settled ↦ Settled-IsRight net s c settled
    ]
  where
    watched : Watched net none start
    watched d = elim (w d) [
      | inl waits ↦ inl (waits, λ e. ground (arith, e))
      | inr right ↦ inr (IsRight-Settled net start d right)
    ]
