-- ===== src/Commits/Priorities/Settled.antt =====
-- The tasks of data_model/TestManager.py keep the priorities of commits right.
use test_looper.Common.{
  ℕ, ◌≡◌, refl, true, false, not, ◌&&◌, ◌||◌, ◌⊎◌, ◌≢◌, inl, inr, Option, none, some, List, [], ◌∷◌,
  ◌++◌, arith, ◌==◌, if◌then◌else◌, elem, elem-append, keep, update, Bool-cases, Option-cases,
  ==_iff, ==_refl, sym, ap, subst, ◌∙◌,
}
use test_looper.Commits.Priorities.{
  Network, Priorities, add_once, add_all, least, branches_of, calc_commit_anybranch,
  compute_commit_priority, same_branch, tests_to_update, pass_on, update_commit_priority,
  delete_update, set_commit_user_priority,
}

-- The children's data names the commit as a parent, and no commit is its own child.
pub record Linked (net : Network) : Type 0 where
  pub linked :
      (c d : ℕ)
      → elem d (net.children c) ≡ true
      → (ps : List ℕ) × (net.parents d ≡ some ps) × (elem c ps ≡ true)
  pub no_loop : (c : ℕ) → elem c (net.children c) ≡ false

-- The fields of the commit are what the methods compute for it.
abbrev pub Settled : Network → Priorities → ℕ → Type 0
Settled net s c =
    (s.any_branch c ≡ calc_commit_anybranch net s.any_branch c)
    × (s.calculated_priority c ≡ compute_commit_priority (s.any_branch c) (s.user_priority c))

-- Each commit is settled or has a task that is still to be processed; `processed` is the commit of the
-- task that is processed and not deleted yet.
abbrev pub Watched : Network → Option ℕ → Priorities → Type 0
Watched net processed s =
    (c : ℕ) → ((elem c s.commit_updates ≡ true) × (processed ≢ some c)) ⊎ Settled net s c

elem-add_once : (a x : ℕ) (xs : List ℕ) → elem a (add_once x xs) ≡ ((a == x) || elem a xs)
elem-add_once a x xs = elim (Bool-cases (elem x xs)) [
  | inl there ↦ elim (Bool-cases (a == x)) [
    | inl same ↦
        let here : elem a xs ≡ true =
          subst (λ y. elem y xs ≡ true) (sym ((==_iff a x).0 same)) there in
        ground (arith, there, same, here)
    | inr other ↦ ground (arith, there, other)
  ]
  | inr new ↦ ground (arith, new, elem-append a xs (x ∷ []))
]

elem-add_all : (a : ℕ) (ys xs : List ℕ) → elem a (add_all ys xs) ≡ (elem a ys || elem a xs)
elem-add_all a [] xs = refl
elem-add_all a (y ∷ ys) xs = ground (arith, elem-add_all a ys (add_once y xs), elem-add_once a y xs)

elem-keep_other :
    (a c : ℕ) (xs : List ℕ) → (a == c) ≡ false → elem a (keep (λ d. not (d == c)) xs) ≡ elem a xs
elem-keep_other a c [] h = refl
elem-keep_other a c (x ∷ xs) h = ground (arith, h, elem-keep_other a c xs h)

branches_of-congr :
    (f f' : ℕ → Option ℕ) (cs : List ℕ)
    → ((d : ℕ) → elem d cs ≡ true → f' d ≡ f d)
    → branches_of f' cs ≡ branches_of f cs
branches_of-congr f f' [] h = refl
branches_of-congr f f' (c ∷ cs) h =
    let rest = branches_of-congr f f' cs (λ d e. h d (ground (arith, e))) in
    ap (λ x. elim x as (λ y. List ℕ) [ none ↦ branches_of f' cs | some b ↦ b ∷ branches_of f' cs ])
      (h c (ground arith))
    ∙ ap (λ r. elim (f c) as (λ y. List ℕ) [ none ↦ r | some b ↦ b ∷ r ]) rest

same_branch_eq : (a b : Option ℕ) → same_branch a b ≡ true → a ≡ b
same_branch_eq none none h = refl
same_branch_eq none (some c) h = absurd (ground (arith, h))
same_branch_eq (some b) none h = absurd (ground (arith, h))
same_branch_eq (some b) (some c) h = ap some ((==_iff b c).0 h)

module _ (net : Network) (links : Linked net) (c : ℕ) (s : Priorities) where
  abbrev branch : Option ℕ
  branch = calc_commit_anybranch net s.any_branch c

  abbrev changed : Priorities
  changed = record s {
    any_branch = update s.any_branch c branch;
    calculated_priority =
        update s.calculated_priority c (compute_commit_priority branch (s.user_priority c));
  }

  -- A look-up beside the commit that changes.
  beside : {A : Type 0} (f : ℕ → A) (x : A) (d : ℕ) → (d == c) ≡ false → update f c x d ≡ f d
  beside f x d other = ap (λ b. if b then x else f d) other

  at_it : {A : Type 0} (f : ℕ → A) (x : A) → update f c x c ≡ x
  at_it f x = ap (λ b. if b then x else f c) (==_refl c)

  calc_beside :
      (d : ℕ)
      → ((e : ℕ) → elem e (net.children d) ≡ true → changed.any_branch e ≡ s.any_branch e)
      → calc_commit_anybranch net changed.any_branch d ≡ calc_commit_anybranch net s.any_branch d
  unfolding calc_commit_anybranch
  calc_beside d h =
      ap (λ bs. least (net.branches d ++ bs))
        (branches_of-congr s.any_branch changed.any_branch (net.children d) h)

  Settled-it : Settled net changed c
  Settled-it =
      let same = calc_beside c (λ e there.
        beside s.any_branch branch e (elim (Bool-cases (e == c)) [
          | inl loop ↦ absurd (
              ground (
                arith,
                links.no_loop c,
                subst (λ x. elem x (net.children c) ≡ true) ((==_iff e c).0 loop) there,
              ))
          | inr other ↦ other
        ])) in
      let now = at_it s.any_branch branch in
      (
        now ∙ sym same,
        at_it s.calculated_priority (compute_commit_priority branch (s.user_priority c))
            ∙ ap (λ b. compute_commit_priority b (s.user_priority c)) (sym now),
      )

  Settled-beside :
      (d : ℕ)
      → (d == c) ≡ false
      → (elem c (net.children d) ≡ false) ⊎ (branch ≡ s.any_branch c)
      → Settled net s d
      → Settled net changed d
  Settled-beside d other unseen (b, p) =
      let same = calc_beside d (λ e there. elim (Bool-cases (e == c)) [
        | inr elsewhere ↦ beside s.any_branch branch e elsewhere
        | inl here ↦
            let e_is_c : e ≡ c = (==_iff e c).0 here in
            elim unseen [
              | inl not_child ↦ absurd (
                  ground
                    (arith, not_child, subst (λ x. elem x (net.children d) ≡ true) e_is_c there))
              | inr unchanged ↦
                  ap (λ x. if x then branch else s.any_branch e) here
                  ∙ unchanged
                  ∙ ap s.any_branch (sym e_is_c)
            ]
      ]) in
      let now = beside s.any_branch branch d other in
      (
        now ∙ b ∙ sym same,
        beside s.calculated_priority (compute_commit_priority branch (s.user_priority c)) d other
            ∙ p
            ∙ ap (λ x. compute_commit_priority x (s.user_priority d)) (sym now),
      )

  -- What the queue is to have after the change, for the commits to be watched.
  Watched-queue :
      (queue tests : List ℕ)
      → ((d : ℕ) → elem d s.commit_updates ≡ true → elem d queue ≡ true)
      → ((d : ℕ)
          → (elem d queue ≡ true) ⊎ ((elem c (net.children d) ≡ false) ⊎ (branch ≡ s.any_branch c)))
      → Watched net none s
      → Watched net (some c) (record changed { commit_updates = queue; test_updates = tests })
  Watched-queue queue tests keeps covers w d = elim (Bool-cases (d == c)) [
    | inl same ↦ inr (subst (Settled net changed) (sym ((==_iff d c).0 same)) Settled-it)
    | inr other ↦
        let elsewhere : (some c) ≢ (some d) = λ e. ground (arith, e, other) in
        elim (w d) [
          | inl waits ↦ inl (keeps d waits.0, elsewhere)
          | inr settled ↦ elim (covers d) [
            | inl now ↦ inl (now, elsewhere)
            | inr unseen ↦ inr (Settled-beside d other unseen settled)
          ]
        ]
  ]

  Watched-pass_on : Watched net none s → Watched net (some c) (pass_on net c changed)
  unfolding pass_on
  Watched-pass_on w = elim (Option-cases (net.parents c)) [
    | inl no_data ↦
        rw (no_data, pass_on)
          (Watched-queue s.commit_updates s.test_updates (λ d q. q)
            (λ d. elim (Bool-cases (elem c (net.children d))) [
              | inl child ↦ absurd (ground (arith, (links.linked d c child).1, no_data))
              | inr other ↦ inr (inl other)
            ])
            w)
    | inr (ps, data_there) ↦
        rw (data_there, pass_on)
          (Watched-queue (add_all ps s.commit_updates)
            (add_all (tests_to_update net (net.tests c)) s.test_updates)
            (λ d q. elem-add_all d ps s.commit_updates ∙ ground (arith, q))
            (λ d. elim (Bool-cases (elem c (net.children d))) [
              | inl child ↦
                  let (qs, there, parent) = links.linked d c child in
                  let same : qs ≡ ps = ground (arith, there, data_there) in
                  let up : elem d ps ≡ true = subst (λ x. elem d x ≡ true) same parent in
                  inl (elem-add_all d ps s.commit_updates ∙ ground (arith, up))
              | inr other ↦ inr (inl other)
            ])
            w)
  ]

-- If each commit is settled or has a task, then after one task is processed so it is for all others, and its
-- commit is settled.
pub update_commit_priority-Watched :
    (net : Network) (c : ℕ) (s : Priorities)
    → Linked net
    → Watched net none s
    → Watched net (some c) (update_commit_priority net c s)
unfolding update_commit_priority
update_commit_priority-Watched net c s links w =
    elim (Bool-cases (
      same_branch new (s.any_branch c)
      && compute_commit_priority new (s.user_priority c) == s.calculated_priority c)) [
        | inl same ↦
            rw (same, update_commit_priority)
              (Watched-queue net links c s s.commit_updates s.test_updates (λ d q. q)
                (λ d. inr (inr (same_branch_eq new (s.any_branch c) (ground (arith, same))))) w)
        | inr other ↦ rw (other, update_commit_priority) (Watched-pass_on net links c s w)
      ]
  where
    new : Option ℕ
    new = calc_commit_anybranch net s.any_branch c

-- The same holds after the user sets the priority of a commit whose task is not processed already.
pub set_commit_user_priority-Watched :
    (net : Network) (c priority : ℕ) (s : Priorities)
    → (processed : Option ℕ) → processed ≢ some c
    → Watched net processed s
    → Watched net processed (set_commit_user_priority c priority s)
unfolding set_commit_user_priority
set_commit_user_priority-Watched net c priority s processed other_task w =
    elim (Bool-cases (priority == s.user_priority c)) [
      | inl same ↦ rw (same, set_commit_user_priority) w
      | inr other ↦
          rw (other, set_commit_user_priority)
            (λ d. elim (Bool-cases (d == c)) [
              | inl here ↦ inl (
                elem-add_once d c s.commit_updates ∙ ground (arith, here),
                λ e. other_task (e ∙ ap some ((==_iff d c).0 here)),
              )
              | inr elsewhere ↦ elim (w d) [
                | inl (waits, apart) ↦
                    inl (elem-add_once d c s.commit_updates ∙ ground (arith, waits), apart)
                | inr (b, p) ↦ inr (
                  b,
                  p
                      ∙ ap (λ u. compute_commit_priority (s.any_branch d) u)
                          (sym (ap (λ x. if x then priority else s.user_priority d) elsewhere)),
                )
              ]
            ])
    ]

-- It holds when the task that is processed is deleted.
pub delete_update-Watched :
    (net : Network) (c : ℕ) (s : Priorities)
    → Watched net (some c) s
    → Watched net none (delete_update c s)
unfolding delete_update
delete_update-Watched net c s w d = elim (w d) [
  | inr settled ↦ inr settled
  | inl (waits, apart) ↦ elim (Bool-cases (d == c)) [
    | inl same ↦ absurd (apart (ap some (sym ((==_iff d c).0 same))))
    | inr other ↦ inl (elem-keep_other d c s.commit_updates other ∙ waits, λ e. ground (arith, e))
  ]
]
