-- ===== src/Scheduler/Choosing.antt =====
-- Which test a machine gets in data_model/TestManager.py.
use test_looper.Common.{
  ℕ, ◌≡◌, ◌⊎◌, true, inl, inr, Option, none, some, List, [], ◌∷◌, arith, ◌==◌, All, elem,
  Bool-cases, Option-cases, ==_iff, ==_refl, refl, ap, subst, ◌∙◌,
}
use test_looper.Scheduler.{
  Priority, waiting_to_retry, dependency_failed, waiting_on_builds, unresolved_dependencies,
  hardware_combo_unbootable, no_more_tests, first_build, first_test, wants_more_tests, Definitions,
  State,
}
use test_looper.Scheduler.Updating.{same_priority}
use test_looper.Scheduler.Running.{
  priorities_to_run, test_with_priority, lookup_highest_priority_test,
}

same_priority_eq : (p q : Priority) → same_priority p q ≡ true → p ≡ q
same_priority_eq waiting_to_retry waiting_to_retry h = refl
same_priority_eq dependency_failed dependency_failed h = refl
same_priority_eq waiting_on_builds waiting_on_builds h = refl
same_priority_eq unresolved_dependencies unresolved_dependencies h = refl
same_priority_eq hardware_combo_unbootable hardware_combo_unbootable h = refl
same_priority_eq no_more_tests no_more_tests h = refl
same_priority_eq (first_build n) (first_build m) h = ap first_build ((==_iff n m).0 h)
same_priority_eq (first_test n) (first_test m) h = ap first_test ((==_iff n m).0 h)
same_priority_eq (wants_more_tests n) (wants_more_tests m) h =
    ap wants_more_tests ((==_iff n m).0 h)
same_priority_eq _ _ h = absurd (ground (arith, h))

same_priority_refl : (q : Priority) → same_priority q q ≡ true
same_priority_refl waiting_to_retry = refl
same_priority_refl dependency_failed = refl
same_priority_refl waiting_on_builds = refl
same_priority_refl unresolved_dependencies = refl
same_priority_refl hardware_combo_unbootable = refl
same_priority_refl no_more_tests = refl
same_priority_refl (first_build n) = ==_refl n
same_priority_refl (first_test n) = ==_refl n
same_priority_refl (wants_more_tests n) = ==_refl n

module _ (defs : Definitions) (pair : ℕ) (s : State) where
  -- The test has the priority, and its machines are those of the pair.
  abbrev pub Waits : Priority → ℕ → Type 0
  Waits q t = ((s.tests t).priority ≡ q) × (defs.pair_for_test t ≡ some pair)

  abbrev pub NoneWaits : Priority → Type 0
  NoneWaits q = All (λ t. ¬ Waits q t) defs.test_ids

  abbrev pub Found : Priority → List ℕ → Option ℕ → Type 0
  Found q ts none = All (λ t. ¬ Waits q t) ts
  Found q ts (some t) = Waits q t × (elem t ts ≡ true)

  Found-cons :
      (q : Priority) (t : ℕ) (ts : List ℕ) (r : Option ℕ)
      → ¬ Waits q t
      → Found q ts r
      → Found q (t ∷ ts) r
  Found-cons q t ts none nobody h = (nobody, h)
  Found-cons q t ts (some u) nobody h = (h.0, ground (arith, h.1))

  test_with_priority-Found :
      (q : Priority) (ts : List ℕ) (r : Option ℕ)
      → test_with_priority defs q pair ts s ≡ some r
      → Found q ts r
  unfolding test_with_priority
  test_with_priority-Found q [] none h = tt
  test_with_priority-Found q [] (some t) h = absurd (ground (arith, h))
  test_with_priority-Found q (t ∷ ts) r h =
      elim (Bool-cases (same_priority (s.tests t).priority q)) [
        | inr other ↦
            let e : test_with_priority defs q pair ts s ≡ some r = ground (arith, h, other) in
            Found-cons q t ts r
              (λ w. ground (arith, other, ap (λ p. same_priority p q) w.0 ∙ same_priority_refl q))
              (test_with_priority-Found q ts r e)
        | inl same ↦ elim (Option-cases (defs.pair_for_test t)) [
          | inl no_pair ↦ absurd (ground (arith, h, same, no_pair))
          | inr (p, has_pair) ↦ elim (Bool-cases (p == pair)) [
            | inl here ↦
                let e : some t ≡ r = ground (arith, h, same, has_pair, here) in
                subst (Found q (t ∷ ts)) e (
                  (
                    same_priority_eq (s.tests t).priority q same,
                    has_pair ∙ ap some ((==_iff p pair).0 here),
                  ),
                  ground arith,
                )
            | inr elsewhere ↦
                let e : test_with_priority defs q pair ts s ≡ some r =
                  ground (arith, h, same, has_pair, elsewhere) in
                Found-cons q t ts r (λ w. ground (arith, w.1, has_pair, elsewhere))
                  (test_with_priority-Found q ts r e)
          ]
        ]
      ]

  -- What the look-up answers, over the priorities from the highest.
  abbrev pub Highest : List Priority → Option ℕ → Type 0
  Highest qs none = All NoneWaits qs
  Highest [] (some t) = ⊥
  Highest (q ∷ qs) (some t) =
      (Waits q t × (elem t defs.test_ids ≡ true)) ⊎ (NoneWaits q × Highest qs (some t))

  Highest-cons :
      (q : Priority) (qs : List Priority) (r : Option ℕ)
      → NoneWaits q
      → Highest qs r
      → Highest (q ∷ qs) r
  Highest-cons q qs none nobody h = (nobody, h)
  Highest-cons q qs (some t) nobody h = inr (nobody, h)

  lookup-Highest :
      (qs : List Priority) (r : Option ℕ)
      → lookup_highest_priority_test defs qs pair s ≡ some r
      → Highest qs r
  unfolding lookup_highest_priority_test
  lookup-Highest [] none h = tt
  lookup-Highest [] (some t) h = absurd (ground (arith, h))
  lookup-Highest (q ∷ qs) r h =
      elim (Option-cases (test_with_priority defs q pair defs.test_ids s)) [
        | inl raised ↦ absurd (ground (arith, h, raised))
        | inr (some t, e) ↦
            let same : some t ≡ r = ground (arith, h, e) in
            subst (Highest (q ∷ qs)) same
              (inl (test_with_priority-Found q defs.test_ids (some t) e))
        | inr (none, e) ↦
            let rest : lookup_highest_priority_test defs qs pair s ≡ some r =
              ground (arith, h, e) in
            Highest-cons q qs r (test_with_priority-Found q defs.test_ids none e)
              (lookup-Highest qs r rest)
      ]

-- Where `_lookupHighestPriorityTest` does not raise, the test that it finds has the machine's pair and one
-- of the priorities 2 and 1 of FirstBuild, FirstTest and WantsMoreTests in this order, and no test with that
-- pair has an earlier one; where it finds none, no test with that pair has any of them.
pub lookup_highest_priority_test-Highest :
    (defs : Definitions) (pair : ℕ) (s : State) (r : Option ℕ)
    → lookup_highest_priority_test defs priorities_to_run pair s ≡ some r
    → Highest defs pair s
        (first_build 2
          ∷ first_build 1
          ∷ first_test 2
          ∷ first_test 1
          ∷ wants_more_tests 2
          ∷ wants_more_tests 1
          ∷ [])
        r
lookup_highest_priority_test-Highest defs pair s r h =
    lookup-Highest defs pair s priorities_to_run r h
