-- ===== src/Scheduler/Updates.antt =====
-- `_updateTestPriority` of data_model/TestManager.py keeps the books right.
use test_looper.Common.{
  ℕ, ◌≡◌, refl, Bool, true, false, not, ◌&&◌, ◌||◌, inl, inr, none, some, List, [], ◌∷◌, arith,
  ◌==◌, if◌then◌else◌, max, get_key, ap-if, Bool-cases, Option-cases, pos, ◌-ℤ◌, ◌∙◌,
}
use test_looper.Scheduler.{
  Definitions, Graph, State, Test, Priority, Dependency, set_test, add_desired,
  trigger_test_priority_update, schedule_boot_check, is_running, ids_where, ◌>>=◌,
}
use test_looper.Scheduler.Decisions.{
  dependencies_of, dependents_of, decide_priority, priority_by_count,
  update_test_target_machine_count, is_zero,
}
use test_looper.Scheduler.Ending.{cancel_test_run, terminate_machine}
use test_looper.Scheduler.Updating.{
  max_of, same_priority, set_calculated_priority, raise_priority, trigger_all, tests_depended_on,
  tests_depending, cancel_if_running, cancel_unwanted, ask_for_machines, tell_others,
  decide_and_tell, update_test_priority,
}
use test_looper.Scheduler.Invariant.{Books}
use test_looper.Scheduler.Later.{Later-refl}
use test_looper.Scheduler.Kept.{
  May, May-Later, May-Ends, May-bind, each-May, cancel_now-Ends, Quiet, Quiet-refl, Quiet-trans,
  Quiet-set_test, Quiet-set_category, Quiet-trigger, Quiet-schedule, Quiet-Later, Quiet-Books,
}

pub Quiet-trigger_all : (ids : List ℕ) (s : State) → Quiet s (trigger_all ids s)
Quiet-trigger_all [] s = Quiet-refl s
Quiet-trigger_all (t ∷ ids) s =
    Quiet-trans s (trigger_test_priority_update t s)
      (trigger_all ids (trigger_test_priority_update t s)) (Quiet-trigger t s)
      (Quiet-trigger_all ids (trigger_test_priority_update t s))

module _ (defs : Definitions) (g : Graph) where
  pub priority_by_count-active_runs :
      (ts t : ℕ) (x : Test) → (priority_by_count (defs.summary t) ts x).active_runs ≡ x.active_runs
  unfolding priority_by_count update_test_target_machine_count
  priority_by_count-active_runs ts t x =
      ap-if (λ (p : Bool × Test). p.1.active_runs) (x.calculated_priority == 0) _ _
      ∙ same (x.calculated_priority == 0)
    where
      same : (b : Bool) → (if b then x.active_runs else x.active_runs) ≡ x.active_runs
      same true = refl
      same false = refl

  pub decide_priority-active_runs :
      (s : State) (referenced unbootable : Bool) (ts t : ℕ) (x : Test)
      → (decide_priority defs g s referenced unbootable ts t x).active_runs ≡ x.active_runs
  unfolding decide_priority
  decide_priority-active_runs s referenced unbootable ts t x =
      ground (arith, priority_by_count-active_runs ts t x)

  Quiet-raise :
      (t : ℕ) (deps : List Dependency) (r : Bool) (s : State)
      → Quiet s (raise_priority t deps r s).1
  unfolding raise_priority
  Quiet-raise t [] r s = Quiet-refl s
  Quiet-raise t (dep ∷ deps) r s =
      let n = max (s.tests dep.test).calculated_priority (s.tests t).calculated_priority in
      let s' = set_calculated_priority t n s in
      let r' = r || not ((s.tests dep.test).calculated_priority == 0) in
      Quiet-trans s s' (raise_priority t deps r' s').1
        (Quiet-set_test t (record (s.tests t) { calculated_priority = n }) s refl)
        (Quiet-raise t deps r' s')

  Quiet-ask : (c old t : ℕ) (s : State) → Quiet s (ask_for_machines defs g c old t s)
  unfolding ask_for_machines
  Quiet-ask c old t s =
      let net_change = pos (s.tests t).target_machine_boot -ℤ pos old in
      elim (Bool-cases (is_zero net_change)) [
        | inl none_more ↦ rw (none_more, ask_for_machines) (Quiet-refl s)
        | inr change ↦
            rw (change, ask_for_machines)
              (Quiet-trans s (add_desired net_change c s)
                (schedule_boot_check (add_desired net_change c s)) (Quiet-set_category c _ s refl)
                (Quiet-schedule (add_desired net_change c s)))
      ]

  Quiet-tell : (p : Priority) (old t : ℕ) (s : State) → Quiet s (tell_others defs g p old t s)
  unfolding tell_others
  Quiet-tell p old t s =
      let first = trigger_all (tests_depended_on (dependencies_of t g)) s in
      elim (Bool-cases
        (same_priority (s.tests t).priority p && (s.tests t).calculated_priority == old)) [
          | inl same ↦ rw (same, tell_others) (Quiet-refl s)
          | inr other ↦
              rw (other, tell_others)
                (Quiet-trans s first (trigger_all (tests_depending (dependents_of t g)) first)
                  (Quiet-trigger_all (tests_depended_on (dependencies_of t g)) s)
                  (Quiet-trigger_all (tests_depending (dependents_of t g)) first))
        ]

  Quiet-decide :
      (ts t : ℕ) (referenced : Bool) (old c : ℕ) (s : State)
      → Quiet s (decide_and_tell defs g ts t referenced old c s)
  unfolding decide_and_tell
  Quiet-decide ts t referenced old c s =
      let here = set_test t (record (s.tests t) { machine_category = some c }) s in
      let x =
        decide_priority defs g here referenced (s.categories c).hardware_combo_unbootable ts t
          (here.tests t) in
      let decided = set_test t x here in
      let asked = ask_for_machines defs g c (s.tests t).target_machine_boot t decided in
      Quiet-trans s here (tell_others defs g (s.tests t).priority old t asked)
        (Quiet-set_test t (record (s.tests t) { machine_category = some c }) s refl)
        (Quiet-trans here decided (tell_others defs g (s.tests t).priority old t asked)
          (Quiet-set_test t x here
            (decide_priority-active_runs here referenced _ ts t (here.tests t)))
          (Quiet-trans decided asked (tell_others defs g (s.tests t).priority old t asked)
            (Quiet-ask c _ t decided) (Quiet-tell (s.tests t).priority old t asked)))

  cancel_if_running-May :
      (ts id : ℕ) (s : State)
      → Books defs s
      → May defs (λ x. x) s (cancel_if_running defs g ts id s)
  unfolding cancel_if_running
  cancel_if_running-May ts id s b = elim (Option-cases (get_key s.runs id)) [
    | inl gone ↦ rw (gone, cancel_if_running) tt
    | inr (run, at) ↦ elim (Bool-cases (is_running run)) [
      | inl going ↦
          rw (at, cancel_if_running)
            (rw going (
              May-Ends defs s (cancel_test_run defs (terminate_machine defs ts) id s)
                (cancel_now-Ends defs ts id run s at (ground (arith, going)) b)))
      | inr over ↦ rw (at, cancel_if_running) (rw over (b, Later-refl s))
    ]
  ]

  cancel_unwanted-May :
      (ts t : ℕ) (s : State) → Books defs s → May defs (λ x. x) s (cancel_unwanted defs g ts t s)
  unfolding cancel_unwanted
  cancel_unwanted-May ts t s b = elim (Bool-cases ((s.tests t).calculated_priority == 0)) [
    | inl unwanted ↦
        rw (unwanted, cancel_unwanted)
          (each-May defs (cancel_if_running defs g ts) (ids_where (λ run. run.test == t) s.runs)
            (cancel_if_running-May ts) s b)
    | inr wanted ↦ rw (wanted, cancel_unwanted) (b, Later-refl s)
  ]

  pub update_test_priority-May :
      (ts t : ℕ) (s : State)
      → Books defs s
      → May defs (λ x. x) s (update_test_priority defs g ts t s)
  unfolding update_test_priority
  update_test_priority-May ts t s b = elim (Option-cases (max_of (g.commit_priorities t))) [
    | inl no_commit ↦ rw (no_commit, update_test_priority) tt
    | inr (priority, e) ↦ rw (e, update_test_priority) (raised priority)
  ]
    where
      raised :
          (priority : ℕ)
          → May defs
              (λ x. x)
              s
              (let (referenced, raised) =
                  raise_priority t
                    (dependents_of t g)
                    false
                    (set_calculated_priority t priority s) in
                cancel_unwanted defs g ts t raised >>= λ s'. elim (defs.pair_for_test t) [
                  | none ↦ none
                  | some c ↦
                      some (
                        decide_and_tell defs g ts t referenced (s.tests t).calculated_priority c s')
                ])
      raised priority =
          let s₁ = set_calculated_priority t priority s in
          let (referenced, s₂) = raise_priority t (dependents_of t g) false s₁ in
          let quiet =
            Quiet-trans s s₁ s₂
              (Quiet-set_test t (record (s.tests t) { calculated_priority = priority }) s refl)
              (Quiet-raise t (dependents_of t g) false s₁) in
          May-Later defs (λ x. x) s s₂ _ (Quiet-Later s s₂ quiet)
            (May-bind defs (λ x. x) (λ x. x) s₂ (cancel_unwanted defs g ts t s₂) _
              (cancel_unwanted-May ts t s₂ (Quiet-Books defs s s₂ quiet b))
              (λ s' b' l. elim (Option-cases (defs.pair_for_test t)) [
                | inl no_pair ↦ rw no_pair tt
                | inr (c, pair) ↦
                    let done = Quiet-decide ts t referenced (s.tests t).calculated_priority c s' in
                    rw pair (
                      Quiet-Books defs s'
                          (decide_and_tell defs g ts t referenced (s.tests t).calculated_priority c
                            s')
                          done b',
                      Quiet-Later s'
                          (decide_and_tell defs g ts t referenced (s.tests t).calculated_priority c
                            s')
                          done,
                    )
              ]))
