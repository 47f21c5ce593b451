-- ===== src/Scheduler/Updating.antt =====
-- `_updateTestPriority` of data_model/TestManager.py, which decides what a test waits for, cancels its
-- runs where no commit wants it, and asks for machines.
use test_looper.Common.{
  ℕ, Bool, true, false, not, ◌&&◌, ◌||◌, Option, none, some, List, [], ◌∷◌, ◌==◌, if◌then◌else◌,
  max, get_key, pos, ◌-ℤ◌,
}
use test_looper.Scheduler.{
  Priority, waiting_to_retry, dependency_failed, waiting_on_builds, unresolved_dependencies,
  hardware_combo_unbootable, no_more_tests, first_build, first_test, wants_more_tests, Dependency,
  Definitions, Graph, State, set_test, add_desired, trigger_test_priority_update,
  schedule_boot_check, is_running, ids_where, ◌>>=◌, each,
}
use test_looper.Scheduler.Decisions.{dependencies_of, dependents_of, decide_priority, is_zero}
use test_looper.Scheduler.Ending.{cancel_test_run, terminate_machine}

-- `max(...)` of a generator: a ValueError where it is empty
abbrev pub max_of : List ℕ → Option ℕ
max_of [] = none
max_of (n ∷ []) = some n
max_of (n ∷ m ∷ ns) = elim (max_of (m ∷ ns)) [ none ↦ none | some k ↦ some (max n k) ]

abbrev pub same_priority : Priority → Priority → Bool
same_priority waiting_to_retry waiting_to_retry = true
same_priority dependency_failed dependency_failed = true
same_priority waiting_on_builds waiting_on_builds = true
same_priority unresolved_dependencies unresolved_dependencies = true
same_priority hardware_combo_unbootable hardware_combo_unbootable = true
same_priority no_more_tests no_more_tests = true
same_priority (first_build n) (first_build m) = n == m
same_priority (first_test n) (first_test m) = n == m
same_priority (wants_more_tests n) (wants_more_tests m) = n == m
same_priority _ _ = false

abbrev pub set_calculated_priority : ℕ → ℕ → State → State
set_calculated_priority t n s = set_test t (record (s.tests t) { calculated_priority = n }) s

-- The loop over the tests that depend on `t`: whether one of them has a priority, and the state
-- where `t` has at least the priority of each.
unfoldable pub raise_priority : ℕ → List Dependency → Bool → State → Bool × State
raise_priority t [] referenced s = (referenced, s)
raise_priority t (dep ∷ deps) referenced s =
    let priority = (s.tests dep.test).calculated_priority in
    raise_priority t deps (referenced || not (priority == 0))
      (set_calculated_priority t (max priority (s.tests t).calculated_priority) s)

abbrev pub trigger_all : List ℕ → State → State
trigger_all [] s = s
trigger_all (t ∷ ts) s = trigger_all ts (trigger_test_priority_update t s)

abbrev pub tests_depended_on : List Dependency → List ℕ
tests_depended_on [] = []
tests_depended_on (dep ∷ deps) = dep.depends_on ∷ tests_depended_on deps

abbrev pub tests_depending : List Dependency → List ℕ
tests_depending [] = []
tests_depending (dep ∷ deps) = dep.test ∷ tests_depending deps

module _ (defs : Definitions) (g : Graph) where
  -- The body of the loop that cancels what is going on.
  unfoldable pub cancel_if_running : ℕ → ℕ → State → Option State
  unfolding cancel_test_run terminate_machine
  cancel_if_running cur_timestamp id s = elim (get_key s.runs id) [
    | none ↦ none
    | some run ↦
        if is_running run
        then cancel_test_run defs (terminate_machine defs cur_timestamp) id s
        else some s
  ]

  -- `if test.calculatedPriority == 0:` and what is under it
  unfoldable pub cancel_unwanted : ℕ → ℕ → State → Option State
  unfolding cancel_if_running
  cancel_unwanted cur_timestamp t s =
      if (s.tests t).calculated_priority == 0
      then each (cancel_if_running cur_timestamp) (ids_where (λ run. run.test == t) s.runs) s
      else some s

  -- The change of `category.desired` by what `targetMachineBoot` was before and is now.
  unfoldable pub ask_for_machines : ℕ → ℕ → ℕ → State → State
  unfolding schedule_boot_check
  ask_for_machines c old t s =
      let net_change = pos (s.tests t).target_machine_boot -ℤ pos old in
      if is_zero net_change then s else schedule_boot_check (add_desired net_change c s)

  -- The last part: the tests on both sides of `t` are looked at again if it has changed.
  unfoldable pub tell_others : Priority → ℕ → ℕ → State → State
  unfolding trigger_test_priority_update
  tell_others old_priority old_calc t s =
      if same_priority (s.tests t).priority old_priority
        && (s.tests t).calculated_priority == old_calc
      then s
      else trigger_all (tests_depending (dependents_of t g))
          (trigger_all (tests_depended_on (dependencies_of t g)) s)

  -- From `oldPriority = test.priority` on, for a test with the category `c`.
  unfoldable pub decide_and_tell : ℕ → ℕ → Bool → ℕ → ℕ → State → State
  unfolding decide_priority ask_for_machines tell_others
  decide_and_tell cur_timestamp t referenced old_calc c s =
      let here = set_test t (record (s.tests t) { machine_category = some c }) s in
      let decided =
        set_test t
          (decide_priority defs g here referenced (s.categories c).hardware_combo_unbootable
            cur_timestamp t (here.tests t))
          here in
      tell_others (s.tests t).priority old_calc t
        (ask_for_machines c (s.tests t).target_machine_boot t decided)

  -- `_updateTestPriority`
  unfoldable pub update_test_priority : ℕ → ℕ → State → Option State
  unfolding raise_priority cancel_unwanted decide_and_tell
  update_test_priority cur_timestamp t s = elim (max_of (g.commit_priorities t)) [
    | none ↦ none
    | some priority ↦
        let (referenced, raised) =
          raise_priority t (dependents_of t g) false (set_calculated_priority t priority s) in
        cancel_unwanted cur_timestamp t raised >>= λ s'. elim (defs.pair_for_test t) [
          | none ↦ none
          | some c ↦
              some (decide_and_tell cur_timestamp t referenced (s.tests t).calculated_priority c s')
        ]
  ]
