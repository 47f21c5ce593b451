-- ===== src/Scheduler/Decisions.antt =====
-- What `_updateTestPriority` of data_model/TestManager.py decides by: the hardware for a test,
-- retries, dependencies, and the number of machines that a test wants.
use test_looper.Common.{
  ℕ, ◌+◌, Bool, true, false, not, ◌&&◌, ◌||◌, Option, none, some, List, [], ◌∷◌, ltb, leb, ◌==◌,
  if◌then◌else◌, elem, keep, max, ℤ, pos, negsuc, ◌+ℤ◌, ◌-ℤ◌, ltb_ℤ, at_least_zero,
}
use test_looper.Machines.{Hardware}
use test_looper.Scheduler.{
  Kind, build, deployment, test_kind, Summary, Priority, waiting_to_retry, dependency_failed,
  waiting_on_builds, unresolved_dependencies, hardware_combo_unbootable, no_more_tests, first_build,
  first_test, wants_more_tests, Test, TestRun, Dependency, Definitions, Graph, State,
}

abbrev pub last_or : {A : Type 0} → A → List A → A
last_or d [] = d
last_or d (x ∷ xs) = last_or x xs

-- `sorted(viable, key=lambda k: k.cores)`, which keeps the order of equal ones
abbrev pub insert_by_cores : Hardware → List Hardware → List Hardware
insert_by_cores h [] = h ∷ []
insert_by_cores h (x ∷ xs) = if ltb x.cores h.cores then x ∷ insert_by_cores h xs else h ∷ x ∷ xs

unfoldable pub sort_by_cores : List Hardware → List Hardware
sort_by_cores [] = []
sort_by_cores (h ∷ hs) = insert_by_cores h (sort_by_cores hs)

abbrev pub first_of : {A : Type 0} → List A → Option A
first_of [] = none
first_of (x ∷ xs) = some x

-- `_machineCategoryPairForTest`: the hardware of the pair; none where it raises
unfoldable pub hardware_for_test : List Hardware → Summary → Option Hardware
unfolding sort_by_cores
hardware_for_test all_hardware_configs summary =
    let viable =
      keep (λ h. leb summary.min_cores h.cores && leb summary.min_ram_gb h.ram_gb)
        all_hardware_configs in
    elim viable [
      | [] ↦ none
      | first ∷ others ↦
          if summary.max_cores == 0
          then first_of (sort_by_cores (first ∷ others))
          else elim (keep (λ h. leb h.cores summary.max_cores) (first ∷ others)) [
            | [] ↦ some first
            | small ∷ smaller ↦ some (last_or small smaller)
          ]
    ]

abbrev pub is_build : Kind → Bool
is_build build = true
is_build _ = false

abbrev pub is_deployment : Kind → Bool
is_deployment deployment = true
is_deployment _ = false

-- `if i:` of a counter
abbrev pub is_zero : ℤ → Bool
is_zero (pos n) = n == 0
is_zero (negsuc n) = false

-- `_testWantsRetries`
unfoldable pub test_wants_retries : Summary → Test → Bool
test_wants_retries summary test =
    if test.calculated_priority == 0
    then false
    else if not (is_build summary.kind)
    then false
    else if summary.max_retries == 0
    then false
    else if not (is_zero test.successes)
    then false
    else ltb_ℤ test.total_runs (pos summary.max_retries)

-- `_readyToRetryTest`
unfoldable pub ready_to_retry_test : Summary → Test → ℕ → Bool
ready_to_retry_test summary test cur_timestamp =
    if is_zero test.total_runs
    then true
    else ltb (test.last_test_end_timestamp + summary.retry_wait_seconds) cur_timestamp

-- The variable `needed` of `_updateTestTargetMachineCountAndReturnIsDone`.
unfoldable pub runs_needed : Summary → Test → ℕ → ℤ
unfolding test_wants_retries ready_to_retry_test
runs_needed summary test cur_timestamp = elim summary.kind [
  | deployment ↦ pos 0
  | build ↦
      if test_wants_retries summary test
      then (if ready_to_retry_test summary test cur_timestamp
          then test.total_runs +ℤ pos 1
          else test.total_runs)
      else pos 1
  | test_kind ↦ pos (max test.runs_desired 1)
]

-- `_updateTestTargetMachineCountAndReturnIsDone`
unfoldable pub update_test_target_machine_count : Summary → ℕ → Test → Bool × Test
unfolding runs_needed
update_test_target_machine_count summary cur_timestamp test =
    if test.calculated_priority == 0
    then (true, record test { target_machine_boot = 0 })
    else (let needed = runs_needed summary test cur_timestamp in
        (
          not (ltb_ℤ (test.total_runs +ℤ test.active_runs) needed),
          record test { target_machine_boot = at_least_zero (needed -ℤ test.total_runs) },
        ))

-- `artifact in run.artifactsCompleted` for a run that is not canceled
abbrev pub has_artifact : ℕ → ℕ → TestRun → Bool
has_artifact t artifact run =
    run.test == t && not run.canceled && elem artifact run.artifacts_completed

abbrev pub any_run : (TestRun → Bool) → List (ℕ × TestRun) → Bool
any_run p [] = false
any_run p (e ∷ runs) = p e.1 || any_run p runs

-- `_testHasArtifactAnywhere`
unfoldable pub test_has_artifact_anywhere : ℕ → ℕ → State → Bool
test_has_artifact_anywhere t artifact s = any_run (has_artifact t artifact) s.runs

abbrev pub any_dependency : (Dependency → Bool) → List Dependency → Bool
any_dependency p [] = false
any_dependency p (d ∷ ds) = p d || any_dependency p ds

abbrev pub dependencies_of : ℕ → Graph → List Dependency
dependencies_of t g = keep (λ d. d.test == t) g.dependencies

abbrev pub dependents_of : ℕ → Graph → List Dependency
dependents_of t g = keep (λ d. d.depends_on == t) g.dependencies

-- The body of the loop in `_testHasUnfinishedDeps`.
unfoldable pub is_unfinished : Definitions → State → Dependency → Bool
unfolding test_has_artifact_anywhere test_wants_retries
is_unfinished defs s dep =
    not (test_has_artifact_anywhere dep.depends_on dep.artifact s)
    && (is_zero (s.tests dep.depends_on).total_runs
        || test_wants_retries (defs.summary dep.depends_on) (s.tests dep.depends_on))

-- `_testHasUnfinishedDeps`
unfoldable pub test_has_unfinished_deps : Definitions → Graph → State → ℕ → Bool
unfolding is_unfinished
test_has_unfinished_deps defs g s t = any_dependency (is_unfinished defs s) (dependencies_of t g)

abbrev pub is_dependency_failed : Priority → Bool
is_dependency_failed dependency_failed = true
is_dependency_failed _ = false

-- The body of the loop in `_testHasFailedDeps`.
unfoldable pub is_failed : Definitions → State → Dependency → Bool
unfolding test_has_artifact_anywhere test_wants_retries
is_failed defs s dep =
    let on = s.tests dep.depends_on in
    not (test_has_artifact_anywhere dep.depends_on dep.artifact s)
    && ((ltb_ℤ (pos 0) on.total_runs
          && is_zero on.successes
          && not (test_wants_retries (defs.summary dep.depends_on) on))
        || is_dependency_failed on.priority)

-- `_testHasFailedDeps`
unfoldable pub test_has_failed_deps : Definitions → Graph → State → ℕ → Bool
unfolding is_failed
test_has_failed_deps defs g s t = any_dependency (is_failed defs s) (dependencies_of t g)

-- The last branch of `_updateTestPriority`, from `targetMachineBoot` on.
unfoldable pub priority_by_count : Summary → ℕ → Test → Test
unfolding update_test_target_machine_count test_wants_retries
priority_by_count summary cur_timestamp test =
    let (is_done, counted) = update_test_target_machine_count summary cur_timestamp test in
    record counted {
      priority =
          if is_done
          then (if test_wants_retries summary counted
              then (if is_zero counted.active_runs then waiting_to_retry else no_more_tests)
              else no_more_tests)
          else if is_build summary.kind
          then first_build counted.calculated_priority
          else if is_zero (counted.total_runs +ℤ counted.active_runs)
          then first_test counted.calculated_priority
          else wants_more_tests counted.calculated_priority;
    }

-- The branches of `_updateTestPriority` that set the priority of the test; `referenced` is
-- `anyTestsReferencingUs`, `unbootable` that its category is.
unfoldable pub decide_priority :
    Definitions → Graph → State → (referenced unbootable : Bool) → ℕ → ℕ → Test → Test
unfolding test_has_failed_deps test_has_unfinished_deps priority_by_count
decide_priority defs g s referenced unbootable cur_timestamp t test =
    let summary = defs.summary t in
    if unbootable
    then record test {
      priority = hardware_combo_unbootable;
      target_machine_boot = 0;
      calculated_priority = 0;
    }
    else if not (is_deployment summary.kind) && summary.disabled && not referenced
    then record test { priority = no_more_tests; calculated_priority = 0 }
    else if g.is_unresolved t
    then record test { priority = unresolved_dependencies; target_machine_boot = 0 }
    else if test_has_failed_deps defs g s t
    then record test { priority = dependency_failed; target_machine_boot = 0 }
    else if test_has_unfinished_deps defs g s t
    then record test { priority = waiting_on_builds; target_machine_boot = 0 }
    else priority_by_count summary cur_timestamp test
