-- ===== src/Scheduler/Running.antt =====
-- The life of a run in data_model/TestManager.py: it is handed to a machine, its artifacts and results
-- are recorded, and it is cleared or canceled. Where a method runs two transactions, each is a step.
use test_looper.Common.{
  ℕ, Bool, true, false, not, ◌&&◌, ◌||◌, Option, none, some, List, [], ◌∷◌, ◌++◌, map, ltb, ◌==◌,
  if◌then◌else◌, length, take, keep, get_elem?, get_key, keys, Assoc, ℤ, pos, negsuc, ◌+ℤ◌, ◌-ℤ◌,
}
use test_looper.Bitstring.{from_bools}
use test_looper.Scheduler.{
  Priority, first_build, first_test, wants_more_tests, Test, TestRun, Machine, Definitions, Graph,
  State, set_test, set_run, set_machine, add_active_runs, trigger_test_priority_update, ◌>>=◌, each,
}
use test_looper.Scheduler.Decisions.{dependents_of}
use test_looper.Scheduler.Ending.{stop_vm, cancel_test_run, terminate_machine}
use test_looper.Scheduler.Updating.{same_priority, update_test_priority, tests_depending}

-- `range(1, MAX_TEST_PRIORITY + 1)` reversed, for each kind of priority
abbrev pub priorities_to_run : List Priority
priorities_to_run =
    first_build 2
    ∷ first_build 1
    ∷ first_test 2
    ∷ first_test 1
    ∷ wants_more_tests 2
    ∷ wants_more_tests 1
    ∷ []

-- `_machineHeartbeat`
unfoldable pub machine_heartbeat : ℕ → Machine → Machine
machine_heartbeat cur_timestamp machine = record machine {
  first_heartbeat = if machine.first_heartbeat == 0 then cur_timestamp else machine.first_heartbeat;
  last_heartbeat = cur_timestamp;
}

abbrev pub same_list : List ℕ → List ℕ → Bool
same_list [] [] = true
same_list (x ∷ xs) (y ∷ ys) = x == y && same_list xs ys
same_list _ _ = false

-- A new TestRun
abbrev pub new_run : ℕ → ℕ → ℕ → TestRun
new_run t id timestamp = record {
  test = t;
  started_timestamp = timestamp;
  last_heartbeat = timestamp;
  end_timestamp = 0;
  success = false;
  artifacts_completed = [];
  machine = some id;
  canceled = false;
  test_names = [];
  test_failures = [];
  test_has_logs = [];
  total_test_count = 0;
  total_failed_test_count = 0;
}

-- `sorted(testSuccesses.keys())`
abbrev pub insert_name : ℕ → List ℕ → List ℕ
insert_name n [] = n ∷ []
insert_name n (x ∷ xs) = let rest = insert_name n xs in if ltb x n then x ∷ rest else n ∷ x ∷ xs

unfoldable pub sort_names : List ℕ → List ℕ
sort_names [] = []
sort_names (n ∷ ns) = insert_name n (sort_names ns)

-- `testSuccesses[n][0]` and `testSuccesses[n][1]`, for a name that is there
abbrev pub succeeded : Assoc (Bool × Bool) → ℕ → Bool
succeeded results n = elim (get_key results n) [ none ↦ false | some r ↦ r.0 ]

abbrev pub has_logs : Assoc (Bool × Bool) → ℕ → Bool
has_logs results n = elim (get_key results n) [ none ↦ false | some r ↦ r.1 ]

-- `artifactsCompleted` after one more, or after a cumulative update; none where it raises
unfoldable pub add_artifact : List ℕ → List ℕ → ℕ → Option (List ℕ)
add_artifact expected completed artifact = elim (get_elem? expected (length completed)) [
  | none ↦ none
  | some next ↦ if artifact == next then some (completed ++ artifact ∷ []) else none
]

unfoldable pub set_artifacts : List ℕ → List ℕ → List ℕ → Option (List ℕ)
set_artifacts expected completed artifacts =
    if ltb (length artifacts) (length completed)
      || not (same_list (take (length completed) artifacts) completed)
    then none
    else if ltb (length expected) (length artifacts)
    then none
    else if not (same_list artifacts (take (length artifacts) expected))
    then none
    else some artifacts

module _ (defs : Definitions) where
  -- The loop over the tests with a priority.
  unfoldable pub test_with_priority : Priority → ℕ → List ℕ → State → Option (Option ℕ)
  test_with_priority priority pair [] s = some none
  test_with_priority priority pair (t ∷ ts) s =
      let rest = test_with_priority priority pair ts s in
      if same_priority (s.tests t).priority priority
      then elim (defs.pair_for_test t) [
        | none ↦ none
        | some p ↦ if p == pair then some (some t) else rest
      ]
      else rest

  -- `_lookupHighestPriorityTest`
  unfoldable pub lookup_highest_priority_test : List Priority → ℕ → State → Option (Option ℕ)
  unfolding test_with_priority
  lookup_highest_priority_test [] pair s = some none
  lookup_highest_priority_test (priority ∷ priorities) pair s =
      let rest = lookup_highest_priority_test priorities pair s in
      elim (test_with_priority priority pair defs.test_ids s) [
        | none ↦ none
        | some none ↦ rest
        | some (some t) ↦ some (some t)
      ]

  -- The first transaction of `startNewTest`: whether the machine is to get work
  unfoldable pub accept_machine : ℕ → ℕ → State → Bool × State
  unfolding machine_heartbeat
  accept_machine machine_id timestamp s = elim (get_key s.machines machine_id) [
    | none ↦ (false, s)
    | some machine ↦
        if machine.is_alive
        then (true, set_machine machine_id (machine_heartbeat timestamp machine) s)
        else (false, s)
  ]

  -- The second transaction, which does not look again whether the machine is alive; `id` is the
  -- identity of the new TestRun.
  unfoldable pub start_new_test : Graph → ℕ → ℕ → ℕ → State → Option (Option ℕ × State)
  unfolding lookup_highest_priority_test update_test_priority
  start_new_test g id machine_id timestamp s = elim (get_key s.machines machine_id) [
    | none ↦ none
    | some machine ↦
        elim (lookup_highest_priority_test priorities_to_run machine.hardware_and_os s) [
          | none ↦ none
          | some none ↦ some (none, s)
          | some (some t) ↦
              update_test_priority defs g timestamp t
                (set_run id (new_run t machine_id timestamp) (add_active_runs (pos 1) t s))
              >>= λ s'. some (some t, s')
        ]
  ]

  -- `for dep in ...: self._updateTestPriority(dep.test, curTimestamp)`
  abbrev pub update_dependents : Graph → ℕ → ℕ → State → Option State
  update_dependents g cur_timestamp t s =
      each (update_test_priority defs g cur_timestamp) (tests_depending (dependents_of t g)) s

  -- `recordTestArtifactUploaded`, where `uploaded` gives the new list of a run
  unfoldable pub record_test_artifact_uploaded :
      Graph → ℕ → (TestRun → Option (List ℕ)) → ℕ → State → Option State
  unfolding update_test_priority
  record_test_artifact_uploaded g id uploaded cur_timestamp s = elim (get_key s.runs id) [
    | none ↦ some s
    | some run ↦ elim (uploaded run) [
      | none ↦ none
      | some artifacts ↦
          update_dependents g cur_timestamp run.test
            (set_run id (record run { artifacts_completed = artifacts }) s)
    ]
  ]

  -- With `isCumulative` false
  unfoldable pub upload_artifact : Graph → ℕ → ℕ → ℕ → State → Option State
  unfolding record_test_artifact_uploaded add_artifact
  upload_artifact g id artifact =
      record_test_artifact_uploaded g id
        (λ run. add_artifact (defs.summary run.test).artifacts run.artifacts_completed artifact)

  -- With `isCumulative` true
  unfoldable pub upload_artifacts : Graph → ℕ → List ℕ → ℕ → State → Option State
  unfolding record_test_artifact_uploaded set_artifacts
  upload_artifacts g id artifacts =
      record_test_artifact_uploaded g id
        (λ run. set_artifacts (defs.summary run.test).artifacts run.artifacts_completed artifacts)

  -- The run with its results, which say of each name whether that test succeeded and whether it has
  -- logs.
  unfoldable pub finish_run : Bool → Assoc (Bool × Bool) → ℕ → TestRun → TestRun
  unfolding from_bools sort_names
  finish_run success results cur_timestamp run =
      let names = sort_names (keys results) in
      record run {
        end_timestamp = cur_timestamp;
        test_names = names;
        test_failures = from_bools (map (succeeded results) names);
        test_has_logs = from_bools (map (has_logs results) names);
        total_test_count = length names;
        total_failed_test_count = length (keep (λ n. not (succeeded results n)) names);
        success = success;
      }

  -- Its test
  unfoldable pub count_run : Bool → TestRun → ℕ → Test → Test
  count_run success run cur_timestamp test = record test {
    active_runs = test.active_runs +ℤ negsuc 0;
    total_runs = test.total_runs +ℤ pos 1;
    last_test_end_timestamp = cur_timestamp;
    total_test_count = test.total_test_count +ℤ pos run.total_test_count;
    total_failed_test_count = test.total_failed_test_count +ℤ pos run.total_failed_test_count;
    successes = if success then test.successes +ℤ pos 1 else test.successes;
  }

  -- What `recordTestResults` does to the run's machine; `testRun.machine` is never Null there.
  abbrev pub release_machine : ℕ → Option ℕ → State → Option State
  release_machine cur_timestamp none s = none
  release_machine cur_timestamp (some id) s = elim (get_key s.machines id) [
    | none ↦ none
    | some machine ↦
        stop_vm defs (terminate_machine defs cur_timestamp) id
          (set_machine id (record machine { last_test_completed = cur_timestamp }) s)
  ]

  -- The second transaction of `recordTestResults`
  unfoldable pub record_results :
      Graph → ℕ → Bool → Assoc (Bool × Bool) → ℕ → State → Option (Bool × State)
  unfolding finish_run count_run update_test_priority terminate_machine
  record_results g id success results cur_timestamp s = elim (get_key s.runs id) [
    | none ↦ some (false, s)
    | some run ↦
        if run.canceled
        then some (false, s)
        else if success && not (same_list run.artifacts_completed (defs.summary run.test).artifacts)
        then none
        else let finished = finish_run success results cur_timestamp run in
          release_machine cur_timestamp run.machine (
            set_test run.test (count_run success finished cur_timestamp (s.tests run.test))
              (set_run id finished s))
          >>= λ s'. update_dependents g cur_timestamp run.test s' >>= λ s''.
              update_test_priority defs g cur_timestamp run.test s'' >>= λ s₃. some (true, s₃)
  ]

  -- `recordTestResults`
  unfoldable pub record_test_results :
      Graph → ℕ → Bool → Assoc (Bool × Bool) → List ℕ → ℕ → State → Option (Bool × State)
  unfolding upload_artifacts record_results
  record_test_results g id success results artifacts cur_timestamp s =
      upload_artifacts g id artifacts cur_timestamp s
      >>= record_results g id success results cur_timestamp

  -- `clearTestRun`
  unfoldable pub clear_test_run : ℕ → ℕ → State → Option State
  unfolding cancel_test_run terminate_machine trigger_test_priority_update
  clear_test_run cur_timestamp id s = elim (get_key s.runs id) [
    | none ↦ none
    | some run ↦
        if run.end_timestamp == 0
        then cancel_test_run defs (terminate_machine defs cur_timestamp) id s
        else (let test = s.tests run.test in
            let back = λ (n : ℤ) (k : ℕ). if run.success then n -ℤ pos k else n in
            some (
              trigger_test_priority_update run.test (
                set_test run.test
                  (record test {
                    total_runs = test.total_runs -ℤ pos 1;
                    successes = back test.successes 1;
                    total_test_count = back test.total_test_count run.total_test_count;
                    total_failed_test_count =
                        back test.total_failed_test_count run.total_failed_test_count;
                  })
                  (set_run id (record run { canceled = true }) s))))
  ]

  -- The transaction of `testHeartbeat`, which the heartbeat handler asks for every five seconds
  unfoldable pub test_run_heartbeat : ℕ → ℕ → State → Option (Bool × State)
  unfolding cancel_test_run terminate_machine machine_heartbeat
  test_run_heartbeat id timestamp s = elim (get_key s.runs id) [
    | none ↦ some (false, s)
    | some run ↦ if run.canceled then some (false, s) else elim run.machine [
      | none ↦ none
      | some machine_id ↦ elim (get_key s.machines machine_id) [
        | none ↦ none
        | some machine ↦
            if machine.is_alive
            then some (
              true,
              set_run id (record run { last_heartbeat = timestamp })
                  (set_machine machine_id (machine_heartbeat timestamp machine) s),
            )
            else cancel_test_run defs (terminate_machine defs timestamp) id s >>= λ s'.
                some (false, s')
      ]
    ]
  ]
