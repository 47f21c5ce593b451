-- ===== src/Scheduler/Fleet.antt =====
-- Deployments and the machines of the fleet in data_model/TestManager.py: they are made, given work,
-- heard from, timed out and taken away. Booting a machine is an answer of the machine management, which
-- `boot_answered` takes as an argument.
use test_looper.Common.{
  ℕ, ◌+◌, Bool, true, false, not, ◌&&◌, Option, none, some, List, [], ◌∷◌, ltb, ◌==◌, if◌then◌else◌,
  max, keep, elem, get_key, pos,
}
use test_looper.Scheduler.{
  Priority, waiting_to_retry, dependency_failed, waiting_on_builds, unresolved_dependencies,
  hardware_combo_unbootable, no_more_tests, TestRun, Machine, Deployment, Definitions, State,
  set_machine, set_category, set_deployment, add_booted, add_desired, trigger_test_priority_update,
  schedule_boot_check, is_running, ids_where, ◌>>=◌, each,
}
use test_looper.Scheduler.Ending.{
  cancel_test_run, shutdown_machines_if_necessary, cancel_deployment, machine_terminated,
  terminate_machine,
}
use test_looper.Scheduler.Updating.{trigger_all}
use test_looper.Scheduler.Running.{machine_heartbeat}

-- What the index `machineCategoryAndPrioritized` and `priority` ask of a priority.
abbrev pub is_prioritized : Priority → Bool
is_prioritized waiting_to_retry = false
is_prioritized dependency_failed = false
is_prioritized waiting_on_builds = false
is_prioritized unresolved_dependencies = false
is_prioritized hardware_combo_unbootable = false
is_prioritized no_more_tests = false
is_prioritized _ = true

abbrev pub is_waiting_to_retry : Priority → Bool
is_waiting_to_retry waiting_to_retry = true
is_waiting_to_retry _ = false

abbrev pub test_timeout_seconds : ℕ
test_timeout_seconds = 60

-- `timeout` in `performCleanupTasks`
abbrev pub machine_timeout_seconds : ℕ
machine_timeout_seconds = 600

abbrev pub machine_timeout_seconds_first_heartbeat : ℕ
machine_timeout_seconds_first_heartbeat = 1200

abbrev pub timeout_for : Machine → ℕ
timeout_for machine =
    if machine.last_heartbeat == 0
    then machine_timeout_seconds_first_heartbeat
    else machine_timeout_seconds

-- The condition under which `performCleanupTasks` cancels a run.
unfoldable pub run_timed_out : ℕ → ℕ → TestRun → Bool
run_timed_out initial_timestamp cur_timestamp run =
    ltb (run.last_heartbeat + test_timeout_seconds) cur_timestamp
    && ltb (initial_timestamp + test_timeout_seconds) cur_timestamp

-- The condition under which it terminates a machine.
unfoldable pub machine_timed_out : ℕ → ℕ → Machine → Bool
machine_timed_out initial_timestamp cur_timestamp machine =
    ltb (max machine.last_heartbeat machine.boot_time + timeout_for machine) cur_timestamp
    && ltb (initial_timestamp + machine_timeout_seconds) cur_timestamp

-- What the machine management says when it is asked for a machine.
pub data BootAnswer : Type 0 where
  worker_booted : ℕ → BootAnswer
  worker_unbootable : BootAnswer
  boot_failed : BootAnswer

-- A new Machine
abbrev pub new_machine : ℕ → ℕ → Machine
new_machine category cur_timestamp = record {
  hardware_and_os = category;
  boot_time = cur_timestamp;
  first_heartbeat = 0;
  last_heartbeat = 0;
  last_test_completed = 0;
  is_alive = true;
}

-- `machineInitialized` and `machineHeartbeat`
unfoldable pub heard_from_machine : ℕ → ℕ → State → State
unfolding machine_heartbeat
heard_from_machine id cur_timestamp s = elim (get_key s.machines id) [
  | none ↦ s
  | some machine ↦ set_machine id (machine_heartbeat cur_timestamp machine) s
]

-- `handleMessageFromDeployment`: whether the deployment is to go on. A deployment that does not exist
-- has no machine.
unfoldable pub handle_message_from_deployment : ℕ → ℕ → State → Option (Bool × State)
handle_message_from_deployment id timestamp s = elim (get_key s.deployments id) [
  | none ↦ some (false, s)
  | some d ↦ elim d.machine [
    | none ↦ some (d.is_alive, s)
    | some machine_id ↦ elim (get_key s.machines machine_id) [
      | none ↦ none
      | some machine ↦
          some
            (d.is_alive, set_machine machine_id (record machine { last_heartbeat = timestamp }) s)
    ]
  ]
]

module _ (defs : Definitions) where
  -- `createDeployment`, where `id` is the identity of the new Deployment
  unfoldable pub create_deployment : ℕ → ℕ → ℕ → State → Option State
  unfolding schedule_boot_check
  create_deployment id t timestamp s =
      if not (elem t defs.test_ids) then none else elim (defs.pair_for_test t) [
        | none ↦ none
        | some c ↦
            if (s.categories c).hardware_combo_unbootable
            then none
            else some (
                schedule_boot_check (
                  add_desired (pos 1) c (
                    set_deployment id
                      (record {
                        created_timestamp = timestamp;
                        machine = none;
                        test = t;
                        is_alive = true;
                      })
                      s)))
      ]

  -- `shutdownDeployment`
  unfoldable pub shutdown_deployment : ℕ → ℕ → State → Option State
  unfolding cancel_deployment terminate_machine
  shutdown_deployment id timestamp =
      cancel_deployment defs (terminate_machine defs timestamp) timestamp id

  abbrev pub is_pending : Deployment → Bool
  is_pending d = elim d.machine [ none ↦ d.is_alive | some m ↦ false ]

  -- The loop of `startNewDeployment`
  unfoldable pub accept_deployment : ℕ → ℕ → List ℕ → State → Option (Option ℕ × State)
  accept_deployment machine_id pair [] s = some (none, s)
  accept_deployment machine_id pair (id ∷ ids) s =
      let rest = accept_deployment machine_id pair ids s in
      elim (get_key s.deployments id) [
        | none ↦ none
        | some d ↦ elim (defs.pair_for_test d.test) [
          | none ↦ none
          | some c ↦
              if c == pair
              then some (some id, set_deployment id (record d { machine = some machine_id }) s)
              else rest
        ]
      ]

  -- `startNewDeployment`
  unfoldable pub start_new_deployment : ℕ → ℕ → State → Option (Option ℕ × State)
  unfolding machine_heartbeat accept_deployment
  start_new_deployment machine_id timestamp s = elim (get_key s.machines machine_id) [
    | none ↦ some (none, s)
    | some machine ↦
        if machine.is_alive
        then accept_deployment machine_id machine.hardware_and_os
            (ids_where is_pending s.deployments)
            (set_machine machine_id (machine_heartbeat timestamp machine) s)
        else some (none, s)
  ]

  -- The tests of the category that have a priority
  abbrev pub prioritized_in : ℕ → State → List ℕ
  prioritized_in category s =
      keep
        (λ t.
          is_prioritized (s.tests t).priority
          && elim (s.tests t).machine_category [ none ↦ false | some c ↦ c == category ])
        defs.test_ids

  -- `_boot`, where `answer` is what `boot_worker` returns or raises
  unfoldable pub boot : BootAnswer → ℕ → ℕ → State → Bool × State
  unfolding trigger_test_priority_update
  boot (worker_booted id) category cur_timestamp s =
      (true, add_booted (pos 1) category (set_machine id (new_machine category cur_timestamp) s))
  boot worker_unbootable category cur_timestamp s = (
    false,
    trigger_all (prioritized_in category s) (
        set_category category
          (record (s.categories category) { hardware_combo_unbootable = true; desired = pos 0 }) s),
  )
  boot boot_failed category cur_timestamp s = (false, s)

  -- The bodies of the two loops in the first transaction of `performCleanupTasks`
  unfoldable pub check_run : ℕ → ℕ → ℕ → State → Option State
  unfolding run_timed_out cancel_test_run terminate_machine
  check_run initial_timestamp cur_timestamp id s = elim (get_key s.runs id) [
    | none ↦ none
    | some run ↦
        if run_timed_out initial_timestamp cur_timestamp run
        then cancel_test_run defs (terminate_machine defs cur_timestamp) id s
        else some s
  ]

  unfoldable pub check_machine : ℕ → ℕ → ℕ → State → Option State
  unfolding machine_timed_out terminate_machine
  check_machine initial_timestamp cur_timestamp id s = elim (get_key s.machines id) [
    | none ↦ none
    | some machine ↦
        if machine_timed_out initial_timestamp cur_timestamp machine
        then terminate_machine defs cur_timestamp id s
        else some s
  ]

  -- The first transaction of `performCleanupTasks`
  unfoldable pub cancel_timed_out : ℕ → ℕ → State → Option State
  unfolding check_run check_machine
  cancel_timed_out initial_timestamp cur_timestamp s =
      each (check_run initial_timestamp cur_timestamp) (ids_where is_running s.runs) s >>= λ s'.
      each (check_machine initial_timestamp cur_timestamp)
        (ids_where (λ (m : Machine). m.is_alive) s'.machines) s'

  -- `_checkRetryTests`
  unfoldable pub check_retry_tests : State → State
  unfolding trigger_test_priority_update
  check_retry_tests s =
      trigger_all (keep (λ t. is_waiting_to_retry (s.tests t).priority) defs.test_ids) s

  -- The second transaction
  unfoldable pub clean_up_machines : ℕ → State → Option State
  unfolding schedule_boot_check shutdown_machines_if_necessary terminate_machine check_retry_tests
  clean_up_machines cur_timestamp s =
      shutdown_machines_if_necessary defs (terminate_machine defs cur_timestamp) cur_timestamp
        (schedule_boot_check s)
      >>= λ s'. some (check_retry_tests s')

  -- The last loop of `_pruneDeadWorkers`, over what `synchronize_workers` returns
  unfoldable pub remove_workers : ℕ → List ℕ → State → Option State
  unfolding machine_terminated
  remove_workers cur_timestamp to_kill s =
      let known_workers = ids_where (λ (m : Machine). m.is_alive) s.machines in
      each (machine_terminated defs 2 cur_timestamp) (keep (λ id. elem id known_workers) to_kill) s
