-- ===== src/Scheduler/Tests.antt =====
-- Runs of the scheduling of data_model/TestManager.py, and the theorems there: one test on one machine,
-- which is a virtual machine with a setup script.
use test_looper.Common.{
  Assoc, Bool, ℕ, ◌≡◌, refl, true, false, Option, none, some, List, [], ◌∷◌, get_key, total, pos,
  ◌+ℤ◌, ◌-ℤ◌,
}
use test_looper.Machines.{Hardware}
use test_looper.Scheduler.{
  test_kind, Summary, first_build, first_test, wants_more_tests, Machine, Definitions, Graph, State,
  new_state,
}
use test_looper.Scheduler.Decisions.{hardware_for_test}
use test_looper.Scheduler.Ending.{terminate_machine}
use test_looper.Scheduler.Updating.{ask_for_machines, update_test_priority}
use test_looper.Scheduler.Running.{priorities_to_run, lookup_highest_priority_test, start_new_test}
use test_looper.Scheduler.Fleet.{worker_booted, boot, cancel_timed_out}
use test_looper.Scheduler.Invariant.{Books, running_one, alive_one}
use test_looper.Scheduler.Later.{Later}
use test_looper.Scheduler.Emptied.{Cleared}
use test_looper.Scheduler.Steps.{
  priority_updated, machine_asked_for, test_started, Reachable, start, next, Reachable-counts,
  terminate_machine-total, terminate_machine-Cleared, cancel_timed_out-total,
}
use test_looper.Scheduler.Choosing.{Highest, lookup_highest_priority_test-Highest}
use test_looper.Scheduler.Hardware.{Chosen, hardware_for_test-Chosen}
use test_looper.Scheduler.Reports.{Upload, one_more, cumulative, uploads, uploads-IsPrefix}
use test_looper.Scheduler.Results.{IsAscending, get_item-finish_run}
use test_looper.Common.{length, get_elem?}
use test_looper.Common.{take}
use test_looper.Bitstring.{get_item}
use test_looper.Scheduler.Running.{finish_run, new_run}

abbrev summary_of_test : Summary
summary_of_test = record {
  kind = test_kind;
  artifacts = [];
  disabled = false;
  min_cores = 2;
  max_cores = 0;
  min_ram_gb = 4;
  max_retries = 0;
  retry_wait_seconds = 0;
}

abbrev defs : Definitions
defs = record {
  test_ids = 1 ∷ [];
  summary = λ t. summary_of_test;
  pair_for_test = λ t. some 4;
  pairs = 4 ∷ [];
  is_vm = λ pair. true;
  is_windows_vm = λ pair. false;
}

abbrev g : Graph
g = record { dependencies = []; is_unresolved = λ t. false; commit_priorities = λ t. 1 ∷ [] }

abbrev state_of : Option State → State
state_of none = new_state
state_of (some s) = s

abbrev started_of : Option (Option ℕ × State) → State
started_of none = new_state
started_of (some x) = x.1

-- The test is prioritized, a machine boots, and the machine gets the test.
unfoldable prioritized : State
unfolding update_test_priority
prioritized = state_of (update_test_priority defs g 100 1 new_state)

unfoldable up : State
unfolding boot prioritized
up = (boot defs (worker_booted 7) 4 110 prioritized).1

unfoldable started : State
unfolding start_new_test up
started = started_of (start_new_test defs g 20 7 120 up)

prioritized_asks :
    ((prioritized.tests 1).priority ≡ first_test 1) × ((prioritized.categories 4).desired ≡ pos 1)
unfolding prioritized ask_for_machines ◌+ℤ◌ ◌-ℤ◌
prioritized_asks = (refl, refl)

prioritized_done : update_test_priority defs g 100 1 new_state ≡ some prioritized
unfolding prioritized
prioritized_done = refl

started_done : start_new_test defs g 20 7 120 up ≡ some (some 1, started)
unfolding started ◌+ℤ◌ ◌-ℤ◌
started_done = refl

started_runs : ((started.tests 1).active_runs ≡ pos 1) × (total (running_one 1) started.runs ≡ 1)
unfolding started ◌+ℤ◌ ◌-ℤ◌
started_runs = (refl, refl)

started-Reachable : Reachable defs started
unfolding started up ◌+ℤ◌ ◌-ℤ◌
started-Reachable =
    next up started
      (next prioritized up
        (next new_state prioritized start
          (priority_updated g 100 1 new_state prioritized prioritized_done))
        (machine_asked_for (worker_booted 7) 4 110 true prioritized up (λ id e. refl) refl))
      (test_started g 20 7 120 (some 1) up started refl started_done)

Reachable-counts_example :
    ((t : ℕ) → (started.tests t).active_runs ≡ pos (total (running_one t) started.runs))
    × ((c : ℕ) → (started.categories c).booted ≡ pos (total (alive_one c) started.machines))
Reachable-counts_example = Reachable-counts defs started started-Reachable

unfoldable machine_of : Option Machine → Machine
machine_of none = record {
  hardware_and_os = 0;
  boot_time = 0;
  first_heartbeat = 0;
  last_heartbeat = 0;
  last_test_completed = 0;
  is_alive = false;
}
machine_of (some m) = m

machine_7 : get_key started.machines 7 ≡ some (machine_of (get_key started.machines 7))
unfolding started machine_of ◌+ℤ◌ ◌-ℤ◌
machine_7 = refl

machine_7_alive : (machine_of (get_key started.machines 7)).is_alive ≡ true
unfolding started machine_of ◌+ℤ◌ ◌-ℤ◌
machine_7_alive = refl

terminate_machine-total_example :
    (s' : State) × (terminate_machine defs 130 7 started ≡ some s') × Books defs s'
terminate_machine-total_example =
    terminate_machine-total defs 130 7 (machine_of (get_key started.machines 7)) started
      started-Reachable machine_7

terminate_machine-Cleared_example :
    (s' : State) × (terminate_machine defs 130 7 started ≡ some s') × Cleared 7 s'
terminate_machine-Cleared_example =
    terminate_machine-Cleared defs 130 7 (machine_of (get_key started.machines 7)) started
      started-Reachable machine_7 machine_7_alive

-- Its run is canceled, and the test may run again.
terminated_counts :
    let s' = state_of (terminate_machine defs 130 7 started) in
    ((s'.tests 1).active_runs ≡ pos 0) × ((s'.categories 4).booted ≡ pos 0)
unfolding started terminate_machine ◌+ℤ◌ ◌-ℤ◌
terminated_counts = (refl, refl)

cancel_timed_out-total_example :
    (s' : State) × (cancel_timed_out defs 0 1000 started ≡ some s')
    × Books defs s'
    × Later started s'
cancel_timed_out-total_example = cancel_timed_out-total defs 0 1000 started started-Reachable

lookup_done : lookup_highest_priority_test defs priorities_to_run 4 prioritized ≡ some (some 1)
unfolding lookup_highest_priority_test prioritized ◌+ℤ◌ ◌-ℤ◌
lookup_done = refl

lookup_highest_priority_test-Highest_example :
    Highest defs 4 prioritized
      (first_build 2
        ∷ first_build 1
        ∷ first_test 2
        ∷ first_test 1
        ∷ wants_more_tests 2
        ∷ wants_more_tests 1
        ∷ [])
      (some 1)
lookup_highest_priority_test-Highest_example =
    lookup_highest_priority_test-Highest defs 4 prioritized (some 1) lookup_done

abbrev configs : List Hardware
configs =
    record { cores = 8; ram_gb = 32 }
    ∷ record { cores = 1; ram_gb = 64 }
    ∷ record { cores = 4; ram_gb = 16 }
    ∷ []

smallest : hardware_for_test configs summary_of_test ≡ some (record { cores = 4; ram_gb = 16 })
unfolding hardware_for_test
smallest = refl

hardware_for_test-Chosen_example :
    Chosen configs summary_of_test (record { cores = 4; ram_gb = 16 })
hardware_for_test-Chosen_example =
    hardware_for_test-Chosen configs summary_of_test (record { cores = 4; ram_gb = 16 }) smallest

abbrev reports : List Upload
reports = one_more 5 ∷ cumulative (5 ∷ 6 ∷ []) ∷ one_more 7 ∷ []

reports_done : uploads (5 ∷ 6 ∷ 7 ∷ 8 ∷ []) reports [] ≡ some (5 ∷ 6 ∷ 7 ∷ [])
unfolding uploads
reports_done = refl

uploads-IsPrefix_example : ◌≡◌ {A = List ℕ} (5 ∷ 6 ∷ 7 ∷ []) (take 3 (5 ∷ 6 ∷ 7 ∷ 8 ∷ []))
uploads-IsPrefix_example =
    uploads-IsPrefix (5 ∷ 6 ∷ 7 ∷ 8 ∷ []) reports [] (5 ∷ 6 ∷ 7 ∷ []) refl reports_done

-- The results by name: 12 succeeds, 5 fails and has logs.
abbrev results : Assoc (Bool × Bool)
results = (12, (true, false)) ∷ (5, (false, true)) ∷ []

get_item-finish_run_example :
    IsAscending (finish_run defs false results 140 (new_run 1 7 120)).test_names
    × (length (finish_run defs false results 140 (new_run 1 7 120)).test_names ≡ 2)
    × (ix : ℕ) × (get_elem? (finish_run defs false results 140 (new_run 1 7 120)).test_names ix
        ≡ some 5)
    × (get_item (finish_run defs false results 140 (new_run 1 7 120)).test_failures ix ≡ some false)
    × (get_item (finish_run defs false results 140 (new_run 1 7 120)).test_has_logs ix ≡ some true)
get_item-finish_run_example =
    get_item-finish_run defs false results 140 5 false true (new_run 1 7 120) refl
