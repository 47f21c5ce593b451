-- ===== src/Scheduler.antt =====
-- The tests, runs, machines and deployments of data_model/TestManager.py: the objects of
-- data_model/Types.py that the scheduling works on, and how their fields are set. Identities are
-- numbers; so is a pair of a hardware configuration and an operating system. Times are numbers, of
-- which 0 is none. The state is that of the transaction which a method runs in.
pub mod Decisions
pub mod Ending
pub mod Invariant
pub mod Later
pub mod Updating
pub mod Running
pub mod Fleet
pub mod Endings
pub mod Shutdowns
pub mod Terminations
pub mod Emptied
pub mod Kept
pub mod Updates
pub mod Recorded
pub mod Handed
pub mod Swept
pub mod Steps
pub mod Choosing
pub mod Hardware
pub mod Right
pub mod Reports
pub mod Results
pub mod Tests
use test_looper.Common.{
  ℕ, ◌+◌, Bool, true, false, not, ◌&&◌, ◌||◌, Option, none, some, List, [], ◌∷◌, ◌++◌, ◌==◌,
  if◌then◌else◌, elem, map, keep, update, Assoc, put_key, ℤ, pos, ◌+ℤ◌,
}

pub data Kind : Type 0 where
  build deployment test_kind : Kind

-- TestDefinitionSummary
pub record Summary : Type 0 where
  pub kind : Kind
  pub artifacts : List ℕ
  pub disabled : Bool
  pub min_cores : ℕ
  pub max_cores : ℕ
  pub min_ram_gb : ℕ
  pub max_retries : ℕ
  pub retry_wait_seconds : ℕ

pub data Priority : Type 0 where
  waiting_to_retry dependency_failed waiting_on_builds unresolved_dependencies : Priority
  hardware_combo_unbootable no_more_tests : Priority
  first_build first_test wants_more_tests : ℕ → Priority

-- Test
pub record Test : Type 0 where
  pub machine_category : Option ℕ
  pub successes : ℤ
  pub total_runs : ℤ
  pub active_runs : ℤ
  pub last_test_end_timestamp : ℕ
  pub total_test_count : ℤ
  pub total_failed_test_count : ℤ
  pub calculated_priority : ℕ
  pub priority : Priority
  pub target_machine_boot : ℕ
  pub runs_desired : ℕ

-- TestRun; `test_names` holds the names of its IndividualTestNameSet, which runs with the same names
-- share.
pub record TestRun : Type 0 where
  pub test : ℕ
  pub started_timestamp : ℕ
  pub last_heartbeat : ℕ
  pub end_timestamp : ℕ
  pub success : Bool
  pub artifacts_completed : List ℕ
  pub machine : Option ℕ
  pub canceled : Bool
  pub test_names : List ℕ
  pub test_failures : List ℕ
  pub test_has_logs : List ℕ
  pub total_test_count : ℕ
  pub total_failed_test_count : ℕ

-- Machine, with its hardware and os as one number
pub record Machine : Type 0 where
  pub hardware_and_os : ℕ
  pub boot_time : ℕ
  pub first_heartbeat : ℕ
  pub last_heartbeat : ℕ
  pub last_test_completed : ℕ
  pub is_alive : Bool

-- MachineCategory, one for each pair: `_machineCategoryForPair` makes one with these values where
-- there is none yet.
pub record Category : Type 0 where
  pub booted : ℤ
  pub desired : ℤ
  pub hardware_combo_unbootable : Bool

-- Deployment
pub record Deployment : Type 0 where
  pub created_timestamp : ℕ
  pub machine : Option ℕ
  pub test : ℕ
  pub is_alive : Bool

-- TestDependency
pub record Dependency : Type 0 where
  pub test : ℕ
  pub depends_on : ℕ
  pub artifact : ℕ

-- What does not change while tests run: the tests and their definitions, the pair that
-- `_machineCategoryPairForTest` finds for each (none where it raises, as it does for a test that no
-- hardware fits: its warning asks for a field `name` that a Test does not have), all pairs, and which
-- of them have a virtual machine with a setup script.
pub record Definitions : Type 0 where
  pub test_ids : List ℕ
  pub summary : ℕ → Summary
  pub pair_for_test : ℕ → Option ℕ
  pub pairs : List ℕ
  pub is_vm : ℕ → Bool
  pub is_windows_vm : ℕ → Bool

-- What the commits say at the time of a step: the dependencies between tests, the tests with
-- dependencies that are not resolved yet, and the priorities of the commits with a test.
pub record Graph : Type 0 where
  pub dependencies : List Dependency
  pub is_unresolved : ℕ → Bool
  pub commit_priorities : ℕ → List ℕ

-- The objects, with the tasks that are queued for later: tests whose priority is to be updated, and
-- the number of checks of the machines.
pub record State : Type 0 where
  pub tests : ℕ → Test
  pub runs : Assoc TestRun
  pub machines : Assoc Machine
  pub categories : ℕ → Category
  pub deployments : Assoc Deployment
  pub test_updates : List ℕ
  pub boot_checks : ℕ

-- A test as `_createTest` makes it.
abbrev pub new_test : Test
new_test = record {
  machine_category = none;
  successes = pos 0;
  total_runs = pos 0;
  active_runs = pos 0;
  last_test_end_timestamp = 0;
  total_test_count = pos 0;
  total_failed_test_count = pos 0;
  calculated_priority = 0;
  priority = no_more_tests;
  target_machine_boot = 0;
  runs_desired = 0;
}

abbrev pub new_category : Category
new_category = record { booted = pos 0; desired = pos 0; hardware_combo_unbootable = false }

abbrev pub new_state : State
new_state = record {
  tests = λ t. new_test;
  runs = [];
  machines = [];
  categories = λ c. new_category;
  deployments = [];
  test_updates = [];
  boot_checks = 0;
}

abbrev pub set_test : ℕ → Test → State → State
set_test t x s = record s { tests = update s.tests t x }

abbrev pub set_run : ℕ → TestRun → State → State
set_run id x s = record s { runs = put_key s.runs id x }

abbrev pub set_machine : ℕ → Machine → State → State
set_machine id x s = record s { machines = put_key s.machines id x }

abbrev pub set_category : ℕ → Category → State → State
set_category c x s = record s { categories = update s.categories c x }

abbrev pub set_deployment : ℕ → Deployment → State → State
set_deployment id x s = record s { deployments = put_key s.deployments id x }

-- `test.activeRuns = test.activeRuns + n`
abbrev pub add_active_runs : ℤ → ℕ → State → State
add_active_runs n t s =
    set_test t (record (s.tests t) { active_runs = (s.tests t).active_runs +ℤ n }) s

-- `category.booted = category.booted + n`
abbrev pub add_booted : ℤ → ℕ → State → State
add_booted n c s =
    set_category c (record (s.categories c) { booted = (s.categories c).booted +ℤ n }) s

abbrev pub add_desired : ℤ → ℕ → State → State
add_desired n c s =
    set_category c (record (s.categories c) { desired = (s.categories c).desired +ℤ n }) s

-- `_triggerTestPriorityUpdate`
unfoldable pub trigger_test_priority_update : ℕ → State → State
trigger_test_priority_update t s =
    if elem t s.test_updates then s else record s { test_updates = s.test_updates ++ t ∷ [] }

-- `_scheduleBootCheck`: the index `pending_boot_machine_check` asks for a status named Pending, which
-- no status has, so that its lookup finds nothing and a task is always queued.
unfoldable pub schedule_boot_check : State → State
schedule_boot_check s = record s { boot_checks = s.boot_checks + 1 }

-- The condition of the index `isRunning`.
abbrev pub is_running : TestRun → Bool
is_running run = not run.canceled && run.end_timestamp == 0

-- `machine=...` where a machine is set
abbrev pub is_on : Option ℕ → ℕ → Bool
is_on none id = false
is_on (some m) id = m == id

abbrev pub ids_where : {A : Type 0} → (A → Bool) → Assoc A → List ℕ
ids_where p d = map (λ e. e.0) (keep (λ e. p e.1) d)

-- `TestRun.lookupAll(runningOnMachine=...)`
abbrev pub runs_on : ℕ → State → List ℕ
runs_on id s = ids_where (λ run. is_running run && is_on run.machine id) s.runs

-- `Deployment.lookupAll(runningOnMachine=...)`
abbrev pub deployments_on : ℕ → State → List ℕ
deployments_on id s = ids_where (λ d. d.is_alive && is_on d.machine id) s.deployments

-- A chain of steps, in which an exception aborts the transaction.
infixl 5 ◌>>=◌
abbrev pub ◌>>=◌ {ℓ κ} : {A : Type ℓ} {B : Type κ} → Option A → (A → Option B) → Option B
none >>= f = none
some a >>= f = f a

-- `for x in xs: f(x)`
abbrev pub each {ℓ} : {A : Type ℓ} → (A → State → Option State) → List A → State → Option State
each f [] s = some s
each f (x ∷ xs) s = f x s >>= each f xs
