-- ===== src/Scheduler/Ending.antt =====
-- How data_model/TestManager.py ends runs, deployments and machines, which call one another:
-- canceling a run on a virtual machine terminates the machine, and terminating a machine cancels what
-- runs on it. The recursion is on fuel, and two rounds of it are enough (Scheduler/Endings). The call of
-- the machine management, whose exceptions are caught, and the messages of a deployment's stream are
-- left out.
use test_looper.Common.{
  ℕ, zero, suc, ◌+◌, Bool, true, false, not, ◌&&◌, ◌||◌, Option, none, some, List, [], ◌∷◌, ltb,
  ◌==◌, if◌then◌else◌, keep, get_key, total, pos, negsuc, ltb_ℤ,
}
use test_looper.Scheduler.{
  Definitions, State, TestRun, Machine, Category, Deployment, set_run, set_machine, set_deployment,
  add_active_runs, add_booted, add_desired, trigger_test_priority_update, schedule_boot_check,
  ids_where, runs_on, deployments_on, ◌>>=◌, each,
}

abbrev pub idle_time_before_shutdown : ℕ
idle_time_before_shutdown = 180

abbrev pub is_empty : List ℕ → Bool
is_empty [] = true
is_empty (x ∷ xs) = false

-- `_anythingRunningOnMachine`
abbrev pub anything_running_on_machine : ℕ → State → Bool
anything_running_on_machine id s =
    not (is_empty (runs_on id s)) || not (is_empty (deployments_on id s))

abbrev pub alive_count : State → ℕ
alive_count s = total (λ (m : Machine). if m.is_alive then 1 else 0) s.machines

-- The condition of the index `want_less`.
abbrev pub wants_less : Category → Bool
wants_less category = ltb_ℤ category.desired category.booted

abbrev pub mark_dead : ℕ → Machine → State → State
mark_dead id machine s =
    add_booted (negsuc 0) machine.hardware_and_os
      (set_machine id (record machine { is_alive = false }) s)

module _ (defs : Definitions) where
  -- `_machineLooksIdle`
  unfoldable pub machine_looks_idle : ℕ → Machine → Bool
  machine_looks_idle cur_timestamp machine =
      if defs.is_windows_vm machine.hardware_and_os && ltb cur_timestamp (machine.boot_time + 3300)
      then false
      else ltb (machine.last_test_completed + idle_time_before_shutdown) cur_timestamp

  -- `if (os.matches.WindowsVM or os.matches.LinuxVM): self._terminateMachine(...)`
  abbrev pub stop_vm : (ℕ → State → Option State) → ℕ → State → Option State
  stop_vm terminate id s = elim (get_key s.machines id) [
    | none ↦ none
    | some machine ↦ if defs.is_vm machine.hardware_and_os then terminate id s else some s
  ]

  abbrev pub stop_vm_of : (ℕ → State → Option State) → Option ℕ → State → Option State
  stop_vm_of terminate none s = some s
  stop_vm_of terminate (some id) s = stop_vm terminate id s

  -- `_cancelTestRun` for a run that is not canceled yet
  abbrev pub cancel_running : (ℕ → State → Option State) → ℕ → TestRun → State → Option State
  cancel_running terminate id run s =
      stop_vm_of terminate run.machine
        (add_active_runs (negsuc 0) run.test (set_run id (record run { canceled = true }) s))
      >>= λ s'. some (trigger_test_priority_update run.test s')

  -- `_cancelTestRun`
  unfoldable pub cancel_test_run : (ℕ → State → Option State) → ℕ → State → Option State
  cancel_test_run terminate id s = elim (get_key s.runs id) [
    | none ↦ none
    | some run ↦
        if not (run.end_timestamp == 0)
        then none
        else if run.canceled
        then some s
        else cancel_running terminate id run s
  ]

  -- The loop of `_shutdown` over the machines of a category.
  unfoldable pub shutdown_first :
      (ℕ → State → Option State) → Bool → ℕ → List ℕ → State → Option (Bool × State)
  unfolding machine_looks_idle
  shutdown_first terminate only_idle cur_timestamp [] s = some (false, s)
  shutdown_first terminate only_idle cur_timestamp (id ∷ ids) s = elim (get_key s.machines id) [
    | none ↦ none
    | some machine ↦
        elim (not (anything_running_on_machine id s)
          && (not only_idle || machine_looks_idle cur_timestamp machine)) [
            | true ↦ terminate id s >>= λ s'. some (true, s')
            | false ↦ shutdown_first terminate only_idle cur_timestamp ids s
          ]
  ]

  -- `_shutdown`: whether a machine was terminated
  unfoldable pub shutdown :
      (ℕ → State → Option State) → Bool → ℕ → ℕ → State → Option (Bool × State)
  unfolding shutdown_first
  shutdown terminate only_idle cur_timestamp category s =
      shutdown_first terminate only_idle cur_timestamp
        (ids_where (λ m. m.is_alive && m.hardware_and_os == category) s.machines) s

  -- The loop of `check` in `_shutdownMachinesIfNecessary`.
  unfoldable pub shutdown_categories :
      (ℕ → State → Option State) → ℕ → List ℕ → State → Option (Bool × State)
  unfolding shutdown
  shutdown_categories terminate cur_timestamp [] s = some (false, s)
  shutdown_categories terminate cur_timestamp (category ∷ categories) s =
      (if wants_less (s.categories category)
        then shutdown terminate true cur_timestamp category s
        else some (false, s))
      >>= λ (shut, s'). shutdown_categories terminate cur_timestamp categories s' >>= λ (more, s'').
          some (shut || more, s'')

  -- Its `while check()`, of which each round but the last terminates a machine.
  unfoldable pub shutdown_rounds : (ℕ → State → Option State) → ℕ → ℕ → State → Option State
  unfolding shutdown_categories
  shutdown_rounds terminate cur_timestamp zero s = none
  shutdown_rounds terminate cur_timestamp (suc rounds) s =
      shutdown_categories terminate cur_timestamp
        (keep (λ c. wants_less (s.categories c)) defs.pairs) s
      >>= λ (shut, s'). elim shut [
        | true ↦ shutdown_rounds terminate cur_timestamp rounds s'
        | false ↦ some s'
      ]

  -- `_shutdownMachinesIfNecessary`
  unfoldable pub shutdown_machines_if_necessary :
      (ℕ → State → Option State) → ℕ → State → Option State
  unfolding shutdown_rounds
  shutdown_machines_if_necessary terminate cur_timestamp s =
      shutdown_rounds terminate cur_timestamp (suc (alive_count s)) s

  -- What `_cancelDeployment` does to the deployment's machine.
  abbrev pub leave_machine : (ℕ → State → Option State) → ℕ → Option ℕ → State → Option State
  leave_machine terminate cur_timestamp none s = some s
  leave_machine terminate cur_timestamp (some id) s = elim (get_key s.machines id) [
    | none ↦ none
    | some machine ↦
        stop_vm terminate id
          (set_machine id (record machine { last_test_completed = cur_timestamp }) s)
  ]

  -- `_cancelDeployment` for a deployment that is alive, whose test has the category `category`
  abbrev pub cancel_alive :
      (ℕ → State → Option State) → ℕ → ℕ → Deployment → ℕ → State → Option State
  cancel_alive terminate cur_timestamp id d category s =
      leave_machine terminate cur_timestamp d.machine
        (set_deployment id (record d { is_alive = false }) (add_desired (negsuc 0) category s))
      >>= λ s'. shutdown_machines_if_necessary terminate cur_timestamp (schedule_boot_check s')

  -- `_cancelDeployment`
  unfoldable pub cancel_deployment : (ℕ → State → Option State) → ℕ → ℕ → State → Option State
  unfolding shutdown_machines_if_necessary schedule_boot_check
  cancel_deployment terminate cur_timestamp id s = elim (get_key s.deployments id) [
    | none ↦ none
    | some d ↦ if not d.is_alive then some s else elim (defs.pair_for_test d.test) [
      | none ↦ none
      | some category ↦ cancel_alive terminate cur_timestamp id d category s
    ]
  ]

  -- `_machineTerminated` for a machine that is alive
  abbrev pub end_machine : (ℕ → State → Option State) → ℕ → ℕ → Machine → State → Option State
  end_machine terminate cur_timestamp id machine s =
      let dead = mark_dead id machine s in
      if ltb_ℤ (dead.categories machine.hardware_and_os).booted (pos 0)
      then none
      else each (cancel_test_run terminate) (runs_on id dead) dead >>= λ s'.
          each (cancel_deployment terminate cur_timestamp) (deployments_on id s') s' >>= λ s''.
          some (schedule_boot_check s'')

  -- `_machineTerminated`, and `_terminateMachine`, which calls it
  unfoldable pub machine_terminated : ℕ → ℕ → ℕ → State → Option State
  unfolding cancel_test_run cancel_deployment schedule_boot_check
  machine_terminated zero cur_timestamp id s = none
  machine_terminated (suc fuel) cur_timestamp id s = elim (get_key s.machines id) [
    | none ↦ none
    | some machine ↦
        if machine.is_alive
        then end_machine (machine_terminated fuel cur_timestamp) cur_timestamp id machine s
        else some s
  ]

  -- `_terminateMachine` as the methods call it
  unfoldable pub terminate_machine : ℕ → ℕ → State → Option State
  unfolding machine_terminated
  terminate_machine cur_timestamp id s = machine_terminated 2 cur_timestamp id s
