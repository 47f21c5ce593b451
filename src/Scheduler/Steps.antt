-- ===== src/Scheduler/Steps.antt =====
-- The transactions of data_model/TestManager.py on tests, runs, machines and deployments, as steps from
-- state to state. Each one is run with the commits' graph of its own time. A step is there where the code
-- does not raise; one that raises changes nothing. What the steps assume of their callers is written in
-- them: identities of new objects are new, a clock does not show 0, and a run reports its results
-- once.
use test_looper.Common.{
  Assoc, ℕ, ◌+◌, ◌≡◌, refl, Bool, true, false, not, Option, some, List, ◌==◌, keep, get_key,
  has_key, total, arith, pos, sym, subst, ◌∙◌,
}
use test_looper.Scheduler.{Definitions, Graph, State, TestRun, Machine, new_state}
use test_looper.Scheduler.Ending.{shutdown, terminate_machine}
use test_looper.Scheduler.Updating.{update_test_priority}
use test_looper.Scheduler.Running.{
  accept_machine, start_new_test, upload_artifact, upload_artifacts, record_results, clear_test_run,
  test_run_heartbeat,
}
use test_looper.Scheduler.Fleet.{
  heard_from_machine, handle_message_from_deployment, create_deployment, shutdown_deployment,
  start_new_deployment, BootAnswer, worker_booted, boot, cancel_timed_out, clean_up_machines,
  remove_workers,
}
use test_looper.Scheduler.Invariant.{Books, running_one, alive_one}
use test_looper.Scheduler.Later.{Later}
use test_looper.Scheduler.Shutdowns.{shutdown-Shrinks}
use test_looper.Scheduler.Emptied.{Cleared}
use test_looper.Scheduler.Kept.{terminate_machine-Clears, Quiet-Books, terminate_machine-Ends}
use test_looper.Scheduler.Updates.{update_test_priority-May}
use test_looper.Scheduler.Right.{May-Right, Right-Ends, Right-result}
use test_looper.Scheduler.Recorded.{
  upload_artifact-Right, upload_artifacts-Right, record_results-Right, clear_test_run-Right,
  test_run_heartbeat-Right,
}
use test_looper.Scheduler.Handed.{
  heard_from_machine-Books, accept_machine-Books, start_new_test-Right, handle_message-Right,
  create_deployment-Right,
}
use test_looper.Scheduler.Swept.{
  terminate_machine-Frees, shutdown_deployment-Right, start_new_deployment-Right, boot-Books,
  cancel_timed_out-Ends, clean_up_machines-Right, remove_workers-Right,
}

module _ (defs : Definitions) where
  pub data Step : State → State → Type 0 where
    machine_heard : (id ts : ℕ) (s s' : State) → heard_from_machine id ts s ≡ s' → Step s s'
    machine_asks :
        (id ts : ℕ) (r : Bool) (s s' : State) → accept_machine defs id ts s ≡ (r, s') → Step s s'
    test_started :
        (g : Graph) (id machine_id ts : ℕ) (t : Option ℕ) (s s' : State)
        → has_key s.runs id ≡ false
        → start_new_test defs g id machine_id ts s ≡ some (t, s')
        → Step s s'
    artifact_uploaded :
        (g : Graph) (id artifact ts : ℕ) (s s' : State)
        → upload_artifact defs g id artifact ts s ≡ some s'
        → Step s s'
    artifacts_uploaded :
        (g : Graph) (id : ℕ) (artifacts : List ℕ) (ts : ℕ) (s s' : State)
        → upload_artifacts defs g id artifacts ts s ≡ some s'
        → Step s s'
    results_recorded :
        (g : Graph) (id : ℕ) (run : TestRun) (success : Bool) (results : Assoc (Bool × Bool))
        (ts : ℕ)
        → (r : Bool) (s s' : State) → get_key s.runs id ≡ some run
        → run.end_timestamp == 0 ≡ true
        → ts == 0 ≡ false
        → record_results defs g id success results ts s ≡ some (r, s')
        → Step s s'
    run_cleared : (ts id : ℕ) (s s' : State) → clear_test_run defs ts id s ≡ some s' → Step s s'
    run_heard :
        (id ts : ℕ) (r : Bool) (s s' : State)
        → test_run_heartbeat defs id ts s ≡ some (r, s')
        → Step s s'
    priority_updated :
        (g : Graph) (ts t : ℕ) (s s' : State)
        → update_test_priority defs g ts t s ≡ some s'
        → Step s s'
    test_update_done :
        (t : ℕ) (s s' : State)
        → record s { test_updates = keep (λ u. not (u == t)) s.test_updates } ≡ s'
        → Step s s'
    boot_check_done :
        (n : ℕ) (s s' : State)
        → s.boot_checks ≡ n + 1
        → record s { boot_checks = n } ≡ s'
        → Step s s'
    deployment_created :
        (id t ts : ℕ) (s s' : State) → create_deployment defs id t ts s ≡ some s' → Step s s'
    deployment_started :
        (machine_id ts : ℕ) (d : Option ℕ) (s s' : State)
        → start_new_deployment defs machine_id ts s ≡ some (d, s')
        → Step s s'
    deployment_heard :
        (id ts : ℕ) (r : Bool) (s s' : State)
        → handle_message_from_deployment id ts s ≡ some (r, s')
        → Step s s'
    deployment_shut_down :
        (id ts : ℕ) (s s' : State) → shutdown_deployment defs id ts s ≡ some s' → Step s s'
    machine_asked_for :
        (answer : BootAnswer) (category ts : ℕ) (r : Bool) (s s' : State)
        → ((id : ℕ) → answer ≡ worker_booted id → has_key s.machines id ≡ false)
        → boot defs answer category ts s ≡ (r, s')
        → Step s s'
    machine_shut_down :
        (category ts : ℕ) (r : Bool) (s s' : State)
        → shutdown defs (terminate_machine defs ts) false ts category s ≡ some (r, s')
        → Step s s'
    timed_out :
        (initial ts : ℕ) (s s' : State) → cancel_timed_out defs initial ts s ≡ some s' → Step s s'
    cleaned_up : (ts : ℕ) (s s' : State) → clean_up_machines defs ts s ≡ some s' → Step s s'
    workers_removed :
        (ts : ℕ) (ids : List ℕ) (s s' : State) → remove_workers defs ts ids s ≡ some s' → Step s s'

  -- The states that the manager can be in, from one without runs, machines and deployments.
  pub data Reachable : State → Type 0 where
    start : Reachable new_state
    next : (s s' : State) → Reachable s → Step s s' → Reachable s'

  new_state-Books : Books defs new_state
  new_state-Books = record {
    active = λ t. refl;
    booted = λ c. refl;
    run_ids = tt;
    deployment_ids = tt;
    machine_ids = tt;
    run_machine = λ id run h. absurd (ground (arith, h));
    deployment_machine = λ id d h. absurd (ground (arith, h));
    deployment_category = λ id d h. absurd (ground (arith, h));
  }

  Step-Books : {s s' : State} → Step s s' → Books defs s → Books defs s'
  Step-Books (machine_heard id ts s s' e) b =
      subst (Books defs) e (heard_from_machine-Books defs id ts s b)
  Step-Books (machine_asks id ts r s s' e) b =
      subst (λ x. Books defs x.1) e (accept_machine-Books defs id ts s b)
  Step-Books (test_started g id machine_id ts t s s' new e) b =
      Right-result defs (λ x. x.1) _ (t, s') (start_new_test-Right defs g id machine_id ts s new b)
        e
  Step-Books (artifact_uploaded g id artifact ts s s' e) b =
      Right-result defs (λ x. x) _ s' (upload_artifact-Right defs g id artifact ts s b) e
  Step-Books (artifacts_uploaded g id artifacts ts s s' e) b =
      Right-result defs (λ x. x) _ s' (upload_artifacts-Right defs g id artifacts ts s b) e
  Step-Books (results_recorded g id run success results ts r s s' at open_end later e) b =
      Right-result defs (λ x. x.1) _ (r, s')
        (record_results-Right defs g id run success results ts s at open_end later b) e
  Step-Books (run_cleared ts id s s' e) b =
      Right-result defs (λ x. x) _ s' (clear_test_run-Right defs ts id s b) e
  Step-Books (run_heard id ts r s s' e) b =
      Right-result defs (λ x. x.1) _ (r, s') (test_run_heartbeat-Right defs id ts s b) e
  Step-Books (priority_updated g ts t s s' e) b =
      Right-result defs (λ x. x) _ s'
        (May-Right defs (λ x. x) s _ (update_test_priority-May defs g ts t s b)) e
  Step-Books (test_update_done t s s' e) b = subst (Books defs) e (
      Quiet-Books defs s (record s { test_updates = keep (λ u. not (u == t)) s.test_updates })
        (record {
          runs = refl;
          machines = refl;
          deployments = refl;
          active = λ i. refl;
          booted = λ c. refl;
        })
        b)
  Step-Books (boot_check_done n s s' some_check e) b = subst (Books defs) e (
      Quiet-Books defs s (record s { boot_checks = n })
        (record {
          runs = refl;
          machines = refl;
          deployments = refl;
          active = λ i. refl;
          booted = λ c. refl;
        })
        b)
  Step-Books (deployment_created id t ts s s' e) b =
      Right-result defs (λ x. x) _ s' (create_deployment-Right defs id t ts s b) e
  Step-Books (deployment_started machine_id ts d s s' e) b =
      Right-result defs (λ x. x.1) _ (d, s') (start_new_deployment-Right defs machine_id ts s b) e
  Step-Books (deployment_heard id ts r s s' e) b =
      Right-result defs (λ x. x.1) _ (r, s') (handle_message-Right defs id ts s b) e
  Step-Books (deployment_shut_down id ts s s' e) b =
      Right-result defs (λ x. x) _ s' (shutdown_deployment-Right defs id ts s b) e
  Step-Books (machine_asked_for answer category ts r s s' new e) b =
      subst (λ x. Books defs x.1) e (boot-Books defs answer category ts s new b)
  Step-Books (machine_shut_down category ts r s s' e) b =
      let (r', s'', e', b', l, less) =
        shutdown-Shrinks defs (terminate_machine defs ts) (terminate_machine-Frees defs ts) false ts
          category s b in
      Right-result defs {A = Bool × State} (λ x. x.1) (some (r', s'')) (r, s') b' (sym e' ∙ e)
  Step-Books (timed_out initial ts s s' e) b =
      Right-result defs (λ x. x) _ s'
        (Right-Ends defs s _ (cancel_timed_out-Ends defs initial ts s b)) e
  Step-Books (cleaned_up ts s s' e) b =
      Right-result defs (λ x. x) _ s' (clean_up_machines-Right defs ts s b) e
  Step-Books (workers_removed ts ids s s' e) b =
      Right-result defs (λ x. x) _ s' (remove_workers-Right defs ts ids s b) e

  pub Reachable-Books : {s : State} → Reachable s → Books defs s
  Reachable-Books start = new_state-Books
  Reachable-Books (next s s' r step) = Step-Books step (Reachable-Books r)

-- In every state that the steps reach, `activeRuns` of each test is the number of its runs that are
-- neither canceled nor ended, and `booted` of each category the number of its machines that are alive; so
-- neither is negative.
pub Reachable-counts :
    (defs : Definitions) (s : State)
    → Reachable defs s
    → ((t : ℕ) → (s.tests t).active_runs ≡ pos (total (running_one t) s.runs))
      × ((c : ℕ) → (s.categories c).booted ≡ pos (total (alive_one c) s.machines))
Reachable-counts defs s r = let b = Reachable-Books defs r in (b.active, b.booted)

-- In every state that the steps reach, `_terminateMachine` of a machine that is there raises nothing,
-- and the books are right after it. Its two rounds of fuel are enough.
pub terminate_machine-total :
    (defs : Definitions) (ts id : ℕ) (machine : Machine) (s : State)
    → Reachable defs s
    → get_key s.machines id ≡ some machine
    → (s' : State) × (terminate_machine defs ts id s ≡ some s') × Books defs s'
terminate_machine-total defs ts id machine s r at =
    let (s', e, b, l) = terminate_machine-Ends defs ts id machine s at (Reachable-Books defs r) in
    (s', e, b)

-- In every state that the steps reach, `_terminateMachine` of a machine that is alive raises nothing, and
-- after it the machine is dead, no run on it is neither canceled nor ended, and no deployment on it is alive.
pub terminate_machine-Cleared :
    (defs : Definitions) (ts id : ℕ) (machine : Machine) (s : State)
    → Reachable defs s
    → get_key s.machines id ≡ some machine
    → machine.is_alive ≡ true
    → (s' : State) × (terminate_machine defs ts id s ≡ some s') × Cleared id s'
terminate_machine-Cleared defs ts id machine s r at alive =
    let (s', e, b, l, c) =
      terminate_machine-Clears defs ts id machine s at alive (Reachable-Books defs r) in
    (s', e, c)

-- In every state that the steps reach, the first transaction of `performCleanupTasks` raises nothing, the
-- books are right after it, and its runs, machines and deployments are still there, each on its machine.
pub cancel_timed_out-total :
    (defs : Definitions) (initial ts : ℕ) (s : State)
    → Reachable defs s
    → (s' : State) × (cancel_timed_out defs initial ts s ≡ some s') × Books defs s' × Later s s'
cancel_timed_out-total defs initial ts s r =
    cancel_timed_out-Ends defs initial ts s (Reachable-Books defs r)
