-- ===== src/Scheduler/Swept.antt =====
-- Deployments that are handed out or shut down, machines that are booted or lost, and the clean-up of
-- data_model/TestManager.py keep the books right.
use test_looper.Common.{
  ℕ, ◌≡◌, refl, Bool, true, false, inl, inr, Option, some, List, [], ◌∷◌, arith, ◌==◌,
  if◌then◌else◌, keep, All-map, get_key, has_key, get_key-put_key, Option-cases, ==_refl, pos, ap,
  ◌∙◌,
}
use test_looper.Scheduler.{
  Definitions, State, Machine, set_machine, set_category, schedule_boot_check, is_running,
  ids_where, each,
}
use test_looper.Scheduler.Ending.{
  cancel_deployment, machine_terminated, terminate_machine, shutdown_machines_if_necessary,
}
use test_looper.Scheduler.Updating.{trigger_all}
use test_looper.Scheduler.Running.{machine_heartbeat}
use test_looper.Scheduler.Fleet.{
  shutdown_deployment, accept_deployment, is_pending, start_new_deployment, prioritized_in,
  BootAnswer, worker_booted, worker_unbootable, boot_failed, boot, run_timed_out, machine_timed_out,
  check_run, check_machine, cancel_timed_out, is_waiting_to_retry, check_retry_tests,
  clean_up_machines, remove_workers,
}
use test_looper.Scheduler.Invariant.{
  Books, Known, set_machine-Books, set_deployment-Books, schedule_boot_check-Books,
}
use test_looper.Scheduler.Later.{Later-refl}
use test_looper.Scheduler.Endings.{Ends, Ends-some, Ends-bind, each-Ends}
use test_looper.Scheduler.Shutdowns.{ids_where-All, Frees, shutdown_machines_if_necessary-Ends}
use test_looper.Scheduler.Terminations.{machine_terminated-Frees, cancel_deployment-Ends}
use test_looper.Scheduler.Emptied.{machine_terminated-Ends}
use test_looper.Scheduler.Kept.{
  May-Ends, each-May, cancel_now-Ends, stop_now-Ends, terminate_machine-Ends, Known-Later,
  Quiet-set_category, Quiet-Books,
}
use test_looper.Scheduler.Updates.{Quiet-trigger_all}
use test_looper.Scheduler.Handed.{new_machine-Books}
use test_looper.Scheduler.Right.{Right, Right-if, Right-bind, May-Right, Right-Ends}

module _ (defs : Definitions) where
  pub terminate_machine-Frees : (ts : ℕ) → Frees defs (terminate_machine defs ts)
  unfolding terminate_machine
  terminate_machine-Frees ts = machine_terminated-Frees defs ts 1

  pub shutdown_deployment-Right :
      (id ts : ℕ) (s : State)
      → Books defs s
      → Right defs (λ x. x) (shutdown_deployment defs id ts s)
  unfolding shutdown_deployment cancel_deployment
  shutdown_deployment-Right id ts s b = elim (Option-cases (get_key s.deployments id)) [
    | inl gone ↦ rw (gone, cancel_deployment) tt
    | inr (d, at) ↦ Right-Ends defs s (cancel_deployment defs (terminate_machine defs ts) ts id s) (
        cancel_deployment-Ends defs (terminate_machine defs ts) (terminate_machine-Frees ts) ts id d
          s at
          (λ s' b' l.
            stop_now-Ends defs ts d.machine s'
              (Known-Later defs s s' d.machine (b.deployment_machine id d at) l) b')
          b)
  ]

  accept_deployment-Right :
      (machine_id pair : ℕ) (ids : List ℕ) (s : State)
      → Known s.machines (some machine_id)
      → Books defs s
      → Right defs (λ x. x.1) (accept_deployment defs machine_id pair ids s)
  unfolding accept_deployment
  accept_deployment-Right machine_id pair [] s known b = b
  accept_deployment-Right machine_id pair (id ∷ ids) s known b =
      elim (Option-cases (get_key s.deployments id)) [
        | inl gone ↦ rw (gone, accept_deployment) tt
        | inr (d, at) ↦ elim (Option-cases (defs.pair_for_test d.test)) [
          | inl no_pair ↦ rw (at, accept_deployment) (rw no_pair tt)
          | inr (c, has_pair) ↦
              rw (at, accept_deployment)
                (rw has_pair (
                  Right-if defs (λ y. y.1) (c == pair) _ _
                    (λ same.
                      set_deployment-Books defs id (record d { machine = some machine_id }) s known
                        (c, has_pair) b)
                    (λ other. accept_deployment-Right machine_id pair ids s known b)))
        ]
      ]

  pub start_new_deployment-Right :
      (machine_id ts : ℕ) (s : State)
      → Books defs s
      → Right defs (λ x. x.1) (start_new_deployment defs machine_id ts s)
  unfolding start_new_deployment machine_heartbeat
  start_new_deployment-Right machine_id ts s b =
      elim (Option-cases (get_key s.machines machine_id)) [
        | inl gone ↦ rw (gone, start_new_deployment) b
        | inr (machine, at) ↦
            let new = machine_heartbeat ts machine in
            let s' = set_machine machine_id new s in
            rw (at, start_new_deployment)
              (Right-if defs (λ y. y.1) machine.is_alive _ _
                (λ alive.
                  accept_deployment-Right machine_id machine.hardware_and_os
                    (ids_where (is_pending defs) s.deployments) s'
                    (
                      new,
                      get_key-put_key s.machines machine_id new machine_id
                          ∙ ap (λ c. if c then some new else get_key s.machines machine_id)
                              (==_refl machine_id),
                    )
                    (set_machine-Books defs machine_id machine new s at refl refl b))
                (λ dead. b))
      ]

  pub boot-Books :
      (answer : BootAnswer) (category ts : ℕ) (s : State)
      → ((id : ℕ) → answer ≡ worker_booted id → has_key s.machines id ≡ false)
      → Books defs s
      → Books defs (boot defs answer category ts s).1
  unfolding boot
  boot-Books (worker_booted id) category ts s new b =
      new_machine-Books defs id category ts s (new id refl) b
  boot-Books worker_unbootable category ts s new b =
      let x = record (s.categories category) {
        hardware_combo_unbootable = true;
        desired = pos 0;
      } in
      let s' = set_category category x s in
      Quiet-Books defs s' (trigger_all (prioritized_in defs category s) s')
        (Quiet-trigger_all (prioritized_in defs category s) s')
        (Quiet-Books defs s s' (Quiet-set_category category x s refl) b)
  boot-Books boot_failed category ts s new b = b

  -- The clean-up of what has timed out raises nothing.
  pub cancel_timed_out-Ends :
      (initial ts : ℕ) (s : State) → Books defs s → Ends defs s (cancel_timed_out defs initial ts s)
  unfolding cancel_timed_out check_run check_machine
  cancel_timed_out-Ends initial ts s b =
      Ends-bind defs s (each (check_run defs initial ts) (ids_where is_running s.runs) s) _
        (each-Ends defs (check_run defs initial ts) s (ids_where is_running s.runs)
          (All-map (ids_where is_running s.runs)
            (λ id (run, found, p) s' b' l.
              let (run', found', same) = l.run id run found in
              rw (found', check_run)
                (ends_if (run_timed_out initial ts run')
                  (cancel_now-Ends defs ts id run' s' found'
                    (ap (λ e. e == 0) same.0 ∙ ground (arith, p)) b')
                  b'))
            (ids_where-All is_running s.runs b.run_ids))
          s b (Later-refl s))
        (λ s' b' l.
          each-Ends defs (check_machine defs initial ts) s'
            (ids_where (λ (m : Machine). m.is_alive) s'.machines)
            (All-map (ids_where (λ (m : Machine). m.is_alive) s'.machines)
              (λ id (machine, found, p) s'' b'' l'.
                let (machine', found', stays) = l'.machine id machine found in
                rw (found', check_machine)
                  (ends_if (machine_timed_out initial ts machine')
                    (terminate_machine-Ends defs ts id machine' s'' found' b'') b''))
              (ids_where-All (λ (m : Machine). m.is_alive) s'.machines b'.machine_ids))
            s' b' (Later-refl s'))
    where
      ends_if :
          {s : State} {m : Option State} (c : Bool)
          → Ends defs s m
          → Books defs s
          → Ends defs s (if c then m else some s)
      ends_if true e b = e
      ends_if {s} false e b = Ends-some defs s s b (Later-refl s)

  pub clean_up_machines-Right :
      (ts : ℕ) (s : State) → Books defs s → Right defs (λ x. x) (clean_up_machines defs ts s)
  unfolding clean_up_machines check_retry_tests
  clean_up_machines-Right ts s b =
      Right-bind defs (λ y. y) (λ y. y)
        (shutdown_machines_if_necessary defs (terminate_machine defs ts) ts (schedule_boot_check s))
        _
        (Right-Ends defs (schedule_boot_check s) _ (
          shutdown_machines_if_necessary-Ends defs (terminate_machine defs ts)
            (terminate_machine-Frees ts) ts (schedule_boot_check s)
            (schedule_boot_check-Books defs s b)))
        (λ s' b'.
          Quiet-Books defs s' _
            (Quiet-trigger_all (keep (λ t. is_waiting_to_retry (s'.tests t).priority) defs.test_ids)
              s')
            b')

  pub remove_workers-Right :
      (ts : ℕ) (ids : List ℕ) (s : State)
      → Books defs s
      → Right defs (λ x. x) (remove_workers defs ts ids s)
  unfolding remove_workers machine_terminated
  remove_workers-Right ts ids s b =
      May-Right defs (λ x. x) s _
        (each-May defs (machine_terminated defs 2 ts) _
          (λ id s' b'. elim (Option-cases (get_key s'.machines id)) [
            | inl unknown ↦ rw (unknown, machine_terminated) tt
            | inr (machine, at) ↦
                May-Ends defs s' (machine_terminated defs 2 ts id s')
                  (machine_terminated-Ends defs ts 0 id machine s' at b')
          ])
          s b)
