-- ===== src/Scheduler/Terminations.antt =====
-- `_cancelDeployment` of data_model/TestManager.py ends and leaves its deployment shut down, and
-- `_machineTerminated` ends for a machine that is dead or on which nothing runs.
use test_looper.Common.{
  ℕ, suc, ◌≡◌, refl, true, false, inl, inr, Option, none, some, List, [], ◌∷◌, arith, if◌then◌else◌,
  get_key, total-put_old, get_key-put_key, Bool-cases, ==_refl, pos, negsuc, ltb_ℤ, ap, ◌∙◌,
}
use test_looper.Scheduler.{
  Definitions, State, Machine, Deployment, set_machine, set_deployment, add_desired,
  schedule_boot_check, runs_on, deployments_on, ◌>>=◌, each,
}
use test_looper.Scheduler.Ending.{
  is_empty, stop_vm, cancel_test_run, shutdown_machines_if_necessary, leave_machine,
  cancel_deployment, mark_dead, end_machine, machine_terminated,
}
use test_looper.Scheduler.Invariant.{
  Books, Known, mark_dead-Books, set_machine-Books, add_desired-Books, set_deployment-Books,
  schedule_boot_check-Books,
}
use test_looper.Scheduler.Later.{
  Later, Later-refl, Later-trans, set_machine-Later, set_deployment-Later, schedule-Later,
}
use test_looper.Scheduler.Endings.{
  Ends, Ends-some, Leaves, Leaves-Ends, IsShut, IsShut-Later, Stops,
}
use test_looper.Scheduler.Shutdowns.{Frees, shutdown_machines_if_necessary-Ends}

module _ (defs : Definitions) where
  -- `_cancelDeployment` leaves the deployment shut down.
  pub cancel_deployment-Leaves :
      (terminate : ℕ → State → Option State)
      → Frees defs terminate
      → (ts id : ℕ) (d : Deployment) (s : State) → get_key s.deployments id ≡ some d
      → Stops defs terminate s d.machine
      → Books defs s
      → Leaves defs (IsShut id) s (cancel_deployment defs terminate ts id s)
  unfolding cancel_deployment
  cancel_deployment-Leaves terminate frees ts id d s at stops b = elim (Bool-cases d.is_alive) [
    | inr gone ↦ rw (at, cancel_deployment) (rw gone (s, refl, b, Later-refl s, (d, at, gone)))
    | inl alive ↦
        let (c, cat) = b.deployment_category id d at in
        let over = record d { is_alive = false } in
        let s' = set_deployment id over (add_desired (negsuc 0) c s) in
        let b' =
          set_deployment-Books defs id over (add_desired (negsuc 0) c s)
            (b.deployment_machine id d at) (c, cat) (add_desired-Books defs (negsuc 0) c s b) in
        let later : Later s s' =
          set_deployment-Later s s'.categories id d over at (refl, λ x. refl) in
        let shut : IsShut id s' = (
          over,
          get_key-put_key s.deployments id over id
              ∙ ap (λ x. if x then some over else get_key s.deployments id) (==_refl id),
          refl,
        ) in
        let (s'', e, b'', l) = leave d.machine s' b' later (b.deployment_machine id d at) stops in
        let (s₃, e₃, b₃, l₃) =
          shutdown_machines_if_necessary-Ends defs terminate frees ts (schedule_boot_check s'')
            (schedule_boot_check-Books defs s'' b'') in
        let l' : Later s' s₃ =
          Later-trans s' s'' s₃ l
            (Later-trans s'' (schedule_boot_check s'') s₃ (schedule-Later s'') l₃) in
        rw (at, cancel_deployment)
          (rw (alive, cat)
            (
              s₃,
              ap
                    (λ x. x >>= λ y.
                      shutdown_machines_if_necessary defs terminate ts (schedule_boot_check y))
                    e
                  ∙ e₃,
              b₃,
              Later-trans s s' s₃ later l',
              IsShut-Later id s' s₃ l' shut,
            ))
  ]
    where
      leave :
          (machine : Option ℕ) (s' : State)
          → Books defs s'
          → Later s s'
          → Known s.machines machine
          → Stops defs terminate s machine
          → Ends defs s' (leave_machine defs terminate ts machine s')
      leave none s' b' later known stops = Ends-some defs s' s' b' (Later-refl s')
      leave (some m) s' b' later known stops =
          let (x, at', dead) = later.machine m known.0 known.1 in
          let touched = record x { last_test_completed = ts } in
          let s'' = set_machine m touched s' in
          let l = set_machine-Later s' s'.categories m x touched at' (λ d. d) in
          let (s₃, e, b₃, l₃) =
            stops s'' (set_machine-Books defs m x touched s' at' refl refl b')
              (Later-trans s s' s'' later l) in
          (
            s₃,
            ap
                  (λ y. elim y as (λ z. Option State) [
                    | none ↦ none
                    | some machine ↦
                        stop_vm defs terminate m
                          (set_machine m (record machine { last_test_completed = ts }) s')
                  ])
                  at'
                ∙ e,
            b₃,
            Later-trans s' s'' s₃ l l₃,
          )

  pub cancel_deployment-Ends :
      (terminate : ℕ → State → Option State)
      → Frees defs terminate
      → (ts id : ℕ) (d : Deployment) (s : State) → get_key s.deployments id ≡ some d
      → Stops defs terminate s d.machine
      → Books defs s
      → Ends defs s (cancel_deployment defs terminate ts id s)
  cancel_deployment-Ends terminate frees ts id d s at stops b =
      Leaves-Ends defs (IsShut id) s (cancel_deployment defs terminate ts id s)
        (cancel_deployment-Leaves terminate frees ts id d s at stops b)

  pub machine_terminated_dead :
      (ts fuel id : ℕ) (machine : Machine) (s : State)
      → get_key s.machines id ≡ some machine
      → machine.is_alive ≡ false
      → machine_terminated defs (suc fuel) ts id s ≡ some s
  unfolding machine_terminated
  machine_terminated_dead ts fuel id machine s at dead = rw (at, machine_terminated) (rw dead refl)

  pub stop_vm-Ends :
      (terminate : ℕ → State → Option State) (id : ℕ) (machine : Machine) (s : State)
      → get_key s.machines id ≡ some machine
      → Books defs s
      → Ends defs s (terminate id s)
      → Ends defs s (stop_vm defs terminate id s)
  stop_vm-Ends terminate id machine s at b (s', e, b', l) =
      let found =
        ap
          (λ y. elim y as (λ z. Option State) [
            | none ↦ none
            | some x ↦ if defs.is_vm x.hardware_and_os then terminate id s else some s
          ])
          at in
      elim (Bool-cases (defs.is_vm machine.hardware_and_os)) [
        | inl vm ↦ (s', found ∙ ap (λ v. if v then terminate id s else some s) vm ∙ e, b', l)
        | inr other ↦
            (s, found ∙ ap (λ v. if v then terminate id s else some s) other, b, Later-refl s)
      ]

  -- A machine that is dead in `s` needs no further stop.
  pub dead-Stops :
      (ts fuel : ℕ) (s : State) (id : ℕ) (machine : Machine)
      → get_key s.machines id ≡ some machine
      → machine.is_alive ≡ false
      → Stops defs (machine_terminated defs (suc fuel) ts) s (some id)
  dead-Stops ts fuel s id machine at dead s' b l =
      let (x, at', stays) = l.machine id machine at in
      stop_vm-Ends (machine_terminated defs (suc fuel) ts) id x s' at' b
        (s', machine_terminated_dead ts fuel id x s' at' (stays dead), b, Later-refl s')

  -- The assertion on `booted` holds.
  pub end_machine_booted :
      (id : ℕ) (machine : Machine) (s : State)
      → Books defs (mark_dead id machine s)
      → ltb_ℤ ((mark_dead id machine s).categories machine.hardware_and_os).booted (pos 0) ≡ false
  end_machine_booted id machine s b =
      ap (λ z. ltb_ℤ z (pos 0)) (b.booted machine.hardware_and_os) ∙ ground arith

  pub machine_terminated_alive :
      (ts fuel id : ℕ) (machine : Machine) (s : State)
      → get_key s.machines id ≡ some machine
      → machine.is_alive ≡ true
      → machine_terminated defs (suc fuel) ts id s
        ≡ end_machine defs (machine_terminated defs fuel ts) ts id machine s
  unfolding machine_terminated
  machine_terminated_alive ts fuel id machine s at alive =
      rw (at, machine_terminated) (rw alive refl)

  -- A machine on which nothing runs is taken down in one round.
  pub machine_terminated-Frees : (ts fuel : ℕ) → Frees defs (machine_terminated defs (suc fuel) ts)
  unfolding machine_terminated
  machine_terminated-Frees ts fuel id machine s at alive quiet b =
      let dead = mark_dead id machine s in
      let gone = record machine { is_alive = false } in
      let b' = mark_dead-Books defs id machine s at alive b in
      let no_runs : runs_on id s ≡ [] = empty (runs_on id s) (ground (arith, quiet)) in
      let no_deployments : deployments_on id s ≡ [] =
        empty (deployments_on id s) (ground (arith, quiet)) in
      (
        schedule_boot_check dead,
        rw (at, machine_terminated)
            (rw (alive, end_machine_booted id machine s b')
              (ap
                  (λ ids.
                    each (cancel_test_run defs (machine_terminated defs fuel ts)) ids dead >>= λ s'.
                    each (cancel_deployment defs (machine_terminated defs fuel ts) ts)
                      (deployments_on id s') s'
                    >>= λ s''. some (schedule_boot_check s''))
                  no_runs
                ∙ ap
                    (λ ids.
                      each (cancel_deployment defs (machine_terminated defs fuel ts) ts) ids dead
                      >>= λ s''. some (schedule_boot_check s''))
                    no_deployments)),
        schedule_boot_check-Books defs dead b',
        Later-trans s dead (schedule_boot_check dead)
            (set_machine-Later s dead.categories id machine gone at (λ d. refl))
            (schedule-Later dead),
        unfold schedule_boot_check in
            omega (
              arith,
              one,
              total-put_old (λ (m : Machine). if m.is_alive then 1 else 0) s.machines id gone
                  machine at,
            ),
      )
    where
      one : ◌≡◌ {A = ℕ} (if machine.is_alive then 1 else 0) 1
      one = ground (arith, alive)

      empty : (ids : List ℕ) → is_empty ids ≡ true → ids ≡ []
      empty [] h = refl
      empty (x ∷ ids) h = absurd (ground (arith, h))

  pub dead_at :
      (id : ℕ) (machine : Machine) (s : State)
      → get_key (mark_dead id machine s).machines id ≡ some (record machine { is_alive = false })
  dead_at id machine s =
      let gone = record machine { is_alive = false } in
      get_key-put_key s.machines id gone id
      ∙ ap (λ b. if b then some gone else get_key s.machines id) (==_refl id)
