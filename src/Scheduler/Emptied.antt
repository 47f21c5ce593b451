-- ===== src/Scheduler/Emptied.antt =====
-- `_machineTerminated` of data_model/TestManager.py ends for every machine: it raises nothing, two rounds of
-- fuel are enough, the books stay right, and a machine that was alive is dead and empty after it.
use test_looper.Common.{
  ℕ, suc, ◌≡◌, refl, Bool, true, false, ◌&&◌, inl, inr, Option, none, some, [], ◌∷◌, arith, ◌==◌,
  if◌then◌else◌, All, All-map, Assoc, map, keep, get_key, Bool-cases, Option-cases, ==_iff, sym, ap,
  subst, ◌∙◌,
}
use test_looper.Scheduler.{
  Definitions, State, TestRun, Machine, Deployment, schedule_boot_check, is_running, is_on,
  ids_where, runs_on, deployments_on, ◌>>=◌, each,
}
use test_looper.Scheduler.Ending.{
  cancel_test_run, cancel_deployment, mark_dead, end_machine, machine_terminated,
}
use test_looper.Scheduler.Invariant.{Books, mark_dead-Books, schedule_boot_check-Books}
use test_looper.Scheduler.Later.{Later, Later-refl, Later-trans, set_machine-Later, schedule-Later}
use test_looper.Scheduler.Endings.{
  IsCanceled, IsShut, IsCanceled-Later, IsShut-Later, Ends, Leaves, Leaves-Ends, each-Leaves, Stops,
  cancel_test_run-Leaves,
}
use test_looper.Scheduler.Shutdowns.{ids_where-All}
use test_looper.Scheduler.Terminations.{
  cancel_deployment-Leaves, machine_terminated_dead, dead-Stops, end_machine_booted,
  machine_terminated_alive, machine_terminated-Frees, dead_at,
}

-- The machine is there and dead, and no run and no deployment is going on on it.
pub record Cleared (id : ℕ) (s : State) : Type 0 where
  pub dead :
      (machine : Machine) × (get_key s.machines id ≡ some machine) × (machine.is_alive ≡ false)
  pub no_run :
      (r : ℕ) (run : TestRun)
      → get_key s.runs r ≡ some run
      → (is_running run && is_on run.machine id) ≡ false
  pub no_deployment :
      (j : ℕ) (d : Deployment)
      → get_key s.deployments j ≡ some d
      → (d.is_alive && is_on d.machine id) ≡ false

-- What holds of all that a lookup lists holds of each entry that it asks for.
All-ids_where :
    {A : Type 0} (p : A → Bool) (P : ℕ → Type 0) (d : Assoc A) (id : ℕ) (x : A)
    → get_key d id ≡ some x
    → p x ≡ true
    → All P (ids_where p d)
    → P id
All-ids_where p P [] id x at holds h = absurd (ground (arith, at))
All-ids_where p P ((j, y) ∷ d) id x at holds h = elim (Bool-cases (j == id)) [
  | inl here ↦
      let same : y ≡ x = ground (arith, at, here) in
      let py : p y ≡ true = ap p same ∙ holds in
      subst P ((==_iff j id).0 here)
        (subst
          (λ b.
            All P
              (map (λ e. e.0) (if b then (j, y) ∷ keep (λ e. p e.1) d else keep (λ e. p e.1) d)))
          py h).0
  | inr other ↦
      let rest : get_key d id ≡ some x = ground (arith, at, other) in
      elim (Bool-cases (p y)) [
        | inl py ↦
            All-ids_where p P d id x rest holds
              (subst
                (λ b. All P (
                  map (λ e. e.0) (if b then (j, y) ∷ keep (λ e. p e.1) d else keep (λ e. p e.1) d)))
                py h).1
        | inr not_y ↦ All-ids_where p P d id x rest holds (
            subst
              (λ b.
                All P (
                  map (λ e. e.0) (if b then (j, y) ∷ keep (λ e. p e.1) d else keep (λ e. p e.1) d)))
              not_y h)
      ]
]

no_run_left :
    (id : ℕ) (s s' : State)
    → Later s s'
    → All (λ r. IsCanceled r s') (runs_on id s)
    → (r : ℕ) (run : TestRun) → get_key s'.runs r ≡ some run
    → (is_running run && is_on run.machine id) ≡ false
no_run_left id s s' l canceled r run h = elim (Option-cases (get_key s.runs r)) [
  | inl new ↦ absurd (ground (arith, h, l.no_run r new))
  | inr (old, at) ↦
      let (run', at', same) = l.run r old at in
      let this : run' ≡ run = ground (arith, at', h) in
      let place : is_on run.machine id ≡ is_on old.machine id =
        ap (λ x. is_on x.machine id) (sym this) ∙ ap (λ m. is_on m id) same.1 in
      let ended : run.end_timestamp ≡ old.end_timestamp =
        ap (λ x. x.end_timestamp) (sym this) ∙ same.0 in
      elim (Bool-cases (is_running old && is_on old.machine id)) [
        | inl there ↦
            let (x, at₂, over) =
              All-ids_where (λ y. is_running y && is_on y.machine id) (λ i. IsCanceled i s') s.runs
                r old at there canceled in
            let that : x ≡ run = ground (arith, at₂, h) in
            let run_over : run.canceled ≡ true = ap (λ y. y.canceled) (sym that) ∙ over in
            ground (arith, run_over)
        | inr elsewhere ↦ elim (Bool-cases old.canceled) [
          | inl over ↦
              let run_over : run.canceled ≡ true = ap (λ y. y.canceled) (sym this) ∙ same.2 over in
              ground (arith, run_over)
          | inr going ↦ ground (arith, elsewhere, going, place, ended)
        ]
      ]
]

no_deployment_left :
    (id : ℕ) (s s' : State)
    → Later s s'
    → All (λ j. IsShut j s') (deployments_on id s)
    → (j : ℕ) (d : Deployment) → get_key s'.deployments j ≡ some d
    → (d.is_alive && is_on d.machine id) ≡ false
no_deployment_left id s s' l shut j d h = elim (Option-cases (get_key s.deployments j)) [
  | inl new ↦ absurd (ground (arith, h, l.no_deployment j new))
  | inr (old, at) ↦
      let (d', at', same) = l.deployment j old at in
      let this : d' ≡ d = ground (arith, at', h) in
      let place : is_on d.machine id ≡ is_on old.machine id =
        ap (λ x. is_on x.machine id) (sym this) ∙ ap (λ m. is_on m id) same.0 in
      elim (Bool-cases (old.is_alive && is_on old.machine id)) [
        | inl there ↦
            let (x, at₂, over) =
              All-ids_where (λ y. y.is_alive && is_on y.machine id) (λ i. IsShut i s') s.deployments
                j old at there shut in
            let that : x ≡ d = ground (arith, at₂, h) in
            let d_over : d.is_alive ≡ false = ap (λ y. y.is_alive) (sym that) ∙ over in
            ground (arith, d_over)
        | inr elsewhere ↦ elim (Bool-cases old.is_alive) [
          | inr over ↦
              let d_over : d.is_alive ≡ false = ap (λ y. y.is_alive) (sym this) ∙ same.1 over in
              ground (arith, d_over)
          | inl going ↦ ground (arith, elsewhere, going, place)
        ]
      ]
]

on_that : (o : Option ℕ) (id : ℕ) → is_on o id ≡ true → o ≡ some id
on_that none id h = absurd (ground (arith, h))
on_that (some m) id h = ap some ((==_iff m id).0 h)

module _ (defs : Definitions) where
  -- The end of a machine, where the loops over its runs and deployments end and leave them ended.
  end_machine-Leaves :
      (terminate : ℕ → State → Option State) (ts id : ℕ) (machine : Machine) (s : State)
      → get_key s.machines id ≡ some machine
      → machine.is_alive ≡ true
      → Books defs s
      → let dead = mark_dead id machine s in
        Leaves defs
          (λ s'. All (λ r. IsCanceled r s') (runs_on id dead))
          dead
          (each (cancel_test_run defs terminate) (runs_on id dead) dead)
        → ((s' : State)
            → Books defs s'
            → Later (mark_dead id machine s) s'
            → Leaves defs
                (λ s''. All (λ j. IsShut j s'') (deployments_on id s'))
                s'
                (each (cancel_deployment defs terminate ts) (deployments_on id s') s'))
        → Leaves defs (Cleared id) s (end_machine defs terminate ts id machine s)
  end_machine-Leaves terminate ts id machine s at alive b runs deployments =
      let dead = mark_dead id machine s in
      let gone = record machine { is_alive = false } in
      let b' = mark_dead-Books defs id machine s at alive b in
      let l : Later s dead = set_machine-Later s dead.categories id machine gone at (λ d. refl) in
      let (s₁, e₁, b₁, l₁, canceled) = runs in
      let (s₂, e₂, b₂, l₂, shut) = deployments s₁ b₁ l₁ in
      let s₃ = schedule_boot_check s₂ in
      let l₃ : Later s₂ s₃ = schedule-Later s₂ in
      let l₁₃ = Later-trans s₁ s₂ s₃ l₂ l₃ in
      let l₀₃ = Later-trans dead s₁ s₃ l₁ l₁₃ in
      let (x, found, stays) = l₀₃.machine id gone (dead_at defs id machine s) in
      (
        s₃,
        rw (end_machine_booted defs id machine s b') (
            ap
              (λ m. m >>= λ s'.
                each (cancel_deployment defs terminate ts) (deployments_on id s') s' >>= λ s''.
                some (schedule_boot_check s''))
              e₁
            ∙ ap (λ m. m >>= λ s''. some (schedule_boot_check s'')) e₂),
        schedule_boot_check-Books defs s₂ b₂,
        Later-trans s dead s₃ l l₀₃,
        record {
          dead = (x, found, stays refl);
          no_run =
              no_run_left id dead s₃ l₀₃
                (All-map (runs_on id dead) (λ r c. IsCanceled-Later r s₁ s₃ l₁₃ c) canceled);
          no_deployment =
              no_deployment_left id s₁ s₃ l₁₃
                (All-map (deployments_on id s₁) (λ j c. IsShut-Later j s₂ s₃ l₃ c) shut);
        },
      )

  -- Two rounds of fuel end every machine that is alive, and leave it empty.
  pub machine_terminated-Clears :
      (ts fuel id : ℕ) (machine : Machine) (s : State)
      → get_key s.machines id ≡ some machine
      → machine.is_alive ≡ true
      → Books defs s
      → Leaves defs (Cleared id) s (machine_terminated defs (suc (suc fuel)) ts id s)
  machine_terminated-Clears ts fuel id machine s at alive b =
      let (s', e, b', l, c) =
        end_machine-Leaves inner ts id machine s at alive b runs deployments in
      (s', machine_terminated_alive defs ts (suc fuel) id machine s at alive ∙ e, b', l, c)
    where
      inner : ℕ → State → Option State
      inner = machine_terminated defs (suc fuel) ts

      dead : State
      dead = mark_dead id machine s

      still : (s' : State) → Later dead s' → Stops defs inner s' (some id)
      still s' l =
          let (x, at', stays) =
            l.machine id (record machine { is_alive = false }) (dead_at defs id machine s) in
          dead-Stops defs ts fuel s' id x at' (stays refl)

      runs :
          Leaves defs
            (λ s'. All (λ r. IsCanceled r s') (runs_on id dead))
            dead
            (each (cancel_test_run defs inner) (runs_on id dead) dead)
      runs =
          let b' = mark_dead-Books defs id machine s at alive b in
          each-Leaves defs (cancel_test_run defs inner) IsCanceled dead (runs_on id dead)
            IsCanceled-Later
            (All-map (runs_on id dead)
              (λ r (run, found, p) s' b'' l.
                let (run', found', same) = l.run r run found in
                let place : run'.machine ≡ some id =
                  same.1 ∙ on_that run.machine id (ground (arith, p)) in
                let open_end : run'.end_timestamp == 0 ≡ true =
                  ap (λ e. e == 0) same.0 ∙ ground (arith, p) in
                cancel_test_run-Leaves defs inner r run' s' found' open_end
                  (subst (Stops defs inner s') (sym place) (still s' l)) b'')
              (ids_where-All (λ run. is_running run && is_on run.machine id) dead.runs b'.run_ids))
            dead b' (Later-refl dead)

      deployments :
          (s' : State)
          → Books defs s'
          → Later dead s'
          → Leaves defs
              (λ s''. All (λ j. IsShut j s'') (deployments_on id s'))
              s'
              (each (cancel_deployment defs inner ts) (deployments_on id s') s')
      deployments s' b'' l =
          each-Leaves defs (cancel_deployment defs inner ts) IsShut s' (deployments_on id s')
            IsShut-Later
            (All-map (deployments_on id s')
              (λ j (d, found, p) s'' b₃ l₃.
                let (d', found', same) = l₃.deployment j d found in
                let place : d'.machine ≡ some id =
                  same.0 ∙ on_that d.machine id (ground (arith, p)) in
                cancel_deployment-Leaves defs inner (machine_terminated-Frees defs ts fuel) ts j d'
                  s'' found'
                  (subst (Stops defs inner s'') (sym place)
                    (still s'' (Later-trans dead s' s'' l l₃)))
                  b₃)
              (ids_where-All (λ d. d.is_alive && is_on d.machine id) s'.deployments
                b''.deployment_ids))
            s' b'' (Later-refl s')

  -- Two rounds of fuel end every machine.
  pub machine_terminated-Ends :
      (ts fuel id : ℕ) (machine : Machine) (s : State)
      → get_key s.machines id ≡ some machine
      → Books defs s
      → Ends defs s (machine_terminated defs (suc (suc fuel)) ts id s)
  machine_terminated-Ends ts fuel id machine s at b = elim (Bool-cases machine.is_alive) [
    | inr dead ↦
        (s, machine_terminated_dead defs ts (suc fuel) id machine s at dead, b, Later-refl s)
    | inl alive ↦
        Leaves-Ends defs (Cleared id) s (machine_terminated defs (suc (suc fuel)) ts id s)
          (machine_terminated-Clears ts fuel id machine s at alive b)
  ]
