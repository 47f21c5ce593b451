-- ===== src/Scheduler/Invariant.antt =====
-- The books of data_model/TestManager.py: what its counters count, and what references what.
use test_looper.Common.{
  ℕ, ◌+◌, ◌≡◌, true, false, ◌&&◌, inl, inr, Option, none, some, arith, ◌==◌, if◌then◌else◌, elem,
  Distinct, Assoc, get_key, put_key, keys, total, total-put_old, get_key-put_key, keys-put_key,
  put_id-Distinct, ap-if, Bool-cases, ==_iff, ℤ, pos, negsuc, ◌+ℤ◌, sym, ap, subst, ◌∙◌,
}
use test_looper.Scheduler.{
  Definitions, State, Test, TestRun, Machine, Category, Deployment, set_run, set_machine,
  set_deployment, add_active_runs, add_desired, is_running, trigger_test_priority_update,
  schedule_boot_check,
}
use test_looper.Scheduler.Ending.{mark_dead}

-- 1 for a run of the test `t` that is running.
abbrev pub running_one : ℕ → TestRun → ℕ
running_one t run = if is_running run && run.test == t then 1 else 0

-- 1 for a machine of the category that is alive.
abbrev pub alive_one : ℕ → Machine → ℕ
alive_one c machine = if machine.is_alive && machine.hardware_and_os == c then 1 else 0

abbrev pub Known : Assoc Machine → Option ℕ → Type 0
Known machines none = Unit
Known machines (some id) = (x : Machine) × (get_key machines id ≡ some x)

pub record Books (defs : Definitions) (s : State) : Type 0 where
  -- `activeRuns` counts the running runs, and `booted` the machines alive.
  pub active : (t : ℕ) → (s.tests t).active_runs ≡ pos (total (running_one t) s.runs)
  pub booted : (c : ℕ) → (s.categories c).booted ≡ pos (total (alive_one c) s.machines)
  pub run_ids : Distinct (keys s.runs)
  pub deployment_ids : Distinct (keys s.deployments)
  pub machine_ids : Distinct (keys s.machines)
  -- What a run or a deployment refers to is there.
  pub run_machine :
      (id : ℕ) (run : TestRun) → get_key s.runs id ≡ some run → Known s.machines run.machine
  pub deployment_machine :
      (id : ℕ) (d : Deployment) → get_key s.deployments id ≡ some d → Known s.machines d.machine
  pub deployment_category :
      (id : ℕ) (d : Deployment)
      → get_key s.deployments id ≡ some d
      → (c : ℕ) × (defs.pair_for_test d.test ≡ some c)

pub pos_pred : (a b : ℕ) → a ≡ b + 1 → pos a +ℤ negsuc 0 ≡ pos b
unfolding ◌+ℤ◌
pos_pred a b h = ground (arith, h)

pub pos_succ : (a b : ℕ) → a + 1 ≡ b → pos a +ℤ pos 1 ≡ pos b
unfolding ◌+ℤ◌
pos_succ a b h = ground (arith, h)

-- A dict of what is counted, after one entry is set.
pub Known-put :
    (machines : Assoc Machine) (id : ℕ) (x : Machine) (m : Option ℕ)
    → Known machines m
    → Known (put_key machines id x) m
Known-put machines id x none k = tt
Known-put machines id x (some m) k = elim (Bool-cases (id == m)) [
  | inl same ↦
      (x, get_key-put_key machines id x m ∙ ap (λ b. if b then some x else get_key machines m) same)
  | inr other ↦ (
    k.0,
    get_key-put_key machines id x m
        ∙ ap (λ b. if b then some x else get_key machines m) other
        ∙ k.1,
  )
]

-- What is found after an entry is set, where the new entry has what the old one has.
pub get_key-put :
    {V : Type 0} (P : ℕ → V → Type 0) (d : Assoc V) (id : ℕ) (x : V)
    → P id x
    → ((i : ℕ) (v : V) → get_key d i ≡ some v → P i v)
    → (i : ℕ) (v : V) → get_key (put_key d id x) i ≡ some v
    → P i v
get_key-put P d id x new old i v h = elim (Bool-cases (id == i)) [
  | inl same ↦
      let e : x ≡ v = ground (arith, h, get_key-put_key d id x i, same) in
      subst (λ y. P i y) e (subst (λ j. P j x) ((==_iff id i).0 same) new)
  | inr other ↦ old i v (ground (arith, h, get_key-put_key d id x i, other))
]

pub keys-put_key-Distinct :
    {V : Type 0} (d : Assoc V) (id : ℕ) (x : V)
    → Distinct (keys d)
    → Distinct (keys (put_key d id x))
keys-put_key-Distinct d id x h =
    subst Distinct (sym (keys-put_key d id x)) (put_id-Distinct (keys d) id h)

module _ (defs : Definitions) where
  -- A running run is canceled, and taken off its test's count.
  pub cancel-Books :
      (id : ℕ) (run : TestRun) (s : State)
      → get_key s.runs id ≡ some run
      → run.end_timestamp == 0 ≡ true
      → run.canceled ≡ false
      → Books defs s
      → Books defs
          (add_active_runs (negsuc 0) run.test (set_run id (record run { canceled = true }) s))
  cancel-Books id run s at open_end going b = record {
    active = λ t.
        let gone = record run { canceled = true } in
        let count = total-put_old (running_one t) s.runs id gone run at in
        ap-if (λ (x : Test). x.active_runs) (t == run.test) _ (s.tests t)
        ∙ elim (Bool-cases (t == run.test)) [
          | inl same ↦
              let here : t ≡ run.test = (==_iff t run.test).0 same in
              let one : running_one t run ≡ 1 = ground (arith, open_end, going, here) in
              rw same (
                ap (λ z. z +ℤ negsuc 0) (b.active run.test)
                ∙ pos_pred (total (running_one run.test) s.runs)
                    (total (running_one t) (put_key s.runs id gone))
                    (omega (arith, count, one, ap (λ u. total (running_one u) s.runs) here)))
          | inr other ↦
              let none_here : running_one t run ≡ 0 = ground (arith, other) in
              rw other (b.active t ∙ ap pos (omega (arith, count, none_here)))
        ];
    booted = b.booted;
    run_ids = keys-put_key-Distinct s.runs id (record run { canceled = true }) b.run_ids;
    deployment_ids = b.deployment_ids;
    machine_ids = b.machine_ids;
    run_machine =
        get_key-put (λ i r. Known s.machines r.machine) s.runs id (record run { canceled = true })
          (b.run_machine id run at) b.run_machine;
    deployment_machine = b.deployment_machine;
    deployment_category = b.deployment_category;
  }

  -- A machine that is alive is marked dead, and taken off its category's count.
  pub mark_dead-Books :
      (id : ℕ) (machine : Machine) (s : State)
      → get_key s.machines id ≡ some machine
      → machine.is_alive ≡ true
      → Books defs s
      → Books defs (mark_dead id machine s)
  mark_dead-Books id machine s at alive b =
      let gone = record machine { is_alive = false } in
      record {
        active = b.active;
        booted = λ c.
            let count = total-put_old (alive_one c) s.machines id gone machine at in
            let cat = machine.hardware_and_os in
            ap-if (λ (x : Category). x.booted) (c == cat) _ (s.categories c)
            ∙ elim (Bool-cases (c == cat)) [
              | inl same ↦
                  let here : c ≡ cat = (==_iff c cat).0 same in
                  let one : alive_one c machine ≡ 1 = ground (arith, alive, here) in
                  rw same (
                    ap (λ z. z +ℤ negsuc 0) (b.booted cat)
                    ∙ pos_pred (total (alive_one cat) s.machines)
                        (total (alive_one c) (put_key s.machines id gone))
                        (omega (arith, count, one, ap (λ u. total (alive_one u) s.machines) here)))
              | inr other ↦
                  let none_here : alive_one c machine ≡ 0 = ground (arith, other) in
                  rw other (b.booted c ∙ ap pos (omega (arith, count, none_here)))
            ];
        run_ids = b.run_ids;
        deployment_ids = b.deployment_ids;
        machine_ids = keys-put_key-Distinct s.machines id gone b.machine_ids;
        run_machine = λ i r h. Known-put s.machines id gone r.machine (b.run_machine i r h);
        deployment_machine =
            λ i d h. Known-put s.machines id gone d.machine (b.deployment_machine i d h);
        deployment_category = b.deployment_category;
      }

  -- A machine changes in what the books do not look at.
  pub set_machine-Books :
      (id : ℕ) (machine x : Machine) (s : State)
      → get_key s.machines id ≡ some machine
      → x.is_alive ≡ machine.is_alive
      → x.hardware_and_os ≡ machine.hardware_and_os
      → Books defs s
      → Books defs (set_machine id x s)
  set_machine-Books id machine x s at alive pair b = record {
    active = b.active;
    booted = λ c.
        let count = total-put_old (alive_one c) s.machines id x machine at in
        let same : alive_one c x ≡ alive_one c machine =
          ap (λ p. if p && x.hardware_and_os == c then 1 else 0) alive
          ∙ ap (λ h. if machine.is_alive && h == c then 1 else 0) pair in
        b.booted c ∙ ap pos (omega (arith, count, same));
    run_ids = b.run_ids;
    deployment_ids = b.deployment_ids;
    machine_ids = keys-put_key-Distinct s.machines id x b.machine_ids;
    run_machine = λ i r h. Known-put s.machines id x r.machine (b.run_machine i r h);
    deployment_machine = λ i d h. Known-put s.machines id x d.machine (b.deployment_machine i d h);
    deployment_category = b.deployment_category;
  }

  pub add_desired-Books :
      (n : ℤ) (c : ℕ) (s : State) → Books defs s → Books defs (add_desired n c s)
  add_desired-Books n c s b = record {
    active = b.active;
    booted = λ i.
        ap-if (λ (x : Category). x.booted) (i == c) _ (s.categories i)
        ∙ elim (Bool-cases (i == c)) [
          | inl same ↦
              rw same (ap (λ j. (s.categories j).booted) (sym ((==_iff i c).0 same)) ∙ b.booted i)
          | inr other ↦ rw other (b.booted i)
        ];
    run_ids = b.run_ids;
    deployment_ids = b.deployment_ids;
    machine_ids = b.machine_ids;
    run_machine = b.run_machine;
    deployment_machine = b.deployment_machine;
    deployment_category = b.deployment_category;
  }

  pub set_deployment-Books :
      (id : ℕ) (x : Deployment) (s : State)
      → Known s.machines x.machine
      → ((c : ℕ) × (defs.pair_for_test x.test ≡ some c))
      → Books defs s
      → Books defs (set_deployment id x s)
  set_deployment-Books id x s known category b = record {
    active = b.active;
    booted = b.booted;
    run_ids = b.run_ids;
    deployment_ids = keys-put_key-Distinct s.deployments id x b.deployment_ids;
    machine_ids = b.machine_ids;
    run_machine = b.run_machine;
    deployment_machine =
        get_key-put (λ i d. Known s.machines d.machine) s.deployments id x known
          b.deployment_machine;
    deployment_category =
        get_key-put (λ i d. (c : ℕ) × (defs.pair_for_test d.test ≡ some c)) s.deployments id x
          category b.deployment_category;
  }

  pub trigger-Books :
      (t : ℕ) (s : State) → Books defs s → Books defs (trigger_test_priority_update t s)
  unfolding trigger_test_priority_update
  trigger-Books t s b = elim (Bool-cases (elem t s.test_updates)) [
    | inl there ↦ rw (there, trigger_test_priority_update) b
    | inr new ↦
        rw (new, trigger_test_priority_update)
          (record {
            active = b.active;
            booted = b.booted;
            run_ids = b.run_ids;
            deployment_ids = b.deployment_ids;
            machine_ids = b.machine_ids;
            run_machine = b.run_machine;
            deployment_machine = b.deployment_machine;
            deployment_category = b.deployment_category;
          })
  ]

  pub schedule_boot_check-Books : (s : State) → Books defs s → Books defs (schedule_boot_check s)
  unfolding schedule_boot_check
  schedule_boot_check-Books s b = record {
    active = b.active;
    booted = b.booted;
    run_ids = b.run_ids;
    deployment_ids = b.deployment_ids;
    machine_ids = b.machine_ids;
    run_machine = b.run_machine;
    deployment_machine = b.deployment_machine;
    deployment_category = b.deployment_category;
  }
