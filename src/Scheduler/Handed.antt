-- ===== src/Scheduler/Handed.antt =====
-- Handing out runs and deployments to machines, and booting and losing machines, keeps the books of
-- data_model/TestManager.py right.
use test_looper.Common.{
  ℕ, ◌≡◌, refl, Bool, true, false, not, inl, inr, Option, none, some, arith, ◌==◌, if◌then◌else◌,
  elem, get_key, put_key, has_key, total, total-put_new, ap-if, Bool-cases, Option-cases, ==_iff,
  pos, ◌+ℤ◌, ap, ◌∙◌,
}
use test_looper.Scheduler.{
  Definitions, Graph, State, Test, Category, Deployment, set_run, set_machine, set_deployment,
  add_active_runs, add_booted, add_desired, ◌>>=◌,
}
use test_looper.Scheduler.Updating.{update_test_priority}
use test_looper.Scheduler.Running.{
  machine_heartbeat, new_run, accept_machine, lookup_highest_priority_test, priorities_to_run,
  start_new_test,
}
use test_looper.Scheduler.Fleet.{
  new_machine, heard_from_machine, handle_message_from_deployment, create_deployment,
}
use test_looper.Scheduler.Invariant.{
  Books, Known, Known-put, running_one, alive_one, pos_succ, get_key-put, keys-put_key-Distinct,
  set_machine-Books, set_deployment-Books, add_desired-Books, schedule_boot_check-Books,
}
use test_looper.Scheduler.Updates.{update_test_priority-May}
use test_looper.Scheduler.Right.{Right, Right-if, Right-bind, May-Right}

module _ (defs : Definitions) where
  -- A run that is new, on a machine that is known.
  new_run-Books :
      (id t machine_id ts : ℕ) (s : State)
      → has_key s.runs id ≡ false
      → Known s.machines (some machine_id)
      → Books defs s
      → Books defs (set_run id (new_run t machine_id ts) (add_active_runs (pos 1) t s))
  new_run-Books id t machine_id ts s new known b =
      let run = new_run t machine_id ts in
      record {
        active = λ u.
            let count = total-put_new (running_one u) s.runs id run new in
            ap-if (λ (x : Test). x.active_runs) (u == t) _ (s.tests u)
            ∙ elim (Bool-cases (u == t)) [
              | inl same ↦
                  let here : u ≡ t = (==_iff u t).0 same in
                  let one : running_one u run ≡ 1 = ground (arith, here) in
                  rw same (
                    ap (λ z. z +ℤ pos 1) (b.active t)
                    ∙ pos_succ (total (running_one t) s.runs)
                        (total (running_one u) (put_key s.runs id run))
                        (omega (arith, count, one, ap (λ v. total (running_one v) s.runs) here)))
              | inr other ↦
                  let none_here : running_one u run ≡ 0 = ground (arith, other) in
                  rw other (b.active u ∙ ap pos (omega (arith, count, none_here)))
            ];
        booted = b.booted;
        run_ids = keys-put_key-Distinct s.runs id run b.run_ids;
        deployment_ids = b.deployment_ids;
        machine_ids = b.machine_ids;
        run_machine =
            get_key-put (λ i r. Known s.machines r.machine) s.runs id run known b.run_machine;
        deployment_machine = b.deployment_machine;
        deployment_category = b.deployment_category;
      }

  -- A machine that is new.
  pub new_machine-Books :
      (id category ts : ℕ) (s : State)
      → has_key s.machines id ≡ false
      → Books defs s
      → Books defs (add_booted (pos 1) category (set_machine id (new_machine category ts) s))
  new_machine-Books id category ts s new b =
      let machine = new_machine category ts in
      record {
        active = b.active;
        booted = λ c.
            let count = total-put_new (alive_one c) s.machines id machine new in
            ap-if (λ (x : Category). x.booted) (c == category) _ (s.categories c)
            ∙ elim (Bool-cases (c == category)) [
              | inl same ↦
                  let here : c ≡ category = (==_iff c category).0 same in
                  let one : alive_one c machine ≡ 1 = ground (arith, here) in
                  rw same (
                    ap (λ z. z +ℤ pos 1) (b.booted category)
                    ∙ pos_succ (total (alive_one category) s.machines)
                        (total (alive_one c) (put_key s.machines id machine))
                        (omega (arith, count, one, ap (λ v. total (alive_one v) s.machines) here)))
              | inr other ↦
                  let none_here : alive_one c machine ≡ 0 = ground (arith, other) in
                  rw other (b.booted c ∙ ap pos (omega (arith, count, none_here)))
            ];
        run_ids = b.run_ids;
        deployment_ids = b.deployment_ids;
        machine_ids = keys-put_key-Distinct s.machines id machine b.machine_ids;
        run_machine = λ i r h. Known-put s.machines id machine r.machine (b.run_machine i r h);
        deployment_machine =
            λ i d h. Known-put s.machines id machine d.machine (b.deployment_machine i d h);
        deployment_category = b.deployment_category;
      }

  pub heard_from_machine-Books :
      (id ts : ℕ) (s : State) → Books defs s → Books defs (heard_from_machine id ts s)
  unfolding heard_from_machine machine_heartbeat
  heard_from_machine-Books id ts s b = elim (Option-cases (get_key s.machines id)) [
    | inl gone ↦ rw (gone, heard_from_machine) b
    | inr (machine, at) ↦
        rw (at, heard_from_machine)
          (set_machine-Books defs id machine (machine_heartbeat ts machine) s at refl refl b)
  ]

  pub accept_machine-Books :
      (id ts : ℕ) (s : State) → Books defs s → Books defs (accept_machine defs id ts s).1
  unfolding accept_machine machine_heartbeat
  accept_machine-Books id ts s b = elim (Option-cases (get_key s.machines id)) [
    | inl gone ↦ rw (gone, accept_machine) b
    | inr (machine, at) ↦
        rw (at, accept_machine)
          (pick machine.is_alive
            (set_machine-Books defs id machine (machine_heartbeat ts machine) s at refl refl b) b)
  ]
    where
      pick :
          {s₁ s₂ : State} (c : Bool)
          → Books defs s₁
          → Books defs s₂
          → Books defs (if◌then◌else◌ {A = Bool × State} c (true, s₁) (false, s₂)).1
      pick true a b = a
      pick false a b = b

  pub start_new_test-Right :
      (g : Graph) (id machine_id ts : ℕ) (s : State)
      → has_key s.runs id ≡ false
      → Books defs s
      → Right defs (λ x. x.1) (start_new_test defs g id machine_id ts s)
  unfolding start_new_test
  start_new_test-Right g id machine_id ts s new b =
      elim (Option-cases (get_key s.machines machine_id)) [
        | inl gone ↦ rw (gone, start_new_test) tt
        | inr (machine, at) ↦
            rw (at, start_new_test)
              (found (lookup_highest_priority_test defs priorities_to_run machine.hardware_and_os s)
                (machine, at))
      ]
    where
      found :
          (r : Option (Option ℕ))
          → Known s.machines (some machine_id)
          → Right defs {A = Option ℕ × State}
              (λ x. x.1)
              (elim r [
                | none ↦ none
                | some none ↦ some (none, s)
                | some (some t) ↦
                    update_test_priority defs g ts t
                      (set_run id (new_run t machine_id ts) (add_active_runs (pos 1) t s))
                    >>= λ s'. some (some t, s')
              ])
      found none known = tt
      found (some none) known = b
      found (some (some t)) known =
          let s' = set_run id (new_run t machine_id ts) (add_active_runs (pos 1) t s) in
          Right-bind defs {B = Option ℕ × State} (λ y. y) (λ y. y.1)
            (update_test_priority defs g ts t s') _
            (May-Right defs (λ y. y) s' _
              (update_test_priority-May defs g ts t s'
                (new_run-Books id t machine_id ts s new known b)))
            (λ s'' b'. b')

  pub handle_message-Right :
      (id ts : ℕ) (s : State)
      → Books defs s
      → Right defs (λ x. x.1) (handle_message_from_deployment id ts s)
  unfolding handle_message_from_deployment
  handle_message-Right id ts s b = elim (Option-cases (get_key s.deployments id)) [
    | inl gone ↦ rw (gone, handle_message_from_deployment) b
    | inr (d, at) ↦ elim (Option-cases d.machine) [
      | inl nowhere ↦ rw (at, handle_message_from_deployment) (rw nowhere b)
      | inr (m, on) ↦ elim (Option-cases (get_key s.machines m)) [
        | inl unknown ↦ rw (at, handle_message_from_deployment) (rw (on, unknown) tt)
        | inr (machine, there) ↦
            rw (at, handle_message_from_deployment)
              (rw (on, there)
                (set_machine-Books defs m machine (record machine { last_heartbeat = ts }) s there
                  refl refl b))
      ]
    ]
  ]

  pub create_deployment-Right :
      (id t ts : ℕ) (s : State)
      → Books defs s
      → Right defs (λ x. x) (create_deployment defs id t ts s)
  unfolding create_deployment
  create_deployment-Right id t ts s b =
      Right-if defs (λ x. x) (not (elem t defs.test_ids)) none _ (λ unknown. tt)
        (λ test. elim (Option-cases (defs.pair_for_test t)) [
          | inl no_pair ↦ rw no_pair tt
          | inr (c, pair) ↦
              let d : Deployment = record {
                created_timestamp = ts;
                machine = none;
                test = t;
                is_alive = true;
              } in
              rw pair (
                Right-if defs (λ x. x) (s.categories c).hardware_combo_unbootable none _
                  (λ stuck. tt)
                  (λ fine.
                    schedule_boot_check-Books defs (add_desired (pos 1) c (set_deployment id d s)) (
                      add_desired-Books defs (pos 1) c (set_deployment id d s)
                        (set_deployment-Books defs id d s tt (c, pair) b))))
        ])
