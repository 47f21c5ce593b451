-- ===== src/Scheduler/Kept.antt =====
-- What keeps the books of data_model/TestManager.py right: the steps that may raise.
use test_looper.Common.{
  ℕ, ◌≡◌, refl, true, inl, inr, Option, none, some, List, [], ◌∷◌, ◌==◌, get_key, keys, total,
  Distinct, Bool-cases, ==_iff, ap-if, pos, sym, ap, subst, ◌∙◌, elem,
}
use test_looper.Scheduler.{
  Definitions, State, Test, TestRun, Machine, Category, set_test, set_category,
  trigger_test_priority_update, schedule_boot_check, ◌>>=◌, each,
}
use test_looper.Scheduler.Ending.{stop_vm_of, cancel_test_run, terminate_machine}
use test_looper.Scheduler.Invariant.{Books, Known, running_one, alive_one}
use test_looper.Scheduler.Later.{
  Keeps, SameRun, StaysDead, SameDeployment, NoneNew, Later, Later-refl, Later-trans,
}
use test_looper.Scheduler.Endings.{Ends, Leaves, Ends-some, cancel_test_run-Ends}
use test_looper.Scheduler.Terminations.{stop_vm-Ends}
use test_looper.Scheduler.Emptied.{Cleared, machine_terminated-Ends, machine_terminated-Clears}

module _ (defs : Definitions) where
  -- The step raises, or it keeps the books right and undoes no ending; `out` is the state in its result.
  abbrev pub May : {A : Type 0} → (A → State) → State → Option A → Type 0
  May out s none = Unit
  May out s (some x) = Books defs (out x) × Later s (out x)

  pub May-Later :
      {A : Type 0} (out : A → State) (s s' : State) (m : Option A)
      → Later s s'
      → May out s' m
      → May out s m
  May-Later out s s' none l h = tt
  May-Later out s s' (some x) l h = (h.0, Later-trans s s' (out x) l h.1)

  pub May-Ends : (s : State) (m : Option State) → Ends defs s m → May (λ x. x) s m
  May-Ends s m (s', e, b, l) = subst (May (λ x. x) s) (sym e) (b, l)

  pub May-bind :
      {A B : Type 0} (out : A → State) (out' : B → State) (s : State) (m : Option A)
      (k : A → Option B)
      → May out s m
      → ((x : A) → Books defs (out x) → Later s (out x) → May out' (out x) (k x))
      → May out' s (m >>= k)
  May-bind out out' s none k h next = tt
  May-bind out out' s (some x) k h next = May-Later out' s (out x) (k x) h.1 (next x h.0 h.1)

  pub each-May :
      {A : Type 0} (f : A → State → Option State) (xs : List A)
      → ((x : A) (s : State) → Books defs s → May (λ y. y) s (f x s))
      → (s : State) → Books defs s
      → May (λ y. y) s (each f xs s)
  each-May f [] h s b = (b, Later-refl s)
  each-May f (x ∷ xs) h s b =
      May-bind (λ y. y) (λ y. y) s (f x s) (each f xs) (h x s b) (λ s' b' l. each-May f xs h s' b')

  pub terminate_machine-Ends :
      (ts id : ℕ) (machine : Machine) (s : State)
      → get_key s.machines id ≡ some machine
      → Books defs s
      → Ends defs s (terminate_machine defs ts id s)
  unfolding terminate_machine
  terminate_machine-Ends ts id machine s at b = machine_terminated-Ends defs ts 0 id machine s at b

  pub terminate_machine-Clears :
      (ts id : ℕ) (machine : Machine) (s : State)
      → get_key s.machines id ≡ some machine
      → machine.is_alive ≡ true
      → Books defs s
      → Leaves defs (Cleared id) s (terminate_machine defs ts id s)
  unfolding terminate_machine
  terminate_machine-Clears ts id machine s at alive b =
      machine_terminated-Clears defs ts 0 id machine s at alive b

  pub stop_now-Ends :
      (ts : ℕ) (machine : Option ℕ) (s : State)
      → Known s.machines machine
      → Books defs s
      → Ends defs s (stop_vm_of defs (terminate_machine defs ts) machine s)
  stop_now-Ends ts none s known b = Ends-some defs s s b (Later-refl s)
  stop_now-Ends ts (some id) s known b =
      stop_vm-Ends defs (terminate_machine defs ts) id known.0 s known.1 b
        (terminate_machine-Ends ts id known.0 s known.1 b)

  pub Known-Later :
      (s s' : State) (m : Option ℕ) → Known s.machines m → Later s s' → Known s'.machines m
  Known-Later s s' none k l = tt
  Known-Later s s' (some id) k l = let (x, at, dead) = l.machine id k.0 k.1 in (x, at)

  pub cancel_now-Ends :
      (ts id : ℕ) (run : TestRun) (s : State)
      → get_key s.runs id ≡ some run
      → run.end_timestamp == 0 ≡ true
      → Books defs s
      → Ends defs s (cancel_test_run defs (terminate_machine defs ts) id s)
  cancel_now-Ends ts id run s at open_end b =
      cancel_test_run-Ends defs (terminate_machine defs ts) id run s at open_end
        (λ s' b' l.
          stop_now-Ends ts run.machine s' (Known-Later s s' run.machine (b.run_machine id run at) l)
            b')
        b

-- The step leaves alone what the books look at.
pub record Quiet (s s' : State) : Type 0 where
  pub runs : s'.runs ≡ s.runs
  pub machines : s'.machines ≡ s.machines
  pub deployments : s'.deployments ≡ s.deployments
  pub active : (t : ℕ) → (s'.tests t).active_runs ≡ (s.tests t).active_runs
  pub booted : (c : ℕ) → (s'.categories c).booted ≡ (s.categories c).booted

pub Quiet-refl : (s : State) → Quiet s s
Quiet-refl s = record {
  runs = refl;
  machines = refl;
  deployments = refl;
  active = λ t. refl;
  booted = λ c. refl;
}

pub Quiet-trans : (s s' s'' : State) → Quiet s s' → Quiet s' s'' → Quiet s s''
Quiet-trans s s' s'' a b = record {
  runs = b.runs ∙ a.runs;
  machines = b.machines ∙ a.machines;
  deployments = b.deployments ∙ a.deployments;
  active = λ t. b.active t ∙ a.active t;
  booted = λ c. b.booted c ∙ a.booted c;
}

pub Quiet-set_test :
    (t : ℕ) (x : Test) (s : State)
    → x.active_runs ≡ (s.tests t).active_runs
    → Quiet s (set_test t x s)
Quiet-set_test t x s same = record {
  runs = refl;
  machines = refl;
  deployments = refl;
  active = λ i.
      ap-if (λ (y : Test). y.active_runs) (i == t) x (s.tests i) ∙ elim (Bool-cases (i == t)) [
        | inl here ↦ rw here (same ∙ ap (λ j. (s.tests j).active_runs) (sym ((==_iff i t).0 here)))
        | inr other ↦ rw other refl
      ];
  booted = λ c. refl;
}

pub Quiet-set_category :
    (c : ℕ) (x : Category) (s : State)
    → x.booted ≡ (s.categories c).booted
    → Quiet s (set_category c x s)
Quiet-set_category c x s same = record {
  runs = refl;
  machines = refl;
  deployments = refl;
  active = λ i. refl;
  booted = λ i.
      ap-if (λ (y : Category). y.booted) (i == c) x (s.categories i) ∙ elim (Bool-cases (i == c)) [
        | inl here ↦ rw here (same ∙ ap (λ j. (s.categories j).booted) (sym ((==_iff i c).0 here)))
        | inr other ↦ rw other refl
      ];
}

pub Quiet-trigger : (t : ℕ) (s : State) → Quiet s (trigger_test_priority_update t s)
unfolding trigger_test_priority_update
Quiet-trigger t s = elim (Bool-cases (elem t s.test_updates)) [
  | inl there ↦ rw (there, trigger_test_priority_update) (Quiet-refl s)
  | inr new ↦
      rw (new, trigger_test_priority_update)
        (record {
          runs = refl;
          machines = refl;
          deployments = refl;
          active = λ i. refl;
          booted = λ c. refl;
        })
]

pub Quiet-schedule : (s : State) → Quiet s (schedule_boot_check s)
unfolding schedule_boot_check
Quiet-schedule s = record {
  runs = refl;
  machines = refl;
  deployments = refl;
  active = λ i. refl;
  booted = λ c. refl;
}

pub Quiet-Later : (s s' : State) → Quiet s s' → Later s s'
Quiet-Later s s' q = record {
  run = subst (λ d. Keeps SameRun s.runs d) (sym q.runs) base.run;
  machine = subst (λ d. Keeps StaysDead s.machines d) (sym q.machines) base.machine;
  deployment =
      subst (λ d. Keeps SameDeployment s.deployments d) (sym q.deployments) base.deployment;
  no_run = subst (λ d. NoneNew s.runs d) (sym q.runs) base.no_run;
  no_deployment = subst (λ d. NoneNew s.deployments d) (sym q.deployments) base.no_deployment;
}
  where
    base : Later s s
    base = Later-refl s

pub Quiet-Books : (defs : Definitions) (s s' : State) → Quiet s s' → Books defs s → Books defs s'
Quiet-Books defs s s' q b = record {
  active = λ t. q.active t ∙ b.active t ∙ ap (λ d. pos (total (running_one t) d)) (sym q.runs);
  booted = λ c. q.booted c ∙ b.booted c ∙ ap (λ d. pos (total (alive_one c) d)) (sym q.machines);
  run_ids = subst (λ d. Distinct (keys d)) (sym q.runs) b.run_ids;
  deployment_ids = subst (λ d. Distinct (keys d)) (sym q.deployments) b.deployment_ids;
  machine_ids = subst (λ d. Distinct (keys d)) (sym q.machines) b.machine_ids;
  run_machine = λ id run h.
      subst (λ d. Known d run.machine) (sym q.machines)
        (b.run_machine id run (ap (λ d. get_key d id) (sym q.runs) ∙ h));
  deployment_machine = λ id x h.
      subst (λ d. Known d x.machine) (sym q.machines)
        (b.deployment_machine id x (ap (λ d. get_key d id) (sym q.deployments) ∙ h));
  deployment_category =
      λ id x h. b.deployment_category id x (ap (λ d. get_key d id) (sym q.deployments) ∙ h);
}
