-- ===== src/Scheduler/Later.antt =====
-- What the endings of data_model/TestManager.py never undo: runs, machines and deployments stay, each
-- on its machine, and a machine that is dead stays dead.
use test_looper.Common.{
  true, none, ℕ, ◌≡◌, refl, false, inl, inr, some, List, ◌==◌, if◌then◌else◌, Assoc, get_key,
  put_key, get_key-put_key, Bool-cases, ==_iff, ap, subst, ◌∙◌, arith, elem,
}
use test_looper.Scheduler.{
  State, TestRun, Machine, Category, Deployment, Test, trigger_test_priority_update,
  schedule_boot_check,
}

-- A run stays on its machine, and canceled where it is; its end does not change.
abbrev pub SameRun : TestRun → TestRun → Type 0
SameRun r r' =
    (r'.end_timestamp ≡ r.end_timestamp)
    × (r'.machine ≡ r.machine)
    × (r.canceled ≡ true → r'.canceled ≡ true)

abbrev pub StaysDead : Machine → Machine → Type 0
StaysDead m m' = m.is_alive ≡ false → m'.is_alive ≡ false

abbrev pub SameDeployment : Deployment → Deployment → Type 0
SameDeployment d d' = (d'.machine ≡ d.machine) × (d.is_alive ≡ false → d'.is_alive ≡ false)

-- Each entry is still there, as one that it may become.
abbrev pub Keeps : {V : Type 0} → (V → V → Type 0) → Assoc V → Assoc V → Type 0
Keeps {V} R d d' =
    (id : ℕ) (v : V) → get_key d id ≡ some v → (v' : V) × (get_key d' id ≡ some v') × R v v'

-- No entry is new.
abbrev pub NoneNew : {V : Type 0} → Assoc V → Assoc V → Type 0
NoneNew d d' = (id : ℕ) → get_key d id ≡ none → get_key d' id ≡ none

pub record Later (s s' : State) : Type 0 where
  pub run : Keeps SameRun s.runs s'.runs
  pub machine : Keeps StaysDead s.machines s'.machines
  pub deployment : Keeps SameDeployment s.deployments s'.deployments
  pub no_run : NoneNew s.runs s'.runs
  pub no_deployment : NoneNew s.deployments s'.deployments

pub NoneNew-put_key :
    {V : Type 0} (d : Assoc V) (id : ℕ) (old new : V)
    → get_key d id ≡ some old
    → NoneNew d (put_key d id new)
NoneNew-put_key d id old new at i h = elim (Bool-cases (id == i)) [
  | inl here ↦
      let there : get_key d i ≡ some old =
        subst (λ j. get_key d j ≡ some old) ((==_iff id i).0 here) at in
      absurd (ground (arith, there, h))
  | inr other ↦ get_key-put_key d id new i ∙ ap (λ b. if b then some new else get_key d i) other ∙ h
]

pub Keeps-refl : {V : Type 0} (R : V → V → Type 0) (d : Assoc V) → ((v : V) → R v v) → Keeps R d d
Keeps-refl R d same id v h = (v, h, same v)

pub Keeps-put_key :
    {V : Type 0} (R : V → V → Type 0) (d : Assoc V) (id : ℕ) (old new : V)
    → ((v : V) → R v v)
    → get_key d id ≡ some old
    → R old new
    → Keeps R d (put_key d id new)
Keeps-put_key R d id old new same at r i v h = elim (Bool-cases (id == i)) [
  | inl here ↦
      let there : get_key d i ≡ some old =
        subst (λ j. get_key d j ≡ some old) ((==_iff id i).0 here) at in
      let e : old ≡ v = ground (arith, there, h) in
      (
        new,
        get_key-put_key d id new i ∙ ap (λ b. if b then some new else get_key d i) here,
        subst (λ x. R x new) e r,
      )
  | inr other ↦ (
    v,
    get_key-put_key d id new i ∙ ap (λ b. if b then some new else get_key d i) other ∙ h,
    same v,
  )
]

SameRun-refl : (r : TestRun) → SameRun r r
SameRun-refl r = (refl, refl, λ c. c)

StaysDead-refl : (m : Machine) → StaysDead m m
StaysDead-refl m dead = dead

SameDeployment-refl : (d : Deployment) → SameDeployment d d
SameDeployment-refl d = (refl, λ dead. dead)

pub Later-refl : (s : State) → Later s s
Later-refl s = record {
  run = Keeps-refl SameRun s.runs SameRun-refl;
  machine = Keeps-refl StaysDead s.machines StaysDead-refl;
  deployment = Keeps-refl SameDeployment s.deployments SameDeployment-refl;
  no_run = λ id h. h;
  no_deployment = λ id h. h;
}

pub Later-trans : (s s' s'' : State) → Later s s' → Later s' s'' → Later s s''
Later-trans s s' s'' a b = record {
  run = λ id r h.
      let (r', h', e) = a.run id r h in
      let (r'', h'', e') = b.run id r' h' in
      (r'', h'', (e'.0 ∙ e.0, e'.1 ∙ e.1, λ c. e'.2 (e.2 c)));
  machine = λ id m h.
      let (m', h', e) = a.machine id m h in
      let (m'', h'', e') = b.machine id m' h' in (m'', h'', λ dead. e' (e dead));
  deployment = λ id d h.
      let (d', h', e) = a.deployment id d h in
      let (d'', h'', e') = b.deployment id d' h' in
      (d'', h'', (e'.0 ∙ e.0, λ dead. e'.1 (e.1 dead)));
  no_run = λ id h. b.no_run id (a.no_run id h);
  no_deployment = λ id h. b.no_deployment id (a.no_deployment id h);
}

-- One entry is set, and fields beside the dicts.
pub set_run-Later :
    (s : State) (tests : ℕ → Test) (id : ℕ) (old new : TestRun)
    → get_key s.runs id ≡ some old
    → SameRun old new
    → Later s (record s { runs = put_key s.runs id new; tests = tests })
set_run-Later s tests id old new at same = record {
  run = Keeps-put_key SameRun s.runs id old new SameRun-refl at same;
  machine = Keeps-refl StaysDead s.machines StaysDead-refl;
  deployment = Keeps-refl SameDeployment s.deployments SameDeployment-refl;
  no_run = NoneNew-put_key s.runs id old new at;
  no_deployment = λ i h. h;
}

pub set_machine-Later :
    (s : State) (categories : ℕ → Category) (id : ℕ) (old new : Machine)
    → get_key s.machines id ≡ some old
    → StaysDead old new
    → Later s (record s { machines = put_key s.machines id new; categories = categories })
set_machine-Later s categories id old new at same = record {
  run = Keeps-refl SameRun s.runs SameRun-refl;
  machine = Keeps-put_key StaysDead s.machines id old new StaysDead-refl at same;
  deployment = Keeps-refl SameDeployment s.deployments SameDeployment-refl;
  no_run = λ i h. h;
  no_deployment = λ i h. h;
}

pub set_deployment-Later :
    (s : State) (categories : ℕ → Category) (id : ℕ) (old new : Deployment)
    → get_key s.deployments id ≡ some old
    → SameDeployment old new
    → Later s (record s { deployments = put_key s.deployments id new; categories = categories })
set_deployment-Later s categories id old new at same = record {
  run = Keeps-refl SameRun s.runs SameRun-refl;
  machine = Keeps-refl StaysDead s.machines StaysDead-refl;
  deployment = Keeps-put_key SameDeployment s.deployments id old new SameDeployment-refl at same;
  no_run = λ i h. h;
  no_deployment = NoneNew-put_key s.deployments id old new at;
}

pub tasks-Later :
    (s : State) (test_updates : List ℕ) (boot_checks : ℕ)
    → Later s (record s { test_updates = test_updates; boot_checks = boot_checks })
tasks-Later s test_updates boot_checks = record {
  run = Keeps-refl SameRun s.runs SameRun-refl;
  machine = Keeps-refl StaysDead s.machines StaysDead-refl;
  deployment = Keeps-refl SameDeployment s.deployments SameDeployment-refl;
  no_run = λ i h. h;
  no_deployment = λ i h. h;
}

pub trigger-Later : (t : ℕ) (s : State) → Later s (trigger_test_priority_update t s)
unfolding trigger_test_priority_update
trigger-Later t s = elim (Bool-cases (elem t s.test_updates)) [
  | inl there ↦ rw (there, trigger_test_priority_update) (Later-refl s)
  | inr new ↦ rw (new, trigger_test_priority_update) (tasks-Later s _ s.boot_checks)
]

pub schedule-Later : (s : State) → Later s (schedule_boot_check s)
unfolding schedule_boot_check
schedule-Later s = tasks-Later s s.test_updates _
