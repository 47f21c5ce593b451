-- ===== src/Scheduler/Right.antt =====
-- Steps of data_model/TestManager.py that raise or keep the books right, and runs that change.
use test_looper.Common.{
  ℕ, ◌+◌, ◌≡◌, refl, Bool, true, false, inl, inr, Option, none, some, arith, ◌==◌, if◌then◌else◌,
  get_key, put_key, total, total-put_old, ap-if, Bool-cases, ==_iff, pos, sym, ap, subst, ◌∙◌,
}
use test_looper.Scheduler.{Definitions, State, Test, TestRun, set_test, set_run, is_running, ◌>>=◌}
use test_looper.Scheduler.Invariant.{Books, Known, running_one, get_key-put, keys-put_key-Distinct}
use test_looper.Scheduler.Endings.{Ends}
use test_looper.Scheduler.Kept.{May, May-Ends, Quiet-set_test, Quiet-Books}

-- 1 for a run that is running.
abbrev pub one : TestRun → ℕ
one run = if is_running run then 1 else 0

module _ (defs : Definitions) where
  -- The step raises, or it keeps the books right; `out` is the state in its result.
  abbrev pub Right : {A : Type 0} → (A → State) → Option A → Type 0
  Right out none = Unit
  Right out (some x) = Books defs (out x)

  pub May-Right :
      {A : Type 0} (out : A → State) (s : State) (m : Option A) → May defs out s m → Right out m
  May-Right out s none h = tt
  May-Right out s (some x) h = h.0

  pub Right-Ends : (s : State) (m : Option State) → Ends defs s m → Right (λ x. x) m
  Right-Ends s m e = May-Right (λ x. x) s m (May-Ends defs s m e)

  pub Right-bind :
      {A B : Type 0} (out : A → State) (out' : B → State) (m : Option A) (k : A → Option B)
      → Right out m
      → ((x : A) → Books defs (out x) → Right out' (k x))
      → Right out' (m >>= k)
  Right-bind out out' none k h next = tt
  Right-bind out out' (some x) k h next = next x h

  pub Right-if :
      {A : Type 0} (out : A → State) (c : Bool) (m n : Option A)
      → (c ≡ true → Right out m)
      → (c ≡ false → Right out n)
      → Right out (if c then m else n)
  Right-if out true m n then_right else_right = then_right refl
  Right-if out false m n then_right else_right = else_right refl

  pub Right-result :
      {A : Type 0} (out : A → State) (m : Option A) (x : A)
      → Right out m
      → m ≡ some x
      → Books defs (out x)
  Right-result out m x h e = subst (Right out) e h

  -- A run and its test change together.
  pub run-Books :
      (id : ℕ) (run new : TestRun) (x : Test) (s : State)
      → get_key s.runs id ≡ some run
      → new.test ≡ run.test
      → new.machine ≡ run.machine
      → ((a b : ℕ)
          → b + one run ≡ a + one new
          → (s.tests run.test).active_runs ≡ pos a
          → x.active_runs ≡ pos b)
      → Books defs s
      → Books defs (set_test run.test x (set_run id new s))
  run-Books id run new x s at same_test same_machine counted b = record {
    active = λ t.
        let count = total-put_old (running_one t) s.runs id new run at in
        ap-if (λ (y : Test). y.active_runs) (t == run.test) x (s.tests t)
        ∙ elim (Bool-cases (t == run.test)) [
          | inl same ↦
              let here : t ≡ run.test = (==_iff t run.test).0 same in
              let this : run.test == t ≡ true = ground (arith, here) in
              let that : new.test == t ≡ true = ground (arith, here, same_test) in
              let one_run : running_one t run ≡ one run = ground (arith, this) in
              let one_new : running_one t new ≡ one new = ground (arith, that) in
              rw same (
                counted (total (running_one t) s.runs)
                  (total (running_one t) (put_key s.runs id new))
                  (omega (arith, count, one_run, one_new))
                  (ap (λ u. (s.tests u).active_runs) (sym here) ∙ b.active t))
          | inr other ↦
              let none_here : running_one t run ≡ 0 = ground (arith, other) in
              let none_there : running_one t new ≡ 0 = ground (arith, other, same_test) in
              rw other (b.active t ∙ ap pos (omega (arith, count, none_here, none_there)))
        ];
    booted = b.booted;
    run_ids = keys-put_key-Distinct s.runs id new b.run_ids;
    deployment_ids = b.deployment_ids;
    machine_ids = b.machine_ids;
    run_machine =
        get_key-put (λ i r. Known s.machines r.machine) s.runs id new
          (subst (Known s.machines) (sym same_machine) (b.run_machine id run at)) b.run_machine;
    deployment_machine = b.deployment_machine;
    deployment_category = b.deployment_category;
  }

  -- A run changes in what the books do not look at.
  pub set_run-Books :
      (id : ℕ) (run new : TestRun) (s : State)
      → get_key s.runs id ≡ some run
      → new.test ≡ run.test
      → new.machine ≡ run.machine
      → is_running new ≡ is_running run
      → Books defs s
      → Books defs (set_run id new s)
  set_run-Books id run new s at same_test same_machine same_running b =
      let s' = set_run id new s in
      let whole = set_test run.test (s.tests run.test) s' in
      let ones : one new ≡ one run = ap (λ r. if r then 1 else 0) same_running in
      let q = Quiet-set_test run.test (s.tests run.test) s' refl in
      Quiet-Books defs whole s'
        (record {
          runs = refl;
          machines = refl;
          deployments = refl;
          active = λ t. sym (q.active t);
          booted = λ c. refl;
        })
        (run-Books id run new (s.tests run.test) s at same_test same_machine
          (λ x y e h. h ∙ ap pos (omega (arith, e, ones))) b)
