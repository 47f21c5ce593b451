-- ===== src/Scheduler/Recorded.antt =====
-- What is recorded about the runs of data_model/TestManager.py keeps the books right: artifacts, results,
-- heartbeats and clearing.
use test_looper.Common.{
  Assoc, ℕ, ◌≡◌, refl, Bool, true, false, not, ◌&&◌, inl, inr, Option, none, some, List, arith,
  ◌==◌, if◌then◌else◌, get_key, put_key, get_key-put_key, ==_refl, Bool-cases, Option-cases, pos,
  negsuc, ◌+ℤ◌, sym, ap, subst, ◌∙◌,
}
use test_looper.Scheduler.{
  Definitions, Graph, State, Test, TestRun, Machine, set_test, set_run, set_machine, ◌>>=◌, each,
}
use test_looper.Scheduler.Ending.{stop_vm, cancel_test_run, terminate_machine}
use test_looper.Scheduler.Decisions.{dependents_of}
use test_looper.Scheduler.Updating.{update_test_priority, tests_depending}
use test_looper.Scheduler.Running.{
  machine_heartbeat, record_test_artifact_uploaded, upload_artifact, upload_artifacts, same_list,
  finish_run, count_run, release_machine, record_results, clear_test_run, test_run_heartbeat,
}
use test_looper.Scheduler.Invariant.{Books, Known, pos_pred, set_machine-Books, trigger-Books}
use test_looper.Scheduler.Kept.{May, each-May, cancel_now-Ends, stop_now-Ends}
use test_looper.Scheduler.Updates.{update_test_priority-May}
use test_looper.Scheduler.Right.{
  Right, May-Right, Right-Ends, Right-bind, Right-if, one, run-Books, set_run-Books,
}

module _ (defs : Definitions) where
  update_dependents-Right :
      (g : Graph) (ts t : ℕ) (s : State)
      → Books defs s
      → May defs
          (λ x. x)
          s
          (each (update_test_priority defs g ts) (tests_depending (dependents_of t g)) s)
  update_dependents-Right g ts t s b =
      each-May defs (update_test_priority defs g ts) (tests_depending (dependents_of t g))
        (λ u s' b'. update_test_priority-May defs g ts u s' b') s b

  artifact-Right :
      (g : Graph) (id : ℕ) (uploaded : TestRun → Option (List ℕ)) (ts : ℕ) (s : State)
      → Books defs s
      → Right defs (λ x. x) (record_test_artifact_uploaded defs g id uploaded ts s)
  unfolding record_test_artifact_uploaded
  artifact-Right g id uploaded ts s b = elim (Option-cases (get_key s.runs id)) [
    | inl gone ↦ rw (gone, record_test_artifact_uploaded) b
    | inr (run, at) ↦ elim (Option-cases (uploaded run)) [
      | inl wrong ↦ rw (at, record_test_artifact_uploaded) (rw wrong tt)
      | inr (artifacts, e) ↦
          let new = record run { artifacts_completed = artifacts } in
          rw (at, record_test_artifact_uploaded)
            (rw e (
              May-Right defs (λ x. x) (set_run id new s) _
                (update_dependents-Right g ts run.test (set_run id new s)
                  (set_run-Books defs id run new s at refl refl refl b))))
    ]
  ]

  pub upload_artifact-Right :
      (g : Graph) (id artifact ts : ℕ) (s : State)
      → Books defs s
      → Right defs (λ x. x) (upload_artifact defs g id artifact ts s)
  unfolding upload_artifact
  upload_artifact-Right g id artifact ts s b = artifact-Right g id _ ts s b

  pub upload_artifacts-Right :
      (g : Graph) (id : ℕ) (artifacts : List ℕ) (ts : ℕ) (s : State)
      → Books defs s
      → Right defs (λ x. x) (upload_artifacts defs g id artifacts ts s)
  unfolding upload_artifacts
  upload_artifacts-Right g id artifacts ts s b = artifact-Right g id _ ts s b

  release-Right :
      (ts : ℕ) (m : Option ℕ) (s : State)
      → Books defs s
      → Right defs (λ x. x) (release_machine defs ts m s)
  release-Right ts none s b = tt
  release-Right ts (some id) s b =
      let touched = λ (x : Machine). set_machine id (record x { last_test_completed = ts }) s in
      elim (Option-cases (get_key s.machines id)) [
        | inl gone ↦ subst (Right defs (λ x. x)) (sym (ap found gone)) tt
        | inr (machine, at) ↦ subst (Right defs (λ x. x)) (sym (ap found at)) (
            Right-Ends defs (touched machine)
              (stop_vm defs (terminate_machine defs ts) id (touched machine))
              (stop_now-Ends defs ts (some id) (touched machine)
                (Known-here id (record machine { last_test_completed = ts }) s)
                (set_machine-Books defs id machine (record machine { last_test_completed = ts }) s
                  at refl refl b)))
      ]
    where
      found : Option Machine → Option State
      found y = elim y as (λ z. Option State) [
        | none ↦ none
        | some machine ↦
            stop_vm defs (terminate_machine defs ts) id
              (set_machine id (record machine { last_test_completed = ts }) s)
      ]

      Known-here : (id : ℕ) (x : Machine) (s : State) → Known (put_key s.machines id x) (some id)
      Known-here id x s = (
        x,
        get_key-put_key s.machines id x id
            ∙ ap (λ c. if c then some x else get_key s.machines id) (==_refl id),
      )

  -- A run that has no results yet gets them.
  pub record_results-Right :
      (g : Graph) (id : ℕ) (run : TestRun) (success : Bool) (results : Assoc (Bool × Bool)) (ts : ℕ)
      (s : State)
      → get_key s.runs id ≡ some run
      → run.end_timestamp == 0 ≡ true
      → ts == 0 ≡ false
      → Books defs s
      → Right defs (λ x. x.1) (record_results defs g id success results ts s)
  unfolding record_results finish_run count_run
  record_results-Right g id run success results ts s at open_end later b =
      rw (at, record_results)
        (Right-if defs (λ y. y.1) run.canceled _ _ (λ over. b)
          (λ going.
            Right-if defs (λ y. y.1)
              (success && not (same_list run.artifacts_completed (defs.summary run.test).artifacts))
              _ _ (λ missing. tt) (λ complete. recorded going)))
    where
      new : TestRun
      new = finish_run defs success results ts run

      x : Test
      x = count_run defs success new ts (s.tests run.test)

      recorded :
          run.canceled ≡ false
          → Right defs {A = Bool × State}
              (λ y. y.1)
              (release_machine defs ts run.machine (set_test run.test x (set_run id new s))
                >>= λ s₁.
                    each
                      (update_test_priority defs g ts)
                      (tests_depending (dependents_of run.test g))
                      s₁
                    >>= λ s₂. update_test_priority defs g ts run.test s₂ >>= λ s₃. some (true, s₃))
      recorded going =
          let s' = set_test run.test x (set_run id new s) in
          let was : one run ≡ 1 = ground (arith, open_end, going) in
          let is : one new ≡ 0 = ground (arith, later, going) in
          let b' =
            run-Books defs id run new x s at refl refl
              (λ c d e h. ap (λ z. z +ℤ negsuc 0) h ∙ pos_pred c d (omega (arith, e, was, is))) b in
          Right-bind defs {B = Bool × State} (λ y. y) (λ y. y.1)
            (release_machine defs ts run.machine s') _ (release-Right ts run.machine s' b')
            (λ s₁ b₁.
              Right-bind defs {B = Bool × State} (λ y. y) (λ y. y.1)
                (each (update_test_priority defs g ts) (tests_depending (dependents_of run.test g))
                  s₁)
                _ (May-Right defs (λ y. y) s₁ _ (update_dependents-Right g ts run.test s₁ b₁))
                (λ s₂ b₂.
                  Right-bind defs {B = Bool × State} (λ y. y) (λ y. y.1)
                    (update_test_priority defs g ts run.test s₂) _
                    (May-Right defs (λ y. y) s₂ _
                      (update_test_priority-May defs g ts run.test s₂ b₂))
                    (λ s₃ b₃. b₃)))

  pub clear_test_run-Right :
      (ts id : ℕ) (s : State) → Books defs s → Right defs (λ x. x) (clear_test_run defs ts id s)
  unfolding clear_test_run
  clear_test_run-Right ts id s b = elim (Option-cases (get_key s.runs id)) [
    | inl gone ↦ rw (gone, clear_test_run) tt
    | inr (run, at) ↦ elim (Bool-cases (run.end_timestamp == 0)) [
      | inl going ↦
          rw (at, clear_test_run)
            (rw going (
              Right-Ends defs s (cancel_test_run defs (terminate_machine defs ts) id s)
                (cancel_now-Ends defs ts id run s at going b)))
      | inr over ↦
          let was : one run ≡ 0 = ground (arith, over) in
          rw (at, clear_test_run)
            (rw over (
              trigger-Books defs run.test _ (
                run-Books defs id run (record run { canceled = true }) _ s at refl refl
                  (λ c d e h. h ∙ ap pos (omega (arith, e, was))) b)))
    ]
  ]

  cancel-Right :
      (ts id : ℕ) (run : TestRun) (s : State)
      → get_key s.runs id ≡ some run
      → Books defs s
      → Right defs (λ x. x) (cancel_test_run defs (terminate_machine defs ts) id s)
  unfolding cancel_test_run
  cancel-Right ts id run s at b = elim (Bool-cases (run.end_timestamp == 0)) [
    | inl going ↦
        Right-Ends defs s (cancel_test_run defs (terminate_machine defs ts) id s)
          (cancel_now-Ends defs ts id run s at going b)
    | inr over ↦ rw (at, cancel_test_run) (rw over tt)
  ]

  pub test_run_heartbeat-Right :
      (id ts : ℕ) (s : State)
      → Books defs s
      → Right defs (λ x. x.1) (test_run_heartbeat defs id ts s)
  unfolding test_run_heartbeat machine_heartbeat
  test_run_heartbeat-Right id ts s b = elim (Option-cases (get_key s.runs id)) [
    | inl gone ↦ rw (gone, test_run_heartbeat) b
    | inr (run, at) ↦ elim (Bool-cases run.canceled) [
      | inl over ↦ rw (at, test_run_heartbeat) (rw over b)
      | inr going ↦ elim (Option-cases run.machine) [
        | inl nowhere ↦ rw (at, test_run_heartbeat) (rw (going, nowhere) tt)
        | inr (m, on) ↦ elim (Option-cases (get_key s.machines m)) [
          | inl unknown ↦ rw (at, test_run_heartbeat) (rw (going, on, unknown) tt)
          | inr (machine, there) ↦
              rw (at, test_run_heartbeat)
                (rw (going, on, there)
                  (Right-if defs (λ y. y.1) machine.is_alive _ _
                    (λ alive.
                      set_run-Books defs id run (record run { last_heartbeat = ts })
                        (set_machine m (machine_heartbeat ts machine) s) at refl refl refl
                        (set_machine-Books defs m machine (machine_heartbeat ts machine) s there
                          refl refl b))
                    (λ dead.
                      Right-bind defs (λ y. y) (λ y. y.1)
                        (cancel_test_run defs (terminate_machine defs ts) id s) _
                        (cancel-Right ts id run s at b) (λ s' b'. b'))))
        ]
      ]
    ]
  ]
