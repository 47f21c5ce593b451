-- ===== src/Scheduler/Endings.antt =====
-- What it is for the endings of data_model/TestManager.py to end: they raise nothing, and the books stay
-- right. `_cancelTestRun` does, and leaves its run canceled.
use test_looper.Common.{
  ℕ, ◌≡◌, refl, true, false, inl, inr, Option, some, List, [], ◌∷◌, ◌==◌, All, get_key,
  get_key-put_key, Bool-cases, ==_refl, if◌then◌else◌, negsuc, ap, ◌∙◌,
}
use test_looper.Scheduler.{
  Definitions, State, TestRun, Deployment, set_run, add_active_runs, trigger_test_priority_update,
  ◌>>=◌, each,
}
use test_looper.Scheduler.Ending.{stop_vm_of, cancel_test_run}
use test_looper.Scheduler.Invariant.{Books, cancel-Books, trigger-Books}
use test_looper.Scheduler.Later.{Later, Later-refl, Later-trans, set_run-Later, trigger-Later}

-- The run is there and canceled; the deployment is there and not alive.
abbrev pub IsCanceled : ℕ → State → Type 0
IsCanceled id s = (run : TestRun) × (get_key s.runs id ≡ some run) × (run.canceled ≡ true)

abbrev pub IsShut : ℕ → State → Type 0
IsShut id s = (d : Deployment) × (get_key s.deployments id ≡ some d) × (d.is_alive ≡ false)

pub IsCanceled-Later : (id : ℕ) (s s' : State) → Later s s' → IsCanceled id s → IsCanceled id s'
IsCanceled-Later id s s' l (run, at, canceled) =
    let (run', at', same) = l.run id run at in (run', at', same.2 canceled)

pub IsShut-Later : (id : ℕ) (s s' : State) → Later s s' → IsShut id s → IsShut id s'
IsShut-Later id s s' l (d, at, shut) =
    let (d', at', same) = l.deployment id d at in (d', at', same.1 shut)

module _ (defs : Definitions) where
  -- The step raises nothing, and keeps the books right.
  abbrev pub Ends : State → Option State → Type 0
  Ends s result = (s' : State) × (result ≡ some s') × Books defs s' × Later s s'

  pub Ends-some : (s s' : State) → Books defs s' → Later s s' → Ends s (some s')
  Ends-some s s' b l = (s', refl, b, l)

  pub Ends-bind :
      (s : State) (m : Option State) (k : State → Option State)
      → Ends s m
      → ((s' : State) → Books defs s' → Later s s' → Ends s' (k s'))
      → Ends s (m >>= k)
  Ends-bind s m k (s', e, b, l) next =
      let (s'', e', b', l') = next s' b l in
      (s'', ap (λ x. x >>= k) e ∙ e', b', Later-trans s s' s'' l l')

  -- A loop, of which each round ends in every state after the first.
  -- The same, with a property of the state that it leaves.
  abbrev pub Leaves : (State → Type 0) → State → Option State → Type 0
  Leaves P s result = (s' : State) × (result ≡ some s') × Books defs s' × Later s s' × P s'

  pub Leaves-Ends : (P : State → Type 0) (s : State) (m : Option State) → Leaves P s m → Ends s m
  Leaves-Ends P s m (s', e, b, l, p) = (s', e, b, l)

  pub Leaves-bind :
      (P : State → Type 0) (s : State) (m : Option State) (k : State → Option State)
      → Ends s m
      → ((s' : State) → Books defs s' → Later s s' → Leaves P s' (k s'))
      → Leaves P s (m >>= k)
  Leaves-bind P s m k (s', e, b, l) next =
      let (s'', e', b', l', p) = next s' b l in
      (s'', ap (λ x. x >>= k) e ∙ e', b', Later-trans s s' s'' l l', p)

  -- A loop, of which each round ends in every state after the first and leaves what is not undone.
  pub each-Leaves :
      {A : Type 0} (f : A → State → Option State) (P : A → State → Type 0) (s₀ : State)
      (xs : List A)
      → ((x : A) (s s' : State) → Later s s' → P x s → P x s')
      → All (λ x. (s : State) → Books defs s → Later s₀ s → Leaves (P x) s (f x s)) xs
      → (s : State) → Books defs s
      → Later s₀ s
      → Leaves (λ s'. All (λ x. P x s') xs) s (each f xs s)
  each-Leaves f P s₀ [] stays h s b l = (s, refl, b, Later-refl s, tt)
  each-Leaves f P s₀ (x ∷ xs) stays h s b l =
      let (s₁, e, b₁, l₁, p) = h.0 s b l in
      let (s₂, e₂, b₂, l₂, ps) = each-Leaves f P s₀ xs stays h.1 s₁ b₁ (Later-trans s₀ s s₁ l l₁) in
      (
        s₂,
        ap (λ y. y >>= each f xs) e ∙ e₂,
        b₂,
        Later-trans s s₁ s₂ l₁ l₂,
        (stays x s₁ s₂ l₂ p, ps),
      )

  -- A loop, of which each round ends in every state after the first.
  pub each-Ends :
      {A : Type 0} (f : A → State → Option State) (s₀ : State) (xs : List A)
      → All (λ x. (s : State) → Books defs s → Later s₀ s → Ends s (f x s)) xs
      → (s : State) → Books defs s
      → Later s₀ s
      → Ends s (each f xs s)
  each-Ends f s₀ [] h s b l = Ends-some s s b (Later-refl s)
  each-Ends f s₀ (x ∷ xs) h s b l =
      Ends-bind s (f x s) (each f xs) (h.0 s b l)
        (λ s' b' l'. each-Ends f s₀ xs h.1 s' b' (Later-trans s₀ s s' l l'))

  -- A machine that may be stopped, in every state from `s` on.
  abbrev pub Stops : (ℕ → State → Option State) → State → Option ℕ → Type 0
  Stops terminate s machine =
      (s' : State) → Books defs s' → Later s s' → Ends s' (stop_vm_of defs terminate machine s')

  -- `_cancelTestRun` leaves the run canceled.
  pub cancel_test_run-Leaves :
      (terminate : ℕ → State → Option State) (id : ℕ) (run : TestRun) (s : State)
      → get_key s.runs id ≡ some run
      → run.end_timestamp == 0 ≡ true
      → Stops terminate s run.machine
      → Books defs s
      → Leaves (IsCanceled id) s (cancel_test_run defs terminate id s)
  unfolding cancel_test_run
  cancel_test_run-Leaves terminate id run s at open_end stops b = elim (Bool-cases run.canceled) [
    | inl over ↦
        rw (at, cancel_test_run) (rw (open_end, over) (s, refl, b, Later-refl s, (run, at, over)))
    | inr going ↦
        let gone = record run { canceled = true } in
        let s' = add_active_runs (negsuc 0) run.test (set_run id gone s) in
        let later : Later s s' = set_run-Later s s'.tests id run gone at (refl, refl, λ c. refl) in
        let (s'', e, b', l) = stops s' (cancel-Books defs id run s at open_end going b) later in
        let s₃ = trigger_test_priority_update run.test s'' in
        let canceled : IsCanceled id s' = (
          gone,
          get_key-put_key s.runs id gone id
              ∙ ap (λ c. if c then some gone else get_key s.runs id) (==_refl id),
          refl,
        ) in
        rw (at, cancel_test_run)
          (rw (open_end, going)
            (
              s₃,
              ap (λ x. x >>= λ y. some (trigger_test_priority_update run.test y)) e,
              trigger-Books defs run.test s'' b',
              Later-trans s s'' s₃ (Later-trans s s' s'' later l) (trigger-Later run.test s''),
              IsCanceled-Later id s' s₃ (Later-trans s' s'' s₃ l (trigger-Later run.test s''))
                  canceled,
            ))
  ]

  pub cancel_test_run-Ends :
      (terminate : ℕ → State → Option State) (id : ℕ) (run : TestRun) (s : State)
      → get_key s.runs id ≡ some run
      → run.end_timestamp == 0 ≡ true
      → Stops terminate s run.machine
      → Books defs s
      → Ends s (cancel_test_run defs terminate id s)
  cancel_test_run-Ends terminate id run s at open_end stops b =
      Leaves-Ends (IsCanceled id) s (cancel_test_run defs terminate id s)
        (cancel_test_run-Leaves terminate id run s at open_end stops b)
