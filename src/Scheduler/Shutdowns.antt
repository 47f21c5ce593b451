-- ===== src/Scheduler/Shutdowns.antt =====
-- `_shutdown` and `_shutdownMachinesIfNecessary` of data_model/TestManager.py end: each round but the
-- last takes a machine down.
use test_looper.Common.{
  ℕ, zero, suc, ◌+◌, ◌≤◌, ◌≡◌, refl, Bool, true, false, not, ◌&&◌, ◌||◌, inl, inr, Option, some,
  List, [], ◌∷◌, arith, ◌==◌, if◌then◌else◌, keep, All, All-map, Assoc, get_key, keys, Distinct,
  Distinct-get_key, Bool-cases, ap, ◌∙◌,
}
use test_looper.Scheduler.{Definitions, State, Machine, ids_where, ◌>>=◌}
use test_looper.Scheduler.Ending.{
  anything_running_on_machine, alive_count, machine_looks_idle, shutdown_first, shutdown,
  wants_less, shutdown_categories, shutdown_rounds, shutdown_machines_if_necessary,
}
use test_looper.Scheduler.Invariant.{Books}
use test_looper.Scheduler.Later.{Later, Later-refl, Later-trans}
use test_looper.Scheduler.Endings.{Ends}

-- The entries that a lookup lists are there, with what it asks for.
pub ids_where-All :
    {A : Type 0} (p : A → Bool) (d : Assoc A)
    → Distinct (keys d)
    → All (λ id. (x : A) × (get_key d id ≡ some x) × (p x ≡ true)) (ids_where p d)
ids_where-All {A} p d h = gather d (Distinct-get_key d h)
  where
    gather :
        (rest : Assoc A)
        → All (λ e. get_key d e.0 ≡ some e.1) rest
        → All (λ id. (x : A) × (get_key d id ≡ some x) × (p x ≡ true)) (ids_where p rest)
    gather [] f = tt
    gather ((id, x) ∷ rest) f = elim (Bool-cases (p x)) [
      | inl holds ↦ rw holds ((x, f.0, holds), gather rest f.1)
      | inr fails ↦ rw fails (gather rest f.1)
    ]

module _ (defs : Definitions) where
  abbrev down : Bool → ℕ
  down shut = if shut then 1 else 0

  -- A step that says whether it took a machine down.
  abbrev pub Shrinks : State → Option (Bool × State) → Type 0
  Shrinks s result =
      (shut : Bool) × (s' : State) × (result ≡ some (shut, s'))
      × Books defs s'
      × Later s s'
      × (alive_count s' + down shut ≤ alive_count s)

  -- `terminate` takes down a machine that is alive and on which nothing runs.
  abbrev pub Frees : (ℕ → State → Option State) → Type 0
  Frees terminate =
      (id : ℕ) (machine : Machine) (s : State)
      → get_key s.machines id ≡ some machine
      → machine.is_alive ≡ true
      → anything_running_on_machine id s ≡ false
      → Books defs s
      → (s' : State) × (terminate id s ≡ some s')
        × Books defs s'
        × Later s s'
        × (alive_count s' + 1 ≤ alive_count s)

  shutdown_first-Shrinks :
      (terminate : ℕ → State → Option State)
      → Frees terminate
      → (only_idle : Bool) (ts : ℕ) (ids : List ℕ) (s : State)
      → All (λ id. (m : Machine) × (get_key s.machines id ≡ some m) × (m.is_alive ≡ true)) ids
      → Books defs s
      → Shrinks s (shutdown_first defs terminate only_idle ts ids s)
  unfolding shutdown_first
  shutdown_first-Shrinks terminate frees only_idle ts [] s h b =
      (false, s, refl, b, Later-refl s, omega arith)
  shutdown_first-Shrinks terminate frees only_idle ts (id ∷ ids) s h b =
      let (machine, at, alive) = h.0 in
      elim (Bool-cases (
        not (anything_running_on_machine id s)
        && (not only_idle || machine_looks_idle defs ts machine))) [
          | inl free ↦
              let quiet : anything_running_on_machine id s ≡ false = ground (arith, free) in
              let (s', e, b', l, less) = frees id machine s at alive quiet b in
              rw (at, shutdown_first)
                (rw free (true, s', ap (λ x. x >>= λ y. some (true, y)) e, b', l, less))
          | inr busy ↦
              rw (at, shutdown_first)
                (rw busy (shutdown_first-Shrinks terminate frees only_idle ts ids s h.1 b))
        ]

  pub shutdown-Shrinks :
      (terminate : ℕ → State → Option State)
      → Frees terminate
      → (only_idle : Bool) (ts category : ℕ) (s : State) → Books defs s
      → Shrinks s (shutdown defs terminate only_idle ts category s)
  unfolding shutdown
  shutdown-Shrinks terminate frees only_idle ts category s b =
      let found =
        ids_where-All (λ (m : Machine). m.is_alive && m.hardware_and_os == category) s.machines
          b.machine_ids in
      shutdown_first-Shrinks terminate frees only_idle ts
        (ids_where (λ m. m.is_alive && m.hardware_and_os == category) s.machines) s
        (All-map (ids_where (λ m. m.is_alive && m.hardware_and_os == category) s.machines)
          (λ id f. (f.0, f.1, ground (arith, f.2))) found)
        b

  shutdown_categories-Shrinks :
      (terminate : ℕ → State → Option State)
      → Frees terminate
      → (ts : ℕ) (categories : List ℕ) (s : State) → Books defs s
      → Shrinks s (shutdown_categories defs terminate ts categories s)
  unfolding shutdown_categories
  shutdown_categories-Shrinks terminate frees ts [] s b =
      (false, s, refl, b, Later-refl s, omega arith)
  shutdown_categories-Shrinks terminate frees ts (category ∷ categories) s b =
      let (shut, s', e, b', l, less) = first in
      let (more, s'', e', b'', l', less') =
        shutdown_categories-Shrinks terminate frees ts categories s' b' in
      (
        shut || more,
        s'',
        ap
              (λ x. x >>= λ (shut, s').
                shutdown_categories defs terminate ts categories s' >>= λ (more, s'').
                some (shut || more, s''))
              e
            ∙ ap (λ x. x >>= λ (more, s''). some (shut || more, s'')) e',
        b'',
        Later-trans s s' s'' l l',
        ground (arith, less, less'),
      )
    where
      first : Shrinks s (
          if wants_less (s.categories category)
          then shutdown defs terminate true ts category s
          else some (false, s))
      first = elim (Bool-cases (wants_less (s.categories category))) [
        | inl want ↦ rw want (shutdown-Shrinks terminate frees true ts category s b)
        | inr enough ↦ rw enough (false, s, refl, b, Later-refl s, omega arith)
      ]

  shutdown_rounds-Ends :
      (terminate : ℕ → State → Option State)
      → Frees terminate
      → (ts rounds : ℕ) (s : State) → alive_count s + 1 ≤ rounds
      → Books defs s
      → Ends defs s (shutdown_rounds defs terminate ts rounds s)
  unfolding shutdown_rounds
  shutdown_rounds-Ends terminate frees ts zero s enough b = absurd (omega (arith, enough))
  shutdown_rounds-Ends terminate frees ts (suc rounds) s enough b =
      let (shut, s', e, b', l, less) =
        shutdown_categories-Shrinks terminate frees ts
          (keep (λ c. wants_less (s.categories c)) defs.pairs) s b in
      let again = λ (x : Bool). elim x as (λ y. Option State) [
        | true ↦ shutdown_rounds defs terminate ts rounds s'
        | false ↦ some s'
      ] in
      let one_round =
        ap
          (λ x. x >>= λ (shut, s'). elim shut [
            | true ↦ shutdown_rounds defs terminate ts rounds s'
            | false ↦ some s'
          ])
          e in
      elim (Bool-cases shut) [
        | inl more ↦
            let fewer : alive_count s' + 1 ≤ rounds = ground (arith, enough, less, more) in
            let (s'', e', b'', l') = shutdown_rounds-Ends terminate frees ts rounds s' fewer b' in
            (s'', one_round ∙ ap again more ∙ e', b'', Later-trans s s' s'' l l')
        | inr done ↦ (s', one_round ∙ ap again done, b', l)
      ]

  pub shutdown_machines_if_necessary-Ends :
      (terminate : ℕ → State → Option State)
      → Frees terminate
      → (ts : ℕ) (s : State) → Books defs s
      → Ends defs s (shutdown_machines_if_necessary defs terminate ts s)
  unfolding shutdown_machines_if_necessary
  shutdown_machines_if_necessary-Ends terminate frees ts s b =
      shutdown_rounds-Ends terminate frees ts (suc (alive_count s)) s (omega arith) b
