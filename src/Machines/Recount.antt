-- ===== src/Machines/Recount.antt =====
-- `AwsMachineManagement.synchronize_workers` of core/machine_management/MachineManagement.py:
-- machines that run are booked a second time.
use test_looper.Common.{
  ℕ, ◌+◌, ◌≡◌, refl, sym, ap, ◌∙◌, true, inl, inr, some, List, [], ◌∷◌, arith, ◌==◌, if◌then◌else◌,
  elem, All, All-map, Assoc, get_key, get_key-put_key, keys, total, total-put_old, Bool-cases,
  ==_iff,
}
use test_looper.Machines.{Hardware, OsConfig, Machines, add_machine}
use test_looper.Machines.Aws.{remove_dead, readopt, appear_dead, aws_synchronize}

-- The database and the cloud agree with the manager: each known machine is up, and is booked with
-- the hardware that the database has for it.
abbrev pub Confirmed : List ℕ → Assoc (Hardware × OsConfig) → Machines → Type 0
Confirmed active known m =
    All (λ e. (elem e.0 active ≡ true) × (get_key m.hardware_configs e.0 ≡ some e.1.0)) known

abbrev pub known_cores : Assoc (Hardware × OsConfig) → ℕ
known_cores known = total (λ e. e.0.cores) known

abbrev pub booked_cores : Machines → ℕ
booked_cores m = total (λ (h : Hardware). h.cores) m.hardware_configs

Confirmed-add :
    (active : List ℕ) (known : Assoc (Hardware × OsConfig)) (m : Machines) (id : ℕ)
    (hardware : Hardware) (os : OsConfig)
    → get_key m.hardware_configs id ≡ some hardware
    → Confirmed active known m
    → Confirmed active known (add_machine id hardware os m)
unfolding add_machine
Confirmed-add active known m id hardware os at c =
    All-map known (λ e h. (h.0, get_key-put_key m.hardware_configs id hardware e.0 ∙ same e h.1)) c
  where
    same :
        (e : ℕ × (Hardware × OsConfig))
        → get_key m.hardware_configs e.0 ≡ some e.1.0
        → (if id == e.0 then some hardware else get_key m.hardware_configs e.0) ≡ some e.1.0
    same e h = elim (Bool-cases (id == e.0)) [
      | inl here ↦ rw here (sym at ∙ ap (get_key m.hardware_configs) ((==_iff id e.0).0 here) ∙ h)
      | inr away ↦ rw away h
    ]

readopt-cores :
    (active : List ℕ) (known : Assoc (Hardware × OsConfig)) (m : Machines)
    → Confirmed active known m
    → ((readopt active known m).cores_booted ≡ m.cores_booted + known_cores known)
      × (booked_cores (readopt active known m) ≡ booked_cores m)
unfolding readopt
readopt-cores active [] m c = (omega arith, refl)
readopt-cores active ((id, (hardware, os)) ∷ known) m c =
    let m' = add_machine id hardware os m in
    let step : (m'.cores_booted ≡ m.cores_booted + hardware.cores)
        × (booked_cores m' ≡ booked_cores m) =
      (
        unfold add_machine in refl,
        unfold add_machine in
            omega (
              arith,
              total-put_old (λ (h : Hardware). h.cores) m.hardware_configs id hardware hardware
                  c.0.1,
            ),
      ) in
    let rest =
      readopt-cores active known m' (Confirmed-add active known m id hardware os c.0.1 c.1) in
    let stays : readopt active ((id, (hardware, os)) ∷ known) m ≡ readopt active known m' =
      ap (λ b. readopt active known (if b then m' else m)) c.0.0 in
    (
      ap (λ (x : Machines). x.cores_booted) stays ∙ omega (arith, step, rest),
      ap booked_cores stays ∙ rest.1 ∙ step.1,
    )

remove_dead-none :
    (active : List ℕ) (known : Assoc (Hardware × OsConfig)) (m : Machines)
    → Confirmed active known m
    → remove_dead active (keys known) m ≡ some m
unfolding remove_dead
remove_dead-none active [] m c = refl
remove_dead-none active ((id, (hardware, os)) ∷ known) m c =
    ground (arith, c.0.0, remove_dead-none active known m c.1)

appear_dead-none :
    (active : List ℕ) (known : Assoc (Hardware × OsConfig)) (m : Machines)
    → Confirmed active known m
    → appear_dead active (keys known) ≡ []
unfolding appear_dead
appear_dead-none active [] m c = refl
appear_dead-none active ((id, (hardware, os)) ∷ known) m c =
    ground (arith, c.0.0, appear_dead-none active known m c.1)

-- Where every known machine is up and already booked with its hardware, `synchronize_workers`
-- reports none as dead, adds the cores of all known machines to `cores_booted` once more, and
-- leaves the sum of the cores over the booked machines as it is.
pub aws_synchronize_recounts :
    (active : List ℕ) (known : Assoc (Hardware × OsConfig)) (m : Machines)
    → Confirmed active known m
    → (m' : Machines) × (aws_synchronize active known m ≡ some ([], m'))
      × (m'.cores_booted ≡ m.cores_booted + known_cores known)
      × (booked_cores m' ≡ booked_cores m)
unfolding aws_synchronize
aws_synchronize_recounts active known m c =
    let (cores, booked) = readopt-cores active known m c in
    (
      readopt active known m,
      ground (arith, remove_dead-none active known m c, appear_dead-none active known m c),
      cores,
      booked,
    )
