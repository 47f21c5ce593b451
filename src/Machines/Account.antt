-- ===== src/Machines/Account.antt =====
-- The books of core/machine_management/MachineManagement.py: what `_machineBooted` and
-- `_machineRemoved` keep in step.
use test_looper.Common.{
  ℕ, ◌-◌, ◌≤◌, ◌≡◌, refl, ap, ◌∙◌, true, false, some, arith, elem, Distinct, has_key, del_key, keys,
  total, del_id, keys-put_key, keys-del_key, has_key-elem, has_key-get_key, total-put_new,
  total-del_key, put_id-Distinct, del_id-Distinct,
}
use test_looper.Machines.{Hardware, OsConfig, Machines, no_machines, add_machine, machine_removed}

-- The booted totals are the sums over the machines, and the three dicts have the same keys.
pub record IsAccounted (m : Machines) : Type 0 where
  pub ram : m.ram_gb_booted ≡ total (λ (h : Hardware). h.ram_gb) m.hardware_configs
  pub cores : m.cores_booted ≡ total (λ (h : Hardware). h.cores) m.hardware_configs
  pub os_keys : keys m.os_configs ≡ keys m.hardware_configs
  pub running_keys : keys m.running_machines ≡ keys m.hardware_configs
  pub distinct : Distinct (keys m.hardware_configs)

pub no_machines-IsAccounted : IsAccounted no_machines
no_machines-IsAccounted = record {
  ram = refl;
  cores = refl;
  os_keys = refl;
  running_keys = refl;
  distinct = tt;
}

-- A machine with a new id is entered in all the books.
pub add_machine-IsAccounted :
    (id : ℕ) (hardware : Hardware) (os : OsConfig) (m : Machines)
    → has_key m.hardware_configs id ≡ false
    → IsAccounted m
    → IsAccounted (add_machine id hardware os m)
unfolding add_machine
add_machine-IsAccounted id hardware os m fresh a = record {
  ram = omega (
    arith,
    a.ram,
    total-put_new (λ (h : Hardware). h.ram_gb) m.hardware_configs id hardware fresh,
  );
  cores = omega (
    arith,
    a.cores,
    total-put_new (λ (h : Hardware). h.cores) m.hardware_configs id hardware fresh,
  );
  os_keys = simp (keys-put_key, a.os_keys);
  running_keys = simp (keys-put_key, a.running_keys);
  distinct = simp keys-put_key (put_id-Distinct (keys m.hardware_configs) id a.distinct);
}

abbrev removed : ℕ → Hardware → Machines → Machines
removed id hardware m = record {
  hardware_configs = del_key m.hardware_configs id;
  os_configs = del_key m.os_configs id;
  running_machines = del_key m.running_machines id;
  ram_gb_booted = m.ram_gb_booted - hardware.ram_gb;
  cores_booted = m.cores_booted - hardware.cores;
}

-- What removing a machine gives: the books without it, and nothing subtracted below zero.
pub record Removed (id : ℕ) (m m' : Machines) : Type 0 where
  pub accounted : IsAccounted m'
  pub keys_left : keys m'.hardware_configs ≡ del_id (keys m.hardware_configs) id
  pub cores_left : m'.cores_booted ≤ m.cores_booted
  pub ram_left : m'.ram_gb_booted ≤ m.ram_gb_booted

-- Removing a machine that runs does not raise.
pub machine_removed_lem :
    (id : ℕ) (m : Machines)
    → IsAccounted m
    → elem id (keys m.hardware_configs) ≡ true
    → (m' : Machines) × (machine_removed id m ≡ some m') × Removed id m m'
unfolding machine_removed
machine_removed_lem id m a known =
    let (hardware, at) =
      has_key-get_key m.hardware_configs id (has_key-elem m.hardware_configs id ∙ known) in
    let in_os : has_key m.os_configs id ≡ true =
      has_key-elem m.os_configs id ∙ ap (elem id) a.os_keys ∙ known in
    let in_running : has_key m.running_machines id ≡ true =
      has_key-elem m.running_machines id ∙ ap (elem id) a.running_keys ∙ known in
    (
      removed id hardware m,
      ground (arith, at, in_os, in_running),
      record {
        accounted = record {
          ram = omega (
            arith,
            a.ram,
            total-del_key (λ (h : Hardware). h.ram_gb) m.hardware_configs id hardware at,
          );
          cores = omega (
            arith,
            a.cores,
            total-del_key (λ (h : Hardware). h.cores) m.hardware_configs id hardware at,
          );
          os_keys = simp (keys-del_key, a.os_keys);
          running_keys = simp (keys-del_key, a.running_keys);
          distinct = simp keys-del_key (del_id-Distinct (keys m.hardware_configs) id a.distinct);
        };
        keys_left = keys-del_key m.hardware_configs id;
        cores_left = omega arith;
        ram_left = omega arith;
      },
    )
