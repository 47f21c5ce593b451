-- ===== src/Machines.antt =====
-- core/machine_management/MachineManagement.py: the base class, its bookkeeping of what is booted,
-- and the operations of its subclasses. A machine id stands as a number, and a Python assertion or
-- exception is `none`. A limit of 0 is no limit, as in the source.
pub mod Dummy
pub mod Aws
pub mod Account
pub mod Capacity
pub mod Recount
mod Tests
use Prim.Native.String.{String}
use text.Mathlib.Text.{◌==◌ as str_eq}
use test_looper.Common.{
  ℕ, suc, ◌+◌, ◌-◌, Bool, true, false, ◌&&◌, ◌||◌, Option, none, some, List, [], ◌∷◌, length, leb,
  ◌==◌, if◌then◌else◌, Assoc, get_key, has_key, put_key, del_key,
}

-- Config.HardwareConfig
pub record Hardware : Type 0 where
  pub cores : ℕ
  pub ram_gb : ℕ

pub data OsConfig : Type 0 where
  linux_with_docker windows_with_docker : OsConfig
  windows_vm linux_vm : (ami setup_hash : String) → OsConfig

-- The limits of `config.machine_management`.
pub record Limits : Type 0 where
  pub max_ram_gb : ℕ
  pub max_cores : ℕ
  pub max_workers : ℕ

pub record Machines : Type 0 where
  pub hardware_configs : Assoc Hardware
  pub os_configs : Assoc OsConfig
  pub running_machines : Assoc (Unit {0})
  pub ram_gb_booted : ℕ
  pub cores_booted : ℕ

abbrev pub no_machines : Machines
no_machines = record {
  hardware_configs = [];
  os_configs = [];
  running_machines = [];
  ram_gb_booted = 0;
  cores_booted = 0;
}

unfoldable pub same_hardware : Hardware → Hardware → Bool
same_hardware a b = a.cores == b.cores && a.ram_gb == b.ram_gb

unfoldable pub same_os : OsConfig → OsConfig → Bool
same_os linux_with_docker linux_with_docker = true
same_os windows_with_docker windows_with_docker = true
same_os (windows_vm a h) (windows_vm b k) = str_eq a b && str_eq h k
same_os (linux_vm a h) (linux_vm b k) = str_eq a b && str_eq h k
same_os _ _ = false

-- `used + more <= limit or limit <= 0`
abbrev pub fits : ℕ → ℕ → Bool
fits wanted limit = leb wanted limit || leb limit 0

-- `MachineManagement.canBoot`
unfoldable pub can_boot : Limits → Hardware → Machines → Bool
can_boot limits hardware m =
    fits (m.ram_gb_booted + hardware.ram_gb) limits.max_ram_gb
    && fits (m.cores_booted + hardware.cores) limits.max_cores
    && fits (length m.running_machines + 1) limits.max_workers

-- `_machineBooted` past its assertion
unfoldable pub add_machine : ℕ → Hardware → OsConfig → Machines → Machines
add_machine id hardware os m = record {
  hardware_configs = put_key m.hardware_configs id hardware;
  os_configs = put_key m.os_configs id os;
  running_machines = put_key m.running_machines id tt;
  ram_gb_booted = m.ram_gb_booted + hardware.ram_gb;
  cores_booted = m.cores_booted + hardware.cores;
}

-- `_machineBooted`; `allowed` is what the subclass's `canBoot` says.
unfoldable pub machine_booted : Bool → Bool → ℕ → Hardware → OsConfig → Machines → Option Machines
unfolding add_machine
machine_booted nocheck allowed id hardware os m =
    if nocheck || allowed then some (add_machine id hardware os m) else none

-- `_machineRemoved`: a KeyError where one of the dicts does not have the machine
unfoldable pub machine_removed : ℕ → Machines → Option Machines
machine_removed id m = elim (get_key m.hardware_configs id) [
  | none ↦ none
  | some hardware ↦
      if has_key m.os_configs id && has_key m.running_machines id
      then some (record {
        hardware_configs = del_key m.hardware_configs id;
        os_configs = del_key m.os_configs id;
        running_machines = del_key m.running_machines id;
        ram_gb_booted = m.ram_gb_booted - hardware.ram_gb;
        cores_booted = m.cores_booted - hardware.cores;
      })
      else none
]

unfoldable pub worker_alive : ℕ → Machines → Bool
worker_alive id m = has_key m.running_machines id

-- The ids among `ids` that are not running.
unfoldable pub not_running : List ℕ → Machines → List ℕ
not_running [] m = []
not_running (id ∷ ids) m =
    if has_key m.running_machines id then not_running ids m else id ∷ not_running ids m
