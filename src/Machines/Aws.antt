-- ===== src/Machines/Aws.antt =====
-- `AwsMachineManagement` of core/machine_management/MachineManagement.py. What the cloud's API
-- answers (the ids of its instances, the listing of images, whether a call fails) is an argument.
use Prim.Native.String.{String}
use test_looper.Common.{
  ℕ, Bool, true, false, not, ◌&&◌, ◌||◌, Option, none, some, List, [], ◌∷◌, if◌then◌else◌, elem,
  Assoc, has_key, keys,
}
use test_looper.Machines.{
  Hardware, OsConfig, windows_vm, Limits, Machines, same_os, can_boot, add_machine, machine_booted,
  machine_removed,
}
use test_looper.Machines.Dummy.{
  Boot, unbootable, refused, booted_or_refused, offers, is_windows_vm, is_linux_docker,
}

-- The statuses that `listWindowsOsConfigs` reports.
pub data AmiStatus : Type 0 where
  in_progress awaiting_snapshot snapshotting failed complete other : AmiStatus

pub record OsConfigs : Type 0 where
  pub available : List OsConfig
  pub being_created : List OsConfig
  pub invalid : List OsConfig

abbrev pub has_os : List OsConfig → OsConfig → Bool
has_os [] os = false
has_os (o ∷ os) x = same_os o x || has_os os x

-- `set.add`
unfoldable pub add_os : OsConfig → List OsConfig → List OsConfig
unfolding same_os
add_os x os = if has_os os x then os else x ∷ os

unfoldable pub file_os : OsConfig → AmiStatus → OsConfigs → OsConfigs
unfolding add_os
file_os os failed s = record s { invalid = add_os os s.invalid }
file_os os complete s = record s { available = add_os os s.available }
file_os os other s = s
file_os os _ s = record s { being_created = add_os os s.being_created }

file_all : List (String × String × AmiStatus) → OsConfigs → OsConfigs
file_all [] s = s
file_all ((ami, hash, status) ∷ listing) s =
    file_all listing (file_os (windows_vm ami hash) status s)

-- `updateOsConfigsAvailable`
unfoldable pub update_os_configs_available : List (String × String × AmiStatus) → OsConfigs
unfolding file_os file_all
update_os_configs_available listing =
    file_all listing (record { available = []; being_created = []; invalid = [] })

-- `canBoot`; `types` are the hardware configurations with an instance type.
unfoldable pub aws_can_boot :
    Limits → List Hardware → OsConfigs → Hardware → OsConfig → Machines → Bool
unfolding can_boot same_os is_windows_vm
aws_can_boot limits types s hardware os m =
    if not (offers types hardware)
    then false
    else if is_windows_vm os && not (has_os s.available os)
    then false
    else can_boot limits hardware m

unfoldable pub wants_to_see_setup_script : OsConfigs → OsConfig → Bool
unfolding same_os is_windows_vm
wants_to_see_setup_script s os =
    if is_windows_vm os
    then (if has_os s.invalid os
        then false
        else if has_os s.available os
        then false
        else not (has_os s.being_created os))
    else false

unfoldable pub is_os_config_invalid : OsConfigs → OsConfig → Bool
unfolding same_os
is_os_config_invalid s os = has_os s.invalid os

-- `ensureOsConfigAvailable`: the new state, and whether the API is asked to create an image
unfoldable pub ensure_os_config_available : OsConfig → OsConfigs → Option (Bool × OsConfigs)
unfolding same_os add_os is_windows_vm
ensure_os_config_available os s =
    if not (is_windows_vm os)
    then none
    else if has_os s.being_created os
    then some (false, s)
    else some (true, record s { being_created = add_os os s.being_created })

-- `terminate_worker`; `api_fails` says whether the API's call raises.
unfoldable pub aws_terminate : Bool → ℕ → Machines → Option Machines
aws_terminate api_fails id m =
    if has_key m.running_machines id
    then (if api_fails then none else machine_removed id m)
    else none

-- `boot_worker`; `id` is what the API returns, none if its call raises.
unfoldable pub aws_boot :
    Limits → List Hardware → OsConfigs → Option ℕ → Hardware → OsConfig → Machines → Boot
unfolding aws_can_boot machine_booted is_windows_vm is_linux_docker booted_or_refused
aws_boot limits types s id hardware os m =
    if not (aws_can_boot limits types s hardware os m)
    then refused
    else if is_linux_docker os || is_windows_vm os
    then elim id [
      | none ↦ refused
      | some id ↦
          booted_or_refused id
            (machine_booted false (aws_can_boot limits types s hardware os m) id hardware os m)
    ]
    else unbootable

-- `for m in machinesThatAppearDead: if m in self.runningMachines: self._machineRemoved(m)`
unfoldable pub remove_dead : List ℕ → List ℕ → Machines → Option Machines
remove_dead active [] m = some m
remove_dead active (id ∷ ids) m = elim (not (elem id active) && has_key m.running_machines id) [
  | false ↦ remove_dead active ids m
  | true ↦ elim (machine_removed id m) [ none ↦ none | some m' ↦ remove_dead active ids m' ]
]

-- `for m in machineIds: if m in activeMachines: self._machineBooted(..., nocheck=True)`
unfoldable pub readopt : List ℕ → Assoc (Hardware × OsConfig) → Machines → Machines
readopt active [] m = m
readopt active ((id, (hardware, os)) ∷ known) m =
    readopt active known (if elem id active then add_machine id hardware os m else m)

-- `[m for m in machineIds if m not in activeMachines]`
unfoldable pub appear_dead : List ℕ → List ℕ → List ℕ
appear_dead active [] = []
appear_dead active (id ∷ ids) =
    if elem id active then appear_dead active ids else id ∷ appear_dead active ids

-- `synchronize_workers`. That the API is asked to terminate what is unknown changes no state here.
unfoldable pub aws_synchronize :
    List ℕ → Assoc (Hardware × OsConfig) → Machines → Option (List ℕ × Machines)
unfolding remove_dead readopt appear_dead
aws_synchronize active known m = elim (remove_dead active (keys known) m) [
  | none ↦ none
  | some m' ↦ some (appear_dead active (keys known), readopt active known m')
]
