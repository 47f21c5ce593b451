-- ===== src/Machines/Capacity.antt =====
-- `DummyMachineManagement` over any run of operations: the books stay right, the limits are kept,
-- and `synchronize_workers` leaves exactly the known machines.
use test_looper.Common.{
  not, sym, ℕ, suc, ◌+◌, ◌≤◌, ◌≡◌, ◌⊎◌, refl, sym, ap, ◌∙◌, subst, true, false, not, ◌&&◌, ◌||◌,
  inl, inr, some, List, [], ◌∷◌, arith, ◌==◌, if◌then◌else◌, length, elem, Distinct, Assoc, has_key,
  put_key, keys, del_id, elem-del_id, has_key-elem, Bool-cases, ==_refl, ==_ne, ==_iff,
}
use test_looper.Machines.{
  Hardware, OsConfig, Limits, Machines, no_machines, can_boot, add_machine, machine_booted,
  worker_alive, not_running,
}
use test_looper.Machines.Dummy.{
  booted, booted_or_refused, dummy_boot, dummy_terminate, remove_unknown, synchronize_workers,
}
use test_looper.Machines.Account.{
  IsAccounted, no_machines-IsAccounted, add_machine-IsAccounted, Removed, machine_removed_lem,
}

abbrev pub Fits : ℕ → ℕ → Type 0
Fits used limit = (limit ≡ 0) ⊎ (used ≤ limit)

-- What is booted keeps to the limits, of which 0 is none.
pub record IsWithin (limits : Limits) (m : Machines) : Type 0 where
  pub ram : Fits m.ram_gb_booted limits.max_ram_gb
  pub cores : Fits m.cores_booted limits.max_cores
  pub workers : Fits (length (keys m.running_machines)) limits.max_workers

length-keys : {V : Type 0} (d : Assoc V) → length (keys d) ≡ length d
length-keys [] = refl
length-keys ((j, v) ∷ d) = ap suc (length-keys d)

length-put_key : {V : Type 0} (d : Assoc V) (k : ℕ) (v : V) → length (put_key d k v) ≤ length d + 1
length-put_key [] k v = omega arith
length-put_key ((j, w) ∷ d) k v = ground (arith, length-put_key d k v)

length-del_id : (ks : List ℕ) (k : ℕ) → length (del_id ks k) ≤ length ks
length-del_id [] k = omega arith
length-del_id (j ∷ ks) k = ground (arith, length-del_id ks k)

add_machine-IsWithin :
    (limits : Limits) (id : ℕ) (hardware : Hardware) (os : OsConfig) (m : Machines)
    → can_boot limits hardware m ≡ true
    → IsWithin limits (add_machine id hardware os m)
unfolding can_boot add_machine
add_machine-IsWithin limits id hardware os m room = record {
  ram = ground (arith, room);
  cores = ground (arith, room);
  workers = ground (
    arith,
    room,
    length-keys (put_key m.running_machines id tt),
    length-put_key m.running_machines id tt,
  );
}

-- The states that an initially empty manager reaches. Each boot has a new id, as `uuid4` gives.
pub data DummyRuns (limits : Limits) : Machines → Type 0 where
  idle : DummyRuns limits no_machines
  boots :
      {m m' : Machines} (id : ℕ) (hardware : Hardware) (os : OsConfig)
      → DummyRuns limits m
      → has_key m.hardware_configs id ≡ false
      → dummy_boot limits id hardware os m ≡ booted id m'
      → DummyRuns limits m'
  terminates :
      {m m' : Machines} (id : ℕ)
      → DummyRuns limits m
      → dummy_terminate id m ≡ some m'
      → DummyRuns limits m'
  synchronizes :
      {m m' : Machines} (known dead : List ℕ)
      → DummyRuns limits m
      → synchronize_workers known m ≡ some (dead, m')
      → DummyRuns limits m'

dummy_boot_inv :
    (limits : Limits) (id : ℕ) (hardware : Hardware) (os : OsConfig) (m m' : Machines)
    → dummy_boot limits id hardware os m ≡ booted id m'
    → (can_boot limits hardware m ≡ true) × (add_machine id hardware os m ≡ m')
unfolding dummy_boot machine_booted booted_or_refused
dummy_boot_inv limits id hardware os m m' h = ground arith

-- What `synchronize_workers` does to a manager whose books are right.
pub record Pruned (known ids : List ℕ) (m m' : Machines) : Type 0 where
  pub accounted : IsAccounted m'
  pub cores_left : m'.cores_booted ≤ m.cores_booted
  pub ram_left : m'.ram_gb_booted ≤ m.ram_gb_booted
  pub workers_left : length (keys m'.hardware_configs) ≤ length (keys m.hardware_configs)
  pub stays :
      (i : ℕ)
      → elem i (keys m'.hardware_configs)
        ≡ (elem i (keys m.hardware_configs) && (elem i known || not (elem i ids)))

remove_unknown_lem :
    (known ids : List ℕ) (m : Machines)
    → IsAccounted m
    → Distinct ids
    → ((i : ℕ) → elem i ids ≡ true → elem i (keys m.hardware_configs) ≡ true)
    → (m' : Machines) × (remove_unknown known ids m ≡ some m') × Pruned known ids m m'
unfolding remove_unknown
remove_unknown_lem known [] m a d sub = (
  m,
  refl,
  record {
    accounted = a;
    cores_left = omega arith;
    ram_left = omega arith;
    workers_left = omega arith;
    stays = λ i. ground arith;
  },
)
remove_unknown_lem known (id ∷ ids) m a d sub = elim (Bool-cases (elem id known)) [
  | inl kept ↦
      let (m', e, p) = remove_unknown_lem known ids m a d.1 (λ i h. sub i (ground (arith, h))) in
      (
        m',
        ground (arith, kept, e),
        record {
          accounted = p.accounted;
          cores_left = p.cores_left;
          ram_left = p.ram_left;
          workers_left = p.workers_left;
          stays = λ i. elim (Bool-cases (i == id)) [
            | inl same ↦
                let in_known : elem i known ≡ true =
                  subst (λ x. elem x known ≡ true) (sym ((==_iff i id).0 same)) kept in
                ground (arith, same, in_known, p.stays i)
            | inr other ↦ ground (arith, other, p.stays i)
          ];
        },
      )
  | inr gone ↦
      let (m', e, r) = machine_removed_lem id m a (sub id (rw (==_refl id))) in
      let left : (i : ℕ)
          → elem i (keys m'.hardware_configs)
            ≡ (if i == id then false else elem i (keys m.hardware_configs)) =
        λ i. ap (elem i) r.keys_left ∙ elem-del_id (keys m.hardware_configs) id i a.distinct in
      let fresh : (i : ℕ) → elem i ids ≡ true → (i == id) ≡ false =
        λ i h. ==_ne i id (λ e. ground (arith, subst (λ x. elem x ids ≡ true) e h, d.0)) in
      let (m'', e', p) =
        remove_unknown_lem known ids m' r.accounted d.1
          (λ i h. ground (arith, left i, fresh i h, sub i (ground (arith, h)))) in
      (
        m'',
        ground (arith, gone, e, e'),
        record {
          accounted = p.accounted;
          cores_left = omega (arith, p.cores_left, r.cores_left);
          ram_left = omega (arith, p.ram_left, r.ram_left);
          workers_left = omega (
            arith,
            p.workers_left,
            ap length r.keys_left,
            length-del_id (keys m.hardware_configs) id,
          );
          stays = λ i. elim (Bool-cases (i == id)) [
            | inl same ↦
                let unknown : elem i known ≡ false =
                  subst (λ x. elem x known ≡ false) (sym ((==_iff i id).0 same)) gone in
                ground (arith, same, unknown, p.stays i, left i)
            | inr other ↦ ground (arith, other, p.stays i, left i)
          ];
        },
      )
]

IsWithin-less :
    (limits : Limits) (m m' : Machines)
    → IsAccounted m
    → IsAccounted m'
    → m'.cores_booted ≤ m.cores_booted
    → m'.ram_gb_booted ≤ m.ram_gb_booted
    → length (keys m'.hardware_configs) ≤ length (keys m.hardware_configs)
    → IsWithin limits m
    → IsWithin limits m'
IsWithin-less limits m m' a a' cores ram workers w = record {
  ram = omega (arith, w.ram);
  cores = omega (arith, w.cores);
  workers = omega (arith, w.workers, ap length a.running_keys, ap length a'.running_keys);
}

synchronize_workers_lem :
    (known : List ℕ) (m : Machines)
    → IsAccounted m
    → (m' : Machines) × (synchronize_workers known m ≡ some (not_running known m', m'))
      × Pruned known (keys m.running_machines) m m'
unfolding synchronize_workers
synchronize_workers_lem known m a =
    let (m', e, p) =
      remove_unknown_lem known (keys m.running_machines) m a
        (subst Distinct (sym a.running_keys) a.distinct)
        (λ i h. sym (ap (elem i) a.running_keys) ∙ h) in
    (m', ground (arith, e), p)

-- The books and the limits.
pub record IsOrderly (limits : Limits) (m : Machines) : Type 0 where
  pub accounted : IsAccounted m
  pub within : IsWithin limits m

dummy_terminate_inv :
    (id : ℕ) (m m' : Machines) → IsAccounted m → dummy_terminate id m ≡ some m' → Removed id m m'
unfolding dummy_terminate
dummy_terminate_inv id m m' a h = elim (Bool-cases (has_key m.running_machines id)) [
  | inl up ↦
      let known : elem id (keys m.hardware_configs) ≡ true =
        sym (ap (elem id) a.running_keys) ∙ sym (has_key-elem m.running_machines id) ∙ up in
      let (x, e, r) = machine_removed_lem id m a known in
      let same : x ≡ m' = ground (arith, up, e, h) in subst (Removed id m) same r
  | inr down ↦ absurd (ground (arith, down, h))
]

-- In every state that boots with new ids, terminations and synchronizations reach, the booted
-- cores and memory are the sums over the machines that are kept, the three dicts have the same
-- machines, and no limit is passed.
pub DummyRuns-IsOrderly : (limits : Limits) (m : Machines) → DummyRuns limits m → IsOrderly limits m
DummyRuns-IsOrderly limits _ idle = record {
  accounted = no_machines-IsAccounted;
  within = record {
    ram = inr (omega arith);
    cores = inr (omega arith);
    workers = inr (omega arith);
  };
}
DummyRuns-IsOrderly limits m' (boots {m} id hardware os r fresh h) =
    let before = DummyRuns-IsOrderly limits m r in
    let (room, e) = dummy_boot_inv limits id hardware os m m' h in
    subst (IsOrderly limits) e (record {
      accounted = add_machine-IsAccounted id hardware os m fresh before.accounted;
      within = add_machine-IsWithin limits id hardware os m room;
    })
DummyRuns-IsOrderly limits m' (terminates {m} id r h) =
    let before = DummyRuns-IsOrderly limits m r in
    let gone = dummy_terminate_inv id m m' before.accounted h in
    record {
      accounted = gone.accounted;
      within =
          IsWithin-less limits m m' before.accounted gone.accounted gone.cores_left gone.ram_left
            (omega (arith, ap length gone.keys_left, length-del_id (keys m.hardware_configs) id))
            before.within;
    }
DummyRuns-IsOrderly limits m' (synchronizes {m} known dead r h) =
    let before = DummyRuns-IsOrderly limits m r in
    let (x, e, p) = synchronize_workers_lem known m before.accounted in
    let same : x ≡ m' = ground (arith, e, h) in
    subst (IsOrderly limits) same (record {
      accounted = p.accounted;
      within =
          IsWithin-less limits m x before.accounted p.accounted p.cores_left p.ram_left
            p.workers_left before.within;
    })

elem-not_running :
    (ids : List ℕ) (m : Machines) (i : ℕ)
    → elem i (not_running ids m) ≡ (elem i ids && not (elem i (keys m.running_machines)))
unfolding not_running
elem-not_running [] m i = refl
elem-not_running (id ∷ ids) m i =
    let rest = elem-not_running ids m i in
    let key = has_key-elem m.running_machines id in
    elim (Bool-cases (i == id)) [
      | inl same ↦
          let here : elem i (keys m.running_machines) ≡ elem id (keys m.running_machines) =
            ap (λ x. elem x (keys m.running_machines)) ((==_iff i id).0 same) in
          ground (arith, rest, key, same, here)
      | inr other ↦ ground (arith, rest, key, other)
    ]

-- In every state that boots with new ids, terminations and synchronizations reach,
-- `synchronize_workers` does not raise; after it a machine runs exactly if it
-- ran before and is known, and the machines reported dead are exactly the known ones that are not among the
-- running machines then.
pub synchronize_workers-DummyRuns :
    (limits : Limits) (m : Machines) (known : List ℕ)
    → DummyRuns limits m
    → (dead : List ℕ) × (m' : Machines) × (synchronize_workers known m ≡ some (dead, m'))
      × ((i : ℕ) → worker_alive i m' ≡ (elem i (keys m.running_machines) && elem i known))
      × ((i : ℕ) → elem i (keys m'.running_machines) ≡ worker_alive i m')
      × ((i : ℕ) → elem i dead ≡ (elem i known && not (elem i (keys m'.running_machines))))
unfolding worker_alive
synchronize_workers-DummyRuns limits m known r =
    let a = (DummyRuns-IsOrderly limits m r).accounted in
    let (m', e, p) = synchronize_workers_lem known m a in
    (
      not_running known m',
      m',
      e,
      λ i. ground (
        arith,
        p.stays i,
        has_key-elem m'.running_machines i,
        has_key-elem m.running_machines i,
        ap (elem i) p.accounted.running_keys,
        ap (elem i) a.running_keys,
      ),
      λ i. sym (has_key-elem m'.running_machines i),
      λ i. elem-not_running known m' i,
    )
