-- ===== src/Scheduler/Hardware.antt =====
-- Which hardware a test gets in data_model/TestManager.py.
use test_looper.Common.{
  ◌+◌, ◌≤◌, ◌≡◌, ◌≢◌, ◌⊎◌, refl, Bool, true, ◌&&◌, inl, inr, Option, none, some, List, [], ◌∷◌,
  arith, ltb, leb, ◌==◌, if◌then◌else◌, All, All-map, keep, Bool-cases, ==_iff, leb→le, sym, ap,
  subst, ◌∙◌,
}
use test_looper.Machines.{Hardware}
use test_looper.Scheduler.{Summary}
use test_looper.Scheduler.Decisions.{
  last_or, insert_by_cores, sort_by_cores, first_of, hardware_for_test,
}

-- The hardware has what the test asks for.
abbrev pub Fits : Summary → Hardware → Type 0
Fits summary h = (summary.min_cores ≤ h.cores) × (summary.min_ram_gb ≤ h.ram_gb)

abbrev pub fits_test : Summary → Hardware → Bool
fits_test summary h = leb summary.min_cores h.cores && leb summary.min_ram_gb h.ram_gb

abbrev pub OneOf : Hardware → List Hardware → Type 0
OneOf h [] = ⊥
OneOf h (x ∷ xs) = (h ≡ x) ⊎ OneOf h xs

OneOf-All : (hs : List Hardware) → All (λ h. OneOf h hs) hs
OneOf-All [] = tt
OneOf-All (x ∷ xs) = (inl refl, All-map xs (λ h o. inr o) (OneOf-All xs))

keep-All :
    {A : Type 0} (P : A → Type 0) (p : A → Bool) (xs : List A)
    → All P xs
    → All (λ x. P x × (p x ≡ true)) (keep p xs)
keep-All P p [] h = tt
keep-All P p (x ∷ xs) h = elim (Bool-cases (p x)) [
  | inl holds ↦ rw holds ((h.0, holds), keep-All P p xs h.1)
  | inr fails ↦ rw fails (keep-All P p xs h.1)
]

-- What holds of what is kept holds of all that passes.
All-keep :
    {A : Type 0} (P : A → Type 0) (p : A → Bool) (xs : List A)
    → All P (keep p xs)
    → All (λ x. p x ≡ true → P x) xs
All-keep P p [] h = tt
All-keep P p (x ∷ xs) h = elim (Bool-cases (p x)) [
  | inl holds ↦
      let both = subst (λ b. All P (if b then x ∷ keep p xs else keep p xs)) holds h in
      (λ e. both.0, All-keep P p xs both.1)
  | inr fails ↦
      let others = subst (λ b. All P (if b then x ∷ keep p xs else keep p xs)) fails h in
      (λ e. absurd (ground (arith, e, fails)), All-keep P p xs others)
]

insert-All :
    (P : Hardware → Type 0) (h : Hardware) (hs : List Hardware)
    → P h
    → All P hs
    → All P (insert_by_cores h hs)
insert-All P h [] ph phs = (ph, tt)
insert-All P h (x ∷ xs) ph phs = elim (Bool-cases (ltb x.cores h.cores)) [
  | inl less ↦ rw less (phs.0, insert-All P h xs ph phs.1)
  | inr more ↦ rw more (ph, phs)
]

sort-All : (P : Hardware → Type 0) (hs : List Hardware) → All P hs → All P (sort_by_cores hs)
unfolding sort_by_cores
sort-All P [] ph = tt
sort-All P (h ∷ hs) ph = insert-All P h (sort_by_cores hs) ph.0 (sort-All P hs ph.1)

-- The first one of `sorted` has the fewest cores of all.
abbrev Least : List Hardware → List Hardware → Type 0
Least [] hs = hs ≡ []
Least (m ∷ ms) hs = All (λ h. m.cores ≤ h.cores) hs

insert-Least :
    (h : Hardware) (ms hs : List Hardware) → Least ms hs → Least (insert_by_cores h ms) (h ∷ hs)
insert-Least h [] hs l = (omega arith, subst (All (λ x. h.cores ≤ x.cores)) (sym l) tt)
insert-Least h (m ∷ ms) hs l = elim (Bool-cases (ltb m.cores h.cores)) [
  | inl less ↦ rw less (ground (arith, less), l)
  | inr more ↦
      rw more
        (omega arith, All-map hs (λ x (below : m.cores ≤ x.cores). ground (arith, more, below)) l)
]

sort-Least : (hs : List Hardware) → Least (sort_by_cores hs) hs
unfolding sort_by_cores
sort-Least [] = refl
sort-Least (h ∷ hs) = insert-Least h (sort_by_cores hs) hs (sort-Least hs)

first_of-All :
    (P : Hardware → Type 0) (hs : List Hardware) (h : Hardware)
    → All P hs
    → first_of hs ≡ some h
    → P h
first_of-All P [] h ph e = absurd (ground (arith, e))
first_of-All P (x ∷ hs) h ph e = subst P (ground (arith, e)) ph.0

first_of-Least :
    (ms hs : List Hardware) (h : Hardware)
    → Least ms hs
    → first_of ms ≡ some h
    → All (λ x. h.cores ≤ x.cores) hs
first_of-Least [] hs h l e = absurd (ground (arith, e))
first_of-Least (m ∷ ms) hs h l e =
    let same : m ≡ h = ground (arith, e) in
    subst (λ (y : Hardware). All (λ x. y.cores ≤ x.cores) hs) same l

last_or-All :
    {A : Type 0} (P : A → Type 0) (d : A) (xs : List A) → P d → All P xs → P (last_or d xs)
last_or-All P d [] pd ph = pd
last_or-All P d (x ∷ xs) pd ph = last_or-All P x xs ph.0 ph.1

-- What the code promises of the hardware `h` for a test: the machine has it, it fits, and it has the fewest
-- cores of what fits where the test names no maximum; else it stays within the maximum if anything does.
abbrev pub Chosen : List Hardware → Summary → Hardware → Type 0
Chosen configs summary h =
    OneOf h configs
    × (fits_test summary h ≡ true)
    × (summary.max_cores ≡ 0 → All (λ x. fits_test summary x ≡ true → h.cores ≤ x.cores) configs)
    × (summary.max_cores ≢ 0
        → (h.cores ≤ summary.max_cores)
          ⊎ All (λ x. fits_test summary x ≡ true → summary.max_cores + 1 ≤ x.cores) configs)

module _ (configs : List Hardware) (summary : Summary) where
  abbrev Viable : Hardware → Type 0
  Viable h = OneOf h configs × (fits_test summary h ≡ true)

  Viable-All : All Viable (keep (fits_test summary) configs)
  Viable-All = keep-All (λ h. OneOf h configs) (fits_test summary) configs (OneOf-All configs)

  abbrev small_of : Hardware → List Hardware → Option Hardware
  small_of first [] = some first
  small_of first (small ∷ smaller) = some (last_or small smaller)

  abbrev choose : List Hardware → Option Hardware
  choose [] = none
  choose (first ∷ others) =
      if summary.max_cores == 0
      then first_of (sort_by_cores (first ∷ others))
      else small_of first (keep (λ h. leb h.cores summary.max_cores) (first ∷ others))

  small_of-Viable :
      (first : Hardware) (within : List Hardware) (h : Hardware)
      → Viable first
      → All (λ x. Viable x × (leb x.cores summary.max_cores ≡ true)) within
      → small_of first within ≡ some h
      → Viable h × ((h.cores ≤ summary.max_cores) ⊎ (within ≡ []))
  small_of-Viable first [] h ok oks e = (subst Viable (ground (arith, e)) ok, inr refl)
  small_of-Viable first (small ∷ smaller) h ok oks e =
      let last =
        last_or-All (λ x. Viable x × (leb x.cores summary.max_cores ≡ true)) small smaller oks.0
          oks.1 in
      let same : last_or small smaller ≡ h = ground (arith, e) in
      (
        subst Viable same last.0,
        inl (
            subst (λ x. x.cores ≤ summary.max_cores) same
              (leb→le (last_or small smaller).cores summary.max_cores last.1)),
      )

  choose-Chosen :
      (viable : List Hardware) (h : Hardware)
      → All Viable viable
      → ((P : Hardware → Type 0)
          → All P viable
          → All (λ x. fits_test summary x ≡ true → P x) configs)
      → choose viable ≡ some h
      → Chosen configs summary h
  choose-Chosen [] h ok back e = absurd (ground (arith, e))
  choose-Chosen (first ∷ others) h ok back e = elim (Bool-cases (summary.max_cores == 0)) [
    | inl no_maximum ↦
        let found : first_of (sort_by_cores (first ∷ others)) ≡ some h =
          sym (
            ap
              (λ c.
                if c
                then first_of (sort_by_cores (first ∷ others))
                else small_of first (keep (λ h. leb h.cores summary.max_cores) (first ∷ others)))
              no_maximum)
          ∙ e in
        let viable =
          first_of-All Viable (sort_by_cores (first ∷ others)) h
            (sort-All Viable (first ∷ others) ok) found in
        (
          viable.0,
          viable.1,
          λ z.
              back (λ x. h.cores ≤ x.cores)
                (first_of-Least (sort_by_cores (first ∷ others)) (first ∷ others) h
                  (sort-Least (first ∷ others)) found),
          λ nz. absurd (nz ((==_iff summary.max_cores 0).0 no_maximum)),
        )
    | inr maximum ↦
        let within = keep (λ x. leb x.cores summary.max_cores) (first ∷ others) in
        let found : small_of first within ≡ some h =
          sym (
            ap
              (λ c.
                if c
                then first_of (sort_by_cores (first ∷ others))
                else small_of first (keep (λ h. leb h.cores summary.max_cores) (first ∷ others)))
              maximum)
          ∙ e in
        let (viable, bound) =
          small_of-Viable first within h ok.0
            (keep-All Viable (λ x. leb x.cores summary.max_cores) (first ∷ others) ok) found in
        (
          viable.0,
          viable.1,
          λ z. absurd (ground (arith, z, maximum)),
          λ nz. elim bound [
            | inl small ↦ inl small
            | inr nothing ↦ inr (
                back (λ x. summary.max_cores + 1 ≤ x.cores)
                  (All-map (first ∷ others)
                    (λ x (above : leb x.cores summary.max_cores ≡ true → ⊥). beyond x above)
                    (All-keep (λ x. ⊥) (λ x. leb x.cores summary.max_cores) (first ∷ others)
                      (subst (All (λ x. ⊥)) (sym nothing) tt))))
          ],
        )
  ]
    where
      beyond :
          (x : Hardware)
          → (leb x.cores summary.max_cores ≡ true → ⊥)
          → summary.max_cores + 1 ≤ x.cores
      beyond x above = elim (Bool-cases (leb x.cores summary.max_cores)) [
        | inl within ↦ absurd (above within)
        | inr outside ↦ ground (arith, outside)
      ]

-- Where `_machineCategoryPairForTest` finds hardware for a test, it is one of the configurations, and it
-- has the cores and the memory that the test asks for. Where the test names no maximum of cores, no
-- configuration that fits has fewer cores; where it names one, the hardware is within it, or no
-- configuration that fits is.
pub hardware_for_test-Chosen :
    (configs : List Hardware) (summary : Summary) (h : Hardware)
    → hardware_for_test configs summary ≡ some h
    → Chosen configs summary h
unfolding hardware_for_test
hardware_for_test-Chosen configs summary h e =
    choose-Chosen configs summary (keep (fits_test summary) configs) h (Viable-All configs summary)
      (λ P. All-keep P (fits_test summary) configs) (same (keep (fits_test summary) configs) e)
  where
    same :
        (viable : List Hardware)
        → ◌≡◌ {A = Option Hardware}
            (elim viable [
              | [] ↦ none
              | first ∷ others ↦
                  if summary.max_cores == 0
                  then first_of (sort_by_cores (first ∷ others))
                  else elim (keep (λ h. leb h.cores summary.max_cores) (first ∷ others)) [
                    | [] ↦ some first
                    | small ∷ smaller ↦ some (last_or small smaller)
                  ]
            ])
            (some h)
        → choose configs summary viable ≡ some h
    same [] e = e
    same (first ∷ others) e = e
