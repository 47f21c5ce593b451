-- ===== src/Database/Counts.antt =====
-- The reference counts of core/object_database.py's `Database`: `_min_reffed_version_number` is
-- the least version that a view refers to, and every such version can be read.
use test_looper.Common.{
  ℕ, zero, suc, ◌+◌, ◌≤◌, ◌<◌, ◌≡◌, ◌≢◌, refl, sym, ap, ◌∙◌, subst, Option, none, some, List, [],
  ◌∷◌, inl, inr, arith, leb, ◌==◌, if◌then◌else◌, Option-cases, Bool-cases, ==_iff, All, All-map,
}
use test_looper.KvStore.{KvStore}
use test_looper.Database.Versions.{
  Db, count_of, set_count, del_count, min_with, min_key, incversion, decversion, drop_version,
}

abbrev Counts : Type 0
Counts = List (ℕ × ℕ)

min_key-set_new :
    (t m : ℕ) (cs : Counts)
    → count_of cs t ≡ none
    → min_key (set_count cs t m) ≡ min_with t (min_key cs)
min_key-set_new t m [] h = refl
min_key-set_new t m ((u, n) ∷ cs) h = elim (Bool-cases (u == t)) [
  | inl e ↦ ground (arith, e, h)
  | inr e ↦ ground (arith, e, min_key-set_new t m cs (ground (arith, e, h)))
]

min_key-set_old :
    (t n m : ℕ) (cs : Counts) → count_of cs t ≡ some n → min_key (set_count cs t m) ≡ min_key cs
min_key-set_old t n m [] h = ground arith
min_key-set_old t n m ((u, k) ∷ cs) h = elim (Bool-cases (u == t)) [
  | inl e ↦ rw e
  | inr e ↦ rw e (ap (min_with u) (min_key-set_old t n m cs (ground (arith, e, h))))
]

min_key-le : (t n m : ℕ) (cs : Counts) → count_of cs t ≡ some n → min_key cs ≡ some m → m ≤ t
min_key-le t n m [] h k = ground arith
min_key-le t n m ((u, c) ∷ cs) h k = elim (Option-cases (min_key cs)) [
  | inl e ↦ ground (arith, e, none_of cs e)
  | inr (m', e) ↦ ground (arith, e, min_key-le t n m' cs)
]
  where
    none_of : (ds : Counts) → min_key ds ≡ none → count_of ds t ≡ none
    none_of [] e = refl
    none_of ((v, d) ∷ ds) e = ground arith

min_key-some : (c : ℕ × ℕ) (cs : Counts) → (m : ℕ) × (min_key (c ∷ cs) ≡ some m)
min_key-some (u, n) cs = elim (Option-cases (min_key cs)) [
  | inl e ↦ (u, rw e)
  | inr (m, e) ↦ (if leb u m then u else m, rw e)
]

module _ {ℓ} (P : ℕ × ℕ → Type ℓ) where
  All-set_count : (t m : ℕ) (cs : Counts) → P (t, m) → All P cs → All P (set_count cs t m)
  All-set_count t m [] p h = (p, tt)
  All-set_count t m ((u, n) ∷ cs) p h = elim (Bool-cases (u == t)) [
    | inl e ↦ rw e (subst (λ x. P (x, m)) (sym ((==_iff u t).0 e)) p, h.1)
    | inr e ↦ rw e (h.0, All-set_count t m cs p h.1)
  ]

  All-del_count : (t : ℕ) (cs : Counts) → All P cs → All P (del_count cs t)
  All-del_count t [] h = tt
  All-del_count t ((u, n) ∷ cs) h = elim (Bool-cases (u == t)) [
    | inl e ↦ rw e h.1
    | inr e ↦ rw e (h.0, All-del_count t cs h.1)
  ]

  pub All-count_of : (t n : ℕ) (cs : Counts) → count_of cs t ≡ some n → All P cs → P (t, n)
  All-count_of t n [] h a = ground arith
  All-count_of t n ((u, m) ∷ cs) h a = elim (Bool-cases (u == t)) [
    | inl e ↦
        let same : m ≡ n = ground (arith, e, h) in
        subst (λ x. P (x, n)) ((==_iff u t).0 e) (subst (λ x. P (u, x)) same a.0)
    | inr e ↦ All-count_of t n cs (ground (arith, e, h)) a.1
  ]

pub min_key-All : (m : ℕ) (cs : Counts) → min_key cs ≡ some m → All (λ c. m ≤ c.0) cs
min_key-All m [] h = tt
min_key-All m ((u, n) ∷ []) h = (ground arith, tt)
min_key-All m ((u, n) ∷ d ∷ cs) h =
    let (m', e) = min_key-some d cs in
    let both : min_with u (some m') ≡ some m = subst (λ o. min_with u o ≡ some m) e h in
    (
      ground (arith, both),
      All-map (d ∷ cs) (λ x le. ground (arith, both, le)) (min_key-All m' (d ∷ cs) e),
    )

min_with-below : (u : ℕ) (cs : Counts) → All (λ c. u ≤ c.0) cs → min_with u (min_key cs) ≡ some u
min_with-below u [] h = refl
min_with-below u ((v, n) ∷ cs) h =
    let rest = min_with-below u cs h.1 in
    elim (Option-cases (min_key cs)) [
      | inl e ↦ rw e (ground (arith, h.0))
      | inr (k, e) ↦
          let low : min_with u (some k) ≡ some u = subst (λ o. min_with u o ≡ some u) e rest in
          rw e (ground (arith, h.0, low))
    ]

min_key-del :
    (t m : ℕ) (cs : Counts) → min_key cs ≡ some m → t ≢ m → min_key (del_count cs t) ≡ some m
min_key-del t m [] h ne = h
min_key-del t m ((u, c) ∷ []) h ne = ground arith
min_key-del t m ((u, c) ∷ d ∷ cs) h ne =
    let (m', e) = min_key-some d cs in
    let both : min_with u (some m') ≡ some m = subst (λ o. min_with u o ≡ some m) e h in
    elim (Bool-cases (u == t)) [
      | inl at ↦ rw at (ground (arith, e, both, at))
      | inr off ↦ elim (Bool-cases (t == m')) [
        | inl low ↦ rw off (
            ground (
              arith,
              both,
              low,
              min_with-below u (del_count (d ∷ cs) t) (
                  All-del_count (λ x. u ≤ x.0) t (d ∷ cs)
                    (All-map (d ∷ cs) (λ x le. ground (arith, both, low, le))
                      (min_key-All m' (d ∷ cs) e))),
            ))
        | inr high ↦
            rw off (ap (min_with u) (min_key-del t m' (d ∷ cs) e (ground (arith, high))) ∙ both)
      ]
    ]

min_key-del_none : (t : ℕ) (cs : Counts) → min_key cs ≡ none → min_key (del_count cs t) ≡ none
min_key-del_none t [] h = refl
min_key-del_none t (c ∷ cs) h = let (m, e) = min_key-some c cs in ground (arith, e, h)

abbrev pub InRange : ℕ → ℕ → ℕ × ℕ → Type 0
InRange low top c = (low ≤ c.0) × (c.0 ≤ top) × (0 < c.1)

module _ {J O : Type 0} {kv : KvStore J} where
  pub record IsCounted (db : Db O kv) : Type 0 where
    pub least : db.min_reffed ≡ min_key db.counts
    pub in_range : All (InRange db.min db.cur) db.counts

  pub incversion-IsCounted :
      (t : ℕ) (db : Db O kv) → IsCounted db → db.min ≤ t → t ≤ db.cur → IsCounted (incversion t db)
  unfolding incversion
  incversion-IsCounted t db c lo hi = elim (Option-cases (count_of db.counts t)) [
    | inl new ↦
        rw (new, incversion)
          (record {
            least = ap (min_with t) c.least ∙ sym (min_key-set_new t 1 db.counts new);
            in_range =
                All-set_count (InRange db.min db.cur) t 1 db.counts (lo, hi, omega arith)
                  c.in_range;
          })
    | inr (n, old) ↦
        rw (old, incversion)
          (record {
            least = c.least ∙ sym (min_key-set_old t n (n + 1) db.counts old);
            in_range =
                All-set_count (InRange db.min db.cur) t (n + 1) db.counts (lo, hi, omega arith)
                  c.in_range;
          })
  ]

  abbrev pub recount : Counts → Option ℕ → Db O kv → Db O kv
  recount counts least db = record db { counts = counts; min_reffed = least }

  drop_version-least :
      (t n : ℕ) (db : Db O kv)
      → IsCounted db
      → count_of db.counts t ≡ some n
      → (drop_version t db).min_reffed ≡ min_key (del_count db.counts t)
  unfolding drop_version
  drop_version-least t n db c at = elim (Option-cases db.min_reffed) [
    | inl absent ↦
        ground (arith, absent, c.least, min_key-del_none t db.counts (sym c.least ∙ absent))
    | inr (m, least) ↦ elim (Bool-cases (t == m)) [
      | inl same ↦ ground (arith, least, same)
      | inr other ↦ ground (
        arith,
        least,
        other,
        min_key-del t m db.counts (sym c.least ∙ least) (ground (arith, other)),
      )
    ]
  ]

  -- Dropping a reference that is held succeeds, and changes the counts alone.
  pub decversion_lem :
      (t n : ℕ) (db : Db O kv)
      → IsCounted db
      → count_of db.counts t ≡ some n
      → (counts : Counts) × (least : Option ℕ) × (decversion t db ≡ some (recount counts least db))
        × IsCounted (recount counts least db)
  unfolding decversion
  decversion_lem t zero db c at =
      absurd (omega (arith, All-count_of (InRange db.min db.cur) t zero db.counts at c.in_range))
  decversion_lem t (suc n) db c at = elim (Bool-cases (n == 0)) [
    | inl last ↦ (
      (drop_version t db).counts,
      (drop_version t db).min_reffed,
      rw (at, decversion) (rw last (unfold drop_version in refl)),
      record {
        least = drop_version-least t (suc n) db c at;
        in_range = All-del_count (InRange db.min db.cur) t db.counts c.in_range;
      },
    )
    | inr more ↦ (
      set_count db.counts t n,
      db.min_reffed,
      rw (at, decversion) (rw more refl),
      record {
        least = c.least ∙ sym (min_key-set_old t (suc n) n db.counts at);
        in_range =
            All-set_count (InRange db.min db.cur) t n db.counts
              (ground (
                arith,
                more,
                All-count_of (InRange db.min db.cur) t (suc n) db.counts at c.in_range,
              ))
              c.in_range;
      },
    )
  ]
