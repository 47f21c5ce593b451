-- ===== src/Database/Written.antt =====
-- A commit of core/object_database.py seen at one key.
use mathlib.Core.Option
use test_looper.Common.{
  ℕ, suc, ◌≤◌, ◌≡◌, ◌≢◌, sym, subst, Option, none, some, List, [], ◌∷◌, ◌++◌, inl, inr, arith, ◌==◌,
  if◌then◌else◌, Option-cases, Bool-cases, ==_refl, ==_iff, update,
}
use test_looper.Database.Versions.{Entry, best_version_for}
use test_looper.Database.Slots.{
  Slot, wrap, Ascends, Ascends-top, best_none, best_past, best_snoc_old, best_snoc_new, best-le,
  json_at, Shows,
}

Ascends-snoc :
    (m top : ℕ) (vs : List ℕ)
    → m ≤ top
    → Ascends m vs top
    → Ascends m (vs ++ suc top ∷ []) (suc top)
Ascends-snoc m top [] le a = (omega arith, omega arith, tt)
Ascends-snoc m top (v ∷ vs) le a = (a.0, omega (arith, a.1), Ascends-snoc v top vs a.1 a.2)

-- A history with one more time.
abbrev pub later : {J : Type 0} → (ℕ → J) → ℕ → J → ℕ → J
later h top v t = if t == suc top then v else h t

-- The slot of a key that the commit `n` writes; `c` is the parsed object that was cached.
abbrev pub written : {J O : Type 0} → ℕ → Entry J O → Option O → Slot J O → Slot J O
written n e c s = record {
  versions = some (Option.get_or s.versions [] ++ n ∷ []);
  objects = update s.objects n (some e);
  tail = elim s.versions [ none ↦ some (s.now, c) | some _ ↦ s.tail ];
  now = e.0;
}

snoc-ne : (top : ℕ) (vs : List ℕ) → vs ++ suc top ∷ [] ≢ []
snoc-ne top [] h = ground arith
snoc-ne top (w ∷ vs) h = ground arith

module _ {J O : Type 0} (top : ℕ) (e : Entry J O) (c : Option O) where
  written_new :
      (vs : List ℕ) (s : Slot J O)
      → json_at (written (suc top) e c s) (vs ++ suc top ∷ []) (suc top) ≡ some e.0
  written_new [] s = rw (best_snoc_new (suc top) []) (rw (==_refl (suc top)))
  written_new (v ∷ vs) s = rw (best_snoc_new (suc top) (v ∷ vs)) (rw (==_refl (suc top)))

  written_versions :
      (vs : List ℕ) (s : Slot J O)
      → s.versions ≡ wrap vs
      → (written (suc top) e c s).versions ≡ wrap (vs ++ suc top ∷ [])
  written_versions [] s v = rw v
  written_versions (w ∷ vs) s v = rw v

module _ {J O : Type 0} {low top : ℕ} {h : ℕ → Option J} (le : low ≤ top) where
  Shows-still_reads :
      (vs : List ℕ) (s : Slot J O)
      → Shows low top h vs s
      → (t : ℕ) → low ≤ t
      → t ≤ suc top
      → json_at s vs t ≡ some (later h top (h top) t)
  Shows-still_reads [] s sh t lo hi = elim (Bool-cases (t == suc top)) [
    | inl new ↦ rw new (sh.reads top le (omega arith))
    | inr old ↦ rw old (sh.reads t lo (ground (arith, old)))
  ]
  Shows-still_reads (v ∷ vs) s sh t lo hi = elim (Bool-cases (t == suc top)) [
    | inl new ↦
        rw (new, best_past t top low top (v ∷ vs) sh.ascends (ground (arith, new)) (omega arith))
          (sh.reads top le (omega arith))
    | inr old ↦ rw old (sh.reads t lo (ground (arith, old)))
  ]

  -- A key that the commit does not write shows its last value at the new time too.
  pub Shows-still :
      (vs : List ℕ) (s : Slot J O)
      → Shows low top h vs s
      → Shows low (suc top) (later h top (h top)) vs s
  Shows-still vs s sh = record {
    versions = sh.versions;
    no_tail = sh.no_tail;
    latest = rw (==_refl (suc top)) sh.latest;
    ascends = Ascends-top low top (suc top) vs (omega arith) sh.ascends;
    reads = Shows-still_reads vs s sh;
  }

  module _ (e : Entry J O) (c : Option O) where
    written_old :
        (vs : List ℕ) (s : Slot J O)
        → Shows low top h vs s
        → (t : ℕ) → low ≤ t
        → t ≤ top
        → json_at (written (suc top) e c s) (vs ++ suc top ∷ []) t ≡ some (h t)
    written_old [] s sh t lo hi =
        rw (best_snoc_old t (suc top) [] (omega arith), best_none t t top [] tt (omega arith))
          (ground (arith, sh.versions, sh.reads t lo hi))
    written_old (v ∷ vs) s sh t lo hi = elim (Option-cases (best_version_for t (v ∷ vs))) [
      | inl absent ↦
          rw (best_snoc_old t (suc top) (v ∷ vs) (omega arith), absent)
            (ground (arith, sh.versions, absent, sh.reads t lo hi))
      | inr (x, found) ↦
          rw (best_snoc_old t (suc top) (v ∷ vs) (omega arith), found)
            (ground (arith, found, best-le t (v ∷ vs) found, sh.reads t lo hi))
    ]

    Shows-written_reads :
        (vs : List ℕ) (s : Slot J O)
        → Shows low top h vs s
        → (t : ℕ) → low ≤ t
        → t ≤ suc top
        → json_at (written (suc top) e c s) (vs ++ suc top ∷ []) t ≡ some (later h top e.0 t)
    Shows-written_reads vs s sh t lo hi = elim (Bool-cases (t == suc top)) [
      | inl new ↦ rw new (
          subst (λ u. json_at (written (suc top) e c s) (vs ++ suc top ∷ []) u ≡ some e.0)
            (sym ((==_iff t (suc top)).0 new)) (written_new top e c vs s))
      | inr old ↦ rw old (written_old vs s sh t lo (ground (arith, old)))
    ]

    -- A key that the commit writes keeps its history, and shows the new value at the new time.
    pub Shows-written :
        (vs : List ℕ) (s : Slot J O)
        → Shows low top h vs s
        → Shows low (suc top) (later h top e.0) (vs ++ suc top ∷ []) (written (suc top) e c s)
    Shows-written vs s sh = record {
      versions = written_versions top e c vs s sh.versions;
      no_tail = λ empty. absurd (snoc-ne top vs empty);
      latest = rw (==_refl (suc top));
      ascends = Ascends-snoc low top vs le sh.ascends;
      reads = Shows-written_reads vs s sh;
    }
