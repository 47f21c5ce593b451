-- ===== src/Scheduler/Reports.antt =====
-- What runs report to data_model/TestManager.py: the artifacts that they upload, and their results.
use test_looper.Common.{
  ℕ, ◌≡◌, refl, true, inl, inr, Option, some, List, [], ◌∷◌, ◌++◌, arith, ◌==◌, length, take,
  get_elem?, Bool-cases, Option-cases, ==_iff, sym, ap, subst, ◌∙◌,
}
use test_looper.Scheduler.{◌>>=◌}
use test_looper.Scheduler.Running.{same_list, add_artifact, set_artifacts}

-- A report of one artifact, or of all artifacts so far.
pub data Upload : Type 0 where
  one_more : ℕ → Upload
  cumulative : List ℕ → Upload

-- The artifacts of a run after the reports, none where one of them raises.
unfoldable pub uploads : List ℕ → List Upload → List ℕ → Option (List ℕ)
unfolding add_artifact set_artifacts
uploads expected [] completed = some completed
uploads expected (one_more artifact ∷ us) completed =
    add_artifact expected completed artifact >>= uploads expected us
uploads expected (cumulative artifacts ∷ us) completed =
    set_artifacts expected completed artifacts >>= uploads expected us

same_list_eq : (xs ys : List ℕ) → same_list xs ys ≡ true → xs ≡ ys
same_list_eq [] [] h = refl
same_list_eq [] (y ∷ ys) h = absurd (ground (arith, h))
same_list_eq (x ∷ xs) [] h = absurd (ground (arith, h))
same_list_eq (x ∷ xs) (y ∷ ys) h =
    let same : x ≡ y = ground (arith, h) in
    let rest : xs ≡ ys = same_list_eq xs ys (ground (arith, h)) in
    ap (λ z. z ∷ xs) same ∙ ap (λ zs. y ∷ zs) rest

-- The list and one more.
take_next :
    (xs completed : List ℕ) (x : ℕ)
    → get_elem? xs (length completed) ≡ some x
    → completed ≡ take (length completed) xs
    → completed ++ x ∷ [] ≡ take (length (completed ++ x ∷ [])) xs
take_next [] [] x h e = absurd (ground (arith, h))
take_next [] (c ∷ cs) x h e = absurd (ground (arith, h))
take_next (y ∷ xs) [] x h e = ground (arith, h)
take_next (y ∷ xs) (c ∷ cs) x h e =
    let same : c ≡ y = ground (arith, e) in
    let rest : cs ≡ take (length cs) xs = ground (arith, e) in
    ap (λ z. z ∷ (cs ++ x ∷ [])) same ∙ ap (λ zs. y ∷ zs) (take_next xs cs x h rest)

add_artifact-IsPrefix :
    (expected completed : List ℕ) (artifact : ℕ) (r : List ℕ)
    → add_artifact expected completed artifact ≡ some r
    → completed ≡ take (length completed) expected
    → r ≡ take (length r) expected
unfolding add_artifact
add_artifact-IsPrefix expected completed artifact r h e =
    elim (Option-cases (get_elem? expected (length completed))) [
      | inl full ↦ absurd (ground (arith, h, full))
      | inr (next, at) ↦ elim (Bool-cases (artifact == next)) [
        | inl same ↦
            let done : completed ++ artifact ∷ [] ≡ r = ground (arith, h, at, same) in
            subst (λ z. z ≡ take (length z) expected) done
              (take_next expected completed artifact
                (at ∙ ap some (sym ((==_iff artifact next).0 same))) e)
        | inr other ↦ absurd (ground (arith, h, at, other))
      ]
    ]

set_artifacts-IsPrefix :
    (expected completed artifacts r : List ℕ)
    → set_artifacts expected completed artifacts ≡ some r
    → r ≡ take (length r) expected
unfolding set_artifacts
set_artifacts-IsPrefix expected completed artifacts r h =
    let done : artifacts ≡ r = ground (arith, h) in
    let same : same_list artifacts (take (length artifacts) expected) ≡ true = ground (arith, h) in
    subst (λ z. z ≡ take (length z) expected) done
      (same_list_eq artifacts (take (length artifacts) expected) same)

-- Whatever a run reports of its artifacts, one at a time or all so far: where `recordTestArtifactUploaded`
-- raises for none of the reports, the artifacts completed are the first ones of the definition, in order.
pub uploads-IsPrefix :
    (expected : List ℕ) (us : List Upload) (completed r : List ℕ)
    → completed ≡ take (length completed) expected
    → uploads expected us completed ≡ some r
    → r ≡ take (length r) expected
unfolding uploads
uploads-IsPrefix expected [] completed r e h =
    subst (λ z. z ≡ take (length z) expected) (ground (arith, h)) e
uploads-IsPrefix expected (one_more artifact ∷ us) completed r e h =
    elim (Option-cases (add_artifact expected completed artifact)) [
      | inl raised ↦ absurd (ground (arith, h, raised))
      | inr (next, at) ↦
          uploads-IsPrefix expected us next r
            (add_artifact-IsPrefix expected completed artifact next at e)
            (sym (ap (λ m. m >>= uploads expected us) at) ∙ h)
    ]
uploads-IsPrefix expected (cumulative artifacts ∷ us) completed r e h =
    elim (Option-cases (set_artifacts expected completed artifacts)) [
      | inl raised ↦ absurd (ground (arith, h, raised))
      | inr (next, at) ↦
          uploads-IsPrefix expected us next r
            (set_artifacts-IsPrefix expected completed artifacts next at)
            (sym (ap (λ m. m >>= uploads expected us) at) ∙ h)
    ]
