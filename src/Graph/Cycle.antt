-- ===== src/Graph/Cycle.antt =====
-- The search of core/GraphUtil.py ends, and finds no cycle exactly where none is reachable.
use test_looper.Common.{
  ℕ, zero, suc, ◌≤◌, ◌≡◌, refl, subst, true, false, inl, inr, List, [], ◌∷◌, ◌++◌, arith, ◌==◌,
  length, elem, Bool-cases, ==_iff, ==_refl,
}
use test_looper.Graph.{
  Search, cycle, clear, out_of_fuel, check_children, add_node, check,
  graph_find_cycle_multiple_roots,
}
use test_looper.Graph.Walks.{
  Grounded, grounded, AllGrounded, IsWalk, Answers, left_over, left_over_less, IsWalk-snoc,
}

AllGrounded-cons :
    (children : ℕ → List ℕ) (n : ℕ) (ns : List ℕ)
    → Grounded children n
    → AllGrounded children ns
    → AllGrounded children (n ∷ ns)
AllGrounded-cons children n ns g all m h = elim (Bool-cases (n == m)) [
  | inl same ↦ subst (Grounded children) ((==_iff n m).0 same) g
  | inr other ↦ all m (ground (arith, h, other))
]

module _ (children : ℕ → List ℕ) (nodes : List ℕ)
    (closed : (n c : ℕ)
      → elem n nodes ≡ true
      → elem c (children n) ≡ true
      → elem c nodes ≡ true) where
  after_child :
      (go : ℕ → List ℕ → List ℕ → Search) (above : List ℕ) (c : ℕ) (cs : List ℕ) (r : Search)
      → Answers children (c ∷ []) r
      → ((found : List ℕ)
          → AllGrounded children found
          → Answers children cs (check_children go above cs found))
      → Answers children (c ∷ cs) (elim r as (λ x. Search) [
        | cycle path ↦ cycle path
        | clear found ↦ check_children go above cs found
        | out_of_fuel ↦ out_of_fuel
      ])
  after_child go above c cs (cycle path) a rest = a
  after_child go above c cs out_of_fuel a rest = a
  after_child go above c cs (clear found) a rest =
      join (check_children go above cs found) (rest found a.0)
    where
      join : (r : Search) → Answers children cs r → Answers children (c ∷ cs) r
      join (cycle path) b = b
      join out_of_fuel b = b
      join (clear found) b =
          (b.0, AllGrounded-cons children c cs (a.1 c (ground (arith, ==_refl c))) b.1)

  check_children-Answers :
      (go : ℕ → List ℕ → List ℕ → Search) (above : List ℕ) (node : ℕ)
      → elem node nodes ≡ true
      → IsWalk children (above ++ node ∷ [])
      → ((c : ℕ) (found : List ℕ)
          → elem c nodes ≡ true
          → elem c (above ++ node ∷ []) ≡ false
          → IsWalk children ((above ++ node ∷ []) ++ c ∷ [])
          → AllGrounded children found
          → Answers children (c ∷ []) (go c (above ++ node ∷ []) found))
      → (cs found : List ℕ) → ((c : ℕ) → elem c cs ≡ true → elem c (children node) ≡ true)
      → AllGrounded children found
      → Answers children cs (check_children go (above ++ node ∷ []) cs found)
  check_children-Answers go above node here walk spec [] found each g =
      (g, λ n h. absurd (ground (arith, h)))
  check_children-Answers go above node here walk spec (c ∷ cs) found each g =
      let edge : elem c (children node) ≡ true = each c (ground (arith, ==_refl c)) in
      let walks = IsWalk-snoc children above node c walk edge in
      elim (Bool-cases (elem c (above ++ node ∷ []))) [
        | inl met ↦ rw met (record {
          above = above ++ node ∷ [];
          last = c;
          is_path = refl;
          met = met;
          walk = walks;
        })
        | inr new ↦ rw new (
            after_child go (above ++ node ∷ []) c cs (go c (above ++ node ∷ []) found)
              (spec c found (closed node c here edge) new walks g)
              (λ found' g'.
                check_children-Answers go above node here walk spec cs found'
                  (λ d h. each d (ground (arith, h))) g'))
      ]

  add_node-Answers :
      (node : ℕ) (r : Search)
      → Answers children (children node) r
      → Answers children (node ∷ []) (add_node node r)
  add_node-Answers node (cycle path) a = a
  add_node-Answers node out_of_fuel a = a
  add_node-Answers node (clear found) a =
      let g = grounded a.1 in
      (
        AllGrounded-cons children node found g a.0,
        AllGrounded-cons children node [] g (λ n h. absurd (ground (arith, h))),
      )

  check-Answers :
      (fuel node : ℕ) (above found : List ℕ)
      → elem node nodes ≡ true
      → elem node above ≡ false
      → IsWalk children (above ++ node ∷ [])
      → left_over nodes above ≤ fuel
      → AllGrounded children found
      → Answers children (node ∷ []) (check children fuel node above found)
  unfolding check
  check-Answers zero node above found here new walk enough g =
      absurd (omega (arith, enough, left_over_less nodes above node here new))
  check-Answers (suc fuel) node above found here new walk enough g =
      elim (Bool-cases (elem node found)) [
        | inl done ↦
            rw done (
              g,
              AllGrounded-cons children node [] (g node done) (λ n h. absurd (ground (arith, h))),
            )
        | inr todo ↦ rw todo (
            add_node-Answers node
              (check_children (check children fuel) (above ++ node ∷ []) (children node) found)
              (check_children-Answers (check children fuel) above node here walk
                (λ c found' inside fresh walks g'.
                  check-Answers fuel c (above ++ node ∷ []) found' inside fresh walks
                    (omega (arith, enough, left_over_less nodes above node here new)) g')
                (children node) found (λ c h. h) g))
      ]

left_over_nil : (nodes : List ℕ) → left_over nodes [] ≤ length nodes
left_over_nil [] = omega arith
left_over_nil (n ∷ nodes) = omega (arith, left_over_nil nodes)

-- For a graph on finitely many nodes that has all edges among them, as much fuel as nodes lets
-- `graphFindCycleMultipleRoots` end at every list of roots among the nodes. Where it returns a path,
-- the path goes along edges and its last node is met before; where it returns None, no infinite path
-- leads from any root, so that there is no cycle to find.
pub graph_find_cycle_multiple_roots-Answers :
    (children : ℕ → List ℕ) (nodes roots : List ℕ)
    → ((n c : ℕ) → elem n nodes ≡ true → elem c (children n) ≡ true → elem c nodes ≡ true)
    → ((n : ℕ) → elem n roots ≡ true → elem n nodes ≡ true)
    → Answers children roots (graph_find_cycle_multiple_roots children (length nodes) roots [])
unfolding graph_find_cycle_multiple_roots
graph_find_cycle_multiple_roots-Answers children nodes roots closed inside =
    search roots [] inside (λ n h. absurd (ground (arith, h)))
  where
    continue :
        (root : ℕ) (rest : List ℕ) (r : Search)
        → Answers children (root ∷ []) r
        → ((found : List ℕ)
            → AllGrounded children found
            → Answers children rest
                (graph_find_cycle_multiple_roots children (length nodes) rest found))
        → Answers children (root ∷ rest) (elim r as (λ x. Search) [
          | cycle path ↦ cycle path
          | clear found ↦ graph_find_cycle_multiple_roots children (length nodes) rest found
          | out_of_fuel ↦ out_of_fuel
        ])
    continue root rest (cycle path) a next = a
    continue root rest out_of_fuel a next = a
    continue root rest (clear found) a next =
        with_root (graph_find_cycle_multiple_roots children (length nodes) rest found)
          (next found a.0)
      where
        with_root : (r : Search) → Answers children rest r → Answers children (root ∷ rest) r
        with_root (cycle path) b = b
        with_root out_of_fuel b = b
        with_root (clear found) b =
            (b.0, AllGrounded-cons children root rest (a.1 root (ground (arith, ==_refl root))) b.1)

    search :
        (rest found : List ℕ)
        → ((n : ℕ) → elem n rest ≡ true → elem n nodes ≡ true)
        → AllGrounded children found
        → Answers children rest (graph_find_cycle_multiple_roots children (length nodes) rest found)
    search [] found inside g = (g, λ n h. absurd (ground (arith, h)))
    search (root ∷ rest) found inside g =
        continue root rest (check children (length nodes) root [] found)
          (check-Answers children nodes closed (length nodes) root [] found
            (inside root (ground (arith, ==_refl root))) refl tt (left_over_nil nodes) g)
          (λ found' g'. search rest found' (λ n h. inside n (ground (arith, h))) g')
