-- ===== src/Graph/Walks.antt =====
-- Walks in a graph, for the search of core/GraphUtil.py: what its answers mean, and the measure by
-- which it ends.
use test_looper.Common.{
  ℕ, suc, ◌≤◌, ◌≡◌, ap, true, false, not, ◌||◌, inl, inr, List, [], ◌∷◌, ◌++◌, arith, ◌==◌, length,
  elem, keep, elem-append, Bool-cases, ==_iff,
}
use test_looper.Graph.{Search, cycle, clear, out_of_fuel}

-- No infinite path leads from the node: all its children are such nodes.
pub data Grounded (children : ℕ → List ℕ) : ℕ → Type 0 where
  grounded :
      {node : ℕ}
      → ((child : ℕ) → elem child (children node) ≡ true → Grounded children child)
      → Grounded children node

abbrev pub AllGrounded : (ℕ → List ℕ) → List ℕ → Type 0
AllGrounded children nodes = (n : ℕ) → elem n nodes ≡ true → Grounded children n

-- A walk along the edges, from its first node to its last.
abbrev pub IsWalk : (ℕ → List ℕ) → List ℕ → Type 0
IsWalk children [] = Unit
IsWalk children (n ∷ []) = Unit
IsWalk children (n ∷ m ∷ ns) = (elem m (children n) ≡ true) × IsWalk children (m ∷ ns)

-- A walk whose last node is met before.
pub record Closed (children : ℕ → List ℕ) (path : List ℕ) : Type 0 where
  pub above : List ℕ
  pub last : ℕ
  pub is_path : path ≡ above ++ last ∷ []
  pub met : elem last above ≡ true
  pub walk : IsWalk children path

-- What a search that does not run out of fuel is to say of the nodes that it was asked about.
abbrev pub Answers : (ℕ → List ℕ) → List ℕ → Search → Type 0
Answers children asked (cycle path) = Closed children path
Answers children asked (clear found) = AllGrounded children found × AllGrounded children asked
Answers children asked out_of_fuel = ⊥

-- The nodes of the graph that are not above.
abbrev pub left_over : List ℕ → List ℕ → ℕ
left_over nodes above = length (keep (λ n. not (elem n above)) nodes)

pub elem-snoc :
    (n : ℕ) (above : List ℕ) (x : ℕ) → elem n (above ++ x ∷ []) ≡ (elem n above || elem n (x ∷ []))
elem-snoc n above x = elem-append n above (x ∷ [])

pub left_over_le :
    (nodes above : List ℕ) (x : ℕ) → left_over nodes (above ++ x ∷ []) ≤ left_over nodes above
left_over_le [] above x = omega arith
left_over_le (n ∷ nodes) above x = ground (arith, left_over_le nodes above x, elem-snoc n above x)

pub left_over_less :
    (nodes above : List ℕ) (x : ℕ)
    → elem x nodes ≡ true
    → elem x above ≡ false
    → suc (left_over nodes (above ++ x ∷ [])) ≤ left_over nodes above
left_over_less [] above x h new = absurd (ground (arith, h))
left_over_less (n ∷ nodes) above x h new = elim (Bool-cases (x == n)) [
  | inl same ↦ ground (
    arith,
    new,
    left_over_le nodes above x,
    elem-snoc n above x,
    same,
    ap (λ y. elem y above) ((==_iff x n).0 same),
  )
  | inr other ↦ ground (
    arith,
    left_over_less nodes above x (ground (arith, h, other)) new,
    elem-snoc n above x,
    other,
  )
]

pub IsWalk-snoc :
    (children : ℕ → List ℕ) (above : List ℕ) (node x : ℕ)
    → IsWalk children (above ++ node ∷ [])
    → elem x (children node) ≡ true
    → IsWalk children ((above ++ node ∷ []) ++ x ∷ [])
IsWalk-snoc children [] node x w e = (e, tt)
IsWalk-snoc children (a ∷ []) node x w e = (w.0, (e, tt))
IsWalk-snoc children (a ∷ b ∷ above) node x w e =
    (w.0, IsWalk-snoc children (b ∷ above) node x w.1 e)
