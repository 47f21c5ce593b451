-- ===== src/Graph.antt =====
-- core/GraphUtil.py: the search for a cycle. A node is a number. The search recurses to a depth that
-- the fuel bounds; the number of nodes is enough of it (Graph/Cycle).
pub mod Walks
pub mod Cycle
mod Tests
use test_looper.Common.{ℕ, zero, suc, Bool, true, false, List, [], ◌∷◌, ◌++◌, if◌then◌else◌, elem}

pub data Search : Type 0 where
  -- a cycle: `above + (child,)`
  cycle : List ℕ → Search
  -- None, with the set `not_circular`
  clear : List ℕ → Search
  out_of_fuel : Search

-- The loop of `check` over the children.
abbrev pub check_children : (ℕ → List ℕ → List ℕ → Search) → List ℕ → List ℕ → List ℕ → Search
check_children check above [] not_circular = clear not_circular
check_children check above (child ∷ children) not_circular =
    if elem child above
    then cycle (above ++ child ∷ [])
    else elim (check child above not_circular) [
      | cycle path ↦ cycle path
      | clear not_circular' ↦ check_children check above children not_circular'
      | out_of_fuel ↦ out_of_fuel
    ]

abbrev pub add_node : ℕ → Search → Search
add_node node (cycle path) = cycle path
add_node node (clear not_circular) = clear (node ∷ not_circular)
add_node node out_of_fuel = out_of_fuel

-- `check`
unfoldable pub check : (ℕ → List ℕ) → ℕ → ℕ → List ℕ → List ℕ → Search
check children zero node above not_circular = out_of_fuel
check children (suc fuel) node above not_circular =
    if elem node not_circular
    then clear not_circular
    else add_node node
        (check_children (check children fuel) (above ++ node ∷ []) (children node) not_circular)

-- `graphFindCycleMultipleRoots`
unfoldable pub graph_find_cycle_multiple_roots : (ℕ → List ℕ) → ℕ → List ℕ → List ℕ → Search
unfolding check
graph_find_cycle_multiple_roots children fuel [] not_circular = clear not_circular
graph_find_cycle_multiple_roots children fuel (root ∷ roots) not_circular =
    elim (check children fuel root [] not_circular) [
      | cycle path ↦ cycle path
      | clear not_circular' ↦ graph_find_cycle_multiple_roots children fuel roots not_circular'
      | out_of_fuel ↦ out_of_fuel
    ]

-- `graphFindCycle`
unfoldable pub graph_find_cycle : (ℕ → List ℕ) → ℕ → ℕ → Search
unfolding graph_find_cycle_multiple_roots
graph_find_cycle children fuel root = graph_find_cycle_multiple_roots children fuel (root ∷ []) []
