-- ===== src/Graph/Tests.antt =====
-- A run of core/GraphUtil.py's search for a cycle, and the theorem at it.
use test_looper.Common.{ℕ, ◌≡◌, refl, true, List, [], ◌∷◌, arith, length, ◌==◌, elem, if◌then◌else◌}
use test_looper.Graph.{cycle, check, graph_find_cycle, graph_find_cycle_multiple_roots}
use test_looper.Graph.Walks.{Answers}
use test_looper.Graph.Cycle.{graph_find_cycle_multiple_roots-Answers}

-- 1 → 2 → 3 → 2
abbrev children : ℕ → List ℕ
children n = if n == 1 then 2 ∷ [] else if n == 2 then 3 ∷ [] else if n == 3 then 2 ∷ [] else []

abbrev nodes : List ℕ
nodes = 1 ∷ 2 ∷ 3 ∷ []

graph_find_cycle_test : graph_find_cycle children 3 1 ≡ cycle (1 ∷ 2 ∷ 3 ∷ 2 ∷ [])
unfolding graph_find_cycle graph_find_cycle_multiple_roots check
graph_find_cycle_test = refl

nodes-closed : (n c : ℕ) → elem n nodes ≡ true → elem c (children n) ≡ true → elem c nodes ≡ true
nodes-closed n c here edge = ground (arith, here, edge)

graph_find_cycle_multiple_roots-Answers_example :
    Answers children (1 ∷ []) (graph_find_cycle_multiple_roots children (length nodes) (1 ∷ []) [])
graph_find_cycle_multiple_roots-Answers_example =
    graph_find_cycle_multiple_roots-Answers children nodes (1 ∷ []) nodes-closed
      (λ n h. ground (arith, h))
