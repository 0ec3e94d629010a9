-- ===== src/Topology/Components.antt =====
-- The connected components of a topology (`Topology.connected_components` of
-- src/domain/topology/models.py): a breadth first search from each node that no search has seen. The
-- sets `seen` and `component` are lists, and the inner loop runs on fuel.
pub mod Flood
pub mod Partition
use topo_forge_ai.Topology.Adjacency.{neighbours}
use topo_forge_ai.Topology.{Topology, no_neighbours, adjacency}
use topo_forge_ai.Prelude.{
  some, none, [], zero, suc, ◌∷◌, List, String, ℕ, Option, ◌++◌, if◌then◌else◌, contains, dedup,
  Bool, map, leb, String-Eq, length,
}

-- The round over the neighbours of one node: what is not seen is marked and queued.
abbrev pub visit : List String → List String → List String → List String × List String
visit [] seen queue = (seen, queue)
visit (n ∷ ns) seen queue =
    let known = visit ns seen queue in
    let fresh = visit ns (n ∷ seen) (queue ++ n ∷ []) in if contains seen n then known else fresh

-- `component.add(current)`
abbrev pub add : String → List String → List String
add x xs = if contains xs x then xs else x ∷ xs

-- One search, from its queue: what is seen behind it, and the component. None if the fuel is spent.
unfoldable pub flood :
    (String → List String)
    → ℕ
    → List String
    → List String
    → List String
    → Option (List String × List String)
flood next fuel seen component [] = some (seen, component)
flood next zero seen component (current ∷ queue) = none
flood next (suc fuel) seen component (current ∷ queue) =
    let round = visit (next current) seen queue in
    flood next fuel round.0 (add current component) round.1

unfoldable pub components_from :
    (String → List String) → ℕ → List String → List String → Option (List (List String))
unfolding flood
components_from next fuel seen [] = some []
components_from next fuel seen (start ∷ starts) =
    let known = components_from next fuel seen starts in
    let found : Option (List (List String)) =
      elim (flood next fuel (start ∷ seen) [] (start ∷ [])) [
        | none ↦ none
        | some searched ↦ elim (components_from next fuel searched.0 starts) [
          | none ↦ none
          | some later ↦ some (searched.1 ∷ later)
        ]
      ] in
    if contains seen start then known else found

-- Each id is queued once, so as many rounds as there are ids are enough.
unfoldable pub connected_components : Topology → Option (List (List String))
unfolding components_from
connected_components t =
    let ids = dedup (map (λ n. n.id) t.nodes) in
    components_from (λ a. neighbours a (adjacency t)) (length ids) [] ids

unfoldable pub is_connected : Topology → Option Bool
unfolding connected_components
is_connected t = elim (connected_components t) [
  | none ↦ none
  | some components ↦ some (leb (length components) 1)
]
