-- ===== src/Assembler/Domains.antt =====
-- `_discover_domains` of src/infrastructure/rag/cloud_assembler.py: which router a segment belongs to.
pub mod Partition
use topo_forge_ai.Topology.{Node, is_l3_forwarder}
use topo_forge_ai.Assembler.Segments.{Segment}
use topo_forge_ai.Prelude.{
  [], true, ◌∷◌, List, String, map, ◌++◌, sorted, dedup, if◌then◌else◌, Bool, str_le, ◌==◌, ltb,
  String-Eq, filter, length, contains,
}

-- A dictionary from the id of a router to its segments.
abbrev pub Domains : Type 0
Domains = List (String × List Segment)

abbrev pub routers_of : List Node → List String
routers_of nodes = sorted str_le (map (λ n. n.id) (filter is_l3_forwarder nodes))

-- `{router: [] for router in routers}`
abbrev pub empty_domains : List String → Domains
empty_domains routers = map (λ r. (r, [])) (dedup routers)

-- `domains[owner].append(segment)`
abbrev pub append_segment : String → Segment → Domains → Domains
append_segment owner s [] = []
append_segment owner s ((r, owned) ∷ rest) =
    let later = append_segment owner s rest in
    if r == owner then (r, owned ++ s ∷ []) ∷ rest else (r, owned) ∷ later

-- `sorted(segment.node_ids & set(routers))`
abbrev pub owners_of : List String → Segment → List String
owners_of routers s = sorted str_le (filter (contains routers) s.node_ids)

-- `owners[0] if owners else routers[0]`, with the first router given.
abbrev pub owner_of : List String → String → Segment → String
owner_of routers first s = elim (owners_of routers s) [ [] ↦ first | o ∷ _ ↦ o ]

abbrev pub is_shared : List String → Segment → Bool
is_shared routers s = ltb 1 (length (owners_of routers s))

-- The loop over the segments: a segment of two routers is transport and joins no domain.
unfoldable pub assign_all : List String → String → List Segment → Domains → Domains
assign_all routers first [] domains = domains
assign_all routers first (s ∷ rest) domains =
    let shared = assign_all routers first rest domains in
    let placed =
      assign_all routers first rest (append_segment (owner_of routers first s) s domains) in
    if is_shared routers s then shared else placed

-- The segments as the loop leaves them.
unfoldable pub mark_transport : List String → Segment → Segment
mark_transport routers s =
    let marked = record s { is_transport = true } in if is_shared routers s then marked else s

-- What follows once the routers are known.
unfoldable pub split_domains : List String → List Segment → Domains × List Segment
unfolding assign_all mark_transport
split_domains [] segments = (("__implicit__", segments) ∷ [], segments)
split_domains (first ∷ rest) segments =
    let routers = first ∷ rest in
    (
      assign_all routers first segments (empty_domains routers),
      map (mark_transport routers) segments,
    )

unfoldable pub discover_domains : List Node → List Segment → Domains × List Segment
unfolding split_domains
discover_domains nodes segments = split_domains (routers_of nodes) segments
