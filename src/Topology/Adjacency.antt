-- ===== src/Topology/Adjacency.antt =====
-- The adjacency lists of a topology (`Topology.adjacency` of src/domain/topology/models.py).
use topo_forge_ai.Topology.{
  Edge, adjacency, Topology, has_key, append_at, link, link_all, no_neighbours,
}
use topo_forge_ai.Prelude.{
  some, none, [], inl, inr, ◌∷◌, String, List, lookup, Bool, contains, ◌≡◌, ◌==◌, ◌&&◌, String-Eq,
  ◌||◌, arith, not, map, if◌then◌else◌, Option-cases, any, ◌++◌, eq_iff, contains-append, refl,
  dedup, contains-dedup,
}
use mathlib.Core.Option

-- `adjacency[key]`, nothing where the key is missing.
abbrev pub neighbours : String → List (String × List String) → List String
neighbours key m = elim (lookup key m) [ none ↦ [] | some xs ↦ xs ]

-- The link leads from the one node to the other, in either direction.
abbrev pub joins : String → String → Edge → Bool
joins a b e =
    (e.source.node_id == a && e.target.node_id == b)
    || (e.source.node_id == b && e.target.node_id == a)

lookup-append_at :
    (key item k : String) (m : List (String × List String))
    → lookup k (append_at key item m)
      ≡ (if key == k then Option.map (λ xs. xs ++ item ∷ []) (lookup k m) else lookup k m)
lookup-append_at key item k [] = ground arith
lookup-append_at key item k ((j, xs) ∷ m) =
    ground (arith, eq_iff j key, eq_iff key k, eq_iff j k, lookup-append_at key item k m)

has_key-append_at :
    (key item k : String) (m : List (String × List String))
    → has_key k (append_at key item m) ≡ has_key k m
has_key-append_at key item k m = ground (arith, lookup-append_at key item k m)

contains-append_at :
    (key item k b : String) (m : List (String × List String))
    → contains (neighbours k (append_at key item m)) b
      ≡ (contains (neighbours k m) b || (has_key k m && (key == k && item == b)))
contains-append_at key item k b m = elim (Option-cases (lookup k m)) [
  | inl none_there ↦ ground (arith, lookup-append_at key item k m)
  | inr (xs, there) ↦
      ground (arith, lookup-append_at key item k m, contains-append xs (item ∷ []) b)
]

has_key-link :
    (e : Edge) (k : String) (m : List (String × List String)) → has_key k (link e m) ≡ has_key k m
has_key-link e k m =
    let a = e.source.node_id in
    let b = e.target.node_id in
    ground (arith, has_key-append_at a b k m, has_key-append_at b a k (append_at a b m))

abbrev linked : List (String × List String) → String → String → Bool
linked m a b = has_key a m && (has_key b m && not (a == b))

contains-link :
    (e : Edge) (k b : String) (m : List (String × List String))
    → contains (neighbours k (link e m)) b
      ≡ (contains (neighbours k m) b || (linked m k b && joins k b e))
contains-link e k b m =
    let p = e.source.node_id in
    let q = e.target.node_id in
    ground (
      arith,
      contains-append_at q p k b (append_at p q m),
      contains-append_at p q k b m,
      has_key-append_at p q k m,
      eq_iff p k,
      eq_iff q b,
      eq_iff p b,
      eq_iff q k,
      eq_iff p q,
      eq_iff k b,
    )

contains-link_all :
    (es : List Edge) (k b : String) (m : List (String × List String))
    → contains (neighbours k (link_all es m)) b
      ≡ (contains (neighbours k m) b || (linked m k b && any (joins k b) es))
contains-link_all [] k b m = ground arith
contains-link_all (e ∷ es) k b m = ground (
  arith,
  contains-link_all es k b (link e m),
  contains-link e k b m,
  has_key-link e k m,
  has_key-link e b m,
)

has_key-map : (xs : List String) (k : String) → has_key k (map (λ i. (i, [])) xs) ≡ contains xs k
has_key-map [] k = refl
has_key-map (x ∷ xs) k = ground (arith, has_key-map xs k)

neighbours-map : (xs : List String) (k : String) → neighbours k (map (λ i. (i, [])) xs) ≡ []
neighbours-map [] k = refl
neighbours-map (x ∷ xs) k = ground (arith, neighbours-map xs k)

any-joins_comm : (a b : String) (es : List Edge) → any (joins a b) es ≡ any (joins b a) es
any-joins_comm a b [] = refl
any-joins_comm a b (e ∷ es) = ground (arith, any-joins_comm a b es)

abbrev ids_of : Topology → List String
ids_of t = map (λ n. n.id) t.nodes

-- A node is among the neighbours of another exactly when both are nodes of the topology, they
-- differ, and a link joins them, in either direction.
pub contains-adjacency :
    (t : Topology) (a b : String)
    → contains (neighbours a (adjacency t)) b ≡ (
        (contains (map (λ n. n.id) t.nodes) a && contains (map (λ n. n.id) t.nodes) b)
        && (not (a == b) && any (joins a b) t.edges))
unfolding adjacency
contains-adjacency t a b = ground (
  arith,
  contains-link_all t.edges a b (no_neighbours (ids_of t)),
  neighbours-map (dedup (ids_of t)) a,
  has_key-map (dedup (ids_of t)) a,
  has_key-map (dedup (ids_of t)) b,
  contains-dedup (ids_of t) a,
  contains-dedup (ids_of t) b,
)

-- The adjacency lists are symmetric.
pub adjacency_comm :
    (t : Topology) (a b : String)
    → contains (neighbours a (adjacency t)) b ≡ contains (neighbours b (adjacency t)) a
adjacency_comm t a b = ground (
  arith,
  contains-adjacency t a b,
  contains-adjacency t b a,
  any-joins_comm a b t.edges,
  eq_iff a b,
  eq_iff b a,
)
