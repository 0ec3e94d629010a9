-- ===== src/Topology/Components/Partition.antt =====
-- The components of a topology are its classes of nodes that links connect
-- (`Topology.connected_components` of src/domain/topology/models.py).
use topo_forge_ai.Topology.Adjacency.{neighbours, contains-adjacency, adjacency_comm}
use topo_forge_ai.Topology.{Topology, adjacency}
use topo_forge_ai.Workflow.Spec.Reachability.{Reach, step, here}
use topo_forge_ai.Topology.Components.{components_from, connected_components}
use topo_forge_ai.Topology.Components.Flood.{IsSearching, flood-IsSearching, unseen-cons}
use topo_forge_ai.Prelude.{
  refl, some, [], true, false, inl, inr, ◌∷◌, String, List, contains, ◌≡◌, In, ℕ, All, String-Eq,
  arith, Bool-cases, ◌↔◌, length, ◌≤◌, eq_iff, filter, ◌==◌, ◌∙◌, length-filter-le, not, map, dedup,
  contains-dedup, subst,
}

-- A component is all that one of its nodes reaches.
abbrev pub IsClass : (String → List String) → List String → Type 0
IsClass next c = (a : String) × In a c × ((x : String) → (contains c x ≡ true) ↔ Reach next a x)

-- How many of the components have a node.
abbrev pub occurrences : String → List (List String) → ℕ
occurrences x cs = length (filter (λ c. contains c x) cs)

module _ (next : String → List String) (ids : List String)
    (next_in : (a x : String) → contains (next a) x ≡ true → contains ids x ≡ true)
    (next_comm : (a b : String) → contains (next a) b ≡ contains (next b) a) where
  -- What is seen has all its neighbours seen.
  abbrev IsClosed : List String → Type 0
  IsClosed seen =
      (a x : String) → contains seen a ≡ true → contains (next a) x ≡ true → contains seen x ≡ true

  start-IsSearching :
      (base : List String) (start : String)
      → contains base start ≡ false
      → IsSearching next ids next_in base start (start ∷ base) [] (start ∷ [])
  start-IsSearching base start new = record {
    seen_is = λ x. ground arith;
    begun = ground (arith, eq_iff start start);
    apart = λ x m. elim (Bool-cases (start == x)) [
      | inl same ↦ absurd (cc ((eq_iff start x).0 same, new, m))
      | inr other ↦ ground arith
    ];
    closed = λ a x m n. absurd (cc);
    sound = λ x m. rw (← (eq_iff start x).0 (ground arith)) here;
  }

  -- A finished search has found all that `start` reaches.
  found_all :
      (base : List String) (start : String) (s c : List String)
      → IsClosed base
      → IsSearching next ids next_in base start s c []
      → {x : String} → Reach next start x
      → contains c x ≡ true
  found_all base start s c shut h here = ground (arith, h.begun)
  found_all base start s c shut h (step {u} {v} r edge) =
      let inside = found_all base start s c shut h r in
      elim (Bool-cases (contains base v)) [
        | inl old ↦
            let back : contains base u ≡ true = shut v u old (next_comm v u ∙ edge) in
            ground (arith, h.apart u back)
        | inr new ↦ ground (arith, h.seen_is v, h.closed u v inside edge)
      ]

  IsClosed-after :
      (base : List String) (start : String) (s c : List String)
      → IsClosed base
      → IsSearching next ids next_in base start s c []
      → IsClosed s
  IsClosed-after base start s c shut h a x m n = elim (Bool-cases (contains base a)) [
    | inl old ↦ ground (arith, h.seen_is x, shut a x old n)
    | inr new ↦ h.closed a x (ground (arith, h.seen_is a)) n
  ]

  -- What the loop returns from a set of seen nodes on.
  pub record IsPartition (seen starts : List String) (cs : List (List String)) : Type 0 where
    pub classes : All (IsClass next) cs
    pub at_most : (x : String) → occurrences x cs ≤ 1
    pub old : (x : String) → contains seen x ≡ true → occurrences x cs ≡ 0
    pub new :
        (x : String) → contains starts x ≡ true → contains seen x ≡ false → occurrences x cs ≡ 1

  -- A search and then the rest of the loop.
  step-IsPartition :
      (seen : List String) (start : String) (starts s c : List String) (cs : List (List String))
      → IsClosed seen
      → IsSearching next ids next_in seen start s c []
      → IsPartition s starts cs
      → IsPartition seen (start ∷ starts) (c ∷ cs)
  step-IsPartition seen start starts s c cs shut h k = record {
    classes = (
      (
        start,
        ground (arith, h.begun),
        λ x. (λ m. h.sound x (ground arith), λ r. found_all seen start s c shut h r),
      ),
      k.classes,
    );
    at_most = λ x. ground (arith, k.at_most x, k.old x, h.seen_is x);
    old = λ x m. ground (arith, k.old x, h.seen_is x, h.apart x m);
    new = λ x m n. elim (Bool-cases (start == x)) [
      | inl same ↦
          let first : contains c start ≡ true = ground (arith, h.begun) in
          let member : contains c x ≡ true =
            subst (λ y. contains c y ≡ true) ((eq_iff start x).0 same) first in
          ground (arith, k.old x, h.seen_is x)
      | inr other ↦ ground (arith, k.new x, k.old x, h.seen_is x)
    ];
  }

  components_from-IsPartition :
      (seen starts : List String)
      → IsClosed seen
      → ((x : String) → contains starts x ≡ true → contains ids x ≡ true)
      → (cs : List (List String)) × (components_from next (length ids) seen starts ≡ some cs)
        × IsPartition seen starts cs
  unfolding components_from
  components_from-IsPartition seen [] shut within = (
    [],
    refl,
    record {
      classes = tt;
      at_most = λ x. omega arith;
      old = λ x m. refl;
      new = λ x m n. absurd (cc);
    },
  )
  components_from-IsPartition seen (start ∷ starts) shut within =
      elim (Bool-cases (contains seen start)) [
        | inl known ↦
            let (cs, eq, h) =
              components_from-IsPartition seen starts shut (λ x m. within x (ground arith)) in
            (
              cs,
              rw known eq,
              record {
                classes = h.classes;
                at_most = h.at_most;
                old = h.old;
                new = λ x m n. elim (Bool-cases (start == x)) [
                  | inl same ↦ absurd (cc ((eq_iff start x).0 same, known, n))
                  | inr other ↦ h.new x (ground arith) n
                ];
              },
            )
        | inr fresh ↦
            let in_ids = within start (ground (arith, eq_iff start start)) in
            let (s, c, eq, h) =
              flood-IsSearching next ids next_in seen start (length ids) (start ∷ seen) []
                (start ∷ [])
                (omega (
                  arith,
                  (unseen-cons start seen ids).1 in_ids fresh,
                  length-filter-le (λ i. not (contains seen i)) ids,
                ))
                (start-IsSearching seen start fresh) in
            let (cs, eq', k) =
              components_from-IsPartition s starts (IsClosed-after seen start s c shut h)
                (λ x m. within x (ground arith)) in
            (c ∷ cs, rw (fresh, eq, eq') refl, step-IsPartition seen start starts s c cs shut h k)
      ]

-- The search ends within the fuel, and its components are a partition of the nodes: each of them is
-- all that one of its nodes reaches, and each node of the topology is in exactly one of them.
pub connected_components-partition :
    (t : Topology)
    → (cs : List (List String)) × (connected_components t ≡ some cs)
      × All (IsClass (λ a. neighbours a (adjacency t))) cs
      × ((x : String)
          → contains (map (λ n. n.id) t.nodes) x ≡ true
          → length (filter (λ c. contains c x) cs) ≡ 1)
unfolding connected_components
connected_components-partition t =
    let ids = dedup (map (λ n. n.id) t.nodes) in
    let (cs, eq, h) =
      components_from-IsPartition (λ a. neighbours a (adjacency t)) ids
        (λ a x m.
          ground (arith, contains-adjacency t a x, contains-dedup (map (λ n. n.id) t.nodes) x))
        (adjacency_comm t) [] ids (λ a x m. absurd (cc)) (λ x m. m) in
    (cs, eq, h.classes, λ x m. h.new x (contains-dedup (map (λ n. n.id) t.nodes) x ∙ m) refl)
