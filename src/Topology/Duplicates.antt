-- ===== src/Topology/Duplicates.antt =====
-- Links between the same two devices (`duplicate_edge_keys` of src/domain/topology/models.py).
use topo_forge_ai.Topology.Adjacency.{joins}
use topo_forge_ai.Topology.{
  Pair-Eq, unordered_key, duplicate_edge_keys, Edge, Topology, count_key, count_edges, pair_agrees,
}
use topo_forge_ai.Prelude.{
  refl, some, none, [], true, false, inl, inr, suc, ◌∷◌, List, String, ℕ, map, contains, distinct,
  lookup, str_le, ◌≡◌, ◌||◌, arith, filter, length, if◌then◌else◌, ◌+◌, ◌==◌, ltb, Bool-cases,
  subst, codes-injective, sym, lex_le_antisymm, eq_iff, codes,
}

abbrev keys : List ((String × String) × ℕ) → List (String × String)
keys = map (λ entry. entry.0)

contains-count_key :
    (k j : String × String) (m : List ((String × String) × ℕ))
    → contains (keys (count_key k m)) j ≡ (contains (keys m) j || k == j)
contains-count_key k j [] = ground arith
contains-count_key k j ((i, n) ∷ m) =
    ground (arith, contains-count_key k j m, pair_agrees i k, pair_agrees i j, pair_agrees k j)

distinct-count_key :
    (k : String × String) (m : List ((String × String) × ℕ))
    → distinct (keys m) ≡ true
    → distinct (keys (count_key k m)) ≡ true
distinct-count_key k [] h = refl
distinct-count_key k ((i, n) ∷ m) h =
    ground
      (arith, distinct-count_key k m, contains-count_key k i m, pair_agrees i k, pair_agrees k i)

-- The count that a dictionary with the default 0 has.
abbrev count_of : String × String → List ((String × String) × ℕ) → ℕ
count_of k m = elim (lookup k m) [ none ↦ 0 | some n ↦ n ]

count_of-count_key :
    (k j : String × String) (m : List ((String × String) × ℕ))
    → count_of j (count_key k m) ≡ (if k == j then suc (count_of j m) else count_of j m)
count_of-count_key k j [] = ground arith
count_of-count_key k j ((i, n) ∷ m) =
    ground (arith, count_of-count_key k j m, pair_agrees i k, pair_agrees i j, pair_agrees k j)

count_of-count_edges :
    (j : String × String) (es : List Edge) (m : List ((String × String) × ℕ))
    → count_of j (count_edges es m) ≡ count_of j m + length (filter (λ e. unordered_key e == j) es)
count_of-count_edges j [] m = ground arith
count_of-count_edges j (e ∷ es) m = ground (
  arith,
  count_of-count_edges j es (count_key (unordered_key e) m),
  count_of-count_key (unordered_key e) j m,
)

distinct-count_edges :
    (es : List Edge) (m : List ((String × String) × ℕ))
    → distinct (keys m) ≡ true
    → distinct (keys (count_edges es m)) ≡ true
distinct-count_edges [] m h = h
distinct-count_edges (e ∷ es) m h =
    distinct-count_edges es (count_key (unordered_key e) m)
      (distinct-count_key (unordered_key e) m h)

no_lookup :
    (k : String × String) (m : List ((String × String) × ℕ))
    → contains (keys m) k ≡ false
    → lookup k (filter (λ entry. ltb 1 entry.1) m) ≡ none
no_lookup k [] h = refl
no_lookup k ((i, n) ∷ m) h = ground (arith, no_lookup k m)

lookup-filter :
    (k : String × String) (m : List ((String × String) × ℕ))
    → distinct (keys m) ≡ true
    → lookup k (filter (λ entry. ltb 1 entry.1) m)
      ≡ (if ltb 1 (count_of k m) then some (count_of k m) else none)
lookup-filter k [] h = ground arith
lookup-filter k ((i, n) ∷ m) h = elim (Bool-cases (i == k)) [
  | inl same ↦
      let absent : contains (keys m) k ≡ false =
        subst (λ x. contains (keys m) x ≡ false) ((pair_agrees i k).0 same) (ground arith) in
      ground (arith, no_lookup k m absent)
  | inr other ↦ ground (arith, lookup-filter k m)
]

str_le_antisymm : (s t : String) → str_le s t ≡ true → str_le t s ≡ true → s ≡ t
str_le_antisymm s t h k = codes-injective s t (lex_le_antisymm (codes s) (codes t) h k)

-- The key of a link names its ends in order.
unordered_key-joins :
    (a b : String) (e : Edge) → str_le a b ≡ true → (unordered_key e == (a, b)) ≡ joins a b e
unfolding unordered_key
unordered_key-joins a b e h =
    let p = e.source.node_id in
    let q = e.target.node_id in
    let reversed : p ≡ b → q ≡ a → str_le q p ≡ true =
      λ x y. subst (λ u. str_le q u ≡ true) (sym x) (subst (λ u. str_le u b ≡ true) (sym y) h) in
    let straight : p ≡ a → q ≡ b → str_le p q ≡ true =
      λ x y. subst (λ u. str_le p u ≡ true) (sym y) (subst (λ u. str_le u b ≡ true) (sym x) h) in
    elim (Bool-cases (str_le p q)) [
      | inl le ↦ rw le (
          ground (
            arith,
            str_le_antisymm p q,
            reversed,
            eq_iff p a,
            eq_iff q b,
            eq_iff p b,
            eq_iff q a,
            eq_iff a b,
            eq_iff p q,
          ))
      | inr gt ↦ rw gt (ground (arith, straight, eq_iff p a, eq_iff q b, eq_iff p b, eq_iff q a))
    ]

filter-joins :
    (a b : String) (es : List Edge)
    → str_le a b ≡ true
    → length (filter (λ e. unordered_key e == (a, b)) es) ≡ length (filter (joins a b) es)
filter-joins a b [] h = refl
filter-joins a b (e ∷ es) h = ground (arith, filter-joins a b es h, unordered_key-joins a b e h)

-- For two devices in the order of their ids, the entry of their pair is the number of links that join
-- them, in either direction, and there is none unless that is more than one.
pub lookup-duplicate_edge_keys :
    (t : Topology) (a b : String)
    → str_le a b ≡ true
    → lookup (a, b) (duplicate_edge_keys t) ≡ (
        if ltb 1 (length (filter (joins a b) t.edges))
        then some (length (filter (joins a b) t.edges))
        else none)
unfolding duplicate_edge_keys
lookup-duplicate_edge_keys t a b h = ground (
  arith,
  lookup-filter (a, b) (count_edges t.edges []) (distinct-count_edges t.edges [] refl),
  count_of-count_edges (a, b) t.edges [],
  filter-joins a b t.edges h,
)
