-- ===== src/Assembler/Domains/Partition.antt =====
-- Each segment joins the domain of one router, or is transport between several.
use topo_forge_ai.Topology.{Node}
use topo_forge_ai.Assembler.Segments.{Segment}
use topo_forge_ai.Assembler.Domains.{
  assign_all, Domains, is_shared, append_segment, owner_of, discover_domains, routers_of,
  mark_transport, split_domains, empty_domains,
}
use topo_forge_ai.Prelude.{
  some, [], true, ◌∷◌, List, String, contains, Bool, ◌≡◌, not, lookup, map, ◌++◌, ◌&&◌, filter,
  if◌then◌else◌, String-Eq, ◌==◌, inl, inr, Bool-cases, ◌∙◌, arith, eq_iff, ap, sym, refl, dedup,
  contains-dedup,
}
use mathlib.Core.List.{append-nil, append_assoc}

-- Whether a segment belongs to the domain of the router.
abbrev pub is_owned_by : List String → String → String → Segment → Bool
is_owned_by routers first r s = not (is_shared routers s) && owner_of routers first s == r

lookup-append_segment :
    (r owner : String) (s : Segment) (d : Domains) (xs : List Segment)
    → lookup r d ≡ some xs
    → lookup r (append_segment owner s d) ≡ some (if owner == r then xs ++ s ∷ [] else xs)
lookup-append_segment r owner s [] xs h = cc
lookup-append_segment r owner s ((k, owned) ∷ d) xs h = elim (Bool-cases (k == owner)) [
  | inl here ↦ rw here (ground (arith, h, eq_iff k owner, eq_iff k r, eq_iff owner r))
  | inr other ↦ rw other (
      ground (
        arith,
        h,
        lookup-append_segment r owner s d xs,
        eq_iff k owner,
        eq_iff k r,
        eq_iff owner r,
      ))
]

lookup-assign_all :
    (routers : List String) (first r : String) (segments : List Segment) (d : Domains)
    (xs : List Segment)
    → lookup r d ≡ some xs
    → lookup r (assign_all routers first segments d)
      ≡ some (xs ++ filter (is_owned_by routers first r) segments)
unfolding assign_all
lookup-assign_all routers first r [] d xs h = h ∙ ap some (sym (append-nil xs))
lookup-assign_all routers first r (s ∷ segments) d xs h =
    let here = lookup-append_segment r (owner_of routers first s) s d xs h in
    elim (Bool-cases (is_shared routers s)) [
      | inl shared ↦ rw shared (lookup-assign_all routers first r segments d xs h)
      | inr single ↦ elim (Bool-cases (owner_of routers first s == r)) [
        | inl mine ↦
            let next = here ∙ ap (λ b. some (if b then xs ++ s ∷ [] else xs)) mine in
            let rest =
              lookup-assign_all routers first r segments
                (append_segment (owner_of routers first s) s d) (xs ++ s ∷ []) next in
            rw single (rw mine (rest ∙ ap some (append_assoc xs (s ∷ []) _)))
        | inr yours ↦
            let next = here ∙ ap (λ b. some (if b then xs ++ s ∷ [] else xs)) yours in
            let rest =
              lookup-assign_all routers first r segments
                (append_segment (owner_of routers first s) s d) xs next in
            rw single (rw yours rest)
      ]
    ]

abbrev no_segments : List String → Domains
no_segments = map (λ i. (i, []))

lookup-empty_domains :
    (r : String) (ids : List String) → contains ids r ≡ true → lookup r (no_segments ids) ≡ some []
lookup-empty_domains r [] h = cc
lookup-empty_domains r (i ∷ ids) h = elim (Bool-cases (i == r)) [
  | inl here ↦ rw here refl
  | inr other ↦ rw other (lookup-empty_domains r ids (ground arith))
]

-- How the segments fall to the routers.
abbrev pub IsSplit : List String → List Segment → Domains × List Segment → Type 0
IsSplit [] segments d = d ≡ (("__implicit__", segments) ∷ [], segments)
IsSplit (first ∷ rest) segments d =
    ((r : String)
      → contains (first ∷ rest) r ≡ true
      → lookup r d.0 ≡ some (filter (is_owned_by (first ∷ rest) first r) segments))
    × (d.1 ≡ map (mark_transport (first ∷ rest)) segments)

split_domains-IsSplit :
    (routers : List String) (segments : List Segment)
    → IsSplit routers segments (split_domains routers segments)
unfolding split_domains
split_domains-IsSplit [] segments = refl
split_domains-IsSplit (first ∷ rest) segments = (
  λ r h.
      lookup-assign_all (first ∷ rest) first r segments (empty_domains (first ∷ rest)) []
        (lookup-empty_domains r (dedup (first ∷ rest)) (contains-dedup (first ∷ rest) r ∙ h)),
  refl,
)

-- Without a router, all segments form one domain. Otherwise the domain of each router has, in their
-- order, the segments that it owns: those on which it is the only router, and for the first router
-- those without one too. A segment with several routers is in no domain and is marked as transport.
pub discover_domains-IsSplit :
    (nodes : List Node) (segments : List Segment)
    → IsSplit (routers_of nodes) segments (discover_domains nodes segments)
unfolding discover_domains
discover_domains-IsSplit nodes segments = split_domains-IsSplit (routers_of nodes) segments
