-- ===== src/Assembler/Routes/Anchored.antt =====
-- `_gateways` of src/infrastructure/rag/cloud_assembler.py: where the gateways that it makes stand.
use topo_forge_ai.Cloud.Resources.{nat, peering, Gateway, VirtualNetwork, Subnet}
use topo_forge_ai.Assembler.Gateways.{
  gateways_for, Wishes, peering_gateways, subnets_in, transit_gateways, gateways_at, gateways,
  internet_gateway, nat_gateway,
}
use topo_forge_ai.Prelude.{
  some, [], true, ◌∷◌, List, inl, inr, String, Bool, map, find, Bool-cases, All, ◌≡◌, ◌==◌,
  Option-cases, arith, String-Eq, eq_iff, refl, All-map, concat_map, any, All-append, ◌&&◌, ◌++◌,
  false, length, All-concat_map_iff, if◌then◌else◌, leb, ℕ-Eq, All-filter_iff, subst,
}

-- A subnet of the id lies in the network of the id.
abbrev pub is_subnet_at : List Subnet → String → String → Bool
is_subnet_at subnets network_id id =
    any (λ t. t.resource.id == id && t.network_id == network_id) subnets

-- A NAT gateway stands in one of the subnets, which lies in the gateway's network, one of the
-- networks; a peering names the two networks that there are, in their order.
abbrev pub IsAnchored : List VirtualNetwork → List Subnet → Gateway → Type 0
IsAnchored networks subnets g =
    (g.type ≡ nat
      → (network_id : String) × (subnet_id : String) × (g.network_id ≡ some network_id)
        × (g.subnet_id ≡ some subnet_id)
        × (any (λ n. n.resource.id == network_id) networks ≡ true)
        × (is_subnet_at subnets network_id subnet_id ≡ true))
    × (g.type ≡ peering
        → (a : VirtualNetwork) × (b : VirtualNetwork) × (networks ≡ a ∷ b ∷ [])
          × (g.peer_network_ids ≡ a.resource.id ∷ b.resource.id ∷ []))

-- What a comprehension keeps is in its list.
subnets_in-is_subnet_at :
    (subnets : List Subnet) (id : String)
    → All (λ s. is_subnet_at subnets id s.resource.id ≡ true) (subnets_in subnets id)
subnets_in-is_subnet_at subnets id =
    (All-filter_iff (λ s. s.network_id == id) (λ s. is_subnet_at subnets id s.resource.id ≡ true)
        subnets).1
      (listed subnets)
  where
    listed :
        (ss : List Subnet)
        → All (λ s. (s.network_id == id) ≡ true → is_subnet_at ss id s.resource.id ≡ true) ss
    listed [] = tt
    listed (s ∷ rest) = (
      λ h. ground (arith, h, eq_iff s.resource.id s.resource.id),
      All-map _ _ (λ t later h. let there = later h in ground (arith, there)) rest (listed rest),
    )

find-All :
    (P : Subnet → Type 0) (p : Subnet → Bool) (ss : List Subnet) (s : Subnet)
    → All P ss
    → find p ss ≡ some s
    → P s
find-All P p [] s h found = absurd (cc)
find-All P p (x ∷ ss) s h found = elim (Bool-cases (p x)) [
  | inl here ↦ let same : x ≡ s = ground (arith, found, here) in subst P same h.0
  | inr other ↦ find-All P p ss s h.1 (ground (arith, found, other))
]

-- The subnet of the NAT gateway is one of those it is chosen from.
nat_gateway-subnet :
    (P : String → Type 0) (n : VirtualNetwork) (first : Subnet) (rest : List Subnet)
    → All (λ s. P s.resource.id) (first ∷ rest)
    → (id : String) × ((nat_gateway n first rest).subnet_id ≡ some id) × P id
nat_gateway-subnet P n first rest h =
    elim (Option-cases (find (λ (s : Subnet). s.public) (first ∷ rest))) [
      | inl none_public ↦ rw none_public (first.resource.id, refl, h.0)
      | inr (s, found) ↦ rw found (
        s.resource.id,
        refl,
        find-All (λ t. P t.resource.id) (λ t. t.public) (first ∷ rest) s h found,
      )
    ]

gateways_at-IsAnchored :
    (w : Wishes) (networks : List VirtualNetwork) (subnets : List Subnet) (n : VirtualNetwork)
    (inside : List Subnet)
    → any (λ m. m.resource.id == n.resource.id) networks ≡ true
    → All (λ s. is_subnet_at subnets n.resource.id s.resource.id ≡ true) inside
    → All (IsAnchored networks subnets) (gateways_at w n inside)
gateways_at-IsAnchored w networks subnets n [] listed h = tt
gateways_at-IsAnchored w networks subnets n (first ∷ rest) listed h =
    let P = IsAnchored networks subnets in
    let (id, stands, lies) =
      nat_gateway-subnet (λ x. is_subnet_at subnets n.resource.id x ≡ true) n first rest h in
    (All-append P (if w.internet then internet_gateway n ∷ [] else []) _).1 (
      elim w.internet as (λ b. All P (if b then internet_gateway n ∷ [] else [])) [
        | true ↦ ((λ k. absurd (cc), λ k. absurd (cc)), tt)
        | false ↦ tt
      ],
      elim w.nat as (λ b. All P (if b then nat_gateway n first rest ∷ [] else [])) [
        | true ↦ ((λ k. (n.resource.id, id, refl, stands, listed, lies), λ k. absurd (cc)), tt)
        | false ↦ tt
      ],
    )

-- Two networks, where there are two.
both_of :
    (networks : List VirtualNetwork)
    → length networks ≡ 2
    → (a : VirtualNetwork) × (b : VirtualNetwork) × (networks ≡ a ∷ b ∷ [])
      × (map (λ n. n.resource.id) networks ≡ a.resource.id ∷ b.resource.id ∷ [])
both_of [] h = absurd (omega arith)
both_of (a ∷ []) h = absurd (omega arith)
both_of (a ∷ b ∷ []) h = (a, b, refl, refl)
both_of (a ∷ b ∷ c ∷ more) h = absurd (omega arith)

link_gateways-IsAnchored :
    (w : Wishes) (networks : List VirtualNetwork) (subnets : List Subnet)
    → All (IsAnchored networks subnets) (peering_gateways w networks ++ transit_gateways w networks)
link_gateways-IsAnchored w networks subnets =
    (All-append (IsAnchored networks subnets) (peering_gateways w networks) _).1 (
      elim (Bool-cases (w.peering && length networks == 2)) [
        | inl wanted ↦
            rw wanted ((λ h. absurd (cc), λ h. both_of networks (ground (arith, wanted))), tt)
        | inr unwanted ↦ rw unwanted tt
      ],
      elim (Bool-cases (w.transit && leb 2 (length networks))) [
        | inl wanted ↦ rw wanted ((λ h. absurd (cc), λ h. absurd (cc)), tt)
        | inr unwanted ↦ rw unwanted tt
      ],
    )

-- Every network is one of the networks.
networks_listed :
    (networks : List VirtualNetwork)
    → All (λ n. any (λ m. m.resource.id == n.resource.id) networks ≡ true) networks
networks_listed [] = tt
networks_listed (n ∷ ns) = (
  ground (arith, eq_iff n.resource.id n.resource.id),
  All-map _ _ (λ x h. ground (arith, h)) ns (networks_listed ns),
)

pub gateways-IsAnchored :
    (w : Wishes) (networks : List VirtualNetwork) (subnets : List Subnet)
    → All (IsAnchored networks subnets) (gateways w networks subnets)
unfolding gateways gateways_for
gateways-IsAnchored w networks subnets =
    let P = IsAnchored networks subnets in
    (All-append P (concat_map (gateways_for w subnets) networks) _).1 (
      (All-concat_map_iff P (gateways_for w subnets) networks).1 (
          All-map _ (λ n. All P (gateways_for w subnets n))
            (λ n listed.
              gateways_at-IsAnchored w networks subnets n (subnets_in subnets n.resource.id) listed
                (subnets_in-is_subnet_at subnets n.resource.id))
            networks (networks_listed networks)),
      link_gateways-IsAnchored w networks subnets,
    )
