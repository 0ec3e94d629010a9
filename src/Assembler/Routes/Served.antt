-- ===== src/Assembler/Routes/Served.antt =====
-- The route tables of the assembler serve every subnet of a network.
use topo_forge_ai.Assembler.Routes.Anchored.{IsAnchored, gateways-IsAnchored}
use topo_forge_ai.Assembler.Routes.Targets.{LeadsTo, gateway_ids, table_for-LeadsTo}
use topo_forge_ai.Assembler.Gateways.{Wishes, gateways, subnets_in}
use topo_forge_ai.Assembler.Routes.{table_for, route_tables}
use topo_forge_ai.Cloud.Resources.{Subnet, RouteTable, VirtualNetwork, Gateway}
use topo_forge_ai.Prelude.{
  refl, [], true, inl, inr, ◌∷◌, List, Bool, String, any, All, contains, ◌==◌, ◌≡◌, map, filter,
  nonempty, concat_map, String-Eq, arith, Bool-cases, any-append, eq_iff, All-map,
  All-concat_map_iff, All-forall_iff,
}

-- A table is associated with the subnet.
abbrev pub IsServed : List RouteTable → Subnet → Type 0
IsServed tables s = any (λ t. contains t.associated_subnet_ids s.resource.id) tables ≡ true

-- What a comprehension keeps is in its list.
kept :
    (p : Subnet → Bool) (subnets : List Subnet)
    → All
        (λ s.
          p s ≡ true → contains (map (λ t. t.resource.id) (filter p subnets)) s.resource.id ≡ true)
        subnets
kept p [] = tt
kept p (s ∷ rest) = (
  λ h. rw h (ground (arith, eq_iff s.resource.id s.resource.id)),
  All-map _ _
      (λ t later h. elim (Bool-cases (p s)) [
        | inl stays ↦ rw stays (ground (arith, later h))
        | inr goes ↦ rw goes (later h)
      ])
      rest (kept p rest),
)

-- A subnet is in the list of the network that it names.
abbrev IsListed : List Subnet → Subnet → Type 0
IsListed subnets s =
    (id : String)
    → (s.network_id == id) ≡ true
    → contains (map (λ t. t.resource.id) (subnets_in subnets id)) s.resource.id ≡ true

listed_nonempty :
    (xs : List Subnet) (x : String)
    → contains (map (λ t. t.resource.id) xs) x ≡ true
    → nonempty xs ≡ true
listed_nonempty [] x h = cc
listed_nonempty (y ∷ xs) x h = refl

table_for-IsServed :
    (networks : List VirtualNetwork) (subnets : List Subnet) (gs : List Gateway)
    (n : VirtualNetwork) (s : Subnet)
    → contains (map (λ t. t.resource.id) (subnets_in subnets n.resource.id)) s.resource.id ≡ true
    → IsServed (table_for networks subnets gs n) s
unfolding table_for
table_for-IsServed networks subnets gs n s h =
    elim (Bool-cases (nonempty (subnets_in subnets n.resource.id))) [
      | inl there ↦ rw there (ground (arith, h))
      | inr none_there ↦ absurd (
          ground
            (arith, none_there, listed_nonempty (subnets_in subnets n.resource.id) s.resource.id h))
    ]

route_tables-IsServed :
    (networks ns : List VirtualNetwork) (subnets : List Subnet) (gs : List Gateway) (s : Subnet)
    → IsListed subnets s
    → any (λ n. n.resource.id == s.network_id) ns ≡ true
    → IsServed (concat_map (table_for networks subnets gs) ns) s
route_tables-IsServed networks [] subnets gs s h there = cc
route_tables-IsServed networks (n ∷ ns) subnets gs s h there =
    let first = table_for networks subnets gs n in
    let split =
      any-append (λ t. contains t.associated_subnet_ids s.resource.id) first
        (concat_map (table_for networks subnets gs) ns) in
    elim (Bool-cases (n.resource.id == s.network_id)) [
      | inl same ↦
          let here = table_for-IsServed networks subnets gs n s (
            h n.resource.id (
              ground
                (arith, eq_iff n.resource.id s.network_id, eq_iff s.network_id n.resource.id))) in
          ground (arith, split, here)
      | inr other ↦
          let later = route_tables-IsServed networks ns subnets gs s h (ground (arith, there)) in
          ground (arith, split, later)
    ]

-- What the assembler makes of gateways and route tables: every route leads to a gateway; a NAT gateway
-- names a network and, of the subnets, one in it; a peering lists the ids of the two networks that
-- there are; and every subnet of one of the networks is associated with a table.
pub route_tables_lem :
    (w : Wishes) (networks : List VirtualNetwork) (subnets : List Subnet)
    → let gs = gateways w networks subnets in
      let tables = route_tables networks subnets gs in
      All (λ t. LeadsTo (gateway_ids gs) t.routes) tables
      × (All (IsAnchored networks subnets) gs
          × All
              (λ s. any (λ n. n.resource.id == s.network_id) networks ≡ true → IsServed tables s)
              subnets)
unfolding route_tables
route_tables_lem w networks subnets =
    let gs = gateways w networks subnets in
    (
      (All-concat_map_iff (λ t. LeadsTo (gateway_ids gs) t.routes) (table_for networks subnets gs)
            networks).1
          (each gs networks),
      (
        gateways-IsAnchored w networks subnets,
        All-map (IsListed subnets) _ (λ s. route_tables-IsServed networks networks subnets gs s)
            subnets ((All-forall_iff _ subnets).0 (λ id. kept (λ t. t.network_id == id) subnets)),
      ),
    )
  where
    each :
        (gs : List Gateway) (ns : List VirtualNetwork)
        → All
            (λ n. All (λ t. LeadsTo (gateway_ids gs) t.routes) (table_for networks subnets gs n))
            ns
    each gs [] = tt
    each gs (n ∷ ns) = (table_for-LeadsTo networks subnets gs n, each gs ns)
