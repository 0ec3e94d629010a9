-- ===== src/Assembler/Routes/Targets.antt =====
-- Where the assembled routes lead, and which subnets they serve.
use topo_forge_ai.Assembler.Gateways.{carries_transport, subnets_in}
use topo_forge_ai.Assembler.Routes.{
  default_routes, peer_routes, is_internet_at, is_nat_at, gateway_routes, table_for,
  default_through,
}
use topo_forge_ai.Cloud.Resources.{Gateway, VirtualNetwork, Route, Subnet}
use topo_forge_ai.Prelude.{
  some, [], true, ◌∷◌, List, inl, inr, String, Bool, map, find, Bool-cases, All, ◌≡◌, ◌==◌,
  contains, Option-cases, arith, String-Eq, eq_iff, refl, none, Option, All-map, concat_map,
  All-append, nonempty, ◌&&◌, ℕ-Eq,
}

abbrev pub gateway_ids : List Gateway → List String
gateway_ids = map (λ g. g.resource.id)

abbrev pub LeadsTo : List String → List Route → Type 0
LeadsTo ids = All (λ r. contains ids r.target_ref ≡ true)

-- What is found among the gateways is one of them.
contains-find :
    (p : Gateway → Bool) (gs : List Gateway) (g : Gateway)
    → find p gs ≡ some g
    → contains (gateway_ids gs) g.resource.id ≡ true
contains-find p [] g h = cc
contains-find p (x ∷ gs) g h =
    ground (arith, h, contains-find p gs g, eq_iff x.resource.id g.resource.id)

default_through-LeadsTo :
    (ids : List String) (internet nat : Option Gateway)
    → ((g : Gateway) → internet ≡ some g → contains ids g.resource.id ≡ true)
    → ((g : Gateway) → nat ≡ some g → contains ids g.resource.id ≡ true)
    → LeadsTo ids (default_through internet nat)
default_through-LeadsTo ids (some g) nat h k = (h g refl, tt)
default_through-LeadsTo ids none (some g) h k = (k g refl, tt)
default_through-LeadsTo ids none none h k = tt

default_routes-LeadsTo :
    (gs : List Gateway) (network_id : String)
    → LeadsTo (gateway_ids gs) (default_routes gs network_id)
unfolding default_routes
default_routes-LeadsTo gs network_id =
    default_through-LeadsTo (gateway_ids gs) (find (is_internet_at network_id) gs)
      (find (is_nat_at network_id) gs) (contains-find (is_internet_at network_id) gs)
      (contains-find (is_nat_at network_id) gs)

peer_routes-LeadsTo :
    (networks : List VirtualNetwork) (network_id : String) (g : Gateway) (peers : List String)
    → LeadsTo (g.resource.id ∷ []) (peer_routes networks network_id g peers)
unfolding peer_routes
peer_routes-LeadsTo networks network_id g [] = tt
peer_routes-LeadsTo networks network_id g (p ∷ peers) =
    let later = peer_routes-LeadsTo networks network_id g peers in
    elim (Bool-cases (p == network_id)) [
      | inl self ↦ rw self later
      | inr other ↦ elim (Option-cases (find (λ n. n.resource.id == p) networks)) [
        | inl unknown ↦ rw (other, unknown) later
        | inr (peer, found) ↦
            rw (other, found) (ground (arith, eq_iff g.resource.id g.resource.id), later)
      ]
    ]

gateway_routes-LeadsTo :
    (networks : List VirtualNetwork) (network_id : String) (g : Gateway)
    → LeadsTo (g.resource.id ∷ []) (gateway_routes networks network_id g)
unfolding gateway_routes
gateway_routes-LeadsTo networks network_id g =
    elim (Bool-cases (carries_transport g && contains g.peer_network_ids network_id)) [
      | inl linked ↦ rw linked (peer_routes-LeadsTo networks network_id g g.peer_network_ids)
      | inr unlinked ↦ rw unlinked tt
    ]

-- What leads to some of the ids leads to one of more of them.
LeadsTo-more :
    (more ids : List String)
    → ((x : String) → contains more x ≡ true → contains ids x ≡ true)
    → (routes : List Route) → LeadsTo more routes
    → LeadsTo ids routes
LeadsTo-more more ids wider = All-map _ _ (λ r. wider r.target_ref)

all_routes-LeadsTo :
    (networks : List VirtualNetwork) (network_id : String) (gs : List Gateway)
    → LeadsTo (gateway_ids gs) (concat_map (gateway_routes networks network_id) gs)
all_routes-LeadsTo networks network_id [] = tt
all_routes-LeadsTo networks network_id (g ∷ gs) =
    let ids = gateway_ids (g ∷ gs) in
    (All-append _ (gateway_routes networks network_id g) _).1 (
      LeadsTo-more (g.resource.id ∷ []) ids (λ x h. ground (arith, h)) _
          (gateway_routes-LeadsTo networks network_id g),
      LeadsTo-more (gateway_ids gs) ids (λ x h. ground (arith, h)) _
          (all_routes-LeadsTo networks network_id gs),
    )

pub table_for-LeadsTo :
    (networks : List VirtualNetwork) (subnets : List Subnet) (gs : List Gateway)
    (n : VirtualNetwork)
    → All (λ t. LeadsTo (gateway_ids gs) t.routes) (table_for networks subnets gs n)
unfolding table_for
table_for-LeadsTo networks subnets gs n =
    elim (Bool-cases (nonempty (subnets_in subnets n.resource.id))) [
      | inl there ↦ rw there (
        (All-append _ (default_routes gs n.resource.id) _).1
            (default_routes-LeadsTo gs n.resource.id, all_routes-LeadsTo networks n.resource.id gs),
        tt,
      )
      | inr none_there ↦ rw none_there tt
    ]
