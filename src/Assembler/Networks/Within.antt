-- ===== src/Assembler/Networks/Within.antt =====
-- The assembled subnets lie in the assembled networks.
use topo_forge_ai.Assembler.Supernet.Wider.{IsNetwork}
use topo_forge_ai.Assembler.Supernet.Covering.{covering_supernet-IsCovering}
use topo_forge_ai.Assembler.Domains.{Domains}
use topo_forge_ai.Architecture.{NetworkArchitecture}
use topo_forge_ai.Assembler.Networks.{
  subnets_for, parts_with, domain_parts, networks_and_subnets, addresses_of, keep, domain_name,
  join_all, made_subnet, network_for,
}
use topo_forge_ai.Assembler.Segments.{Segment}
use topo_forge_ai.Assembler.Supernet.{is_v4, covering_supernet}
use topo_forge_ai.Cloud.Resources.{VirtualNetwork, Subnet}
use topo_forge_ai.Network.{SubnetSpec, is_subnet_of}
use topo_forge_ai.Prelude.{
  refl, some, none, [], true, inl, inr, ◌∷◌, List, All, String, Bool, ◌≡◌, Option, ◌++◌, any,
  any-append, Bool-cases, sorted, subst, nonempty, str_le, ◌==◌, ◌&&◌, All-filter_iff, arith,
  All-sorted, All-append, eq_iff, String-Eq, All-map,
}

-- A network of the list has the id that the subnet names and holds its addresses.
abbrev pub has_home : List VirtualNetwork → Subnet → Bool
has_home networks s =
    any (λ n. n.resource.id == s.network_id && is_subnet_of s.cidr n.cidr) networks

-- Every subnet of IPv4 has a home.
abbrev pub IsHoused : List VirtualNetwork → List (String × Subnet) → Type 0
IsHoused networks = All (λ s. is_v4 s.1.cidr ≡ true → has_home networks s.1 ≡ true)

-- The subnets of IPv4 lie in the range.
abbrev pub IsRange : List SubnetSpec → SubnetSpec → Type 0
IsRange cidrs range = All (λ c. is_v4 c ≡ true → is_subnet_of c range ≡ true) cidrs

IsHoused-append :
    (networks more : List VirtualNetwork) (subnets others : List (String × Subnet))
    → IsHoused networks subnets
    → IsHoused more others
    → IsHoused (networks ++ more) (subnets ++ others)
IsHoused-append networks more subnets others h k =
    let split = λ (s : String × Subnet).
      any-append (λ n. n.resource.id == s.1.network_id && is_subnet_of s.1.cidr n.cidr) networks
        more in
    (All-append _ subnets others).1 (
      All-map _ _ (λ s home four. ground (arith, split s, home four)) subnets h,
      All-map _ _ (λ s home four. ground (arith, split s, home four)) others k,
    )

covering-IsRange :
    (cidrs : List SubnetSpec)
    → All IsNetwork cidrs
    → (range : SubnetSpec) → covering_supernet cidrs ≡ some range
    → IsRange cidrs range
covering-IsRange cidrs h range found = elim (covering_supernet-IsCovering cidrs h) [
  | inl (none_held, nothing) ↦ absurd (cc)
  | inr (answer, answered, covers) ↦
      let same : answer ≡ range = cc in
      subst (IsRange cidrs) same ((All-filter_iff is_v4 _ cidrs).0 covers.holds)
]

module _ (cidr_text : SubnetSpec → String) (fold : String → String) (region : String) where
  made_subnet-IsHoused :
      (name : String) (n : VirtualNetwork) (s : Segment) (o : Option SubnetSpec)
      (cidrs : List SubnetSpec) (rest : List (String × Subnet))
      → IsRange (keep o cidrs) n.cidr
      → (IsRange cidrs n.cidr → IsHoused (n ∷ []) rest)
      → IsHoused (n ∷ []) (keep (made_subnet cidr_text fold region name n s o) rest)
  made_subnet-IsHoused name n s none cidrs rest h later = later h
  made_subnet-IsHoused name n s (some cidr) cidrs rest h later =
      (λ four. ground (arith, h.0 four, eq_iff n.resource.id n.resource.id), later h.1)

  subnets_for-IsHoused :
      (name : String) (n : VirtualNetwork) (owned : List Segment)
      → IsRange (addresses_of owned) n.cidr
      → IsHoused (n ∷ []) (subnets_for cidr_text fold region name n owned)
  unfolding subnets_for
  subnets_for-IsHoused name n [] h = tt
  subnets_for-IsHoused name n (s ∷ owned) h =
      made_subnet-IsHoused name n s s.subnet (addresses_of owned)
        (subnets_for cidr_text fold region name n owned) h (subnets_for-IsHoused name n owned)

  parts_with-IsHoused :
      (a : NetworkArchitecture) (router_id : String) (owned : List Segment) (o : Option SubnetSpec)
      → ((range : SubnetSpec) → o ≡ some range → IsRange (addresses_of owned) range)
      → let parts = parts_with cidr_text fold region a router_id owned o in
        IsHoused parts.networks parts.subnets
  unfolding parts_with
  parts_with-IsHoused a router_id owned none h = tt
  parts_with-IsHoused a router_id owned (some cidr) h =
      let name = domain_name cidr_text fold region a router_id in
      subnets_for-IsHoused name (network_for cidr_text fold region router_id name cidr) owned
        (h cidr refl)

  domain_parts-IsHoused :
      (a : NetworkArchitecture) (d : String × List Segment)
      → All IsNetwork (addresses_of d.1)
      → let parts = domain_parts cidr_text fold region a d in IsHoused parts.networks parts.subnets
  unfolding domain_parts
  domain_parts-IsHoused a (router_id, owned) h = elim (Bool-cases (nonempty owned)) [
    | inl some_segment ↦ rw some_segment (
        parts_with-IsHoused a router_id owned (covering_supernet (addresses_of owned))
          (covering-IsRange (addresses_of owned) h))
    | inr no_segment ↦ rw no_segment tt
  ]

  join_all-IsHoused :
      (a : NetworkArchitecture) (domains : Domains)
      → All (λ d. All IsNetwork (addresses_of d.1)) domains
      → let parts = join_all cidr_text fold region a domains in
        IsHoused parts.networks parts.subnets
  join_all-IsHoused a [] h = tt
  join_all-IsHoused a (d ∷ domains) h =
      IsHoused-append _ _ _ _ (domain_parts-IsHoused a d h.0) (join_all-IsHoused a domains h.1)

  -- Every assembled subnet of IPv4 lies in an assembled network whose id it names, if the domains
  -- hold networks.
  pub networks_and_subnets-IsHoused :
      (a : NetworkArchitecture) (domains : Domains)
      → All (λ d. All IsNetwork (addresses_of d.1)) domains
      → let parts = networks_and_subnets cidr_text fold region a domains in
        IsHoused parts.networks parts.subnets
  unfolding networks_and_subnets
  networks_and_subnets-IsHoused a domains h =
      join_all-IsHoused a (sorted (λ d e. str_le d.0 e.0) domains)
        (All-sorted (λ d e. str_le d.0 e.0) _ domains h)
