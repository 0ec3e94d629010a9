-- ===== src/Cloud/Sound/Routes.antt =====
-- When `RouteTableValidator` and `PublicExposureValidator` report no error.
use topo_forge_ai.Value.{ℤ}
use topo_forge_ai.Cloud.{CloudArchitecture}
use topo_forge_ai.Cloud.Sound.{
  no_errors, no_errors-append, no_errors-concat_map, no_errors-concat_map_iff,
}
use topo_forge_ai.Cloud.Validators.Exposure.{
  check_rule, validate_exposure, is_world_rule, has_all_ports, port_issue, database_issue,
  world_ports, world,
}
use topo_forge_ai.Cloud.Resources.{
  Gateway, Infrastructure, SecurityRule, SecurityGroup, Database, Route, RouteTable, nat, Subnet,
  all_resources, peering, ingress,
}
use topo_forge_ai.Cloud.Validators.Routes.{
  check_routes, check_gateway, validate_routes, unrouted_issue,
}
use topo_forge_ai.Network.{SubnetSpec, same_cidr_iff, SubnetSpec-Eq}
use topo_forge_ai.Prelude.{
  refl, [], true, false, ◌∷◌, List, String, ◌≡◌, All, ℕ, Bool, map, ◌&&◌, ◌↔◌, contains, all, not,
  all_iff, is_some, arith, concat_map, distinct, String-Eq, length, ◌++◌, All_iff, some, inl, inr,
  any-In_iff, Option-cases, eq_iff, sym,
}

abbrev pub is_known : List String → Route → Bool
is_known ids r = contains ids r.target_ref

-- The routes of a table lead to resources of the architecture, each to a destination of its own.
abbrev pub IsRouted : List String → RouteTable → Type 0
IsRouted ids t =
    All (λ r. contains ids r.target_ref ≡ true) t.routes
    × (distinct (map (λ r. r.destination) t.routes) ≡ true)

-- What the loop sees: known targets, and destinations that are neither seen nor repeated.
abbrev unseen : List SubnetSpec → List Route → Bool
unseen seen rs = all (λ r. not (contains seen r.destination)) rs

unseen-cons :
    (d : SubnetSpec) (seen : List SubnetSpec) (rs : List Route)
    → unseen (d ∷ seen) rs ≡ (unseen seen rs && not (contains (map (λ r. r.destination) rs) d))
unseen-cons d seen [] = refl
unseen-cons d seen (r ∷ rs) =
    ground
      (arith, unseen-cons d seen rs, same_cidr_iff d r.destination, same_cidr_iff r.destination d)

no_errors-check_routes :
    (ids : List String) (t : RouteTable) (seen : List SubnetSpec) (rs : List Route)
    → no_errors (check_routes ids t seen rs)
      ≡ (all (is_known ids) rs && (unseen seen rs && distinct (map (λ r. r.destination) rs)))
unfolding check_routes
no_errors-check_routes ids t seen [] = refl
no_errors-check_routes ids t seen (r ∷ rs) = ground (
  arith,
  no_errors-check_routes ids t (r.destination ∷ seen) rs,
  unseen-cons r.destination seen rs,
)

unseen-nil : (rs : List Route) → unseen [] rs ≡ true
unseen-nil [] = refl
unseen-nil (r ∷ rs) = unseen-nil rs

check_routes_iff :
    (ids : List String) (t : RouteTable)
    → (no_errors (check_routes ids t [] t.routes) ≡ true) ↔ IsRouted ids t
check_routes_iff ids t =
    let loop = no_errors-check_routes ids t [] t.routes in
    let known = all_iff (is_known ids) t.routes in
    (
      λ h. (known.0 (ground (arith, loop)), ground (arith, loop)),
      λ w. let k = known.1 w.0 in ground (arith, loop, unseen-nil t.routes),
    )

-- A NAT gateway names a subnet, known or not, and a peering lists two ids of networks.
abbrev pub NamesEnds : Gateway → Type 0
NamesEnds g =
    (g.type ≡ nat → is_some g.subnet_id ≡ true) × (g.type ≡ peering → length g.peer_network_ids ≡ 2)

check_gateway_iff : (g : Gateway) → (no_errors (check_gateway g) ≡ true) ↔ NamesEnds g
unfolding check_gateway
check_gateway_iff g = ground arith

unrouted_no_errors :
    (associated : List String) (s : Subnet) → no_errors (unrouted_issue associated s) ≡ true
unrouted_no_errors associated s = ground arith

pub record IsConnected (i : Infrastructure) : Type 0 where
  pub tables : All (IsRouted (map (λ r. r.id) (all_resources i))) i.route_tables
  pub gateways : All NamesEnds i.gateways

pub validate_routes_iff :
    (a : CloudArchitecture) → (no_errors (validate_routes a) ≡ true) ↔ IsConnected a.infrastructure
unfolding validate_routes
validate_routes_iff a =
    let i = a.infrastructure in
    let ids = map (λ r. r.id) (all_resources i) in
    let associated = concat_map (λ (t : RouteTable). t.associated_subnet_ids) i.route_tables in
    let check_table = λ (t : RouteTable). check_routes ids t [] t.routes in
    let warnings = concat_map (unrouted_issue associated) i.subnets in
    let gateways = concat_map check_gateway i.gateways in
    let outer = no_errors-append (concat_map check_table i.route_tables) (warnings ++ gateways) in
    let inner = no_errors-append warnings gateways in
    let quiet =
      no_errors-concat_map (unrouted_issue associated) i.subnets (unrouted_no_errors associated) in
    let tables = no_errors-concat_map_iff check_table i.route_tables in
    let each_table = All_iff i.route_tables (check_routes_iff ids) in
    let gates = no_errors-concat_map_iff check_gateway i.gateways in
    let each_gate = All_iff i.gateways check_gateway_iff in
    (
      λ h. record {
        tables = each_table.0 (tables.0 (ground (arith, outer, inner)));
        gateways = each_gate.0 (gates.0 (ground (arith, outer, inner)));
      },
      λ w.
          let first = tables.1 (each_table.1 w.tables) in
          let second = gates.1 (each_gate.1 w.gateways) in ground (arith, outer, inner, quiet),
    )

-- A rule that lets the whole internet in is for a protocol with ports and names its first one.
abbrev pub IsRestricted : SecurityRule → Type 0
IsRestricted r =
    (block : String)
    → r.direction ≡ ingress
    → contains r.cidr_blocks block ≡ true
    → contains ("0.0.0.0/0" ∷ "::/0" ∷ []) block ≡ true
    → ((¬ r.protocol ≡ "-1") × (¬ r.protocol ≡ "all")) × ((p : ℤ) × (r.from_port ≡ some p))

has_all_ports_iff :
    (r : SecurityRule)
    → (has_all_ports r ≡ false)
      ↔ (((¬ r.protocol ≡ "-1") × (¬ r.protocol ≡ "all")) × ((p : ℤ) × (r.from_port ≡ some p)))
has_all_ports_iff r = elim (Option-cases r.from_port) [
  | inl unnamed ↦ (λ h. absurd (ground (arith, h)), λ w. let named = w.1.1 in absurd (cc))
  | inr (p, named) ↦ (
    λ h. (
      (
        λ e. ground (arith, h, eq_iff "-1" r.protocol, sym e),
        λ e. ground (arith, h, eq_iff "all" r.protocol, sym e),
      ),
      (p, named),
    ),
    λ w. ground (
      arith,
      named,
      eq_iff "-1" r.protocol,
      eq_iff "all" r.protocol,
      λ (e : "-1" ≡ r.protocol). w.0.0 (sym e),
      λ (e : "all" ≡ r.protocol). w.0.1 (sym e),
    ),
  )
]

IsRestricted-iff :
    (r : SecurityRule) → (is_world_rule r ≡ true → has_all_ports r ≡ false) ↔ IsRestricted r
IsRestricted-iff r =
    let blocks = any-In_iff (contains world) r.cidr_blocks in
    let ports = has_all_ports_iff r in
    (
      λ h block inward listed whole.
          let some_block = blocks.1 (block, listed, whole) in
          ports.0 (h (ground (arith, inward, some_block))),
      λ w exposed.
          let (block, listed, whole) = blocks.0 (ground (arith, exposed)) in
          ports.1 (w block (ground (arith, exposed)) listed whole),
    )

port_no_errors : (g : SecurityGroup) (port : ℕ) → no_errors (port_issue g port) ≡ true
port_no_errors g port = ground arith

check_rule_iff :
    (g : SecurityGroup) (r : SecurityRule) → (no_errors (check_rule g r) ≡ true) ↔ IsRestricted r
unfolding check_rule
check_rule_iff g r =
    let quiet = no_errors-concat_map (port_issue g) (world_ports r) (port_no_errors g) in
    let restricted = IsRestricted-iff r in
    (
      λ h. restricted.0 (ground (arith, h, quiet)),
      λ w. let closed = restricted.1 w in ground (arith, quiet),
    )

database_no_errors : (d : Database) → no_errors (database_issue d) ≡ true
database_no_errors d = ground arith

pub validate_exposure_iff :
    (a : CloudArchitecture)
    → (no_errors (validate_exposure a) ≡ true)
      ↔ All (λ g. All IsRestricted g.rules) a.infrastructure.security_groups
unfolding validate_exposure
validate_exposure_iff a =
    let groups = a.infrastructure.security_groups in
    let check_group = λ (g : SecurityGroup). concat_map (check_rule g) g.rules in
    let warnings = concat_map database_issue a.infrastructure.databases in
    let parts = no_errors-append (concat_map check_group groups) warnings in
    let quiet = no_errors-concat_map database_issue a.infrastructure.databases database_no_errors in
    let outer = no_errors-concat_map_iff check_group groups in
    let each = All_iff {Q = λ (g : SecurityGroup). All IsRestricted g.rules} groups (λ g.
      let inner = no_errors-concat_map_iff (check_rule g) g.rules in
      let rules = All_iff g.rules (check_rule_iff g) in
      (λ h. rules.0 (inner.0 h), λ h. inner.1 (rules.1 h))) in
    (
      λ h. each.0 (outer.0 (ground (arith, parts))),
      λ w. let first = outer.1 (each.1 w) in ground (arith, parts, quiet),
    )
