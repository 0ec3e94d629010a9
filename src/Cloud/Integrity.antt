-- ===== src/Cloud/Integrity.antt =====
-- What the model validator of the cloud architecture (`_referential_integrity` of
-- src/domain/cloud/models.py) accepts.
use topo_forge_ai.Cloud.Hosts.{ConfigurationHost}
use topo_forge_ai.Cloud.{
  CloudArchitecture, cloud_integrity, check_subnet, check_nic, check_host, check_relationship,
  check_compute, ids_of, Relationship, subnet_ids, network_ids, compute_ids, unknown_compute_subnet,
  duplicate_resource_ids,
}
use topo_forge_ai.Cloud.Resources.{
  Infrastructure, ComputeInstance, Subnet, NetworkInterfaceSpec, all_resources,
}
use topo_forge_ai.Prelude.{
  refl, some, true, inl, inr, ok, distinct, ◌≡◌, String, ◌↔◌, In, for_each_iff, All, arith, All-map,
  >>-eq-ok_iff, Option-cases, for_each, String-Eq, require, ◌>>◌, contains, not, has_duplicates,
  has_duplicates_iff,
}

-- A resource's subnet is there, if it names one.
abbrev pub IsPlacedIn : Infrastructure → ComputeInstance → Type 0
IsPlacedIn i c =
    ((s : String) → c.subnet_id ≡ some s → In s (subnet_ids i))
    × All (λ n. In n.subnet_id (subnet_ids i)) c.interfaces

-- No id occurs twice among all resources, and what subnets, instances, their interfaces, configuration
-- hosts and relationships refer to is there.
pub record IsWellFormed (a : CloudArchitecture) : Type 0 where
  pub resources : distinct (ids_of (all_resources a.infrastructure)) ≡ true
  pub subnets : All (λ s. In s.network_id (network_ids a.infrastructure)) a.infrastructure.subnets
  pub compute : All (IsPlacedIn a.infrastructure) a.infrastructure.compute
  pub hosts : All (λ h. In h.compute_id (compute_ids a.infrastructure)) a.configuration.hosts
  pub relationships :
      All
        (λ r.
          In r.source_id (ids_of (all_resources a.infrastructure))
          × In r.target_id (ids_of (all_resources a.infrastructure)))
        a.relationships

module _ (i : Infrastructure) where
  check_subnet_iff : (s : Subnet) → (check_subnet i s ≡ ok tt) ↔ In s.network_id (network_ids i)
  unfolding check_subnet
  check_subnet_iff s = ground arith

  check_nic_iff :
      (n : NetworkInterfaceSpec) → (check_nic i n ≡ ok tt) ↔ In n.subnet_id (subnet_ids i)
  unfolding check_nic
  check_nic_iff n = ground arith

  check_host_iff :
      (h : ConfigurationHost) → (check_host i h ≡ ok tt) ↔ In h.compute_id (compute_ids i)
  unfolding check_host
  check_host_iff h = ground arith

  check_relationship_iff :
      (r : Relationship)
      → (check_relationship i r ≡ ok tt)
        ↔ (In r.source_id (ids_of (all_resources i)) × In r.target_id (ids_of (all_resources i)))
  unfolding check_relationship
  check_relationship_iff r = ground arith

  check_compute_iff : (c : ComputeInstance) → (check_compute i c ≡ ok tt) ↔ IsPlacedIn i c
  unfolding check_compute
  check_compute_iff c =
      let nics = for_each_iff (check_nic i) c.interfaces in
      let there = All-map _ _ (λ n. (check_nic_iff n).0) c.interfaces in
      let back = All-map _ _ (λ n. (check_nic_iff n).1) c.interfaces in
      elim (Option-cases c.subnet_id) [
        | inl unnamed ↦ rw unnamed (λ h. (λ s same. cc, there (nics.0 h)), λ w. nics.1 (back w.1))
        | inr (s, named) ↦ rw named (
          λ h.
              let parts =
                (>>-eq-ok_iff
                    (require (contains (subnet_ids i) s) (unknown_compute_subnet c.resource.id s))
                    (for_each (check_nic i) c.interfaces) {y = tt}).0
                  h in
              (λ t same. ground (arith, parts.0), there (nics.0 parts.1)),
          λ w. let inside = w.0 s refl in let rest = nics.1 (back w.1) in ground arith,
        )
      ]

-- The validator accepts a cloud architecture, as it is, exactly when no id occurs twice among its
-- resources, the network of each subnet is one of its networks, the subnet of each instance that names
-- one and of each network interface is one of its subnets, the instance of each configuration host is
-- one of its instances, and both ends of each relationship are among its resources. It asks nothing of
-- what gateways, route tables, databases, load balancers and security groups refer to.
pub cloud_integrity_iff : (a : CloudArchitecture) → (cloud_integrity a ≡ ok a) ↔ IsWellFormed a
unfolding cloud_integrity
cloud_integrity_iff a =
    let i = a.infrastructure in
    let ids = ids_of (all_resources i) in
    let each_subnet = for_each_iff (check_subnet i) i.subnets in
    let each_compute = for_each_iff (check_compute i) i.compute in
    let each_host = for_each_iff (check_host i) a.configuration.hosts in
    let each_link = for_each_iff (check_relationship i) a.relationships in
    let links = >>-eq-ok_iff (for_each (check_relationship i) a.relationships) (ok a) {y = a} in
    let hosts =
      >>-eq-ok_iff (for_each (check_host i) a.configuration.hosts)
        (for_each (check_relationship i) a.relationships >> ok a) {y = a} in
    let compute =
      >>-eq-ok_iff (for_each (check_compute i) i.compute)
        (for_each (check_host i) a.configuration.hosts
          >> (for_each (check_relationship i) a.relationships >> ok a))
        {y = a} in
    let subnets =
      >>-eq-ok_iff (for_each (check_subnet i) i.subnets)
        (for_each (check_compute i) i.compute
          >> (for_each (check_host i) a.configuration.hosts
              >> (for_each (check_relationship i) a.relationships >> ok a)))
        {y = a} in
    let resources =
      >>-eq-ok_iff (require (not (has_duplicates ids)) duplicate_resource_ids)
        (for_each (check_subnet i) i.subnets
          >> (for_each (check_compute i) i.compute
              >> (for_each (check_host i) a.configuration.hosts
                  >> (for_each (check_relationship i) a.relationships >> ok a))))
        {y = a} in
    (
      λ h.
          let (first, h₁) = resources.0 h in
          let (second, h₂) = subnets.0 h₁ in
          let (third, h₃) = compute.0 h₂ in
          let (fourth, h₄) = hosts.0 h₃ in
          let (fifth, _) = links.0 h₄ in
          record {
            resources = (has_duplicates_iff ids).0 (ground arith);
            subnets = All-map _ _ (λ s. (check_subnet_iff i s).0) i.subnets (each_subnet.0 second);
            compute = All-map _ _ (λ c. (check_compute_iff i c).0) i.compute (each_compute.0 third);
            hosts =
                All-map _ _ (λ x. (check_host_iff i x).0) a.configuration.hosts
                  (each_host.0 fourth);
            relationships =
                All-map _ _ (λ r. (check_relationship_iff i r).0) a.relationships
                  (each_link.0 fifth);
          },
      λ w.
          let distinct_ids = (has_duplicates_iff ids).1 w.resources in
          resources.1 (
            ground arith,
            subnets.1 (
              each_subnet.1 (All-map _ _ (λ s. (check_subnet_iff i s).1) i.subnets w.subnets),
              compute.1 (
                each_compute.1 (All-map _ _ (λ c. (check_compute_iff i c).1) i.compute w.compute),
                hosts.1 (
                  each_host.1
                      (All-map _ _ (λ x. (check_host_iff i x).1) a.configuration.hosts w.hosts),
                  links.1 (
                    each_link.1 (
                        All-map _ _ (λ r. (check_relationship_iff i r).1) a.relationships
                          w.relationships),
                    refl,
                  ),
                ),
              ),
            ),
          ),
    )
