-- ===== src/Cloud/Sound/Placement.antt =====
-- When `ComputePlacementValidator` reports no error.
use topo_forge_ai.Cloud.Sound.Addresses.{IsUsable, IsUsable-iff}
use topo_forge_ai.Cloud.{CloudArchitecture}
use topo_forge_ai.Cloud.Sound.{no_errors, no_errors-append}
use topo_forge_ai.Cloud.Sound.Dictionary.{
  agrees_with, clean, set_all, IsFunctional, clean-append, clean-nil_iff,
}
use topo_forge_ai.Cloud.Resources.{Infrastructure, NetworkInterfaceSpec, ComputeInstance, Subnet}
use topo_forge_ai.Cloud.Validators.Placement.{
  Parser, check_address, check_nics, Seen, subnet_by_id, contains_text, is_aws_reserved,
  check_instances, validate_placement, forwarder_issue,
}
use topo_forge_ai.Prelude.{
  refl, some, none, [], true, inl, inr, ◌∷◌, Bool, concat_map, List, ◌&&◌, is_some, String, all,
  any, ◌||◌, not, nonempty, ◌≡◌, Option-cases, lookup, arith, String-Eq, false, All, ◌↔◌, subst,
  all_iff, All_iff, ◌++◌, Bool-cases, ◌∙◌, ap, ℕ-Eq,
}

module _ (ip_address : Parser) where
  -- An address is in the subnet of its interface and not reserved there.
  abbrev nic_ok : Infrastructure → NetworkInterfaceSpec → Bool
  nic_ok i n = elim (subnet_by_id i n.subnet_id) [
    | none ↦ true
    | some s ↦ elim n.private_ip [
      | none ↦ true
      | some ip ↦ contains_text ip_address s.cidr ip && not (is_aws_reserved ip_address ip s.cidr)
    ]
  ]

-- The address of an interface with its instance, if the subnet and the address are known.
abbrev pub entry_of : Infrastructure → ComputeInstance → NetworkInterfaceSpec → Seen
entry_of i c n = elim (subnet_by_id i n.subnet_id) [
  | none ↦ []
  | some s ↦ elim n.private_ip [ none ↦ [] | some ip ↦ (ip, c.resource.id) ∷ [] ]
]

abbrev pub entries_of : Infrastructure → ComputeInstance → Seen
entries_of i c = concat_map (entry_of i c) c.interfaces

module _ (ip_address : Parser) where
  no_errors-check_address :
      (seen : Seen) (c : ComputeInstance) (s : Subnet) (ip : String)
      → no_errors (check_address ip_address seen c s ip)
        ≡ (agrees_with seen ip c.resource.id && not (is_aws_reserved ip_address ip s.cidr))
  unfolding check_address agrees_with
  no_errors-check_address seen c s ip = elim (Option-cases (lookup ip seen)) [
    | inl fresh ↦ ground arith
    | inr (previous, there) ↦ ground arith
  ]

  no_errors-check_nics :
      (i : Infrastructure) (c : ComputeInstance) (ns : List NetworkInterfaceSpec) (seen : Seen)
      → no_errors (check_nics ip_address i c ns seen).0
        ≡ (all (nic_ok ip_address i) ns && clean seen (concat_map (entry_of i c) ns))
  unfolding check_nics clean
  no_errors-check_nics i c [] seen = refl
  no_errors-check_nics i c (n ∷ rest) seen = elim (Option-cases (subnet_by_id i n.subnet_id)) [
    | inl unknown ↦ ground (arith, no_errors-check_nics i c rest seen)
    | inr (s, found) ↦ elim (Option-cases n.private_ip) [
      | inl silent ↦ ground (arith, no_errors-check_nics i c rest seen)
      | inr (ip, named) ↦ ground (
        arith,
        no_errors-check_nics i c rest seen,
        no_errors-check_nics i c rest ((ip, c.resource.id) ∷ seen),
        no_errors-check_address seen c s ip,
        no_errors-append (check_address ip_address seen c s ip)
            (check_nics ip_address i c rest ((ip, c.resource.id) ∷ seen)).0,
      )
    ]
  ]

  check_nics-seen :
      (i : Infrastructure) (c : ComputeInstance) (ns : List NetworkInterfaceSpec) (seen : Seen)
      → all (nic_ok ip_address i) ns ≡ true
      → (check_nics ip_address i c ns seen).1 ≡ set_all (concat_map (entry_of i c) ns) seen
  unfolding check_nics set_all
  check_nics-seen i c [] seen h = refl
  check_nics-seen i c (n ∷ rest) seen h = elim (Option-cases (subnet_by_id i n.subnet_id)) [
    | inl unknown ↦ ground (arith, check_nics-seen i c rest seen)
    | inr (s, found) ↦ elim (Option-cases n.private_ip) [
      | inl silent ↦ ground (arith, check_nics-seen i c rest seen)
      | inr (ip, named) ↦ ground (arith, check_nics-seen i c rest ((ip, c.resource.id) ∷ seen))
    ]
  ]

  abbrev forwards_checked : ComputeInstance → Bool
  forwards_checked c = c.is_forwarder && any (λ n. n.source_dest_check) c.interfaces

  abbrev instance_ok : Infrastructure → ComputeInstance → Bool
  instance_ok i c =
      (is_some c.subnet_id || nonempty c.interfaces)
      && (all (nic_ok ip_address i) c.interfaces && not (forwards_checked c))

  no_errors-check_instances :
      (i : Infrastructure) (cs : List ComputeInstance) (seen : Seen)
      → no_errors (check_instances ip_address i cs seen)
        ≡ (all (instance_ok i) cs && clean seen (concat_map (entries_of i) cs))
  unfolding check_instances clean
  no_errors-check_instances i [] seen = refl
  no_errors-check_instances i (c ∷ rest) seen =
      let checked = check_nics ip_address i c c.interfaces seen in
      let later = check_instances ip_address i rest checked.1 in
      let outer = no_errors-append checked.0 (forwarder_issue c ++ later) in
      let inner = no_errors-append (forwarder_issue c) later in
      let nics = no_errors-check_nics i c c.interfaces seen in
      let split = clean-append seen (entries_of i c) (concat_map (entries_of i) rest) in
      elim (Bool-cases (all (nic_ok ip_address i) c.interfaces)) [
        | inl fine ↦
            let ih : no_errors later ≡ (
                all (instance_ok i) rest
                && clean (set_all (entries_of i c) seen) (concat_map (entries_of i) rest)) =
              no_errors-check_instances i rest checked.1
              ∙ ap (λ d. all (instance_ok i) rest && clean d (concat_map (entries_of i) rest))
                  (check_nics-seen i c c.interfaces seen fine) in
            ground (arith, outer, inner, nics, split, ih)
        | inr bad ↦ ground (arith, outer, nics)
      ]

  -- An interface whose subnet and address are known has an address that can be used there.
  abbrev pub IsAddressed : Infrastructure → NetworkInterfaceSpec → Type 0
  IsAddressed i n =
      (s : Subnet) (ip : String)
      → subnet_by_id i n.subnet_id ≡ some s
      → n.private_ip ≡ some ip
      → IsUsable ip_address s.cidr ip

  nic_ok_iff :
      (i : Infrastructure) (n : NetworkInterfaceSpec)
      → (nic_ok ip_address i n ≡ true) ↔ IsAddressed i n
  nic_ok_iff i n = elim (Option-cases (subnet_by_id i n.subnet_id)) [
    | inl unknown ↦ (λ h s ip a b. absurd (cc), λ _. ground arith)
    | inr (s, found) ↦ elim (Option-cases n.private_ip) [
      | inl silent ↦ (λ h t ip a b. absurd (cc), λ _. ground arith)
      | inr (ip, named) ↦ (
        λ h t ip' a b.
            let fine = (IsUsable-iff ip_address s.cidr ip).0 (ground arith) in
            let same_subnet : s ≡ t = cc in
            let same_ip : ip ≡ ip' = cc in
            subst (λ u. IsUsable ip_address u.cidr ip') same_subnet
              (subst (IsUsable ip_address s.cidr) same_ip fine),
        λ w. let fine = (IsUsable-iff ip_address s.cidr ip).1 (w s ip found named) in ground arith,
      )
    ]
  ]

  -- An instance stands in a subnet or has interfaces, its interfaces are addressed, and if it
  -- forwards traffic none of them checks source and destination.
  pub record IsPlaced (i : Infrastructure) (c : ComputeInstance) : Type 0 where
    pub somewhere : (is_some c.subnet_id || nonempty c.interfaces) ≡ true
    pub addressed : All (IsAddressed i) c.interfaces
    pub forwards : c.is_forwarder ≡ true → All (λ n. n.source_dest_check ≡ false) c.interfaces

  -- Every instance is placed, and no text of an address stands at two instances of different ids. Two
  -- interfaces of one instance may share it, and a different text of the same address is another text.
  pub record ArePlaced (i : Infrastructure) : Type 0 where
    pub placed : All (IsPlaced i) i.compute
    pub text_of_one_id : IsFunctional (concat_map (entries_of i) i.compute)

any_none :
    (ns : List NetworkInterfaceSpec)
    → (any (λ n. n.source_dest_check) ns ≡ false) ↔ All (λ n. n.source_dest_check ≡ false) ns
any_none [] = (λ _. tt, λ _. refl)
any_none (n ∷ ns) = ground (arith, any_none ns)

instance_ok_iff :
    (ip_address : Parser) (i : Infrastructure) (c : ComputeInstance)
    → (instance_ok ip_address i c ≡ true) ↔ IsPlaced ip_address i c
instance_ok_iff ip_address i c =
    let nics = all_iff (nic_ok ip_address i) c.interfaces in
    let each = All_iff c.interfaces (nic_ok_iff ip_address i) in
    let none_checks = any_none c.interfaces in
    (
      λ h. record {
        somewhere = ground arith;
        addressed = each.0 (nics.0 (ground arith));
        forwards = λ f. none_checks.0 (ground arith);
      },
      λ w.
          let fine = nics.1 (each.1 w.addressed) in
          elim (Bool-cases c.is_forwarder) [
            | inl f ↦
                let quiet = none_checks.1 (w.forwards f) in let there = w.somewhere in ground arith
            | inr f ↦ let there = w.somewhere in ground arith
          ],
    )

pub validate_placement_iff :
    (ip_address : Parser) (a : CloudArchitecture)
    → (no_errors (validate_placement ip_address a) ≡ true) ↔ ArePlaced ip_address a.infrastructure
unfolding validate_placement
validate_placement_iff ip_address a =
    let i = a.infrastructure in
    let loop = no_errors-check_instances ip_address i i.compute [] in
    let instances = all_iff (instance_ok ip_address i) i.compute in
    let each = All_iff i.compute (instance_ok_iff ip_address i) in
    let once = clean-nil_iff (concat_map (entries_of i) i.compute) in
    (
      λ h. record {
        placed = each.0 (instances.0 (ground (arith, loop)));
        text_of_one_id = once.0 (ground (arith, loop));
      },
      λ w.
          let first = instances.1 (each.1 w.placed) in
          let second = once.1 w.text_of_one_id in ground (arith, loop),
    )
