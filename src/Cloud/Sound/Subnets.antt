-- ===== src/Cloud/Sound/Subnets.antt =====
-- When `SubnetValidator` reports no error.
use topo_forge_ai.Network.Blocks.{overlaps_iff, is_subnet_of_iff, IsWithin}
use topo_forge_ai.Cloud.{CloudArchitecture}
use topo_forge_ai.Cloud.Sound.{no_errors, no_errors-append, no_errors-concat_map_iff}
use topo_forge_ai.Cloud.Validators.Subnets.{
  check_fit, check_overlaps, validate_subnets, network_of, is_inside, group_of, overlap_issue,
}
use topo_forge_ai.Cloud.Resources.{Infrastructure, Subnet, VirtualNetwork}
use topo_forge_ai.Network.{
  SubnetSpec, Version, overlaps, contains_address, SubnetSpec-Eq, is_subnet_of,
}
use topo_forge_ai.Prelude.{
  refl, some, [], true, false, inl, inr, ◌∷◌, subst, List, All, String, ℕ, contains, ◌≡◌, AllPairs,
  map, dedup, ◌↔◌, any-In_iff, arith, All-In_iff, AllPairs-filter_iff, Bool-cases, concat_map, ◌==◌,
  String-Eq, contains-dedup, AllPairs-forall_iff, All_iff, ◌∙◌, AllPairs-iff, eq_iff, sym,
  Option-cases,
}

abbrev pub SharesNone : SubnetSpec → SubnetSpec → Type 0
SharesNone s t =
    (v : Version) (a : ℕ) → contains_address s v a ≡ true → contains_address t v a ≡ false

-- A subnet lies in one of the ranges of its network, and two subnets of a network share no address.
pub record IsSubnetted (i : Infrastructure) : Type 0 where
  pub inside :
      All
        (λ s.
          (n : VirtualNetwork)
          → network_of i s ≡ some n
          → (c : SubnetSpec) × (contains (n.cidr ∷ n.secondary_cidrs) c ≡ true) × IsWithin s.cidr c)
        i.subnets
  pub apart : AllPairs (λ s t. s.network_id ≡ t.network_id → SharesNone s.cidr t.cidr) i.subnets

is_inside_iff :
    (s : Subnet) (n : VirtualNetwork)
    → (is_inside s n ≡ true)
      ↔ ((c : SubnetSpec) × (contains (n.cidr ∷ n.secondary_cidrs) c ≡ true) × IsWithin s.cidr c)
is_inside_iff s n =
    let some_range = any-In_iff (is_subnet_of s.cidr) (n.cidr ∷ n.secondary_cidrs) in
    (
      λ h. let (c, m, sub) = some_range.0 h in (c, m, (is_subnet_of_iff s.cidr c).0 sub),
      λ (c, m, within). some_range.1 (c, m, (is_subnet_of_iff s.cidr c).1 within),
    )

check_fit_iff :
    (i : Infrastructure) (s : Subnet)
    → (no_errors (check_fit i s) ≡ true) ↔ (
        (n : VirtualNetwork)
        → network_of i s ≡ some n
        → (c : SubnetSpec) × (contains (n.cidr ∷ n.secondary_cidrs) c ≡ true) × IsWithin s.cidr c)
unfolding check_fit
check_fit_iff i s = elim (Option-cases (network_of i s)) [
  | inl missing ↦ rw (missing, check_fit) (λ _ n same. absurd (cc), λ _. refl)
  | inr (n, found) ↦
      rw (found, check_fit)
        (
          λ h m same.
              let inside : is_inside s n ≡ true = ground arith in
              let e : n ≡ m = cc in
              subst
                (λ k.
                  (c : SubnetSpec) × (contains (k.cidr ∷ k.secondary_cidrs) c ≡ true)
                  × IsWithin s.cidr c)
                e ((is_inside_iff s n).0 inside),
          λ f. let inside = (is_inside_iff s n).1 (f n refl) in ground arith,
        )
]

overlaps-SharesNone : (s t : SubnetSpec) → (overlaps s t ≡ false) ↔ SharesNone s t
overlaps-SharesNone s t =
    let shared = overlaps_iff s t in
    (
      λ h v a m. elim (Bool-cases (contains_address t v a)) [
        | inl both ↦ absurd (cc (shared.1 (v, a, m, both), h))
        | inr apart ↦ apart
      ],
      λ apart. elim (Bool-cases (overlaps s t)) [
        | inl h ↦ let (v, a, m, n) = shared.0 h in absurd (cc (apart v a m, n))
        | inr h ↦ h
      ],
    )

check_overlaps_iff :
    (xs : List Subnet)
    → (no_errors (check_overlaps xs) ≡ true) ↔ AllPairs (λ s t. overlaps s.cidr t.cidr ≡ false) xs
unfolding check_overlaps
check_overlaps_iff [] = (λ _. tt, λ _. refl)
check_overlaps_iff (x ∷ xs) =
    let parts = no_errors-append (concat_map (overlap_issue x) xs) (check_overlaps xs) in
    let first = no_errors-concat_map_iff (overlap_issue x) xs in
    let each : All (λ t. no_errors (overlap_issue x t) ≡ true) xs
        ↔ All (λ t. overlaps x.cidr t.cidr ≡ false) xs =
      All_iff xs (λ t. ground arith) in
    let rest = check_overlaps_iff xs in
    (
      λ h. (each.0 (first.0 (ground (arith, parts))), rest.0 (ground (arith, parts))),
      λ h. let a = first.1 (each.1 h.0) in let b = rest.1 h.1 in ground (arith, parts),
    )

-- A group of an id that no subnet names is empty.
group_of-nil :
    (xs : List Subnet) (n : String)
    → contains (map (λ s. s.network_id) xs) n ≡ false
    → group_of xs n ≡ []
group_of-nil [] n h = refl
group_of-nil (x ∷ xs) n h = ground (arith, group_of-nil xs n)

groups_iff :
    (xs : List Subnet)
    → All
        (λ n. no_errors (check_overlaps (group_of xs n)) ≡ true)
        (dedup (map (λ s. s.network_id) xs))
      ↔ ((n : String) → no_errors (check_overlaps (group_of xs n)) ≡ true)
unfolding check_overlaps
groups_iff xs =
    let ids = map (λ s. s.network_id) xs in
    let members = All-In_iff (λ n. no_errors (check_overlaps (group_of xs n)) ≡ true) (dedup ids) in
    (
      λ h n. elim (Bool-cases (contains ids n)) [
        | inl there ↦ members.0 h n (contains-dedup ids n ∙ there)
        | inr missing ↦ rw (group_of-nil xs n missing) refl
      ],
      λ h. members.1 (λ n _. h n),
    )

apart_iff :
    (xs : List Subnet)
    → ((n : String) → no_errors (check_overlaps (group_of xs n)) ≡ true)
      ↔ AllPairs (λ s t. s.network_id ≡ t.network_id → SharesNone s.cidr t.cidr) xs
apart_iff xs =
    let grouped = λ (n : String).
      AllPairs-filter_iff (λ (s : Subnet). s.network_id == n)
        (λ s t. overlaps s.cidr t.cidr ≡ false) xs in
    let inside =
      AllPairs-forall_iff
        (λ (n : String) (s t : Subnet).
          (s.network_id == n) ≡ true → (t.network_id == n) ≡ true → overlaps s.cidr t.cidr ≡ false)
        xs in
    let pairs =
      AllPairs-iff
        {P = λ s t.
          (n : String)
          → (s.network_id == n) ≡ true
          → (t.network_id == n) ≡ true
          → overlaps s.cidr t.cidr ≡ false}
        {Q = λ s t. s.network_id ≡ t.network_id → SharesNone s.cidr t.cidr} xs
        (λ s t. (
          λ h same. (overlaps-SharesNone s.cidr t.cidr).0 (
              h t.network_id ((eq_iff s.network_id t.network_id).1 same)
                ((eq_iff t.network_id t.network_id).1 refl)),
          λ h n p q.
              (overlaps-SharesNone s.cidr t.cidr).1
                (h ((eq_iff s.network_id n).0 p ∙ sym ((eq_iff t.network_id n).0 q))),
        )) in
    (
      λ h. pairs.0 (inside.0 (λ n. (grouped n).0 ((check_overlaps_iff (group_of xs n)).0 (h n)))),
      λ h n. (check_overlaps_iff (group_of xs n)).1 ((grouped n).1 (inside.1 (pairs.1 h) n)),
    )

pub validate_subnets_iff :
    (a : CloudArchitecture) → (no_errors (validate_subnets a) ≡ true) ↔ IsSubnetted a.infrastructure
unfolding validate_subnets
validate_subnets_iff a =
    let i = a.infrastructure in
    let ids = dedup (map (λ s. s.network_id) i.subnets) in
    let check_group = λ (n : String). check_overlaps (group_of i.subnets n) in
    let parts =
      no_errors-append (concat_map (check_fit i) i.subnets) (concat_map check_group ids) in
    let fits = no_errors-concat_map_iff (check_fit i) i.subnets in
    let each = All_iff i.subnets (check_fit_iff i) in
    let groups = no_errors-concat_map_iff check_group ids in
    let all_groups = groups_iff i.subnets in
    let pairs = apart_iff i.subnets in
    (
      λ h. record {
        inside = each.0 (fits.0 (ground (arith, parts)));
        apart = pairs.0 (all_groups.0 (groups.0 (ground (arith, parts))));
      },
      λ w.
          let first = fits.1 (each.1 w.inside) in
          let second = groups.1 (all_groups.1 (pairs.1 w.apart)) in ground (arith, parts),
    )
