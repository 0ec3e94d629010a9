-- ===== src/Cloud/Sound/Addresses.antt =====
-- The addresses that an interface may have in a subnet.
use topo_forge_ai.Cloud.Validators.Placement.{Parser, contains_text, is_aws_reserved}
use topo_forge_ai.Network.{
  contains_address, SubnetSpec, Version, v4, same_version, broadcast_address, same_version_iff,
}
use topo_forge_ai.Prelude.{
  some, none, true, false, inl, inr, String, ℕ, ◌≡◌, ◌&&◌, ◌≤◌, not, arith, ◌+◌, ◌↔◌, ◌<◌, leb,
  Option-cases, ◌-◌, ◌||◌, ◌==◌, ℕ-Eq,
}

contains_address-above :
    (s : SubnetSpec) (v : Version) (a : ℕ) → contains_address s v a ≡ true → s.network_address ≤ a
unfolding contains_address
contains_address-above s v a inside = ground arith

module _ (ip_address : Parser) where
  -- A text is an address of the subnet that, in IPv4, is neither among the first four nor the last.
  abbrev pub IsUsable : SubnetSpec → String → Type 0
  IsUsable s ip =
      (v : Version) × (a : ℕ) × (ip_address ip ≡ some (v, a))
      × (contains_address s v a ≡ true)
      × (s.version ≡ v4 → (s.network_address + 3 < a) × ¬ a ≡ broadcast_address s)

  tests-read :
      (s : SubnetSpec) (ip : String) (v : Version) (a : ℕ)
      → ip_address ip ≡ some (v, a)
      → (contains_text ip_address s ip && not (is_aws_reserved ip_address ip s)) ≡ (
          contains_address s v a
          && not (
              same_version s.version v4
              && (leb (a - s.network_address) 3 || a == broadcast_address s)))
  unfolding contains_text is_aws_reserved
  tests-read s ip v a read = ground arith

  contains_text-unread :
      (s : SubnetSpec) (ip : String) → ip_address ip ≡ none → contains_text ip_address s ip ≡ false
  unfolding contains_text
  contains_text-unread s ip unread = ground arith

  pub IsUsable-iff :
      (s : SubnetSpec) (ip : String)
      → ((contains_text ip_address s ip && not (is_aws_reserved ip_address ip s)) ≡ true)
        ↔ IsUsable s ip
  IsUsable-iff s ip = elim (Option-cases (ip_address ip)) [
    | inl unread ↦ (
      λ h. absurd (ground (arith, contains_text-unread s ip unread)),
      λ w. let e = w.2 in absurd (cc),
    )
    | inr ((v, a), read) ↦ (
      λ h. (
        v,
        a,
        read,
        ground (arith, tests-read s ip v a read),
        λ four.
            let inside : contains_address s v a ≡ true = ground (arith, tests-read s ip v a read) in
            let above = contains_address-above s v a inside in
            ground (arith, tests-read s ip v a read, same_version_iff s.version v4),
      ),
      λ (v', a', read', inside, free).
          let above = contains_address-above s v' a' inside in
          ground (arith, tests-read s ip v' a' read', same_version_iff s.version v4),
    )
  ]
