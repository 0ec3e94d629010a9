-- ===== src/Network/Hosts.antt =====
-- How many hosts a subnet has room for (`usable_host_count` of src/domain/network/models.py).
use topo_forge_ai.Network.Blocks.{IsAligned, canonical-contains_address, pow_positive}
use topo_forge_ai.Network.{
  same_version_iff, SubnetSpec, is_network_address, IpAddressSpec, is_broadcast_address,
  contains_address, reserves_none, same_version, v4, broadcast_address, canonical, num_addresses,
  usable_host_count, width, v6, Version,
}
use topo_forge_ai.Prelude.{
  range, refl, some, [], true, zero, suc, ◌∷◌, ℕ, List, ◌≤◌, Bool, length, ◌<◌, All, filter, not,
  ◌+◌, arith, ◌≡◌, nat_eq, ◌&&◌, ap, leb, inl, inr, ◌^◌, if◌then◌else◌, Bool-cases, false, ◌∙◌, ◌-◌,
  ◌⊎◌,
}

range-All : (P : ℕ → Type 0) (x n : ℕ) → ((a : ℕ) → x ≤ a → a < x + n → P a) → All P (range x n)
range-All P x zero h = tt
range-All P x (suc n) h = (
  h x (omega arith) (omega arith),
  range-All P (suc x) n (λ a l u. h a (omega arith) (omega arith)),
)

filter_same :
    (p q : ℕ → Bool) (xs : List ℕ)
    → All (λ a. p a ≡ q a) xs
    → length (filter p xs) ≡ length (filter q xs)
filter_same p q [] h = refl
filter_same p q (x ∷ xs) h = ground (arith, h.0, filter_same p q xs h.1)

length-range : (x n : ℕ) → length (filter (λ a. true) (range x n)) ≡ n
length-range x zero = refl
length-range x (suc n) = omega (arith, length-range (suc x) n)

-- All but the last of a range of which `low` is no member.
length-inner :
    (low x n : ℕ)
    → low < x
    → length (filter (λ a. not (nat_eq a low) && not (nat_eq a (x + n))) (range x (suc n))) ≡ n
length-inner low x zero h = ground arith
length-inner low x (suc n) h = ground (arith, length-inner low (suc x) n)

length-ends :
    (x n : ℕ)
    → length (filter (λ a. not (nat_eq a x) && not (nat_eq a (x + suc n))) (range x (suc (suc n))))
      ≡ n
length-ends x n = ground (arith, length-inner x (suc x) n)

-- The address with the prefix of the subnet.
abbrev pub host_of : SubnetSpec → ℕ → IpAddressSpec
host_of s a = record { version = s.version; address = a; prefix_length = some s.prefix_length }

-- An address of the subnet that is neither its first nor its broadcast address, as far as these are
-- reserved.
abbrev pub assignable : SubnetSpec → ℕ → Bool
assignable s a = not (is_network_address (host_of s a)) && not (is_broadcast_address (host_of s a))

assignable_lem :
    (s : SubnetSpec) (a : ℕ)
    → IsAligned s
    → contains_address s s.version a ≡ true
    → (is_network_address (host_of s a)
        ≡ (not (leb (reserves_none s.version) s.prefix_length) && nat_eq a s.network_address))
      × (is_broadcast_address (host_of s a) ≡ (
          same_version s.version v4
          && (not (leb 31 s.prefix_length) && nat_eq a (broadcast_address s))))
unfolding is_network_address is_broadcast_address
assignable_lem s a h inside =
    let same = canonical-contains_address s s.version a h inside in
    let start : (canonical s.version a s.prefix_length).network_address ≡ s.network_address =
      ap (λ r. r.network_address) same in
    let stop : broadcast_address (canonical s.version a s.prefix_length) ≡ broadcast_address s =
      ap broadcast_address same in
    (ground (arith, start), ground (arith, stop))

length-above : (low x n : ℕ) → low < x → length (filter (λ a. not (nat_eq a low)) (range x n)) ≡ n
length-above low x zero h = refl
length-above low x (suc n) h = ground (arith, length-above low (suc x) n)

length-behind : (x n : ℕ) → length (filter (λ a. not (nat_eq a x)) (range x (suc n))) ≡ n
length-behind x n = ground (arith, length-above x (suc x) n)

pow_at_least : (k : ℕ) → 1 < k → 3 < 2 ^ k
pow_at_least zero h = absurd (omega arith)
pow_at_least (suc zero) h = absurd (omega arith)
pow_at_least (suc (suc k)) h = omega (arith, pow_positive k)

-- What the members of an aligned subnet have in common holds of the range of its addresses.
members_All :
    (s : SubnetSpec) (P : ℕ → Type 0)
    → ((a : ℕ) → contains_address s s.version a ≡ true → P a)
    → All P (range s.network_address (num_addresses s))
unfolding contains_address broadcast_address
members_All s P h =
    range-All P s.network_address (num_addresses s)
      (λ a l u. h a (ground (arith, same_version_iff s.version s.version)))

version_facts :
    (v : Version)
    → ((same_version v v4 ≡ true)
        × (same_version v v6 ≡ false)
        × (reserves_none v ≡ 31)
        × (width v ≡ 32))
      ⊎ ((same_version v v4 ≡ false)
          × (same_version v v6 ≡ true)
          × (reserves_none v ≡ 127)
          × (width v ≡ 128))
version_facts v4 = inl (refl, refl, refl, refl)
version_facts v6 = inr (refl, refl, refl, refl)

abbrev count : SubnetSpec → ℕ
count s = length (filter (assignable s) (range s.network_address (num_addresses s)))

-- Where no address is reserved.
count_free :
    (s : SubnetSpec)
    → IsAligned s
    → leb (reserves_none s.version) s.prefix_length ≡ true
    → count s ≡ num_addresses s
count_free s h free =
    let f = version_facts s.version in
    filter_same (assignable s) (λ a. true) (range s.network_address (num_addresses s))
      (members_All s (λ a. assignable s a ≡ true) (λ a m. ground (arith, assignable_lem s a h m)))
    ∙ length-range s.network_address (num_addresses s)

-- Where the first and the last address are.
count_both :
    (s : SubnetSpec) (n : ℕ)
    → IsAligned s
    → num_addresses s ≡ suc (suc n)
    → leb (reserves_none s.version) s.prefix_length ≡ false
    → same_version s.version v4 ≡ true
    → count s ≡ n
unfolding broadcast_address
count_both s n h size reserved four =
    let ends : ℕ → Bool =
      λ a. not (nat_eq a s.network_address) && not (nat_eq a (s.network_address + suc n)) in
    let f = version_facts s.version in
    filter_same (assignable s) ends (range s.network_address (num_addresses s)) (
      members_All s (λ a. assignable s a ≡ ends a)
        (λ a m.
          let stop : broadcast_address s ≡ s.network_address + suc n = omega (arith, size) in
          ground (arith, assignable_lem s a h m, stop)))
    ∙ ap (λ m. length (filter ends (range s.network_address m))) size
    ∙ length-ends s.network_address n

-- Where only the first is.
count_first :
    (s : SubnetSpec) (n : ℕ)
    → IsAligned s
    → num_addresses s ≡ suc n
    → leb (reserves_none s.version) s.prefix_length ≡ false
    → same_version s.version v4 ≡ false
    → count s ≡ n
count_first s n h size reserved six =
    let behind : ℕ → Bool = λ a. not (nat_eq a s.network_address) in
    filter_same (assignable s) behind (range s.network_address (num_addresses s)) (
      members_All s (λ a. assignable s a ≡ behind a)
        (λ a m. ground (arith, assignable_lem s a h m)))
    ∙ ap (λ m. length (filter behind (range s.network_address m))) size
    ∙ length-behind s.network_address n

-- In an aligned IPv4 subnet of a valid prefix, `usable_host_count` is the number of its addresses
-- that are neither the network address nor the broadcast address by the tests of `IPAddressSpec`. In
-- an IPv6 subnet it is that number too if the prefix is at least 127, and one less otherwise.
pub assignable-usable_host_count :
    (s : SubnetSpec)
    → IsAligned s
    → s.prefix_length ≤ width s.version
    → length (filter (assignable s) (range s.network_address (num_addresses s)))
      ≡ usable_host_count s
        + (if same_version s.version v6 && not (leb 127 s.prefix_length) then 1 else 0)
unfolding usable_host_count num_addresses
assignable-usable_host_count s h fits =
    let f = version_facts s.version in
    elim (Bool-cases (leb (reserves_none s.version) s.prefix_length)) [
      | inl free ↦ ground (arith, count_free s h free)
      | inr reserved ↦
          let many = pow_at_least (width s.version - s.prefix_length) (ground arith) in
          elim (Bool-cases (same_version s.version v4)) [
            | inl four ↦
                ground
                  (arith, count_both s (num_addresses s - 2) h (omega (arith, many)) reserved four)
            | inr six ↦
                ground
                  (arith, count_first s (num_addresses s - 1) h (omega (arith, many)) reserved six)
          ]
    ]
