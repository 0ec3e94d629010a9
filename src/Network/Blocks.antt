-- ===== src/Network/Blocks.antt =====
use native.Mathlib.Nat.{
  two-pow-succ, div-mul-le_self, lt-div-mul-add, lt_of_mul-lt-mul_right, mul-le-mul_right,
}
-- Subnets as blocks of addresses (`SubnetSpec` of src/domain/network/models.py): which addresses one
-- holds, and how two of them lie to each other.
use topo_forge_ai.Network.{
  same_version_iff, Version, num_addresses, SubnetSpec, canonical, overlaps, is_subnet_of,
  contains_address, width, broadcast_address,
}
use topo_forge_ai.Prelude.{
  true, zero, suc, ℕ, ◌<◌, ◌≡◌, ◌^◌, ◌↔◌, arith, ◌+◌, ◌*◌, ◌⊎◌, ◌-◌, refl, max, ◌/◌, ◌≤◌, ap, ◌∙◌,
  inl, inr, Bool-cases, leb, sym,
}

pub pow_positive : (k : ℕ) → 0 < 2 ^ k
pow_positive zero = omega arith
pow_positive (suc k) = omega (arith, pow_positive k)

pow_add : (d i : ℕ) → 2 ^ (d + i) ≡ 2 ^ d * 2 ^ i
pow_add zero i = grind arith
pow_add (suc d) i = grind (arith, pow_add d i, two-pow-succ d, two-pow-succ (d + i))

pub num_addresses-positive : (s : SubnetSpec) → 0 < num_addresses s
unfolding num_addresses
num_addresses-positive s = pow_positive (width s.version - s.prefix_length)

-- The subnet starts at a multiple of its size.
pub record IsAligned (s : SubnetSpec) : Type 0 where
  pub block : ℕ
  pub starts : s.network_address ≡ block * num_addresses s

-- An address with a prefix lies in its subnet, which starts at a multiple of its size.
pub canonical-IsAligned :
    (v : Version) (address p : ℕ)
    → IsAligned (canonical v address p)
      × (contains_address (canonical v address p) v address ≡ true)
unfolding canonical num_addresses contains_address
canonical-IsAligned v address p =
    let size = 2 ^ (width v - p) in
    (
      record { block = address / size; starts = refl },
      ground (
        arith,
        same_version_iff v v,
        div-mul-le_self address size,
        lt-div-mul-add {a = address} (pow_positive (width v - p)),
      ),
    )

block_of : (q k n a : ℕ) → q * n ≤ a → a < q * n + n → k * n ≤ a → a < k * n + n → q ≡ k
block_of q k n a h₁ h₂ h₃ h₄ =
    let below : q < k + 1 = lt_of_mul-lt-mul_right n (omega arith) in
    let above : k < q + 1 = lt_of_mul-lt-mul_right n (omega arith) in omega arith

-- An aligned subnet is the subnet of each of its addresses with its prefix.
pub canonical-contains_address :
    (s : SubnetSpec) (v : Version) (a : ℕ)
    → IsAligned s
    → contains_address s v a ≡ true
    → canonical v a s.prefix_length ≡ s
unfolding canonical contains_address broadcast_address num_addresses
canonical-contains_address s v a h inside =
    let facts : (v ≡ s.version)
        × (s.network_address ≤ a)
        × (a ≤ s.network_address + (num_addresses s - 1)) =
      ground (arith, same_version_iff v s.version) in
    let size = num_addresses s in
    let block : a / size ≡ h.block =
      block_of (a / size) h.block size a (div-mul-le_self a size)
        (lt-div-mul-add {a = a} (num_addresses-positive s)) (omega (arith, h.starts))
        (omega (arith, h.starts, num_addresses-positive s)) in
    let start : (a / size) * size ≡ s.network_address = ap (λ q. q * size) block ∙ sym h.starts in
    let same : canonical s.version a s.prefix_length ≡ s = λ i. record {
      version = s.version;
      network_address = start i;
      prefix_length = s.prefix_length;
    } in
    rw facts.0 same

-- Two subnets overlap exactly when they share an address.
pub overlaps_iff :
    (s t : SubnetSpec)
    → (overlaps s t ≡ true) ↔ (
        (v : Version) × (a : ℕ) × (contains_address s v a ≡ true) × (contains_address t v a ≡ true))
unfolding overlaps contains_address broadcast_address
overlaps_iff s t = (
  λ h. (
    s.version,
    max s.network_address t.network_address,
    ground (
      arith,
      num_addresses-positive s,
      num_addresses-positive t,
      same_version_iff s.version t.version,
      same_version_iff s.version s.version,
    ),
    ground (
      arith,
      num_addresses-positive s,
      num_addresses-positive t,
      same_version_iff s.version t.version,
    ),
  ),
  λ (v, a, in_s, in_t). ground (
    arith,
    num_addresses-positive s,
    num_addresses-positive t,
    same_version_iff v s.version,
    same_version_iff v t.version,
    same_version_iff s.version t.version,
    same_version_iff t.version s.version,
    same_version_iff s.version s.version,
  ),
)

-- The one subnet has no address that the other lacks.
abbrev pub IsWithin : SubnetSpec → SubnetSpec → Type 0
IsWithin s t = (v : Version) (a : ℕ) → contains_address s v a ≡ true → contains_address t v a ≡ true

-- One subnet is within another exactly when it has no address that the other lacks.
pub is_subnet_of_iff : (s t : SubnetSpec) → (is_subnet_of s t ≡ true) ↔ IsWithin s t
unfolding is_subnet_of contains_address broadcast_address
is_subnet_of_iff s t = (
  λ h v a in_s. ground (
    arith,
    num_addresses-positive s,
    num_addresses-positive t,
    same_version_iff s.version t.version,
    same_version_iff v s.version,
  ),
  λ within. ground (
    arith,
    num_addresses-positive s,
    same_version_iff s.version s.version,
    same_version_iff s.version t.version,
    within s.version s.network_address,
    within s.version (s.network_address + (num_addresses s - 1)),
  ),
)

-- A block of the size n and one of the size c * n that share an address: the one is in the other.
block_nested :
    (k l c n a : ℕ)
    → k * n ≤ a
    → a < (k + 1) * n
    → (l * c) * n ≤ a
    → a < ((l + 1) * c) * n
    → ((l * c) * n ≤ k * n) × ((k + 1) * n ≤ ((l + 1) * c) * n)
block_nested k l c n a h₁ h₂ h₃ h₄ =
    let from : l * c < k + 1 = lt_of_mul-lt-mul_right n (omega arith) in
    let to : k < (l + 1) * c = lt_of_mul-lt-mul_right n (omega arith) in
    (mul-le-mul_right n (omega arith), mul-le-mul_right n (omega arith))

-- The larger size of two is a multiple of the smaller.
pub size_multiple : (i j : ℕ) → i ≤ j → 2 ^ j ≡ 2 ^ (j - i) * 2 ^ i
size_multiple i j h = ap (λ m. 2 ^ m) (omega arith) ∙ pow_add (j - i) i

-- If the host part of `s` is not longer than that of `t`, then `s` lies in `t`.
pub smaller_nested :
    (s t : SubnetSpec)
    → IsAligned s
    → IsAligned t
    → width s.version - s.prefix_length ≤ width t.version - t.prefix_length
    → (v : Version) (a : ℕ) → contains_address s v a ≡ true
    → contains_address t v a ≡ true
    → is_subnet_of s t ≡ true
unfolding is_subnet_of contains_address broadcast_address num_addresses
smaller_nested s t hs ht shorter v a in_s in_t =
    let i = width s.version - s.prefix_length in
    let j = width t.version - t.prefix_length in
    let c = 2 ^ (j - i) in
    let facts : (s.version ≡ t.version)
        × (s.network_address ≤ a)
        × (a ≤ s.network_address + (2 ^ i - 1))
        × (t.network_address ≤ a)
        × (a ≤ t.network_address + (2 ^ j - 1)) =
      ground (arith, same_version_iff v s.version, same_version_iff v t.version) in
    let start : t.network_address ≡ (ht.block * c) * 2 ^ i =
      grind (arith, ht.starts, size_multiple i j shorter) in
    let size : ((ht.block + 1) * c) * 2 ^ i ≡ t.network_address + 2 ^ j =
      grind (arith, start, size_multiple i j shorter) in
    let bounds =
      block_nested hs.block ht.block c (2 ^ i) a (omega (arith, hs.starts))
        (grind (arith, hs.starts, pow_positive i)) (omega arith) (omega (arith, pow_positive j)) in
    ground (
      arith,
      same_version_iff s.version t.version,
      bounds.0,
      bounds.1,
      start,
      size,
      pow_positive i,
      pow_positive j,
    )

nested_of_overlap :
    (s t : SubnetSpec)
    → IsAligned s
    → IsAligned t
    → overlaps s t ≡ true
    → (is_subnet_of s t ≡ true) ⊎ (is_subnet_of t s ≡ true)
unfolding overlaps is_subnet_of contains_address broadcast_address num_addresses
nested_of_overlap s t hs ht h =
    let (v, a, in_s, in_t) = (overlaps_iff s t).0 h in
    elim (Bool-cases
      (leb (width s.version - s.prefix_length) (width t.version - t.prefix_length))) [
        | inl le ↦ inl (smaller_nested s t hs ht (ground arith) v a in_s in_t)
        | inr ge ↦ inr (smaller_nested t s ht hs (ground arith) v a in_t in_s)
      ]

-- A subnet has its first address.
network_address_inside : (s : SubnetSpec) → contains_address s s.version s.network_address ≡ true
unfolding contains_address broadcast_address
network_address_inside s =
    ground (arith, num_addresses-positive s, same_version_iff s.version s.version)

overlap_of_within : (s t : SubnetSpec) → IsWithin s t → overlaps s t ≡ true
overlap_of_within s t within =
    let inside = network_address_inside s in
    (overlaps_iff s t).1
      (s.version, s.network_address, inside, within s.version s.network_address inside)

overlap_of_around : (s t : SubnetSpec) → IsWithin t s → overlaps s t ≡ true
overlap_of_around s t within =
    let inside = network_address_inside t in
    (overlaps_iff s t).1
      (t.version, t.network_address, within t.version t.network_address inside, inside)

-- Two subnets that start at multiples of their sizes overlap exactly when one of them is a subnet of
-- the other, which it is exactly when it has no address that the other lacks.
pub overlaps-nested :
    (s t : SubnetSpec)
    → IsAligned s
    → IsAligned t
    → ((overlaps s t ≡ true) ↔ ((is_subnet_of s t ≡ true) ⊎ (is_subnet_of t s ≡ true)))
      × ((is_subnet_of s t ≡ true) ↔ IsWithin s t)
      × ((is_subnet_of t s ≡ true) ↔ IsWithin t s)
overlaps-nested s t hs ht = (
  (
    nested_of_overlap s t hs ht,
    λ nested. elim nested [
      | inl inner ↦ overlap_of_within s t ((is_subnet_of_iff s t).0 inner)
      | inr outer ↦ overlap_of_around s t ((is_subnet_of_iff t s).0 outer)
    ],
  ),
  is_subnet_of_iff s t,
  is_subnet_of_iff t s,
)
