-- ===== src/Assembler/Supernet/Wider.antt =====
-- Networks, as `ipaddress` makes them, and the next wider one of each.
use topo_forge_ai.Assembler.Supernet.{supernet}
use topo_forge_ai.Network.Blocks.{
  IsAligned, smaller_nested, canonical-IsAligned, num_addresses-positive, is_subnet_of_iff,
}
use topo_forge_ai.Network.{
  SubnetSpec, is_subnet_of, contains_address, broadcast_address, Version, width, same_version_iff,
  canonical, num_addresses,
}
use topo_forge_ai.Prelude.{
  true, false, refl, inl, inr, ◌≡◌, ◌<◌, ◌≤◌, arith, ℕ, Bool-cases, sym, ◌∙◌, ltb, ◌^◌, ap, ◌-◌,
  ◌*◌,
}
use native.Mathlib.Nat.{div-mul-le_self, lt_of_mul-lt-mul_right}

-- A subnet as `ipaddress` makes it: it starts at a multiple of its size, below the end of the
-- addresses, and its prefix is one of its version.
pub record IsNetwork (s : SubnetSpec) : Type 0 where
  pub aligned : IsAligned s
  pub prefix : s.prefix_length ≤ width s.version
  pub start : s.network_address < 2 ^ width s.version

pub is_subnet_of_trans :
    (r s t : SubnetSpec)
    → is_subnet_of r s ≡ true
    → is_subnet_of s t ≡ true
    → is_subnet_of r t ≡ true
unfolding is_subnet_of
is_subnet_of_trans r s t h k = ground (
  arith,
  same_version_iff r.version s.version,
  same_version_iff s.version t.version,
  same_version_iff r.version t.version,
)

pub is_subnet_of_refl : (s : SubnetSpec) → is_subnet_of s s ≡ true
unfolding is_subnet_of
is_subnet_of_refl s = ground (arith, same_version_iff s.version s.version)

pub is_subnet_of-version : (s t : SubnetSpec) → is_subnet_of s t ≡ true → s.version ≡ t.version
unfolding is_subnet_of
is_subnet_of-version s t h = ground (arith, same_version_iff s.version t.version)

-- A subnet has its own first address.
pub contains_address-first :
    (s : SubnetSpec) → contains_address s s.version s.network_address ≡ true
unfolding contains_address broadcast_address
contains_address-first s =
    ground (arith, same_version_iff s.version s.version, num_addresses-positive s)

-- The subnet of an address with a prefix is a network.
pub canonical-IsNetwork :
    (v : Version) (address p : ℕ)
    → p ≤ width v
    → address < 2 ^ width v
    → IsNetwork (canonical v address p)
unfolding canonical
canonical-IsNetwork v address p short below = record {
  aligned = (canonical-IsAligned v address p).0;
  prefix = short;
  start = omega (arith, div-mul-le_self address (2 ^ (width v - p)), below);
}

-- A network in another: the one whose host part is not longer, if they share an address.
pub nested :
    (s t : SubnetSpec) (v : Version) (a : ℕ)
    → IsNetwork s
    → IsNetwork t
    → s.version ≡ t.version
    → t.prefix_length ≤ s.prefix_length
    → contains_address s v a ≡ true
    → contains_address t v a ≡ true
    → is_subnet_of s t ≡ true
nested s t v a hs ht same shorter in_s in_t =
    smaller_nested s t hs.aligned ht.aligned (omega (arith, shorter, ap width same)) v a in_s in_t

module _ (s : SubnetSpec) (h : IsNetwork s) (wide : 0 < s.prefix_length) where
  pub supernet-IsNetwork : IsNetwork (supernet s)
  unfolding supernet
  supernet-IsNetwork =
      canonical-IsNetwork s.version s.network_address (s.prefix_length - 1)
        (omega (arith, h.prefix)) h.start

  supernet-first : contains_address (supernet s) s.version s.network_address ≡ true
  unfolding supernet
  supernet-first = (canonical-IsAligned s.version s.network_address (s.prefix_length - 1)).1

  pub supernet-version : (supernet s).version ≡ s.version
  unfolding supernet canonical
  supernet-version = refl

  pub supernet-prefix : (supernet s).prefix_length ≡ s.prefix_length - 1
  unfolding supernet canonical
  supernet-prefix = refl

  pub supernet-covers : is_subnet_of s (supernet s) ≡ true
  supernet-covers =
      nested s (supernet s) s.version s.network_address h supernet-IsNetwork (sym supernet-version)
        (omega (arith, supernet-prefix)) (contains_address-first s) supernet-first

  pub supernet-least :
      (t : SubnetSpec)
      → IsNetwork t
      → is_subnet_of s t ≡ true
      → t.prefix_length < s.prefix_length
      → is_subnet_of (supernet s) t ≡ true
  supernet-least t ht inside shorter =
      nested (supernet s) t s.version s.network_address supernet-IsNetwork ht
        (supernet-version ∙ is_subnet_of-version s t inside) (omega (arith, supernet-prefix))
        supernet-first
        ((is_subnet_of_iff s t).0 inside s.version s.network_address (contains_address-first s))

-- A network that holds both of two, of which the one does not hold the other, is wider than that.
pub wider_prefix :
    (network current t : SubnetSpec)
    → IsNetwork current
    → IsNetwork t
    → is_subnet_of network t ≡ true
    → is_subnet_of current t ≡ true
    → is_subnet_of network current ≡ false
    → t.prefix_length < current.prefix_length
wider_prefix network current t hc ht in_t c_in_t outside =
    elim (Bool-cases (ltb t.prefix_length current.prefix_length)) [
      | inl less ↦ ground arith
      | inr more ↦
          let first = contains_address-first current in
          let back =
            nested t current current.version current.network_address ht hc
              (sym (is_subnet_of-version current t c_in_t)) (ground arith)
              ((is_subnet_of_iff current t).0 c_in_t current.version current.network_address first)
              first in
          let inside = is_subnet_of_trans network t current in_t back in absurd (cc)
    ]

-- The network of the prefix 0 has every address.
pub contains_address-all :
    (s : SubnetSpec) (a : ℕ)
    → IsNetwork s
    → s.prefix_length ≡ 0
    → a < 2 ^ width s.version
    → contains_address s s.version a ≡ true
unfolding contains_address broadcast_address num_addresses
contains_address-all s a h whole below =
    let n = 2 ^ width s.version in
    let size : num_addresses s ≡ n = ap (λ k. 2 ^ k) (omega (arith, whole)) in
    let starts : s.network_address ≡ h.aligned.block * n =
      h.aligned.starts ∙ ap (λ k. h.aligned.block * k) size in
    let first : h.aligned.block < 1 = lt_of_mul-lt-mul_right n (omega (arith, h.start, starts)) in
    let zeroth : h.aligned.block ≡ 0 = omega (arith, first) in
    let from : s.network_address ≡ 0 = grind (arith, starts, zeroth) in
    ground (arith, same_version_iff s.version s.version, size, from)
