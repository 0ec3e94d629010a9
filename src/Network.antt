-- ===== src/Network.antt =====
-- src/domain/network/models.py: subnets, host addresses, interfaces, networks and VLANs. An address
-- is its number, as the module `ipaddress` has it, and a subnet its first address with its prefix
-- length: the texts are not modelled, nor MAC addresses, evidence and free-form attributes.
pub mod Blocks
pub mod Hosts
use topo_forge_ai.Provenance.{Evidence, Sourced}
use topo_forge_ai.Prelude.{
  some, none, [], true, false, ok, raise, ◌∷◌, ℕ, Bool, Result, Option, String, List, ◌^◌, ◌+◌,
  if◌then◌else◌, ◌&&◌, any, ◌++◌, ◌-◌, leb, ◌||◌, not, ◌==◌, is_some, ◌/◌, ℕ-Eq, ◌*◌, ◌≡◌, Eq, ◌↔◌,
  arith,
}

pub data Version : Type 0 where
  v4 v6 : Version

-- How many bits an address has.
abbrev pub width : Version → ℕ
width v4 = 32
width v6 = 128

abbrev pub same_version : Version → Version → Bool
same_version v4 v4 = true
same_version v6 v6 = true
same_version _ _ = false

pub same_version_iff : (a b : Version) → (same_version a b ≡ true) ↔ (a ≡ b)
same_version_iff a b = ground arith

pub record SubnetSpec : Type 0 where
  pub version : Version
  pub network_address : ℕ
  pub prefix_length : ℕ

-- `network.num_addresses`
unfoldable pub num_addresses : SubnetSpec → ℕ
num_addresses s = 2 ^ (width s.version - s.prefix_length)

unfoldable pub broadcast_address : SubnetSpec → ℕ
unfolding num_addresses
broadcast_address s = s.network_address + (num_addresses s - 1)

-- `ipaddress.ip_network(address/prefix, strict=False)`: the host bits are cleared.
unfoldable pub canonical : Version → ℕ → ℕ → SubnetSpec
canonical v address prefix_length =
    let size = 2 ^ (width v - prefix_length) in
    record { version = v; network_address = (address / size) * size; prefix_length = prefix_length }

unfoldable pub usable_host_count : SubnetSpec → ℕ
unfolding num_addresses
usable_host_count s =
    let total = num_addresses s in
    if same_version s.version v4 && leb 31 s.prefix_length
    then total
    else if same_version s.version v6 && leb 127 s.prefix_length
    then total
    else total - 2

-- `address in network`: an address of the other version is not.
unfoldable pub contains_address : SubnetSpec → Version → ℕ → Bool
unfolding broadcast_address
contains_address s v address =
    same_version v s.version && (leb s.network_address address && leb address (broadcast_address s))

-- `overlaps` asks whether an end of one lies in the other.
unfoldable pub overlaps : SubnetSpec → SubnetSpec → Bool
unfolding contains_address
overlaps s t =
    if same_version s.version t.version
    then contains_address t s.version s.network_address
      || (contains_address t s.version (broadcast_address s)
          || (contains_address s t.version t.network_address
              || contains_address s t.version (broadcast_address t)))
    else false

unfoldable pub is_subnet_of : SubnetSpec → SubnetSpec → Bool
unfolding broadcast_address
is_subnet_of s t =
    if same_version s.version t.version
    then leb t.network_address s.network_address && leb (broadcast_address s) (broadcast_address t)
    else false

pub record IpAddressSpec : Type 0 where
  pub version : Version
  pub address : ℕ
  pub prefix_length : Option ℕ

pub data AddressError : Type 0 where
  invalid_prefix : ℕ → AddressError

unfoldable pub valid_prefix : IpAddressSpec → Result AddressError IpAddressSpec
valid_prefix a = elim a.prefix_length [
  | none ↦ ok a
  | some p ↦ if leb p (width a.version) then ok a else raise (invalid_prefix p)
]

unfoldable pub subnet : IpAddressSpec → Option SubnetSpec
unfolding canonical
subnet a = elim a.prefix_length [ none ↦ none | some p ↦ some (canonical a.version a.address p) ]

-- The shortest prefix that reserves no address.
abbrev pub reserves_none : Version → ℕ
reserves_none v4 = 31
reserves_none v6 = 127

unfoldable pub is_network_address : IpAddressSpec → Bool
unfolding subnet
is_network_address a = elim (subnet a) [
  | none ↦ false
  | some n ↦
      if leb (reserves_none a.version) n.prefix_length
      then false
      else a.address == n.network_address
]

unfoldable pub is_broadcast_address : IpAddressSpec → Bool
unfolding subnet broadcast_address
is_broadcast_address a = elim (subnet a) [
  | none ↦ false
  | some n ↦
      if not (same_version a.version v4) || leb 31 n.prefix_length
      then false
      else a.address == broadcast_address n
]

-- Equality of the texts `network/prefix`.
abbrev pub same_cidr : SubnetSpec → SubnetSpec → Bool
same_cidr s t =
    same_version s.version t.version
    && (s.network_address == t.network_address && s.prefix_length == t.prefix_length)

pub same_cidr_iff : (s t : SubnetSpec) → (same_cidr s t ≡ true) ↔ (s ≡ t)
same_cidr_iff s t = ground (arith, same_version_iff s.version t.version)

instance abbrev pub SubnetSpec-Eq : Eq SubnetSpec
SubnetSpec-Eq = record { same_as = same_cidr; agrees = same_cidr_iff }

unfoldable pub same_subnet_as : IpAddressSpec → IpAddressSpec → Option Bool
unfolding subnet
same_subnet_as a b = elim (subnet a) [
  | none ↦ none
  | some s ↦ elim (subnet b) [ none ↦ none | some t ↦ some (same_cidr s t) ]
]

pub data InterfaceRole : Type 0 where
  lan wan transit management loopback trunk access unknown : InterfaceRole

pub record Interface : Type 0 where
  pub id : String
  pub node_id : String
  pub name : String
  pub role : InterfaceRole
  pub addresses : List (Sourced IpAddressSpec)
  pub vlan_id : Option ℕ
  pub allowed_vlans : List ℕ
  pub enabled : Bool
  pub mtu : Option ℕ
  pub description : Option String
  pub edge_id : Option String

unfoldable pub primary_address : Interface → Option IpAddressSpec
primary_address i = elim i.addresses [ [] ↦ none | a ∷ _ ↦ some a.value ]

unfoldable pub has_complete_address : Interface → Bool
has_complete_address i = any (λ a. is_some a.value.prefix_length) i.addresses

-- `[item.value.subnet for item in addresses if item.value.subnet is not None]`
abbrev pub subnets_of : List (Sourced IpAddressSpec) → List SubnetSpec
subnets_of [] = []
subnets_of (a ∷ rest) = elim (subnet a.value) [
  | none ↦ subnets_of rest
  | some s ↦ s ∷ subnets_of rest
]

unfoldable pub subnets : Interface → List SubnetSpec
subnets i = subnets_of i.addresses

unfoldable pub with_address : IpAddressSpec → Evidence → Interface → Interface
with_address address evidence i = record i {
  addresses = i.addresses ++ record { value = address; evidence = evidence; superseded = [] } ∷ [];
}
