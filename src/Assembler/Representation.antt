-- ===== src/Assembler/Representation.antt =====
-- `classify_representation` and `_default_kind` of src/infrastructure/rag/cloud_assembler.py: what a
-- component becomes. What `str.lower` makes of a text is a parameter.
use topo_forge_ai.Assembler.Gateways.{occurs_in}
use topo_forge_ai.Identifiers.{is_empty_text, length_of}
use topo_forge_ai.Topology.{Pair-Eq, Node}
use topo_forge_ai.Prelude.{
  some, none, [], true, false, inl, inr, ◌∷◌, List, String, Option, contains, if◌then◌else◌, ◌≡◌,
  All, String-Eq, ◌⊎◌, ◌≤◌, largest_of-filter, ap, largest_of, All-In_iff, filter,
}

-- `_REPRESENTATION_KEYWORDS`
abbrev pub representation_keywords : List (String × String)
representation_keywords =
    ("transit gateway", "transit_gateway")
    ∷ ("transit_gateway", "transit_gateway")
    ∷ ("nat gateway", "nat_gateway")
    ∷ ("nat_gateway", "nat_gateway")
    ∷ ("internet gateway", "internet_gateway")
    ∷ ("internet_gateway", "internet_gateway")
    ∷ ("vpc peering", "peering")
    ∷ ("peering", "peering")
    ∷ ("security group", "security_group")
    ∷ ("security_group", "security_group")
    ∷ ("network firewall", "security_group")
    ∷ ("load balancer", "load_balancer")
    ∷ ("load_balancer", "load_balancer")
    ∷ ("subnet", "subnet")
    ∷ ("vpc", "virtual_network")
    ∷ ("rds", "database")
    ∷ ("database", "database")
    ∷ ("ec2", "compute")
    ∷ ("instance", "compute")
    ∷ ("compute", "compute")
    ∷ ("container", "compute")
    ∷ ("appliance", "compute")
    ∷ ("host", "compute")
    ∷ []

abbrev kind_of : Option (String × String) → Option String
kind_of none = none
kind_of (some k) = some k.1

-- The kind of the longest keyword that occurs in the text.
abbrev pub kind_in : String → Option String
kind_in lowered =
    kind_of (
      largest_of (λ k. length_of k.0) (filter (λ k. occurs_in lowered k.0) representation_keywords))

unfoldable pub classify_representation : (String → String) → Option String → Option String
classify_representation lower representation = elim representation [
  | none ↦ none
  | some text ↦ if is_empty_text text then none else kind_in (lower text)
]

abbrev pub endpoint_types : List String
endpoint_types = "server" ∷ "pc" ∷ "database" ∷ "storage" ∷ []

-- What a component becomes when the plan said nothing about it.
unfoldable pub default_kind : Node → Option String
default_kind n =
    if contains endpoint_types n.type
    then some "compute"
    else (if contains ("router" ∷ "gateway" ∷ []) n.type then some "compute" else none)

-- The keyword is in the table and in the text, and no keyword of the table in the text is longer.
pub record IsKeyword (text kind : String) : Type 0 where
  pub keyword : String
  pub listed : contains representation_keywords (keyword, kind) ≡ true
  pub occurs : occurs_in text keyword ≡ true
  pub longest :
      All
        (λ k. occurs_in text k.0 ≡ true → length_of k.0 ≤ length_of keyword)
        representation_keywords

-- A representation that is given is classified by the longest keyword of the table that occurs in its
-- lower-case text, and not at all exactly where none occurs.
pub classify_representation_lem :
    (lower : String → String) (text : String)
    → is_empty_text text ≡ false
    → ((classify_representation lower (some text) ≡ none)
        × All (λ k. occurs_in (lower text) k.0 ≡ false) representation_keywords)
      ⊎ ((kind : String) × (classify_representation lower (some text) ≡ some kind)
          × IsKeyword (lower text) kind)
unfolding classify_representation
classify_representation_lem lower text given =
    rw given
      (elim (largest_of-filter (λ k. length_of k.0) (λ k. occurs_in (lower text) k.0)
        representation_keywords) [
          | inl (nothing, never) ↦ inl (ap kind_of nothing, never)
          | inr (k, found, h) ↦ inr (
            k.1,
            ap kind_of found,
            record {
              keyword = k.0;
              listed =
                  h.member (λ e. contains representation_keywords (e.0, e.1) ≡ true)
                    ((All-In_iff _ representation_keywords).1 (λ x m. m));
              occurs = h.passes;
              longest = h.largest;
            },
          )
        ])
