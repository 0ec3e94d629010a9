-- ===== src/NodeTypes.antt =====
-- src/domain/topology/node_types.py: the vocabulary of devices and the mapping of a detector's class
-- names to it. A type of device is its text. What `str.strip` and `str.lower` make of a text is a
-- parameter, `fold`.
pub mod Mapping
use topo_forge_ai.Assembler.Gateways.{occurs_in}
use topo_forge_ai.Assembler.Segments.{add_id}
use topo_forge_ai.Identifiers.{is_slug_code, is_empty_text, length_of}
use Prim.Native.Char.{Char, code}
use topo_forge_ai.Prelude.{
  some, none, [], ◌∷◌, String, List, if◌then◌else◌, Bool, Option, lookup, leb, ◌&&◌, ◌==◌,
  largest_of, String-Eq, filter,
}

abbrev pub unknown_type : String
unknown_type = "unknown"

-- `_DEFAULT_SYNONYMS`
abbrev default_synonyms : List (String × String)
default_synonyms =
    ("router", "router")
    ∷ ("rtr", "router")
    ∷ ("l3switch", "router")
    ∷ ("layer3switch", "router")
    ∷ ("multilayerswitch", "router")
    ∷ ("switch", "switch")
    ∷ ("sw", "switch")
    ∷ ("l2switch", "switch")
    ∷ ("hub", "switch")
    ∷ ("bridge", "switch")
    ∷ ("firewall", "firewall")
    ∷ ("fw", "firewall")
    ∷ ("asa", "firewall")
    ∷ ("utm", "firewall")
    ∷ ("server", "server")
    ∷ ("srv", "server")
    ∷ ("host", "server")
    ∷ ("vm", "server")
    ∷ ("webserver", "server")
    ∷ ("appserver", "server")
    ∷ ("database", "database")
    ∷ ("db", "database")
    ∷ ("dbserver", "database")
    ∷ ("sql", "database")
    ∷ ("pc", "pc")
    ∷ ("workstation", "pc")
    ∷ ("desktop", "pc")
    ∷ ("laptop", "pc")
    ∷ ("client", "pc")
    ∷ ("loadbalancer", "load_balancer")
    ∷ ("lb", "load_balancer")
    ∷ ("elb", "load_balancer")
    ∷ ("alb", "load_balancer")
    ∷ ("accesspoint", "access_point")
    ∷ ("ap", "access_point")
    ∷ ("wifi", "access_point")
    ∷ ("wirelessap", "access_point")
    ∷ ("gateway", "gateway")
    ∷ ("gw", "gateway")
    ∷ ("cloud", "cloud")
    ∷ ("wan", "cloud")
    ∷ ("storage", "storage")
    ∷ ("nas", "storage")
    ∷ ("san", "storage")
    ∷ ("internet", "internet")
    ∷ []

-- `_normalize`
abbrev pub slug_codes : String → String
slug_codes String.[] = String.[]
slug_codes (String.◌∷◌ c s) =
    let rest = slug_codes s in if is_slug_code (code c) then String.◌∷◌ c rest else rest

unfoldable pub normalize : (String → String) → String → String
normalize fold value = slug_codes (fold value)

abbrev pub is_digit : Char → Bool
is_digit c = leb 48 (code c) && leb (code c) 57

-- `key.rstrip("0123456789")`
abbrev pub strip_digits : String → String
strip_digits String.[] = String.[]
strip_digits (String.◌∷◌ c s) =
    let rest = strip_digits s in
    if is_digit c && is_empty_text rest then String.[] else String.◌∷◌ c rest

pub record NodeTypeMapper : Type 0 where
  pub synonyms : List (String × String)
  pub unmapped : List String

abbrev pub default_node_type_mapper : NodeTypeMapper
default_node_type_mapper = record { synonyms = default_synonyms; unmapped = [] }

-- `synonyms[key] = node_type`
abbrev pub put : String → String → List (String × String) → List (String × String)
put key value [] = (key, value) ∷ []
put key value ((k, v) ∷ rest) =
    let later = put key value rest in if k == key then (k, value) ∷ rest else (k, v) ∷ later

unfoldable pub register : (String → String) → String → String → NodeTypeMapper → NodeTypeMapper
unfolding normalize
register fold raw node_type m = record m {
  synonyms = put (normalize fold raw) node_type m.synonyms;
}

-- What is left where neither the key nor the key without its number is a synonym: the longest of the
-- synonyms that occur.
abbrev pub map_longest :
    String → NodeTypeMapper → Option (String × String) → String × NodeTypeMapper
map_longest raw m none = (unknown_type, record m { unmapped = add_id raw m.unmapped })
map_longest raw m (some synonym) = (synonym.1, m)

abbrev pub is_contained : String → String × String → Bool
is_contained key s = leb 3 (length_of s.0) && occurs_in key s.0

abbrev pub map_stripped : String → String → NodeTypeMapper → Option String → String × NodeTypeMapper
map_stripped raw key m (some node_type) = (node_type, m)
map_stripped raw key m none =
    map_longest raw m (largest_of (λ s. length_of s.0) (filter (is_contained key) m.synonyms))

-- An empty key is no synonym here: `if stripped and stripped in self.synonyms`.
abbrev pub find_stripped : String → NodeTypeMapper → Option String
find_stripped key m =
    let stripped = strip_digits key in
    if is_empty_text stripped then none else lookup stripped m.synonyms

abbrev pub map_key : String → String → NodeTypeMapper → Option String → String × NodeTypeMapper
map_key raw key m (some node_type) = (node_type, m)
map_key raw key m none = map_stripped raw key m (find_stripped key m)

unfoldable pub map_type : (String → String) → NodeTypeMapper → String → String × NodeTypeMapper
unfolding normalize
map_type fold m raw =
    let key = normalize fold raw in
    let found = map_key raw key m (lookup key m.synonyms) in
    if is_empty_text key then (unknown_type, m) else found
