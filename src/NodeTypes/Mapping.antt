-- ===== src/NodeTypes/Mapping.antt =====
-- What a registered name is mapped to.
use topo_forge_ai.Assembler.Segments.{add_id}
use topo_forge_ai.Identifiers.{is_empty_text, length_of}
use topo_forge_ai.Assembler.Gateways.{occurs_in}
use topo_forge_ai.NodeTypes.{
  map_type, register, NodeTypeMapper, put, normalize, is_digit, map_key, unknown_type,
}
use topo_forge_ai.Topology.{Pair-Eq}
use topo_forge_ai.Prelude.{
  refl, some, [], true, false, inl, inr, ◌∷◌, String, List, lookup, ◌≡◌, Bool, arith, Bool-cases,
  eq_iff, ◌&&◌, ◌==◌, ap, String-Eq, none, ◌⊎◌, All, contains, ◌<>◌, ◌≤◌, if◌then◌else◌, not,
}

lookup-put :
    (key value : String) (m : List (String × String)) → lookup key (put key value m) ≡ some value
lookup-put key value [] = ground (arith, eq_iff key key)
lookup-put key value ((k, v) ∷ m) = elim (Bool-cases (k == key)) [
  | inl here ↦ rw here (rw here refl)
  | inr other ↦ rw other (rw other (lookup-put key value m))
]

-- After a name is registered, every text with the same normal form is mapped to its type, unless that
-- form is empty, and nothing is recorded as unmapped.
pub map_type-register :
    (fold : String → String) (m : NodeTypeMapper) (name node_type raw : String)
    → normalize fold raw ≡ normalize fold name
    → is_empty_text (normalize fold name) ≡ false
    → map_type fold (register fold name node_type m) raw
      ≡ (node_type, register fold name node_type m)
unfolding map_type register
map_type-register fold m name node_type raw same there =
    let key = normalize fold name in
    rw same (
      rw there (
        ap (map_key raw key (register fold name node_type m))
          (lookup-put key node_type m.synonyms)))

abbrev all_digits : String → Bool
all_digits String.[] = true
all_digits (String.◌∷◌ c s) = is_digit c && all_digits s

-- The last character, if there is one, is no digit.
abbrev ends_plain : String → Bool
ends_plain String.[] = true
ends_plain (String.◌∷◌ c s) =
    let later = ends_plain s in if is_empty_text s then not (is_digit c) else later

-- The key is the text with a number behind it, perhaps an empty one, and the text itself ends in no
-- digit.
abbrev pub IsNumbered : String → String → Type 0
IsNumbered s key =
    (number : String) × (key ≡ s <> number) × (all_digits number ≡ true) × (ends_plain s ≡ true)

-- The synonym has three characters or more and occurs in the key.
abbrev pub Occurs : String → String × String → Type 0
Occurs key s = (3 ≤ length_of s.0) × (occurs_in key s.0 ≡ true)

-- The synonym is one of the list that occur in the key, and none of these is longer.
abbrev pub IsLongest : String → List (String × String) → String × String → Type 0
IsLongest key synonyms s =
    (contains synonyms s ≡ true)
    × (Occurs key s × All (λ x. Occurs key x → length_of x.0 ≤ length_of s.0) synonyms)

-- No synonym occurs in the key: the name is recorded.
abbrev pub IsUnmapped : String → String → NodeTypeMapper → String × NodeTypeMapper → Type 0
IsUnmapped raw key m answer =
    (answer ≡ (unknown_type, record m { unmapped = add_id raw m.unmapped }))
    × All (λ s. ¬ Occurs key s) m.synonyms

-- What is answered for a key: the type of the key where it is a synonym; or else of the key without
-- its number, where that is not empty and a synonym; or else of a longest of the synonyms that occur in
-- the key, or unknown where none does.
abbrev pub IsMapped : String → String → NodeTypeMapper → String × NodeTypeMapper → Type 0
IsMapped raw key m answer =
    ((lookup key m.synonyms ≡ some answer.0) × (answer.1 ≡ m))
    ⊎ ((lookup key m.synonyms ≡ none)
        × ((s : String) × IsNumbered s key
            × (((is_empty_text s ≡ false) × (lookup s m.synonyms ≡ some answer.0) × (answer.1 ≡ m))
                ⊎ (((is_empty_text s ≡ true) ⊎ (lookup s m.synonyms ≡ none))
                    × (((longest : String × String) × IsLongest key m.synonyms longest
                          × (answer ≡ (longest.1, m)))
                        ⊎ IsUnmapped raw key m answer)))))
