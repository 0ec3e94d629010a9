-- ===== src/Terraform/Mapping.antt =====
-- src/infrastructure/generators/terraform/mappings/aws.py: what the mappers of the cloud resources
-- share. A mapper is a function of its resource and of the context's addresses; what it appends to
-- the context is part of its answer. `str.strip` and `str.lower` are parameters. The texts of
-- warnings are left out.
pub mod Network
pub mod Gateways
pub mod Security
pub mod Compute
pub mod Data
use topo_forge_ai.Identifiers.{is_empty_text}
use topo_forge_ai.Terraform.Hcl.{Block, HclValue, assign, raw, mapping, text_entries}
use topo_forge_ai.Generation.{WarningSeverity, GeneratorWarning}
use topo_forge_ai.Prelude.{
  some, none, [], true, false, ◌∷◌, ℕ, Bool, String, List, ◌++◌, Option, leb, ◌==◌, if◌then◌else◌,
  ◌<>◌, ◌&&◌, lookup, nonempty, ℕ-Eq, ◌||◌, String-Eq, zero, suc, ◌/◌, ltb, ◌%◌,
}
use Prim.Native.Char.{code, Char}
use topo_forge_ai.Cloud.Resources.{Infrastructure, CloudResource}

-- `[a-zA-Z0-9_]`
abbrev is_identifier_code : ℕ → Bool
is_identifier_code n =
    (leb 97 n && leb n 122) || ((leb 65 n && leb n 90) || ((leb 48 n && leb n 57) || n == b'_'))

abbrev is_underscore : Char → Bool
is_underscore c = code c == b'_'

-- `_IDENTIFIER_CLEAN.sub("_", value)`. The flag says that a run of other characters is being read.
abbrev underscore_runs : Bool → String → String
underscore_runs reading String.[] = String.[]
underscore_runs reading (String.◌∷◌ c s) =
    let inside = underscore_runs true s in
    let outside = underscore_runs false s in
    if is_identifier_code (code c)
    then String.◌∷◌ c outside
    else (if reading then inside else String.◌∷◌ "_" inside)

abbrev strip_first : String → String
strip_first String.[] = String.[]
strip_first (String.◌∷◌ c s) =
    let rest = strip_first s in if is_underscore c then rest else String.◌∷◌ c s

abbrev strip_last : String → String
strip_last String.[] = String.[]
strip_last (String.◌∷◌ c s) =
    let rest = strip_last s in
    if is_underscore c && is_empty_text rest then String.[] else String.◌∷◌ c rest

abbrev first_is_digit : String → Bool
first_is_digit String.[] = false
first_is_digit (String.◌∷◌ c s) = leb 48 (code c) && leb (code c) 57

abbrev not_empty : String → String
not_empty s = if is_empty_text s then "resource" else s

-- The parameters are `str.strip` and `str.lower`.
unfoldable pub terraform_identifier : (String → String) → (String → String) → String → String
terraform_identifier strip lower value =
    let cleaned =
      not_empty (lower (strip_last (strip_first (underscore_runs false (strip value))))) in
    if first_is_digit cleaned then "r_" <> cleaned else cleaned

-- What the mappers read of the context.
pub record MappingContext : Type 0 where
  pub infrastructure : Infrastructure
  pub addresses : List (String × (String × String))

-- What a mapper answers and appends to the context: blocks, warnings, required variables, outputs.
pub record Emission : Type 0 where
  pub blocks : List Block
  pub warnings : List GeneratorWarning
  pub variables : List String
  pub outputs : List (String × (HclValue × String))

abbrev pub no_emission : Emission
no_emission = record { blocks = []; warnings = []; variables = []; outputs = [] }

abbrev pub emit_blocks : List Block → Emission
emit_blocks blocks = record { blocks = blocks; warnings = []; variables = []; outputs = [] }

-- `ctx.warn(...)` before `return []` or `continue`.
abbrev pub emit_warning : WarningSeverity → String → String → Emission
emit_warning severity code subject = record {
  blocks = [];
  warnings = record { code = code; severity = severity; subject_ids = subject ∷ [] } ∷ [];
  variables = [];
  outputs = [];
}

infixr 20 ◌then_emit◌
abbrev pub ◌then_emit◌ : Emission → Emission → Emission
a then_emit b = record {
  blocks = a.blocks ++ b.blocks;
  warnings = a.warnings ++ b.warnings;
  variables = a.variables ++ b.variables;
  outputs = a.outputs ++ b.outputs;
}

abbrev pub emit_each {ℓ} : {A : Type ℓ} → (A → Emission) → List A → Emission
emit_each f [] = no_emission
emit_each f (x ∷ xs) = f x then_emit emit_each f xs

-- `if ref is None: ctx.warn(...)`, or else what is done with the reference.
abbrev pub on_reference : Option HclValue → Emission → (HclValue → Emission) → Emission
on_reference none missing found = missing
on_reference (some ref) missing found = found ref

-- `f"{type}.{name}.{attribute}"`
abbrev pub address : String → String → String → String
address type name attribute = type <> ("." <> (name <> ("." <> attribute)))

abbrev pub own : String → String → String → HclValue
own type name attribute = raw (address type name attribute)

abbrev pub reference_to : Option (String × String) → Option HclValue
reference_to none = none
reference_to (some (type, name)) = some (own type name "id")

unfoldable pub reference : MappingContext → String → Option HclValue
reference ctx resource_id = reference_to (lookup resource_id ctx.addresses)

-- `ctx.reference(x) if x else None`
abbrev pub reference_if : MappingContext → Option String → Option HclValue
reference_if ctx none = none
reference_if ctx (some x) = if is_empty_text x then none else reference ctx x

abbrev pub keep_reference : Option HclValue → List HclValue → List HclValue
keep_reference none rest = rest
keep_reference (some ref) rest = ref ∷ rest

-- `[ref for ref in (ctx.reference(x) for x in ids) if ref is not None]`
abbrev pub references : MappingContext → List String → List HclValue
references ctx [] = []
references ctx (x ∷ xs) = keep_reference (reference ctx x) (references ctx xs)

-- `", ".join(parts)` and the like.
abbrev pub join : String → List String → String
join separator [] = ""
join separator (p ∷ []) = p
join separator (p ∷ q ∷ ps) = p <> (separator <> join separator (q ∷ ps))

-- `d.update(tags)`
abbrev pub update_tags : List (String × String) → List (String × String) → List (String × String)
update_tags d [] = d
update_tags d ((k, v) ∷ tags) = update_tags (assign k v d) tags

unfoldable pub base_tags : CloudResource → List (String × String)
base_tags r =
    update_tags
      (("Name", r.logical_name)
        ∷ ("ManagedBy", "topoforge")
        ∷ (if nonempty r.source_node_ids
            then ("topoforge:source-nodes", join "," r.source_node_ids) ∷ []
            else []))
      r.tags

abbrev pub tags_value : List (String × String) → String × HclValue
tags_value tags = ("tags", mapping (text_entries tags))

unfoldable pub provenance : CloudResource → List String
provenance r =
    if nonempty r.source_node_ids
    then ("From network component(s): " <> join ", " r.source_node_ids) ∷ []
    else []

abbrev nth_text : ℕ → List String → String
nth_text n [] = ""
nth_text zero (t ∷ ts) = t
nth_text (suc n) (t ∷ ts) = nth_text n ts

abbrev digit_text : ℕ → String
digit_text n = nth_text n ("0" ∷ "1" ∷ "2" ∷ "3" ∷ "4" ∷ "5" ∷ "6" ∷ "7" ∷ "8" ∷ "9" ∷ [])

abbrev digits_text : ℕ → ℕ → String
digits_text zero n = ""
digits_text (suc fuel) n =
    let higher = digits_text fuel (n / 10) in
    (if ltb n 10 then "" else higher) <> digit_text (n % 10)

-- `str(n)`: a number has fewer digits than its successor says.
unfoldable pub number_text : ℕ → String
number_text n = digits_text (suc n) n

-- `value or None`
abbrev pub text_if : Option String → Option String
text_if none = none
text_if (some s) = if is_empty_text s then none else some s
