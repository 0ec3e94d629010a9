-- ===== src/Yaml.antt =====
-- src/infrastructure/generators/ansible/yaml_writer.py: YAML for Ansible. Texts are lists of code
-- points. What the standard library does is a parameter: `str.lower`, `str.strip`, and which
-- characters `\d` matches. Floating-point values are left out.
pub mod Scalars
pub mod Numbers
pub mod Plain
pub mod Reading
use topo_forge_ai.Terraform.Hcl.Render.{in_quotes, pad, decimal_int, strip_breaks, join_codes}
use topo_forge_ai.Terraform.Hcl.Escape.{replace_code}
use topo_forge_ai.Value.{ℤ}
use topo_forge_ai.Prelude.{
  [], true, false, ◌∷◌, List, ℕ, Bool, String, if◌then◌else◌, ◌==◌, any, ◌||◌, contains, leb, ◌&&◌,
  nonempty, not, codes, ℕ-Eq, suc, ◌++◌, map,
}

-- `_escape`
unfoldable pub escape_yaml : List ℕ → List ℕ
escape_yaml value =
    replace_code 10 (b'\\' ∷ b'n' ∷ [])
      (replace_code b'"' (b'\\' ∷ b'"' ∷ []) (replace_code b'\\' (b'\\' ∷ b'\\' ∷ []) value))

abbrev pub same_codes : List ℕ → List ℕ → Bool
same_codes [] [] = true
same_codes (c ∷ cs) (d ∷ ds) = c == d && same_codes cs ds
same_codes cs ds = false

-- `_AMBIGUOUS`
abbrev pub ambiguous : List String
ambiguous =
    "true" ∷ "false" ∷ "yes" ∷ "no" ∷ "on" ∷ "off" ∷ "y" ∷ "n" ∷ "null" ∷ "none" ∷ "~" ∷ "" ∷ []

-- `value in _AMBIGUOUS`
unfoldable pub is_ambiguous : List ℕ → Bool
is_ambiguous value = any (λ word. same_codes (codes word) value) ambiguous

-- `text.startswith(needle)`
abbrev pub starts_codes : List ℕ → List ℕ → Bool
starts_codes [] text = true
starts_codes (c ∷ needle) [] = false
starts_codes (c ∷ needle) (d ∷ text) = c == d && starts_codes needle text

-- `needle in text`
abbrev pub has_marker : List ℕ → List ℕ → Bool
has_marker needle [] = starts_codes needle []
has_marker needle (c ∷ text) = starts_codes needle (c ∷ text) || has_marker needle text

abbrev pub ends_colon : List ℕ → Bool
ends_colon [] = false
ends_colon (c ∷ []) = c == b':'
ends_colon (c ∷ d ∷ text) = ends_colon (d ∷ text)

-- `_LEADING_INDICATORS`
unfoldable pub is_indicator : ℕ → Bool
is_indicator = contains (codes "-?:,[]{}#&*!|>'\"%@`")

abbrev pub leads : List ℕ → Bool
leads [] = false
leads (c ∷ text) = is_indicator c

-- `[A-Za-z0-9_]`
unfoldable pub is_word_code : ℕ → Bool
is_word_code c =
    (leb 97 c && leb c 122) || ((leb 65 c && leb c 90) || ((leb 48 c && leb c 57) || c == b'_'))

-- `[A-Za-z0-9_./@+-]`
unfoldable pub is_safe_code : ℕ → Bool
unfolding is_word_code
is_safe_code c = is_word_code c || contains (codes "./@+-") c

-- `_PLAIN_SAFE.match(value)`, whose `$` also matches before a line break at the end.
abbrev pub safe_rest : List ℕ → Bool
safe_rest [] = true
safe_rest (c ∷ text) = is_safe_code c && safe_rest text || c == 10 && not (nonempty text)

abbrev pub is_plain_safe : List ℕ → Bool
is_plain_safe [] = false
is_plain_safe (c ∷ text) = is_word_code c && safe_rest text

module _ (is_digit : ℕ → Bool) where
  abbrev pub skip_digits : List ℕ → List ℕ
  skip_digits [] = []
  skip_digits (c ∷ text) = let rest = skip_digits text in if is_digit c then rest else c ∷ text

  abbrev pub starts_digit : List ℕ → Bool
  starts_digit [] = false
  starts_digit (c ∷ text) = is_digit c

  -- `$`
  abbrev pub at_end : List ℕ → Bool
  at_end [] = true
  at_end (c ∷ text) = c == 10 && not (nonempty text)

  abbrev pub skip_sign : List ℕ → List ℕ
  skip_sign [] = []
  skip_sign (c ∷ text) = if c == b'+' || c == b'-' then text else c ∷ text

  -- `([eE][+-]?\d+)?$`
  abbrev pub exponent : List ℕ → Bool
  exponent [] = true
  exponent (c ∷ text) =
      at_end (c ∷ text)
      || ((c == b'e' || c == b'E')
          && (starts_digit (skip_sign text) && at_end (skip_digits (skip_sign text))))

  abbrev pub after_digits : List ℕ → Bool
  after_digits [] = true
  after_digits (c ∷ text) = if c == b'.' then exponent (skip_digits text) else exponent (c ∷ text)

  abbrev pub unsigned : List ℕ → Bool
  unsigned [] = false
  unsigned (c ∷ text) =
      if is_digit c
      then after_digits (skip_digits text)
      else (c == b'.' && (starts_digit text && exponent (skip_digits text)))

  -- `_NUMERIC.match(value)`
  unfoldable pub is_numeric : List ℕ → Bool
  is_numeric value = unsigned (skip_sign value)

  module _ (lower strip : List ℕ → List ℕ) where
    -- `_is_plain_safe_phrase`
    unfoldable pub is_plain_safe_phrase : List ℕ → Bool
    is_plain_safe_phrase value =
        (nonempty value && same_codes value (strip value))
        && (not (leads value)
            && (not (
                  has_marker (codes ": ") value
                  || (has_marker (codes " #") value
                      || (has_marker (10 ∷ []) value || has_marker (9 ∷ []) value)))
                && not (ends_colon value)))

    -- `_scalar` of a text.
    unfoldable pub scalar_text : List ℕ → List ℕ
    unfolding escape_yaml is_numeric is_plain_safe_phrase
    scalar_text value =
        if not (nonempty value)
        then in_quotes []
        else (if starts_codes (codes "{{") value || starts_codes (codes "{%") value
            then in_quotes (escape_yaml value)
            else (if is_ambiguous (lower value) || is_numeric value
                then in_quotes value
                else (if is_plain_safe value && not (has_marker (10 ∷ []) value)
                    then value
                    else (if is_plain_safe_phrase value
                        then value
                        else in_quotes (escape_yaml value)))))

-- `_key`
unfoldable pub yaml_key : List ℕ → List ℕ
unfolding escape_yaml
yaml_key value = if is_plain_safe value then value else in_quotes (escape_yaml value)

mutual
  pub data YamlValue : Type 0 where
    absent : YamlValue
    truth : Bool → YamlValue
    whole : ℤ → YamlValue
    words : List ℕ → YamlValue
    sequence : YamlItems → YamlValue
    dictionary : YamlEntries → YamlValue

  pub data YamlItems : Type 0 where
    dash : YamlValue → YamlItems → YamlItems
    no_dashes : YamlItems

  pub data YamlEntries : Type 0 where
    colon : List ℕ → YamlValue → YamlEntries → YamlEntries
    no_colons : YamlEntries

-- `text.lstrip()` of a line that begins with spaces.
abbrev drop_spaces : List ℕ → List ℕ
drop_spaces [] = []
drop_spaces (c ∷ text) = let rest = drop_spaces text in if c == 32 then rest else c ∷ text

-- The first line of a nested dictionary goes behind the dash.
abbrev behind_dash : ℕ → List (List ℕ) → List (List ℕ)
behind_dash indent [] = []
behind_dash indent (first ∷ rest) = (pad indent ++ codes "- " ++ drop_spaces first) ∷ rest

module _ (is_digit : ℕ → Bool) (lower strip : List ℕ → List ℕ) where
  -- `_scalar`. An empty collection in a list comes here, as the text that `str` makes of it; one with
  -- content never does.
  unfoldable pub scalar : YamlValue → List ℕ
  unfolding scalar_text
  scalar (truth true) = codes "true"
  scalar (truth false) = codes "false"
  scalar (whole n) = decimal_int n
  scalar (words text) = scalar_text is_digit lower strip text
  scalar absent = codes "null"
  scalar (dictionary no_colons) = scalar_text is_digit lower strip (codes "{}")
  scalar (sequence no_dashes) = scalar_text is_digit lower strip (codes "[]")
  scalar _ = []

  unfoldable mutual
    unfolding scalar yaml_key

    pub render_yaml : ℕ → YamlValue → List (List ℕ)
    render_yaml indent (dictionary no_colons) = (pad indent ++ codes "{}") ∷ []
    render_yaml indent (dictionary (colon k v es)) = render_colons indent (colon k v es)
    render_yaml indent (sequence no_dashes) = (pad indent ++ codes "[]") ∷ []
    render_yaml indent (sequence (dash v vs)) = render_dashes indent (dash v vs)
    render_yaml indent v = (pad indent ++ scalar v) ∷ []

    render_colons : ℕ → YamlEntries → List (List ℕ)
    render_colons indent no_colons = []
    render_colons indent (colon k v es) =
        render_colon indent (pad indent ++ yaml_key k ++ codes ":") v ++ render_colons indent es

    -- One key with its value.
    render_colon : ℕ → List ℕ → YamlValue → List (List ℕ)
    render_colon indent key (dictionary no_colons) = (key ++ codes " {}") ∷ []
    render_colon indent key (sequence no_dashes) = (key ++ codes " []") ∷ []
    render_colon indent key (dictionary (colon k v es)) =
        key ∷ render_colons (suc indent) (colon k v es)
    render_colon indent key (sequence (dash v vs)) = key ∷ render_dashes (suc indent) (dash v vs)
    render_colon indent key v = (key ++ codes " " ++ scalar v) ∷ []

    render_dashes : ℕ → YamlItems → List (List ℕ)
    render_dashes indent no_dashes = []
    render_dashes indent (dash v vs) = render_dash indent v ++ render_dashes indent vs

    -- One item of a list.
    render_dash : ℕ → YamlValue → List (List ℕ)
    render_dash indent (dictionary (colon k v es)) =
        behind_dash indent (render_colons (suc indent) (colon k v es))
    render_dash indent (sequence (dash v vs)) =
        (pad indent ++ codes "-") ∷ render_dashes (suc indent) (dash v vs)
    render_dash indent v = (pad indent ++ codes "- " ++ scalar v) ∷ []

  abbrev header_comment : List ℕ → List ℕ
  header_comment [] = codes "#"
  header_comment (c ∷ line) = codes "# " ++ c ∷ line

  unfoldable pub dump_yaml : List (List ℕ) → Bool → YamlValue → List ℕ
  unfolding render_yaml
  dump_yaml header document_start value =
      strip_breaks (
        join_codes (10 ∷ []) (
          map header_comment header
          ++ ((if document_start then codes "---" ∷ [] else []) ++ render_yaml 0 value)))
      ++ 10 ∷ []
