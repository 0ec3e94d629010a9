-- ===== src/Yaml/Reading.antt =====
-- src/infrastructure/generators/ansible/yaml_writer.py: a reader of the texts that YAML has in one line
-- of a block, in double quotes or plain, and what it reads of the text that `_scalar` writes. It
-- answers the content; the type that YAML gives to a plain text is not its concern.
use topo_forge_ai.Yaml.{has_marker, ends_colon}
use topo_forge_ai.Yaml.Scalars.{read_double}
use topo_forge_ai.Yaml.Numbers.{has_break}
use topo_forge_ai.Yaml.Plain.{is_blank, ends_blank}
use topo_forge_ai.Prelude.{
  some, none, [], ◌∷◌, ℕ, List, Bool, codes, contains, Option, ◌==◌, ℕ-Eq, ◌||◌, ◌&&◌,
  if◌then◌else◌,
}

-- YAML's indicators, which no plain text begins with. (It lets `-`, `?` and `:` pass before a letter.)
abbrev opens_other : ℕ → Bool
opens_other = contains (codes "#,[]{}&*!|>'\"%@`-?:")

-- A character of a plain text before what is read of the rest: blanks at the end are no part of it.
abbrev keep : ℕ → Option (List ℕ) → Option (List ℕ)
keep c none = none
keep c (some []) = some (if is_blank c then [] else c ∷ [])
keep c (some (d ∷ s)) = some (c ∷ d ∷ s)

abbrev breaks_line : ℕ → Bool
breaks_line c = c == 10 || c == 13

-- A colon before a blank ends a key, and a blank before a number sign begins a comment.
abbrev stops : ℕ → ℕ → Bool
stops c d = (c == b':' && is_blank d) || (is_blank c && d == b'#')

abbrev read_line : List ℕ → Option (List ℕ)
read_line [] = some []
read_line (c ∷ []) = if breaks_line c || c == b':' then none else keep c (some [])
read_line (c ∷ d ∷ s) =
    let later = read_line (d ∷ s) in if breaks_line c || stops c d then none else keep c later

abbrev read_plain : List ℕ → Option (List ℕ)
read_plain [] = none
read_plain (c ∷ s) = if opens_other c || is_blank c then none else read_line (c ∷ s)

abbrev in_whole : Option (List ℕ × List ℕ) → Option (List ℕ)
in_whole (some (text, [])) = some text
in_whole _ = none

-- A text in double quotes, or a plain one.
abbrev pub read_scalar : List ℕ → Option (List ℕ)
read_scalar [] = none
read_scalar (c ∷ s) = if c == b'"' then in_whole (read_double s) else read_plain (c ∷ s)

-- Something in the text would not be read as a part of it.
abbrev is_broken : List ℕ → Bool
is_broken s =
    contains s 13
    || (has_break s
        || (has_marker (9 ∷ []) s
            || (has_marker (codes ": ") s
                || (has_marker (codes " #") s || (ends_colon s || ends_blank s)))))
