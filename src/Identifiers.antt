-- ===== src/Identifiers.antt =====
-- src/domain/common/identifiers.py: `slugify`. What `str.strip` and `str.lower` make of a text is a
-- parameter, `fold`. Random and hashed identifiers are not modelled.
pub mod Slugs
use Prim.Native.Char.{code}
use Prim.Native.Char.{Char}
use topo_forge_ai.Prelude.{
  [], true, false, zero, suc, ℕ, String, Bool, leb, if◌then◌else◌, ◌&&◌, ◌==◌, ◌||◌, ℕ-Eq,
}

-- `[a-z0-9]`
abbrev pub is_slug_code : ℕ → Bool
is_slug_code n = (leb 97 n && leb n 122) || (leb 48 n && leb n 57)

-- `len(value)`
abbrev pub length_of : String → ℕ
length_of String.[] = 0
length_of (String.◌∷◌ c s) = suc (length_of s)

abbrev pub is_empty_text : String → Bool
is_empty_text String.[] = true
is_empty_text (String.◌∷◌ c s) = false

-- `value[:n]`
abbrev pub take_text : ℕ → String → String
take_text zero s = String.[]
take_text (suc n) String.[] = String.[]
take_text (suc n) (String.◌∷◌ c s) = String.◌∷◌ c (take_text n s)

-- The code of `-`.
abbrev pub is_dash : Char → Bool
is_dash c = code c == 45

-- `_SLUG_STRIP.sub("-", value)`: a run of other characters becomes one dash. The flag says that a
-- run is being read.
abbrev pub dash_runs : Bool → String → String
dash_runs reading String.[] = String.[]
dash_runs reading (String.◌∷◌ c s) =
    let inside = dash_runs true s in
    let outside = dash_runs false s in
    if is_slug_code (code c)
    then String.◌∷◌ c outside
    else (if reading then inside else String.◌∷◌ "-" inside)

-- `value.lstrip("-")`
abbrev pub strip_left : String → String
strip_left String.[] = String.[]
strip_left (String.◌∷◌ c s) = let rest = strip_left s in if is_dash c then rest else String.◌∷◌ c s

-- `value.rstrip("-")`
abbrev pub strip_right : String → String
strip_right String.[] = String.[]
strip_right (String.◌∷◌ c s) =
    let rest = strip_right s in
    if is_dash c && is_empty_text rest then String.[] else String.◌∷◌ c rest

-- `value.strip("-")`
abbrev pub strip_dashes : String → String
strip_dashes s = strip_right (strip_left s)

-- `value or "unnamed"`
abbrev pub or_unnamed : String → String
or_unnamed s = if is_empty_text s then "unnamed" else s

unfoldable pub slugify : (String → String) → ℕ → String → String
slugify fold max_length value =
    or_unnamed (strip_right (take_text max_length (strip_dashes (dash_runs false (fold value)))))
