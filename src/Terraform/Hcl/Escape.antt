-- ===== src/Terraform/Hcl/Escape.antt =====
-- src/infrastructure/generators/terraform/hcl.py: `_escape`, and a reader of quoted literals as the
-- HCL language defines them. Texts are lists of code points.
pub mod RoundTrip
use topo_forge_ai.Prelude.{
  some, none, [], false, ◌∷◌, ℕ, List, if◌then◌else◌, ◌++◌, Bool, Option, ◌==◌, ◌&&◌, ◌||◌, ℕ-Eq,
}

-- `text.replace(c, new)` for a text `c` of one character.
abbrev pub replace_code : ℕ → List ℕ → List ℕ → List ℕ
replace_code c new [] = []
replace_code c new (x ∷ xs) = (if x == c then new else x ∷ []) ++ replace_code c new xs

-- `text.replace(ab, new)` for two different characters.
abbrev pub replace_pair : ℕ → ℕ → List ℕ → List ℕ → List ℕ
replace_pair a b new [] = []
replace_pair a b new (x ∷ []) = x ∷ []
replace_pair a b new (x ∷ y ∷ xs) =
    let found = new ++ replace_pair a b new xs in
    let kept = x ∷ replace_pair a b new (y ∷ xs) in if x == a && y == b then found else kept

abbrev pub escape_codes : List ℕ → List ℕ
escape_codes text = replace_code 9 (b'\\' ∷ b't' ∷ []) (
    replace_code 13 (b'\\' ∷ b'r' ∷ []) (
      replace_code 10 (b'\\' ∷ b'n' ∷ [])
        (replace_code b'"' (b'\\' ∷ b'"' ∷ []) (replace_code b'\\' (b'\\' ∷ b'\\' ∷ []) text))))

unfoldable pub escape : List ℕ → List ℕ
escape text =
    replace_pair b'%' b'{' (b'%' ∷ b'%' ∷ b'{' ∷ [])
      (replace_pair b'$' b'{' (b'$' ∷ b'$' ∷ b'{' ∷ []) (escape_codes text))

-- The reader. A text in quotes ends at the first quote that no backslash precedes; a line break may
-- not stand in it, and `${` or `%{` begins an expression unless its first character is doubled.
abbrev pub starts_brace : List ℕ → Bool
starts_brace [] = false
starts_brace (x ∷ xs) = x == b'{'

-- What a backslash and the character stand for.
abbrev pub unescape : ℕ → Option ℕ
unescape c =
    if c == b'\\'
    then some b'\\'
    else (if c == b'"'
        then some b'"'
        else (if c == b'n'
            then some 10
            else (if c == b'r' then some 13 else (if c == b't' then some 9 else none))))

abbrev pub push : ℕ → Option (List ℕ × List ℕ) → Option (List ℕ × List ℕ)
push c none = none
push c (some (text, rest)) = some (c ∷ text, rest)

-- One step of the reader, at two characters and what follows them; the last two arguments are what
-- is read after one character and after both.
abbrev pub read_step :
    ℕ → ℕ → List ℕ → Option (List ℕ × List ℕ) → Option (List ℕ × List ℕ) → Option (List ℕ × List ℕ)
read_step x y xs after_one after_two =
    if x == b'"'
    then some ([], y ∷ xs)
    else (if x == b'\\'
        then elim (unescape y) [ none ↦ none | some c ↦ push c after_two ]
        else (if x == 10 || x == 13
            then none
            else (if x == b'$' || x == b'%'
                then (if y == b'{'
                    then none
                    else (if y == x && starts_brace xs then push x after_two else push x after_one))
                else push x after_one)))

-- The text up to the closing quote and what stands after it; `none` for an expression in the text or
-- for no literal at all.
unfoldable pub read_quoted : List ℕ → Option (List ℕ × List ℕ)
read_quoted [] = none
read_quoted (x ∷ []) = if x == b'"' then some ([], []) else none
read_quoted (x ∷ y ∷ xs) =
    let after_one = read_quoted (y ∷ xs) in
    let after_two = read_quoted xs in read_step x y xs after_one after_two
