-- ===== src/Tests/Yaml.antt =====
-- YAML of small documents.
use topo_forge_ai.Prelude.{
  refl, [], true, ◌∷◌, List, ℕ, codes, ◌≡◌, Bool, ◌&&◌, ◌++◌, leb, if◌then◌else◌, not, nonempty,
}
use topo_forge_ai.Yaml.{
  YamlValue, words, dictionary, sequence, colon, dash, no_colons, no_dashes, dump_yaml, scalar_text,
  is_ambiguous, yaml_key, is_word_code, is_safe_code, is_indicator,
}
use topo_forge_ai.Yaml.Plain.{is_blank}

abbrev as_it_is : List ℕ → List ℕ
as_it_is s = s

abbrev is_ascii_digit : ℕ → Bool
is_ascii_digit c = leb 48 c && leb c 57

abbrev trim_left : List ℕ → List ℕ
trim_left [] = []
trim_left (c ∷ s) = let rest = trim_left s in if is_blank c then rest else c ∷ s

abbrev trim_right : List ℕ → List ℕ
trim_right [] = []
trim_right (c ∷ s) =
    let rest = trim_right s in if is_blank c && not (nonempty rest) then [] else c ∷ rest

-- Blanks are taken from both ends.
abbrev trim : List ℕ → List ℕ
trim s = trim_right (trim_left s)

abbrev written_of : List ℕ → List ℕ
written_of = scalar_text is_ascii_digit as_it_is trim

-- A phrase is written as it is; with a colon and a blank it is put in quotes.
phrases :
    (written_of (codes "install the web server") ≡ codes "install the web server")
    × (written_of (codes "a: b") ≡ b'"' ∷ codes "a: b" ++ b'"' ∷ [])
unfolding scalar_text is_ambiguous is_word_code is_safe_code is_indicator
phrases = (refl, refl)

-- Texts that YAML 1.1 reads as numbers and as a date are written without quotes.
other_types :
    (written_of (codes "0x1F") ≡ codes "0x1F")
    × (written_of (codes "1_000") ≡ codes "1_000")
    × (written_of (codes "12:30") ≡ codes "12:30")
    × (written_of (codes "2001-01-01") ≡ codes "2001-01-01")
    × (written_of (codes ".inf") ≡ codes ".inf")
unfolding scalar_text is_ambiguous is_word_code is_safe_code is_indicator
other_types = (refl, refl, refl, refl, refl)

abbrev play : YamlValue
play = sequence (
    dash
      (dictionary (
        colon (codes "hosts") (words (codes "all")) (
          colon (codes "vars") (dictionary (colon (codes "on") (words (codes "no")) no_colons)) (
            colon (codes "tasks")
              (sequence (dash (words (codes "a: b")) (dash (dictionary no_colons) no_dashes)))
              no_colons))))
      no_dashes)

dump_of_play :
    dump_yaml is_ascii_digit as_it_is as_it_is [] true play
    ≡ codes "---"
      ++ 10 ∷ codes "- hosts: all"
      ++ 10 ∷ codes "  vars:"
      ++ 10 ∷ codes "    on: \"no\""
      ++ 10 ∷ codes "  tasks:"
      ++ 10 ∷ codes "    - \"a: b\""
      ++ 10 ∷ codes "    - \"{}\""
      ++ 10 ∷ []
unfolding dump_yaml is_ambiguous is_word_code is_safe_code is_indicator
dump_of_play = refl

-- A number with a line break at its end stands in quotes with the line break.
number_with_break :
    scalar_text is_ascii_digit as_it_is as_it_is (codes "12" ++ 10 ∷ [])
    ≡ b'"' ∷ codes "12" ++ 10 ∷ b'"' ∷ []
unfolding scalar_text is_ambiguous
number_with_break = refl

-- A carriage return is written as it is.
carriage_return :
    scalar_text is_ascii_digit as_it_is as_it_is (b'a' ∷ 13 ∷ b'b' ∷ []) ≡ b'a' ∷ 13 ∷ b'b' ∷ []
unfolding scalar_text is_ambiguous is_word_code is_safe_code is_indicator
carriage_return = refl

-- A key that YAML reads as a Boolean is not put in quotes.
key_of_yes : yaml_key (codes "yes") ≡ codes "yes"
unfolding yaml_key is_word_code is_safe_code
key_of_yes = refl
