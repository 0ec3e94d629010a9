-- ===== src/Yaml/Scalars.antt =====
-- src/infrastructure/generators/ansible/yaml_writer.py: how a text is written as a scalar, and a
-- reader of texts in double quotes as YAML defines them.
use mathlib.Core.List.{append_assoc}
use topo_forge_ai.Prelude.{
  refl, some, none, [], true, false, inl, inr, ◌∷◌, ℕ, List, ◌≡◌, Option, Bool, ◌≢◌, contains, all,
  arith, String, if◌then◌else◌, ◌++◌, not, ap, codes, ◌==◌, ℕ-Eq, sym, any, ◌||◌, ◌∙◌, Bool-cases,
  subst,
}
use topo_forge_ai.Yaml.{escape_yaml, same_codes, is_ambiguous, ambiguous}

abbrev push : ℕ → Option (List ℕ × List ℕ) → Option (List ℕ × List ℕ)
push c none = none
push c (some (text, rest)) = some (c ∷ text, rest)

abbrev unescape : ℕ → Option ℕ
unescape c =
    if c == b'\\'
    then some b'\\'
    else (if c == b'"' then some b'"' else (if c == b'n' then some 10 else none))

abbrev read_step :
    ℕ → ℕ → List ℕ → Option (List ℕ × List ℕ) → Option (List ℕ × List ℕ) → Option (List ℕ × List ℕ)
read_step x y xs after_one after_two =
    if x == b'"'
    then some ([], y ∷ xs)
    else (if x == b'\\'
        then elim (unescape y) [ none ↦ none | some c ↦ push c after_two ]
        else (if x == 10 || x == 13 then none else push x after_one))

-- The text up to the closing quote, and what follows. A line break in the text, which YAML folds, is
-- no part of it.
pub read_double : List ℕ → Option (List ℕ × List ℕ)
read_double [] = none
read_double (x ∷ []) = if x == b'"' then some ([], []) else none
read_double (x ∷ y ∷ xs) =
    let after_one = read_double (y ∷ xs) in
    let after_two = read_double xs in read_step x y xs after_one after_two

read_double_cons :
    (x y : ℕ) (xs : List ℕ)
    → read_double (x ∷ y ∷ xs) ≡ read_step x y xs (read_double (y ∷ xs)) (read_double xs)
unfolding read_double
read_double_cons x y xs = refl

pub read_double_empty : read_double (b'"' ∷ []) ≡ some ([], [])
unfolding read_double
read_double_empty = refl

-- A character that needs no escape.
abbrev pub is_bare : ℕ → Bool
is_bare c = not (c == b'\\' || (c == b'"' || (c == 10 || c == 13)))

abbrev piece : ℕ → List ℕ
piece c =
    if c == b'\\'
    then b'\\' ∷ b'\\' ∷ []
    else (if c == b'"' then b'\\' ∷ b'"' ∷ [] else (if c == 10 then b'\\' ∷ b'n' ∷ [] else c ∷ []))

escape_yaml_cons : (c : ℕ) (s : List ℕ) → escape_yaml (c ∷ s) ≡ piece c ++ escape_yaml s
unfolding escape_yaml
escape_yaml_cons c s = ground arith

read_double-piece :
    (c : ℕ) (t : List ℕ)
    → t ≢ []
    → (c == 13) ≡ false
    → read_double (piece c ++ t) ≡ push c (read_double t)
read_double-piece c [] h k = absurd (h refl)
read_double-piece c (y ∷ t) h k = ground (
  arith,
  read_double_cons b'\\' b'\\' (y ∷ t),
  read_double_cons b'\\' b'"' (y ∷ t),
  read_double_cons b'\\' b'n' (y ∷ t),
  read_double_cons c y t,
)

append_ne_nil : (s : List ℕ) (x : ℕ) (t : List ℕ) → s ++ x ∷ t ≢ []
append_ne_nil [] x t h = cc
append_ne_nil (y ∷ s) x t h = cc

pub read_double-escape_yaml :
    (s : List ℕ) → contains s 13 ≡ false → read_double (escape_yaml s ++ b'"' ∷ []) ≡ some (s, [])
unfolding escape_yaml
read_double-escape_yaml [] h = read_double_empty
read_double-escape_yaml (c ∷ s) h =
    rw
      (
        escape_yaml_cons c s,
        append_assoc (piece c) (escape_yaml s) (b'"' ∷ []),
        read_double-piece c (escape_yaml s ++ b'"' ∷ []) (append_ne_nil (escape_yaml s) b'"' [])
            (ground arith),
        read_double-escape_yaml s (ground arith),
      )
      refl

pub read_double-bare :
    (s : List ℕ) → all is_bare s ≡ true → read_double (s ++ b'"' ∷ []) ≡ some (s, [])
read_double-bare [] h = read_double_empty
read_double-bare (c ∷ s) h =
    let alone : piece c ≡ c ∷ [] = ground arith in
    let step : read_double (piece c ++ (s ++ b'"' ∷ [])) ≡ push c (read_double (s ++ b'"' ∷ [])) =
      read_double-piece c (s ++ b'"' ∷ []) (append_ne_nil s b'"' []) (ground arith) in
    ap (λ p. read_double (p ++ (s ++ b'"' ∷ []))) (sym alone)
    ∙ step
    ∙ ap (push c) (read_double-bare s (ground arith))

same_codes_eq : (a b : List ℕ) → same_codes a b ≡ true → a ≡ b
same_codes_eq [] [] h = refl
same_codes_eq [] (d ∷ b) h = absurd (cc)
same_codes_eq (c ∷ a) [] h = absurd (cc)
same_codes_eq (c ∷ a) (d ∷ b) h = ground (arith, same_codes_eq a b)

any_word_bare :
    (words : List String) (v : List ℕ)
    → all (λ w. all is_bare (codes w)) words ≡ true
    → any (λ w. same_codes (codes w) v) words ≡ true
    → all is_bare v ≡ true
any_word_bare [] v h k = absurd (cc)
any_word_bare (w ∷ words) v h k = elim (Bool-cases (same_codes (codes w) v)) [
  | inl same ↦ subst (λ u. all is_bare u ≡ true) (same_codes_eq (codes w) v same) (ground arith)
  | inr other ↦ any_word_bare words v (ground arith) (ground arith)
]

pub ambiguous_bare : (v : List ℕ) → is_ambiguous v ≡ true → all is_bare v ≡ true
unfolding is_ambiguous
ambiguous_bare v h = any_word_bare ambiguous v refl h
