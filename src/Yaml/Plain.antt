-- ===== src/Yaml/Plain.antt =====
-- src/infrastructure/generators/ansible/yaml_writer.py: which texts are written without quotes.
use topo_forge_ai.Terraform.Hcl.Render.{in_quotes}
use topo_forge_ai.Prelude.{
  refl, some, [], true, false, ◌∷◌, ℕ, List, Bool, ◌≡◌, nonempty, codes, arith, inl, inr, contains,
  Bool-cases, ◌==◌, nat_eq_iff, ℕ-Eq, subst, all, not, ◌||◌, ◌&&◌, ◌++◌, ◌⊎◌, if◌then◌else◌, ap,
  ◌∙◌,
}
use topo_forge_ai.Yaml.{
  scalar_text, escape_yaml, is_numeric, is_plain_safe_phrase, is_ambiguous, has_marker,
  starts_codes, ends_colon, leads, is_indicator, is_plain_safe, safe_rest, is_safe_code,
  is_word_code, same_codes,
}
use topo_forge_ai.Yaml.Scalars.{
  is_bare, read_double, read_double-escape_yaml, read_double-bare, ambiguous_bare,
  read_double_empty,
}
use topo_forge_ai.Yaml.Numbers.{has_break, is_numeric_bare}

abbrev pub is_blank : ℕ → Bool
is_blank c = c == 32 || c == 9

abbrev pub starts_blank : List ℕ → Bool
starts_blank [] = false
starts_blank (c ∷ s) = is_blank c

abbrev pub ends_blank : List ℕ → Bool
ends_blank [] = false
ends_blank (c ∷ []) = is_blank c
ends_blank (c ∷ d ∷ s) = ends_blank (d ∷ s)

-- The tests that a text passes before it is written without quotes.
pub record IsPlain (is_digit : ℕ → Bool) (lower : List ℕ → List ℕ) (s : List ℕ) : Type 0 where
  pub there : nonempty s ≡ true
  pub no_word : is_ambiguous (lower s) ≡ false
  pub no_number : is_numeric is_digit s ≡ false
  pub no_indicator : leads s ≡ false
  pub no_mapping : has_marker (codes ": ") s ≡ false
  pub no_comment : has_marker (codes " #") s ≡ false
  pub one_line : has_break s ≡ false
  pub no_key : ends_colon s ≡ false
  pub no_tab : has_marker (9 ∷ []) s ≡ false
  pub begins : starts_blank s ≡ false
  pub ends : ends_blank s ≡ false

-- A text in quotes that is read back as it was.
abbrev pub IsQuoted : List ℕ → List ℕ → Type 0
IsQuoted s written = (body : List ℕ) × (written ≡ b'"' ∷ body) × (read_double body ≡ some (s, []))

safe_head :
    (k c : ℕ) (s : List ℕ)
    → is_safe_code k ≡ false
    → (k == 10) ≡ false
    → safe_rest (c ∷ s) ≡ true
    → (c == k) ≡ false
safe_head k c s u v h = elim (Bool-cases (c == k)) [
  | inl same ↦
      let eq : c ≡ k = (nat_eq_iff c k).0 same in
      let begins : safe_rest (k ∷ s) ≡ true = subst (λ x. safe_rest (x ∷ s) ≡ true) eq h in
      absurd (ground arith)
  | inr other ↦ other
]

-- A text that `_PLAIN_SAFE` matches has no character of another kind.
safe_no_code :
    (k : ℕ) (s : List ℕ)
    → is_safe_code k ≡ false
    → (k == 10) ≡ false
    → safe_rest s ≡ true
    → contains s k ≡ false
safe_no_code k [] u v h = refl
safe_no_code k (c ∷ []) u v h = rw (safe_head k c [] u v h) refl
safe_no_code k (c ∷ d ∷ s) u v h =
    ground (arith, safe_head k c (d ∷ s) u v h, safe_no_code k (d ∷ s) u v)

no_code_mapping : (s : List ℕ) → contains s b':' ≡ false → has_marker (codes ": ") s ≡ false
no_code_mapping [] h = refl
no_code_mapping (c ∷ s) h = ground (arith, no_code_mapping s)

no_code_comment : (s : List ℕ) → contains s 32 ≡ false → has_marker (codes " #") s ≡ false
no_code_comment [] h = refl
no_code_comment (c ∷ s) h = ground (arith, no_code_comment s)

no_code_key : (s : List ℕ) → contains s b':' ≡ false → ends_colon s ≡ false
no_code_key [] h = refl
no_code_key (c ∷ []) h = ground arith
no_code_key (c ∷ d ∷ s) h = ground (arith, no_code_key (d ∷ s))

no_code_marker : (k : ℕ) (s : List ℕ) → contains s k ≡ false → has_marker (k ∷ []) s ≡ false
no_code_marker k [] h = refl
no_code_marker k (c ∷ s) h = ground (arith, no_code_marker k s, nat_eq_iff c k, nat_eq_iff k c)

no_blank_ends : (s : List ℕ) → contains s 32 ≡ false → contains s 9 ≡ false → ends_blank s ≡ false
no_blank_ends [] h k = refl
no_blank_ends (c ∷ []) h k = ground arith
no_blank_ends (c ∷ d ∷ s) h k = ground (arith, no_blank_ends (d ∷ s))

no_blank_starts :
    (s : List ℕ) → contains s 32 ≡ false → contains s 9 ≡ false → starts_blank s ≡ false
no_blank_starts [] h k = refl
no_blank_starts (c ∷ s) h k = ground arith

same_codes-eq : (s t : List ℕ) → same_codes s t ≡ true → s ≡ t
same_codes-eq [] [] h = refl
same_codes-eq [] (d ∷ t) h = absurd (cc)
same_codes-eq (c ∷ s) [] h = absurd (cc)
same_codes-eq (c ∷ s) (d ∷ t) h =
    let head : c ≡ d = (nat_eq_iff c d).0 (ground arith) in
    let tail = same_codes-eq s t (ground arith) in λ i. head i ∷ tail i

contains_holds :
    (p : ℕ → Bool) (xs : List ℕ) (c : ℕ) → contains xs c ≡ true → all p xs ≡ true → p c ≡ true
contains_holds p [] c h k = absurd (cc)
contains_holds p (x ∷ xs) c h k = elim (Bool-cases (x == c)) [
  | inl same ↦ subst (λ y. p y ≡ true) ((nat_eq_iff x c).0 same) (ground arith)
  | inr other ↦ contains_holds p xs c (ground arith) (ground arith)
]

indicator_no_word : (c : ℕ) → is_indicator c ≡ true → not (is_word_code c) ≡ true
unfolding is_indicator is_word_code
indicator_no_word c h =
    contains_holds (λ x. not (is_word_code x)) (codes "-?:,[]{}#&*!|>'\"%@`") c h refl

word_no_indicator : (c : ℕ) → is_word_code c ≡ true → is_indicator c ≡ false
word_no_indicator c h = ground (arith, indicator_no_word c)

colon_not_safe : is_safe_code b':' ≡ false
unfolding is_safe_code
colon_not_safe = refl

space_not_safe : is_safe_code 32 ≡ false
unfolding is_safe_code
space_not_safe = refl

tab_not_safe : is_safe_code 9 ≡ false
unfolding is_safe_code
tab_not_safe = refl

word_is_safe : (c : ℕ) → is_word_code c ≡ true → is_safe_code c ≡ true
unfolding is_safe_code
word_is_safe c h = ground arith

plain_safe_rest : (s : List ℕ) → is_plain_safe s ≡ true → safe_rest s ≡ true
plain_safe_rest [] h = refl
plain_safe_rest (c ∷ s) h = ground (arith, word_is_safe c)

plain_safe_leads : (s : List ℕ) → is_plain_safe s ≡ true → leads s ≡ false
plain_safe_leads [] h = refl
plain_safe_leads (c ∷ s) h = ground (arith, word_no_indicator c)

-- The alternatives of `_scalar`.
pick :
    (P : List ℕ → Type 0) (a b c d e : Bool) (u v w x y z : List ℕ)
    → (a ≡ false → P u)
    → P v
    → (c ≡ true → P w)
    → (a ≡ true → c ≡ false → d ≡ true → P x)
    → (c ≡ false → e ≡ true → P y)
    → P z
    → P (
        if not a
        then u
        else (if b then v else (if c then w else (if d then x else (if e then y else z)))))
pick P false b c d e u v w x y z p q r s t m = p refl
pick P true true c d e u v w x y z p q r s t m = q
pick P true false true d e u v w x y z p q r s t m = r refl
pick P true false false true e u v w x y z p q r s t m = s refl refl refl
pick P true false false false true u v w x y z p q r s t m = t refl refl
pick P true false false false false u v w x y z p q r s t m = m

either_false : (a b : Bool) → (a || b) ≡ false → (a ≡ false) × (b ≡ false)
either_false a b h = ground arith

safe_line : (a b : Bool) → (a && not b) ≡ true → (a ≡ true) × (b ≡ false)
safe_line a b h = ground arith

numeric_there : (a b : Bool) → (a || b) ≡ true → a ≡ false → b ≡ true
numeric_there a b h k = ground arith

no_break_there : (a b : Bool) → (a && b) ≡ false → a ≡ true → b ≡ false
no_break_there a b h k = ground arith

read_nothing : (s : List ℕ) → nonempty s ≡ false → read_double (b'"' ∷ []) ≡ some (s, [])
read_nothing [] h = read_double_empty
read_nothing (c ∷ s) h = absurd (cc)

phrase_parts :
    (n m l x y z w e : Bool)
    → ((n && m) && (not l && (not (x || (y || (z || w))) && not e))) ≡ true
    → (n ≡ true)
      × (l ≡ false)
      × (x ≡ false)
      × (y ≡ false)
      × (z ≡ false)
      × (e ≡ false)
      × (w ≡ false)
      × (m ≡ true)
phrase_parts n m l x y z w e h = ground arith

module _ (is_digit : ℕ → Bool) (lower strip : List ℕ → List ℕ) where
  abbrev SamePlain : List ℕ → Type 0
  SamePlain s = IsPlain is_digit lower s

  safe-IsPlain :
      (s : List ℕ)
      → nonempty s ≡ true
      → is_ambiguous (lower s) ≡ false
      → is_numeric is_digit s ≡ false
      → is_plain_safe s ≡ true
      → has_break s ≡ false
      → IsPlain is_digit lower s
  safe-IsPlain s a b c d e =
      let rest = plain_safe_rest s d in
      let no_colon = safe_no_code b':' s colon_not_safe refl rest in
      let no_space = safe_no_code 32 s space_not_safe refl rest in
      let no_tab = safe_no_code 9 s tab_not_safe refl rest in
      record {
        there = a;
        no_word = b;
        no_number = c;
        no_indicator = plain_safe_leads s d;
        no_mapping = no_code_mapping s no_colon;
        no_comment = no_code_comment s no_space;
        one_line = e;
        no_key = no_code_key s no_colon;
        no_tab = no_code_marker 9 s no_tab;
        begins = no_blank_starts s no_space no_tab;
        ends = no_blank_ends s no_space no_tab;
      }

  phrase-IsPlain :
      (s : List ℕ)
      → is_ambiguous (lower s) ≡ false
      → is_numeric is_digit s ≡ false
      → is_plain_safe_phrase is_digit lower strip s ≡ true
      → (starts_blank (strip s) ≡ false) × (ends_blank (strip s) ≡ false)
      → IsPlain is_digit lower s
  unfolding is_plain_safe_phrase
  phrase-IsPlain s b c d stripped =
      let parts = phrase_parts _ _ _ _ _ _ _ _ d in
      let same : s ≡ strip s = same_codes-eq s (strip s) parts.7 in
      record {
        there = parts.0;
        no_word = b;
        no_number = c;
        no_indicator = parts.1;
        no_mapping = parts.2;
        no_comment = parts.3;
        one_line = parts.4;
        no_key = parts.5;
        no_tab = parts.6;
        begins = ap starts_blank same ∙ stripped.0;
        ends = ap ends_blank same ∙ stripped.1;
      }

  module _
      (stripped : (s : List ℕ) → (starts_blank (strip s) ≡ false) × (ends_blank (strip s) ≡ false))
      (digit_bare : (c : ℕ) → is_digit c ≡ true → is_bare c ≡ true)
      (lower_bare : (s : List ℕ) → all is_bare (lower s) ≡ true → all is_bare s ≡ true) where
    escaped-IsQuoted : (s : List ℕ) → contains s 13 ≡ false → IsQuoted s (in_quotes (escape_yaml s))
    escaped-IsQuoted s h = (escape_yaml s ++ b'"' ∷ [], refl, read_double-escape_yaml s h)

    quoted_bare :
        (s : List ℕ)
        → (is_ambiguous (lower s) || is_numeric is_digit s) ≡ true
        → (is_numeric is_digit s && has_break s) ≡ false
        → all is_bare s ≡ true
    quoted_bare s h k = elim (Bool-cases (is_ambiguous (lower s))) [
      | inl word ↦ lower_bare s (ambiguous_bare (lower s) word)
      | inr other ↦
          let number = numeric_there (is_ambiguous (lower s)) (is_numeric is_digit s) h other in
          is_numeric_bare is_digit digit_bare s number
            (no_break_there (is_numeric is_digit s) (has_break s) k number)
    ]

    -- A text is written as it is, having passed the tests, or in quotes.
    pub scalar_text_lem :
        (s : List ℕ)
        → contains s 13 ≡ false
        → (is_numeric is_digit s && has_break s) ≡ false
        → ((scalar_text is_digit lower strip s ≡ s) × IsPlain is_digit lower s)
          ⊎ IsQuoted s (scalar_text is_digit lower strip s)
    unfolding scalar_text
    scalar_text_lem s h k =
        pick (λ w. ((w ≡ s) × IsPlain is_digit lower s) ⊎ IsQuoted s w) (nonempty s)
          (starts_codes (codes "{{") s || starts_codes (codes "{%") s)
          (is_ambiguous (lower s) || is_numeric is_digit s) (is_plain_safe s && not (has_break s))
          (is_plain_safe_phrase is_digit lower strip s) _ _ _ _ _ _
          (λ gone. inr (b'"' ∷ [], refl, read_nothing s gone)) (inr (escaped-IsQuoted s h))
          (λ other. inr (s ++ b'"' ∷ [], refl, read_double-bare s (quoted_bare s other k)))
          (λ full plain safe.
            let types = either_false _ _ plain in
            let line = safe_line _ _ safe in
            inl (refl, safe-IsPlain s full types.0 types.1 line.0 line.1))
          (λ plain phrase.
            let types = either_false _ _ plain in
            inl (refl, phrase-IsPlain s types.0 types.1 phrase (stripped s)))
          (inr (escaped-IsQuoted s h))
