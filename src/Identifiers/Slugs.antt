-- ===== src/Identifiers/Slugs.antt =====
-- The texts that `slugify` of src/domain/common/identifiers.py answers.
use Prim.Native.Char.{code, Char}
use topo_forge_ai.Identifiers.{
  slugify, dash_runs, length_of, is_slug_code, strip_left, take_text, strip_right, is_empty_text,
  is_dash, strip_dashes, or_unnamed,
}
use topo_forge_ai.Prelude.{
  refl, true, false, zero, suc, Bool, String, ℕ, not, ◌≡◌, if◌then◌else◌, arith, ◌≤◌, ◌⊎◌, ◌&&◌,
  inl, inr, Bool-cases, ap, ◌∙◌,
}
use mathlib.Core.Path.{ap₂}
use text.Mathlib.TextEquality.{Char-path}

-- Words of lower-case letters and digits with single dashes between them. The flag says that a word
-- must begin here.
abbrev pub words : Bool → String → Bool
words begins String.[] = not begins
words begins (String.◌∷◌ c s) =
    let inside = words false s in
    let after = words true s in
    if is_slug_code (code c) then inside else (is_dash c && (not begins && after))

-- As `words`, with a dash allowed at the end.
abbrev runs : Bool → String → Bool
runs begins String.[] = true
runs begins (String.◌∷◌ c s) =
    let inside = runs false s in
    let after = runs true s in
    if is_slug_code (code c) then inside else (is_dash c && (not begins && after))

runs-dash_runs : (reading : Bool) (s : String) → runs reading (dash_runs reading s) ≡ true
runs-dash_runs reading String.[] = refl
runs-dash_runs reading (String.◌∷◌ c s) =
    ground (arith, runs-dash_runs true s, runs-dash_runs false s)

-- What may stand where a word must begin may stand elsewhere.
runs-begins : (s : String) → runs true s ≡ true → runs false s ≡ true
runs-begins String.[] h = refl
runs-begins (String.◌∷◌ c s) h = ground (arith, h)

runs-strip_left : (s : String) → runs false s ≡ true → runs true (strip_left s) ≡ true
runs-strip_left String.[] h = refl
runs-strip_left (String.◌∷◌ c s) h = elim (Bool-cases (is_dash c)) [
  | inl dash ↦ rw dash (runs-strip_left s (ground (arith, h, runs-begins s)))
  | inr other ↦ rw other (ground (arith, h))
]

runs-take_text :
    (n : ℕ) (begins : Bool) (s : String) → runs begins s ≡ true → runs begins (take_text n s) ≡ true
runs-take_text zero begins s h = refl
runs-take_text (suc n) begins String.[] h = refl
runs-take_text (suc n) begins (String.◌∷◌ c s) h =
    ground (arith, h, runs-take_text n true s, runs-take_text n false s)

runs-strip_right :
    (begins : Bool) (s : String) → runs begins s ≡ true → runs begins (strip_right s) ≡ true
runs-strip_right begins String.[] h = refl
runs-strip_right begins (String.◌∷◌ c s) h =
    elim (Bool-cases (is_dash c && is_empty_text (strip_right s))) [
      | inl gone ↦ rw gone refl
      | inr kept ↦ rw kept (ground (arith, h, runs-strip_right true s, runs-strip_right false s))
    ]

pub empty_text : (s : String) → is_empty_text s ≡ true → s ≡ ""
empty_text String.[] h = refl
empty_text (String.◌∷◌ c s) h = cc

gone_there :
    (c : Char) (s : String)
    → (is_dash c && is_empty_text (strip_right s)) ≡ true
    → is_empty_text (strip_right (String.◌∷◌ c s)) ≡ false
    → ⊥
gone_there c s gone = rw gone (λ h. cc)

-- Without dashes at its end, what is left is words, if anything is left.
words-strip_right :
    (begins : Bool) (s : String)
    → runs begins s ≡ true
    → is_empty_text (strip_right s) ≡ false
    → words begins (strip_right s) ≡ true
words-strip_right begins String.[] h there = cc
words-strip_right begins (String.◌∷◌ c s) h there =
    elim (Bool-cases (is_dash c && is_empty_text (strip_right s))) [
      | inl gone ↦ absurd (gone_there c s gone there)
      | inr kept ↦ elim (Bool-cases (is_empty_text (strip_right s))) [
        | inl last ↦ rw kept (rw (empty_text (strip_right s) last) (ground (arith, h)))
        | inr more ↦
            rw kept (ground (arith, h, words-strip_right true s, words-strip_right false s))
      ]
    ]

length_of-strip_right : (s : String) → length_of (strip_right s) ≤ length_of s
length_of-strip_right String.[] = omega arith
length_of-strip_right (String.◌∷◌ c s) = ground (arith, length_of-strip_right s)

length_of-take_text : (n : ℕ) (s : String) → length_of (take_text n s) ≤ n
length_of-take_text zero s = omega arith
length_of-take_text (suc n) String.[] = omega arith
length_of-take_text (suc n) (String.◌∷◌ c s) = omega (arith, length_of-take_text n s)

-- Every slug is made of words of lower-case letters and digits with single dashes between them, and
-- is no longer than allowed, unless it is the name for nothing.
pub slugify-words :
    (fold : String → String) (max_length : ℕ) (value : String)
    → (words true (slugify fold max_length value) ≡ true)
      × ((length_of (slugify fold max_length value) ≤ max_length)
          ⊎ (slugify fold max_length value ≡ "unnamed"))
unfolding slugify
slugify-words fold max_length value =
    let start = dash_runs false (fold value) in
    let stripped = strip_dashes start in
    let cut = take_text max_length stripped in
    let shape = runs-take_text max_length true stripped (
      runs-strip_right true (strip_left start)
        (runs-strip_left start (runs-dash_runs false (fold value)))) in
    let short = length_of-strip_right cut in
    let shorter = length_of-take_text max_length stripped in
    elim (Bool-cases (is_empty_text (strip_right cut))) [
      | inl nothing ↦ rw nothing (refl, inr refl)
      | inr there ↦
          rw there (words-strip_right true cut shape there, inl (omega (arith, short, shorter)))
    ]

words-begins : (s : String) → words true s ≡ true → words false s ≡ true
words-begins String.[] h = refl
words-begins (String.◌∷◌ c s) h = ground (arith, h)

dash_runs-words : (begins : Bool) (s : String) → words begins s ≡ true → dash_runs begins s ≡ s
dash_runs-words begins String.[] h = refl
dash_runs-words begins (String.◌∷◌ c s) h = elim (Bool-cases (is_slug_code (code c))) [
  | inl inside ↦ rw inside (ap (String.◌∷◌ c) (dash_runs-words false s (ground (arith, h))))
  | inr outside ↦
      let facts : (begins ≡ false) × ((45 ≡ code c) × (words true s ≡ true)) = ground (arith, h) in
      rw (outside, facts.0)
        (ap₂ String.◌∷◌ (Char-path "-" c facts.1.0) (dash_runs-words true s facts.1.1))
]

strip_left-words : (s : String) → words true s ≡ true → strip_left s ≡ s
strip_left-words String.[] h = refl
strip_left-words (String.◌∷◌ c s) h = elim (Bool-cases (is_dash c)) [
  | inl dash ↦ absurd (ground (arith, h))
  | inr other ↦ rw other refl
]

-- A dash is not the last character.
not_last :
    (c : Char) (s : String) (begins : Bool)
    → words begins (String.◌∷◌ c s) ≡ true
    → (is_dash c && is_empty_text s) ≡ false
not_last c String.[] begins h = ground (arith, h)
not_last c (String.◌∷◌ d s) begins h = ground arith

strip_right-words : (begins : Bool) (s : String) → words begins s ≡ true → strip_right s ≡ s
strip_right-words begins String.[] h = refl
strip_right-words begins (String.◌∷◌ c s) h =
    let kept : (is_dash c && is_empty_text s) ≡ false = not_last c s begins h in
    let rest : strip_right s ≡ s = elim (Bool-cases (is_slug_code (code c))) [
      | inl inside ↦ strip_right-words false s (ground (arith, h))
      | inr outside ↦ strip_right-words true s (ground (arith, h))
    ] in
    rw rest (rw kept refl)

take_text-all : (n : ℕ) (s : String) → length_of s ≤ n → take_text n s ≡ s
take_text-all zero String.[] h = refl
take_text-all zero (String.◌∷◌ c s) h = absurd (omega arith)
take_text-all (suc n) String.[] h = refl
take_text-all (suc n) (String.◌∷◌ c s) h = ap (String.◌∷◌ c) (take_text-all n s (omega arith))

named : (s : String) → words true s ≡ true → or_unnamed s ≡ s
named String.[] h = cc
named (String.◌∷◌ c s) h = refl

-- What is such words already, and not too long, is its own slug.
slugify-fixed :
    (fold : String → String) (max_length : ℕ) (slug : String)
    → words true slug ≡ true
    → length_of slug ≤ max_length
    → fold slug ≡ slug
    → slugify fold max_length slug ≡ slug
unfolding slugify
slugify-fixed fold max_length slug shape short same =
    let first : dash_runs false (fold slug) ≡ slug =
      ap (dash_runs false) same ∙ dash_runs-words false slug (words-begins slug shape) in
    let last = strip_right-words true slug shape in
    let second : strip_dashes slug ≡ slug = ap strip_right (strip_left-words slug shape) ∙ last in
    let third : take_text max_length (strip_dashes (dash_runs false (fold slug))) ≡ slug =
      ap (λ s. take_text max_length (strip_dashes s)) first
      ∙ ap (take_text max_length) second
      ∙ take_text-all max_length slug short in
    ap (λ s. or_unnamed (strip_right s)) third ∙ ap or_unnamed last ∙ named slug shape
