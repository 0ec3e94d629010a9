-- ===== src/Yaml/Numbers.antt =====
-- src/infrastructure/generators/ansible/yaml_writer.py: the texts that `_NUMERIC` matches.
use topo_forge_ai.Prelude.{refl, [], true, false, ◌∷◌, List, ℕ, Bool, ◌≡◌, all, arith}
use topo_forge_ai.Yaml.{
  is_numeric, skip_digits, at_end, skip_sign, exponent, after_digits, unsigned, has_marker,
}
use topo_forge_ai.Yaml.Scalars.{is_bare}

abbrev pub has_break : List ℕ → Bool
has_break = has_marker (10 ∷ [])

module _ (is_digit : ℕ → Bool) (digit_bare : (c : ℕ) → is_digit c ≡ true → is_bare c ≡ true) where
  at_end_bare : (t : List ℕ) → at_end is_digit t ≡ true → has_break t ≡ false → all is_bare t ≡ true
  at_end_bare [] h k = refl
  at_end_bare (c ∷ t) h k = absurd (ground arith)

  skip_digits-has_break :
      (t : List ℕ) → has_break t ≡ false → has_break (skip_digits is_digit t) ≡ false
  skip_digits-has_break [] h = refl
  skip_digits-has_break (c ∷ t) h = ground (arith, skip_digits-has_break t)

  skip_digits_bare :
      (t : List ℕ) → all is_bare (skip_digits is_digit t) ≡ true → all is_bare t ≡ true
  skip_digits_bare [] h = refl
  skip_digits_bare (c ∷ t) h = ground (arith, skip_digits_bare t, digit_bare c)

  skip_sign-has_break :
      (t : List ℕ) → has_break t ≡ false → has_break (skip_sign is_digit t) ≡ false
  skip_sign-has_break [] h = refl
  skip_sign-has_break (c ∷ t) h = ground arith

  skip_sign_bare : (t : List ℕ) → all is_bare (skip_sign is_digit t) ≡ true → all is_bare t ≡ true
  skip_sign_bare [] h = refl
  skip_sign_bare (c ∷ t) h = ground arith

  exponent_bare :
      (t : List ℕ) → exponent is_digit t ≡ true → has_break t ≡ false → all is_bare t ≡ true
  exponent_bare [] h k = refl
  exponent_bare (c ∷ t) h k = ground (
    arith,
    at_end_bare (c ∷ t),
    at_end_bare (skip_digits is_digit (skip_sign is_digit t)),
    skip_digits_bare (skip_sign is_digit t),
    skip_digits-has_break (skip_sign is_digit t),
    skip_sign_bare t,
    skip_sign-has_break t,
  )

  mantissa_bare :
      (t : List ℕ)
      → exponent is_digit (skip_digits is_digit t) ≡ true
      → has_break t ≡ false
      → all is_bare t ≡ true
  mantissa_bare t h k =
      skip_digits_bare t (exponent_bare (skip_digits is_digit t) h (skip_digits-has_break t k))

  after_digits_bare :
      (t : List ℕ) → after_digits is_digit t ≡ true → has_break t ≡ false → all is_bare t ≡ true
  after_digits_bare [] h k = refl
  after_digits_bare (c ∷ t) h k = ground (arith, mantissa_bare t, exponent_bare (c ∷ t))

  unsigned_bare :
      (t : List ℕ) → unsigned is_digit t ≡ true → has_break t ≡ false → all is_bare t ≡ true
  unsigned_bare [] h k = cc
  unsigned_bare (c ∷ t) h k = ground (
    arith,
    digit_bare c,
    skip_digits_bare t,
    skip_digits-has_break t,
    after_digits_bare (skip_digits is_digit t),
    mantissa_bare t,
  )

  -- A number without a line break has no character that a text in quotes would have to escape.
  pub is_numeric_bare :
      (t : List ℕ) → is_numeric is_digit t ≡ true → has_break t ≡ false → all is_bare t ≡ true
  unfolding is_numeric
  is_numeric_bare t h k =
      skip_sign_bare t (unsigned_bare (skip_sign is_digit t) h (skip_sign-has_break t k))
