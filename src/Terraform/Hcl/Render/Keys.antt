-- ===== src/Terraform/Hcl/Render/Keys.antt =====
-- src/infrastructure/generators/terraform/hcl.py: the keys of mappings, and a reader of them as the
-- HCL language defines keys: an identifier or a quoted literal. Which characters an identifier of HCL
-- begins with and goes on with (ID_Start and ID_Continue of Unicode) are parameters, as is what
-- Python's `str.isalpha` and `str.isalnum` hold for letters.
use topo_forge_ai.Terraform.Hcl.Render.{render_key, in_quotes, is_key_start, is_key_code}
use topo_forge_ai.Terraform.Hcl.Escape.RoundTrip.{is_plain, escape-eq_self, read_quoted-escape}
use topo_forge_ai.Terraform.Hcl.Escape.{read_quoted, escape}
use topo_forge_ai.Yaml.{same_codes}
use topo_forge_ai.Prelude.{
  refl, some, none, [], true, false, ◌∷◌, ℕ, Bool, ◌≡◌, Option, List, all, arith, if◌then◌else◌,
  ◌==◌, ◌&&◌, ◌||◌, ℕ-Eq, not, codes,
}

module _ (id_start id_continue : ℕ → Bool) where
  abbrev whole : Option (List ℕ × List ℕ) → Option (List ℕ)
  whole (some (text, [])) = some text
  whole _ = none

  abbrev begins_name : ℕ → Bool
  begins_name c = id_start c || c == b'_'

  abbrev goes_on : ℕ → Bool
  goes_on c = id_continue c || (c == b'_' || c == b'-')

  -- A key is a quoted literal or an identifier; in braces, `for` begins an expression instead.
  abbrev pub read_key : List ℕ → Option (List ℕ)
  read_key [] = none
  read_key (c ∷ cs) =
      if c == b'"'
      then whole (read_quoted cs)
      else (if (begins_name c && all goes_on cs) && not (same_codes (c ∷ cs) (codes "for"))
          then some (c ∷ cs)
          else none)

  -- What Python takes for a letter begins an identifier of HCL, what it takes for a letter or digit
  -- is in one, and no quote begins one.
  abbrev pub agrees : (ℕ → Bool) → (ℕ → Bool) → List ℕ → Bool
  agrees is_alpha is_alnum key =
      all
        (λ c.
          (not (is_alpha c) || id_start c)
          && ((not (is_alnum c) || (id_continue c && is_plain c))
              && (not (is_alpha c) || is_alnum c)))
        key

  module _ (is_alpha is_alnum : ℕ → Bool) where
    continues :
        (s : List ℕ)
        → agrees is_alpha is_alnum s ≡ true
        → all (is_key_code is_alpha is_alnum) s ≡ true
        → all goes_on s ≡ true
    continues [] h k = refl
    continues (c ∷ s) h k = ground (arith, continues s)

    key_codes_plain :
        (s : List ℕ)
        → agrees is_alpha is_alnum s ≡ true
        → all (is_key_code is_alpha is_alnum) s ≡ true
        → all is_plain s ≡ true
    key_codes_plain [] h k = refl
    key_codes_plain (c ∷ s) h k = ground (arith, key_codes_plain s)

    read_key_quoted : (key : List ℕ) → read_key (in_quotes (escape key)) ≡ some key
    read_key_quoted key = rw (read_quoted-escape key []) refl

    read_key_bare :
        (key : List ℕ)
        → agrees is_alpha is_alnum key ≡ true
        → same_codes key (codes "for") ≡ false
        → is_key_start is_alpha is_alnum key ≡ true
        → all (is_key_code is_alpha is_alnum) key ≡ true
        → read_key key ≡ some key
    read_key_bare [] g f h k = cc
    read_key_bare (c ∷ cs) g f h k =
        let later = continues cs (ground (arith, g)) (ground (arith, k)) in
        ground (arith, later, g, f, h, k)

    -- A key of a mapping other than `for` is read back, by a reader of HCL's keys, from what is
    -- written for it, bare or in quotes, if for its characters `str.isalpha` and `str.isalnum` agree
    -- with what an identifier of HCL may begin with and hold, and none of these needs an escape.
    pub read_key-render_key :
        (key : List ℕ)
        → agrees is_alpha is_alnum key ≡ true
        → same_codes key (codes "for") ≡ false
        → read_key (render_key is_alpha is_alnum key) ≡ some key
    unfolding render_key
    read_key-render_key key g f = ground (
      arith,
      read_key_quoted key,
      read_key_bare key g f,
      escape-eq_self key,
      key_codes_plain key g,
    )
