-- ===== src/Terraform/Hcl/Escape/RoundTrip.antt =====
-- src/infrastructure/generators/terraform/hcl.py: an escaped text reads back, character by
-- character, and is never an expression.
use mathlib.Core.List.{append_assoc}
use topo_forge_ai.Terraform.Hcl.Escape.{
  escape, escape_codes, starts_brace, replace_pair, read_quoted, push, read_step,
}
use topo_forge_ai.Prelude.{
  refl, [], false, ◌∷◌, ℕ, List, Bool, ◌≡◌, ◌≢◌, if◌then◌else◌, ◌==◌, ◌++◌, arith, ◌||◌, ◌&&◌, ◌∙◌,
  ℕ-Eq, ap, some, true, not, all, contains, and_parts,
}

-- What `_escape` writes for one character; the flag says that a brace follows it.
abbrev piece : ℕ → Bool → List ℕ
piece c brace =
    if c == b'\\'
    then b'\\' ∷ b'\\' ∷ []
    else (if c == b'"'
        then b'\\' ∷ b'"' ∷ []
        else (if c == 10
            then b'\\' ∷ b'n' ∷ []
            else (if c == 13
                then b'\\' ∷ b'r' ∷ []
                else (if c == 9
                    then b'\\' ∷ b't' ∷ []
                    else (if (c == b'$' || c == b'%') && brace then c ∷ c ∷ [] else c ∷ [])))))

-- Doubles a character before a brace.
abbrev double : ℕ → List ℕ → List ℕ
double a [] = []
double a (x ∷ xs) = (if x == a && starts_brace xs then x ∷ x ∷ [] else x ∷ []) ++ double a xs

replace_pair-double :
    (a : ℕ) (text : List ℕ)
    → (a == b'{') ≡ false
    → replace_pair a b'{' (a ∷ a ∷ b'{' ∷ []) text ≡ double a text
replace_pair-double a [] h = refl
replace_pair-double a (x ∷ []) h = ground arith
replace_pair-double a (x ∷ y ∷ xs) h =
    ground (arith, replace_pair-double a xs h, replace_pair-double a (y ∷ xs) h)

escape_codes_cons : (c : ℕ) (s : List ℕ) → escape_codes (c ∷ s) ≡ piece c false ++ escape_codes s
escape_codes_cons c s = ground arith

starts_brace-escape_codes : (s : List ℕ) → starts_brace (escape_codes s) ≡ starts_brace s
starts_brace-escape_codes [] = refl
starts_brace-escape_codes (c ∷ s) = rw (escape_codes_cons c s) (ground arith)

starts_brace-double : (a : ℕ) (text : List ℕ) → starts_brace (double a text) ≡ starts_brace text
starts_brace-double a [] = refl
starts_brace-double a (x ∷ xs) = ground arith

escape-double : (s : List ℕ) → escape s ≡ double b'%' (double b'$' (escape_codes s))
unfolding escape
escape-double s =
    replace_pair-double b'%' (replace_pair b'$' b'{' (b'$' ∷ b'$' ∷ b'{' ∷ []) (escape_codes s))
      refl
    ∙ ap (double b'%') (replace_pair-double b'$' (escape_codes s) refl)

pub starts_brace-escape : (s : List ℕ) → starts_brace (escape s) ≡ starts_brace s
starts_brace-escape s =
    rw
      (
        escape-double s,
        starts_brace-double b'%' (double b'$' (escape_codes s)),
        starts_brace-double b'$' (escape_codes s),
      )
      (starts_brace-escape_codes s)

double-piece :
    (c : ℕ) (t : List ℕ)
    → double b'%' (double b'$' (piece c false ++ t))
      ≡ piece c (starts_brace t) ++ double b'%' (double b'$' t)
double-piece c t = ground (arith, starts_brace-double b'$' t)

escape_cons : (c : ℕ) (s : List ℕ) → escape (c ∷ s) ≡ piece c (starts_brace s) ++ escape s
escape_cons c s =
    rw
      (
        escape-double (c ∷ s),
        escape-double s,
        escape_codes_cons c s,
        double-piece c (escape_codes s),
        starts_brace-escape_codes s,
      )
      refl

-- A text that begins with an expression.
abbrev opens : List ℕ → Bool
opens [] = false
opens (x ∷ xs) = (x == b'$' || x == b'%') && starts_brace xs

starts_brace-append :
    (s t : List ℕ) → starts_brace t ≡ false → starts_brace (escape s ++ t) ≡ starts_brace s
unfolding escape
starts_brace-append [] t h = h
starts_brace-append (c ∷ s) t h = rw (escape_cons c s) (ground arith)

opens-escape :
    (s t : List ℕ) → starts_brace t ≡ false → opens t ≡ false → opens (escape s ++ t) ≡ false
unfolding escape
opens-escape [] t h k = k
opens-escape (c ∷ s) t h k = rw (escape_cons c s) (ground (arith, starts_brace-append s t h))

read_quoted_cons :
    (x y : ℕ) (xs : List ℕ)
    → read_quoted (x ∷ y ∷ xs) ≡ read_step x y xs (read_quoted (y ∷ xs)) (read_quoted xs)
unfolding read_quoted
read_quoted_cons x y xs = refl

-- One character of the text is read back from its piece.
read_quoted-piece :
    (c : ℕ) (t : List ℕ)
    → t ≢ []
    → opens t ≡ false
    → read_quoted (piece c (starts_brace t) ++ t) ≡ push c (read_quoted t)
read_quoted-piece c [] h k = absurd (h refl)
read_quoted-piece c (y ∷ t) h k = ground (
  arith,
  read_quoted_cons b'\\' b'\\' (y ∷ t),
  read_quoted_cons b'\\' b'"' (y ∷ t),
  read_quoted_cons b'\\' b'n' (y ∷ t),
  read_quoted_cons b'\\' b'r' (y ∷ t),
  read_quoted_cons b'\\' b't' (y ∷ t),
  read_quoted_cons c c (y ∷ t),
  read_quoted_cons c y t,
)

append-ne-nil : (s : List ℕ) (x : ℕ) (t : List ℕ) → s ++ x ∷ t ≢ []
append-ne-nil [] x t h = cc
append-ne-nil (y ∷ s) x t h = cc

read_quoted_empty : (rest : List ℕ) → read_quoted (b'"' ∷ rest) ≡ some ([], rest)
unfolding read_quoted
read_quoted_empty [] = refl
read_quoted_empty (y ∷ ys) = refl

escape_nil : escape [] ≡ []
unfolding escape
escape_nil = refl

-- Any text, written in quotes, is read back as it was, with what follows the literal; so no text of
-- a user is taken for an expression and none ends its literal early.
pub read_quoted-escape : (s rest : List ℕ) → read_quoted (escape s ++ b'"' ∷ rest) ≡ some (s, rest)
read_quoted-escape [] rest = rw escape_nil (read_quoted_empty rest)
read_quoted-escape (c ∷ s) rest =
    let t = escape s ++ b'"' ∷ rest in
    let step =
      read_quoted-piece c t (append-ne-nil (escape s) b'"' rest)
        (opens-escape s (b'"' ∷ rest) refl refl) in
    rw
      (
        escape_cons c s,
        append_assoc (piece c (starts_brace s)) (escape s) (b'"' ∷ rest),
        ← starts_brace-append s (b'"' ∷ rest) refl,
        step,
        read_quoted-escape s rest,
      )
      refl

-- A text without these characters is written as it is.
abbrev pub is_plain : ℕ → Bool
is_plain c = not (contains (b'\\' ∷ b'"' ∷ 10 ∷ 13 ∷ 9 ∷ b'$' ∷ b'%' ∷ []) c)

pub escape-eq_self : (s : List ℕ) → all is_plain s ≡ true → escape s ≡ s
escape-eq_self [] h = escape_nil
escape-eq_self (c ∷ s) h =
    let parts = and_parts (is_plain c) (all is_plain s) h in
    let alone : piece c (starts_brace s) ≡ c ∷ [] = ground (arith, parts.0) in
    rw (escape_cons c s, alone, escape-eq_self s parts.1) refl
