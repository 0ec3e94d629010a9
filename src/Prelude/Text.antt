-- ===== src/Prelude/Text.antt =====
-- Text as its code points, and the order in which Python sorts it.
use Prim.Native.Nat.{ℕ}
use Prim.Native.Char.{code}
use Prim.Native.String.{String}
use mathlib.Core.Path.{◌≡◌, refl, ap₂}
use mathlib.Core.Logic.{◌⊎◌, inl, inr}
use mathlib.Core.Bool.{Bool, true, false, ◌&&◌, ◌||◌}
use mathlib.Core.List.{List, [], ◌∷◌}
use native.Mathlib.Omega.{arith}
use package.text.Mathlib.TextEquality.{Char-path}
use topo_forge_ai.Prelude.Tests.{ltb, nat_eq}

abbrev pub codes : String → List ℕ
codes String.[] = []
codes (String.◌∷◌ c s) = code c ∷ codes s

pub codes-injective : (s t : String) → codes s ≡ codes t → s ≡ t
codes-injective String.[] String.[] h = refl
codes-injective String.[] (String.◌∷◌ d t) h = cc
codes-injective (String.◌∷◌ c s) String.[] h = cc
codes-injective (String.◌∷◌ c s) (String.◌∷◌ d t) h =
    let head : code c ≡ code d = cc in
    let tail : codes s ≡ codes t = cc in
    ap₂ String.◌∷◌ (Char-path c d head) (codes-injective s t tail)

-- Lexicographic order.
abbrev pub lex_le : List ℕ → List ℕ → Bool
lex_le [] ys = true
lex_le (x ∷ xs) [] = false
lex_le (x ∷ xs) (y ∷ ys) = ltb x y || (nat_eq x y && lex_le xs ys)

pub lex_le_total : (xs ys : List ℕ) → (lex_le xs ys ≡ true) ⊎ (lex_le ys xs ≡ true)
lex_le_total [] ys = inl refl
lex_le_total (x ∷ xs) [] = inr refl
lex_le_total (x ∷ xs) (y ∷ ys) = ground (arith, lex_le_total xs ys)

pub lex_le_trans :
    (xs ys zs : List ℕ) → lex_le xs ys ≡ true → lex_le ys zs ≡ true → lex_le xs zs ≡ true
lex_le_trans [] ys zs h k = refl
lex_le_trans (x ∷ xs) [] zs h k = cc
lex_le_trans (x ∷ xs) (y ∷ ys) [] h k = cc
lex_le_trans (x ∷ xs) (y ∷ ys) (z ∷ zs) h k = ground (arith, lex_le_trans xs ys zs)

pub lex_le_antisymm : (xs ys : List ℕ) → lex_le xs ys ≡ true → lex_le ys xs ≡ true → xs ≡ ys
lex_le_antisymm [] [] h k = refl
lex_le_antisymm [] (y ∷ ys) h k = cc
lex_le_antisymm (x ∷ xs) [] h k = cc
lex_le_antisymm (x ∷ xs) (y ∷ ys) h k = ground (arith, lex_le_antisymm xs ys)

-- `s <= t`
abbrev pub str_le : String → String → Bool
str_le s t = lex_le (codes s) (codes t)
