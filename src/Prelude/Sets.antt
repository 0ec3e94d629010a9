-- ===== src/Prelude/Sets.antt =====
-- Sets of ids, as Python builds them from a list.
use Prim.Native.Nat.{◌≤◌}
use Prim.Native.String.{String}
use mathlib.Core.Path.{◌≡◌, refl}
use mathlib.Core.Logic.{◌↔◌}
use mathlib.Core.Bool.{Bool, true, false, not, ◌||◌}
use mathlib.Core.List.{List, [], ◌∷◌}
use native.Mathlib.Omega.{arith}
use text.Mathlib.TextEquality.{eq_iff}
use topo_forge_ai.Prelude.Lists.{length, any}
use topo_forge_ai.Prelude.Equality.{◌==◌, contains, dedup, dedup_from, distinct, ℕ-Eq, String-Eq}

-- `len(set(ids)) != len(ids)`
abbrev pub has_duplicates : List String → Bool
has_duplicates ids = not (length (dedup ids) == length ids)

-- Taking the repetitions away leaves the length as it is only where there are none.
any-contains :
    (x : String) (seen xs : List String)
    → any (contains (x ∷ seen)) xs ≡ (contains xs x || any (contains seen) xs)
any-contains x seen [] = refl
any-contains x seen (y ∷ ys) = ground (arith, any-contains x seen ys, eq_iff x y, eq_iff y x)

length-dedup_from-le : (seen xs : List String) → length (dedup_from seen xs) ≤ length xs
length-dedup_from-le seen [] = omega arith
length-dedup_from-le seen (x ∷ xs) =
    ground (arith, length-dedup_from-le seen xs, length-dedup_from-le (x ∷ seen) xs)

length-dedup_from_iff :
    (seen xs : List String)
    → (length (dedup_from seen xs) ≡ length xs)
      ↔ ((distinct xs ≡ true) × (any (contains seen) xs ≡ false))
length-dedup_from_iff seen [] = (λ _. (refl, refl), λ _. refl)
length-dedup_from_iff seen (x ∷ xs) = ground (
  arith,
  length-dedup_from-le seen xs,
  length-dedup_from_iff (x ∷ seen) xs,
  any-contains x seen xs,
)

any_never : (xs : List String) → any (contains []) xs ≡ false
any_never [] = refl
any_never (x ∷ xs) = any_never xs

pub has_duplicates_iff : (ids : List String) → (has_duplicates ids ≡ false) ↔ (distinct ids ≡ true)
has_duplicates_iff ids = ground (arith, length-dedup_from_iff [] ids, any_never ids)
