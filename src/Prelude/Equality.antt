-- ===== src/Prelude/Equality.antt =====
-- Types whose values Python compares with `==`: membership tests, sets and dictionaries.
use Prim.Native.String.{String}
use Prim.Native.Nat.{ℕ}
use mathlib.Core.Path.{◌≡◌, refl}
use mathlib.Core.Logic.{◌↔◌}
use mathlib.Core.Bool.{Bool, true, false, not, ◌&&◌, ◌||◌}
use mathlib.Core.Option.{Option, none, some}
use mathlib.Core.List.{List, [], ◌∷◌, ◌++◌}
use native.Mathlib.Omega.{arith}
use text.Mathlib.Text.{◌==◌ as str_eq}
use text.Mathlib.TextEquality.{eq_iff}
use topo_forge_ai.Prelude.Tests.{if◌then◌else◌, nat_eq, nat_eq_iff}

-- What `__eq__` of a type computes, and that it is equality.
pub record Eq {ℓ} (A : Type ℓ) : Type ℓ where
  pub same_as : A → A → Bool
  pub agrees : (x y : A) → (same_as x y ≡ true) ↔ (x ≡ y)

instance abbrev pub String-Eq : Eq String
String-Eq = record { agrees = eq_iff; same_as = str_eq }

instance abbrev pub ℕ-Eq : Eq ℕ
ℕ-Eq = record { agrees = nat_eq_iff; same_as = nat_eq }

abbrev pub ◌==◌ {ℓ} : {A : Type ℓ} ⦃e : Eq A⦄ (x y : A) → Bool
◌==◌ ⦃e⦄ x y = e.same_as x y

infix 50 ◌==◌
module _ {ℓ} {A : Type ℓ} ⦃e : Eq A⦄ where
  pub same_refl : (a : A) → (a == a) ≡ true
  same_refl a = (e.agrees a a).1 refl

  -- `a in xs`
  abbrev pub contains : List A → A → Bool
  contains [] a = false
  contains (x ∷ xs) a = x == a || contains xs a

  abbrev pub In : A → List A → Type 0
  In a xs = contains xs a ≡ true

  pub contains-append :
      (xs ys : List A) (a : A) → contains (xs ++ ys) a ≡ (contains xs a || contains ys a)
  contains-append [] ys a = refl
  contains-append (x ∷ xs) ys a = ground (arith, contains-append xs ys a)

  -- `tuple(dict.fromkeys(xs))`: the first occurrence of each item, in order. `seen` holds what
  -- came before.
  abbrev pub dedup_from : List A → List A → List A
  dedup_from seen [] = []
  dedup_from seen (x ∷ xs) =
      let rest = dedup_from seen xs in
      let rest' = x ∷ dedup_from (x ∷ seen) xs in if contains seen x then rest else rest'

  abbrev pub dedup : List A → List A
  dedup = dedup_from []

  pub contains-dedup_from :
      (seen xs : List A) (a : A)
      → (contains seen a || contains (dedup_from seen xs) a) ≡ (contains seen a || contains xs a)
  contains-dedup_from seen [] a = refl
  contains-dedup_from seen (x ∷ xs) a =
      ground
        (arith, e.agrees x a, contains-dedup_from seen xs a, contains-dedup_from (x ∷ seen) xs a)

  -- Deduplication keeps the members.
  pub contains-dedup : (xs : List A) (a : A) → contains (dedup xs) a ≡ contains xs a
  contains-dedup xs a = contains-dedup_from [] xs a

  -- No item occurs twice.
  abbrev pub distinct : List A → Bool
  distinct [] = true
  distinct (x ∷ xs) = not (contains xs x) && distinct xs

  not-In-dedup_from :
      (seen xs : List A) (a : A) → In a seen → contains (dedup_from seen xs) a ≡ false
  not-In-dedup_from seen [] a h = refl
  not-In-dedup_from seen (x ∷ xs) a h =
      ground (arith, e.agrees x a, not-In-dedup_from seen xs a h, not-In-dedup_from (x ∷ seen) xs a)

  pub dedup_from-distinct : (seen xs : List A) → distinct (dedup_from seen xs) ≡ true
  dedup_from-distinct seen [] = refl
  dedup_from-distinct seen (x ∷ xs) = ground (
    arith,
    dedup_from-distinct seen xs,
    dedup_from-distinct (x ∷ seen) xs,
    not-In-dedup_from (x ∷ seen) xs x,
    e.agrees x x,
  )

  -- A dictionary as an association list: `m.get(k)` reads the first entry.
  abbrev pub lookup {κ} : {V : Type κ} → A → List (A × V) → Option V
  lookup k [] = none
  lookup k ((j, v) ∷ m) = if j == k then some v else lookup k m
