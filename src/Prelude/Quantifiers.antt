-- ===== src/Prelude/Quantifiers.antt =====
-- What holds of all items, of some item, and of all pairs of items of a list.
use mathlib.Core.Path.{◌≡◌, refl}
use mathlib.Core.Logic.{◌↔◌, inl, inr}
use mathlib.Core.Bool.{Bool, true, false}
use mathlib.Core.List.{List, [], ◌∷◌}
use native.Mathlib.Omega.{arith}
use topo_forge_ai.Prelude.Tests.{Bool-cases}
use topo_forge_ai.Prelude.Lists.{All, any, filter, concat_map, All-append}
use topo_forge_ai.Prelude.Equality.{Eq, ◌==◌, contains, same_refl}

module _ {ℓ} {A : Type ℓ} where
  -- Every item stands in the relation to every item behind it.
  abbrev pub AllPairs {κ} : (A → A → Type κ) → List A → Type κ
  AllPairs R [] = Unit
  AllPairs R (x ∷ xs) = All (R x) xs × AllPairs R xs

  pub All_iff {κ μ} :
      {P : A → Type κ} {Q : A → Type μ} (xs : List A) → ((x : A) → P x ↔ Q x) → All P xs ↔ All Q xs
  All_iff [] h = (λ _. tt, λ _. tt)
  All_iff (x ∷ xs) h =
      let rest = All_iff xs h in (λ a. ((h x).0 a.0, rest.0 a.1), λ a. ((h x).1 a.0, rest.1 a.1))

  pub AllPairs-iff {κ μ} :
      {P : A → A → Type κ} {Q : A → A → Type μ} (xs : List A)
      → ((x y : A) → P x y ↔ Q x y)
      → AllPairs P xs ↔ AllPairs Q xs
  AllPairs-iff [] h = (λ _. tt, λ _. tt)
  AllPairs-iff (x ∷ xs) h =
      let first = All_iff xs (h x) in
      let rest = AllPairs-iff xs h in
      (λ a. (first.0 a.0, rest.0 a.1), λ a. (first.1 a.0, rest.1 a.1))

  pub All-and_iff {κ μ} :
      (P : A → Type κ) (Q : A → Type μ) (xs : List A)
      → All (λ x. P x × Q x) xs ↔ (All P xs × All Q xs)
  All-and_iff P Q [] = (λ _. (tt, tt), λ _. tt)
  All-and_iff P Q (x ∷ xs) =
      let rest = All-and_iff P Q xs in
      (
        λ a. ((a.0.0, (rest.0 a.1).0), (a.0.1, (rest.0 a.1).1)),
        λ a. ((a.0.0, a.1.0), rest.1 (a.0.1, a.1.1)),
      )

  -- A statement for each index may be made inside.
  pub All-forall_iff {κ μ} :
      {I : Type κ} (P : I → A → Type μ) (xs : List A)
      → ((i : I) → All (P i) xs) ↔ All (λ x. (i : I) → P i x) xs
  All-forall_iff P [] = (λ _. tt, λ _ i. tt)
  All-forall_iff P (x ∷ xs) =
      let rest = All-forall_iff P xs in
      (λ a. (λ i. (a i).0, rest.0 (λ i. (a i).1)), λ a i. (a.0 i, rest.1 a.1 i))

  pub AllPairs-forall_iff {κ μ} :
      {I : Type κ} (P : I → A → A → Type μ) (xs : List A)
      → ((i : I) → AllPairs (P i) xs) ↔ AllPairs (λ x y. (i : I) → P i x y) xs
  AllPairs-forall_iff P [] = (λ _. tt, λ _ i. tt)
  AllPairs-forall_iff P (x ∷ xs) =
      let first = All-forall_iff (λ i. P i x) xs in
      let rest = AllPairs-forall_iff P xs in
      (λ a. (first.0 (λ i. (a i).0), rest.0 (λ i. (a i).1)), λ a i. (first.1 a.0 i, rest.1 a.1 i))

  pub All-filter_iff {κ} :
      (p : A → Bool) (P : A → Type κ) (xs : List A)
      → All P (filter p xs) ↔ All (λ x. p x ≡ true → P x) xs
  All-filter_iff p P [] = (λ _. tt, λ _. tt)
  All-filter_iff p P (x ∷ xs) =
      let rest = All-filter_iff p P xs in
      elim (Bool-cases (p x)) [
        | inl kept ↦ rw kept (λ a. (λ _. a.0, rest.0 a.1), λ a. (a.0 refl, rest.1 a.1))
        | inr gone ↦ rw gone (λ a. (λ h. absurd (cc), rest.0 a), λ a. rest.1 a.1)
      ]

  pub AllPairs-filter_iff {κ} :
      (p : A → Bool) (P : A → A → Type κ) (xs : List A)
      → AllPairs P (filter p xs) ↔ AllPairs (λ x y. p x ≡ true → p y ≡ true → P x y) xs
  AllPairs-filter_iff p P [] = (λ _. tt, λ _. tt)
  AllPairs-filter_iff p P (x ∷ xs) =
      let rest = AllPairs-filter_iff p P xs in
      let first = All-filter_iff p (P x) xs in
      elim (Bool-cases (p x)) [
        | inl kept ↦ rw kept (
          λ a. ((All_iff xs (λ y. (λ f _. f, λ f. f refl))).0 (first.0 a.0), rest.0 a.1),
          λ a. (first.1 ((All_iff xs (λ y. (λ f _. f, λ f. f refl))).1 a.0), rest.1 a.1),
        )
        | inr gone ↦ rw gone (λ a. (never xs, rest.0 a), λ a. rest.1 a.1)
      ]
    where
      never : (ys : List A) → All (λ y. false ≡ true → p y ≡ true → P x y) ys
      never [] = tt
      never (y ∷ ys) = (λ h. absurd (cc), never ys)

  pub All-concat_map_iff {κ μ} :
      {B : Type κ} (P : B → Type μ) (f : A → List B) (xs : List A)
      → All P (concat_map f xs) ↔ All (λ x. All P (f x)) xs
  All-concat_map_iff P f [] = (λ _. tt, λ _. tt)
  All-concat_map_iff P f (x ∷ xs) =
      let parts = All-append P (f x) (concat_map f xs) in
      let rest = All-concat_map_iff P f xs in
      (λ a. ((parts.0 a).0, rest.0 (parts.0 a).1), λ a. parts.1 (a.0, rest.1 a.1))

module _ {ℓ} {A : Type ℓ} ⦃e : Eq A⦄ where
  -- What holds of all items, by membership.
  pub All-In_iff {κ} :
      (P : A → Type κ) (xs : List A) → All P xs ↔ ((x : A) → contains xs x ≡ true → P x)
  All-In_iff P [] = (λ _ x h. absurd (cc), λ _. tt)
  All-In_iff P (x ∷ xs) =
      let rest = All-In_iff P xs in
      (
        λ a y h. elim (Bool-cases (x == y)) [
          | inl same ↦ rw (← (e.agrees x y).0 same) a.0
          | inr other ↦ rest.0 a.1 y (ground arith)
        ],
        λ f. (f x (ground (arith, same_refl x)), rest.1 (λ y h. f y (ground (arith, h)))),
      )

  pub any-In_iff :
      (p : A → Bool) (xs : List A)
      → (any p xs ≡ true) ↔ ((x : A) × (contains xs x ≡ true) × (p x ≡ true))
  any-In_iff p [] = (λ h. absurd (cc), λ (x, m, h). m)
  any-In_iff p (x ∷ xs) =
      let rest = any-In_iff p xs in
      (
        λ h. elim (Bool-cases (p x)) [
          | inl here ↦ (x, ground (arith, same_refl x), here)
          | inr not_here ↦ let (y, m, there) = rest.0 (ground arith) in (y, ground arith, there)
        ],
        λ (y, m, there). elim (Bool-cases (x == y)) [
          | inl same ↦ let here : p x ≡ true = rw ((e.agrees x y).0 same) there in ground arith
          | inr other ↦ let later = rest.1 (y, ground arith, there) in ground arith
        ],
      )
