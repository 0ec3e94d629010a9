-- ===== src/Prelude/Largest.antt =====
-- Python's `max` with a key.
use Prim.Native.Nat.{ℕ, ◌≤◌}
use mathlib.Core.Path.{◌≡◌, refl, sym, subst}
use mathlib.Core.Logic.{◌⊎◌, inl, inr}
use mathlib.Core.Bool.{Bool, true, false}
use mathlib.Core.Option.{Option, none, some}
use mathlib.Core.List.{List, [], ◌∷◌}
use native.Mathlib.Omega.{arith}
use topo_forge_ai.Prelude.Tests.{if◌then◌else◌, Bool-cases, ltb}
use topo_forge_ai.Prelude.Lists.{All, All-map, filter, filter-eq-nil_iff}
use topo_forge_ai.Prelude.Quantifiers.{All-filter_iff}

-- What holds of everything holds of every item.
All-everywhere {ℓ κ} : {A : Type ℓ} {P : A → Type κ} → ((x : A) → P x) → (xs : List A) → All P xs
All-everywhere h [] = tt
All-everywhere h (x ∷ xs) = (h x, All-everywhere h xs)

module _ {ℓ} {A : Type ℓ} (key : A → ℕ) where
  -- `max(xs, key=key)`: the first of the items whose key is largest, with the first item given.
  abbrev pub max_by : A → List A → A
  max_by best [] = best
  max_by best (x ∷ xs) =
      let newer = max_by x xs in
      let older = max_by best xs in if ltb (key best) (key x) then newer else older

  -- No item has a larger key.
  pub max_by-largest :
      (best : A) (xs : List A)
      → (key best ≤ key (max_by best xs)) × All (λ x. key x ≤ key (max_by best xs)) xs
  max_by-largest best [] = (omega arith, tt)
  max_by-largest best (x ∷ xs) =
      let bounded = λ (r : A). (key best ≤ key r) × All (λ y. key y ≤ key r) (x ∷ xs) in
      elim (Bool-cases (ltb (key best) (key x))) [
        | inl less ↦
            let (there, rest) = max_by-largest x xs in
            let newer : max_by best (x ∷ xs) ≡ max_by x xs = rw less refl in
            subst bounded (sym newer) (ground arith, (there, rest))
        | inr more ↦
            let (there, rest) = max_by-largest best xs in
            let older : max_by best (x ∷ xs) ≡ max_by best xs = rw more refl in
            subst bounded (sym older) (there, (ground arith, rest))
      ]

  pub max_by-All {κ} :
      (P : A → Type κ) (best : A) (xs : List A) → P best → All P xs → P (max_by best xs)
  max_by-All P best [] h k = h
  max_by-All P best (x ∷ xs) h k = elim (Bool-cases (ltb (key best) (key x))) [
    | inl less ↦ rw less (max_by-All P x xs k.0 k.1)
    | inr more ↦ rw more (max_by-All P best xs h k.1)
  ]

  -- `max(xs, key=key)`, if there are items.
  abbrev pub largest_of : List A → Option A
  largest_of [] = none
  largest_of (x ∷ xs) = some (max_by x xs)

module _ {A : Type 0} (key : A → ℕ) (test : A → Bool) (xs : List A) where
  -- The item is one of the list that passes the test, and none that does has a larger key.
  pub record IsLargest (k : A) : Type 1 where
    pub passes : test k ≡ true
    pub member : (P : A → Type 0) → All P xs → P k
    pub largest : All (λ x. test x ≡ true → key x ≤ key k) xs

  largest_of-kept :
      (held : List A)
      → filter test xs ≡ held
      → ((largest_of key held ≡ none) × All (λ x. test x ≡ false) xs)
        ⊎ ((k : A) × (largest_of key held ≡ some k) × IsLargest k)
  largest_of-kept [] e = inl (refl, (filter-eq-nil_iff test xs).0 e)
  largest_of-kept (first ∷ rest) e =
      let k = max_by key first rest in
      let from_held =
        λ (P : A → Type 0) (h : All P (first ∷ rest)). max_by-All key P first rest h.0 h.1 in
      let to_held = λ (P : A → Type 0) (h : All (λ x. test x ≡ true → P x) xs).
        subst (All P) e ((All-filter_iff test P xs).1 h) in
      let (at_first, at_rest) = max_by-largest key first rest in
      inr (
        k,
        refl,
        record {
          passes =
              from_held (λ x. test x ≡ true)
                (to_held (λ x. test x ≡ true) (All-everywhere (λ x h. h) xs));
          member = λ P h. from_held P (to_held P (All-map _ _ (λ x p _. p) xs h));
          largest =
              (All-filter_iff test (λ x. key x ≤ key k) xs).0
                (subst (All (λ x. key x ≤ key k)) (sym e) (at_first, at_rest));
        },
      )

  -- What is answered for the items of the list that pass the test.
  pub largest_of-filter :
      ((largest_of key (filter test xs) ≡ none) × All (λ x. test x ≡ false) xs)
      ⊎ ((k : A) × (largest_of key (filter test xs) ≡ some k) × IsLargest k)
  largest_of-filter = largest_of-kept (filter test xs) refl
