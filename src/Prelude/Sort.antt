-- ===== src/Prelude/Sort.antt =====
-- Python's `sorted(xs, key=...)`: stable, and by its order alone where the keys are distinct.
use mathlib.Core.Path.{◌≡◌, refl, ap, ap₂, ◌∙◌}
use mathlib.Core.Logic.{◌≢◌, ◌⊎◌, inl, inr}
use mathlib.Core.Bool.{Bool, true}
use mathlib.Core.List.{List, [], ◌∷◌, map, Perm, Permᴰ}
use mathlib.Core.List.Perm
use native.Mathlib.Omega.{arith}
use topo_forge_ai.Prelude.Tests.{if◌then◌else◌, Bool-cases}
use topo_forge_ai.Prelude.Lists.{All}
use topo_forge_ai.Prelude.Equality.{Eq, contains, distinct}

module _ {A : Type 0} (le : A → A → Bool) where
  -- An item goes before those that are not below it.
  abbrev pub insert : A → List A → List A
  insert a [] = a ∷ []
  insert a (x ∷ xs) = if le a x then a ∷ x ∷ xs else x ∷ insert a xs

  abbrev pub sorted : List A → List A
  sorted [] = []
  sorted (x ∷ xs) = insert x (sorted xs)

  insert-perm : (a : A) (xs : List A) → Perm (insert a xs) (a ∷ xs)
  insert-perm a [] = Perm.refl (a ∷ [])
  insert-perm a (x ∷ xs) = elim (Bool-cases (le a x)) [
    | inl t ↦ rw t (Perm.refl (a ∷ x ∷ xs))
    | inr f ↦ rw f (Perm.trans (Perm.cons x (insert-perm a xs)) (Perm.swap a x xs))
  ]

  -- Sorting keeps the items.
  pub sorted-perm : (xs : List A) → Perm (sorted xs) xs
  sorted-perm [] = Perm.nil
  sorted-perm (x ∷ xs) = Perm.trans (insert-perm x (sorted xs)) (Perm.cons x (sorted-perm xs))

  module _ (total : (a b : A) → (le a b ≡ true) ⊎ (le b a ≡ true))
      (trans : (a b c : A) → le a b ≡ true → le b c ≡ true → le a c ≡ true) where
    -- Two items that are not each below the other may be inserted in either order.
    pub insert_comm :
        (a b : A)
        → (le a b ≡ true → le b a ≡ true → a ≡ b)
        → (xs : List A) → insert a (insert b xs) ≡ insert b (insert a xs)
    insert_comm a b anti [] = ground (arith, total a b, anti)
    insert_comm a b anti (x ∷ xs) = ground (
      arith,
      total a b,
      total a x,
      total b x,
      anti,
      trans a b x,
      trans b a x,
      trans a x b,
      trans b x a,
      insert_comm a b anti xs,
    )

module _ {A K : Type 0} ⦃e : Eq K⦄ (key : A → K) where
  keys-perm :
      {xs ys : List A} → Permᴰ xs ys → (k : K) → contains (map key xs) k ≡ contains (map key ys) k
  keys-perm Permᴰ.nil k = refl
  keys-perm (Permᴰ.cons {a} {b} p r) k = ground (arith, ap key p, keys-perm r k)
  keys-perm (Permᴰ.swap p q) k = ground (arith, ap key p, ap key q)
  keys-perm (Permᴰ.trans r s) k = keys-perm r k ∙ keys-perm s k

  distinct-perm :
      {xs ys : List A} → Permᴰ xs ys → distinct (map key xs) ≡ true → distinct (map key ys) ≡ true
  distinct-perm Permᴰ.nil h = refl
  distinct-perm (Permᴰ.cons {a} {b} p r) h =
      ground (arith, ap key p, keys-perm r (key a), distinct-perm r)
  distinct-perm (Permᴰ.swap {a} {b} p q) h =
      ground (arith, ap key p, ap key q, e.agrees (key a) (key b), e.agrees (key b) (key a))
  distinct-perm (Permᴰ.trans r s) h = distinct-perm s (distinct-perm r h)

  module _ (le : K → K → Bool) (total : (a b : K) → (le a b ≡ true) ⊎ (le b a ≡ true))
      (trans : (a b c : K) → le a b ≡ true → le b c ≡ true → le a c ≡ true)
      (anti : (a b : K) → le a b ≡ true → le b a ≡ true → a ≡ b) where
    abbrev by_key : A → A → Bool
    by_key a b = le (key a) (key b)

    -- With distinct keys the result of sorting does not depend on the order of the input.
    pub sorted_unique :
        {xs ys : List A}
        → Permᴰ xs ys
        → distinct (map key xs) ≡ true
        → sorted by_key xs ≡ sorted by_key ys
    sorted_unique Permᴰ.nil h = refl
    sorted_unique (Permᴰ.cons {a} {b} {l₁} {l₂} p r) h =
        ap₂ (insert by_key) p (sorted_unique r (ground arith))
    sorted_unique (Permᴰ.swap {a} {b} {a'} {b'} {l} p q) h =
        let differs : key b ≢ key a = λ same. cc ((e.agrees (key b) (key a)).1 same, h) in
        insert_comm by_key (λ x y. total (key x) (key y)) (λ x y z. trans (key x) (key y) (key z)) a
          b (λ u v. absurd (differs (anti (key b) (key a) v u))) (sorted by_key l)
        ∙ ap₂ (λ x y. insert by_key x (insert by_key y (sorted by_key l))) q p
    sorted_unique (Permᴰ.trans r s) h = sorted_unique r h ∙ sorted_unique s (distinct-perm r h)

module _ {A : Type 0} (le : A → A → Bool) (P : A → Type 0) where
  All-insert : (a : A) (xs : List A) → P a → All P xs → All P (insert le a xs)
  All-insert a [] p h = (p, tt)
  All-insert a (x ∷ xs) p h = elim (Bool-cases (le a x)) [
    | inl t ↦ rw t (p, h)
    | inr f ↦ rw f (h.0, All-insert a xs p h.1)
  ]

  pub All-sorted : (xs : List A) → All P xs → All P (sorted le xs)
  All-sorted [] h = tt
  All-sorted (x ∷ xs) h = All-insert x (sorted le xs) h.0 (All-sorted xs h.1)
