-- ===== src/Cloud/Sound/Dictionary.antt =====
-- A dictionary that is filled by a loop which refuses a second value for a key, as
-- `ComputePlacementValidator` of src/domain/cloud/validators.py does with addresses.
use topo_forge_ai.Cloud.Validators.Placement.{Seen}
use topo_forge_ai.Prelude.{
  refl, some, none, [], true, ◌∷◌, String, Bool, ◌++◌, AllPairs, lookup, ◌&&◌, ◌≡◌, ◌==◌, arith,
  String-Eq, inl, inr, ◌↔◌, Bool-cases, All, eq_iff, All-and_iff, subst, All_iff,
}

-- A dictionary in which no key is given a second value.
unfoldable pub agrees_with : Seen → String → String → Bool
agrees_with seen k v = elim (lookup k seen) [ none ↦ true | some w ↦ w == v ]

-- The loop that looks each entry up and then sets it.
unfoldable pub clean : Seen → Seen → Bool
unfolding agrees_with
clean seen [] = true
clean seen ((k, v) ∷ rest) = agrees_with seen k v && clean ((k, v) ∷ seen) rest

-- The entries set one after the other.
unfoldable pub set_all : Seen → Seen → Seen
set_all [] seen = seen
set_all (x ∷ rest) seen = set_all rest (x ∷ seen)

pub clean-append :
    (seen xs ys : Seen) → clean seen (xs ++ ys) ≡ (clean seen xs && clean (set_all xs seen) ys)
unfolding clean set_all
clean-append seen [] ys = refl
clean-append seen ((k, v) ∷ xs) ys = ground (arith, clean-append ((k, v) ∷ seen) xs ys)

set_all-append : (xs ys seen : Seen) → set_all (xs ++ ys) seen ≡ set_all ys (set_all xs seen)
unfolding set_all
set_all-append [] ys seen = refl
set_all-append (x ∷ xs) ys seen = set_all-append xs ys (x ∷ seen)

-- Two entries with one key have one value.
abbrev pub IsFunctional : Seen → Type 0
IsFunctional = AllPairs (λ x y. x.0 ≡ y.0 → x.1 ≡ y.1)

agrees_with-cons :
    (seen : Seen) (k v l w : String)
    → agrees_with seen k v ≡ true
    → (agrees_with ((k, v) ∷ seen) l w ≡ true) ↔ ((agrees_with seen l w ≡ true) × (k ≡ l → v ≡ w))
unfolding agrees_with
agrees_with-cons seen k v l w h = elim (Bool-cases (k == l)) [
  | inl same ↦
      let e = (eq_iff k l).0 same in
      let old : v ≡ w → agrees_with seen l w ≡ true = λ p.
        subst (λ x. agrees_with seen x w ≡ true) e (subst (λ x. agrees_with seen k x ≡ true) p h) in
      (
        λ m. (old (ground (arith, eq_iff v w)), λ _. ground (arith, eq_iff v w)),
        λ m. let q = m.1 e in ground (arith, eq_iff v w),
      )
  | inr other ↦
      (λ m. (ground arith, λ e. absurd (cc ((eq_iff k l).1 e, other))), λ m. ground (arith, m.0))
]

clean_iff :
    (seen xs : Seen)
    → (clean seen xs ≡ true) ↔ (All (λ x. agrees_with seen x.0 x.1 ≡ true) xs × IsFunctional xs)
unfolding clean
clean_iff seen [] = (λ _. (tt, tt), λ _. refl)
clean_iff seen ((k, v) ∷ xs) =
    let rest = clean_iff ((k, v) ∷ seen) xs in
    let split =
      All-and_iff (λ (x : String × String). agrees_with seen x.0 x.1 ≡ true)
        (λ (x : String × String). k ≡ x.0 → v ≡ x.1) xs in
    let each = λ (h : agrees_with seen k v ≡ true).
      All_iff xs (λ (x : String × String). agrees_with-cons seen k v x.0 x.1 h) in
    (
      λ h.
          let first : agrees_with seen k v ≡ true = ground arith in
          let tail = rest.0 (ground arith) in
          let both = split.0 ((each first).0 tail.0) in ((first, both.0), (both.1, tail.1)),
      λ w.
          let tail = rest.1 ((each w.0.0).1 (split.1 (w.0.1, w.1.0)), w.1.1) in
          let first = w.0.0 in ground arith,
    )

-- A dictionary starts empty.
pub clean-nil_iff : (xs : Seen) → (clean [] xs ≡ true) ↔ IsFunctional xs
unfolding agrees_with
clean-nil_iff xs = let start = clean_iff [] xs in (λ h. (start.0 h).1, λ w. start.1 (no_keys xs, w))
  where
    no_keys : (ys : Seen) → All (λ (y : String × String). agrees_with [] y.0 y.1 ≡ true) ys
    no_keys [] = tt
    no_keys (y ∷ ys) = (refl, no_keys ys)
