-- ===== src/Prelude/Errors.antt =====
-- Python code that may raise: a value or an exception, and `do` blocks over these.
use mathlib.Core.Path.{◌≡◌, refl}
use mathlib.Core.Logic.{◌⊎◌, inl, inr, ◌↔◌}
use topo_forge_ai.Prelude.Lists.{All}
use mathlib.Core.Bool.{Bool, true, false}
use mathlib.Core.List.{List, [], ◌∷◌}

pub data Result {ℓ κ} (E : Type ℓ) (A : Type κ) : Type (ℓ ⊔ κ) where
  ok : A → Result E A
  raise : E → Result E A

module _ {ℓ} {E : Type ℓ} where
  -- `if not b: raise e`
  abbrev pub require : Bool → E → Result E (Unit {0})
  require false e = raise e
  require true e = ok tt

  -- What follows runs only if nothing was raised.
  abbrev pub ◌>>=◌ {κ μ} :
      {A : Type κ} {B : Type μ} (r : Result E A) (next : A → Result E B) → Result E B
  raise e >>= next = raise e
  ok x >>= next = next x

  abbrev pub ◌>>◌ {κ} : {B : Type κ} (r : Result E (Unit {0})) (rest : Result E B) → Result E B
  raise e >> rest = raise e
  ok x >> rest = rest

  infixl 5 ◌>>=◌ ◌>>◌
  -- A loop whose body only raises.
  abbrev pub for_each {κ} : {A : Type κ} → (A → Result E (Unit {0})) → List A → Result E (Unit {0})
  for_each f [] = ok tt
  for_each f (x ∷ xs) = f x >> for_each f xs

  pub >>=-eq-ok {κ μ} :
      {A : Type κ} {B : Type μ} (r : Result E A) (next : A → Result E B) {y : B}
      → (r >>= next) ≡ ok y
      → (x : A) × (r ≡ ok x) × (next x ≡ ok y)
  >>=-eq-ok (raise e) next h = cc
  >>=-eq-ok (ok x) next h = (x, refl, h)

  -- A sequence succeeds exactly when both its parts do.
  pub >>-eq-ok_iff {κ} :
      {B : Type κ} (r : Result E (Unit {0})) (rest : Result E B) {y : B}
      → ((r >> rest) ≡ ok y) ↔ ((r ≡ ok tt) × (rest ≡ ok y))
  >>-eq-ok_iff (raise e) rest = (λ h. absurd (cc), λ h. absurd (cc))
  >>-eq-ok_iff (ok u) rest = (λ h. (refl, h), λ h. h.1)

  pub require_iff : (b : Bool) (e : E) → (require b e ≡ ok tt) ↔ (b ≡ true)
  require_iff true e = (λ _. refl, λ _. refl)
  require_iff false e = (λ h. absurd (cc), λ h. absurd (cc))

  pub for_each_iff {κ} :
      {A : Type κ} (f : A → Result E (Unit {0})) (xs : List A)
      → (for_each f xs ≡ ok tt) ↔ All (λ x. f x ≡ ok tt) xs
  for_each_iff f [] = (λ _. tt, λ _. refl)
  for_each_iff f (x ∷ xs) =
      let parts = >>-eq-ok_iff (f x) (for_each f xs) in
      let rest = for_each_iff f xs in
      (λ h. ((parts.0 h).0, rest.0 (parts.0 h).1), λ h. parts.1 (h.0, rest.1 h.1))

  pub Result-cases {κ} :
      {A : Type κ} (r : Result E A) → ((a : A) × (r ≡ ok a)) ⊎ ((e : E) × (r ≡ raise e))
  Result-cases (ok a) = inl (a, refl)
  Result-cases (raise e) = inr (e, refl)
