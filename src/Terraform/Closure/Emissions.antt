-- ===== src/Terraform/Closure/Emissions.antt =====
-- src/infrastructure/generators/terraform/mappings/aws.py: what mappers emit, put together: the
-- expressions of the parts, and what the parts declare.
use topo_forge_ai.Terraform.Hcl.{HclValue}
use topo_forge_ai.Generation.{WarningSeverity, GeneratorWarning, high}
use topo_forge_ai.Prelude.{
  some, [], true, false, ◌∷◌, String, List, lookup, In, All, Bool, ◌≡◌, all, String-Eq, ◌<>◌, not,
  ℕ, All-map, ◌++◌, All-append, and_parts, arith, sym, contains-append, all-append, ◌∙◌, refl, none,
  Option,
}
use topo_forge_ai.Terraform.Closure.{
  BlockHas, Declared, Declared-append_left, Declared-append_right, ValueHas,
}
use topo_forge_ai.Terraform.Mapping.{
  MappingContext, Emission, ◌then_emit◌, emit_warning, address, emit_each, number_text,
  on_reference,
}

-- What makes the expressions of a mapper's blocks satisfy `K`: `D` for what is declared, `V` for the
-- variables.
pub record Grounds (K : String → Type 0) (D : String → String → Type 0) (V : String → Type 0)
    (ctx : MappingContext) : Type 0 where
  pub known : (id t n : String) → lookup id ctx.addresses ≡ some (t, n) → K (address t n "id")
  pub owned : (t n a : String) → D t n → K (address t n a)
  pub variable : (v : String) → V v → K ("var." <> v)
  pub zone_known :
      (k : ℕ) → K ("data.aws_availability_zones.available.names[" <> (number_text k <> "]"))
  pub image_known : K "data.aws_ami.amazon_linux.id"

module _ (K : String → Type 0) (D : String → String → Type 0) (V : String → Type 0) where
  -- If what the emission declares is in `D` and its variables are in `V`, its expressions are in `K`.
  abbrev pub IsSound : Emission → Type 0
  IsSound e =
      ((t n : String) → Declared t n e.blocks → D t n)
      → ((v : String) → In v e.variables → V v)
      → All (BlockHas K) e.blocks

  pub then_emit-IsSound : (a b : Emission) → IsSound a → IsSound b → IsSound (a then_emit b)
  then_emit-IsSound a b p q declared variables = (All-append (BlockHas K) a.blocks b.blocks).1 (
    p (λ t n h. declared t n (Declared-append_left t n a.blocks b.blocks h))
        (λ v h. variables v (ground (arith, contains-append a.variables b.variables v))),
    q (λ t n h. declared t n (Declared-append_right t n a.blocks b.blocks h))
        (λ v h. variables v (ground (arith, contains-append a.variables b.variables v))),
  )

  pub emit_each-IsSound :
      {A : Type 0} (P : A → Type 0) (f : A → Emission)
      → ((x : A) → P x → IsSound (f x))
      → (xs : List A) → All P xs
      → IsSound (emit_each f xs)
  emit_each-IsSound P f sound [] h declared variables = tt
  emit_each-IsSound P f sound (x ∷ xs) h declared variables =
      then_emit-IsSound (f x) (emit_each f xs) (sound x h.0) (emit_each-IsSound P f sound xs h.1)
        declared variables

  pub warning-IsSound :
      (severity : WarningSeverity) (code subject : String)
      → IsSound (emit_warning severity code subject)
  warning-IsSound severity code subject declared variables = tt

  -- The same for what every item emits, whatever is declared.
  pub emit_each-BlockHas :
      {A : Type 0} (f : A → Emission)
      → ((x : A) → All (BlockHas K) (f x).blocks)
      → (xs : List A) → All (BlockHas K) (emit_each f xs).blocks
  emit_each-BlockHas f has [] = tt
  emit_each-BlockHas f has (x ∷ xs) =
      (All-append (BlockHas K) (f x).blocks (emit_each f xs).blocks).1
        (has x, emit_each-BlockHas f has xs)

  pub on_reference-BlockHas :
      (o : Option HclValue) (severity : WarningSeverity) (code subject : String)
      (f : HclValue → Emission)
      → ((v : HclValue) → o ≡ some v → ValueHas K v)
      → ((v : HclValue) → ValueHas K v → All (BlockHas K) (f v).blocks)
      → All (BlockHas K) (on_reference o (emit_warning severity code subject) f).blocks
  on_reference-BlockHas none severity code subject f h g = tt
  on_reference-BlockHas (some v) severity code subject f h g = g v (h v refl)

  pub on_reference_else-IsSound :
      (o : Option HclValue) (missing : Emission) (f : HclValue → Emission)
      → IsSound missing
      → ((v : HclValue) → o ≡ some v → ValueHas K v)
      → ((v : HclValue) → ValueHas K v → IsSound (f v))
      → IsSound (on_reference o missing f)
  on_reference_else-IsSound none missing f e h g = e
  on_reference_else-IsSound (some v) missing f e h g = g v (h v refl)

  pub on_reference-IsSound :
      (o : Option HclValue) (severity : WarningSeverity) (code subject : String)
      (f : HclValue → Emission)
      → ((v : HclValue) → o ≡ some v → ValueHas K v)
      → ((v : HclValue) → ValueHas K v → IsSound (f v))
      → IsSound (on_reference o (emit_warning severity code subject) f)
  on_reference-IsSound o severity code subject f =
      on_reference_else-IsSound o (emit_warning severity code subject) f (λ _ _. tt)

pub All-Unit : {A : Type 0} (xs : List A) → All (λ _. Unit {0}) xs
All-Unit [] = tt
All-Unit (x ∷ xs) = (tt, All-Unit xs)

abbrev pub is_high : WarningSeverity → Bool
is_high high = true
is_high _ = false

-- No warning is of high severity.
abbrev pub quiet : List GeneratorWarning → Bool
quiet = all (λ w. not (is_high w.severity))

-- If nothing of high severity is reported, the resource is declared.
abbrev pub Declares : String → String → Emission → Type 0
Declares type name e = quiet e.warnings ≡ true → Declared type name e.blocks

pub then_emit_quiet :
    (a b : Emission)
    → quiet (a then_emit b).warnings ≡ true
    → (quiet a.warnings ≡ true) × (quiet b.warnings ≡ true)
then_emit_quiet a b h =
    and_parts _ _ (sym (all-append (λ w. not (is_high w.severity)) a.warnings b.warnings) ∙ h)

pub emit_each-Declares :
    {A : Type 0} (f : A → Emission) (type name : A → String) (P : A → Type 0)
    → ((x : A) → P x → Declares (type x) (name x) (f x))
    → (xs : List A) → All P xs
    → quiet (emit_each f xs).warnings ≡ true
    → All (λ x. Declared (type x) (name x) (emit_each f xs).blocks) xs
emit_each-Declares f type name P declares [] h calm = tt
emit_each-Declares f type name P declares (x ∷ xs) h calm =
    let parts = then_emit_quiet (f x) (emit_each f xs) calm in
    let bs = (f x).blocks in
    let cs = (emit_each f xs).blocks in
    (
      Declared-append_left (type x) (name x) bs cs (declares x h.0 parts.0),
      All-map (λ y. Declared (type y) (name y) cs) (λ y. Declared (type y) (name y) (bs ++ cs))
          (λ y. Declared-append_right (type y) (name y) bs cs) xs
          (emit_each-Declares f type name P declares xs h.1 parts.1),
    )

pub on_reference-Declares :
    (o : Option HclValue) (code subject type name : String) (f : HclValue → Emission)
    → ((v : HclValue) → Declares type name (f v))
    → Declares type name (on_reference o (emit_warning high code subject) f)
on_reference-Declares none code subject type name f h calm = absurd (cc)
on_reference-Declares (some v) code subject type name f h calm = h v calm
