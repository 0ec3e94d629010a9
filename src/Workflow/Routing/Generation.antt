-- ===== src/Workflow/Routing/Generation.antt =====
-- The routing functions of src/infrastructure/orchestration/langgraph/routing.py around the
-- generators.
use topo_forge_ai.Prelude.{
  ◌≡◌, refl, inl, inr, true, false, String, List, [], ◌∷◌, Result, ok, raise, ◌>>=◌, if◌then◌else◌,
  arith, Bool-cases, Result-cases, eq_iff,
}
use topo_forge_ai.Value.{Value, PyError, get, truthy, or_empty}
use topo_forge_ai.Workflow.State.{State}
use topo_forge_ai.Workflow.Routing.{any_key, infrastructure_keys, route_after_cloud_validation}
use topo_forge_ai.Workflow.Routing.Decisions.{held}

-- Some of the keys holds a value that is true.
pub data SomeKey (v : Value) : List String → Type 0 where
  first :
      {k : String} {ks : List String} (x : Value)
      → get v k ≡ ok x
      → truthy x ≡ true
      → SomeKey v (k ∷ ks)
  later : {k : String} {ks : List String} → SomeKey v ks → SomeKey v (k ∷ ks)

any_key-SomeKey : (v : Value) (ks : List String) → any_key v ks ≡ ok true → SomeKey v ks
unfolding any_key
any_key-SomeKey v [] h = cc
any_key-SomeKey v (k ∷ ks) h = elim (Result-cases (get v k)) [
  | inr (e, fails) ↦ absurd (ground arith)
  | inl (x, held_at) ↦ elim (Bool-cases (truthy x)) [
    | inl full ↦ first x held_at full
    | inr empty ↦ later (any_key-SomeKey v ks (ground arith))
  ]
]

-- Validated without errors, and with something to provision.
pub record IsGeneratable (s : State) : Type 0 where
  pub errors : Value
  pub reported : get (or_empty (held s "cloud_validation")) "errors" ≡ ok errors
  pub clean : truthy errors ≡ false
  pub infrastructure : Value
  pub stored : get (or_empty (held s "cloud_architecture")) "infrastructure" ≡ ok infrastructure
  pub nonempty : SomeKey (or_empty infrastructure) infrastructure_keys

generated :
    (errors infrastructure : Result PyError Value)
    → (errors >>= λ e.
        if truthy e
        then ok "invalid"
        else ((infrastructure >>= λ i. any_key (or_empty i) infrastructure_keys) >>= λ b.
            let word : String = if b then "generate" else "invalid" in ok word))
      ≡ ok "generate"
    → (e : Value) × (i : Value) × (errors ≡ ok e)
      × (truthy e ≡ false)
      × (infrastructure ≡ ok i)
      × (any_key (or_empty i) infrastructure_keys ≡ ok true)
generated (raise x) i h = cc
generated (ok e) (raise x) h = absurd (ground (arith, eq_iff "invalid" "generate"))
generated (ok e) (ok i) h =
    let facts : (truthy e ≡ false) × (any_key (or_empty i) infrastructure_keys ≡ ok true) = ground (
      arith,
      Result-cases (any_key (or_empty i) infrastructure_keys),
      eq_iff "invalid" "generate",
    ) in
    (e, i, refl, facts.0, refl, facts.1)

-- `route_after_cloud_validation` answers "generate" only in a generatable state.
pub generate-IsGeneratable :
    (s : State) → route_after_cloud_validation s ≡ ok "generate" → IsGeneratable s
unfolding route_after_cloud_validation
generate-IsGeneratable s h =
    let (e, i, reported, clean, stored, full) =
      generated (get (or_empty (held s "cloud_validation")) "errors")
        (get (or_empty (held s "cloud_architecture")) "infrastructure") h in
    record {
      errors = e;
      reported = reported;
      clean = clean;
      infrastructure = i;
      stored = stored;
      nonempty = any_key-SomeKey (or_empty i) infrastructure_keys full;
    }
