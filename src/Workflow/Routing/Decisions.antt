-- ===== src/Workflow/Routing/Decisions.antt =====
-- When the gates of src/infrastructure/orchestration/langgraph/routing.py open: the routing
-- functions against conditions on what the state holds.
use topo_forge_ai.Prelude.{
  eq_iff, ◌≡◌, refl, ap, inl, inr, ◌↔◌, Bool, true, false, String, none, some, List, [], ◌∷◌,
  String-Eq, Result, ok, raise, if◌then◌else◌, arith, All, ◌>>=◌, ◌≢◌, Result-cases,
}
use topo_forge_ai.Value.{
  Value, null, bool, num, text, list, dict, nil, PyError, get_or, get, truthy, or_empty, iterate,
  scalar_eq, in_set, hashable, lookup_field,
}
use topo_forge_ai.Workflow.State.{State}
use topo_forge_ai.Workflow.Routing.{
  is_true, route_after_approval, any_blocking, route_after_network_validation,
}

-- What `state.get(key)` gives.
abbrev pub held : State → String → Value
held s k = elim (lookup_field k s) [ none ↦ null | some v ↦ v ]

text_of_scalar_eq : (v : Value) (t : String) → scalar_eq v (text t) ≡ true → v ≡ text t
text_of_scalar_eq (text s) t h = ap text ((eq_iff s t).0 h)
text_of_scalar_eq null t h = cc
text_of_scalar_eq (bool b) t h = cc
text_of_scalar_eq (num n) t h = cc
text_of_scalar_eq (list vs) t h = cc
text_of_scalar_eq (dict fs) t h = cc

is_true_lem : (v : Value) → is_true v ≡ true → v ≡ bool true
is_true_lem (bool b) h = ground arith
is_true_lem null h = cc
is_true_lem (text s) h = cc
is_true_lem (num n) h = cc
is_true_lem (list vs) h = cc
is_true_lem (dict fs) h = cc

-- The literal `True`, and a record that says "approved".
pub record IsApproved (s : State) : Type 0 where
  pub flag : held s "deployment_approved" ≡ bool true
  pub decision : get (or_empty (held s "approval")) "decision" ≡ ok (text "approved")

answered_apply :
    (v : Value) (d : Result PyError Value)
    → (if is_true v
        then (d >>= λ decision.
            let word : String =
              if scalar_eq decision (text "approved") then "apply" else "reject" in
            ok word)
        else ok "reject")
      ≡ ok "apply"
    → (v ≡ bool true) × (d ≡ ok (text "approved"))
answered_apply v (ok x) h =
    ground (arith, is_true_lem v, text_of_scalar_eq x "approved", eq_iff "apply" "reject")
answered_apply v (raise e) h = ground (arith, eq_iff "apply" "reject")

-- `route_after_approval` answers "apply" exactly in an approved state.
pub route_after_approval_iff : (s : State) → (route_after_approval s ≡ ok "apply") ↔ IsApproved s
unfolding route_after_approval
route_after_approval_iff s = (
  λ h.
      let (flag, decision) =
        answered_apply (held s "deployment_approved")
          (get (or_empty (held s "approval")) "decision") h in
      record { flag = flag; decision = decision },
  λ a. rw a.flag (rw a.decision refl),
)

-- A gap that does not have to be filled before translation: its "need" is none of two words.
abbrev pub IsFilled : Value → Type 0
IsFilled (dict fs) =
    (hashable (held fs "need") ≡ true)
    × (held fs "need" ≢ text "REQUIRED")
    × (held fs "need" ≢ text "ERROR")
IsFilled _ = Unit

need_blocks :
    (v : Value) (later : Result PyError Bool)
    → ((in_set v (text "REQUIRED" ∷ text "ERROR" ∷ []) >>= λ b. if b then ok true else later)
        ≡ ok false)
      ↔ ((hashable v ≡ true) × (v ≢ text "REQUIRED") × (v ≢ text "ERROR") × (later ≡ ok false))
need_blocks null later = ground arith
need_blocks (bool b) later = ground arith
need_blocks (num n) later = ground arith
need_blocks (text t) later = ground (arith, eq_iff "REQUIRED" t, eq_iff "ERROR" t)
need_blocks (list vs) later = ground arith
need_blocks (dict fs) later = ground arith

any_blocking_iff : (items : List Value) → (any_blocking items ≡ ok false) ↔ All IsFilled items
unfolding any_blocking
any_blocking_iff [] = (λ _. tt, λ _. refl)
any_blocking_iff (dict fs ∷ rest) =
    ground (arith, need_blocks (held fs "need") (any_blocking rest), any_blocking_iff rest)
any_blocking_iff (null ∷ rest) = ground (arith, any_blocking_iff rest)
any_blocking_iff (bool b ∷ rest) = ground (arith, any_blocking_iff rest)
any_blocking_iff (num n ∷ rest) = ground (arith, any_blocking_iff rest)
any_blocking_iff (text t ∷ rest) = ground (arith, any_blocking_iff rest)
any_blocking_iff (list vs ∷ rest) = ground (arith, any_blocking_iff rest)

-- Validated without errors, and with no gap left that must be filled.
pub record IsTranslatable (s : State) : Type 0 where
  pub errors : Value
  pub reported : get (or_empty (held s "network_validation")) "errors" ≡ ok errors
  pub clean : truthy errors ≡ false
  pub missing : Value
  pub stored :
      get_or (or_empty (held s "network_architecture")) "missing_information" (list nil)
      ≡ ok missing
  pub gaps : List Value
  pub listed : iterate missing ≡ ok gaps
  pub filled : All IsFilled gaps

-- The errors that a validation report names, and the gaps that the architecture lists.
abbrev reported_errors : State → String → Result PyError Value
reported_errors s k = get (or_empty (held s k)) "errors"

abbrev stored_gaps : State → Result PyError Value
stored_gaps s = get_or (or_empty (held s "network_architecture")) "missing_information" (list nil)

translated :
    (errors missing : Result PyError Value)
    → (errors >>= λ e.
        if truthy e
        then ok "invalid"
        else (missing >>= λ m. iterate m >>= λ gaps. any_blocking gaps >>= λ b.
            let word : String = if b then "clarify" else "translate" in ok word))
      ≡ ok "translate"
    → (e : Value) × (m : Value) × (gaps : List Value) × (errors ≡ ok e)
      × (truthy e ≡ false)
      × (missing ≡ ok m)
      × (iterate m ≡ ok gaps)
      × (any_blocking gaps ≡ ok false)
translated (raise x) missing h = cc
translated (ok e) (raise x) h = absurd (ground (arith, eq_iff "invalid" "translate"))
translated (ok e) (ok m) h = elim (Result-cases (iterate m)) [
  | inr (x, fails) ↦ absurd (ground (arith, eq_iff "invalid" "translate"))
  | inl (gaps, listed) ↦
      let facts : (truthy e ≡ false) × (any_blocking gaps ≡ ok false) = ground (
        arith,
        Result-cases (any_blocking gaps),
        eq_iff "invalid" "translate",
        eq_iff "clarify" "translate",
      ) in
      (e, m, gaps, refl, facts.0, refl, listed, facts.1)
]

-- `route_after_network_validation` answers "translate" only in a translatable state.
pub translate-IsTranslatable :
    (s : State) → route_after_network_validation s ≡ ok "translate" → IsTranslatable s
unfolding route_after_network_validation
translate-IsTranslatable s h =
    let (e, m, gaps, reported, clean, stored, listed, none_blocks) =
      translated (reported_errors s "network_validation") (stored_gaps s) h in
    record {
      errors = e;
      reported = reported;
      clean = clean;
      missing = m;
      stored = stored;
      gaps = gaps;
      listed = listed;
      filled = (any_blocking_iff gaps).0 none_blocks;
    }

-- And it does in every such state.
pub IsTranslatable-translate :
    (s : State) → IsTranslatable s → route_after_network_validation s ≡ ok "translate"
unfolding route_after_network_validation
IsTranslatable-translate s t =
    rw t.reported
      (rw t.clean (rw t.stored (rw t.listed (rw ((any_blocking_iff t.gaps).1 t.filled) refl))))
