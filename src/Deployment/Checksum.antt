-- ===== src/Deployment/Checksum.antt =====
-- What the checksum of a plan (`DeploymentPlan.checksum` of src/domain/deployment/models.py) tells
-- apart, and what an approval therefore binds.
use topo_forge_ai.Deployment.{
  ResourceChangeAction, PlannedChange, changes_text, action_value, create, update, replace, delete,
  no_op, read, DeploymentPlan, digest_text, authorises, fingerprint_text, ApprovalRecord,
  by_address, checksum, approved,
}
use topo_forge_ai.Prelude.{
  refl, [], true, ◌∷◌, List, ℕ, codes, String, All, Bool, ◌<◌, ◌≡◌, arith, map, ◌==◌, ◌++◌, ℕ-Eq,
  codes-injective, sorted, ◌*◌, ap, eq_iff, distinct, sym, ◌+◌, length, ◌∙◌, sorted_unique, str_le,
  lex_le_total, lex_le_trans, lex_le_antisymm, String-Eq, All-sorted,
}
use mathlib.Core.List.{Perm}
use mathlib.Core.Logic.{∥∥₁_elim}

-- What can follow a text of the digest: nothing, or a zero.
abbrev ends_text : List ℕ → Bool
ends_text [] = true
ends_text (c ∷ cs) = c == 0

abbrev HasNoZero : List ℕ → Type 0
HasNoZero = All (λ c. 0 < c)

split_text :
    (xs ys r s : List ℕ)
    → HasNoZero xs
    → HasNoZero ys
    → ends_text r ≡ true
    → ends_text s ≡ true
    → xs ++ r ≡ ys ++ s
    → (xs ≡ ys) × (r ≡ s)
split_text [] [] r s hx hy er es h = (refl, h)
split_text [] (y ∷ ys) [] s hx hy er es h = cc
split_text [] (y ∷ ys) (c ∷ r) s hx hy er es h = ground arith
split_text (x ∷ xs) [] r [] hx hy er es h = cc
split_text (x ∷ xs) [] r (c ∷ s) hx hy er es h = ground arith
split_text (x ∷ xs) (y ∷ ys) r s hx hy er es h =
    ground (arith, split_text xs ys r s hx.1 hy.1 er es)

action_no_zero : (a : ResourceChangeAction) → HasNoZero (codes (action_value a))
action_no_zero create = omega arith
action_no_zero update = omega arith
action_no_zero replace = omega arith
action_no_zero delete = omega arith
action_no_zero no_op = omega arith
action_no_zero read = omega arith

abbrev mark : List ℕ → ℕ
mark [] = 0
mark (c ∷ cs) = c * 100 + length cs

action_injective :
    (a b : ResourceChangeAction) → codes (action_value a) ≡ codes (action_value b) → a ≡ b
action_injective create create h = refl
action_injective create _ h = absurd (omega (arith, ap mark h))
action_injective update update h = refl
action_injective update _ h = absurd (omega (arith, ap mark h))
action_injective replace replace h = refl
action_injective replace _ h = absurd (omega (arith, ap mark h))
action_injective delete delete h = refl
action_injective delete _ h = absurd (omega (arith, ap mark h))
action_injective no_op no_op h = refl
action_injective no_op _ h = absurd (omega (arith, ap mark h))
action_injective read read h = refl
action_injective read _ h = absurd (omega (arith, ap mark h))

-- The parts of a change that the digest reads.
abbrev pub signature : PlannedChange → String × ResourceChangeAction
signature c = (c.address, c.action)

-- No address holds the code point 0, the separator of the digest.
abbrev pub PlainAddresses : List PlannedChange → Type 0
PlainAddresses = All (λ c. HasNoZero (codes c.address))

changes_text-ends : (cs : List PlannedChange) → ends_text (changes_text cs) ≡ true
changes_text-ends [] = refl
changes_text-ends (c ∷ cs) = refl

changes_text-injective :
    (cs ds : List PlannedChange)
    → PlainAddresses cs
    → PlainAddresses ds
    → changes_text cs ≡ changes_text ds
    → map signature cs ≡ map signature ds
changes_text-injective [] [] hc hd h = refl
changes_text-injective [] (d ∷ ds) hc hd h = cc
changes_text-injective (c ∷ cs) [] hc hd h = cc
changes_text-injective (c ∷ cs) (d ∷ ds) hc hd h =
    let (same_address, h₁) =
      split_text (codes c.address) (codes d.address)
        (0 ∷ (codes (action_value c.action) ++ changes_text cs))
        (0 ∷ (codes (action_value d.action) ++ changes_text ds)) hc.0 hd.0 refl refl (cc) in
    let (same_action, h₂) =
      split_text (codes (action_value c.action)) (codes (action_value d.action)) (changes_text cs)
        (changes_text ds) (action_no_zero c.action) (action_no_zero d.action) (changes_text-ends cs)
        (changes_text-ends ds) (cc) in
    let address = codes-injective c.address d.address same_address in
    let action = action_injective c.action d.action same_action in
    let rest = changes_text-injective cs ds hc.1 hd.1 h₂ in λ i. (address i, action i) ∷ rest i

-- The addresses of a plan in the order of the digest, each with its action.
abbrev pub effects : DeploymentPlan → List (String × ResourceChangeAction)
effects p = map signature (sorted by_address p.changes)

-- The fingerprint holds no zero, nor does an address.
pub record IsPlain (p : DeploymentPlan) : Type 0 where
  pub fingerprint : HasNoZero (fingerprint_text p.project_fingerprint)
  pub addresses : PlainAddresses p.changes

plain_sorted : (cs : List PlannedChange) → PlainAddresses cs → PlainAddresses (sorted by_address cs)
plain_sorted cs h = All-sorted by_address (λ c. HasNoZero (codes c.address)) cs h

pub digest_text-injective :
    (p q : DeploymentPlan)
    → IsPlain p
    → IsPlain q
    → digest_text p ≡ digest_text q
    → (fingerprint_text p.project_fingerprint ≡ fingerprint_text q.project_fingerprint)
      × (effects p ≡ effects q)
unfolding digest_text
digest_text-injective p q hp hq h =
    let (same_print, same_changes) =
      split_text (fingerprint_text p.project_fingerprint) (fingerprint_text q.project_fingerprint)
        (changes_text (sorted by_address p.changes)) (changes_text (sorted by_address q.changes))
        hp.fingerprint hq.fingerprint (changes_text-ends (sorted by_address p.changes))
        (changes_text-ends (sorted by_address q.changes)) h in
    (
      same_print,
      changes_text-injective (sorted by_address p.changes) (sorted by_address q.changes)
          (plain_sorted p.changes hp.addresses) (plain_sorted q.changes hq.addresses) same_changes,
    )

module _ (sha256 : List ℕ → String) where
  -- An approval that was given for a plan by its checksum, and that authorises a plan now, was given
  -- for a plan of the same id, the same fingerprint and the same actions at the same addresses, if
  -- the digest does not collide on the two and neither the fingerprints nor the addresses of the two
  -- plans hold the separator, the character of the code 0.
  pub authorises_seen :
      (a : ApprovalRecord) (seen now : DeploymentPlan)
      → (sha256 (digest_text seen) ≡ sha256 (digest_text now) → digest_text seen ≡ digest_text now)
      → IsPlain seen
      → IsPlain now
      → a.plan_id ≡ seen.id
      → a.plan_checksum ≡ checksum sha256 seen
      → authorises sha256 a now ≡ true
      → (a.decision ≡ approved)
        × (seen.id ≡ now.id)
        × (fingerprint_text seen.project_fingerprint ≡ fingerprint_text now.project_fingerprint)
        × (effects seen ≡ effects now)
  unfolding authorises
  authorises_seen a seen now no_collision hs hn same_id same_sum h =
      let facts : (a.decision ≡ approved)
          × (a.plan_id ≡ now.id)
          × (a.plan_checksum ≡ sha256 (digest_text now)) =
        ground
          (arith, eq_iff a.plan_id now.id, eq_iff a.plan_checksum (sha256 (digest_text now))) in
      let same = digest_text-injective seen now hs hn (no_collision (sym same_sum ∙ facts.2)) in
      (facts.0, sym same_id ∙ facts.1, same.0, same.1)

ℕ-list-set : IsSet (List ℕ)
ℕ-list-set = hlevel

-- A plan whose changes come in another order has the same checksum, if no address occurs twice.
pub checksum-reorder :
    (sha256 : List ℕ → String) (p : DeploymentPlan) (changes : List PlannedChange)
    → distinct (map (λ c. c.address) p.changes) ≡ true
    → Perm p.changes changes
    → checksum sha256 (record p { changes = changes }) ≡ checksum sha256 p
unfolding checksum
checksum-reorder sha256 p changes d r =
    let same : changes_text (sorted by_address changes)
        ≡ changes_text (sorted by_address p.changes) =
      ∥∥₁_elim r (ℕ-list-set _ _) (λ order. ap changes_text (
        sym (
          sorted_unique (λ c. c.address) str_le (λ s t. lex_le_total (codes s) (codes t))
            (λ s t u. lex_le_trans (codes s) (codes t) (codes u))
            (λ s t h k. codes-injective s t (lex_le_antisymm (codes s) (codes t) h k)) order d))) in
    ap (λ text. sha256 (fingerprint_text p.project_fingerprint ++ text)) same
