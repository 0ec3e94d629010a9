-- ===== src/Architecture/History.antt =====
-- The revisions of an architecture (`ArchitectureRevision` of src/domain/architecture/models.py):
-- immutable records, each made from the one before it. Left out are the kind and the reason of a
-- change, who made it and when.
use topo_forge_ai.Architecture.{NetworkArchitecture}
use topo_forge_ai.Prelude.{
  ◌>>◌, some, none, [], ok, suc, ◌∷◌, String, Result, List, ℕ, ◌≡◌, ◌+◌, Option, length, ◌≤◌,
  if◌then◌else◌, nonempty, refl, require, same_refl, arith, ap, sym, leb, ◌∙◌, String-Eq, subst,
  ◌==◌, not, ◌&&◌, is_some, ltb, ℕ-Eq,
}

pub record ArchitectureRevision : Type 0 where
  pub architecture_id : String
  pub revision : ℕ
  pub architecture : NetworkArchitecture
  pub parent_revision : Option ℕ
  pub changed_paths : List String

pub data RevisionError : Type 0 where
  revision_below_one revision_mismatch architecture_mismatch first_has_parent parent_missing :
      RevisionError

-- The field's bound and then the model validator, which construction runs.
unfoldable pub consistent : ArchitectureRevision → Result RevisionError ArchitectureRevision
consistent r = do
  require (leb 1 r.revision) revision_below_one
  require (r.architecture.metadata.revision == r.revision) revision_mismatch
  require (r.architecture.metadata.architecture_id == r.architecture_id) architecture_mismatch
  require (not (r.revision == 1 && is_some r.parent_revision)) first_has_parent
  require (not (ltb 1 r.revision && not (is_some r.parent_revision))) parent_missing
  ok r

-- What `initial` and `succeed` construct.
abbrev pub initial_record : NetworkArchitecture → ArchitectureRevision
initial_record d = record {
  architecture_id = d.metadata.architecture_id;
  revision = 1;
  architecture = record d { metadata = record d.metadata { revision = 1 } };
  parent_revision = none;
  changed_paths = [];
}

abbrev pub succeeding_record :
    ArchitectureRevision → NetworkArchitecture → List String → ArchitectureRevision
succeeding_record r d changed_paths =
    let advanced = record d {
      metadata = record d.metadata {
        architecture_id = r.architecture_id;
        revision = r.revision + 1;
      };
    } in
    record {
      architecture_id = r.architecture_id;
      revision = r.revision + 1;
      architecture = advanced;
      parent_revision = some r.revision;
      changed_paths = changed_paths;
    }

unfoldable pub initial : NetworkArchitecture → Result RevisionError ArchitectureRevision
unfolding consistent
initial d = consistent (initial_record d)

unfoldable pub succeed :
    ArchitectureRevision
    → NetworkArchitecture
    → List String
    → Result RevisionError ArchitectureRevision
unfolding consistent
succeed r d changed_paths = consistent (succeeding_record r d changed_paths)

-- The revisions that the program can make, each with those before it, the newest first.
pub data History : List ArchitectureRevision → Type 0 where
  first : (d : NetworkArchitecture) (r : ArchitectureRevision) → initial d ≡ ok r → History (r ∷ [])
  later :
      (d : NetworkArchitecture) (changed : List String) (r r' : ArchitectureRevision)
      (before : List ArchitectureRevision)
      → History (r ∷ before)
      → succeed r d changed ≡ ok r'
      → History (r' ∷ r ∷ before)

-- Revision numbers count down to 1, each record names the one before it as its parent, the first
-- names none, and all hold an architecture of the same id and of their own number.
abbrev pub IsChain : String → List ArchitectureRevision → Type 0
IsChain id [] = Unit
IsChain id (r ∷ before) =
    (r.revision ≡ suc (length before))
    × (r.parent_revision ≡ (if nonempty before then some (length before) else none))
    × (r.architecture_id ≡ id)
    × (r.architecture.metadata.architecture_id ≡ id)
    × (r.architecture.metadata.revision ≡ r.revision)
    × IsChain id before

initial-initial_record : (d : NetworkArchitecture) → initial d ≡ ok (initial_record d)
unfolding initial
initial-initial_record d = rw (same_refl d.metadata.architecture_id) refl

succeed-succeeding_record :
    (r : ArchitectureRevision) (d : NetworkArchitecture) (changed : List String)
    → 1 ≤ r.revision
    → succeed r d changed ≡ ok (succeeding_record r d changed)
unfolding succeed
succeed-succeeding_record r d changed h = ground (arith, same_refl r.architecture_id)

ok-injective : (r s : ArchitectureRevision) → ◌≡◌ {A = Result RevisionError _} (ok r) (ok s) → r ≡ s
ok-injective r s h = cc

IsChain-later :
    (id : String) (r : ArchitectureRevision) (d : NetworkArchitecture) (changed : List String)
    (before : List ArchitectureRevision)
    → IsChain id (r ∷ before)
    → IsChain id (succeeding_record r d changed ∷ r ∷ before)
IsChain-later id r d changed before h = (omega (arith, h.0), ap some h.0, h.2, h.2, refl, h)

-- The records of every history are numbered without a gap from 1, refer to each other in order, and
-- are all of one architecture.
pub History-IsChain : {rs : List ArchitectureRevision} → History rs → (id : String) × IsChain id rs
History-IsChain (first d r h) =
    let made = ok-injective (initial_record d) r (sym (initial-initial_record d) ∙ h) in
    (
      d.metadata.architecture_id,
      subst (λ x. IsChain d.metadata.architecture_id (x ∷ [])) made
          (refl, refl, refl, refl, refl, tt),
    )
History-IsChain (later d changed r r' before past h) =
    let (id, chain) = History-IsChain past in
    let made =
      ok-injective (succeeding_record r d changed) r'
        (sym (succeed-succeeding_record r d changed (omega (arith, chain.0))) ∙ h) in
    (id, subst (λ x. IsChain id (x ∷ r ∷ before)) made (IsChain-later id r d changed before chain))

-- A history can always be begun, and continued with any architecture.
pub History-continues :
    {r : ArchitectureRevision} {before : List ArchitectureRevision}
    → History (r ∷ before)
    → (d : NetworkArchitecture) (changed : List String)
    → (initial d ≡ ok (initial_record d))
      × (succeed r d changed ≡ ok (succeeding_record r d changed))
History-continues {r} {before} past d changed =
    let (id, chain) = History-IsChain past in
    (initial-initial_record d, succeed-succeeding_record r d changed (omega (arith, chain.0)))
