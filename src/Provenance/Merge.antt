-- ===== src/Provenance/Merge.antt =====
-- Merging claims (`merge_evidence` of src/domain/common/provenance.py) loses no evidence and lets
-- the strongest claim win.
use mathlib.Core.List.Permᴰ
use topo_forge_ai.Provenance.{
  Sourced, merge_evidence, Evidence, below, priority, user, full_confidence,
}
use topo_forge_ai.Prelude.{
  some, inl, inr, ◌∷◌, List, ◌++◌, Bool-cases, true, false, ◌≡◌, ◌⊎◌, arith, ◌≤◌,
}
use mathlib.Core.List.{Perm, List}
use mathlib.Core.List.Perm

module _ {A : Type 0} where
  -- All the evidence that a claim carries.
  abbrev pub trail : Sourced A → List Evidence
  trail s = s.evidence ∷ s.superseded

  trail_once :
      (current candidate : Sourced A)
      → Perm (trail (merge_evidence (some current) candidate)) (trail current ++ trail candidate)
  unfolding merge_evidence
  trail_once current candidate =
      elim (Bool-cases (below (priority current.evidence) (priority candidate.evidence))) [
        | inl loses ↦ rw loses (∣ Permᴰ.append_comm (trail candidate) (trail current) ∣₁)
        | inr keeps ↦ rw keeps (Perm.refl (trail current ++ trail candidate))
      ]

  -- The winner carries the higher priority, the incumbent wins a tie, and the value comes with the
  -- winner's evidence.
  pub merge_evidence-wins :
      (current candidate : Sourced A)
      → let merged = merge_evidence (some current) candidate in
        (below (priority merged.evidence) (priority current.evidence) ≡ false)
        × (below (priority merged.evidence) (priority candidate.evidence) ≡ false)
        × ((merged.value ≡ current.value) × (merged.evidence ≡ current.evidence)
            ⊎ (merged.value ≡ candidate.value)
              × (merged.evidence ≡ candidate.evidence)
              × (below (priority current.evidence) (priority candidate.evidence) ≡ true))
  unfolding merge_evidence
  merge_evidence-wins current candidate = ground arith

  -- Which of three claims wins does not depend on how the merges are nested.
  pub merge_evidence_assoc :
      (a b c : Sourced A)
      → let left = merge_evidence (some (merge_evidence (some a) b)) c in
        let right = merge_evidence (some a) (merge_evidence (some b) c) in
        (left.value ≡ right.value) × (left.evidence ≡ right.evidence)
  unfolding merge_evidence
  merge_evidence_assoc a b c = ground arith

  -- A claim that is merged in again changes neither the value nor its evidence.
  pub merge_evidence_replay :
      (current candidate : Sourced A)
      → let once = merge_evidence (some current) candidate in
        let again = merge_evidence (some once) candidate in
        (again.value ≡ once.value) × (again.evidence ≡ once.evidence)
  unfolding merge_evidence
  merge_evidence_replay current candidate = ground arith

  -- The evidence of a merge is that of its two claims, none lost and none added. A claim that is merged
  -- in again changes neither the value nor its evidence, but its own evidence is there once more.
  pub trail-merge_evidence :
      (current candidate : Sourced A)
      → let once = merge_evidence (some current) candidate in
        let again = merge_evidence (some once) candidate in
        Perm (trail once) (trail current ++ trail candidate)
        × ((again.value ≡ once.value) × (again.evidence ≡ once.evidence))
        × Perm (trail again) ((trail current ++ trail candidate) ++ trail candidate)
  trail-merge_evidence current candidate =
      let first = trail_once current candidate in
      (
        first,
        merge_evidence_replay current candidate,
        Perm.trans (trail_once (merge_evidence (some current) candidate) candidate)
            (Perm.append_right (trail candidate) first),
      )

  -- What the user said with full confidence is kept, whatever claim of at most full confidence
  -- comes.
  pub user_prevails :
      (current candidate : Sourced A)
      → current.evidence.source ≡ user
      → current.evidence.confidence ≡ full_confidence
      → candidate.evidence.confidence ≤ full_confidence
      → (merge_evidence (some current) candidate).value ≡ current.value
  unfolding merge_evidence
  user_prevails current candidate u f h = ground arith
