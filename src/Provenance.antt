-- ===== src/Provenance.antt =====
-- src/domain/common/provenance.py: who produced a fact, and how two claims about one are merged. A
-- confidence, a float in [0, 1], is a number of equal steps here: only its order matters. The
-- fields `bbox` and `recorded_at` of `Evidence`, which no operation reads, are left out.
pub mod Merge
use topo_forge_ai.Prelude.{
  ℕ, ltb, String, Bool, true, false, ◌||◌, ◌&&◌, Option, none, some, List, ◌++◌, ◌==◌, ℕ-Eq, [],
  ◌∷◌, not, if◌then◌else◌,
}

pub data ProvenanceSource : Type 0 where
  user yolo ocr edge_detector llm rag derived default : ProvenanceSource

unfoldable pub source_priority : ProvenanceSource → ℕ
source_priority user = 100
source_priority derived = 70
source_priority ocr = 60
source_priority yolo = 60
source_priority edge_detector = 55
source_priority llm = 50
source_priority rag = 50
source_priority default = 10

-- The confidence 1.0, and the 0.5 of a default.
abbrev pub full_confidence : ℕ
full_confidence = 1000

abbrev pub half_confidence : ℕ
half_confidence = 500

pub record Evidence : Type 0 where
  pub source : ProvenanceSource
  pub confidence : ℕ
  pub detail : Option String
  pub producer : Option String
  pub observation_ids : List String
  pub asset_id : Option String

-- `Evidence.priority`, a pair that Python compares first by the one part, then by the other.
unfoldable pub priority : Evidence → ℕ × ℕ
unfolding source_priority
priority e = (source_priority e.source, e.confidence)

abbrev pub below : ℕ × ℕ → ℕ × ℕ → Bool
below p q = ltb p.0 q.0 || (p.0 == q.0 && ltb p.1 q.1)

abbrev evidence_of : ProvenanceSource → ℕ → Option String → Option String → Evidence
evidence_of source confidence detail producer = record {
  source = source;
  confidence = confidence;
  detail = detail;
  producer = producer;
  observation_ids = [];
  asset_id = none;
}

unfoldable pub from_user : Option String → Option String → Evidence
from_user detail producer = evidence_of user full_confidence detail producer

unfoldable pub derived_from : String → ℕ → Evidence
derived_from detail confidence = evidence_of derived confidence (some detail) none

unfoldable pub default_value : String → Evidence
default_value detail = evidence_of default half_confidence (some detail) none

-- A value with its evidence and all that it superseded.
pub record Sourced {ℓ} (A : Type ℓ) : Type ℓ where
  pub value : A
  pub evidence : Evidence
  pub superseded : List Evidence

module _ {ℓ} {A : Type ℓ} where
  unfoldable pub is_at_least : ℕ → Sourced A → Bool
  is_at_least threshold s = not (ltb s.evidence.confidence threshold)

  unfoldable pub merge_evidence : Option (Sourced A) → Sourced A → Sourced A
  unfolding priority
  merge_evidence none candidate = candidate
  merge_evidence (some current) candidate =
      if below (priority current.evidence) (priority candidate.evidence)
      then record candidate {
        superseded = candidate.superseded ++ current.evidence ∷ current.superseded;
      }
      else record current {
        superseded = current.superseded ++ candidate.evidence ∷ candidate.superseded;
      }
