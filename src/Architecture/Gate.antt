-- ===== src/Architecture/Gate.antt =====
-- The gate before the translation (`can_proceed_to_rag` of src/domain/architecture/models.py) and
-- what the rest of the document says about it: its status and its blocking reasons.
use topo_forge_ai.Issues.Report.{IsSorted}
use topo_forge_ai.Issues.{ValidationReport, blocks_rag, blocks_progress}
use topo_forge_ai.Architecture.{
  can_proceed_to_rag, with_validation, blocking_reasons, NetworkArchitecture, ArchitectureStatus,
  invalid, validated, needs_input,
}
use topo_forge_ai.Prelude.{
  true, nonempty, filter, map, ◌≡◌, any, not, ◌↔◌, if◌then◌else◌, arith, String, nonempty-append,
  nonempty-map, nonempty-filter,
}

-- A document passes the gate exactly when nothing is named that blocks it.
can_proceed_to_rag-blocking_reasons :
    (d : NetworkArchitecture) → can_proceed_to_rag d ≡ not (nonempty (blocking_reasons d))
unfolding can_proceed_to_rag blocking_reasons blocks_rag
can_proceed_to_rag-blocking_reasons d = ground (
  arith,
  nonempty-append {A = String × String} (map (λ i. (i.code, i.message)) d.validation.errors)
      (map (λ m. (m.code, m.summary)) (filter blocks_progress d.missing_information)),
  nonempty-map {B = String × String} (λ i. (i.code, i.message)) d.validation.errors,
  nonempty-map {B = String × String} (λ m. (m.code, m.summary))
      (filter blocks_progress d.missing_information),
  nonempty-filter blocks_progress d.missing_information,
)

-- What the status should be, by the findings and the gaps alone.
abbrev pub expected_status : ValidationReport → NetworkArchitecture → ArchitectureStatus
expected_status report d =
    if nonempty report.errors
    then invalid
    else if any blocks_progress d.missing_information
    then needs_input
    else validated

-- After a sorted report is put into a document, the status is "invalid" if there are errors,
-- "needs_input" if there are none but a gap blocks, and "validated" otherwise, which is exactly when
-- the document passes the gate; nothing but report and status has changed.
pub with_validation_lem :
    (report : ValidationReport) (d : NetworkArchitecture)
    → IsSorted report
    → ((with_validation report d).status ≡ expected_status report d)
      × ((can_proceed_to_rag (with_validation report d) ≡ true)
          ↔ ((with_validation report d).status ≡ validated))
      × (with_validation report d
          ≡ record d { validation = report; status = expected_status report d })
unfolding with_validation can_proceed_to_rag blocks_rag
with_validation_lem report d h =
    let status : (with_validation report d).status ≡ expected_status report d =
      ground (arith, h.flag) in
    (
      status,
      (λ k. ground (arith, h.flag), λ k. ground (arith, h.flag)),
      λ i. record d { validation = report; status = status i },
    )
