-- ===== src/Store/Recover.antt =====
-- delta/store.py: the JSON objects of work results and their parts, written and read back.
use delta_agent.Core.Work.{check_work_result, WorkResult, check_artifact, ArtifactReference}
use delta_agent.Core.Value.{str, dict, DateTime}
use delta_agent.Core.Schema.{
  identifier, ExternalExposure, ExternalJobSettlement, settled, reconciliation_required, unsettled,
  unknown, internal_only, shareable, check_provenance, WorkProvenance, ExternalJobRef, check_job,
}
use delta_agent.Common.Result.{ok}
use delta_agent.Core.Value
use delta_agent.Core.Platform.{Platform}
use delta_agent.Core.Attempt.{ExecutionAttempt, check_attempt}
use delta_agent.Store.Fields.{timestamp, parse_timestamp, get}
use delta_agent.Store.Payload.{
  exposure_value, settlement_value, work_payload, provenance_payload, artifact_payload,
  external_job_payload, attempt_payload,
}
use delta_agent.Store.Decode.{
  work_from_payload, exposure_of, provenance_fields, provenance_from_payload, artifact_fields,
  artifact_from_payload, settlement_of, job_fields, job_from_payload, attempt_from_payload,
}
use delta_agent.Common.{none, some, Option, arith, ◌≡◌, refl}

pub attempt_from_payload-attempt_payload :
    (platform : Platform) (a : ExecutionAttempt)
    → check_attempt a ≡ ok a
    → attempt_from_payload a.scope (attempt_payload platform a) ≡ ok a
unfolding attempt_from_payload attempt_payload get check_attempt
attempt_from_payload-attempt_payload platform a h = ground arith

-- The parts of a record that the constructors of their classes have accepted.
abbrev pub IsSoundJob : Option ExternalJobRef → Type 0
IsSoundJob none = Unit
IsSoundJob (some j) = check_job j ≡ ok j

abbrev pub IsSoundArtifact : Option ArtifactReference → Type 0
IsSoundArtifact none = Unit
IsSoundArtifact (some a) = check_artifact a ≡ ok a

abbrev pub IsSoundProvenance : Option WorkProvenance → Type 0
IsSoundProvenance none = Unit
IsSoundProvenance (some p) = (check_provenance p ≡ ok p) × IsSoundJob p.external_job

settlement-recovered : (s : ExternalJobSettlement) → settlement_of (str (settlement_value s)) ≡ ok s
unfolding settlement_of
settlement-recovered settled = refl
settlement-recovered reconciliation_required = refl
settlement-recovered unsettled = refl
settlement-recovered unknown = refl

exposure-recovered : (e : ExternalExposure) → exposure_of (some (str (exposure_value e))) ≡ ok e
unfolding exposure_of
exposure-recovered internal_only = refl
exposure-recovered shareable = refl

job-recovered :
    (o : Option ExternalJobRef)
    → IsSoundJob o
    → job_from_payload (Value.optional (λ j. dict (external_job_payload j)) o) ≡ ok o
unfolding job_from_payload job_fields external_job_payload get check_job
job-recovered none h = refl
job-recovered (some j) h = ground (arith, settlement-recovered j.settlement_state)

artifact-recovered :
    (o : Option ArtifactReference)
    → IsSoundArtifact o
    → artifact_from_payload (Value.optional (λ a. dict (artifact_payload a)) o) ≡ ok o
unfolding artifact_from_payload artifact_fields artifact_payload get check_artifact
artifact-recovered none h = refl
artifact-recovered (some a) h = ground arith

module _ (platform : Platform)
    (reads : (t : DateTime)
      → Platform.parse_datetime platform (Platform.datetime_text platform t) ≡ some t) where
  pub timestamp-recovered :
      (t : Option DateTime) → parse_timestamp platform (timestamp platform t) ≡ ok t
  unfolding parse_timestamp
  timestamp-recovered none = refl
  timestamp-recovered (some t) = rw (reads t) refl

  provenance-recovered :
      (o : Option WorkProvenance)
      → IsSoundProvenance o
      → provenance_from_payload platform
          (Value.optional (λ p. dict (provenance_payload platform p)) o)
        ≡ ok o
  unfolding provenance_from_payload provenance_fields provenance_payload get check_provenance
  provenance-recovered none h = refl
  provenance-recovered (some p) h = ground (
    arith,
    exposure-recovered p.external_exposure,
    job-recovered p.external_job h.1,
    timestamp-recovered p.recorded_at,
  )

  checked_names :
      (r : WorkResult)
      → check_work_result platform r ≡ ok r
      → (identifier r.workflow_id "workflow_id" ≡ ok tt)
        × (identifier r.step_id "step_id" ≡ ok tt)
        × (identifier r.implementation_id "implementation_id" ≡ ok tt)
        × (identifier r.input_signature "input_signature" ≡ ok tt)
        × (identifier r.output_signature "output_signature" ≡ ok tt)
  unfolding check_work_result
  checked_names r h = (ground arith, ground arith, ground arith, ground arith, ground arith)

  -- A checked result is read from its payload as it was.
  pub work_from_payload-work_payload :
      (r : WorkResult)
      → check_work_result platform r ≡ ok r
      → IsSoundArtifact r.artifact
      → IsSoundProvenance r.provenance
      → work_from_payload platform (parse_timestamp platform) r.scope (work_payload platform r)
        ≡ ok r
  unfolding work_from_payload work_payload get
  work_from_payload-work_payload r h a p =
      let names = checked_names r h in
      ground (
        arith,
        names,
        timestamp-recovered r.completed_at,
        timestamp-recovered r.fresh_until,
        artifact-recovered r.artifact a,
        provenance-recovered r.provenance p,
      )
