-- ===== src/Core/Work.antt =====
-- delta/core.py: steps, workflows, artifacts and work results.
pub mod Accepted
use delta_agent.Common.{
  ℕ, String, Bool, true, false, ◌&&◌, Option, none, some, List, ℤ, is_negative, ltb, str_eq,
}
use delta_agent.Common.Result.{Result, ok, delta_validation, ◌>>=◌, ◌>>◌, require, refuse}
use delta_agent.Common.Dict.{Dict}
use delta_agent.Core.Value.{Value, Entries, end, entry, name, other, DateTime}
use delta_agent.Core.Platform.{Platform, normalize, output_signature}
use delta_agent.Core.Schema.{
  Scope, scope_eq, InputSpec, FreshnessPolicy, CostEstimate, WorkDeclaration, WorkProvenance,
  identifier,
}

-- What a call of an executor does: it returns a value, or raises an exception of the named class.
pub data Outcome : Type 0 where
  returned : Value → Outcome
  raised : String → Outcome

-- The answers of an executor may change from call to call: the number counts the calls.
abbrev pub Executor : Type 0
Executor = ℕ → Value → Outcome

pub record Step : Type 0 where
  pub id : String
  pub implementation_id : String
  pub bind : Entries
  pub freshness : FreshnessPolicy
  pub estimated_cost : Option CostEstimate
  pub executor : Option Executor
  pub declaration : Option WorkDeclaration

-- `all(isinstance(key, str) for key in bind)`
abbrev pub named_keys : Entries → Bool
named_keys end = true
named_keys (entry (name k) v es) = named_keys es
named_keys (entry other v es) = false

unfoldable pub check_step : Step → Result Step
check_step s = do
  identifier s.id "step id"
  identifier s.implementation_id "implementation_id"
  require (named_keys s.bind) (delta_validation "step binding keys must be strings")
  ok s

pub record Workflow : Type 0 where
  pub id : String
  pub version : String
  pub inputs : Dict InputSpec
  pub steps : List Step

unfoldable pub check_workflow : Workflow → Result Workflow
check_workflow w = do identifier w.id "workflow id"; identifier w.version "workflow version"; ok w

pub record ArtifactReference : Type 0 where
  pub artifact_id : String
  pub content_hash : String
  pub media_type : String
  pub byte_size : ℤ
  pub uri : Option String
  pub available : Bool

unfoldable pub check_artifact : ArtifactReference → Result ArtifactReference
check_artifact a = do
  identifier a.artifact_id "artifact_id"
  identifier a.content_hash "content_hash"
  identifier a.media_type "media_type"
  refuse (is_negative a.byte_size) (delta_validation "byte_size must be a non-negative integer")
  ok a

pub record WorkResult : Type 0 where
  pub scope : Scope
  pub workflow_id : String
  pub step_id : String
  pub implementation_id : String
  pub input_signature : String
  pub output_signature : String
  pub output : Value
  pub completed_at : Option DateTime
  pub fresh_until : Option DateTime
  pub successful_attempt_id : Option String
  pub artifact : Option ArtifactReference
  pub status : String
  pub provenance : Option WorkProvenance

module _ (platform : Platform) where
  unfoldable pub check_work_result : WorkResult → Result WorkResult
  check_work_result r = do
    identifier r.workflow_id "workflow_id"
    identifier r.step_id "step_id"
    identifier r.implementation_id "implementation_id"
    identifier r.input_signature "input_signature"
    identifier r.output_signature "output_signature"
    require (str_eq r.status "completed")
        (delta_validation "WorkResult must represent completed work")
    output ← normalize platform r.output
    expected ← output_signature platform output
    require (str_eq r.output_signature expected)
        (delta_validation "output_signature does not match output")
    ok (record r { output = output })

abbrev pub before_expiry : Option DateTime → DateTime → Bool
before_expiry none now = true
before_expiry (some until) now = ltb now until

-- The caller has put the clock's time for a `now` that is None.
unfoldable pub is_fresh : WorkResult → DateTime → Bool
is_fresh r now = before_expiry r.fresh_until now

abbrev pub artifact_usable : Option ArtifactReference → Bool
artifact_usable none = true
artifact_usable (some a) = a.available

unfoldable pub matches : WorkResult → Scope → Workflow → Step → String → DateTime → Bool
matches r scope workflow step expected_input_signature now =
    scope_eq r.scope scope
    && str_eq r.workflow_id workflow.id
    && str_eq r.step_id step.id
    && str_eq r.implementation_id step.implementation_id
    && str_eq r.input_signature expected_input_signature
    && is_fresh r now
    && artifact_usable r.artifact
