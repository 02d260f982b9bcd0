-- ===== src/Training/Completion.antt =====
-- lifecycle.go: Complete, its idempotent replay, and the validation of the artifacts.
use fgvcplateform_public.Base.{
  ℕ, String, Bool, true, false, not, ◌&&◌, ◌||◌, Option, none, some, List, [], ◌∷◌, ◌++◌, str_eq,
  if◌then◌else◌, is_empty, is_negative, int_is,
}
use fgvcplateform_public.Base.Assoc.{lookup, insert}
use fgvcplateform_public.Base.Value.{ValueMap, str}
use fgvcplateform_public.Artifact.{Descriptor, is_sha256}
use fgvcplateform_public.Training.Types.{
  Status, AttemptStatus, attempt_succeeded, validation_failed, idempotency_conflict, Error,
  domain_error, Result, ok, err, CompleteResult, Attempt, AuditEvent, Closure, Env,
}
use fgvcplateform_public.Training.Claims.{current_attempt, as_owner}

pub record CompleteCommand : Type 0 where
  pub job_id : String
  pub attempt_id : String
  pub execution_epoch : ℕ
  pub completion_key : String
  pub result_digest : String
  pub artifacts : List Descriptor
  pub metrics : ValueMap

-- What url.Parse finds in a URI; `none` is its error.
pub record Url : Type 0 where
  pub scheme : String
  pub path : String

abbrev pub UrlParser : Type 0
UrlParser = String → Option Url

unfoldable pub canonical_uri : Option Url → Bool
canonical_uri none = false
canonical_uri (some u) = (str_eq u.scheme "s3" || str_eq u.scheme "file") && not (is_empty u.path)

abbrev pub invalid : String → Result (Unit {0})
invalid message = err (domain_error validation_failed message)

unfoldable pub validate_descriptor :
    UrlParser → Descriptor → String → String → String → Result (Unit {0})
unfolding canonical_uri
validate_descriptor url_parse d dataset_version_id run_id attempt_id =
    if not (canonical_uri (url_parse d.uri))
    then invalid "artifact URI must be canonical s3:// or file://"
    else if not (is_sha256 d.sha256) || is_negative d.size_bytes
    then invalid "artifact SHA-256 or size is invalid"
    else if is_empty d.artifact_id
        || is_empty d.artifact_type
        || is_empty d.content_type
        || is_empty d.producer
        || not (int_is d.schema_version 1)
    then invalid "artifact identity, type, content type, producer, and schema version are required"
    else if not (str_eq d.dataset_version_id dataset_version_id)
    then invalid "artifact Dataset Version lineage does not match"
    else if not (str_eq d.training_run_id run_id)
    then invalid "artifact training run lineage does not match"
    else if not (str_eq d.attempt_id attempt_id)
    then invalid "artifact attempt lineage does not match"
    else ok tt

-- The loop over the artifacts, which stops at the first error.
unfoldable pub validate_artifacts :
    UrlParser → List Descriptor → String → String → String → Result (Unit {0})
validate_artifacts url_parse [] version run_id attempt_id = ok tt
validate_artifacts url_parse (d ∷ ds) version run_id attempt_id =
    let rest = validate_artifacts url_parse ds version run_id attempt_id in
    elim (validate_descriptor url_parse d version run_id attempt_id) [ ok _ ↦ rest | err e ↦ err e ]

-- What Complete finds under the attempt's id, before it checks the owner.
pub data Replay : Type 0 where
  first_time conflict : Replay
  replayed : CompleteResult → Replay

unfoldable pub replay_of : CompleteCommand → Option Attempt → Replay
replay_of cmd none = first_time
replay_of cmd (some previous) =
    if str_eq previous.completion_key cmd.completion_key && not (is_empty cmd.completion_key)
    then if not (str_eq previous.result_digest cmd.result_digest)
      then conflict
      else if attempt_succeeded previous.status
      then replayed previous.result
      else first_time
    else first_time

abbrev pub conflict_error : Error
conflict_error =
    domain_error idempotency_conflict
      "completion key was already used with a different result digest"

unfoldable pub record_success : Env → CompleteCommand → Attempt → Closure CompleteResult
record_success env cmd a g =
    let result : CompleteResult = record {
      job_id = g.job.id;
      training_run_id = g.run.id;
      model_version_id = env.new_id;
      metrics = cmd.metrics;
    } in
    let done = record a {
      status = AttemptStatus.succeeded;
      finished_at = env.now;
      completion_key = cmd.completion_key;
      result_digest = cmd.result_digest;
      result = result;
    } in
    let event : AuditEvent = record {
      event_type = "completed";
      message = "training job completed";
      payload = ("attempt_id", str a.id) ∷ ("model_version_id", str env.new_id) ∷ [];
      created_at = env.now;
    } in
    (
      ok result,
      record g {
        attempts = insert cmd.attempt_id done g.attempts;
        artifacts = cmd.artifacts;
        job = record g.job { status = Status.succeeded; result = result; updated_at = env.now };
        run = record g.run { status = Status.succeeded; updated_at = env.now };
        events = g.events ++ event ∷ [];
      },
    )

abbrev no_artifacts : List Descriptor → Bool
no_artifacts [] = true
no_artifacts (d ∷ ds) = false

-- Complete, once the attempt is known to be owned.
unfoldable pub complete_owned : UrlParser → Env → CompleteCommand → Attempt → Closure CompleteResult
complete_owned url_parse env cmd a g =
    if is_empty cmd.completion_key || is_empty cmd.result_digest || no_artifacts cmd.artifacts
    then (
      err (
          domain_error validation_failed
            "completion key, result digest, and artifacts are required"),
      g,
    )
    else elim (validate_artifacts url_parse cmd.artifacts g.run.dataset_version_id g.run.id a.id) [
      | ok _ ↦ record_success env cmd a g
      | err e ↦ (err e, g)
    ]

unfoldable pub complete_replay : UrlParser → Env → CompleteCommand → Replay → Closure CompleteResult
unfolding complete_owned as_owner
complete_replay url_parse env cmd conflict g = (err conflict_error, g)
complete_replay url_parse env cmd (replayed r) g = (ok r, g)
complete_replay url_parse env cmd first_time g =
    as_owner (current_attempt g cmd.attempt_id cmd.execution_epoch)
      (complete_owned url_parse env cmd) g

-- The closure of Complete; the verification of the artifacts comes before it.
unfoldable pub complete : UrlParser → Env → CompleteCommand → Closure CompleteResult
unfolding complete_replay replay_of
complete url_parse env cmd g =
    complete_replay url_parse env cmd (replay_of cmd (lookup cmd.attempt_id g.attempts)) g
