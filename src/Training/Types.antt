-- ===== src/Training/Types.antt =====
-- The data of lifecycle.go. Times are nanoseconds since the zero time; counters that the code only
-- increments and compares for equality are 64-bit patterns; a float is its IEEE-754 pattern.
use fgvcplateform_public.Base.{ℕ, String, Bool, true, false, Option, none, some, List, ℤ}
use fgvcplateform_public.Base.Assoc.{Assoc}
use fgvcplateform_public.Base.Value.{ValueMap}
use fgvcplateform_public.Artifact.{Descriptor}

pub data Status : Type 0 where
  queued paused running succeeded failed cancelled : Status

pub data AttemptStatus : Type 0 where
  running succeeded failed fenced cancelled expired : AttemptStatus

abbrev pub is_queued : Status → Bool
is_queued queued = true
is_queued _ = false

abbrev pub is_paused : Status → Bool
is_paused paused = true
is_paused _ = false

abbrev pub is_running : Status → Bool
is_running running = true
is_running _ = false

abbrev pub is_cancelled : Status → Bool
is_cancelled cancelled = true
is_cancelled _ = false

abbrev pub terminal : Status → Bool
terminal succeeded = true
terminal failed = true
terminal cancelled = true
terminal _ = false

-- string(status)
abbrev pub status_name : Status → String
status_name queued = "queued"
status_name paused = "paused"
status_name running = "running"
status_name succeeded = "succeeded"
status_name failed = "failed"
status_name cancelled = "cancelled"

abbrev pub attempt_running : AttemptStatus → Bool
attempt_running running = true
attempt_running _ = false

abbrev pub attempt_succeeded : AttemptStatus → Bool
attempt_succeeded succeeded = true
attempt_succeeded _ = false

pub data Code : Type 0 where
  not_found invalid_state obsolete_dispatch fenced validation_failed : Code
  artifact_integrity_failed idempotency_conflict attempts_exhausted : Code
  temporarily_unavailable : Code

pub data Error : Type 0 where
  domain_error : Code → String → Error
  plain_error : String → Error

-- ErrorCode; `none` is the empty code
abbrev pub error_code : Error → Option Code
error_code (domain_error c m) = some c
error_code (plain_error m) = none

pub data Result {ℓ} (A : Type ℓ) : Type ℓ where
  ok : A → Result A
  err : Error → Result A

pub record CompleteResult : Type 0 where
  pub job_id : String
  pub training_run_id : String
  pub model_version_id : String
  pub metrics : ValueMap

pub record Job : Type 0 where
  pub id : String
  pub status : Status
  pub payload : ValueMap
  pub max_attempts : ℕ
  pub attempt_count : ℕ
  pub dispatch_generation : ℕ
  pub execution_epoch : ℕ
  pub active_attempt_id : String
  pub available_at : ℕ
  pub last_heartbeat_at : ℕ
  pub created_at : ℕ
  pub updated_at : ℕ
  pub result : CompleteResult
  pub error_code : String
  pub error_message : String

pub record Run : Type 0 where
  pub id : String
  pub job_id : String
  pub dataset_id : String
  pub dataset_version_id : String
  pub backbone_id : String
  pub status : Status
  pub progress : ValueMap
  pub created_at : ℕ
  pub updated_at : ℕ

pub record Attempt : Type 0 where
  pub id : String
  pub number : ℕ
  pub execution_epoch : ℕ
  pub worker_id : String
  pub status : AttemptStatus
  pub lease_expires_at : ℕ
  pub last_heartbeat_at : ℕ
  pub started_at : ℕ
  pub finished_at : ℕ
  pub completion_key : String
  pub result_digest : String
  pub result : CompleteResult
  pub error_code : String
  pub error_message : String

pub record AuditEvent : Type 0 where
  pub event_type : String
  pub message : String
  pub payload : ValueMap
  pub created_at : ℕ

pub record MetricPoint : Type 0 where
  pub id : ℤ
  pub training_run_id : String
  pub attempt_id : String
  pub execution_epoch : ℕ
  pub name : String
  pub step : ℤ
  pub value : ℕ
  pub recorded_at : ℕ
  pub context : ValueMap

pub record OutboxEvent : Type 0 where
  pub message_id : String
  pub event_type : String
  pub schema_version : ℕ
  pub job_id : String
  pub dispatch_generation : ℕ
  pub occurred_at : ℕ

pub record Aggregate : Type 0 where
  pub job : Job
  pub run : Run
  pub attempts : Assoc Attempt
  pub events : List AuditEvent
  pub outbox : List OutboxEvent
  pub artifacts : List Descriptor
  pub metrics : List MetricPoint

-- A function that `Repository.Update` calls: it edits a candidate and returns a value or an error,
-- and what it wrote before an error is still in the candidate.
abbrev pub Closure : Type 0 → Type 0
Closure A = Aggregate → Result A × Aggregate

-- What a call finds around it: the clock, the configured lease, the id that newID draws.
pub record Env : Type 0 where
  pub now : ℕ
  pub lease_ttl : ℕ
  pub new_id : String

abbrev pub second : ℕ
second = 1_000_000_000

unfoldable pub ready_event : String → String → ℕ → ℕ → OutboxEvent
ready_event message_id job_id generation at = record {
  message_id = message_id;
  event_type = "training.job.ready.v1";
  schema_version = 1;
  job_id = job_id;
  dispatch_generation = generation;
  occurred_at = at;
}

-- The zero CompleteResult, which an attempt has until it completes.
abbrev pub no_result : CompleteResult
no_result = record { job_id = ""; training_run_id = ""; model_version_id = ""; metrics = List.[] }
