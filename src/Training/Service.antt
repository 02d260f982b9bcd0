-- ===== src/Training/Service.antt =====
-- lifecycle.go: the Service over a repository: Create with its idempotency key, CancelOperation,
-- Complete with the verification of the artifacts, and ReapExpired.
use fgvcplateform_public.Base.{
  ℕ, String, Bool, true, false, ◌||◌, Option, none, some, List, [], ◌∷◌, ltb, if◌then◌else◌, ℤ, pos,
  negsuc, is_empty, all,
}
use fgvcplateform_public.Base.Assoc.{insert}
use fgvcplateform_public.Base.Value.{ValueMap, str, holds_text}
use fgvcplateform_public.Artifact.{Descriptor}
use fgvcplateform_public.Training.Types.{
  Status, queued, validation_failed, artifact_integrity_failed, idempotency_conflict, not_found,
  Error, domain_error, plain_error, Result, ok, err, CompleteResult, Aggregate, Env, no_result,
  ready_event,
}
use fgvcplateform_public.Training.Control.{to_cancelled, transition_keyed}
use fgvcplateform_public.Training.Completion.{CompleteCommand, UrlParser, complete}
use fgvcplateform_public.Training.Failure.{reap}
use fgvcplateform_public.Training.Repository.{Repository, create, get, update, expired}

pub record CreateCommand : Type 0 where
  pub operation_key : String
  pub dataset_id : String
  pub dataset_version_id : String
  pub backbone_id : String
  pub payload : ValueMap
  pub max_attempts : ℤ

pub record CreatedJob : Type 0 where
  pub job_id : String
  pub training_run_id : String
  pub status : Status

-- stableUUID of the SHA-256 of the two prefixed keys, and the hex digest of the command's JSON,
-- which json.Marshal may refuse.
pub record Digests : Type 0 where
  pub job_id : String → String
  pub run_id : String → String
  pub command : CreateCommand → Option String

-- The ids that newID draws for Create.
pub record NewIds : Type 0 where
  pub job : String
  pub run : String
  pub message : String

-- if command.MaxAttempts <= 0 { command.MaxAttempts = 3 }
abbrev pub attempts_or_default : ℤ → ℕ
attempts_or_default (pos n) = if ltb 0 n then n else 3
attempts_or_default (negsuc n) = 3

abbrev pub with_default : CreateCommand → CreateCommand
with_default cmd = record cmd { max_attempts = pos (attempts_or_default cmd.max_attempts) }

unfoldable pub new_aggregate : ℕ → String → String → String → CreateCommand → ValueMap → Aggregate
unfolding ready_event
new_aggregate now job_id run_id message_id cmd payload = record {
  job = record {
    id = job_id;
    status = queued;
    payload = payload;
    max_attempts = attempts_or_default cmd.max_attempts;
    attempt_count = 0;
    dispatch_generation = 1;
    execution_epoch = 0;
    active_attempt_id = "";
    available_at = now;
    last_heartbeat_at = 0;
    created_at = now;
    updated_at = now;
    result = no_result;
    error_code = "";
    error_message = "";
  };
  run = record {
    id = run_id;
    job_id = job_id;
    dataset_id = cmd.dataset_id;
    dataset_version_id = cmd.dataset_version_id;
    backbone_id = cmd.backbone_id;
    status = queued;
    progress = [];
    created_at = now;
    updated_at = now;
  };
  attempts = [];
  events =
      record {
        event_type = "created";
        message = "training job created";
        payload = [];
        created_at = now;
      }
      ∷ [];
  outbox = ready_event message_id job_id 1 now ∷ [];
  artifacts = [];
  metrics = [];
}

abbrev pub created : Aggregate → CreatedJob
created g = record { job_id = g.job.id; training_run_id = g.run.id; status = g.job.status }

unfoldable pub idempotent_created : Aggregate → String → Result CreatedJob
idempotent_created g digest =
    if holds_text g.job.payload "agent_operation_digest" digest
    then ok (created g)
    else err (
        domain_error idempotency_conflict
          "operation key already used for different training parameters")

abbrev pub is_not_found : Error → Bool
is_not_found (domain_error not_found m) = true
is_not_found _ = false

-- Without an operation key: an error of the repository is returned.
abbrev pub store_plain : Aggregate → Result (Unit {0}) × Repository → Result CreatedJob × Repository
store_plain g (ok u, repo) = (ok (created g), repo)
store_plain g (err e, repo) = (err e, repo)

-- With one: it may be that another call created the job in between.
abbrev pub recover : Error → String → Result Aggregate → Result CreatedJob
recover e digest (ok existing) = idempotent_created existing digest
recover e digest (err e') = err e

abbrev pub store_keyed :
    Aggregate → String → Result (Unit {0}) × Repository → Result CreatedJob × Repository
store_keyed g digest (ok u, repo) = (ok (created g), repo)
store_keyed g digest (err e, repo) = (recover e digest (get repo g.job.id), repo)

abbrev pub create_unless :
    Aggregate → String → Repository → Result Aggregate → Result CreatedJob × Repository
create_unless g digest repo (ok existing) = (idempotent_created existing digest, repo)
create_unless g digest repo (err e) =
    if is_not_found e then store_keyed g digest (create g repo) else (err e, repo)

abbrev pub keyed_payload : CreateCommand → String → ValueMap
keyed_payload cmd digest =
    insert "agent_operation_key" (str cmd.operation_key)
      (insert "agent_operation_digest" (str digest) cmd.payload)

unfoldable pub create_keyed :
    Digests
    → Env
    → NewIds
    → CreateCommand
    → Repository
    → Option String
    → Result CreatedJob × Repository
create_keyed h env ids cmd repo none = (err (plain_error "json: unsupported value"), repo)
create_keyed h env ids cmd repo (some digest) =
    let job_id = h.job_id cmd.operation_key in
    let g =
      new_aggregate env.now job_id (h.run_id cmd.operation_key) ids.message cmd
        (keyed_payload cmd digest) in
    create_unless g digest repo (get repo job_id)

unfoldable pub create_job :
    Digests → Env → NewIds → CreateCommand → Repository → Result CreatedJob × Repository
create_job h env ids cmd repo =
    if is_empty cmd.dataset_id || is_empty cmd.dataset_version_id || is_empty cmd.backbone_id
    then (
      err (domain_error validation_failed "dataset, dataset version, and backbone are required"),
      repo,
    )
    else if is_empty cmd.operation_key
    then store_plain (new_aggregate env.now ids.job ids.run ids.message cmd cmd.payload)
        (create (new_aggregate env.now ids.job ids.run ids.message cmd cmd.payload) repo)
    else create_keyed h env ids cmd repo (h.command (with_default cmd))

unfoldable pub cancel_operation :
    Env → String → String → Repository → Result (Unit {0}) × Repository
cancel_operation env id key repo =
    if is_empty key
    then (err (domain_error validation_failed "operation key required"), repo)
    else update id (transition_keyed env to_cancelled key) repo

-- `verify` is the optional verifier; its error is replaced by a domain error.
unfoldable pub verified : Option (Descriptor → Bool) → List Descriptor → Bool
verified none ds = true
verified (some verify) ds = all verify ds

unfoldable pub complete_job :
    Option (Descriptor → Bool)
    → UrlParser
    → Env
    → CompleteCommand
    → Repository
    → Result CompleteResult × Repository
unfolding verified
complete_job verify url_parse env cmd repo =
    if verified verify cmd.artifacts then update cmd.job_id (complete url_parse env cmd) repo else (
      err (domain_error artifact_integrity_failed "artifact integrity verification failed"),
      repo,
    )

-- What ReapExpired returns: the ids reaped so far beside an error.
abbrev pub Reaped : Type 0
Reaped = (Result (Unit {0}) × List String) × Repository

-- `if err != nil { return reaped, err }; reaped = append(reaped, id)`, and the rest of the loop.
abbrev pub reap_next : String → Result (Unit {0}) × Repository → (Repository → Reaped) → Reaped
reap_next id (err e, repo) rest = ((err e, []), repo)
reap_next id (ok u, repo) rest = let r = rest repo in ((r.0.0, id ∷ r.0.1), r.1)

-- The loop of ReapExpired; `new_id` gives the id that newID draws for each job.
unfoldable pub reap_loop : ℕ → (String → String) → List String → Repository → Reaped
reap_loop now new_id [] repo = ((ok tt, []), repo)
reap_loop now new_id (id ∷ ids) repo =
    reap_next id (update id (reap (record { now = now; lease_ttl = 0; new_id = new_id id })) repo)
      (λ repo'. reap_loop now new_id ids repo')

unfoldable pub reap_expired : ℕ → ℤ → (String → String) → Repository → Reaped
unfolding reap_loop
reap_expired now limit new_id repo = reap_loop now new_id (expired now limit repo) repo
