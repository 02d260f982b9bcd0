-- ===== src/Training/StoredExamples.antt =====
-- Runs of the training lifecycle that complete, store and create jobs.
use fgvcplateform_public.Base.{
  ◌+◌, ◌*◌, ◌≡◌, ◌<◌, refl, some, List, [], ◌∷◌, arith, str_eq, if◌then◌else◌, inc64, is_hex,
  is_hex_digit, byte_len, utf8_width, pos,
}
use fgvcplateform_public.Base.Assoc.{lookup, insert}
use fgvcplateform_public.Artifact.{Descriptor, is_sha256}
use fgvcplateform_public.Training.Types.{
  Status, AttemptStatus, domain_error, ok, err, CompleteResult, no_result, Attempt, Aggregate, Env,
  second, idempotency_conflict,
}
use fgvcplateform_public.Training.Claims.{
  Claim, claimed, claim, take_lease, new_attempt, as_owner, current_attempt, check_owner, owns,
}
use fgvcplateform_public.Training.Control.{pause, resume}
use fgvcplateform_public.Training.Completion.{
  CompleteCommand, complete, complete_owned, replay_of, record_success, conflict_error,
  canonical_uri, validate_descriptor, validate_artifacts,
}
use fgvcplateform_public.Training.Repository.{Repository, create, create_found, get}
use fgvcplateform_public.Training.Service.{
  CreatedJob, Digests, NewIds, new_aggregate, create_job, create_keyed,
}
use fgvcplateform_public.Training.Steps.{Call, claims, pauses, cancels, stored, step, run_calls}
use fgvcplateform_public.Training.Invariant.{step-Inv}
use fgvcplateform_public.Training.Fencing.{FreshRun}
use fgvcplateform_public.Training.Replay.{complete-replay}
use fgvcplateform_public.Training.Recovery.{IsTakenOver, reap-claim}
use fgvcplateform_public.Training.Budget.{pause-resume_exhausted}
use fgvcplateform_public.Training.Storage.{call_on, on_found, lookup-call_on}
use fgvcplateform_public.Training.Creation.{IsKeyed, create_job-again, new_aggregate-Inv}
use fgvcplateform_public.Training.Examples.{
  at, file_urls, two_tries, fresh_job, first_claim, running_job,
}

abbrev after : Env
after = record { now = 100 * second; lease_ttl = 60 * second; new_id = "m2" }

abbrev leased : Attempt
leased = record {
  id = "a1";
  number = 1;
  execution_epoch = 1;
  worker_id = "w1";
  status = AttemptStatus.running;
  lease_expires_at = 60 * second + 10;
  last_heartbeat_at = 10;
  started_at = 10;
  finished_at = 0;
  completion_key = "";
  result_digest = "";
  result = no_result;
  error_code = "";
  error_message = "";
}

running_job-leased : lookup running_job.job.active_attempt_id running_job.attempts ≡ some leased
unfolding step new_aggregate claim take_lease new_attempt lookup insert
running_job-leased = refl

running_job-running : running_job.job.status ≡ Status.running
unfolding step new_aggregate claim take_lease
running_job-running = refl

running_job-left : running_job.job.attempt_count < running_job.job.max_attempts
unfolding step new_aggregate claim take_lease
running_job-left = omega arith

running_job-generation : 2 ≡ inc64 running_job.job.dispatch_generation
unfolding step new_aggregate claim take_lease
running_job-generation = refl

reap-claim_example :
    IsTakenOver after
      (record after { now = 101 * second })
      (record after { now = 102 * second })
      (record first_claim { dispatch_generation = 2 })
      running_job
reap-claim_example =
    reap-claim after (record after { now = 101 * second }) (record after { now = 102 * second })
      (record first_claim { dispatch_generation = 2 }) running_job leased running_job-leased
      running_job-running (omega arith) running_job-left running_job-generation (omega arith)

-- A job with one attempt, which is running.
abbrev last_try : Aggregate
last_try =
    step file_urls (new_aggregate 5 "j1" "r1" "m1" (record two_tries { max_attempts = pos 1 }) [])
      (at 10, claims first_claim)

last_try-running : last_try.job.status ≡ Status.running
unfolding step new_aggregate claim take_lease
last_try-running = refl

last_try-used : last_try.job.attempt_count ≡ last_try.job.max_attempts
unfolding step new_aggregate claim take_lease
last_try-used = refl

abbrev resumed : Aggregate
resumed =
    stored (stored last_try (pause (at 20) last_try))
      (resume (at 30) (stored last_try (pause (at 20) last_try)))

pause-resume_exhausted_example :
    (resumed.job.status ≡ Status.queued)
    × ¬ ((x : Claim) × ((claim (at 40) first_claim resumed).0 ≡ ok (claimed x)))
pause-resume_exhausted_example =
    pause-resume_exhausted (at 20) (at 30) (at 40) first_claim last_try last_try-running
      last_try-used

abbrev one_job : Repository
one_job = ("j1", running_job) ∷ []

lookup-call_on_example : lookup "j1" (call_on file_urls "j1" (at 20, pauses) one_job) ≡ (
    if str_eq "j1" "j1"
    then on_found (λ g. step file_urls g (at 20, pauses)) (lookup "j1" one_job)
    else lookup "j1" one_job)
lookup-call_on_example = lookup-call_on file_urls "j1" "j1" (at 20, pauses) one_job

-- The job id of a key is the key; every command has the same digest.
abbrev plain : Digests
plain = record { job_id = λ k. k; run_id = λ k. k; command = λ cmd. some cmd.backbone_id }

abbrev drawn : NewIds
drawn = record { job = "j2"; run = "r2"; message = "m2" }

two_tries-IsKeyed : IsKeyed plain two_tries "vit"
two_tries-IsKeyed = record {
  dataset = refl;
  version = refl;
  backbone = refl;
  key = refl;
  digest = refl;
}

other-IsKeyed : IsKeyed plain (record two_tries { backbone_id = "resnet" }) "resnet"
other-IsKeyed = record {
  dataset = refl;
  version = refl;
  backbone = refl;
  key = refl;
  digest = refl;
}

abbrev created_op : CreatedJob
created_op = record { job_id = "op"; training_run_id = "op"; status = Status.queued }

create-ok : (create_job plain (at 5) drawn two_tries []).0 ≡ ok created_op
unfolding create_job create_keyed get lookup create create_found new_aggregate
create-ok = refl

create_job-again_example :
    create_job plain
      (at 9)
      drawn
      (record two_tries { backbone_id = "resnet" })
      (create_job plain (at 5) drawn two_tries []).1
    ≡ (
      (if str_eq "vit" "resnet"
          then ok created_op
          else err (
              domain_error idempotency_conflict
                "operation key already used for different training parameters")),
      (create_job plain (at 5) drawn two_tries []).1,
    )
create_job-again_example =
    create_job-again plain (at 5) (at 9) drawn drawn two_tries
      (record two_tries { backbone_id = "resnet" }) "vit" "resnet" [] two_tries-IsKeyed
      other-IsKeyed refl create-ok

abbrev weights : Descriptor
weights = record {
  artifact_id = "w";
  artifact_type = "head_pt";
  uri = "file:///w";
  sha256 = "0123456789abcdef0123456789abcdef0123456789abcdef0123456789abcdef";
  size_bytes = pos 4;
  content_type = "application/octet-stream";
  storage_version = "";
  producer = "trainer";
  dataset_version_id = "v1";
  training_run_id = "r1";
  attempt_id = "a1";
  schema_version = pos 1;
  created_at = 0;
  verified_at = 0;
  metadata = [];
}

abbrev done_call : CompleteCommand
done_call = record {
  job_id = "j1";
  attempt_id = "a1";
  execution_epoch = 1;
  completion_key = "done";
  result_digest = "d";
  artifacts = weights ∷ [];
  metrics = [];
}

abbrev outcome : CompleteResult
outcome = record { job_id = "j1"; training_run_id = "r1"; model_version_id = "m2"; metrics = [] }

done_call-ok : (complete file_urls after done_call running_job).0 ≡ ok outcome
unfolding complete step new_aggregate claim take_lease new_attempt lookup insert complete_owned
    replay_of record_success validate_artifacts current_attempt owns check_owner as_owner
    canonical_uri validate_descriptor is_sha256 is_hex is_hex_digit byte_len utf8_width
done_call-ok = refl

abbrev done_job : Aggregate
done_job = stored running_job (complete file_urls after done_call running_job)

abbrev late_cancel : List (Env × Call)
late_cancel = (record { now = 101 * second; lease_ttl = 0; new_id = "m9" }, cancels) ∷ []

done_job-FreshRun : FreshRun file_urls done_job late_cancel
unfolding complete step new_aggregate claim take_lease new_attempt lookup insert complete_owned
    replay_of record_success validate_artifacts current_attempt owns check_owner as_owner
    canonical_uri validate_descriptor is_sha256 is_hex is_hex_digit byte_len utf8_width
done_job-FreshRun = (refl, tt)

complete-replay_example :
    complete file_urls (at 7) done_call (run_calls file_urls done_job late_cancel) ≡ (
      if str_eq "d" "d" then ok outcome else err conflict_error,
      run_calls file_urls done_job late_cancel,
    )
complete-replay_example =
    complete-replay file_urls after done_call running_job late_cancel (at 7) done_call
      (step-Inv file_urls fresh_job (at 10, claims first_claim)
        (new_aggregate-Inv 5 "j1" "r1" "m1" two_tries []))
      done_call-ok done_job-FreshRun refl refl
