-- ===== src/Training/Examples.antt =====
-- A job with one worker: runs of the training lifecycle on which its theorems apply.
use fgvcplateform_public.Base.{ℕ, ◌+◌, ◌*◌, ◌≤◌, ◌≡◌, refl, ◌⊎◌, true, some, List, [], ◌∷◌, pos}
use fgvcplateform_public.Base.Assoc.{lookup, insert}
use fgvcplateform_public.Training.Types.{
  AttemptStatus, terminal, err, no_result, Attempt, Aggregate, Env, second, ready_event,
}
use fgvcplateform_public.Training.Claims.{
  ClaimCommand, claim, take_lease, new_attempt, HeartbeatCommand, heartbeat, fenced_error,
}
use fgvcplateform_public.Training.Metrics.{ProgressCommand, progress}
use fgvcplateform_public.Training.Control.{transition, move_to, stop_attempt, cancel}
use fgvcplateform_public.Training.Completion.{UrlParser}
use fgvcplateform_public.Training.Failure.{
  FailCommand, fail, retry_or_fail, requeue, reap, reap_attempt, lease_expired,
}
use fgvcplateform_public.Training.Service.{CreateCommand, new_aggregate}
use fgvcplateform_public.Training.Steps.{Call, claims, pauses, cancels, reaps, step, run_calls}
use fgvcplateform_public.Training.Ownership.{Inv}
use fgvcplateform_public.Training.Invariant.{step-Inv}
use fgvcplateform_public.Training.Fencing.{FreshRun, Ended, run_calls-Ended}
use fgvcplateform_public.Training.Replay.{stale_worker-fenced}
use fgvcplateform_public.Training.Graph.{Edge, step-Edge}
use fgvcplateform_public.Training.Terminal.{SameButEvents, run_calls-terminal}
use fgvcplateform_public.Training.Dispatch.{desk, OutboxInv, Dispatch, step-Dispatch}
use fgvcplateform_public.Training.Budget.{granted, granted-bounded}
use fgvcplateform_public.Training.Creation.{new_job-calls, new_aggregate-Inv}

abbrev pub at : ℕ → Env
at now = record { now = now; lease_ttl = 60 * second; new_id = "a1" }

-- Every text is read as a path of the file scheme.
abbrev pub file_urls : UrlParser
file_urls s = some (record { scheme = "file"; path = s })

abbrev pub two_tries : CreateCommand
two_tries = record {
  operation_key = "op";
  dataset_id = "birds";
  dataset_version_id = "v1";
  backbone_id = "vit";
  payload = [];
  max_attempts = pos 2;
}

abbrev pub fresh_job : Aggregate
fresh_job = new_aggregate 5 "j1" "r1" "m1" two_tries []

abbrev pub first_claim : ClaimCommand
first_claim = record { job_id = "j1"; dispatch_generation = 1; worker_id = "w1" }

abbrev beat : HeartbeatCommand
beat = record { job_id = "j1"; attempt_id = "a1"; execution_epoch = 1 }

abbrev report : ProgressCommand
report = record {
  job_id = "j1";
  attempt_id = "a1";
  execution_epoch = 1;
  progress = [];
  metric_points = [];
}

abbrev crash : FailCommand
crash = record {
  job_id = "j1";
  attempt_id = "a1";
  execution_epoch = 1;
  retryable = true;
  error_code = "OOM";
  error_message = "out of memory";
}

abbrev pub running_job : Aggregate
running_job = step file_urls fresh_job (at 10, claims first_claim)

fresh_job-Inv : Inv fresh_job
fresh_job-Inv = new_aggregate-Inv 5 "j1" "r1" "m1" two_tries []

running_job-Inv : Inv running_job
running_job-Inv = step-Inv file_urls fresh_job (at 10, claims first_claim) fresh_job-Inv

-- The reaper has ended the lease of the first attempt.
abbrev reaped_job : Aggregate
reaped_job =
    step file_urls running_job (record { now = 100 * second; lease_ttl = 0; new_id = "m2" }, reaps)

reaped_job-Inv : Inv reaped_job
reaped_job-Inv =
    step-Inv file_urls running_job
      (record { now = 100 * second; lease_ttl = 0; new_id = "m2" }, reaps) running_job-Inv

abbrev attempt_1 : Attempt
attempt_1 = record {
  id = "a1";
  number = 1;
  execution_epoch = 1;
  worker_id = "w1";
  status = AttemptStatus.expired;
  lease_expires_at = 60 * second + 10;
  last_heartbeat_at = 10;
  started_at = 10;
  finished_at = 100 * second;
  completion_key = "";
  result_digest = "";
  result = no_result;
  error_code = "";
  error_message = "";
}

reaped_job-Ended : Ended "a1" attempt_1 reaped_job
unfolding step new_aggregate claim take_lease new_attempt reap lease_expired retry_or_fail requeue
    ready_event lookup insert reap_attempt
reaped_job-Ended = record { found = refl; dead = λ h. cc }

-- A second worker takes the job, under a fresh id.
abbrev second_round : List (Env × Call)
second_round =
    (
      record { now = 200 * second; lease_ttl = 60 * second; new_id = "a2" },
      claims (record { job_id = "j1"; dispatch_generation = 2; worker_id = "w2" }),
    )
    ∷ (record { now = 201 * second; lease_ttl = 60 * second; new_id = "m3" }, pauses)
    ∷ []

second_round-FreshRun : FreshRun file_urls reaped_job second_round
unfolding step new_aggregate claim take_lease new_attempt reap lease_expired retry_or_fail requeue
    ready_event lookup insert reap_attempt
second_round-FreshRun = (refl, (refl, tt))

new_job-calls_example :
    (Inv (run_calls file_urls fresh_job second_round))
    × (OutboxInv (desk (run_calls file_urls fresh_job second_round)))
new_job-calls_example = new_job-calls 5 "j1" "r1" "m1" two_tries [] file_urls second_round

step-Inv_example : Inv (step file_urls reaped_job (at 300, cancels))
step-Inv_example = step-Inv file_urls reaped_job (at 300, cancels) reaped_job-Inv

run_calls-Ended_example : Ended "a1" attempt_1 (run_calls file_urls reaped_job second_round)
run_calls-Ended_example =
    run_calls-Ended file_urls reaped_job second_round "a1" attempt_1 reaped_job-Inv
      second_round-FreshRun reaped_job-Ended

stale_worker-fenced_example :
    (heartbeat (at 400) beat (run_calls file_urls reaped_job second_round)
      ≡ (err fenced_error, run_calls file_urls reaped_job second_round))
    × (progress (at 400) report (run_calls file_urls reaped_job second_round)
        ≡ (err fenced_error, run_calls file_urls reaped_job second_round))
    × (fail (at 400) crash (run_calls file_urls reaped_job second_round)
        ≡ (err fenced_error, run_calls file_urls reaped_job second_round))
stale_worker-fenced_example =
    stale_worker-fenced file_urls reaped_job second_round "a1" attempt_1 (at 400) beat report crash
      reaped_job-Inv second_round-FreshRun reaped_job-Ended refl refl refl

step-Edge_example :
    ((step file_urls reaped_job (at 300, cancels)).job.status ≡ reaped_job.job.status)
    ⊎ Edge reaped_job.job.status (step file_urls reaped_job (at 300, cancels)).job.status
step-Edge_example = step-Edge file_urls reaped_job (at 300, cancels)

step-Dispatch_example : Dispatch reaped_job (step file_urls reaped_job (at 300, cancels))
step-Dispatch_example = step-Dispatch file_urls reaped_job (at 300, cancels)

abbrev dropped_job : Aggregate
dropped_job = step file_urls fresh_job (at 300, cancels)

dropped_job-terminal : terminal dropped_job.job.status ≡ true
unfolding step cancel new_aggregate transition stop_attempt lookup move_to
dropped_job-terminal = refl

run_calls-terminal_example :
    SameButEvents dropped_job (run_calls file_urls dropped_job second_round)
run_calls-terminal_example =
    run_calls-terminal file_urls dropped_job second_round dropped_job-terminal

granted-bounded_example :
    ((run_calls file_urls reaped_job second_round).job.attempt_count
      ≡ reaped_job.job.attempt_count + granted file_urls reaped_job second_round)
    × (reaped_job.job.attempt_count + granted file_urls reaped_job second_round
        ≤ reaped_job.job.max_attempts)
granted-bounded_example = granted-bounded file_urls reaped_job second_round reaped_job-Inv
