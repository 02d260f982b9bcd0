-- ===== src/Training/Failure.antt =====
-- lifecycle.go: Fail with its backoff, and the closure of ReapExpired.
use fgvcplateform_public.Base.{
  ℕ, ◌+◌, ◌-◌, ◌*◌, ◌^◌, min, String, Bool, ◌&&◌, Option, none, some, [], ◌∷◌, ◌++◌, ltb,
  if◌then◌else◌, inc64,
}
use fgvcplateform_public.Base.Assoc.{lookup, insert}
use fgvcplateform_public.Base.Value.{str, number, flag}
use fgvcplateform_public.Training.Types.{
  Status, AttemptStatus, is_running, ok, Attempt, AuditEvent, Aggregate, Closure, Env, second,
  ready_event,
}
use fgvcplateform_public.Training.Claims.{current_attempt, as_owner}

pub record FailCommand : Type 0 where
  pub job_id : String
  pub attempt_id : String
  pub execution_epoch : ℕ
  pub retryable : Bool
  pub error_code : String
  pub error_message : String

-- time.Duration(1<<min(AttemptCount-1, 6)) * time.Second. The count of a job with a running
-- attempt is at least 1: the shift by a negative count, which panics, is not reached.
unfoldable pub backoff : ℕ → ℕ
backoff attempt_count = 2 ^ min (attempt_count - 1) 6 * second

-- What is common to a retry after a failure and after a lost lease.
unfoldable pub requeue : Env → ℕ → ℕ → ℕ → Aggregate → Aggregate
unfolding ready_event
requeue env epoch available_at generation g = record g {
  job = record g.job {
    status = Status.queued;
    dispatch_generation = generation;
    execution_epoch = epoch;
    active_attempt_id = "";
    available_at = available_at;
  };
  run = record g.run { status = Status.queued };
  outbox = g.outbox ++ ready_event env.new_id g.job.id generation available_at ∷ [];
}

abbrev pub give_up : Aggregate → Aggregate
give_up g = record g {
  job = record g.job { status = Status.failed };
  run = record g.run { status = Status.failed };
}

abbrev pub close_round : Env → AuditEvent → Aggregate → Aggregate
close_round env event g = record g {
  job = record g.job { updated_at = env.now };
  run = record g.run { updated_at = env.now };
  events = g.events ++ event ∷ [];
}

unfoldable pub retry_or_fail : Env → FailCommand → Aggregate → Aggregate
unfolding requeue backoff
retry_or_fail env cmd g =
    if cmd.retryable && ltb g.job.attempt_count g.job.max_attempts
    then requeue env (inc64 g.job.execution_epoch) (env.now + backoff g.job.attempt_count)
        (inc64 g.job.dispatch_generation) g
    else give_up g

unfoldable pub record_failure : Env → FailCommand → Attempt → Closure (Unit {0})
unfolding retry_or_fail
record_failure env cmd a g =
    let done = record a {
      status = AttemptStatus.failed;
      finished_at = env.now;
      error_code = cmd.error_code;
      error_message = cmd.error_message;
    } in
    let event : AuditEvent = record {
      event_type = "failed";
      message = "training attempt failed";
      payload =
          ("attempt_id", str a.id)
          ∷ ("error_code", str cmd.error_code)
          ∷ ("retryable", flag cmd.retryable)
          ∷ [];
      created_at = env.now;
    } in
    let failed_job = record g {
      attempts = insert cmd.attempt_id done g.attempts;
      job = record g.job { error_code = cmd.error_code; error_message = cmd.error_message };
    } in
    (ok tt, close_round env event (retry_or_fail env cmd failed_job))

unfoldable pub fail : Env → FailCommand → Closure (Unit {0})
unfolding record_failure as_owner current_attempt
fail env cmd g =
    as_owner (current_attempt g cmd.attempt_id cmd.execution_epoch) (record_failure env cmd) g

-- The condition under which ReapExpired lets a job go.
unfoldable pub lease_expired : ℕ → Aggregate → Attempt → Bool
lease_expired now g a = is_running g.job.status && ltb a.lease_expires_at now

unfoldable pub reap_attempt : Env → Attempt → Aggregate → Aggregate
unfolding requeue
reap_attempt env a g =
    let event : AuditEvent = record {
      event_type = "lease_expired";
      message = "training attempt lease expired";
      payload =
          ("attempt_id", str a.id)
          ∷ ("worker_id", str a.worker_id)
          ∷ ("execution_epoch", number a.execution_epoch)
          ∷ [];
      created_at = env.now;
    } in
    let done = record a { status = AttemptStatus.expired; finished_at = env.now } in
    let g' = record g {
      attempts = insert g.job.active_attempt_id done g.attempts;
      job = record g.job { execution_epoch = inc64 g.job.execution_epoch; active_attempt_id = "" };
    } in
    close_round env event (
      if ltb g'.job.attempt_count g'.job.max_attempts
      then requeue env g'.job.execution_epoch env.now (inc64 g'.job.dispatch_generation) g'
      else give_up g')

unfoldable pub reap_found : Env → Option Attempt → Closure (Unit {0})
unfolding lease_expired
reap_found env none g = (ok tt, g)
reap_found env (some a) g =
    if lease_expired env.now g a then (ok tt, reap_attempt env a g) else (ok tt, g)

-- The closure of ReapExpired. Its ready event names the key under which the job is stored, which
-- is the job's id.
unfoldable pub reap : Env → Closure (Unit {0})
unfolding reap_found
reap env g = reap_found env (lookup g.job.active_attempt_id g.attempts) g
