-- ===== src/Training/Claims.antt =====
-- lifecycle.go: Claim and Heartbeat, and the check that a worker still owns its attempt.
use fgvcplateform_public.Base.{
  ℕ, ◌+◌, String, Bool, not, ◌&&◌, ◌||◌, Option, none, some, [], ◌∷◌, ◌++◌, leb, ltb, ◌==◌, str_eq,
  if◌then◌else◌, inc64,
}
use fgvcplateform_public.Base.Assoc.{lookup, insert}
use fgvcplateform_public.Base.Value.{ValueMap, str, number}
use fgvcplateform_public.Training.Types.{
  Status, AttemptStatus, is_queued, is_paused, is_running, terminal, attempt_running, fenced,
  invalid_state, attempts_exhausted, temporarily_unavailable, Error, domain_error, Result, ok, err,
  Job, Attempt, AuditEvent, Aggregate, Closure, Env, no_result,
}

pub record ClaimCommand : Type 0 where
  pub job_id : String
  pub dispatch_generation : ℕ
  pub worker_id : String

pub record Claim : Type 0 where
  pub job_id : String
  pub training_run_id : String
  pub attempt_id : String
  pub execution_epoch : ℕ
  pub lease_expires_at : ℕ
  pub payload : ValueMap

-- ClaimDisposition and ClaimResult: what `Obsolete` and `Terminal` carry is the job's id alone.
pub data ClaimResult : Type 0 where
  claimed : Claim → ClaimResult
  obsolete : String → ClaimResult
  terminal_job : String → ClaimResult

abbrev pub fenced_error : Error
fenced_error = domain_error fenced "training worker no longer owns the active execution epoch"

-- The condition of currentAttempt, negated, for an attempt that is there.
unfoldable pub owns : Aggregate → String → ℕ → Attempt → Bool
owns g attempt_id epoch a =
    is_running g.job.status
    && str_eq g.job.active_attempt_id attempt_id
    && g.job.execution_epoch == epoch
    && a.execution_epoch == epoch
    && attempt_running a.status

unfoldable pub check_owner : Aggregate → String → ℕ → Option Attempt → Result Attempt
unfolding owns
check_owner g attempt_id epoch none = err fenced_error
check_owner g attempt_id epoch (some a) =
    if owns g attempt_id epoch a then ok a else err fenced_error

unfoldable pub current_attempt : Aggregate → String → ℕ → Result Attempt
unfolding check_owner
current_attempt g attempt_id epoch = check_owner g attempt_id epoch (lookup attempt_id g.attempts)

unfoldable pub new_attempt : Env → ClaimCommand → Job → Attempt
new_attempt env cmd job = record {
  id = env.new_id;
  number = job.attempt_count + 1;
  execution_epoch = inc64 job.execution_epoch;
  worker_id = cmd.worker_id;
  status = AttemptStatus.running;
  lease_expires_at = env.now + env.lease_ttl;
  last_heartbeat_at = env.now;
  started_at = env.now;
  finished_at = 0;
  completion_key = "";
  result_digest = "";
  result = no_result;
  error_code = "";
  error_message = "";
}

-- The guard keeps AttemptCount below MaxAttempts, an int, so its increment does not wrap.
unfoldable pub take_lease : Env → ClaimCommand → Closure ClaimResult
unfolding new_attempt
take_lease env cmd g =
    let job = record g.job {
      attempt_count = g.job.attempt_count + 1;
      execution_epoch = inc64 g.job.execution_epoch;
      active_attempt_id = env.new_id;
      last_heartbeat_at = env.now;
      status = Status.running;
      updated_at = env.now;
    } in
    let event : AuditEvent = record {
      event_type = "claimed";
      message = "training job claimed";
      payload =
          ("attempt_id", str env.new_id)
          ∷ ("worker_id", str cmd.worker_id)
          ∷ ("execution_epoch", number job.execution_epoch)
          ∷ [];
      created_at = env.now;
    } in
    let claim : Claim = record {
      job_id = job.id;
      training_run_id = g.run.id;
      attempt_id = env.new_id;
      execution_epoch = job.execution_epoch;
      lease_expires_at = env.now + env.lease_ttl;
      payload = job.payload;
    } in
    (
      ok (claimed claim),
      record g {
        job = job;
        run = record g.run { status = Status.running; updated_at = env.now };
        attempts = insert env.new_id (new_attempt env cmd g.job) g.attempts;
        events = g.events ++ event ∷ [];
      },
    )

unfoldable pub claim : Env → ClaimCommand → Closure ClaimResult
claim env cmd g =
    let job = g.job in
    if not (cmd.dispatch_generation == job.dispatch_generation)
      || is_running job.status
      || is_paused job.status
    then (ok (obsolete job.id), g)
    else if terminal job.status
    then (ok (terminal_job job.id), g)
    else if not (is_queued job.status)
    then (err (domain_error invalid_state "training job is not dispatchable"), g)
    else if ltb env.now job.available_at
    then (err (domain_error temporarily_unavailable "training job is not available yet"), g)
    else if leb job.max_attempts job.attempt_count
    then (err (domain_error attempts_exhausted "training job has exhausted its attempts"), g)
    else take_lease env cmd g

pub record HeartbeatCommand : Type 0 where
  pub job_id : String
  pub attempt_id : String
  pub execution_epoch : ℕ

pub record HeartbeatResult : Type 0 where
  pub directive : String
  pub lease_expires_at : ℕ

unfoldable pub renew_lease : Env → String → Attempt → Closure HeartbeatResult
renew_lease env attempt_id a g =
    let lease = env.now + env.lease_ttl in
    (
      ok (record { directive = "continue"; lease_expires_at = lease }),
      record g {
        attempts =
            insert attempt_id (record a { last_heartbeat_at = env.now; lease_expires_at = lease })
              g.attempts;
        job = record g.job { last_heartbeat_at = env.now; updated_at = env.now };
      },
    )

-- `attempt, fenceErr := currentAttempt(…); if fenceErr != nil { return fenceErr }`
unfoldable pub as_owner : {A : Type 0} → Result Attempt → (Attempt → Closure A) → Closure A
as_owner (err e) body g = (err e, g)
as_owner (ok a) body g = body a g

unfoldable pub heartbeat : Env → HeartbeatCommand → Closure HeartbeatResult
unfolding renew_lease as_owner current_attempt
heartbeat env cmd g =
    as_owner (current_attempt g cmd.attempt_id cmd.execution_epoch) (renew_lease env cmd.attempt_id)
      g
