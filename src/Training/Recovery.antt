-- ===== src/Training/Recovery.antt =====
-- What becomes of a job whose worker was lost: the reaper announces it again, and the next claim
-- takes it over.
use fgvcplateform_public.Base.{
  ◌+◌, ◌≤◌, ◌<◌, ◌≡◌, refl, sym, ap, ◌∙◌, some, [], ◌∷◌, ◌++◌, arith, ltb, inc64, true,
}
use fgvcplateform_public.Base.Assoc.{lookup}
use fgvcplateform_public.Training.Types.{
  Status, Result, ok, Attempt, OutboxEvent, Aggregate, Env, ready_event,
}
use fgvcplateform_public.Training.Claims.{
  ClaimCommand, ClaimResult, Claim, claimed, claim, take_lease, heartbeat,
}
use fgvcplateform_public.Training.Failure.{reap, reap_found, reap_attempt}
use fgvcplateform_public.Training.Steps.{stored}
use fgvcplateform_public.Training.Dispatch.{IsReady, ready_event-IsReady}
use fgvcplateform_public.Training.Leases.{
  claim_of_Claimable, take_lease-ok, take_lease-claim, claim-heartbeat,
}

reap_found_late :
    (env : Env) (g : Aggregate) (a : Attempt)
    → g.job.status ≡ Status.running
    → a.lease_expires_at < env.now
    → reap_found env (some a) g ≡ (ok tt, reap_attempt env a g)
unfolding reap_found
reap_found_late env g a r late = ground arith

-- What the reaper leaves of a job with attempts left.
record Waits (env : Env) (g g' : Aggregate) : Type 0 where
  ready : OutboxEvent
  outbox : g'.outbox ≡ g.outbox ++ ready ∷ []
  is_ready : IsReady g.job.id (inc64 g.job.dispatch_generation) env.now ready
  generation : g'.job.dispatch_generation ≡ inc64 g.job.dispatch_generation
  status : g'.job.status ≡ Status.queued
  available : g'.job.available_at ≡ env.now
  epoch : g'.job.execution_epoch ≡ inc64 g.job.execution_epoch
  count : g'.job.attempt_count ≡ g.job.attempt_count
  limit : g'.job.max_attempts ≡ g.job.max_attempts

reap_attempt-Waits :
    (env : Env) (g : Aggregate) (a : Attempt)
    → ltb g.job.attempt_count g.job.max_attempts ≡ true
    → Waits env g (reap_attempt env a g)
unfolding reap_attempt
reap_attempt-Waits env g a left = rw left (record {
  ready = ready_event env.new_id g.job.id (inc64 g.job.dispatch_generation) env.now;
  outbox = refl;
  is_ready = ready_event-IsReady env.new_id g.job.id _ env.now;
  generation = refl;
  status = refl;
  available = refl;
  epoch = refl;
  count = refl;
  limit = refl;
})

reap-Waits :
    (env : Env) (g : Aggregate) (a : Attempt)
    → lookup g.job.active_attempt_id g.attempts ≡ some a
    → g.job.status ≡ Status.running
    → a.lease_expires_at < env.now
    → g.job.attempt_count < g.job.max_attempts
    → Waits env g (stored g (reap env g))
unfolding reap
reap-Waits env g a f r late left =
    rw (ap (λ o. reap_found env o g) f ∙ reap_found_late env g a r late)
      (reap_attempt-Waits env g a (ground arith))

-- The job `g` was announced by one ready event, and handed out again to the worker of `cmd`, whose
-- heartbeat counts.
pub record IsTakenOver (env env' env'' : Env) (cmd : ClaimCommand) (g : Aggregate) : Type 0 where
  pub ready : OutboxEvent
  pub outbox : (stored g (reap env g)).outbox ≡ g.outbox ++ ready ∷ []
  pub is_ready : IsReady g.job.id (inc64 g.job.dispatch_generation) env.now ready
  pub grant : Claim
  pub granted : (claim env' cmd (stored g (reap env g))).0 ≡ ok (claimed grant)
  pub attempt : grant.attempt_id ≡ env'.new_id
  pub epoch : grant.execution_epoch ≡ inc64 (inc64 g.job.execution_epoch)
  pub alive :
      let g' = stored g (reap env g) in
      (heartbeat env''
        (record {
          job_id = grant.job_id;
          attempt_id = grant.attempt_id;
          execution_epoch = grant.execution_epoch;
        })
        (stored g' (claim env' cmd g'))).0
      ≡ ok (record { directive = "continue"; lease_expires_at = env''.now + env''.lease_ttl })

-- A running job whose lease is over and which has attempts left is not lost: ReapExpired appends
-- exactly one event to its outbox, the ready event of the next generation; a claim that names that
-- generation, at any time from then on, is granted, as a new attempt under an epoch two further
-- than the lost one; and a heartbeat under that grant is accepted at any time.
pub reap-claim :
    (env env' env'' : Env) (cmd : ClaimCommand) (g : Aggregate) (a : Attempt)
    → lookup g.job.active_attempt_id g.attempts ≡ some a
    → g.job.status ≡ Status.running
    → a.lease_expires_at < env.now
    → g.job.attempt_count < g.job.max_attempts
    → cmd.dispatch_generation ≡ inc64 g.job.dispatch_generation
    → env.now ≤ env'.now
    → IsTakenOver env env' env'' cmd g
reap-claim env env' env'' cmd g a f r late left named later =
    let w = reap-Waits env g a f r late left in
    let g' = stored g (reap env g) in
    let taken : claim env' cmd g' ≡ take_lease env' cmd g' =
      claim_of_Claimable env' cmd g' (record {
        current = named ∙ sym w.generation;
        waiting = w.status;
        available = omega (arith, w.available, later);
        attempts_left = omega (arith, w.count, w.limit, left);
      }) in
    let (x, e) = take_lease-ok env' cmd g' in
    let granted : (claim env' cmd g').0 ≡ ok (claimed x) =
      ap (λ (r : Result ClaimResult × Aggregate). r.0) taken ∙ e in
    let ids = take_lease-claim env' cmd g' x e in
    record {
      ready = w.ready;
      outbox = w.outbox;
      is_ready = w.is_ready;
      grant = x;
      granted = granted;
      attempt = ids.0;
      epoch = ids.1 ∙ ap inc64 w.epoch;
      alive = claim-heartbeat env' env'' cmd g' x granted;
    }
