-- ===== src/Training/Leases.antt =====
-- Who may claim, how long a claim holds, how long the reaper leaves it alone, and when a retry may
-- start.
use fgvcplateform_public.Base.{
  ℕ, ◌+◌, ◌-◌, ◌*◌, ◌^◌, ◌≤◌, ◌<◌, suc, zero, min, String, ◌≡◌, refl, sym, ap, ◌∙◌, ◌↔◌, true, some,
  arith, if◌then◌else◌, ◌==◌, inc64,
}
use fgvcplateform_public.Base.Assoc.{lookup, insert, lookup-insert_self}
use fgvcplateform_public.Training.Types.{
  Status, Result, ok, err, Attempt, Aggregate, Env, domain_error, temporarily_unavailable, second,
}
use fgvcplateform_public.Training.Claims.{
  ClaimCommand, ClaimResult, Claim, claimed, obsolete, HeartbeatCommand, HeartbeatResult, claim,
  take_lease, new_attempt, renew_lease, heartbeat,
}
use fgvcplateform_public.Training.Failure.{
  FailCommand, fail, record_failure, backoff, reap, reap_found,
}
use fgvcplateform_public.Training.Steps.{stored}
use fgvcplateform_public.Training.Ownership.{Owned, current_attempt_of_Owned}
use fgvcplateform_public.Training.Replay.{as_owner-ok}

-- What Claim asks before it hands out a lease.
pub record Claimable (env : Env) (cmd : ClaimCommand) (g : Aggregate) : Type 0 where
  pub current : cmd.dispatch_generation ≡ g.job.dispatch_generation
  pub waiting : g.job.status ≡ Status.queued
  pub available : g.job.available_at ≤ env.now
  pub attempts_left : g.job.attempt_count < g.job.max_attempts

pub claim_of_Claimable :
    (env : Env) (cmd : ClaimCommand) (g : Aggregate)
    → Claimable env cmd g
    → claim env cmd g ≡ take_lease env cmd g
unfolding claim
claim_of_Claimable env cmd g c = ground arith

abbrev pub Granted : Env → ClaimCommand → Aggregate → Type 0
Granted env cmd g = (x : Claim) × ((claim env cmd g).0 ≡ ok (claimed x))

Claimable-of_claimed :
    (env : Env) (cmd : ClaimCommand) (g : Aggregate) (x : Claim)
    → (claim env cmd g).0 ≡ ok (claimed x)
    → Claimable env cmd g
unfolding claim
Claimable-of_claimed env cmd g x h = ground arith

pub take_lease-ok :
    (env : Env) (cmd : ClaimCommand) (g : Aggregate)
    → (x : Claim) × ((take_lease env cmd g).0 ≡ ok (claimed x))
unfolding take_lease
take_lease-ok env cmd g = (_, refl)

-- A claim is granted exactly when it names the current generation of a queued job that is
-- available and has attempts left.
pub claim-Granted_iff :
    (env : Env) (cmd : ClaimCommand) (g : Aggregate) → Granted env cmd g ↔ Claimable env cmd g
claim-Granted_iff env cmd g = (
  λ h. Claimable-of_claimed env cmd g h.0 h.1,
  λ c.
      let (x, e) = take_lease-ok env cmd g in
      (x, ap (λ (r : Result ClaimResult × Aggregate). r.0) (claim_of_Claimable env cmd g c) ∙ e),
)

pow_bounds : (k : ℕ) → k ≤ 6 → (1 ≤ 2 ^ k) × (2 ^ k ≤ 64)
pow_bounds zero h = omega arith
pow_bounds (suc zero) h = omega arith
pow_bounds (suc (suc zero)) h = omega arith
pow_bounds (suc (suc (suc zero))) h = omega arith
pow_bounds (suc (suc (suc (suc zero)))) h = omega arith
pow_bounds (suc (suc (suc (suc (suc zero))))) h = omega arith
pow_bounds (suc (suc (suc (suc (suc (suc zero)))))) h = omega arith
pow_bounds (suc (suc (suc (suc (suc (suc (suc k))))))) h = absurd (omega arith)

backoff_bounds : (n : ℕ) → (second ≤ backoff n) × (backoff n ≤ 64 * second)
unfolding backoff
backoff_bounds n = omega (arith, pow_bounds (min (n - 1) 6) (omega arith))

retry-shape :
    (env : Env) (cmd : FailCommand) (g : Aggregate) (a : Attempt)
    → cmd.retryable ≡ true
    → g.job.attempt_count < g.job.max_attempts
    → let j = (stored g (record_failure env cmd a g)).job in
      (j.status ≡ Status.queued)
      × (j.available_at ≡ env.now + backoff g.job.attempt_count)
      × (j.dispatch_generation ≡ inc64 g.job.dispatch_generation)
unfolding record_failure
retry-shape env cmd g a r lt = (ground arith, ground arith, ground arith)

claim_waiting :
    (env : Env) (cmd : ClaimCommand) (g : Aggregate) (generation : ℕ)
    → g.job.dispatch_generation ≡ generation
    → g.job.status ≡ Status.queued
    → env.now < g.job.available_at
    → (claim env cmd g).0 ≡ (
        if cmd.dispatch_generation == generation
        then err (domain_error temporarily_unavailable "training job is not available yet")
        else ok (obsolete g.job.id))
unfolding claim
claim_waiting env cmd g generation e q lt = ground arith

-- The owner's renewal, as the equation of what is stored.
heartbeat-shape :
    (env : Env) (cmd : HeartbeatCommand) (g : Aggregate) {x : HeartbeatResult}
    → (heartbeat env cmd g).0 ≡ ok x
    → (a : Attempt) × Owned g cmd.attempt_id cmd.execution_epoch a
      × (heartbeat env cmd g ≡ renew_lease env cmd.attempt_id a g)
unfolding heartbeat
heartbeat-shape env cmd g h =
    as_owner-ok g cmd.attempt_id cmd.execution_epoch (renew_lease env cmd.attempt_id) h

-- After a retryable failure with attempts left the job waits: the backoff lies between one and 64
-- seconds, and a claim before it is over is refused as temporarily unavailable if it names the
-- new generation, and answered as obsolete if it names any other.
pub fail-backoff :
    (env env' : Env) (cmd : FailCommand) (g : Aggregate) (cmd' : ClaimCommand)
    → (fail env cmd g).0 ≡ ok tt
    → cmd.retryable ≡ true
    → g.job.attempt_count < g.job.max_attempts
    → env'.now < env.now + backoff g.job.attempt_count
    → let g' = stored g (fail env cmd g) in
      (second ≤ backoff g.job.attempt_count)
      × (backoff g.job.attempt_count ≤ 64 * second)
      × ((claim env' cmd' g').0 ≡ (
          if cmd'.dispatch_generation == inc64 g.job.dispatch_generation
          then err (domain_error temporarily_unavailable "training job is not available yet")
          else ok (obsolete g'.job.id)))
unfolding fail
fail-backoff env env' cmd g cmd' h r lt early =
    let (a, o, e) = as_owner-ok g cmd.attempt_id cmd.execution_epoch (record_failure env cmd) h in
    let (q, at, gen) = retry-shape env cmd g a r lt in
    let g' = stored g (record_failure env cmd a g) in
    let (low, high) = backoff_bounds g.job.attempt_count in
    (low, high, rw e (claim_waiting env' cmd' g' _ gen q (rw at early)))

reap_found_in_time :
    (env : Env) (g : Aggregate) (a : Attempt)
    → env.now ≤ a.lease_expires_at
    → reap_found env (some a) g ≡ (ok tt, g)
unfolding reap_found
reap_found_in_time env g a late = ground arith

reap_in_time :
    (env : Env) (g : Aggregate) (a : Attempt)
    → lookup g.job.active_attempt_id g.attempts ≡ some a
    → env.now ≤ a.lease_expires_at
    → reap env g ≡ (ok tt, g)
unfolding reap
reap_in_time env g a f late = ap (λ o. reap_found env o g) f ∙ reap_found_in_time env g a late

renewed_lease :
    (env : Env) (id : String) (a : Attempt) (g : Aggregate) (x : HeartbeatResult)
    → (renew_lease env id a g).0 ≡ ok x
    → x.lease_expires_at ≡ env.now + env.lease_ttl
unfolding renew_lease
renewed_lease env id a g x h = ground arith

renewed_in_time :
    (env env' : Env) (id : String) (epoch : ℕ) (a : Attempt) (g : Aggregate)
    → Owned g id epoch a
    → env'.now ≤ env.now + env.lease_ttl
    → let g' = stored g (renew_lease env id a g) in reap env' g' ≡ (ok tt, g')
unfolding renew_lease
renewed_in_time env env' id epoch a g o late =
    let b = record a { last_heartbeat_at = env.now; lease_expires_at = env.now + env.lease_ttl } in
    reap_in_time env' _ b
      (ap (λ i. lookup i (insert id b g.attempts)) o.active ∙ lookup-insert_self id b g.attempts)
      late

-- A worker whose heartbeat is accepted holds a lease of the configured length from then on, and
-- the reaper leaves its job alone until that lease is over.
pub heartbeat-reap :
    (env env' : Env) (cmd : HeartbeatCommand) (g : Aggregate) {x : HeartbeatResult}
    → (heartbeat env cmd g).0 ≡ ok x
    → env'.now ≤ env.now + env.lease_ttl
    → let g' = stored g (heartbeat env cmd g) in
      (x.lease_expires_at ≡ env.now + env.lease_ttl) × (reap env' g' ≡ (ok tt, g'))
heartbeat-reap env env' cmd g {x} h late =
    let (a, o, e) = heartbeat-shape env cmd g h in
    (
      renewed_lease env cmd.attempt_id a g x (rw e at h),
      rw e (renewed_in_time env env' cmd.attempt_id cmd.execution_epoch a g o late),
    )

heartbeat_of_Owned :
    (env : Env) (cmd : HeartbeatCommand) (g : Aggregate) (a : Attempt)
    → Owned g cmd.attempt_id cmd.execution_epoch a
    → (heartbeat env cmd g).0
      ≡ ok (record { directive = "continue"; lease_expires_at = env.now + env.lease_ttl })
unfolding heartbeat
heartbeat_of_Owned env cmd g a o =
    rw (current_attempt_of_Owned g cmd.attempt_id cmd.execution_epoch a o) refl

pub take_lease-claim :
    (env : Env) (cmd : ClaimCommand) (g : Aggregate) (x : Claim)
    → (take_lease env cmd g).0 ≡ ok (claimed x)
    → (x.attempt_id ≡ env.new_id) × (x.execution_epoch ≡ inc64 g.job.execution_epoch)
unfolding take_lease
take_lease-claim env cmd g x h = ground arith

take_lease-Owned :
    (env : Env) (cmd : ClaimCommand) (g : Aggregate) (id : String) (epoch : ℕ)
    → id ≡ env.new_id
    → epoch ≡ inc64 g.job.execution_epoch
    → Owned (stored g (take_lease env cmd g)) id epoch (new_attempt env cmd g.job)
unfolding take_lease
take_lease-Owned env cmd g id epoch e f = record {
  found =
      ap (λ i. lookup i (insert env.new_id (new_attempt env cmd g.job) g.attempts)) e
      ∙ lookup-insert_self env.new_id _ g.attempts;
  job_running = refl;
  active = sym e;
  job_epoch = sym f;
  attempt_epoch = sym f;
  attempt_running = refl;
}

-- A granted claim makes its caller the owner: a heartbeat with the attempt and the epoch of the
-- claim is accepted, and prolongs the lease from its own time.
pub claim-heartbeat :
    (env env' : Env) (cmd : ClaimCommand) (g : Aggregate) (x : Claim)
    → (claim env cmd g).0 ≡ ok (claimed x)
    → (heartbeat env'
        (record {
          job_id = x.job_id;
          attempt_id = x.attempt_id;
          execution_epoch = x.execution_epoch;
        })
        (stored g (claim env cmd g))).0
      ≡ ok (record { directive = "continue"; lease_expires_at = env'.now + env'.lease_ttl })
claim-heartbeat env env' cmd g x h =
    let e = claim_of_Claimable env cmd g (Claimable-of_claimed env cmd g x h) in
    let (i, n) = take_lease-claim env cmd g x (rw e at h) in
    rw e (
      heartbeat_of_Owned env' _ _ (new_attempt env cmd g.job)
        (take_lease-Owned env cmd g x.attempt_id x.execution_epoch i n))
