-- ===== src/Training/Invariant.antt =====
-- Every call of the lifecycle keeps the invariant of an aggregate.
use fgvcplateform_public.Training.Cases.{
  claim_cases, complete_owned_cases, reap_found_cases, transition_cases, transition_keyed_cases,
  resume_cases,
}
use fgvcplateform_public.Base.{
  ℕ, ◌<◌, String, ◌≡◌, ◌≢◌, refl, sym, ap, subst, ◌∙◌, ◌⊎◌, inl, inr, ◌&&◌, Option, none, some,
  List, [], ◌∷◌, arith, ltb, if_cases,
}
use fgvcplateform_public.Base.Assoc.{Assoc, lookup, insert, lookup-insert_self}
use fgvcplateform_public.Base.Value.{ValueMap}
use fgvcplateform_public.Training.Types.{
  Status, AttemptStatus, Result, ok, err, Attempt, MetricPoint, Aggregate, Env,
}
use fgvcplateform_public.Training.Claims.{
  ClaimCommand, HeartbeatCommand, claim, take_lease, new_attempt, renew_lease, heartbeat,
}
use fgvcplateform_public.Training.Metrics.{
  ProgressCommand, progress, add_points, touch, bad_metric_point,
}
use fgvcplateform_public.Training.Control.{
  Target, to_paused, to_cancelled, stop_attempt, move_to, stopped_attempt, target_status,
  transition, pause, cancel, key_payload, transition_keyed, resume, requeue_paused,
}
use fgvcplateform_public.Training.Completion.{
  CompleteCommand, UrlParser, complete, complete_owned, complete_replay, replay_of, record_success,
  Replay, conflict, replayed, first_time,
}
use fgvcplateform_public.Training.Failure.{
  FailCommand, fail, record_failure, retry_or_fail, reap, reap_attempt,
}
use fgvcplateform_public.Training.Steps.{
  Call, claims, heartbeats, reports, pauses, cancels, resumes, reaps, cancels_keyed, completes,
  fails, stored, step, run_calls,
}
use fgvcplateform_public.Training.Ownership.{
  Owned, as_owner_cases, OnlyLive, IsLive, insert-OnlyLive, insert-NoneLive-OnlyLive,
  insert-NoneLive, insert-Keyed, Lease, lease_of, LeaseInv, Inv,
}

take_lease-Inv :
    (env : Env) (cmd : ClaimCommand) (g : Aggregate)
    → g.job.status ≡ Status.queued
    → g.job.attempt_count < g.job.max_attempts
    → Inv g
    → Inv (stored g (take_lease env cmd g))
unfolding take_lease
take_lease-Inv env cmd g q lt v = record {
  same_status = refl;
  count_bounded = omega arith;
  keyed = insert-Keyed g.attempts env.new_id _ v.keyed refl;
  owner = λ _. record {
    attempt = new_attempt env cmd g.job;
    found = lookup-insert_self env.new_id _ g.attempts;
    live = refl;
    same_epoch = refl;
    counted = omega arith;
  };
  only = λ _. insert-NoneLive-OnlyLive g.attempts env.new_id _ (v.nobody (λ e. cc));
  nobody = λ h. absurd (h refl);
}

claim-Inv :
    (env : Env) (cmd : ClaimCommand) (g : Aggregate) → Inv g → Inv (stored g (claim env cmd g))
claim-Inv env cmd g v = elim (claim_cases env cmd g) [
  | inl same ↦ rw same v
  | inr (q, lt, e) ↦ rw e (take_lease-Inv env cmd g q lt v)
]

-- An edit of the live attempt that leaves it live and keeps its epoch.
edit-Inv :
    (l : Lease) (k : String) (a b : Attempt)
    → l.active ≡ k
    → lookup k l.attempts ≡ some a
    → l.status ≡ Status.running
    → IsLive b
    → b.id ≡ a.id
    → b.execution_epoch ≡ a.execution_epoch
    → LeaseInv l
    → LeaseInv (record l { attempts = insert k b l.attempts })
edit-Inv l k a b e f r live same epoch v = record {
  same_status = v.same_status;
  count_bounded = v.count_bounded;
  keyed = insert-Keyed l.attempts k b v.keyed (same ∙ v.keyed k a f);
  owner = λ _. record {
    attempt = b;
    found = ap (λ i. lookup i (insert k b l.attempts)) e ∙ lookup-insert_self k b l.attempts;
    live = live;
    same_epoch = ground (arith, (v.owner r).found, (v.owner r).same_epoch);
    counted = (v.owner r).counted;
  };
  only = λ _.
      subst (OnlyLive (insert k b l.attempts)) (sym e)
        (insert-OnlyLive l.attempts k b (subst (OnlyLive l.attempts) e (v.only r)));
  nobody = λ h. absurd (h r);
}

-- The end of the live attempt: it is no longer live, and the job is no longer running.
end-Inv :
    (l : Lease) (k : String) (a b : Attempt) (s : Status) (epoch : ℕ) (active : String)
    → l.active ≡ k
    → lookup k l.attempts ≡ some a
    → l.status ≡ Status.running
    → b.status ≢ AttemptStatus.running
    → b.id ≡ a.id
    → s ≢ Status.running
    → LeaseInv l
    → LeaseInv (record l {
      attempts = insert k b l.attempts;
      status = s;
      run_status = s;
      epoch = epoch;
      active = active;
    })
end-Inv l k a b s epoch active e f r dead same stop v = record {
  same_status = refl;
  count_bounded = v.count_bounded;
  keyed = insert-Keyed l.attempts k b v.keyed (same ∙ v.keyed k a f);
  owner = λ h. absurd (stop h);
  only = λ h. absurd (stop h);
  nobody = λ _. insert-NoneLive l.attempts k b (subst (OnlyLive l.attempts) e (v.only r)) dead;
}

-- A move between two states that are not running.
idle-Inv :
    (l : Lease) (s : Status) (epoch : ℕ) (active : String)
    → l.status ≢ Status.running
    → s ≢ Status.running
    → LeaseInv l
    → LeaseInv (record l { status = s; run_status = s; epoch = epoch; active = active })
idle-Inv l s epoch active r stop v = record {
  same_status = refl;
  count_bounded = v.count_bounded;
  keyed = v.keyed;
  owner = λ e. absurd (stop e);
  only = λ e. absurd (stop e);
  nobody = λ _. v.nobody r;
}

heartbeat-Inv :
    (env : Env) (cmd : HeartbeatCommand) (g : Aggregate)
    → Inv g
    → Inv (stored g (heartbeat env cmd g))
unfolding heartbeat
heartbeat-Inv env cmd g v =
    as_owner_cases Inv g cmd.attempt_id cmd.execution_epoch (renew_lease env cmd.attempt_id) v
      λ a o.
        edit-Inv (lease_of g) cmd.attempt_id a _ o.active o.found o.job_running o.attempt_running
          refl refl v

-- The loop over the points edits the metrics alone.
pub lease_of-add_points :
    (env : Env) (cmd : ProgressCommand) (ps : List MetricPoint) (g : Aggregate)
    → lease_of (add_points env cmd ps g).1 ≡ lease_of g
unfolding add_points
lease_of-add_points env cmd [] g = refl
lease_of-add_points env cmd (p ∷ ps) g =
    if_cases (λ (r : Result (Unit {0}) × Aggregate). lease_of r.1 ≡ lease_of g) (bad_metric_point p)
      (λ _. refl) λ _. lease_of-add_points env cmd ps _

progress-Inv :
    (env : Env) (cmd : ProgressCommand) (g : Aggregate)
    → Inv g
    → Inv (stored g (progress env cmd g))
unfolding progress
progress-Inv env cmd g v = as_owner_cases Inv g cmd.attempt_id cmd.execution_epoch _ v λ a o.
    touch-Inv (add_points env cmd cmd.metric_points g)
      (lease_of-add_points env cmd cmd.metric_points g)
  where
    touch-Inv :
        (r : Result (Unit {0}) × Aggregate)
        → lease_of r.1 ≡ lease_of g
        → Inv (stored g (touch env cmd r))
    touch-Inv (err e, c) same = v
    touch-Inv (ok u, c) same = subst LeaseInv (sym same) v

Status-cases : (s : Status) → (s ≡ Status.running) ⊎ (s ≢ Status.running)
Status-cases Status.running = inl refl
Status-cases Status.queued = inr (λ e. cc)
Status-cases Status.paused = inr (λ e. cc)
Status-cases Status.succeeded = inr (λ e. cc)
Status-cases Status.failed = inr (λ e. cc)
Status-cases Status.cancelled = inr (λ e. cc)

stop_attempt-live :
    (env : Env) (t : Target) (k : String) (a : Attempt) (m : Assoc Attempt)
    → IsLive a
    → stop_attempt env t k (some a) m
      ≡ insert k (record a { status = stopped_attempt t; finished_at = env.now }) m
unfolding stop_attempt
stop_attempt-live env t k a m h = ground arith

stop_attempt-dead :
    (env : Env) (t : Target) (k : String) (o : Option Attempt) (m : Assoc Attempt)
    → ((a : Attempt) → o ≡ some a → ¬ IsLive a)
    → stop_attempt env t k o m ≡ m
unfolding stop_attempt
stop_attempt-dead env t k none m h = refl
stop_attempt-dead env t k (some a) m h = ground (arith, h a refl)

move_to-Inv :
    (env : Env) (t : Target) (payload : ValueMap) (g : Aggregate)
    → Inv g
    → Inv (stored g (move_to env t payload g))
unfolding move_to
move_to-Inv env t payload g v = elim (Status-cases g.job.status) [
  | inl r ↦
      let o = v.owner r in
      rw (o.found, stop_attempt-live env t g.job.active_attempt_id o.attempt g.attempts o.live)
        (end-Inv (lease_of g) g.job.active_attempt_id o.attempt _ (target_status t) _ _ refl o.found
          r (stopped t) refl (moved t) v)
  | inr n ↦
      rw
        (stop_attempt-dead env t g.job.active_attempt_id _ g.attempts
          (v.nobody n g.job.active_attempt_id))
        (idle-Inv (lease_of g) (target_status t) _ _ n (moved t) v)
]
  where
    stopped : (t : Target) → stopped_attempt t ≢ AttemptStatus.running
    stopped to_paused e = cc
    stopped to_cancelled e = cc

    moved : (t : Target) → target_status t ≢ Status.running
    moved to_paused e = cc
    moved to_cancelled e = cc

requeue_paused-Inv :
    (env : Env) (g : Aggregate)
    → g.job.status ≡ Status.paused
    → Inv g
    → Inv (stored g (requeue_paused env g))
unfolding requeue_paused
requeue_paused-Inv env g p v = idle-Inv (lease_of g) Status.queued _ _ (λ e. cc) (λ e. cc) v

record_success-Inv :
    (env : Env) (cmd : CompleteCommand) (g : Aggregate) (a : Attempt)
    → Owned g cmd.attempt_id cmd.execution_epoch a
    → Inv g
    → Inv (stored g (record_success env cmd a g))
unfolding record_success
record_success-Inv env cmd g a o v =
    end-Inv (lease_of g) cmd.attempt_id a _ Status.succeeded _ _ o.active o.found o.job_running
      (λ e. cc) refl (λ e. cc) v

complete_owned-Inv :
    (url_parse : UrlParser) (env : Env) (cmd : CompleteCommand) (g : Aggregate) (a : Attempt)
    → Owned g cmd.attempt_id cmd.execution_epoch a
    → Inv g
    → Inv (stored g (complete_owned url_parse env cmd a g))
complete_owned-Inv url_parse env cmd g a o v = elim (complete_owned_cases url_parse env cmd g a) [
  | inl same ↦ rw same v
  | inr e ↦ rw e (record_success-Inv env cmd g a o v)
]

pub complete-Inv :
    (url_parse : UrlParser) (env : Env) (cmd : CompleteCommand) (g : Aggregate)
    → Inv g
    → Inv (stored g (complete url_parse env cmd g))
unfolding complete
complete-Inv url_parse env cmd g v = go (replay_of cmd (lookup cmd.attempt_id g.attempts))
  where
    go : (r : Replay) → Inv (stored g (complete_replay url_parse env cmd r g))
    go conflict = v
    go (replayed r) = v
    go first_time =
        as_owner_cases Inv g cmd.attempt_id cmd.execution_epoch _ v
          λ a o. complete_owned-Inv url_parse env cmd g a o v

retry_or_fail-Inv :
    (env : Env) (cmd : FailCommand) (g : Aggregate) (k : String) (a b : Attempt)
    → g.job.active_attempt_id ≡ k
    → lookup k g.attempts ≡ some a
    → g.job.status ≡ Status.running
    → b.status ≢ AttemptStatus.running
    → b.id ≡ a.id
    → Inv g
    → Inv (retry_or_fail env cmd (record g { attempts = insert k b g.attempts }))
unfolding retry_or_fail
retry_or_fail-Inv env cmd g k a b e f r dead same v =
    if_cases Inv (cmd.retryable && ltb g.job.attempt_count g.job.max_attempts)
      (λ _. end-Inv (lease_of g) k a b Status.queued _ _ e f r dead same (λ e. cc) v)
      (λ _. end-Inv (lease_of g) k a b Status.failed _ _ e f r dead same (λ e. cc) v)

record_failure-Inv :
    (env : Env) (cmd : FailCommand) (g : Aggregate) (a : Attempt)
    → Owned g cmd.attempt_id cmd.execution_epoch a
    → Inv g
    → Inv (stored g (record_failure env cmd a g))
unfolding record_failure
record_failure-Inv env cmd g a o v =
    retry_or_fail-Inv env cmd
      (record g {
        job = record g.job { error_code = cmd.error_code; error_message = cmd.error_message };
      })
      cmd.attempt_id a _ o.active o.found o.job_running (λ e. cc) refl v

fail-Inv : (env : Env) (cmd : FailCommand) (g : Aggregate) → Inv g → Inv (stored g (fail env cmd g))
unfolding fail
fail-Inv env cmd g v =
    as_owner_cases Inv g cmd.attempt_id cmd.execution_epoch (record_failure env cmd) v
      λ a o. record_failure-Inv env cmd g a o v

reap_attempt-Inv :
    (env : Env) (g : Aggregate) (a : Attempt)
    → lookup g.job.active_attempt_id g.attempts ≡ some a
    → g.job.status ≡ Status.running
    → Inv g
    → Inv (reap_attempt env a g)
unfolding reap_attempt
reap_attempt-Inv env g a f r v =
    if_cases Inv (ltb g.job.attempt_count g.job.max_attempts)
      (λ _.
        end-Inv (lease_of g) g.job.active_attempt_id a _ Status.queued _ _ refl f r (λ e. cc) refl
          (λ e. cc) v)
      (λ _.
        end-Inv (lease_of g) g.job.active_attempt_id a _ Status.failed _ _ refl f r (λ e. cc) refl
          (λ e. cc) v)

reap-Inv : (env : Env) (g : Aggregate) → Inv g → Inv (stored g (reap env g))
unfolding reap
reap-Inv env g v = elim (reap_found_cases env g (lookup g.job.active_attempt_id g.attempts)) [
  | inl same ↦ rw same v
  | inr (a, f, r, _, e) ↦ rw e (reap_attempt-Inv env g a f r v)
]

transition-Inv :
    (env : Env) (t : Target) (payload : ValueMap) (g : Aggregate)
    → Inv g
    → Inv (stored g (transition env t payload g))
transition-Inv env t payload g v = elim (transition_cases env t payload g) [
  | inl same ↦ rw same v
  | inr (_, _, e) ↦ rw e (move_to-Inv env t payload g v)
]

transition_keyed-Inv :
    (env : Env) (t : Target) (key : String) (g : Aggregate)
    → Inv g
    → Inv (stored g (transition_keyed env t key g))
transition_keyed-Inv env t key g v = elim (transition_keyed_cases env t key g) [
  | inl same ↦ subst LeaseInv (sym same) v
  | inr e ↦ rw e (transition-Inv env t (key_payload key) g v)
]

resume-Inv : (env : Env) (g : Aggregate) → Inv g → Inv (stored g (resume env g))
resume-Inv env g v = elim (resume_cases env g) [
  | inl same ↦ rw same v
  | inr (p, e) ↦ rw e (requeue_paused-Inv env g p v)
]

-- Every call of the lifecycle, accepted or refused, keeps the invariant of the stored aggregate:
-- the run's status is the job's, the attempts are within the limit, a running job has exactly one
-- live attempt, the active one, at the job's epoch, and a job that is not running has none.
pub step-Inv :
    (url_parse : UrlParser) (g : Aggregate) (c : Env × Call) → Inv g → Inv (step url_parse g c)
unfolding step pause cancel
step-Inv url_parse g (env, claims cmd) v = claim-Inv env cmd g v
step-Inv url_parse g (env, heartbeats cmd) v = heartbeat-Inv env cmd g v
step-Inv url_parse g (env, reports cmd) v = progress-Inv env cmd g v
step-Inv url_parse g (env, pauses) v = transition-Inv env to_paused [] g v
step-Inv url_parse g (env, cancels) v = transition-Inv env to_cancelled [] g v
step-Inv url_parse g (env, resumes) v = resume-Inv env g v
step-Inv url_parse g (env, reaps) v = reap-Inv env g v
step-Inv url_parse g (env, cancels_keyed key) v = transition_keyed-Inv env to_cancelled key g v
step-Inv url_parse g (env, completes cmd) v = complete-Inv url_parse env cmd g v
step-Inv url_parse g (env, fails cmd) v = fail-Inv env cmd g v

pub run_calls-Inv :
    (url_parse : UrlParser) (g : Aggregate) (cs : List (Env × Call))
    → Inv g
    → Inv (run_calls url_parse g cs)
unfolding run_calls
run_calls-Inv url_parse g [] v = v
run_calls-Inv url_parse g (c ∷ cs) v =
    run_calls-Inv url_parse (step url_parse g c) cs (step-Inv url_parse g c v)
