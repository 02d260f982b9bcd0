-- ===== src/Training/Dispatch.antt =====
-- The outbox: one ready event for each dispatch generation.
use fgvcplateform_public.Base.{
  ℕ, ◌+◌, ◌%◌, ◌^◌, String, ◌≡◌, refl, sym, ap, subst, ◌∙◌, inl, inr, ◌&&◌, List, [], ◌∷◌, ◌++◌,
  arith, if◌then◌else◌, ltb, if_cases, inc64, length, length-append,
}
use fgvcplateform_public.Base.Assoc.{lookup}
use fgvcplateform_public.Base.Value.{ValueMap}
use fgvcplateform_public.Training.Types.{
  Status, is_cancelled, Result, ok, err, Job, OutboxEvent, MetricPoint, Aggregate, Env, ready_event,
}
use fgvcplateform_public.Training.Claims.{ClaimCommand, claim, take_lease, renew_lease, heartbeat}
use fgvcplateform_public.Training.Metrics.{
  ProgressCommand, progress, add_points, touch, bad_metric_point,
}
use fgvcplateform_public.Training.Control.{
  Target, to_paused, to_cancelled, move_to, transition, pause, cancel, key_payload,
  transition_keyed, resume, requeue_paused, has_operation, noted,
}
use fgvcplateform_public.Training.Completion.{
  CompleteCommand, UrlParser, complete, complete_owned, complete_replay, replay_of, record_success,
  Replay, conflict, replayed, first_time,
}
use fgvcplateform_public.Training.Failure.{FailCommand, fail, record_failure, reap, reap_attempt}
use fgvcplateform_public.Training.Steps.{
  Call, claims, heartbeats, reports, pauses, cancels, resumes, reaps, cancels_keyed, completes,
  fails, stored, step, run_calls,
}
use fgvcplateform_public.Training.Ownership.{as_owner_cases}
use fgvcplateform_public.Training.Cases.{
  claim_cases, complete_owned_cases, reap_found_cases, transition_cases, resume_cases,
}

-- What the outbox depends on.
pub record Desk : Type 0 where
  pub job_id : String
  pub outbox : List OutboxEvent
  pub generation : ℕ
  pub status : Status
  pub available_at : ℕ

abbrev pub desk : Aggregate → Desk
desk g = record {
  job_id = g.job.id;
  outbox = g.outbox;
  generation = g.job.dispatch_generation;
  status = g.job.status;
  available_at = g.job.available_at;
}

-- The message to the workers that the job waits under this generation from this time on.
pub record IsReady (id : String) (generation time : ℕ) (e : OutboxEvent) : Type 0 where
  pub event_type : e.event_type ≡ "training.job.ready.v1"
  pub schema_version : e.schema_version ≡ 1
  pub job_id : e.job_id ≡ id
  pub dispatch_generation : e.dispatch_generation ≡ generation
  pub occurred_at : e.occurred_at ≡ time

-- What a call does to the outbox: nothing, or it queues the job under the next generation and
-- appends the one ready event that says so, at the time from which the job is available.
pub data Sends (d : Desk) (e : Desk) : Type 0 where
  silent : e.job_id ≡ d.job_id → e.outbox ≡ d.outbox → e.generation ≡ d.generation → Sends d e
  sent :
      (event : OutboxEvent)
      → e.job_id ≡ d.job_id
      → e.outbox ≡ d.outbox ++ event ∷ []
      → IsReady d.job_id (inc64 d.generation) e.available_at event
      → e.generation ≡ inc64 d.generation
      → e.status ≡ Status.queued
      → Sends d e

abbrev pub Dispatch : Aggregate → Aggregate → Type 0
Dispatch g c = Sends (desk g) (desk c)

pub ready_event-IsReady :
    (m id : String) (generation time : ℕ)
    → IsReady id generation time (ready_event m id generation time)
unfolding ready_event
ready_event-IsReady m id generation time = record {
  event_type = refl;
  schema_version = refl;
  job_id = refl;
  dispatch_generation = refl;
  occurred_at = refl;
}

quiet : (g : Aggregate) → Dispatch g g
quiet g = silent refl refl refl

claim-Dispatch :
    (env : Env) (cmd : ClaimCommand) (g : Aggregate) → Dispatch g (stored g (claim env cmd g))
unfolding take_lease
claim-Dispatch env cmd g = elim (claim_cases env cmd g) [
  | inl same ↦ rw same (quiet g)
  | inr (_, _, e) ↦ rw e (silent refl refl refl)
]

add_points-frame :
    (env : Env) (cmd : ProgressCommand) (ps : List MetricPoint) (g : Aggregate)
    → let c = (add_points env cmd ps g).1 in (c.job ≡ g.job) × (c.outbox ≡ g.outbox)
unfolding add_points
add_points-frame env cmd [] g = (refl, refl)
add_points-frame env cmd (p ∷ ps) g =
    if_cases (λ (r : Result (Unit {0}) × Aggregate). (r.1.job ≡ g.job) × (r.1.outbox ≡ g.outbox))
      (bad_metric_point p) (λ _. (refl, refl)) (λ _. add_points-frame env cmd ps _)

progress-Dispatch :
    (env : Env) (cmd : ProgressCommand) (g : Aggregate) → Dispatch g (stored g (progress env cmd g))
unfolding progress
progress-Dispatch env cmd g =
    as_owner_cases (Dispatch g) g cmd.attempt_id cmd.execution_epoch _ (quiet g) λ a o.
      touched (add_points env cmd cmd.metric_points g)
        (add_points-frame env cmd cmd.metric_points g)
  where
    touched :
        (r : Result (Unit {0}) × Aggregate)
        → (r.1.job ≡ g.job) × (r.1.outbox ≡ g.outbox)
        → Dispatch g (stored g (touch env cmd r))
    touched (err e, c) same = quiet g
    touched (ok u, c) same =
        silent (ap (λ (j : Job). j.id) same.0) same.1
          (ap (λ (j : Job). j.dispatch_generation) same.0)

transition-Dispatch :
    (env : Env) (t : Target) (payload : ValueMap) (g : Aggregate)
    → Dispatch g (stored g (transition env t payload g))
unfolding move_to
transition-Dispatch env t payload g = elim (transition_cases env t payload g) [
  | inl same ↦ rw same (quiet g)
  | inr (_, _, e) ↦ rw e (silent refl refl refl)
]

keyed-Dispatch :
    (env : Env) (key : String) (g : Aggregate)
    → Dispatch g (stored g (transition_keyed env to_cancelled key g))
unfolding transition_keyed noted
keyed-Dispatch env key g =
    let P : Result (Unit {0}) × Aggregate → Type 0 = λ r. Dispatch g (stored g r) in
    let other = transition env to_cancelled (key_payload key) g in
    if_cases P (has_operation key g.events)
      {y = if is_cancelled g.job.status then noted env key g else other} (λ _. quiet g)
      λ _.
        if_cases P (is_cancelled g.job.status) {x = noted env key g} {y = other}
          (λ _. silent refl refl refl)
          (λ _. transition-Dispatch env to_cancelled (key_payload key) g)

resume-Dispatch : (env : Env) (g : Aggregate) → Dispatch g (stored g (resume env g))
unfolding requeue_paused
resume-Dispatch env g = elim (resume_cases env g) [
  | inl same ↦ rw same (quiet g)
  | inr (_, e) ↦ rw e (sent _ refl refl (ready_event-IsReady env.new_id _ _ _) refl refl)
]

complete-Dispatch :
    (url_parse : UrlParser) (env : Env) (cmd : CompleteCommand) (g : Aggregate)
    → Dispatch g (stored g (complete url_parse env cmd g))
unfolding complete record_success
complete-Dispatch url_parse env cmd g = go (replay_of cmd (lookup cmd.attempt_id g.attempts))
  where
    go : (r : Replay) → Dispatch g (stored g (complete_replay url_parse env cmd r g))
    go conflict = quiet g
    go (replayed r) = quiet g
    go first_time =
        as_owner_cases (Dispatch g) g cmd.attempt_id cmd.execution_epoch
          (complete_owned url_parse env cmd) (quiet g)
          λ a o. elim (complete_owned_cases url_parse env cmd g a) [
            | inl same ↦ rw same (quiet g)
            | inr e ↦ rw e (silent refl refl refl)
          ]

fail-Dispatch :
    (env : Env) (cmd : FailCommand) (g : Aggregate) → Dispatch g (stored g (fail env cmd g))
unfolding fail
fail-Dispatch env cmd g =
    as_owner_cases (Dispatch g) g cmd.attempt_id cmd.execution_epoch (record_failure env cmd)
      (quiet g)
      λ a o.
        if_cases (Dispatch g) (cmd.retryable && ltb g.job.attempt_count g.job.max_attempts)
          (λ _. sent _ refl refl (ready_event-IsReady env.new_id _ _ _) refl refl)
          (λ _. silent refl refl refl)

reap-Dispatch : (env : Env) (g : Aggregate) → Dispatch g (stored g (reap env g))
unfolding reap reap_attempt
reap-Dispatch env g = elim (reap_found_cases env g (lookup g.job.active_attempt_id g.attempts)) [
  | inl same ↦ rw same (quiet g)
  | inr (a, _, _, _, e) ↦ rw e (
      if_cases (Dispatch g) (ltb g.job.attempt_count g.job.max_attempts)
        (λ _. sent _ refl refl (ready_event-IsReady env.new_id _ _ _) refl refl)
        (λ _. silent refl refl refl))
]

-- Every call leaves the outbox and the generation alone, or queues the job under the next
-- generation and appends exactly one event, which is of the type training.job.ready.v1 in its
-- version 1 and carries the job's id, that generation and the time from which the job is available.
pub step-Dispatch :
    (url_parse : UrlParser) (g : Aggregate) (c : Env × Call) → Dispatch g (step url_parse g c)
unfolding step pause cancel heartbeat
step-Dispatch url_parse g (env, claims cmd) = claim-Dispatch env cmd g
step-Dispatch url_parse g (env, heartbeats cmd) =
    as_owner_cases (Dispatch g) g cmd.attempt_id cmd.execution_epoch
      (renew_lease env cmd.attempt_id) (quiet g) (λ a o. silent refl refl refl)
step-Dispatch url_parse g (env, reports cmd) = progress-Dispatch env cmd g
step-Dispatch url_parse g (env, pauses) = transition-Dispatch env to_paused [] g
step-Dispatch url_parse g (env, cancels) = transition-Dispatch env to_cancelled [] g
step-Dispatch url_parse g (env, resumes) = resume-Dispatch env g
step-Dispatch url_parse g (env, reaps) = reap-Dispatch env g
step-Dispatch url_parse g (env, cancels_keyed key) = keyed-Dispatch env key g
step-Dispatch url_parse g (env, completes cmd) = complete-Dispatch url_parse env cmd g
step-Dispatch url_parse g (env, fails cmd) = fail-Dispatch env cmd g

-- The events of an outbox are ready events numbered from `k + 1` on, and name the job.
abbrev pub Numbered : String → ℕ → List OutboxEvent → Type 0
Numbered id k [] = Unit
Numbered id k (e ∷ es) =
    (e.event_type ≡ "training.job.ready.v1")
    × (e.schema_version ≡ 1)
    × (e.job_id ≡ id)
    × (e.dispatch_generation ≡ (k + 1) % 2 ^ 64)
    × Numbered id (k + 1) es

pub record OutboxInv (d : Desk) : Type 0 where
  pub numbered : Numbered d.job_id 0 d.outbox
  pub counted : d.generation ≡ length d.outbox % 2 ^ 64

Numbered-append :
    (id : String) (t k gen : ℕ) (es : List OutboxEvent) (e : OutboxEvent)
    → Numbered id k es
    → gen ≡ (k + length es + 1) % 2 ^ 64
    → IsReady id gen t e
    → Numbered id k (es ++ e ∷ [])
Numbered-append id t k gen [] e h n r =
    (r.event_type, r.schema_version, r.job_id, r.dispatch_generation ∙ omega arith, tt)
Numbered-append id t k gen (x ∷ es) e h n r =
    (h.0, h.1, h.2, h.3, Numbered-append id t (k + 1) gen es e h.4 (omega arith) r)

Sends-OutboxInv : (d e : Desk) → Sends d e → OutboxInv d → OutboxInv e
Sends-OutboxInv d e (silent i o n) v = record {
  numbered =
      subst (λ id. Numbered id 0 e.outbox) (sym i) (subst (Numbered d.job_id 0) (sym o) v.numbered);
  counted = n ∙ v.counted ∙ ap (λ (l : List OutboxEvent). length l % 2 ^ 64) (sym o);
}
Sends-OutboxInv d e (sent event i o r n q) v = record {
  numbered =
      subst (λ id. Numbered id 0 e.outbox) (sym i)
        (subst (Numbered d.job_id 0) (sym o) (
          Numbered-append d.job_id e.available_at 0 _ d.outbox event v.numbered
            (omega (arith, v.counted)) r));
  counted =
      omega
        (arith, v.counted, ap (length {A = OutboxEvent}) o, length-append d.outbox (event ∷ []));
}

-- If the outbox of a job holds one ready event for each dispatch generation, it does so after any
-- calls: they are numbered 1, 2, 3, … modulo 2 ^ 64, all name the job, and the last number is the
-- job's current generation.
pub run_calls-OutboxInv :
    (url_parse : UrlParser) (g : Aggregate) (cs : List (Env × Call))
    → OutboxInv (desk g)
    → OutboxInv (desk (run_calls url_parse g cs))
unfolding run_calls
run_calls-OutboxInv url_parse g [] v = v
run_calls-OutboxInv url_parse g (c ∷ cs) v =
    run_calls-OutboxInv url_parse (step url_parse g c) cs
      (Sends-OutboxInv (desk g) _ (step-Dispatch url_parse g c) v)
