-- ===== src/Training/Graph.antt =====
-- Which status may follow which, and that the three terminal ones are final.
use fgvcplateform_public.Base.{
  ℕ, String, ◌≡◌, refl, sym, ap, subst, inl, inr, ◌⊎◌, false, not, ◌&&◌, [], ltb, if_cases,
}
use fgvcplateform_public.Base.Assoc.{lookup}
use fgvcplateform_public.Base.Value.{ValueMap}
use fgvcplateform_public.Training.Types.{
  Status, is_queued, is_running, terminal, Result, ok, err, Attempt, Aggregate, Closure, Env,
}
use fgvcplateform_public.Training.Claims.{
  ClaimCommand, claim, take_lease, renew_lease, heartbeat, current_attempt, as_owner,
}
use fgvcplateform_public.Training.Metrics.{ProgressCommand, progress, add_points, touch}
use fgvcplateform_public.Training.Control.{
  Target, target_status, is_pause, to_paused, to_cancelled, move_to, transition, pause, cancel,
  key_payload, transition_keyed, resume, requeue_paused,
}
use fgvcplateform_public.Training.Completion.{
  CompleteCommand, UrlParser, complete, complete_owned, complete_replay, replay_of, record_success,
  Replay, conflict, replayed, first_time,
}
use fgvcplateform_public.Training.Failure.{FailCommand, fail, record_failure, reap, reap_attempt}
use fgvcplateform_public.Training.Steps.{
  Call, claims, heartbeats, reports, pauses, cancels, resumes, reaps, cancels_keyed, completes,
  fails, stored, step,
}
use fgvcplateform_public.Training.Ownership.{as_owner_cases, lease_of, Lease}
use fgvcplateform_public.Training.Cases.{
  claim_cases, complete_owned_cases, reap_found_cases, transition_cases, transition_keyed_cases,
  resume_cases,
}
use fgvcplateform_public.Training.Invariant.{lease_of-add_points}

-- The transition diagram of a job.
pub data Edge : Status → Status → Type 0 where
  start : Edge Status.queued Status.running
  hold : Edge Status.queued Status.paused
  interrupt : Edge Status.running Status.paused
  continue : Edge Status.paused Status.queued
  retry : Edge Status.running Status.queued
  finish : Edge Status.running Status.succeeded
  give_up : Edge Status.running Status.failed
  drop_queued : Edge Status.queued Status.cancelled
  drop_running : Edge Status.running Status.cancelled
  drop_paused : Edge Status.paused Status.cancelled

-- What a call may do to the status.
abbrev Moves : Status → Aggregate → Type 0
Moves s c = (c.job.status ≡ s) ⊎ Edge s c.job.status

leave : {s t u : Status} → s ≡ t → Edge t u → Edge s u
leave {u = u} e h = subst (λ x. Edge x u) (sym e) h

pause_edge : (s : Status) → not (is_queued s) && not (is_running s) ≡ false → Edge s Status.paused
pause_edge Status.queued h = hold
pause_edge Status.running h = interrupt
pause_edge _ h = cc

cancel_edge : (s : Status) → terminal s ≡ false → Edge s Status.cancelled
cancel_edge Status.queued h = drop_queued
cancel_edge Status.running h = drop_running
cancel_edge Status.paused h = drop_paused
cancel_edge _ h = cc

target_edge :
    (t : Target) (s : Status)
    → terminal s ≡ false
    → is_pause t && not (is_queued s) && not (is_running s) ≡ false
    → Edge s (target_status t)
target_edge to_paused s h k = pause_edge s k
target_edge to_cancelled s h k = cancel_edge s h

transition-Edge :
    (env : Env) (t : Target) (payload : ValueMap) (g : Aggregate)
    → Moves g.job.status (stored g (transition env t payload g))
unfolding move_to
transition-Edge env t payload g = elim (transition_cases env t payload g) [
  | inl same ↦ rw same (inl refl)
  | inr (live, ready, e) ↦ rw e (inr (target_edge t g.job.status live ready))
]

claim-Edge :
    (env : Env) (cmd : ClaimCommand) (g : Aggregate)
    → Moves g.job.status (stored g (claim env cmd g))
unfolding take_lease
claim-Edge env cmd g = elim (claim_cases env cmd g) [
  | inl same ↦ rw same (inl refl)
  | inr (q, _, e) ↦ rw e (inr (leave q start))
]

-- A call of the owner of a running job.
owner-Edge :
    {A : Type 0} (g : Aggregate) (id : String) (epoch : ℕ) (body : Attempt → Closure A)
    → ((a : Attempt) → Moves Status.running (stored g (body a g)) ⊎ (stored g (body a g) ≡ g))
    → Moves g.job.status (stored g (as_owner (current_attempt g id epoch) body g))
owner-Edge g id epoch body h = as_owner_cases (Moves g.job.status) g id epoch body (inl refl) λ a o.
    elim (h a) [
      | inl m ↦ subst (λ s. Moves s (stored g (body a g))) (sym o.job_running) m
      | inr e ↦ rw e (inl refl)
    ]

progress-Edge :
    (env : Env) (cmd : ProgressCommand) (g : Aggregate)
    → Moves g.job.status (stored g (progress env cmd g))
unfolding progress
progress-Edge env cmd g =
    as_owner_cases (Moves g.job.status) g cmd.attempt_id cmd.execution_epoch _ (inl refl) λ a o.
      touched (add_points env cmd cmd.metric_points g)
        (lease_of-add_points env cmd cmd.metric_points g)
  where
    touched :
        (r : Result (Unit {0}) × Aggregate)
        → lease_of r.1 ≡ lease_of g
        → Moves g.job.status (stored g (touch env cmd r))
    touched (err e, c) same = inl refl
    touched (ok u, c) same = inl (ap (λ (l : Lease). l.status) same)

complete-Edge :
    (url_parse : UrlParser) (env : Env) (cmd : CompleteCommand) (g : Aggregate)
    → Moves g.job.status (stored g (complete url_parse env cmd g))
unfolding complete record_success
complete-Edge url_parse env cmd g = go (replay_of cmd (lookup cmd.attempt_id g.attempts))
  where
    go : (r : Replay) → Moves g.job.status (stored g (complete_replay url_parse env cmd r g))
    go conflict = inl refl
    go (replayed r) = inl refl
    go first_time =
        owner-Edge g cmd.attempt_id cmd.execution_epoch (complete_owned url_parse env cmd) λ a.
          elim (complete_owned_cases url_parse env cmd g a) [
            | inl same ↦ inr same
            | inr e ↦ rw e (inl (inr finish))
          ]

fail-Edge :
    (env : Env) (cmd : FailCommand) (g : Aggregate) → Moves g.job.status (stored g (fail env cmd g))
unfolding fail
fail-Edge env cmd g = owner-Edge g cmd.attempt_id cmd.execution_epoch (record_failure env cmd) λ a.
    inl (
      if_cases (Moves Status.running) (cmd.retryable && ltb g.job.attempt_count g.job.max_attempts)
        (λ _. inr retry) (λ _. inr give_up))

reap-Edge : (env : Env) (g : Aggregate) → Moves g.job.status (stored g (reap env g))
unfolding reap reap_attempt
reap-Edge env g = elim (reap_found_cases env g (lookup g.job.active_attempt_id g.attempts)) [
  | inl same ↦ rw same (inl refl)
  | inr (a, f, r, _, e) ↦ rw e (
      if_cases (Moves g.job.status) (ltb g.job.attempt_count g.job.max_attempts)
        (λ _. inr (leave r retry)) (λ _. inr (leave r give_up)))
]

resume-Edge : (env : Env) (g : Aggregate) → Moves g.job.status (stored g (resume env g))
unfolding requeue_paused
resume-Edge env g = elim (resume_cases env g) [
  | inl same ↦ rw same (inl refl)
  | inr (p, e) ↦ rw e (inr (leave p continue))
]

keyed-Edge :
    (env : Env) (key : String) (g : Aggregate)
    → Moves g.job.status (stored g (transition_keyed env to_cancelled key g))
keyed-Edge env key g = elim (transition_keyed_cases env to_cancelled key g) [
  | inl same ↦ inl (ap (λ (l : Lease). l.status) same)
  | inr e ↦ rw e (transition-Edge env to_cancelled (key_payload key) g)
]

-- Every call, accepted or refused, leaves the job's status or moves it along an edge of the
-- diagram, whatever state the aggregate is in.
pub step-Edge :
    (url_parse : UrlParser) (g : Aggregate) (c : Env × Call)
    → ((step url_parse g c).job.status ≡ g.job.status)
      ⊎ Edge g.job.status (step url_parse g c).job.status
unfolding step pause cancel heartbeat
step-Edge url_parse g (env, claims cmd) = claim-Edge env cmd g
step-Edge url_parse g (env, heartbeats cmd) =
    as_owner_cases (Moves g.job.status) g cmd.attempt_id cmd.execution_epoch
      (renew_lease env cmd.attempt_id) (inl refl) (λ a o. inl refl)
step-Edge url_parse g (env, reports cmd) = progress-Edge env cmd g
step-Edge url_parse g (env, pauses) = transition-Edge env to_paused [] g
step-Edge url_parse g (env, cancels) = transition-Edge env to_cancelled [] g
step-Edge url_parse g (env, resumes) = resume-Edge env g
step-Edge url_parse g (env, reaps) = reap-Edge env g
step-Edge url_parse g (env, cancels_keyed key) = keyed-Edge env key g
step-Edge url_parse g (env, completes cmd) = complete-Edge url_parse env cmd g
step-Edge url_parse g (env, fails cmd) = fail-Edge env cmd g
