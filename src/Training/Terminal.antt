-- ===== src/Training/Terminal.antt =====
-- A job that succeeded, failed or was cancelled is final.
use fgvcplateform_public.Base.{
  ℕ, String, ◌≡◌, refl, sym, ap, ◌∙◌, inl, inr, Bool, true, false, List, [], ◌∷◌, arith,
  if◌then◌else◌, if_cases,
}
use fgvcplateform_public.Base.Assoc.{lookup}
use fgvcplateform_public.Base.Value.{ValueMap}
use fgvcplateform_public.Training.Types.{
  Status, terminal, is_cancelled, Result, Attempt, Job, Aggregate, Closure, Env,
}
use fgvcplateform_public.Training.Claims.{
  ClaimCommand, claim, renew_lease, heartbeat, current_attempt, as_owner,
}
use fgvcplateform_public.Training.Metrics.{progress}
use fgvcplateform_public.Training.Control.{
  Target, to_paused, to_cancelled, transition, pause, cancel, key_payload, transition_keyed, resume,
  has_operation, noted,
}
use fgvcplateform_public.Training.Completion.{
  CompleteCommand, UrlParser, complete, complete_owned, complete_replay, replay_of, Replay,
  conflict, replayed, first_time,
}
use fgvcplateform_public.Training.Failure.{fail, record_failure, reap}
use fgvcplateform_public.Training.Steps.{
  Call, claims, heartbeats, reports, pauses, cancels, resumes, reaps, cancels_keyed, completes,
  fails, stored, step, run_calls,
}
use fgvcplateform_public.Training.Ownership.{as_owner_cases}
use fgvcplateform_public.Training.Cases.{
  claim_cases, reap_found_cases, transition_cases, resume_cases,
}

-- Nothing but the audit trail differs.
pub record SameButEvents (g : Aggregate) (c : Aggregate) : Type 0 where
  pub job : c.job ≡ g.job
  pub run : c.run ≡ g.run
  pub attempts : c.attempts ≡ g.attempts
  pub outbox : c.outbox ≡ g.outbox
  pub artifacts : c.artifacts ≡ g.artifacts
  pub metrics : c.metrics ≡ g.metrics

same : (g : Aggregate) → SameButEvents g g
same g = record {
  job = refl;
  run = refl;
  attempts = refl;
  outbox = refl;
  artifacts = refl;
  metrics = refl;
}

module _ (g : Aggregate) (final : terminal g.job.status ≡ true) where
  refused_owner :
      {A : Type 0} (id : String) (epoch : ℕ) (body : Attempt → Closure A)
      → SameButEvents g (stored g (as_owner (current_attempt g id epoch) body g))
  refused_owner id epoch body =
      as_owner_cases (SameButEvents g) g id epoch body (same g)
        λ a o. absurd (false_at (ap terminal (sym o.job_running) ∙ final))
    where
      false_at : ◌≡◌ {A = Bool} false true → ⊥
      false_at e = cc

  refused_transition :
      (env : Env) (t : Target) (payload : ValueMap)
      → SameButEvents g (stored g (transition env t payload g))
  refused_transition env t payload = elim (transition_cases env t payload g) [
    | inl e ↦ rw e (same g)
    | inr (live, _, _) ↦ absurd (both g.job.status final live)
  ]
    where
      both : (s : Status) → terminal s ≡ true → terminal s ≡ false → ⊥
      both s h k = cc

  refused_claim : (env : Env) (cmd : ClaimCommand) → SameButEvents g (stored g (claim env cmd g))
  refused_claim env cmd = elim (claim_cases env cmd g) [
    | inl e ↦ rw e (same g)
    | inr (q, _, _) ↦ ground arith
  ]

  refused_reap : (env : Env) → SameButEvents g (stored g (reap env g))
  unfolding reap
  refused_reap env = elim (reap_found_cases env g (lookup g.job.active_attempt_id g.attempts)) [
    | inl e ↦ rw e (same g)
    | inr (_, _, r, _, _) ↦ ground arith
  ]

  refused_resume : (env : Env) → SameButEvents g (stored g (resume env g))
  refused_resume env = elim (resume_cases env g) [
    | inl e ↦ rw e (same g)
    | inr (p, _) ↦ ground arith
  ]

  noted_keyed :
      (env : Env) (t : Target) (key : String)
      → SameButEvents g (stored g (transition_keyed env t key g))
  unfolding transition_keyed noted
  noted_keyed env t key =
      let P : Result (Unit {0}) × Aggregate → Type 0 = λ r. SameButEvents g (stored g r) in
      if_cases P (has_operation key g.events)
        {y = if is_cancelled g.job.status
          then noted env key g
          else transition env t (key_payload key) g}
        (λ _. same g)
        λ _.
          if_cases P (is_cancelled g.job.status) {x = noted env key g}
            {y = transition env t (key_payload key) g}
            (λ _. record {
              job = refl;
              run = refl;
              attempts = refl;
              outbox = refl;
              artifacts = refl;
              metrics = refl;
            })
            (λ _. refused_transition env t (key_payload key))

  replayed_complete :
      (url_parse : UrlParser) (env : Env) (cmd : CompleteCommand)
      → SameButEvents g (stored g (complete url_parse env cmd g))
  unfolding complete
  replayed_complete url_parse env cmd = go (replay_of cmd (lookup cmd.attempt_id g.attempts))
    where
      go : (r : Replay) → SameButEvents g (stored g (complete_replay url_parse env cmd r g))
      go conflict = same g
      go (replayed r) = same g
      go first_time =
          refused_owner cmd.attempt_id cmd.execution_epoch (complete_owned url_parse env cmd)

-- On a terminal job every call leaves the job, the run, the attempts, the outbox, the artifacts
-- and the metrics as they are; only an audit event may be added.
pub step-terminal :
    (url_parse : UrlParser) (g : Aggregate) (c : Env × Call)
    → terminal g.job.status ≡ true
    → SameButEvents g (step url_parse g c)
unfolding step pause cancel heartbeat progress fail
step-terminal url_parse g (env, claims cmd) h = refused_claim g h env cmd
step-terminal url_parse g (env, heartbeats cmd) h =
    refused_owner g h cmd.attempt_id cmd.execution_epoch (renew_lease env cmd.attempt_id)
step-terminal url_parse g (env, reports cmd) h =
    refused_owner g h cmd.attempt_id cmd.execution_epoch _
step-terminal url_parse g (env, pauses) h = refused_transition g h env to_paused []
step-terminal url_parse g (env, cancels) h = refused_transition g h env to_cancelled []
step-terminal url_parse g (env, resumes) h = refused_resume g h env
step-terminal url_parse g (env, reaps) h = refused_reap g h env
step-terminal url_parse g (env, cancels_keyed key) h = noted_keyed g h env to_cancelled key
step-terminal url_parse g (env, completes cmd) h = replayed_complete g h url_parse env cmd
step-terminal url_parse g (env, fails cmd) h =
    refused_owner g h cmd.attempt_id cmd.execution_epoch (record_failure env cmd)

-- A job in a terminal status stays the same through any sequence of calls, with its run, attempts,
-- artifacts, metrics and outbox: only its audit events may differ.
pub run_calls-terminal :
    (url_parse : UrlParser) (g : Aggregate) (cs : List (Env × Call))
    → terminal g.job.status ≡ true
    → SameButEvents g (run_calls url_parse g cs)
unfolding run_calls
run_calls-terminal url_parse g [] h = same g
run_calls-terminal url_parse g (c ∷ cs) h =
    let a = step-terminal url_parse g c h in
    let b =
      run_calls-terminal url_parse (step url_parse g c) cs
        (ap (λ (j : Job). terminal j.status) a.job ∙ h) in
    record {
      job = b.job ∙ a.job;
      run = b.run ∙ a.run;
      attempts = b.attempts ∙ a.attempts;
      outbox = b.outbox ∙ a.outbox;
      artifacts = b.artifacts ∙ a.artifacts;
      metrics = b.metrics ∙ a.metrics;
    }
