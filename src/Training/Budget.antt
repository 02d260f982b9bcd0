-- ===== src/Training/Budget.antt =====
-- The budget of attempts: each granted claim uses one, and nothing else changes the count.
use fgvcplateform_public.Base.{
  ℕ, ◌+◌, ◌≤◌, String, ◌≡◌, refl, ap, inl, inr, ◌&&◌, List, [], ◌∷◌, arith, ltb, if_cases,
}
use fgvcplateform_public.Base.Assoc.{lookup}
use fgvcplateform_public.Base.Value.{ValueMap}
use fgvcplateform_public.Training.Types.{Status, Result, ok, err, Aggregate, Env}
use fgvcplateform_public.Training.Claims.{
  ClaimCommand, ClaimResult, Claim, claimed, claim, take_lease, renew_lease, heartbeat,
}
use fgvcplateform_public.Training.Metrics.{ProgressCommand, progress, add_points, touch}
use fgvcplateform_public.Training.Control.{
  Target, to_paused, to_cancelled, move_to, transition, pause, cancel, key_payload,
  transition_keyed, resume, requeue_paused,
}
use fgvcplateform_public.Training.Completion.{
  CompleteCommand, UrlParser, complete, complete_owned, complete_replay, replay_of, record_success,
  Replay, conflict, replayed, first_time,
}
use fgvcplateform_public.Training.Failure.{FailCommand, fail, record_failure, reap, reap_attempt}
use fgvcplateform_public.Training.Steps.{
  Call, claims, heartbeats, reports, pauses, cancels, resumes, reaps, cancels_keyed, completes,
  fails, stored, step, run_calls,
}
use fgvcplateform_public.Training.Ownership.{as_owner_cases, lease_of, Lease, Inv}
use fgvcplateform_public.Training.Cases.{
  complete_owned_cases, reap_found_cases, transition_cases, transition_keyed_cases, resume_cases,
}
use fgvcplateform_public.Training.Invariant.{run_calls-Inv, lease_of-add_points}
use fgvcplateform_public.Training.Leases.{Claimable, claim-Granted_iff}

abbrev SameBudget : Aggregate → Aggregate → Type 0
SameBudget g c =
    (c.job.attempt_count ≡ g.job.attempt_count) × (c.job.max_attempts ≡ g.job.max_attempts)

by_lease : (g c : Aggregate) → lease_of c ≡ lease_of g → SameBudget g c
by_lease g c e = (ap (λ (l : Lease). l.count) e, ap (λ (l : Lease). l.max) e)

progress-SameBudget :
    (env : Env) (cmd : ProgressCommand) (g : Aggregate)
    → SameBudget g (stored g (progress env cmd g))
unfolding progress
progress-SameBudget env cmd g =
    as_owner_cases (SameBudget g) g cmd.attempt_id cmd.execution_epoch _ (refl, refl)
      λ a o.
        touched (add_points env cmd cmd.metric_points g)
          (lease_of-add_points env cmd cmd.metric_points g)
  where
    touched :
        (r : Result (Unit {0}) × Aggregate)
        → lease_of r.1 ≡ lease_of g
        → SameBudget g (stored g (touch env cmd r))
    touched (err e, c) same = (refl, refl)
    touched (ok u, c) same = by_lease g c same

transition-SameBudget :
    (env : Env) (t : Target) (payload : ValueMap) (g : Aggregate)
    → SameBudget g (stored g (transition env t payload g))
unfolding move_to
transition-SameBudget env t payload g = elim (transition_cases env t payload g) [
  | inl same ↦ rw same (refl, refl)
  | inr (_, _, e) ↦ rw e (refl, refl)
]

keyed-SameBudget :
    (env : Env) (key : String) (g : Aggregate)
    → SameBudget g (stored g (transition_keyed env to_cancelled key g))
keyed-SameBudget env key g = elim (transition_keyed_cases env to_cancelled key g) [
  | inl same ↦ by_lease g (stored g (transition_keyed env to_cancelled key g)) same
  | inr e ↦ rw e (transition-SameBudget env to_cancelled (key_payload key) g)
]

resume-SameBudget : (env : Env) (g : Aggregate) → SameBudget g (stored g (resume env g))
unfolding requeue_paused
resume-SameBudget env g = elim (resume_cases env g) [
  | inl same ↦ rw same (refl, refl)
  | inr (_, e) ↦ rw e (refl, refl)
]

complete-SameBudget :
    (url_parse : UrlParser) (env : Env) (cmd : CompleteCommand) (g : Aggregate)
    → SameBudget g (stored g (complete url_parse env cmd g))
unfolding complete record_success
complete-SameBudget url_parse env cmd g = go (replay_of cmd (lookup cmd.attempt_id g.attempts))
  where
    go : (r : Replay) → SameBudget g (stored g (complete_replay url_parse env cmd r g))
    go conflict = (refl, refl)
    go (replayed r) = (refl, refl)
    go first_time =
        as_owner_cases (SameBudget g) g cmd.attempt_id cmd.execution_epoch
          (complete_owned url_parse env cmd) (refl, refl)
          λ a o. elim (complete_owned_cases url_parse env cmd g a) [
            | inl same ↦ rw same (refl, refl)
            | inr e ↦ rw e (refl, refl)
          ]

fail-SameBudget :
    (env : Env) (cmd : FailCommand) (g : Aggregate) → SameBudget g (stored g (fail env cmd g))
unfolding fail
fail-SameBudget env cmd g =
    as_owner_cases (SameBudget g) g cmd.attempt_id cmd.execution_epoch (record_failure env cmd)
      (refl, refl)
      λ a o.
        if_cases (SameBudget g) (cmd.retryable && ltb g.job.attempt_count g.job.max_attempts)
          (λ _. (refl, refl)) (λ _. (refl, refl))

reap-SameBudget : (env : Env) (g : Aggregate) → SameBudget g (stored g (reap env g))
unfolding reap reap_attempt
reap-SameBudget env g = elim (reap_found_cases env g (lookup g.job.active_attempt_id g.attempts)) [
  | inl same ↦ rw same (refl, refl)
  | inr (a, _, _, _, e) ↦ rw e (
      if_cases (SameBudget g) (ltb g.job.attempt_count g.job.max_attempts) (λ _. (refl, refl))
        (λ _. (refl, refl)))
]

abbrev one_if_claimed : Result ClaimResult → ℕ
one_if_claimed (ok (claimed x)) = 1
one_if_claimed _ = 0

abbrev grants : Aggregate → Env × Call → ℕ
grants g (env, claims cmd) = one_if_claimed (claim env cmd g).0
grants g _ = 0

-- How many claims of a sequence of calls are granted.
unfoldable pub granted : UrlParser → Aggregate → List (Env × Call) → ℕ
granted url_parse g [] = 0
granted url_parse g (c ∷ cs) = grants g c + granted url_parse (step url_parse g c) cs

claim-Spent :
    (env : Env) (cmd : ClaimCommand) (g : Aggregate)
    → ((stored g (claim env cmd g)).job.attempt_count
        ≡ g.job.attempt_count + one_if_claimed (claim env cmd g).0)
      × ((stored g (claim env cmd g)).job.max_attempts ≡ g.job.max_attempts)
unfolding claim take_lease
claim-Spent env cmd g = (ground arith, ground arith)

nothing_spent : {a b c d : ℕ} → (a ≡ b) × (c ≡ d) → (a ≡ b + 0) × (c ≡ d)
nothing_spent s = omega (arith, s)

step-Spent :
    (url_parse : UrlParser) (g : Aggregate) (c : Env × Call)
    → ((step url_parse g c).job.attempt_count ≡ g.job.attempt_count + grants g c)
      × ((step url_parse g c).job.max_attempts ≡ g.job.max_attempts)
unfolding step pause cancel heartbeat renew_lease
step-Spent url_parse g (env, claims cmd) = claim-Spent env cmd g
step-Spent url_parse g (env, heartbeats cmd) = nothing_spent (
    as_owner_cases (SameBudget g) g cmd.attempt_id cmd.execution_epoch
      (renew_lease env cmd.attempt_id) (refl, refl) (λ a o. (refl, refl)))
step-Spent url_parse g (env, reports cmd) = nothing_spent (progress-SameBudget env cmd g)
step-Spent url_parse g (env, pauses) = nothing_spent (transition-SameBudget env to_paused [] g)
step-Spent url_parse g (env, cancels) = nothing_spent (transition-SameBudget env to_cancelled [] g)
step-Spent url_parse g (env, resumes) = nothing_spent (resume-SameBudget env g)
step-Spent url_parse g (env, reaps) = nothing_spent (reap-SameBudget env g)
step-Spent url_parse g (env, cancels_keyed key) = nothing_spent (keyed-SameBudget env key g)
step-Spent url_parse g (env, completes cmd) =
    nothing_spent (complete-SameBudget url_parse env cmd g)
step-Spent url_parse g (env, fails cmd) = nothing_spent (fail-SameBudget env cmd g)

run_calls-Spent :
    (url_parse : UrlParser) (g : Aggregate) (cs : List (Env × Call))
    → ((run_calls url_parse g cs).job.attempt_count ≡ g.job.attempt_count + granted url_parse g cs)
      × ((run_calls url_parse g cs).job.max_attempts ≡ g.job.max_attempts)
unfolding run_calls granted
run_calls-Spent url_parse g [] = omega arith
run_calls-Spent url_parse g (c ∷ cs) =
    omega (arith, step-Spent url_parse g c, run_calls-Spent url_parse (step url_parse g c) cs)

-- Over any calls, the job's attempt count grows by exactly the number of claims that are granted,
-- and with the attempts already used they never exceed the job's limit.
pub granted-bounded :
    (url_parse : UrlParser) (g : Aggregate) (cs : List (Env × Call))
    → Inv g
    → ((run_calls url_parse g cs).job.attempt_count ≡ g.job.attempt_count + granted url_parse g cs)
      × (g.job.attempt_count + granted url_parse g cs ≤ g.job.max_attempts)
granted-bounded url_parse g cs v =
    omega (arith, run_calls-Spent url_parse g cs, (run_calls-Inv url_parse g cs v).count_bounded)

paused_requeued :
    (env env' : Env) (g : Aggregate)
    → g.job.status ≡ Status.running
    → let g' = stored (stored g (pause env g)) (resume env' (stored g (pause env g))) in
      (g'.job.status ≡ Status.queued)
      × (g'.job.attempt_count ≡ g.job.attempt_count)
      × (g'.job.max_attempts ≡ g.job.max_attempts)
unfolding pause transition move_to resume requeue_paused
paused_requeued env env' g r = (ground arith, ground arith, ground arith)

-- A job that is paused during its last attempt and resumed is queued, but no claim of it is ever
-- granted: the interrupted attempt stays counted.
pub pause-resume_exhausted :
    (env env' env'' : Env) (cmd : ClaimCommand) (g : Aggregate)
    → g.job.status ≡ Status.running
    → g.job.attempt_count ≡ g.job.max_attempts
    → let g' = stored (stored g (pause env g)) (resume env' (stored g (pause env g))) in
      (g'.job.status ≡ Status.queued) × ¬ ((x : Claim) × ((claim env'' cmd g').0 ≡ ok (claimed x)))
pause-resume_exhausted env env' env'' cmd g r full =
    let (q, n, m) = paused_requeued env env' g r in
    let g' = stored (stored g (pause env g)) (resume env' (stored g (pause env g))) in
    (
      q,
      λ h.
          let c : Claimable env'' cmd g' = (claim-Granted_iff env'' cmd g').0 h in
          omega (arith, c.attempts_left, n, m, full),
    )
