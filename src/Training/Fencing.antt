-- ===== src/Training/Fencing.antt =====
-- A finished attempt is never touched again, so a worker that lost its attempt stays fenced and a
-- completed attempt keeps its answer.
use fgvcplateform_public.Base.{
  ℕ, String, ◌≡◌, refl, sym, subst, inl, inr, ◌&&◌, Option, none, some, List, [], ◌∷◌, arith,
  eq_iff, ltb, if_cases,
}
use fgvcplateform_public.Base.Assoc.{Assoc, lookup, insert, lookup-insert}
use fgvcplateform_public.Base.Value.{ValueMap}
use fgvcplateform_public.Training.Types.{AttemptStatus, Result, ok, err, Attempt, Aggregate, Env}
use fgvcplateform_public.Training.Claims.{
  ClaimCommand, HeartbeatCommand, claim, take_lease, heartbeat,
}
use fgvcplateform_public.Training.Metrics.{ProgressCommand, progress, add_points, touch}
use fgvcplateform_public.Training.Control.{
  Target, stopped_attempt, to_paused, to_cancelled, stop_attempt, move_to, transition, pause,
  cancel, key_payload, transition_keyed, resume, requeue_paused,
}
use fgvcplateform_public.Training.Completion.{
  CompleteCommand, UrlParser, complete, complete_owned, complete_replay, replay_of, record_success,
  Replay, conflict, replayed, first_time,
}
use fgvcplateform_public.Training.Failure.{FailCommand, fail, reap, reap_attempt}
use fgvcplateform_public.Training.Steps.{
  Call, claims, heartbeats, reports, pauses, cancels, resumes, reaps, cancels_keyed, completes,
  fails, stored, step, run_calls,
}
use fgvcplateform_public.Training.Ownership.{Owned, as_owner_cases, IsLive, lease_of, Lease, Inv}
use fgvcplateform_public.Training.Cases.{
  claim_cases, complete_owned_cases, reap_found_cases, transition_cases, transition_keyed_cases,
  resume_cases,
}
use fgvcplateform_public.Training.Invariant.{step-Inv, lease_of-add_points}

-- The id that newID draws for the call is no attempt's. (It is drawn from 122 random bits.)
abbrev pub Fresh : Aggregate → Env × Call → Type 0
Fresh g (env, c) = lookup env.new_id g.attempts ≡ none

abbrev pub FreshRun : UrlParser → Aggregate → List (Env × Call) → Type 0
FreshRun url_parse g [] = Unit
FreshRun url_parse g (c ∷ cs) = Fresh g c × FreshRun url_parse (step url_parse g c) cs

-- The attempt under `id` is `a`, and has ended.
pub record EndedIn (id : String) (a : Attempt) (m : Assoc Attempt) : Type 0 where
  pub found : lookup id m ≡ some a
  pub dead : ¬ IsLive a

abbrev pub Ended : String → Attempt → Aggregate → Type 0
Ended id a g = EndedIn id a g.attempts

module _ (id : String) (a : Attempt) where
  -- An edit of a live attempt, or of none, is an edit of another.
  other_live :
      (m : Assoc Attempt) (k : String) (b v : Attempt)
      → lookup id m ≡ some a
      → ¬ IsLive a
      → lookup k m ≡ some b
      → IsLive b
      → lookup id (insert k v m) ≡ some a
  other_live m k b v f d g l = ground (arith, lookup-insert k id v m, eq_iff k id)

  other_fresh :
      (m : Assoc Attempt) (k : String) (v : Attempt)
      → lookup id m ≡ some a
      → lookup k m ≡ none
      → lookup id (insert k v m) ≡ some a
  other_fresh m k v f g = ground (arith, lookup-insert k id v m, eq_iff k id)

  claim-Ended :
      (env : Env) (cmd : ClaimCommand) (g : Aggregate)
      → lookup env.new_id g.attempts ≡ none
      → Ended id a g
      → Ended id a (stored g (claim env cmd g))
  unfolding take_lease
  claim-Ended env cmd g fresh h = elim (claim_cases env cmd g) [
    | inl same ↦ rw same h
    | inr (_, _, e) ↦
        rw e (record { found = other_fresh g.attempts _ _ h.found fresh; dead = h.dead })
  ]

  -- The calls of an owner edit its own attempt.
  owner-Ended :
      (g : Aggregate) (k : String) (epoch : ℕ) (b v : Attempt)
      → Owned g k epoch b
      → Ended id a g
      → EndedIn id a (insert k v g.attempts)
  owner-Ended g k epoch b v o h = record {
    found = other_live g.attempts k b v h.found h.dead o.found o.attempt_running;
    dead = h.dead;
  }

  stop_attempt-Ended :
      (env : Env) (t : Target) (k : String) (m : Assoc Attempt) (o : Option Attempt)
      → lookup k m ≡ o
      → lookup id m ≡ some a
      → ¬ IsLive a
      → lookup id (stop_attempt env t k o m) ≡ some a
  unfolding stop_attempt
  stop_attempt-Ended env t k m none e f d = f
  stop_attempt-Ended env t k m (some b) e f d = ground (
    arith,
    lookup-insert k id (record b { status = stopped_attempt t; finished_at = env.now }) m,
    eq_iff k id,
  )

  transition-Ended :
      (env : Env) (t : Target) (payload : ValueMap) (g : Aggregate)
      → Ended id a g
      → Ended id a (stored g (transition env t payload g))
  unfolding move_to
  transition-Ended env t payload g h = elim (transition_cases env t payload g) [
    | inl same ↦ rw same h
    | inr (_, _, e) ↦ rw e (record {
      found = stop_attempt-Ended env t g.job.active_attempt_id g.attempts _ refl h.found h.dead;
      dead = h.dead;
    })
  ]

  heartbeat-Ended :
      (env : Env) (cmd : HeartbeatCommand) (g : Aggregate)
      → Ended id a g
      → Ended id a (stored g (heartbeat env cmd g))
  unfolding heartbeat
  heartbeat-Ended env cmd g h =
      as_owner_cases (Ended id a) g cmd.attempt_id cmd.execution_epoch _ h
        λ b o. owner-Ended g cmd.attempt_id cmd.execution_epoch b _ o h

  progress-Ended :
      (env : Env) (cmd : ProgressCommand) (g : Aggregate)
      → Ended id a g
      → Ended id a (stored g (progress env cmd g))
  unfolding progress
  progress-Ended env cmd g h =
      as_owner_cases (Ended id a) g cmd.attempt_id cmd.execution_epoch _ h λ b o.
        touched (add_points env cmd cmd.metric_points g)
          (lease_of-add_points env cmd cmd.metric_points g)
    where
      touched :
          (r : Result (Unit {0}) × Aggregate)
          → lease_of r.1 ≡ lease_of g
          → Ended id a (stored g (touch env cmd r))
      touched (err e, c) same = h
      touched (ok u, c) same = subst (λ (l : Lease). EndedIn id a l.attempts) (sym same) h

  resume-Ended : (env : Env) (g : Aggregate) → Ended id a g → Ended id a (stored g (resume env g))
  unfolding requeue_paused
  resume-Ended env g h = elim (resume_cases env g) [ inl same ↦ rw same h | inr (_, e) ↦ rw e h ]

  cancel_keyed-Ended :
      (env : Env) (key : String) (g : Aggregate)
      → Ended id a g
      → Ended id a (stored g (transition_keyed env to_cancelled key g))
  cancel_keyed-Ended env key g h = elim (transition_keyed_cases env to_cancelled key g) [
    | inl same ↦ subst (λ (l : Lease). EndedIn id a l.attempts) (sym same) h
    | inr e ↦ rw e (transition-Ended env to_cancelled (key_payload key) g h)
  ]

  complete-Ended :
      (url_parse : UrlParser) (env : Env) (cmd : CompleteCommand) (g : Aggregate)
      → Ended id a g
      → Ended id a (stored g (complete url_parse env cmd g))
  unfolding complete record_success
  complete-Ended url_parse env cmd g h = go (replay_of cmd (lookup cmd.attempt_id g.attempts))
    where
      go : (r : Replay) → Ended id a (stored g (complete_replay url_parse env cmd r g))
      go conflict = h
      go (replayed r) = h
      go first_time =
          as_owner_cases (Ended id a) g cmd.attempt_id cmd.execution_epoch
            (complete_owned url_parse env cmd) h
            λ b o. elim (complete_owned_cases url_parse env cmd g b) [
              | inl same ↦ rw same h
              | inr e ↦ rw e (owner-Ended g cmd.attempt_id cmd.execution_epoch b _ o h)
            ]

  fail-Ended :
      (env : Env) (cmd : FailCommand) (g : Aggregate)
      → Ended id a g
      → Ended id a (stored g (fail env cmd g))
  unfolding fail
  fail-Ended env cmd g h =
      as_owner_cases (Ended id a) g cmd.attempt_id cmd.execution_epoch _ h λ b o.
        if_cases (Ended id a) (cmd.retryable && ltb g.job.attempt_count g.job.max_attempts)
          (λ _. owner-Ended g cmd.attempt_id cmd.execution_epoch b _ o h)
          (λ _. owner-Ended g cmd.attempt_id cmd.execution_epoch b _ o h)

  expire : Env → Attempt → Attempt
  expire env b = record b { status = AttemptStatus.expired; finished_at = env.now }

  reap-Ended :
      (env : Env) (g : Aggregate) → Inv g → Ended id a g → Ended id a (stored g (reap env g))
  unfolding reap reap_attempt expire
  reap-Ended env g v h = elim (reap_found_cases env g (lookup g.job.active_attempt_id g.attempts)) [
    | inl same ↦ rw same h
    | inr (b, f, r, _, e) ↦ rw e (
        let live : IsLive b = ground (arith, f, (v.owner r).found, (v.owner r).live) in
        let other : Ended id a
            (record g { attempts = insert g.job.active_attempt_id (expire env b) g.attempts }) =
          record {
            found =
                other_live g.attempts g.job.active_attempt_id b (expire env b) h.found h.dead f
                  live;
            dead = h.dead;
          } in
        if_cases (Ended id a) (ltb g.job.attempt_count g.job.max_attempts) (λ _. other)
          (λ _. other))
  ]

-- A call that is not a claim with the id of an old attempt leaves an ended attempt exactly as it
-- is.
pub step-Ended :
    (url_parse : UrlParser) (g : Aggregate) (c : Env × Call) (id : String) (a : Attempt)
    → Inv g
    → Fresh g c
    → Ended id a g
    → Ended id a (step url_parse g c)
unfolding step pause cancel
step-Ended url_parse g (env, claims cmd) id a v new h = claim-Ended id a env cmd g new h
step-Ended url_parse g (env, heartbeats cmd) id a v new h = heartbeat-Ended id a env cmd g h
step-Ended url_parse g (env, reports cmd) id a v new h = progress-Ended id a env cmd g h
step-Ended url_parse g (env, pauses) id a v new h = transition-Ended id a env to_paused [] g h
step-Ended url_parse g (env, cancels) id a v new h = transition-Ended id a env to_cancelled [] g h
step-Ended url_parse g (env, resumes) id a v new h = resume-Ended id a env g h
step-Ended url_parse g (env, reaps) id a v new h = reap-Ended id a env g v h
step-Ended url_parse g (env, cancels_keyed key) id a v new h = cancel_keyed-Ended id a env key g h
step-Ended url_parse g (env, completes cmd) id a v new h = complete-Ended id a url_parse env cmd g h
step-Ended url_parse g (env, fails cmd) id a v new h = fail-Ended id a env cmd g h

-- Once an attempt has ended, no sequence of calls, with fresh ids, touches any field of it.
pub run_calls-Ended :
    (url_parse : UrlParser) (g : Aggregate) (cs : List (Env × Call)) (id : String) (a : Attempt)
    → Inv g
    → FreshRun url_parse g cs
    → Ended id a g
    → Ended id a (run_calls url_parse g cs)
unfolding run_calls
run_calls-Ended url_parse g [] id a v new h = h
run_calls-Ended url_parse g (c ∷ cs) id a v new h =
    run_calls-Ended url_parse (step url_parse g c) cs id a (step-Inv url_parse g c v) new.1
      (step-Ended url_parse g c id a v new.0 h)
