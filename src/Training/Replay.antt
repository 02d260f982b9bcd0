-- ===== src/Training/Replay.antt =====
-- What a worker gets after its attempt has ended: its writes are fenced, and the completion that
-- succeeded is answered again.
use fgvcplateform_public.Base.{
  ℕ, String, ◌≡◌, ◌≢◌, refl, sym, ap, subst, ◌∙◌, inl, inr, false, Option, none, some, List, arith,
  eq_iff, str_eq, if◌then◌else◌, Bool-cases, is_empty,
}
use fgvcplateform_public.Base.Assoc.{Assoc, lookup, lookup-insert_self}
use fgvcplateform_public.Training.Types.{
  AttemptStatus, Result, ok, err, CompleteResult, Attempt, Aggregate, Closure, Env,
}
use fgvcplateform_public.Training.Claims.{
  HeartbeatCommand, heartbeat, owns, check_owner, current_attempt, as_owner, fenced_error,
}
use fgvcplateform_public.Training.Metrics.{ProgressCommand, progress}
use fgvcplateform_public.Training.Completion.{
  CompleteCommand, UrlParser, complete, complete_owned, complete_replay, replay_of, record_success,
  Replay, conflict, replayed, first_time, conflict_error,
}
use fgvcplateform_public.Training.Failure.{FailCommand, fail}
use fgvcplateform_public.Training.Steps.{Call, stored, run_calls}
use fgvcplateform_public.Training.Ownership.{Owned, current_attempt-Owned, Inv}
use fgvcplateform_public.Training.Fencing.{FreshRun, Ended, run_calls-Ended}
use fgvcplateform_public.Training.Invariant.{complete-Inv}

current_attempt-Ended :
    (g : Aggregate) (id : String) (epoch : ℕ) (a : Attempt)
    → Ended id a g
    → current_attempt g id epoch ≡ err fenced_error
unfolding current_attempt owns
current_attempt-Ended g id epoch a h = rw (h.found, check_owner) (ground (arith, h.dead))

-- A worker whose attempt has ended is fenced for good: after any later calls its heartbeat, its
-- progress and its failure report are refused, whatever epoch they name, and change nothing.
pub stale_worker-fenced :
    (url_parse : UrlParser) (g : Aggregate) (cs : List (Env × Call)) (id : String) (a : Attempt)
    (env : Env) (hc : HeartbeatCommand) (pc : ProgressCommand) (fc : FailCommand)
    → Inv g
    → FreshRun url_parse g cs
    → Ended id a g
    → hc.attempt_id ≡ id
    → pc.attempt_id ≡ id
    → fc.attempt_id ≡ id
    → let g' = run_calls url_parse g cs in
      (heartbeat env hc g' ≡ (err fenced_error, g'))
      × (progress env pc g' ≡ (err fenced_error, g'))
      × (fail env fc g' ≡ (err fenced_error, g'))
unfolding heartbeat progress fail
stale_worker-fenced url_parse g cs id a env hc pc fc v new h eh ep ef =
    let g' = run_calls url_parse g cs in
    let fenced : (k : String) (epoch : ℕ) → k ≡ id → current_attempt g' k epoch ≡ err fenced_error =
      λ k epoch e.
        current_attempt-Ended g' k epoch a
          (subst (λ i. Ended i a g') (sym e) (run_calls-Ended url_parse g cs id a v new h)) in
    (
      rw (fenced hc.attempt_id hc.execution_epoch eh) refl,
      rw (fenced pc.attempt_id pc.execution_epoch ep) refl,
      rw (fenced fc.attempt_id fc.execution_epoch ef) refl,
    )

-- The record that a completion leaves on its attempt.
pub record Completed (cmd : CompleteCommand) (r : CompleteResult) (a : Attempt) : Type 0 where
  pub keyed : is_empty cmd.completion_key ≡ false
  pub key : a.completion_key ≡ cmd.completion_key
  pub digest : a.result_digest ≡ cmd.result_digest
  pub succeeded : a.status ≡ AttemptStatus.succeeded
  pub result : a.result ≡ r

replayed-Completed :
    (cmd : CompleteCommand) (o : Option Attempt) (r : CompleteResult)
    → replay_of cmd o ≡ replayed r
    → (a : Attempt) × (o ≡ some a) × Completed cmd r a
unfolding replay_of
replayed-Completed cmd none r h = cc
replayed-Completed cmd (some a) r h = (
  a,
  refl,
  ground
      (arith, eq_iff a.completion_key cmd.completion_key, eq_iff a.result_digest cmd.result_digest),
)

Completed-replayed :
    (cmd : CompleteCommand) (a : Attempt) (r : CompleteResult)
    → Completed cmd r a
    → replay_of cmd (some a) ≡ replayed r
unfolding replay_of
Completed-replayed cmd a r h =
    ground
      (arith, eq_iff a.completion_key cmd.completion_key, eq_iff a.result_digest cmd.result_digest)

Completed-conflict :
    (cmd other : CompleteCommand) (a : Attempt) (r : CompleteResult)
    → Completed cmd r a
    → other.completion_key ≡ cmd.completion_key
    → other.result_digest ≢ cmd.result_digest
    → replay_of other (some a) ≡ conflict
unfolding replay_of
Completed-conflict cmd other a r h e n = ground (
  arith,
  eq_iff a.completion_key other.completion_key,
  eq_iff a.result_digest other.result_digest,
)

-- What passes the checks of an owner has the owner, and the body's outcome.
pub as_owner-ok :
    {A : Type 0} (g : Aggregate) (id : String) (epoch : ℕ) (body : Attempt → Closure A) {x : A}
    → (as_owner (current_attempt g id epoch) body g).0 ≡ ok x
    → (a : Attempt) × Owned g id epoch a × (as_owner (current_attempt g id epoch) body g ≡ body a g)
unfolding as_owner
as_owner-ok {A} g id epoch body {x} h = go (current_attempt g id epoch) refl h
  where
    go :
        (r : Result Attempt)
        → current_attempt g id epoch ≡ r
        → (as_owner r body g).0 ≡ ok x
        → (a : Attempt) × Owned g id epoch a × (as_owner r body g ≡ body a g)
    go (ok a) e h = (a, current_attempt-Owned g id epoch e, refl)
    go (err z) e h = cc

complete_owned-ok :
    (url_parse : UrlParser) (env : Env) (cmd : CompleteCommand) (g : Aggregate) (a : Attempt)
    {r : CompleteResult}
    → (complete_owned url_parse env cmd a g).0 ≡ ok r
    → (is_empty cmd.completion_key ≡ false)
      × (complete_owned url_parse env cmd a g ≡ record_success env cmd a g)
unfolding complete_owned
complete_owned-ok url_parse env cmd g a h = ground arith

-- The attempt under the command's id carries the completion and its result.
abbrev Done : CompleteCommand → CompleteResult → Assoc Attempt → Type 0
Done cmd r m = (a : Attempt) × (lookup cmd.attempt_id m ≡ some a) × Completed cmd r a

record_success-Done :
    (env : Env) (cmd : CompleteCommand) (g : Aggregate) (a : Attempt) {r : CompleteResult}
    → is_empty cmd.completion_key ≡ false
    → (record_success env cmd a g).0 ≡ ok r
    → Done cmd r (stored g (record_success env cmd a g)).attempts
unfolding record_success
record_success-Done env cmd g a k h = (
  _,
  lookup-insert_self cmd.attempt_id _ g.attempts,
  record { keyed = k; key = refl; digest = refl; succeeded = refl; result = ground arith },
)

complete-Done :
    (url_parse : UrlParser) (env : Env) (cmd : CompleteCommand) (g : Aggregate) {r : CompleteResult}
    → (complete url_parse env cmd g).0 ≡ ok r
    → Done cmd r (stored g (complete url_parse env cmd g)).attempts
unfolding complete
complete-Done url_parse env cmd g {r} h =
    go (replay_of cmd (lookup cmd.attempt_id g.attempts)) refl h
  where
    owned :
        (a : Attempt)
        → complete_replay url_parse env cmd first_time g ≡ complete_owned url_parse env cmd a g
        → (complete_replay url_parse env cmd first_time g).0 ≡ ok r
        → Done cmd r (stored g (complete_replay url_parse env cmd first_time g)).attempts
    owned a e h =
        let (k, e') = complete_owned-ok url_parse env cmd g a (rw e at h) in
        let path = e ∙ e' in rw path (record_success-Done env cmd g a k (rw path at h))

    go :
        (p : Replay)
        → replay_of cmd (lookup cmd.attempt_id g.attempts) ≡ p
        → (complete_replay url_parse env cmd p g).0 ≡ ok r
        → Done cmd r (stored g (complete_replay url_parse env cmd p g)).attempts
    go conflict e h = cc
    go (replayed s) e h =
        let (a, f, c) = replayed-Completed cmd (lookup cmd.attempt_id g.attempts) s e in
        (a, f, ground (arith, c.keyed, c.key, c.digest, c.succeeded, c.result))
    go first_time e h =
        let (a, o, same) =
          as_owner-ok g cmd.attempt_id cmd.execution_epoch (complete_owned url_parse env cmd) h in
        owned a same h

complete_of_replay :
    (url_parse : UrlParser) (env : Env) (cmd : CompleteCommand) (g : Aggregate) (a : Attempt)
    (p : Replay)
    → lookup cmd.attempt_id g.attempts ≡ some a
    → replay_of cmd (some a) ≡ p
    → complete url_parse env cmd g ≡ complete_replay url_parse env cmd p g
unfolding complete
complete_of_replay url_parse env cmd g a p f e =
    ap (λ q. complete_replay url_parse env cmd q g) (ap (replay_of cmd) f ∙ e)

-- Complete for an attempt that carries the completion of `cmd`, with the same key.
complete_again :
    (url_parse : UrlParser) (env : Env) (cmd again : CompleteCommand) (g : Aggregate) (a : Attempt)
    (r : CompleteResult)
    → lookup again.attempt_id g.attempts ≡ some a
    → Completed cmd r a
    → again.completion_key ≡ cmd.completion_key
    → complete url_parse env again g
      ≡ (if str_eq again.result_digest cmd.result_digest then ok r else err conflict_error, g)
unfolding complete_replay
complete_again url_parse env cmd again g a r f c ek =
    elim (Bool-cases (str_eq again.result_digest cmd.result_digest)) [
      | inl same ↦ rw same (
          complete_of_replay url_parse env again g a (replayed r) f (
            Completed-replayed again a r (record {
              keyed = ap is_empty ek ∙ c.keyed;
              key = c.key ∙ sym ek;
              digest = c.digest ∙ sym ((eq_iff again.result_digest cmd.result_digest).0 same);
              succeeded = c.succeeded;
              result = c.result;
            })))
      | inr other ↦ rw other (
          complete_of_replay url_parse env again g a conflict f (
            Completed-conflict cmd again a r c ek
              (λ e. ground (arith, eq_iff again.result_digest cmd.result_digest))))
    ]

-- After a Complete that returned a result, and any later calls on the job, a Complete for the same
-- attempt with the same key changes nothing: it returns that very result if the digest is the
-- same, and an idempotency conflict if it is another.
pub complete-replay :
    (url_parse : UrlParser) (env : Env) (cmd : CompleteCommand) (g : Aggregate) {r : CompleteResult}
    (cs : List (Env × Call)) (env' : Env) (again : CompleteCommand)
    → Inv g
    → (complete url_parse env cmd g).0 ≡ ok r
    → FreshRun url_parse (stored g (complete url_parse env cmd g)) cs
    → again.attempt_id ≡ cmd.attempt_id
    → again.completion_key ≡ cmd.completion_key
    → let g' = run_calls url_parse (stored g (complete url_parse env cmd g)) cs in
      complete url_parse env' again g'
      ≡ (if str_eq again.result_digest cmd.result_digest then ok r else err conflict_error, g')
complete-replay url_parse env cmd g {r} cs env' again v h new ei ek =
    let (a, f, c) = complete-Done url_parse env cmd g h in
    let kept =
      run_calls-Ended url_parse (stored g (complete url_parse env cmd g)) cs cmd.attempt_id a
        (complete-Inv url_parse env cmd g v) new
        (record { found = f; dead = λ live. ground (arith, c.succeeded) }) in
    let g' = run_calls url_parse (stored g (complete url_parse env cmd g)) cs in
    complete_again url_parse env' cmd again g' a r (ap (λ i. lookup i g'.attempts) ei ∙ kept.found)
      c ek
