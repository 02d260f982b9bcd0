-- ===== src/Training/Steps.antt =====
-- The calls of the lifecycle on one job, as steps: what `Repository.Update` leaves stored after each.
use fgvcplateform_public.Base.{String, List, [], ◌∷◌}
use fgvcplateform_public.Training.Types.{Result, ok, err, Aggregate, Env}
use fgvcplateform_public.Training.Claims.{ClaimCommand, HeartbeatCommand, claim, heartbeat}
use fgvcplateform_public.Training.Metrics.{ProgressCommand, progress}
use fgvcplateform_public.Training.Control.{to_cancelled, pause, cancel, transition_keyed, resume}
use fgvcplateform_public.Training.Completion.{CompleteCommand, UrlParser, complete}
use fgvcplateform_public.Training.Failure.{FailCommand, fail, reap}

pub data Call : Type 0 where
  claims : ClaimCommand → Call
  heartbeats : HeartbeatCommand → Call
  reports : ProgressCommand → Call
  pauses cancels resumes reaps : Call
  cancels_keyed : String → Call
  completes : CompleteCommand → Call
  fails : FailCommand → Call

-- An error leaves the stored aggregate; otherwise the candidate takes its place.
abbrev pub stored {ℓ} : {A : Type ℓ} → Aggregate → Result A × Aggregate → Aggregate
stored g (ok a, candidate) = candidate
stored g (err e, candidate) = g

unfoldable pub step : UrlParser → Aggregate → Env × Call → Aggregate
step url_parse g (env, claims cmd) = stored g (claim env cmd g)
step url_parse g (env, heartbeats cmd) = stored g (heartbeat env cmd g)
step url_parse g (env, reports cmd) = stored g (progress env cmd g)
step url_parse g (env, pauses) = stored g (pause env g)
step url_parse g (env, cancels) = stored g (cancel env g)
step url_parse g (env, resumes) = stored g (resume env g)
step url_parse g (env, reaps) = stored g (reap env g)
step url_parse g (env, cancels_keyed key) = stored g (transition_keyed env to_cancelled key g)
step url_parse g (env, completes cmd) = stored g (complete url_parse env cmd g)
step url_parse g (env, fails cmd) = stored g (fail env cmd g)

unfoldable pub run_calls : UrlParser → Aggregate → List (Env × Call) → Aggregate
run_calls url_parse g [] = g
run_calls url_parse g (c ∷ cs) = run_calls url_parse (step url_parse g c) cs
