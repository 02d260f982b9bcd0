-- ===== src/Training/Cases.antt =====
-- The branches of each call, as one case lemma: what is stored stays, or the call's edit is stored.
use fgvcplateform_public.Base.{
  ℕ, ◌<◌, String, ◌≡◌, refl, ◌⊎◌, inl, inr, true, false, not, ◌&&◌, Option, none, some, arith,
  Bool-cases,
}
use fgvcplateform_public.Base.Value.{ValueMap}
use fgvcplateform_public.Training.Types.{
  Status, is_queued, is_running, terminal, Attempt, Aggregate, Env,
}
use fgvcplateform_public.Training.Claims.{ClaimCommand, claim, take_lease}
use fgvcplateform_public.Training.Control.{
  Target, move_to, transition, key_payload, is_pause, transition_keyed, resume, requeue_paused,
}
use fgvcplateform_public.Training.Completion.{
  CompleteCommand, UrlParser, complete_owned, record_success,
}
use fgvcplateform_public.Training.Failure.{reap_found, reap_attempt, lease_expired}
use fgvcplateform_public.Training.Steps.{stored}
use fgvcplateform_public.Training.Ownership.{lease_of}

-- A claim changes nothing, or takes a lease on a queued job with attempts left.
pub claim_cases :
    (env : Env) (cmd : ClaimCommand) (g : Aggregate)
    → (stored g (claim env cmd g) ≡ g)
      ⊎ ((g.job.status ≡ Status.queued)
          × (g.job.attempt_count < g.job.max_attempts)
          × (claim env cmd g ≡ take_lease env cmd g))
unfolding claim
claim_cases env cmd g = ground arith

-- Pause and cancel refuse, or move a job that is not terminal; a pause, one queued or running.
pub transition_cases :
    (env : Env) (t : Target) (payload : ValueMap) (g : Aggregate)
    → (stored g (transition env t payload g) ≡ g)
      ⊎ ((terminal g.job.status ≡ false)
          × (is_pause t && not (is_queued g.job.status) && not (is_running g.job.status) ≡ false)
          × (transition env t payload g ≡ move_to env t payload g))
unfolding transition
transition_cases env t payload g = ground arith

-- With a key, what is stored keeps its lease fields, or the transition takes place.
pub transition_keyed_cases :
    (env : Env) (t : Target) (key : String) (g : Aggregate)
    → (lease_of (stored g (transition_keyed env t key g)) ≡ lease_of g)
      ⊎ (transition_keyed env t key g ≡ transition env t (key_payload key) g)
unfolding transition_keyed
transition_keyed_cases env t key g = ground arith

pub resume_cases :
    (env : Env) (g : Aggregate)
    → (stored g (resume env g) ≡ g)
      ⊎ ((g.job.status ≡ Status.paused) × (resume env g ≡ requeue_paused env g))
unfolding resume
resume_cases env g = ground arith

-- Complete keeps what is stored, or records the success.
pub complete_owned_cases :
    (url_parse : UrlParser) (env : Env) (cmd : CompleteCommand) (g : Aggregate) (a : Attempt)
    → (stored g (complete_owned url_parse env cmd a g) ≡ g)
      ⊎ (complete_owned url_parse env cmd a g ≡ record_success env cmd a g)
unfolding complete_owned
complete_owned_cases url_parse env cmd g a = ground arith

lease_expired-true :
    (now : ℕ) (g : Aggregate) (a : Attempt)
    → lease_expired now g a ≡ true
    → (g.job.status ≡ Status.running) × (a.lease_expires_at < now)
unfolding lease_expired
lease_expired-true now g a h = ground arith

-- The reaper lets a job go, or ends its live attempt.
pub reap_found_cases :
    (env : Env) (g : Aggregate) (o : Option Attempt)
    → (stored g (reap_found env o g) ≡ g)
      ⊎ ((a : Attempt) × (o ≡ some a)
          × (g.job.status ≡ Status.running)
          × (a.lease_expires_at < env.now)
          × (stored g (reap_found env o g) ≡ reap_attempt env a g))
unfolding reap_found
reap_found_cases env g none = inl refl
reap_found_cases env g (some a) = elim (Bool-cases (lease_expired env.now g a)) [
  | inl e ↦
      let (r, lt) = lease_expired-true env.now g a e in inr (a, refl, r, lt, rw (e, reap_found))
  | inr e ↦ inl (rw (e, reap_found))
]
