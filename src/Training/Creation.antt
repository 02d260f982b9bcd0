-- ===== src/Training/Creation.antt =====
-- Create: a new job satisfies the invariants, and an operation key creates one job at most.
use fgvcplateform_public.Base.{
  ℕ, String, ◌≡◌, refl, sym, ap, subst, ◌∙◌, true, false, Option, none, some, List, arith, eq_iff,
  str_eq, if◌then◌else◌, is_empty,
}
use fgvcplateform_public.Base.Assoc.{lookup, insert, lookup-insert, lookup-insert_self}
use fgvcplateform_public.Base.Value.{ValueMap}
use fgvcplateform_public.Training.Types.{ok, err, Aggregate, Env, domain_error}
use fgvcplateform_public.Training.Completion.{UrlParser}
use fgvcplateform_public.Training.Steps.{Call, run_calls}
use fgvcplateform_public.Training.Ownership.{Inv}
use fgvcplateform_public.Training.Invariant.{run_calls-Inv}
use fgvcplateform_public.Base.{eq_refl}
use fgvcplateform_public.Base.Value.{Value, str, holds_text, is_text}
use fgvcplateform_public.Training.Types.{idempotency_conflict}
use fgvcplateform_public.Training.Repository.{Repository, create, create_found, get, or_not_found}
use fgvcplateform_public.Training.Service.{
  CreateCommand, CreatedJob, Digests, NewIds, with_default, new_aggregate, created,
  idempotent_created, store_keyed, create_unless, keyed_payload, create_keyed, create_job,
}
use fgvcplateform_public.Training.Dispatch.{OutboxInv, desk, run_calls-OutboxInv}

pub new_aggregate-Inv :
    (now : ℕ) (job_id run_id m : String) (cmd : CreateCommand) (p : ValueMap)
    → Inv (new_aggregate now job_id run_id m cmd p)
unfolding new_aggregate lookup
new_aggregate-Inv now job_id run_id m cmd p = record {
  same_status = refl;
  count_bounded = omega arith;
  keyed = λ id a h. cc;
  owner = λ h. cc;
  only = λ h. cc;
  nobody = λ n id a h. cc;
}

pub new_aggregate-OutboxInv :
    (now : ℕ) (job_id run_id m : String) (cmd : CreateCommand) (p : ValueMap)
    → OutboxInv (desk (new_aggregate now job_id run_id m cmd p))
unfolding new_aggregate
new_aggregate-OutboxInv now job_id run_id m cmd p = record {
  numbered = (refl, refl, refl, refl, tt);
  counted = refl;
}

-- The digest stands in the payload of a keyed job.
keyed_payload-digest :
    (cmd : CreateCommand) (d : String)
    → holds_text (keyed_payload cmd d) "agent_operation_digest" d ≡ true
keyed_payload-digest cmd d = simp (lookup-insert, eq_refl)

-- What a keyed Create leaves in the repository.
pub record Keyed (h : Digests) (key d : String) (r : CreatedJob) (repo : Repository) : Type 0 where
  pub job : Aggregate
  pub found : lookup (h.job_id key) repo ≡ some job
  pub digest : holds_text job.job.payload "agent_operation_digest" d ≡ true
  pub answer : r ≡ created job

idempotent-ok :
    (g : Aggregate) (d : String) (r : CreatedJob)
    → idempotent_created g d ≡ ok r
    → (holds_text g.job.payload "agent_operation_digest" d ≡ true) × (r ≡ created g)
unfolding idempotent_created
idempotent-ok g d r e = (ground arith, ground arith)

store_new :
    (g : Aggregate) (d : String) (repo : Repository)
    → lookup g.job.id repo ≡ none
    → store_keyed g d (create g repo) ≡ (ok (created g), insert g.job.id g repo)
unfolding create
store_new g d repo f = ap (λ o. store_keyed g d (create_found g repo o)) f

new-Keyed :
    (h : Digests) (key d : String) (g : Aggregate) (r : CreatedJob) (repo : Repository)
    → g.job.id ≡ h.job_id key
    → holds_text g.job.payload "agent_operation_digest" d ≡ true
    → lookup g.job.id repo ≡ none
    → (store_keyed g d (create g repo)).0 ≡ ok r
    → Keyed h key d r (store_keyed g d (create g repo)).1
new-Keyed h key d g r repo i holds f e = rw (store_new g d repo f) (record {
  job = g;
  found = ap (λ k. lookup k (insert g.job.id g repo)) (sym i) ∙ lookup-insert_self g.job.id g repo;
  digest = holds;
  answer = ground (arith, rw (store_new g d repo f) at e);
})

create_keyed-Keyed :
    (h : Digests) (env : Env) (ids : NewIds) (cmd : CreateCommand) (repo : Repository) (d : String)
    (r : CreatedJob)
    → (create_keyed h env ids cmd repo (some d)).0 ≡ ok r
    → Keyed h cmd.operation_key d r (create_keyed h env ids cmd repo (some d)).1
unfolding create_keyed get create new_aggregate
create_keyed-Keyed h env ids cmd repo d r e = go (lookup (h.job_id cmd.operation_key) repo) refl e
  where
    g : Aggregate
    g =
        new_aggregate env.now (h.job_id cmd.operation_key) (h.run_id cmd.operation_key) ids.message
          cmd (keyed_payload cmd d)

    go :
        (o : Option Aggregate)
        → lookup (h.job_id cmd.operation_key) repo ≡ o
        → (create_unless g d repo (or_not_found o)).0 ≡ ok r
        → Keyed h cmd.operation_key d r (create_unless g d repo (or_not_found o)).1
    go (some x) f e =
        let (a, b) = idempotent-ok x d r e in record { job = x; found = f; digest = a; answer = b }
    go none f e = new-Keyed h cmd.operation_key d g r repo refl (keyed_payload-digest cmd d) f e

same_digest :
    (p : ValueMap) (key d d' : String)
    → holds_text p key d ≡ true
    → holds_text p key d' ≡ str_eq d d'
same_digest p key d d' e = go (lookup key p) e
  where
    go : (o : Option Value) → is_text o d ≡ true → is_text o d' ≡ str_eq d d'
    go (some (str t)) e = ap (λ s. str_eq s d') ((eq_iff t d).0 e)
    go (some Value.null) e = cc
    go (some (Value.flag b)) e = cc
    go (some (Value.number n)) e = cc
    go (some (Value.array xs)) e = cc
    go (some (Value.object xs)) e = cc
    go none e = cc

-- What Create needs of a command to go on to its operation key.
pub record IsKeyed (h : Digests) (cmd : CreateCommand) (d : String) : Type 0 where
  pub dataset : is_empty cmd.dataset_id ≡ false
  pub version : is_empty cmd.dataset_version_id ≡ false
  pub backbone : is_empty cmd.backbone_id ≡ false
  pub key : is_empty cmd.operation_key ≡ false
  pub digest : h.command (with_default cmd) ≡ some d

create_job_of_IsKeyed :
    (h : Digests) (env : Env) (ids : NewIds) (cmd : CreateCommand) (d : String) (repo : Repository)
    → IsKeyed h cmd d
    → create_job h env ids cmd repo ≡ create_keyed h env ids cmd repo (some d)
unfolding create_job
create_job_of_IsKeyed h env ids cmd d repo k =
    rw (k.dataset, k.version, k.backbone, k.key, k.digest) refl

create_keyed_again :
    (h : Digests) (env : Env) (ids : NewIds) (cmd : CreateCommand) (d d' : String) (r : CreatedJob)
    (repo : Repository)
    → Keyed h cmd.operation_key d r repo
    → create_keyed h env ids cmd repo (some d') ≡ (
      (if str_eq d d'
          then ok r
          else err (
              domain_error idempotency_conflict
                "operation key already used for different training parameters")),
      repo,
    )
unfolding create_keyed get idempotent_created
create_keyed_again h env ids cmd d d' r repo k =
    ap (λ o. create_unless g d' repo (or_not_found o)) k.found
    ∙ rw (same_digest k.job.job.payload "agent_operation_digest" d d' k.digest, k.answer) refl
  where
    g : Aggregate
    g =
        new_aggregate env.now (h.job_id cmd.operation_key) (h.run_id cmd.operation_key) ids.message
          cmd (keyed_payload cmd d')

-- A second Create under the same operation key stores nothing: it returns the job that the first
-- one returned if the commands have the same digest, and an idempotency conflict otherwise.
pub create_job-again :
    (h : Digests) (env env' : Env) (ids ids' : NewIds) (cmd cmd' : CreateCommand) (d d' : String)
    (repo : Repository) {r : CreatedJob}
    → IsKeyed h cmd d
    → IsKeyed h cmd' d'
    → cmd'.operation_key ≡ cmd.operation_key
    → (create_job h env ids cmd repo).0 ≡ ok r
    → let repo' = (create_job h env ids cmd repo).1 in
      create_job h env' ids' cmd' repo' ≡ (
        (if str_eq d d'
            then ok r
            else err (
                domain_error idempotency_conflict
                  "operation key already used for different training parameters")),
        repo',
      )
create_job-again h env env' ids ids' cmd cmd' d d' repo {r} k k' same e =
    let first = create_job_of_IsKeyed h env ids cmd d repo k in
    let repo' = (create_job h env ids cmd repo).1 in
    let kept : Keyed h cmd.operation_key d r repo' =
      rw first (create_keyed-Keyed h env ids cmd repo d r (rw first at e)) in
    create_job_of_IsKeyed h env' ids' cmd' d' repo' k'
    ∙ create_keyed_again h env' ids' cmd' d d' r repo'
        (subst (λ key. Keyed h key d r repo') (sym same) kept)

-- A job as Create makes it satisfies the lease invariant and the outbox invariant after any
-- sequence of calls, accepted or refused, in any order.
pub new_job-calls :
    (now : ℕ) (job_id run_id m : String) (cmd : CreateCommand) (p : ValueMap)
    (url_parse : UrlParser) (cs : List (Env × Call))
    → let g = run_calls url_parse (new_aggregate now job_id run_id m cmd p) cs in
      Inv g × OutboxInv (desk g)
new_job-calls now job_id run_id m cmd p url_parse cs =
    let g = new_aggregate now job_id run_id m cmd p in
    (
      run_calls-Inv url_parse g cs (new_aggregate-Inv now job_id run_id m cmd p),
      run_calls-OutboxInv url_parse g cs (new_aggregate-OutboxInv now job_id run_id m cmd p),
    )
