-- ===== src/Training/Ownership.antt =====
-- Facts about currentAttempt and about the map of attempts, and the invariant of an aggregate.
use fgvcplateform_public.Base.{
  ℕ, ◌≤◌, String, ◌≡◌, ◌≢◌, refl, true, Option, none, some, arith, eq_iff,
}
use fgvcplateform_public.Base.Assoc.{Assoc, lookup, insert, lookup-insert}
use fgvcplateform_public.Training.Types.{
  Status, AttemptStatus, Result, ok, err, Attempt, Aggregate, Closure,
}
use fgvcplateform_public.Training.Claims.{owns, check_owner, current_attempt, as_owner}
use fgvcplateform_public.Training.Steps.{stored}

-- What a worker holds when currentAttempt lets it pass.
pub record Owned (g : Aggregate) (id : String) (epoch : ℕ) (a : Attempt) : Type 0 where
  pub found : lookup id g.attempts ≡ some a
  pub job_running : g.job.status ≡ Status.running
  pub active : g.job.active_attempt_id ≡ id
  pub job_epoch : g.job.execution_epoch ≡ epoch
  pub attempt_epoch : a.execution_epoch ≡ epoch
  pub attempt_running : a.status ≡ AttemptStatus.running

owns-Owned :
    (g : Aggregate) (id : String) (epoch : ℕ) (a : Attempt)
    → lookup id g.attempts ≡ some a
    → owns g id epoch a ≡ true
    → Owned g id epoch a
unfolding owns
owns-Owned g id epoch a f h = ground (arith, eq_iff g.job.active_attempt_id id)

check_owner-Owned :
    (g : Aggregate) (id : String) (epoch : ℕ) (o : Option Attempt) {a : Attempt}
    → lookup id g.attempts ≡ o
    → check_owner g id epoch o ≡ ok a
    → Owned g id epoch a
unfolding check_owner
check_owner-Owned g id epoch none f h = cc
check_owner-Owned g id epoch (some b) {a} f h = ground (arith, owns-Owned g id epoch b f)

pub current_attempt-Owned :
    (g : Aggregate) (id : String) (epoch : ℕ) {a : Attempt}
    → current_attempt g id epoch ≡ ok a
    → Owned g id epoch a
unfolding current_attempt
current_attempt-Owned g id epoch h = check_owner-Owned g id epoch _ refl h

-- The other way: the owner passes.
pub current_attempt_of_Owned :
    (g : Aggregate) (id : String) (epoch : ℕ) (a : Attempt)
    → Owned g id epoch a
    → current_attempt g id epoch ≡ ok a
unfolding current_attempt owns
current_attempt_of_Owned g id epoch a o =
    rw (o.found, check_owner) (ground (arith, eq_iff g.job.active_attempt_id id))

-- To prove of what is stored: that the refusal changes nothing, and the body of an owner.
pub as_owner_cases {ℓ} :
    {A : Type 0} (P : Aggregate → Type ℓ) (g : Aggregate) (id : String) (epoch : ℕ)
    (body : Attempt → Closure A)
    → P g
    → ((a : Attempt) → Owned g id epoch a → P (stored g (body a g)))
    → P (stored g (as_owner (current_attempt g id epoch) body g))
unfolding as_owner
as_owner_cases P g id epoch body refused owned = go (current_attempt g id epoch) refl
  where
    go : (r : Result Attempt) → current_attempt g id epoch ≡ r → P (stored g (as_owner r body g))
    go (ok a) e = owned a (current_attempt-Owned g id epoch e)
    go (err x) e = refused

abbrev pub IsLive : Attempt → Type 0
IsLive a = a.status ≡ AttemptStatus.running

-- No attempt but the one under `k` is running.
abbrev pub OnlyLive : Assoc Attempt → String → Type 0
OnlyLive m k = (id : String) (a : Attempt) → lookup id m ≡ some a → IsLive a → id ≡ k

abbrev pub NoneLive : Assoc Attempt → Type 0
NoneLive m = (id : String) (a : Attempt) → lookup id m ≡ some a → ¬ IsLive a

abbrev pub Keyed : Assoc Attempt → Type 0
Keyed m = (id : String) (a : Attempt) → lookup id m ≡ some a → a.id ≡ id

module _ (m : Assoc Attempt) (k : String) (v : Attempt) where
  pub insert-OnlyLive : OnlyLive m k → OnlyLive (insert k v m) k
  insert-OnlyLive h id a f l = ground (arith, lookup-insert k id v m, eq_iff k id, h id a)

  pub insert-NoneLive-OnlyLive : NoneLive m → OnlyLive (insert k v m) k
  insert-NoneLive-OnlyLive h id a f l = ground (arith, lookup-insert k id v m, eq_iff k id, h id a)

  pub insert-NoneLive : OnlyLive m k → v.status ≢ AttemptStatus.running → NoneLive (insert k v m)
  insert-NoneLive h s id a f l = ground (arith, lookup-insert k id v m, eq_iff k id, h id a)

  pub insert-Keyed : Keyed m → v.id ≡ k → Keyed (insert k v m)
  insert-Keyed h s id a f = ground (arith, lookup-insert k id v m, eq_iff k id, h id a)

-- What the invariant reads of an aggregate; calls that edit other fields keep it at once.
pub record Lease : Type 0 where
  pub status : Status
  pub run_status : Status
  pub count : ℕ
  pub max : ℕ
  pub epoch : ℕ
  pub active : String
  pub attempts : Assoc Attempt

abbrev pub lease_of : Aggregate → Lease
lease_of g = record {
  status = g.job.status;
  run_status = g.run.status;
  count = g.job.attempt_count;
  max = g.job.max_attempts;
  epoch = g.job.execution_epoch;
  active = g.job.active_attempt_id;
  attempts = g.attempts;
}

-- A running job has an owner: its active attempt is live and carries the job's epoch.
pub record HasOwner (l : Lease) : Type 0 where
  pub attempt : Attempt
  pub found : lookup l.active l.attempts ≡ some attempt
  pub live : IsLive attempt
  pub same_epoch : attempt.execution_epoch ≡ l.epoch
  pub counted : 1 ≤ l.count

pub record LeaseInv (l : Lease) : Type 0 where
  pub same_status : l.run_status ≡ l.status
  pub count_bounded : l.count ≤ l.max
  pub keyed : Keyed l.attempts
  pub owner : l.status ≡ Status.running → HasOwner l
  pub only : l.status ≡ Status.running → OnlyLive l.attempts l.active
  pub nobody : l.status ≢ Status.running → NoneLive l.attempts

abbrev pub Inv : Aggregate → Type 0
Inv g = LeaseInv (lease_of g)
