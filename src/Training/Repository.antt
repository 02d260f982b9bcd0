-- ===== src/Training/Repository.antt =====
-- lifecycle.go: MemoryRepository, the interface Repository over a map. An aggregate is a value
-- here, so cloneAggregate, which keeps the stored one from being shared, is the identity. The order
-- in which Go visits the map is the order of the association list.
use fgvcplateform_public.Base.{
  ℕ, ◌+◌, String, Bool, false, ◌&&◌, Option, none, some, List, [], ◌∷◌, leb, ltb, if◌then◌else◌, ℤ,
  pos, negsuc,
}
use fgvcplateform_public.Base.Assoc.{Assoc, lookup, insert}
use fgvcplateform_public.Training.Types.{
  not_found, Error, domain_error, plain_error, Result, ok, err, Attempt, Aggregate, Closure,
}
use fgvcplateform_public.Training.Failure.{lease_expired}

abbrev pub Repository : Type 0
Repository = Assoc Aggregate

abbrev pub not_found_error : Error
not_found_error = domain_error not_found "training job not found"

unfoldable pub create_found :
    Aggregate → Repository → Option Aggregate → Result (Unit {0}) × Repository
create_found g repo none = (ok tt, insert g.job.id g repo)
create_found g repo (some old) = (err (plain_error "job already exists"), repo)

unfoldable pub create : Aggregate → Repository → Result (Unit {0}) × Repository
unfolding create_found
create g repo = create_found g repo (lookup g.job.id repo)

abbrev pub or_not_found : Option Aggregate → Result Aggregate
or_not_found none = err not_found_error
or_not_found (some g) = ok g

unfoldable pub get : Repository → String → Result Aggregate
get repo id = or_not_found (lookup id repo)

-- The candidate takes the stored aggregate's place, unless the closure returned an error.
abbrev pub commit :
    {A : Type 0} → String → Repository → Result A × Aggregate → Result A × Repository
commit id repo (ok a, candidate) = (ok a, insert id candidate repo)
commit id repo (err e, candidate) = (err e, repo)

abbrev pub update_found :
    {A : Type 0} → String → Closure A → Repository → Option Aggregate → Result A × Repository
update_found id f repo none = (err not_found_error, repo)
update_found id f repo (some stored) = commit id repo (f stored)

unfoldable pub update : {A : Type 0} → String → Closure A → Repository → Result A × Repository
update id f repo = update_found id f repo (lookup id repo)

abbrev pub expired_attempt : ℕ → Aggregate → Option Attempt → Bool
expired_attempt now g none = false
expired_attempt now g (some a) = lease_expired now g a

unfoldable pub is_expired : ℕ → Aggregate → Bool
unfolding lease_expired
is_expired now g = expired_attempt now g (lookup g.job.active_attempt_id g.attempts)

-- limit > 0 && len(ids) >= limit
abbrev pub reached : ℤ → ℕ → Bool
reached (pos k) n = ltb 0 k && leb k n
reached (negsuc k) n = false

-- The loop of Expired, with the number of ids collected so far.
unfoldable pub collect : ℕ → ℤ → ℕ → Repository → List String
unfolding is_expired
collect now limit n [] = []
collect now limit n ((id, g) ∷ repo) =
    let next = collect now limit (n + 1) repo in
    let skip = collect now limit n repo in
    let stop = reached limit (n + 1) in
    if is_expired now g then id ∷ (if stop then [] else next) else skip

unfoldable pub expired : ℕ → ℤ → Repository → List String
unfolding collect
expired now limit repo = collect now limit 0 repo
