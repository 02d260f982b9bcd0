-- ===== src/Models/Service.antt =====
-- registry.go: the Service over the interface Repository: Promote below production, Archive and
-- SetAlias.
use fgvcplateform_public.Base.{ℕ, String, Bool, not, ◌&&◌, ◌||◌, str_eq, if◌then◌else◌, is_blank}
use fgvcplateform_public.Models.{
  Status, unset, failed, candidate, staging, production, archived, is_status, Error, conflict,
  invalid, Result, ok, err, Version, AliasResult, Registry, get_version, transition, set_alias,
}
use Prim.Native.String.{◌++◌ as str_append}

-- The interface Repository, over the state that an implementation keeps.
pub record Repository (S : Type 0) : Type 0 where
  pub get : String → S → Result Version
  pub transition : String → Status → Status → S → Result Version × S
  pub set_alias : String → String → String → String → String → S → Result AliasResult × S

-- The memory repository, at the time `now`; Transition does not read the actor and the reason.
unfoldable pub memory : ℕ → Repository Registry
memory now = record { get = get_version; transition = transition now; set_alias = set_alias now }

-- string(status)
abbrev pub status_name : Status → String
status_name unset = ""
status_name candidate = "candidate"
status_name staging = "staging"
status_name production = "production"
status_name archived = "archived"
status_name failed = "failed"

abbrev pub cannot_promote : Status → Status → String
cannot_promote current target =
    str_append "cannot promote "
      (str_append (status_name current) (str_append " to " (status_name target)))

abbrev pub actor_and_reason : Error
actor_and_reason = invalid "actor and reason are required"

module _ {S : Type 0} (repo : Repository S) where
  -- The edges that Promote admits.
  abbrev pub promotes : Status → Status → Bool
  promotes current target =
      (is_status current candidate && is_status target staging)
      || (is_status current staging && is_status target production)

  abbrev pub promote_found : String → Status → S → Result Version → Result Version × S
  promote_found id target s (err e) = (err e, s)
  promote_found id target s (ok current) =
      if promotes current.status target
      then repo.transition id current.status target s
      else (err (conflict (cannot_promote current.status target)), s)

  -- Promote after its first test, which hands a target of production to Publish.
  unfoldable pub promote : String → Status → String → String → S → Result Version × S
  promote id target actor reason s =
      if is_blank actor || is_blank reason
      then (err actor_and_reason, s)
      else promote_found id target s (repo.get id s)

  abbrev pub archive_found : String → S → Result Version → Result Version × S
  archive_found id s (err e) = (err e, s)
  archive_found id s (ok current) =
      if is_status current.status archived
      then (err (conflict "model version is already archived"), s)
      else repo.transition id current.status archived s

  unfoldable pub archive : String → String → String → S → Result Version × S
  archive id actor reason s =
      if is_blank actor || is_blank reason
      then (err actor_and_reason, s)
      else archive_found id s (repo.get id s)

  abbrev pub assign_found :
      String → String → String → String → String → S → Result Version → Result AliasResult × S
  assign_found dataset_id alias id actor reason s (err e) = (err e, s)
  assign_found dataset_id alias id actor reason s (ok v) =
      if str_eq alias "champion" && not (is_status v.status production)
      then (err (conflict "champion must reference a production Model Version"), s)
      else if str_eq alias "challenger"
          && not (is_status v.status candidate)
          && not (is_status v.status staging)
      then (err (conflict "challenger must reference a candidate or staging Model Version"), s)
      else repo.set_alias dataset_id alias id actor reason s

  -- Service.SetAlias
  unfoldable pub assign_alias :
      String → String → String → String → String → S → Result AliasResult × S
  assign_alias dataset_id alias id actor reason s =
      if not (str_eq alias "champion") && not (str_eq alias "challenger")
      then (err (invalid "alias must be champion or challenger"), s)
      else if is_blank dataset_id || is_blank actor || is_blank reason
      then (err (invalid "dataset, actor, and reason are required"), s)
      else assign_found dataset_id alias id actor reason s (repo.get id s)
