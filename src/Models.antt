-- ===== src/Models.antt =====
-- go/internal/modelregistry/registry.go: the versions of trained models, their stages, their aliases
-- and their comparison.
use fgvcplateform_public.Base.{
  ℕ, String, ◌≡◌, ap, Bool, true, false, not, ◌&&◌, ◌||◌, Option, none, some, List, [], ◌∷◌, ◌++◌,
  str_eq, if◌then◌else◌, ltb, leb, ℤ, pos, is_blank, is_empty, any, length,
}
use fgvcplateform_public.Base.Assoc.{Assoc, lookup, insert}
use fgvcplateform_public.Base.Value.{ValueMap, str}
use fgvcplateform_public.Artifact.{Descriptor}
use Prim.Native.String.{◌++◌ as str_append}
pub mod Service
pub mod Comparison
pub mod Publication
pub mod Releases
mod Published
mod AliasKeys
mod Aliases
mod Assignment
mod Listing
mod Stages
mod Comparable
mod Examples

-- `unset` is the empty status of the zero Version.
pub data Status : Type 0 where
  unset candidate staging production archived failed : Status

abbrev pub is_status : Status → Status → Bool
is_status unset unset = true
is_status candidate candidate = true
is_status staging staging = true
is_status production production = true
is_status archived archived = true
is_status failed failed = true
is_status _ _ = false

pub data Error : Type 0 where
  not_found : Error
  conflict invalid : String → Error

pub data Result {ℓ} (A : Type ℓ) : Type ℓ where
  ok : A → Result A
  err : Error → Result A

value_or {ℓ} : {A : Type ℓ} → A → Result A → A
value_or x (ok y) = y
value_or x (err e) = x

pub ok_inj {ℓ} : {A : Type ℓ} {x y : A} → ok x ≡ ok y → x ≡ y
unfolding value_or
ok_inj {x = x} e = ap (λ o. value_or x o) e

pub record Event : Type 0 where
  pub id : String
  pub event_type : String
  pub from_status : String
  pub to_status : String
  pub alias : String
  pub actor : String
  pub reason : String
  pub payload : ValueMap
  pub created_at : ℕ

pub record Version : Type 0 where
  pub release_version : String
  pub release_sequence : ℤ
  pub release_reason : String
  pub release_signature : String
  pub release_precision : String
  pub next_release_version : String
  pub next_release_reason : String
  pub dataset_version_number : ℤ
  pub training_config : ValueMap
  pub id : String
  pub model_key : String
  pub name : String
  pub description : String
  pub dataset_id : String
  pub dataset_name : String
  pub dataset_version_id : String
  pub dataset_version_key : String
  pub training_run_id : String
  pub status : Status
  pub aliases : List String
  pub backbone_key : String
  pub architecture : String
  pub pretraining_method : String
  pub pretraining_dataset : String
  pub input_size : Option ℤ
  pub feature_dim : Option ℤ
  pub parameter_count : Option ℤ
  pub pooling : String
  pub head_type : String
  pub metrics : ValueMap
  pub evaluation_context : ValueMap
  pub artifacts : List Descriptor
  pub events : List Event
  pub created_at : ℕ
  pub updated_at : ℕ

-- An empty text of a filter asks for nothing, and so does no status.
pub record Filter : Type 0 where
  pub dataset_id : String
  pub dataset_version_id : String
  pub architecture : String
  pub pretraining : String
  pub status : Option Status

pub record AliasResult : Type 0 where
  pub dataset_id : String
  pub alias : String
  pub model_version : Version
  pub updated_by : String
  pub reason : String
  pub updated_at : ℕ

-- MemoryRepository
pub record Registry : Type 0 where
  pub versions : Assoc Version
  pub aliases : Assoc String

abbrev pub asks : String → String → Bool
asks wanted actual = not (is_empty wanted) && not (str_eq actual wanted)

abbrev pub asks_status : Option Status → Status → Bool
asks_status none actual = false
asks_status (some wanted) actual = not (is_status actual wanted)

-- The test by which `List` skips a version, negated.
unfoldable pub passes : Filter → Version → Bool
passes f v = not (
    asks f.dataset_id v.dataset_id
    || asks f.dataset_version_id v.dataset_version_id
    || asks f.architecture v.architecture
    || asks f.pretraining v.pretraining_method
    || asks_status f.status v.status)

unfoldable pub filtered : Filter → Assoc Version → List Version
filtered f [] = []
filtered f ((id, v) ∷ vs) = let rest = filtered f vs in if passes f v then v ∷ rest else rest

-- sort.Slice by `CreatedAt`, the newest first; versions of one time keep their order.
unfoldable pub place : Version → List Version → List Version
place v [] = v ∷ []
place v (w ∷ ws) =
    let rest = place v ws in if leb w.created_at v.created_at then v ∷ w ∷ ws else w ∷ rest

unfoldable pub newest_first : List Version → List Version
unfolding place
newest_first [] = []
newest_first (v ∷ vs) = place v (newest_first vs)

unfoldable pub list_versions : Filter → Registry → List Version
list_versions f r = newest_first (filtered f r.versions)

abbrev pub found_version : Option Version → Result Version
found_version none = err not_found
found_version (some v) = ok v

unfoldable pub get_version : String → Registry → Result Version
get_version id r = found_version (lookup id r.versions)

abbrev pub transition_found :
    ℕ → String → Status → Status → Registry → Option Version → Result Version × Registry
transition_found now id from target r none = (err not_found, r)
transition_found now id from target r (some v) =
    if not (is_status v.status from)
    then (err (conflict ""), r)
    else let v' = record v { status = target; updated_at = now } in
      (ok v', record r { versions = insert id v' r.versions })

unfoldable pub transition : ℕ → String → Status → Status → Registry → Result Version × Registry
transition now id from target r = transition_found now id from target r (lookup id r.versions)

unfoldable pub append_unique : List String → String → List String
append_unique values value =
    if any (λ v. str_eq v value) values then values else values ++ value ∷ []

unfoldable pub remove_value : List String → String → List String
remove_value [] value = []
remove_value (v ∷ vs) value =
    let rest = remove_value vs value in if str_eq v value then rest else v ∷ rest

abbrev pub alias_key : String → String → String
alias_key dataset_id alias = str_append dataset_id (str_append ":" alias)

-- What Go's map reads for a missing key.
abbrev pub zero_version : Version
zero_version = record {
  release_version = "";
  release_sequence = pos 0;
  release_reason = "";
  release_signature = "";
  release_precision = "";
  next_release_version = "";
  next_release_reason = "";
  dataset_version_number = pos 0;
  training_config = [];
  id = "";
  model_key = "";
  name = "";
  description = "";
  dataset_id = "";
  dataset_name = "";
  dataset_version_id = "";
  dataset_version_key = "";
  training_run_id = "";
  status = unset;
  aliases = [];
  backbone_key = "";
  architecture = "";
  pretraining_method = "";
  pretraining_dataset = "";
  input_size = none;
  feature_dim = none;
  parameter_count = none;
  pooling = "";
  head_type = "";
  metrics = [];
  evaluation_context = [];
  artifacts = [];
  events = [];
  created_at = 0;
  updated_at = 0;
}

abbrev pub version_or_zero : Option Version → Version
version_or_zero none = zero_version
version_or_zero (some v) = v

-- The version that had the alias loses it.
abbrev pub take_alias : String → String → Assoc Version → Version → Assoc Version
take_alias previous_id alias vs previous =
    insert previous_id (record previous { aliases = remove_value previous.aliases alias }) vs

abbrev pub without_previous : String → String → Assoc Version → Option String → Assoc Version
without_previous version_id alias vs none = vs
without_previous version_id alias vs (some previous_id) =
    if not (is_empty previous_id) && not (str_eq previous_id version_id)
    then take_alias previous_id alias vs (version_or_zero (lookup previous_id vs))
    else vs

unfoldable pub alias_event : ℕ → String → String → String → String → Event
alias_event now dataset_id alias actor reason = record {
  id = str_append "memory-" alias;
  event_type = "alias_set";
  from_status = "";
  to_status = "";
  alias = alias;
  actor = actor;
  reason = reason;
  payload = ("dataset_id", str dataset_id) ∷ [];
  created_at = now;
}

unfoldable pub with_alias : ℕ → String → String → String → String → Version → Version
with_alias now dataset_id alias actor reason v = record v {
  aliases = append_unique v.aliases alias;
  events = v.events ++ alias_event now dataset_id alias actor reason ∷ [];
}

unfoldable pub give_alias :
    ℕ
    → String
    → String
    → String
    → String
    → String
    → Version
    → Registry
    → Result AliasResult × Registry
give_alias now dataset_id alias version_id actor reason v r =
    if not (str_eq v.dataset_id dataset_id)
    then (err (conflict ""), r)
    else let v' = with_alias now dataset_id alias actor reason v in
      let key = alias_key dataset_id alias in
      (
        ok (record {
          dataset_id = dataset_id;
          alias = alias;
          model_version = v';
          updated_by = actor;
          reason = reason;
          updated_at = now;
        }),
        record {
          versions =
              insert version_id v'
                (without_previous version_id alias r.versions (lookup key r.aliases));
          aliases = insert key version_id r.aliases;
        },
      )

abbrev pub set_alias_found :
    ℕ
    → String
    → String
    → String
    → String
    → String
    → Registry
    → Option Version
    → Result AliasResult × Registry
set_alias_found now dataset_id alias version_id actor reason r none = (err not_found, r)
set_alias_found now dataset_id alias version_id actor reason r (some v) =
    give_alias now dataset_id alias version_id actor reason v r

unfoldable pub set_alias :
    ℕ → String → String → String → String → String → Registry → Result AliasResult × Registry
set_alias now dataset_id alias version_id actor reason r =
    set_alias_found now dataset_id alias version_id actor reason r (lookup version_id r.versions)
