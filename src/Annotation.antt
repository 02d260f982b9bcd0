-- ===== src/Annotation.antt =====
-- go/internal/annotation/annotation.go: labelling by a person with suggestions of a model. Each method
-- of Repository is one transaction on the tables; uuid.Parse, json.Unmarshal and PostgreSQL's
-- equality of jsonb are arguments. A table of tasks is an association list in the order of `seq`.
use fgvcplateform_public.Base.{
  ℕ, ◌+◌, ◌*◌, String, Bool, true, false, not, ◌&&◌, ◌||◌, Option, none, some, List, [], ◌∷◌, ◌++◌,
  str_eq, if◌then◌else◌, ltb, leb, ◌==◌, is_blank, is_empty, byte_len, trim_space, any, all, length,
  min,
}
use fgvcplateform_public.Base.Assoc.{Assoc, lookup, insert}
use fgvcplateform_public.Artifact.{Descriptor}
pub mod Repository
mod Tables
mod Calls
mod Statuses
mod Moves
mod Lifecycle
mod Repeats
mod Accepted
mod Examples

pub record Class : Type 0 where
  pub id : String
  pub name : String

pub record Project : Type 0 where
  pub id : String
  pub name : String
  pub classes : List Class
  pub method : String
  pub domain : String

-- `contains_text seen x`: seen[x]
abbrev pub contains_text : List String → String → Bool
contains_text xs s = any (λ x. str_eq x s) xs

-- a text of one byte that "ABCD" contains
unfoldable pub is_method : String → Bool
is_method s = str_eq s "A" || str_eq s "B" || str_eq s "C" || str_eq s "D"

unfoldable pub is_domain : String → Bool
is_domain s = str_eq s "general" || str_eq s "birds" || str_eq s "cars"

-- the first test of a class, but for `seen`
unfoldable pub bad_name : String → Bool
bad_name s = is_blank s || ltb 180 (byte_len s)

unfoldable pub bad_class : List String → List String → Class → Bool
bad_class seen names c =
    if bad_name c.id || bad_name c.name || contains_text seen c.id
    then true
    else not (str_eq c.id (trim_space c.id))
      || not (str_eq c.name (trim_space c.name))
      || contains_text names c.name

-- the loop over the classes
unfoldable pub valid_classes : List String → List String → List Class → Bool
valid_classes seen names [] = true
valid_classes seen names (c ∷ cs) =
    let rest = valid_classes (c.id ∷ seen) (c.name ∷ names) cs in
    if bad_class seen names c then false else rest

-- Validate returns no error.
unfoldable pub is_valid_project : Project → Bool
is_valid_project p =
    if is_blank p.name
      || ltb 180 (byte_len p.name)
      || ltb (length p.classes) 2
      || ltb 1000 (length p.classes)
    then false
    else if not (is_method p.method)
    then false
    else if not (is_domain p.domain)
    then false
    else valid_classes [] [] p.classes

pub data Status : Type 0 where
  pending queued running suggested failed unknown confirmed : Status

pub record Task : Type 0 where
  pub project_id : String
  pub filename : String
  pub image : Descriptor
  pub sha : String
  pub status : Status
  pub result : String
  pub label : String
  pub actor : String
  pub error : String
  pub claim_token : Option String
  pub lease_until : Option ℕ

pub record Event : Type 0 where
  pub task_id : String
  pub event_type : String
  pub actor : String
  pub from_status : Option Status
  pub to_status : Status

-- annotation_memory_outbox, by task
pub record Delivery : Type 0 where
  pub delivered_at : Option ℕ
  pub next_at : ℕ
  pub attempts : ℕ
  pub error : String

pub record Store : Type 0 where
  pub projects : Assoc Project
  pub tasks : Assoc Task
  pub events : List Event
  pub outbox : Assoc Delivery

pub data Error : Type 0 where
  invalid conflict no_rows duplicate_key : Error

pub data Result {ℓ} (A : Type ℓ) : Type ℓ where
  ok : A → Result A
  err : Error → Result A
