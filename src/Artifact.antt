-- ===== src/Artifact.antt =====
-- go/internal/artifact: the descriptor of a stored artifact (store.go) and the guard of physical
-- deletion (gc.go).
use fgvcplateform_public.Base.{
  ℕ, String, [], Bool, not, ◌&&◌, ◌||◌, ℤ, pos, int_is, is_hex, is_empty, byte_len, ◌==◌,
  if◌then◌else◌,
}
use fgvcplateform_public.Base.Value.{ValueMap}
mod Deletion

pub record Descriptor : Type 0 where
  pub artifact_id : String
  pub artifact_type : String
  pub uri : String
  pub sha256 : String
  pub size_bytes : ℤ
  pub content_type : String
  pub storage_version : String
  pub producer : String
  pub dataset_version_id : String
  pub training_run_id : String
  pub attempt_id : String
  pub schema_version : ℤ
  pub created_at : ℕ
  pub verified_at : ℕ
  pub metadata : ValueMap

-- The zero Descriptor.
abbrev pub zero_descriptor : Descriptor
zero_descriptor = record {
  artifact_id = "";
  artifact_type = "";
  uri = "";
  sha256 = "";
  size_bytes = pos 0;
  content_type = "";
  storage_version = "";
  producer = "";
  dataset_version_id = "";
  training_run_id = "";
  attempt_id = "";
  schema_version = pos 0;
  created_at = 0;
  verified_at = 0;
  metadata = [];
}

-- len(s) != 64 || strings.Trim(s, hex) != "", negated
unfoldable pub is_sha256 : String → Bool
is_sha256 s = byte_len s == 64 && is_hex s

pub record PhysicalReferenceState : Type 0 where
  pub candidate_exists : Bool
  pub other_records : ℤ
  pub relationships : ℤ

pub data GcResult : Type 0 where
  answer : Bool → GcResult
  reference_check : GcResult
  repository_error : String → GcResult

-- What `PhysicalReferences` returns: a state, or an error.
pub data Lookup : Type 0 where
  found : PhysicalReferenceState → Lookup
  failed : String → Lookup

unfoldable pub eligible : Lookup → GcResult
eligible (found s) =
    answer (s.candidate_exists && int_is s.other_records 0 && int_is s.relationships 0)
eligible (failed e) = repository_error e

-- `references` is the repository, which the guard asks.
unfoldable pub can_delete_physical_object : (String → String → Lookup) → String → String → GcResult
unfolding is_sha256 eligible
can_delete_physical_object references sha candidate =
    if not (is_sha256 sha) || is_empty candidate
    then reference_check
    else eligible (references sha candidate)
