-- ===== src/Models/Publication.antt =====
-- go/internal/modelregistry/publication.go: PublishPrecision. The exporter, the verifier and the
-- repository's CompletePublication are interfaces of the code, and arguments here.
use fgvcplateform_public.Base.{
  String, Bool, true, false, not, ◌&&◌, ◌||◌, Option, none, some, List, [], ◌∷◌, str_eq,
  if◌then◌else◌, ◌==◌, ℤ, pos, negsuc, is_blank, is_empty, any, length,
}
use fgvcplateform_public.Base.Assoc.{lookup}
use fgvcplateform_public.Base.Value.{Value, ValueMap, flag, holds_text, text_or_empty}
use fgvcplateform_public.Artifact.{Descriptor}
use fgvcplateform_public.Models.{
  candidate, staging, production, is_status, Error, conflict, invalid, Result, ok, err, Version,
}
use Prim.Native.Char.{code}

-- ArtifactPrecision (releases.go)
unfoldable pub artifact_precision : ValueMap → String
artifact_precision metadata =
    let value = text_or_empty (lookup "precision" metadata) in
    if is_empty value then "FP32" else value

-- strings.HasPrefix(s, prefix)
abbrev pub has_prefix : String → String → Bool
has_prefix String.[] s = true
has_prefix (String.◌∷◌ c p) String.[] = false
has_prefix (String.◌∷◌ c p) (String.◌∷◌ d s) = let rest = has_prefix p s in code c == code d && rest

-- m[key] == true
abbrev pub is_flag : Option Value → Bool
is_flag (some (flag b)) = b
is_flag _ = false

abbrev pub is_positive : ℤ → Bool
is_positive (pos n) = not (n == 0)
is_positive (negsuc n) = false

-- The exporter, the verifier and the publication repository, where all three are there.
pub record Publisher (S : Type 0) : Type 0 where
  pub export : Version → Option (List Descriptor)
  pub verify : Descriptor → Bool
  pub complete_publication : Version → List Descriptor → String → String → S → Result Version × S

abbrev pub onnx_kind : Version → String
onnx_kind v = if str_eq v.head_type "image_classifier_v2" then "full_onnx" else "head_onnx"

abbrev pub pt_kind : Version → String
pt_kind v = if str_eq v.head_type "image_classifier_v2" then "full_pt" else "head_pt"

-- The version is in production with an artifact of this precision.
unfoldable pub has_precision : Version → String → Descriptor → Bool
has_precision v precision a =
    str_eq a.artifact_type (onnx_kind v)
    && holds_text a.metadata "model_version_id" v.id
    && str_eq (artifact_precision a.metadata) precision
    && not (is_empty v.release_version)

unfoldable pub breaks_contract : Version → List String → Descriptor → Bool
breaks_contract v kinds a =
    (not (str_eq a.artifact_type (pt_kind v)) && not (str_eq a.artifact_type (onnx_kind v)))
    || any (λ k. str_eq k a.artifact_type) kinds
    || not (has_prefix "s3://" a.uri)
    || not (is_positive a.size_bytes)
    || not (str_eq a.dataset_version_id v.dataset_version_id)
    || not (str_eq a.training_run_id v.training_run_id)
    || not (holds_text a.metadata "model_version_id" v.id)
    || not (is_flag (lookup "parity_passed" a.metadata))

-- The loop over the exported artifacts, with the kinds seen so far: its error, or none.
unfoldable pub check_export :
    (Descriptor → Bool) → Version → String → List String → List Descriptor → Option Error
check_export verify v precision kinds [] = none
check_export verify v precision kinds (a ∷ rest) =
    let next = check_export verify v precision (a.artifact_type ∷ kinds) rest in
    if not (str_eq (artifact_precision a.metadata) precision)
    then some (conflict "exported precision mismatch")
    else if breaks_contract v kinds a
    then some (conflict "publication artifact contract mismatch")
    else if not (verify a)
    then some (conflict "publication integrity verification failed")
    else next

module _ {S : Type 0} (get : String → S → Result Version) (publisher : Option (Publisher S)) where
  abbrev pub complete_checked :
      Publisher S
      → Version
      → List Descriptor
      → String
      → String
      → S
      → Option Error
      → Result Version × S
  complete_checked p v artifacts actor reason s (some e) = (err e, s)
  complete_checked p v artifacts actor reason s none =
      p.complete_publication v artifacts actor reason s

  abbrev pub publish_exported :
      Publisher S → Version → String → String → S → Option (List Descriptor) → Result Version × S
  publish_exported p v actor reason s none =
      (err (conflict "model export failed; model remains unpublished"), s)
  publish_exported p v actor reason s (some artifacts) =
      if not (length artifacts == 2)
      then (err (conflict "incomplete publication artifacts"), s)
      else complete_checked p v artifacts actor reason s
          (check_export p.verify v v.release_precision [] artifacts)

  abbrev pub publish_by : Version → String → String → S → Option (Publisher S) → Result Version × S
  publish_by v actor reason s none = (err (conflict "model export is unavailable"), s)
  publish_by v actor reason s (some p) = publish_exported p v actor reason s (p.export v)

  abbrev pub publish_found : String → String → String → S → Result Version → Result Version × S
  publish_found actor reason precision s (err e) = (err e, s)
  publish_found actor reason precision s (ok v) =
      if not (is_status v.status candidate)
        && not (is_status v.status staging)
        && not (is_status v.status production)
      then (err (conflict "model cannot be published"), s)
      else if is_status v.status production && any (has_precision v precision) v.artifacts
      then (ok v, s)
      else publish_by (record v { release_precision = precision }) actor reason s publisher

  unfoldable pub publish_precision : String → String → String → String → S → Result Version × S
  publish_precision id actor reason precision s =
      if not (str_eq precision "FP32") && not (str_eq precision "FP16")
      then (err (invalid "precision must be FP32 or FP16"), s)
      else if is_blank actor || is_blank reason
      then (err (invalid "actor and reason required"), s)
      else publish_found actor reason precision s (get id s)

  -- Publish
  unfoldable pub publish : String → String → String → S → Result Version × S
  publish id actor reason s = publish_precision id actor reason "FP32" s
