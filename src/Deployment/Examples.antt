-- ===== src/Deployment/Examples.antt =====
-- A published model with one ONNX variant, on which the theorem applies.
use fgvcplateform_public.Base.{◌≡◌, refl, true, [], ◌∷◌}
use fgvcplateform_public.Base.Assoc.{lookup}
use fgvcplateform_public.Base.Value.{str}
use fgvcplateform_public.Artifact.{Descriptor, zero_descriptor}
use fgvcplateform_public.Models.{production, is_status, Version, zero_version}
use fgvcplateform_public.Models.Publication.{artifact_precision}
use fgvcplateform_public.Deployment.{
  ok, sift, sort_slice, bundles, bundle_of, is_variant, variant, variants, portable_variants,
  check_record, find_record, resolve,
}
use fgvcplateform_public.Deployment.Resolution.{Servable, resolve-Servable}

abbrev bundle : Descriptor
bundle = record zero_descriptor { artifact_id = "b"; artifact_type = "model_bundle"; sha256 = "d" }

abbrev onnx : Descriptor
onnx = record zero_descriptor {
  artifact_id = "o";
  artifact_type = "head_onnx";
  metadata = ("model_version_id", str "m") ∷ ("source_bundle_sha256", str "d") ∷ [];
}

abbrev published : Version
published = record zero_version { id = "m"; status = production; artifacts = onnx ∷ bundle ∷ [] }

resolved : (resolve published [] "onnx:o").1 ≡ ok (variant published onnx)
unfolding resolve portable_variants bundle_of bundles sort_slice sift variants is_variant variant
    artifact_precision lookup find_record check_record
resolved = refl

resolve-Servable_example :
    (is_status published.status production ≡ true)
    × Servable published "onnx:o" (variant published onnx)
resolve-Servable_example = resolve-Servable published [] "onnx:o" (variant published onnx) resolved
