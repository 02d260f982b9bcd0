-- ===== src/Models/Examples.antt =====
-- Runs of the model registry on which its theorems apply.
use fgvcplateform_public.Base.{ℕ, String, refl, true, [], ◌∷◌, arith}
use fgvcplateform_public.Base.Assoc.{lookup}
use fgvcplateform_public.Base.Value.{str}
use fgvcplateform_public.Base.{◌+◌, some, pos}
use fgvcplateform_public.Base.Value.{flag}
use fgvcplateform_public.Artifact.{Descriptor, zero_descriptor}
use fgvcplateform_public.Models.Publication.{Publisher, publish_precision}
use fgvcplateform_public.Models.Published.{Outcome, publish_precision-Outcome}
use fgvcplateform_public.Models.{
  candidate, Result, ok, Version, Registry, zero_version, get_version,
}
use fgvcplateform_public.Models.Service.{memory, assign_alias}
use fgvcplateform_public.Models.Aliases.{AliasInv}
use fgvcplateform_public.Models.Assignment.{assign_alias-AliasInv}

abbrev model : String → ℕ → Version
model id at = record zero_version {
  id = id;
  dataset_id = "birds";
  dataset_version_id = "v1";
  status = candidate;
  evaluation_context = ("protocol_fingerprint", str "f") ∷ [];
  created_at = at;
}

abbrev two_models : Registry
two_models = record { versions = ("a", model "a" 1) ∷ ("b", model "b" 2) ∷ []; aliases = [] }

two_models-AliasInv : AliasInv two_models
unfolding lookup
two_models-AliasInv = record { named = refl; owner = λ id v b f c. ground (arith, f, c) }

assign_alias-AliasInv_example :
    AliasInv (assign_alias (memory 9) "birds" "challenger" "a" "ann" "best" two_models).1
assign_alias-AliasInv_example =
    assign_alias-AliasInv 9 "birds" "challenger" "a" "ann" "best" two_models two_models-AliasInv

abbrev read : String → Result Version
read id = get_version id two_models

-- An exporter that delivers both files, and a repository that counts its calls.
abbrev exported : String → Descriptor
exported kind = record zero_descriptor {
  artifact_type = kind;
  uri = "s3://models/a";
  size_bytes = pos 3;
  dataset_version_id = "v1";
  metadata = ("model_version_id", str "a") ∷ ("parity_passed", flag true) ∷ [];
}

abbrev publisher : Publisher ℕ
publisher = record {
  export = λ v. some (exported "head_pt" ∷ exported "head_onnx" ∷ []);
  verify = λ a. true;
  complete_publication = λ v artifacts actor reason n. (ok v, n + 1);
}

publish_precision-Outcome_example :
    Outcome publisher "ann" "good" "FP32" 0
      (publish_precision (λ id n. read id) (some publisher) "a" "ann" "good" "FP32" 0)
publish_precision-Outcome_example =
    publish_precision-Outcome (λ id n. read id) publisher "a" "ann" "good" "FP32" 0
