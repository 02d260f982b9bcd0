-- ===== src/Models/Comparison.antt =====
-- registry.go: Service.Compare.
use fgvcplateform_public.Base.{
  String, Bool, true, false, not, ◌&&◌, ◌||◌, List, [], ◌∷◌, ◌++◌, str_eq, if◌then◌else◌, ltb,
  is_empty, any, all, length,
}
use fgvcplateform_public.Base.Assoc.{lookup}
use fgvcplateform_public.Base.Value.{text_or_empty}
use fgvcplateform_public.Models.{invalid, Result, ok, err, Version}

pub record Warning : Type 0 where
  pub code : String
  pub message : String

pub record Comparison : Type 0 where
  pub versions : List Version
  pub comparable : Bool
  pub warnings : List Warning
  pub dataset_version_id : String
  pub protocol_fingerprint : String

abbrev pub missing : Warning
missing = record {
  code = "EVALUATION_PROTOCOL_MISSING";
  message = "Evaluation protocol fingerprint is required for direct comparison.";
}

abbrev pub mismatch : Warning
mismatch = record {
  code = "EVALUATION_PROTOCOL_MISMATCH";
  message = "Evaluation protocol fingerprints differ or are missing.";
}

-- contextString(version.EvaluationContext, "protocol_fingerprint")
unfoldable pub fingerprint : Version → String
fingerprint v = text_or_empty (lookup "protocol_fingerprint" v.evaluation_context)

unfoldable pub append_warning : Warning → Comparison → Comparison
append_warning w c =
    if any (λ x. str_eq x.code w.code) c.warnings
    then c
    else record c { warnings = c.warnings ++ w ∷ [] }

-- comparison.Comparable = false; appendWarning(...)
abbrev pub object_to : Warning → Comparison → Comparison
object_to w c = append_warning w (record c { comparable = false })

abbrev pub prepend : Version → Result (List Version) → Result (List Version)
prepend v (ok vs) = ok (v ∷ vs)
prepend v (err e) = err e

abbrev pub then_prepend : Result Version → Result (List Version) → Result (List Version)
then_prepend (err e) rest = err e
then_prepend (ok v) rest = prepend v rest

-- The first loop: every id once, and every version from the repository.
unfoldable pub fetch : (String → Result Version) → List String → List String → Result (List Version)
fetch get seen [] = ok []
fetch get seen (id ∷ ids) =
    let rest = fetch get (id ∷ seen) ids in
    if any (λ s. str_eq s id) seen
    then err (invalid "comparison model versions must be unique")
    else then_prepend (get id) rest

-- The last loop, over versions[1:].
unfoldable pub inspect_one : Version → Comparison → Comparison
inspect_one v c =
    if is_empty (fingerprint v)
    then object_to missing c
    else if not (str_eq (fingerprint v) c.protocol_fingerprint)
    then object_to mismatch c
    else c

unfoldable pub inspect : List Version → Comparison → Comparison
inspect [] c = c
inspect (v ∷ vs) c = inspect vs (inspect_one v c)

abbrev pub same_scope : Version → Version → Bool
same_scope first v =
    str_eq v.dataset_id first.dataset_id && str_eq v.dataset_version_id first.dataset_version_id

unfoldable pub fresh : Version → List Version → Comparison
fresh first rest = record {
  versions = first ∷ rest;
  comparable = true;
  warnings = [];
  dataset_version_id = first.dataset_version_id;
  protocol_fingerprint = fingerprint first;
}

unfoldable pub opening : Version → List Version → Comparison
opening first rest =
    if is_empty (fingerprint first) then object_to missing (fresh first rest) else fresh first rest

-- The loops after the first; `fetch` never answers the empty list here.
unfoldable pub weigh : List Version → Result Comparison
weigh [] = err (invalid "comparison requires 2 to 5 model versions")
weigh (first ∷ rest) =
    if is_empty first.dataset_id || is_empty first.dataset_version_id
    then err (invalid "模型缺少数据集或数据版本信息，无法比较")
    else if not (all (same_scope first) rest)
    then err (invalid "只能比较同一数据集、同一数据版本下的模型")
    else ok (inspect rest (opening first rest))

abbrev pub weigh_fetched : Result (List Version) → Result Comparison
weigh_fetched (err e) = err e
weigh_fetched (ok vs) = weigh vs

unfoldable pub compare_versions : (String → Result Version) → List String → Result Comparison
compare_versions get ids =
    if ltb (length ids) 2 || ltb 5 (length ids)
    then err (invalid "comparison requires 2 to 5 model versions")
    else weigh_fetched (fetch get [] ids)
