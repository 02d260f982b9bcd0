-- ===== src/Deployment.antt =====
-- go/internal/deployment/deployment.go: the executable variants of a published model.
use fgvcplateform_public.Base.{
  ℕ, String, Bool, true, false, not, ◌&&◌, ◌||◌, Option, none, some, List, [], ◌∷◌, ◌++◌, str_eq,
  if◌then◌else◌, ltb, ℤ, pos, negsuc, int_is, is_empty, any, length, byte_len, trim_space,
}
use fgvcplateform_public.Base.Assoc.{lookup}
use fgvcplateform_public.Base.Value.{Value, ValueMap, null, text_or_empty, holds_text}
use fgvcplateform_public.Artifact.{Descriptor, zero_descriptor}
use fgvcplateform_public.Models.{production, is_status, Version}
use fgvcplateform_public.Models.Publication.{artifact_precision}
use Prim.Native.Nat.{Ordering}
use Prim.Native.String.{compare, ◌++◌ as str_append}
mod Resolution
mod Examples

pub record Record : Type 0 where
  pub dataset_id : String
  pub id : String
  pub model_version_id : String
  pub runtime : String
  pub precision : String
  pub target_profile : String
  pub max_batch : ℤ
  pub status : String
  pub source : Descriptor
  pub compiled : Option Descriptor
  pub validation : ValueMap
  pub error : String
  pub worker_id : String
  pub updated_at : String
  pub build_token : String

pub record Create : Type 0 where
  pub runtime : String
  pub precision : String
  pub max_batch : ℤ
  pub actor : String

pub data Error : Type 0 where
  invalid conflict : String → Error

pub data Result {ℓ} (A : Type ℓ) : Type ℓ where
  ok : A → Result A
  err : Error → Result A

abbrev pub or_one : ℤ → ℤ
or_one n = if int_is n 0 then pos 1 else n

-- n < 1 || n > 32
abbrev pub out_of_batch : ℤ → Bool
out_of_batch (pos n) = ltb n 1 || ltb 32 n
out_of_batch (negsuc n) = true

abbrev pub with_batch : Create → Create
with_batch c = record c { max_batch = or_one c.max_batch }

abbrev pub with_actor : Create → Create
with_actor c = record c { actor = trim_space c.actor }

-- Create.Validate: the error, if any, and the command that it leaves.
unfoldable pub validate : Create → Option Error × Create
validate c =
    if not (str_eq c.runtime "tensorrt") && not (str_eq c.runtime "ascend_acl")
    then (some (invalid "未知部署后端"), c)
    else if not (str_eq c.precision "FP32") && not (str_eq c.precision "FP16")
    then (some (invalid "请选择 FP32 或 FP16"), c)
    else if out_of_batch (or_one c.max_batch)
        || (str_eq c.runtime "ascend_acl" && not (int_is (or_one c.max_batch) 1))
    then (some (invalid "批大小无效；Ascend 首版仅支持 batch=1"), with_batch c)
    else if is_empty (trim_space c.actor) || ltb 200 (byte_len (trim_space c.actor))
    then (some (invalid "操作人不能为空"), with_actor (with_batch c))
    else (none, with_actor (with_batch c))

-- a < b on Go's strings
abbrev pub text_less : String → String → Bool
text_less a b = elim (compare a b) [ Ordering.lt ↦ true | _ ↦ false ]

module _ {A : Type 0} (less : A → A → Bool) where
  unfoldable pub sift : A → List A → List A
  sift x [] = x ∷ []
  sift x (y ∷ ys) = let rest = sift x ys in if less y x then y ∷ rest else x ∷ y ∷ ys

  -- sort.Slice; of elements in no order, the earlier comes first.
  unfoldable pub sort_slice : List A → List A
  unfolding sift
  sort_slice [] = []
  sort_slice (x ∷ xs) = sift x (sort_slice xs)

unfoldable pub bundles : List Descriptor → List Descriptor
bundles [] = []
bundles (a ∷ rest) =
    let more = bundles rest in if str_eq a.artifact_type "model_bundle" then a ∷ more else more

abbrev pub first_or_zero : List Descriptor → Descriptor
first_or_zero [] = zero_descriptor
first_or_zero (b ∷ bs) = b

unfoldable pub bundle_of : Version → Descriptor
bundle_of v =
    first_or_zero (sort_slice (λ a b. text_less a.artifact_id b.artifact_id) (bundles v.artifacts))

abbrev pub kind_of : Version → String
kind_of v = if str_eq v.head_type "image_classifier_v2" then "full_onnx" else "head_onnx"

abbrev pub value_or_nil : Option Value → Value
value_or_nil none = null
value_or_nil (some x) = x

unfoldable pub is_variant : Version → Descriptor → Descriptor → Bool
is_variant v bundle a =
    not (
      not (str_eq a.artifact_type (kind_of v))
      || not (holds_text a.metadata "model_version_id" v.id)
      || not (holds_text a.metadata "source_bundle_sha256" bundle.sha256)
      || not (str_eq a.dataset_version_id v.dataset_version_id)
      || not (str_eq a.training_run_id v.training_run_id))
    && (str_eq (artifact_precision a.metadata) "FP32"
        || str_eq (artifact_precision a.metadata) "FP16")

unfoldable pub variant : Version → Descriptor → Record
variant v a = record {
  dataset_id = "";
  id = str_append "onnx:" a.artifact_id;
  model_version_id = v.id;
  runtime = "onnx_cpu";
  precision = artifact_precision a.metadata;
  target_profile = "cpu";
  max_batch = pos 1;
  status = "ready";
  source = a;
  compiled = none;
  validation = ("export_parity_passed", value_or_nil (lookup "parity_passed" a.metadata)) ∷ [];
  error = "";
  worker_id = "";
  updated_at = "";
  build_token = "";
}

unfoldable pub variants : Version → Descriptor → List Descriptor → List Record
variants v bundle [] = []
variants v bundle (a ∷ rest) =
    let more = variants v bundle rest in if is_variant v bundle a then variant v a ∷ more else more

-- FP32 first, then by id.
abbrev pub variant_less : Record → Record → Bool
variant_less a b =
    if not (str_eq a.precision b.precision) then str_eq a.precision "FP32" else text_less a.id b.id

unfoldable pub portable_variants : Version → Descriptor × List Record
portable_variants v =
    let bundle = bundle_of v in
    if not (is_status v.status production) || is_empty bundle.artifact_id
    then (bundle, [])
    else (bundle, sort_slice variant_less (variants v bundle v.artifacts))

abbrev pub first_variant : List Record → Result Record
first_variant [] = err (conflict "缺少已发布 ONNX")
first_variant (r ∷ rs) = ok r

abbrev pub same_source : Record → Record → Bool
same_source r p =
    str_eq p.source.artifact_id r.source.artifact_id && str_eq p.source.sha256 r.source.sha256

abbrev pub is_compiled : Option Descriptor → Bool
is_compiled none = false
is_compiled (some d) = true

unfoldable pub check_record : List Record → Record → Result Record
check_record portable r =
    if not (str_eq r.status "ready")
    then err (conflict "部署尚未就绪")
    else if not (any (same_source r) portable)
        || (not (str_eq r.runtime "onnx_cpu") && not (is_compiled r.compiled))
    then err (conflict "部署源模型不匹配")
    else ok r

-- The loop over append(portable, records...).
unfoldable pub find_record : Version → List Record → String → List Record → Result Record
find_record v portable id [] = err (invalid "该部署不属于当前模型")
find_record v portable id (r ∷ rs) =
    let rest = find_record v portable id rs in
    if not (str_eq r.id id) || not (str_eq r.model_version_id v.id)
    then rest
    else check_record portable r

-- Resolve returns the bundle beside the record or the error.
unfoldable pub resolve : Version → List Record → String → Descriptor × Result Record
resolve v records id =
    let (bundle, portable) = portable_variants v in
    if not (is_status v.status production)
    then (bundle, err (conflict "模型尚未发布"))
    else if is_empty id
    then (bundle, first_variant portable)
    else (bundle, find_record v portable id (portable ++ records))
