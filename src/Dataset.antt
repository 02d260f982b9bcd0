-- ===== src/Dataset.antt =====
-- go/internal/dataset: versions of a data set. Here: the errors and limits (service.go), the tests
-- on paths and the reading of an image (merge.go). The bytes of a file are numbers below 256;
-- strings.ToLower, whose table of cases is Unicode's, is an argument.
use fgvcplateform_public.Base.{
  ℕ, ◌*◌, ◌^◌, String, Bool, true, false, not, ◌&&◌, ◌||◌, Option, none, some, List, [], ◌∷◌,
  str_eq, if◌then◌else◌, ltb, ◌==◌, is_empty, all, length, ◌≡◌, refl, ap,
}
use fgvcplateform_public.Base.Assoc.{Assoc, insert}
use fgvcplateform_public.Base.Paths.{split_on, has_rune, has_separator, extension}
use fgvcplateform_public.Base.Value.{
  Value, Values, Fields, null, array, object, nil, cons, end, field,
}
use text.Mathlib.Text.{starts_with}
use fgvcplateform_public.Artifact.{Descriptor}
mod Merge
pub mod Split
pub mod Samples
pub mod Build

-- `failed` is an error of the disk, the store or the context.
pub data Error : Type 0 where
  invalid_archive not_found failed : Error
  invalid conflict : String → Error

pub data Result {ℓ} (A : Type ℓ) : Type ℓ where
  ok : A → Result A
  err : Error → Result A

infixl 5 ◌>>=◌ ◌>>◌
abbrev pub ◌>>=◌ {ℓ κ} :
    {Early : Type ℓ} {Late : Type κ} → Result Early → (Early → Result Late) → Result Late
err problem >>= next = err problem
ok early >>= next = next early

abbrev pub ◌>>◌ {ℓ} : {Late : Type ℓ} → Result (Unit {0}) → Result Late → Result Late
check >> rest = check >>= λ passed. rest

-- `if refused { return e }`
abbrev pub refuse : Bool → Error → Result (Unit {0})
refuse true e = err e
refuse false e = ok tt

-- What a successful chain says of its parts.
pub bind-ok {ℓ κ} :
    {Early : Type ℓ} {Late : Type κ} (r : Result Early) (next : Early → Result Late) {late : Late}
    → (r >>= next) ≡ ok late
    → (early : Early) × (r ≡ ok early) × (next early ≡ ok late)
bind-ok (err problem) next h = cc
bind-ok (ok early) next h = (early, refl, h)

pub refuse-ok {ℓ} :
    {B : Type ℓ} (refused : Bool) (e : Error) (k : Result B) {b : B}
    → (refuse refused e >> k) ≡ ok b
    → (refused ≡ false) × (k ≡ ok b)
refuse-ok true e k h = cc
refuse-ok false e k h = (refl, h)

abbrev pub value_or {ℓ} : {A : Type ℓ} → A → Result A → A
value_or d (ok a) = a
value_or d (err e) = d

pub ok_inj {ℓ} : {A : Type ℓ} {x y : A} → ok x ≡ ok y → x ≡ y
ok_inj {x = x} e = ap (value_or x) e

pub or_false_left : (a b : Bool) → (a || b) ≡ false → a ≡ false
or_false_left true b h = cc
or_false_left false b h = refl

pub or_false_right : (a b : Bool) → (a || b) ≡ false → b ≡ false
or_false_right true b h = cc
or_false_right false b h = h

abbrev pub Bytes : Type 0
Bytes = List ℕ

abbrev pub max_upload_images : ℕ
max_upload_images = 100_000

abbrev pub max_upload_bytes : ℕ
max_upload_bytes = 5 * 2 ^ 30

abbrev pub max_image_bytes : ℕ
max_image_bytes = 32 * 2 ^ 20

pub record Snapshot : Type 0 where
  pub dataset_id : String
  pub dataset_key : String
  pub name : String
  pub version_id : String
  pub number : ℕ
  pub archive : Descriptor
  pub manifest : Assoc Value

pub record Feedback : Type 0 where
  pub id : String
  pub label : String
  pub input_ref : String
  pub source_version_id : String
  pub model_version_id : String
  pub review_id : String
  pub inference_run_id : String
  pub image_artifact : Option Descriptor

unfoldable pub safe_part : String → Bool
safe_part s = not (is_empty s) && not (str_eq s ".") && not (str_eq s "..") && not (has_separator s)

unfoldable pub safe_path : String → Bool
safe_path s =
    if starts_with s "/" || has_rune b'\\' s then false else all safe_part (split_on b'/' s)

-- the five cases of the switch
unfoldable pub is_image_suffix : String → Bool
is_image_suffix s =
    str_eq s ".jpg" || str_eq s ".jpeg" || str_eq s ".png" || str_eq s ".webp" || str_eq s ".bmp"

unfoldable pub image_extension : (String → String) → String → Bool
image_extension to_lower s = is_image_suffix (to_lower (extension s))

-- What opening a file and io.ReadAll give, and then the test of the length. LimitReader stops one
-- byte past the limit, which the test refuses.
unfoldable pub read_image : Result Bytes → Result Bytes
read_image content = do
  b ← content
  refuse (length b == 0 || ltb max_image_bytes (length b)) invalid_archive
  ok b

-- A file of a zip archive; `content` is what Open and ReadAll give.
pub record Member : Type 0 where
  pub name : String
  pub is_dir : Bool
  pub content : Result Bytes

-- `m[key].(string)` of an object, with the empty text where that fails
unfoldable pub text_field : String → Fields → String
text_field key end = ""
text_field key (field name (Value.str s) rest) = if str_eq name key then s else text_field key rest
text_field key (field name value rest) = if str_eq name key then "" else text_field key rest

-- `manifest["samples"].([]any)`, which must have an element
unfoldable pub samples_of : Option Value → Error → Result Values
samples_of (some (array (cons first rest))) e = ok (cons first rest)
samples_of _ e = err e

-- raw.(map[string]any)
unfoldable pub object_of : Value → Result Fields
object_of (object fields) = ok fields
object_of _ = err invalid_archive
