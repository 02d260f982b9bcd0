-- ===== src/Dataset/Merge.antt =====
-- go/internal/dataset/merge.go: a version of a data set with images added to its training part.
-- The disk, the zip library and the context are `Disk`; SHA-256, in hex digits, is an argument.
use fgvcplateform_public.Base.{
  ℕ, suc, ◌+◌, String, Bool, true, false, not, ◌&&◌, ◌||◌, Option, none, some, List, [], ◌∷◌, ◌++◌,
  str_eq, if◌then◌else◌, ltb, ◌==◌, is_empty, any, length,
}
use fgvcplateform_public.Base.Assoc.{Assoc, lookup, insert}
use fgvcplateform_public.Base.Paths.{split_on, head_part, extension, decimal6}
use fgvcplateform_public.Base.Value.{Value, Values, Fields, cons, nil}
use Prim.Native.String.{◌++◌ as str_append}
use text.Mathlib.Text.{starts_with}
use fgvcplateform_public.Artifact.{Descriptor}
use fgvcplateform_public.Dataset.{
  Error, invalid_archive, failed, invalid, Result, ok, err, ◌>>=◌, ◌>>◌, refuse, Bytes,
  max_upload_images, max_upload_bytes, Snapshot, Feedback, safe_part, safe_path, image_extension,
  read_image, Member, text_field, samples_of, object_of,
}
mod Additions
mod Growth
mod Kept
mod Placed
mod Repeats
mod Limits
mod Examples
mod Preserved

-- What the outside says. The calls of `write` are numbered.
pub record Disk : Type 0 where
  -- ctx.Err() != nil
  pub cancelled : ℕ → Bool
  -- writer.Create or Write fails
  pub zip_fails : ℕ → Bool
  -- closing the archive fails
  pub close_fails : Bool
  -- MaterializeVerified
  pub materialized : Descriptor → Result Bytes
  -- s.UploadRoot
  pub upload_root : String
  -- filepath.Abs and Rel; `none` where the path is not local to the root
  pub located : String → Result (Option String)
  -- os.OpenRoot
  pub root_opens : Result (Unit {0})
  -- root.Open and ReadAll; `none` where the file cannot be opened
  pub opened : String → Option (Result Bytes)

pub data Source : Type 0 where
  no_source : Source
  manual_upload : String → Source
  reviewed : Feedback → Source

pub record Entry : Type 0 where
  pub name : String
  pub content : Bytes

-- The variables that `write` shares with the rest; `entries` is the archive that is written.
pub record Merging : Type 0 where
  pub calls : ℕ
  pub seen : Assoc String
  pub evaluation : List String
  pub names : List String
  pub count : ℕ
  pub added : ℕ
  pub duplicates : ℕ
  pub total : ℕ
  pub sources : Assoc Source
  pub split_counts : Assoc (Assoc ℕ)
  pub entries : List Entry

abbrev pub start : Merging
start = record {
  calls = 0;
  seen = [];
  evaluation = [];
  names = [];
  count = 0;
  added = 0;
  duplicates = 0;
  total = 0;
  sources = [];
  split_counts = ("train", []) ∷ ("val", []) ∷ ("test", []) ∷ [];
  entries = [];
}

abbrev pub contains : List String → String → Bool
contains xs s = any (λ x. str_eq x s) xs

-- a missing key reads as the zero value
abbrev pub or_default {ℓ} : {A : Type ℓ} → A → Option A → A
or_default d none = d
or_default d (some a) = a

-- counts[split][label]++
unfoldable pub bump : String → String → Assoc (Assoc ℕ) → Assoc (Assoc ℕ)
bump split label counts =
    let inner = or_default [] (lookup split counts) in
    insert split (insert label (or_default 0 (lookup label inner) + 1) inner) counts

-- A digest that had another label keeps none.
unfoldable pub mark_seen : String → String → Option String → Assoc String → Assoc String
mark_seen digest label none seen = insert digest label seen
mark_seen digest label (some old) seen =
    if not (str_eq old label) then insert digest "" seen else seen

unfoldable pub join3 : String → String → String → String
join3 a b c = str_append a (str_append "/" (str_append b (str_append "/" c)))

module _ (sha256 : Bytes → String) (disk : Disk) where
  unfoldable pub written : String → String → Bytes → Bool → Source → Merging → Merging
  written name label b addition origin m = record {
    calls = suc m.calls;
    seen = mark_seen (sha256 b) label (lookup (sha256 b) m.seen) m.seen;
    evaluation = m.evaluation;
    names = name ∷ m.names;
    count = m.count + 1;
    added = if addition then m.added + 1 else m.added;
    duplicates = m.duplicates;
    total = m.total + length b;
    sources = if addition then insert name origin m.sources else m.sources;
    split_counts = bump (head_part (split_on b'/' name)) label m.split_counts;
    entries = m.entries ++ record { name = name; content = b } ∷ [];
  }

  -- `write` from the test of the path on
  unfoldable pub write_new : String → String → Bytes → Bool → Source → Merging → Result Merging
  write_new name label b addition origin m = do
    refuse (not (safe_path name) || contains m.names name) invalid_archive
    refuse (ltb max_upload_images (m.count + 1) || ltb max_upload_bytes (m.total + length b))
        (invalid "合并后上限为 100000 张、5 GB")
    refuse (disk.zip_fails m.calls) failed
    ok (written name label b addition origin m)

  -- an addition whose digest may have been seen
  unfoldable pub write_addition :
      Option String → String → String → Bytes → Source → Merging → Result Merging
  write_addition none name label b origin m = write_new name label b true origin m
  write_addition (some previous) name label b origin m = do
    refuse (not (str_eq previous label)) (invalid "同一图片存在不同标签，请先处理标签冲突")
    ok (record m { calls = suc m.calls; duplicates = m.duplicates + 1 })

  abbrev pub write_as : Bool → String → String → Bytes → Source → Merging → Result Merging
  write_as true name label b origin m =
      write_addition (lookup (sha256 b) m.seen) name label b origin m
  write_as false name label b origin m = write_new name label b false origin m

  unfoldable pub write : String → String → Bytes → Bool → Source → Merging → Result Merging
  write name label b addition origin m = do
    refuse (disk.cancelled m.calls) failed
    refuse (addition && contains m.evaluation (sha256 b)) (invalid "图片已属于验证集或测试集，禁止回流到训练集")
    write_as addition name label b origin m

-- the name of a sample of the base
unfoldable pub base_name : (String → String) → ℕ → String → String → String → String
base_name to_lower i old_path label split =
    if not (starts_with old_path (join3 split label ""))
    then join3 split label
        (str_append "base-" (str_append (decimal6 i) (to_lower (extension old_path))))
    else old_path

abbrev pub is_split : String → Bool
is_split split = str_eq split "train" || str_eq split "val" || str_eq split "test"

module _ (to_lower : String → String) (sha256 : Bytes → String) (disk : Disk) where
  -- evaluation[digest] = true
  abbrev pub evaluated : String → Bytes → Merging → Merging
  evaluated split b m =
      if not (str_eq split "train") then record m { evaluation = sha256 b ∷ m.evaluation } else m

  unfoldable pub base_member :
      ℕ → String → String → String → Option Member → Merging → Result Merging
  base_member i old_path label split none m = err invalid_archive
  base_member i old_path label split (some member) m = do
    b ← read_image member.content
    m' ←
        write sha256 disk (base_name to_lower i old_path label split) label b false Source.no_source
          m
    ok (evaluated split b m')

  unfoldable pub base_sample : Assoc Member → ℕ → Fields → Merging → Result Merging
  base_sample members i sample m = do
    let old_path = text_field "path" sample
    let label = text_field "label" sample
    let split = text_field "split" sample
    refuse (not (safe_part label) || not (is_split split)) invalid_archive
    base_member i old_path label split (lookup old_path members) m

  unfoldable pub base_samples : Assoc Member → ℕ → Values → Merging → Result Merging
  base_samples members i nil m = ok m
  base_samples members i (cons raw rest) m = do
    sample ← object_of raw
    m' ← base_sample members i sample m
    base_samples members (suc i) rest m'

  unfoldable pub add : String → String → Bytes → Source → Merging → Result Merging
  add label filename b origin m = do
    refuse (not (safe_part label) || not (image_extension to_lower filename)) invalid_archive
    write sha256 disk
        (join3 "train" label
          (str_append "add-" (str_append (sha256 b) (to_lower (extension filename)))))
        label b true origin m
