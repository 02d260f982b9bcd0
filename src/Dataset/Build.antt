-- ===== src/Dataset/Build.antt =====
-- go/internal/dataset/annotation_build.go: BuildLabeledArchive, a version of a data set with newly
-- labelled images that are divided over its parts. The disk, the zip library and the context are
-- `Site`; SHA-256, in hex digits, of bytes and of texts is an argument.
use fgvcplateform_public.Base.{
  ℕ, suc, ◌+◌, ◌*◌, String, Bool, true, false, not, ◌&&◌, ◌||◌, Option, none, some, List, [], ◌∷◌,
  ◌++◌, str_eq, if◌then◌else◌, ltb, leb, ◌==◌, length, ℤ, pos, negsuc, byte_len, map,
}
use fgvcplateform_public.Base.Assoc.{Assoc, lookup, insert}
use fgvcplateform_public.Base.Paths.{extension, decimal, decimal6}
use fgvcplateform_public.Base.Value.{Value, Values, Fields, cons, nil}
use Prim.Native.String.{◌++◌ as str_append, compare}
use Prim.Native.Nat.{Ordering}
use fgvcplateform_public.Artifact.{Descriptor}
use fgvcplateform_public.Dataset.{
  Error, invalid_archive, failed, invalid, Result, ok, err, ◌>>=◌, ◌>>◌, refuse, Bytes,
  max_upload_images, max_upload_bytes, max_image_bytes, Snapshot, safe_part, safe_path,
  image_extension, read_image, Member, text_field, samples_of, object_of,
}
use fgvcplateform_public.Dataset.Merge.{Entry, bump, or_default, is_split, join3}
use fgvcplateform_public.Dataset.Split.{SplitPlan, is_valid_plan, Counts, split_labels, weight}
pub mod Additions
mod Held
mod Placed
mod Gathered
mod Added
mod Extended
mod Examples

pub record LabeledImage : Type 0 where
  pub id : String
  pub label : String
  pub filename : String
  pub image : Descriptor

pub record Identity : Type 0 where
  pub label : String
  pub split : String

pub record Pending : Type 0 where
  pub sample : LabeledImage
  pub digest : String

-- What the outside says.
pub record Site : Type 0 where
  -- MkdirTemp or CreateTemp fails
  pub temp_fails : Bool
  -- ctx.Err() != nil at a sample of the base
  pub cancelled : ℕ → Bool
  -- CreateHeader or Write fails for the image of this number
  pub zip_fails : ℕ → Bool
  -- closing the archive or its file fails
  pub close_fails : Bool
  -- MaterializeVerified of an image
  pub materialized : Descriptor → Result (Unit {0})
  -- opening and reading the file that it made
  pub opened : Descriptor → Result Bytes

-- The variables that the loops share; `entries` is the archive that is written.
pub record Building : Type 0 where
  pub seen : Assoc Identity
  pub existing : List String
  pub counts : Assoc (Assoc ℕ)
  pub total : ℕ
  pub count : ℕ
  pub entries : List Entry

abbrev pub empty_archive : Building
empty_archive = record {
  seen = [];
  existing = [];
  counts = ("train", []) ∷ ("val", []) ∷ ("test", []) ∷ [];
  total = 0;
  count = 0;
  entries = [];
}

abbrev pub put_entry : String → String → String → Bytes → Building → Building
put_entry name label partition b m = record m {
  count = m.count + 1;
  total = m.total + length b;
  counts = bump partition label m.counts;
  entries = m.entries ++ record { name = name; content = b } ∷ [];
}

-- what is remembered of an image of the base
unfoldable pub remember :
    String → String → String → Option Identity → Assoc Identity → Assoc Identity
remember digest label partition none seen =
    insert digest (record { label = label; split = partition }) seen
remember digest label partition (some prior) seen =
    if not (str_eq prior.label label)
    then insert digest (record { label = ""; split = prior.split }) seen
    else if not (str_eq partition "train")
    then insert digest (record { label = label; split = partition }) seen
    else seen

abbrev pub noted : String → String → String → Building → Building
noted digest label partition m = record m {
  seen = remember digest label partition (lookup digest m.seen) m.seen;
  existing = label ∷ m.existing;
}

-- fmt.Sprintf("%s/%s/base-%06d%s", ...)
abbrev pub kept_name : String → String → ℕ → String → String
kept_name partition label i original =
    join3 partition label (str_append "base-" (str_append (decimal6 i) (extension original)))

module _ (sha256 : Bytes → String) (site : Site) where
  -- `write`
  unfoldable pub put : String → String → String → Bytes → Building → Result Building
  put name label partition b m = do
    refuse (ltb max_upload_images (m.count + 1) || ltb max_upload_bytes (m.total + length b))
        invalid_archive
    refuse (site.zip_fails m.count) failed
    ok (put_entry name label partition b m)

  unfoldable pub keep_member :
      ℕ → String → String → String → Option Member → Building → Result Building
  keep_member i original label partition none m = err invalid_archive
  keep_member i original label partition (some member) m = do
    b ← read_image member.content
    put (kept_name partition label i original) label partition b
        (noted (sha256 b) label partition m)

  unfoldable pub keep_sample : Assoc Member → ℕ → Fields → Building → Result Building
  keep_sample members i row m = do
    let original = text_field "path" row
    let label = text_field "label" row
    let partition = text_field "split" row
    refuse (not (safe_path original) || not (safe_part label) || not (is_split partition))
        invalid_archive
    keep_member i original label partition (lookup original members) m

  unfoldable pub keep_samples : Assoc Member → ℕ → Values → Building → Result Building
  keep_samples members i nil m = ok m
  keep_samples members i (cons raw rest) m = do
    refuse (site.cancelled i) failed
    row ← object_of raw
    m' ← keep_sample members i row m
    keep_samples members (suc i) rest m'

  -- members[f.Name] = f
  abbrev pub members_of : List Member → Assoc Member → Assoc Member
  members_of [] found = found
  members_of (f ∷ fs) found = members_of fs (insert f.name f found)

  -- the base, if there is one, with the files of its archive
  unfoldable pub keep_base : Option (Snapshot × Result (List Member)) → Building → Result Building
  keep_base none m = ok m
  keep_base (some (base, archive)) m = do
    files ← archive
    samples ← samples_of (lookup "samples" base.manifest) invalid_archive
    keep_samples (members_of files []) 0 samples m
