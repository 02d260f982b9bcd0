-- ===== src/Dataset/Merge/Examples.antt =====
-- Runs of the data set code on which its theorems apply.
use fgvcplateform_public.Base.{ℕ, ◌+◌, ◌≡◌, refl, String, false, none, some, List, [], ◌∷◌}
use fgvcplateform_public.Base.Assoc.{Assoc, lookup, insert}
use fgvcplateform_public.Base.Paths.{
  decimal, decimal6, digits_from, split_on, head_part, has_rune, has_separator, extension,
  extension_from,
}
use fgvcplateform_public.Base.Value.{Values, Fields, str, array, object, nil, cons, end, field}
use fgvcplateform_public.Artifact.{zero_descriptor}
use fgvcplateform_public.Dataset.{
  Result, ok, err, failed, invalid, value_or, Bytes, Snapshot, Member, safe_path, safe_part,
  samples_of, object_of, text_field, read_image, image_extension, is_image_suffix,
}
use fgvcplateform_public.Dataset.Merge.{
  Disk, Merging, start, base_samples, base_sample, base_member, base_name, add, write,
  write_addition, write_new, written, mark_seen, bump, join3,
}
use fgvcplateform_public.Dataset.Merge.Additions.{
  index_members, label_of, add_member, add_members, add_incoming, add_feedbacks, merge_base, merge,
}
use fgvcplateform_public.Dataset.Merge.Preserved.{IsPreserved, merge-IsPreserved}
use fgvcplateform_public.Dataset.Merge.Limits.{IsLimited, merge-IsLimited}

abbrev sum_of : Bytes → ℕ
sum_of [] = 0
sum_of (b ∷ bs) = b + sum_of bs

-- in place of SHA-256, for three images of different sums
abbrev digest : Bytes → String
digest b = decimal (sum_of b)

abbrev lower : String → String
lower s = s

abbrev calm : Disk
calm = record {
  cancelled = λ n. false;
  zip_fails = λ n. false;
  close_fails = false;
  materialized = λ d. err failed;
  upload_root = "";
  located = λ s. ok none;
  root_opens = ok tt;
  opened = λ s. none;
}

abbrev sample : String → String → String → Fields
sample path label split =
    field "path" (str path) (field "label" (str label) (field "split" (str split) end))

abbrev samples : Values
samples =
    cons (object (sample "train/wren/a.png" "wren" "train"))
      (cons (object (sample "b.png" "wren" "test")) nil)

abbrev base : Snapshot
base = record {
  dataset_id = "d";
  dataset_key = "d";
  name = "birds";
  version_id = "v1";
  number = 1;
  archive = zero_descriptor;
  manifest = ("samples", array samples) ∷ [];
}

abbrev file : String → Bytes → Member
file name b = record { name = name; is_dir = false; content = ok b }

abbrev files : List Member
files = file "train/wren/a.png" (1 ∷ []) ∷ file "b.png" (2 ∷ []) ∷ []

abbrev upload : List Member
upload = file "robin/c.png" (3 ∷ []) ∷ []

abbrev members : Assoc Member
members = value_or [] (index_members files [])

abbrev outcome : Result Merging
outcome = merge lower digest calm base (ok files) (some (ok upload)) []

abbrev merged : Merging
merged = value_or start outcome

outcome-merged : outcome ≡ ok merged
unfolding merge merge_base index_members add_incoming add_members add_member add_feedbacks label_of
    base_samples base_sample base_member base_name add write write_addition write_new written
    mark_seen bump join3 safe_path safe_part has_rune has_separator split_on head_part extension
    extension_from decimal decimal6 digits_from samples_of object_of text_field read_image
    image_extension is_image_suffix lookup insert
outcome-merged = refl

merge-IsLimited_example : IsLimited merged
merge-IsLimited_example =
    merge-IsLimited lower digest calm base files (some (ok upload)) [] merged outcome-merged

indexed : index_members files [] ≡ ok members
unfolding index_members safe_path safe_part has_rune has_separator split_on insert
indexed = refl

listed : samples_of (lookup "samples" base.manifest) (invalid "基础版本缺少样本清单，无法保证测试集不变") ≡ ok samples
unfolding samples_of lookup
listed = refl

merge-IsPreserved_example : IsPreserved lower digest calm files members samples merged
merge-IsPreserved_example =
    merge-IsPreserved lower digest calm base files (some (ok upload)) [] members samples merged
      outcome-merged indexed listed
