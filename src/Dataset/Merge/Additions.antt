-- ===== src/Dataset/Merge/Additions.antt =====
-- go/internal/dataset/merge.go: the images that a merge adds, of an uploaded archive and of reviewed
-- feedback, and the whole of `merge`.
use fgvcplateform_public.Base.{
  String, not, ◌||◌, Option, none, some, List, [], ◌∷◌, str_eq, if◌then◌else◌, ◌==◌, is_empty,
}
use fgvcplateform_public.Base.Assoc.{Assoc, lookup, insert}
use fgvcplateform_public.Base.Paths.{split_on}
use fgvcplateform_public.Artifact.{Descriptor}
use fgvcplateform_public.Dataset.{
  invalid_archive, failed, invalid, Result, ok, err, ◌>>=◌, ◌>>◌, refuse, Bytes, Snapshot, Feedback,
  safe_path, image_extension, read_image, Member, samples_of,
}
use fgvcplateform_public.Dataset.Merge.{
  Disk, manual_upload, reviewed, Merging, start, base_samples, add,
}

-- the label of a file's path, whose parts these are
unfoldable pub label_of : List String → Result String
label_of [] = err invalid_archive
label_of (first ∷ []) = err invalid_archive
label_of (first ∷ second ∷ []) =
    if str_eq first "val" || str_eq first "test"
    then err (invalid "本次仅支持扩充训练集，请移除 val/test 文件")
    else if str_eq first "train"
    then err invalid_archive
    else ok first
label_of (first ∷ second ∷ third ∷ rest) =
    if str_eq first "val" || str_eq first "test"
    then err (invalid "本次仅支持扩充训练集，请移除 val/test 文件")
    else if str_eq first "train"
    then ok second
    else ok first

-- members[f.Name] = f, for each file
unfoldable pub index_members : List Member → Assoc Member → Result (Assoc Member)
index_members [] members = ok members
index_members (f ∷ rest) members = do
  refuse (not (safe_path f.name)) invalid_archive
  index_members rest (insert f.name f members)

module _ (to_lower : String → String) (sha256 : Bytes → String) (disk : Disk) where
  unfoldable pub add_member : Member → Merging → Result Merging
  add_member member m = do
    refuse (not (safe_path member.name) || member.is_dir) invalid_archive
    label ← label_of (split_on b'/' member.name)
    b ← read_image member.content
    add to_lower sha256 disk label member.name b (manual_upload member.name) m

  unfoldable pub add_members : List Member → Merging → Result Merging
  add_members [] m = ok m
  add_members (member ∷ rest) m = do m' ← add_member member m; add_members rest m'

  -- `incoming` is `none` where no archive was uploaded
  unfoldable pub add_incoming : Option (Result (List Member)) → Merging → Result Merging
  add_incoming none m = ok m
  add_incoming (some incoming) m = do files ← incoming; add_members files m

  unfoldable pub open_local : Option (Result Bytes) → Result Bytes
  open_local none = err (invalid "复核原图不可读取")
  open_local (some content) = read_image content

  unfoldable pub under_root : Option String → Result Bytes
  under_root none = err (invalid "复核图片不在上传目录中")
  under_root (some rel) = do disk.root_opens; open_local (disk.opened rel)

  unfoldable pub feedback_image : Feedback → Option Descriptor → Result Bytes
  feedback_image f (some image) = read_image (disk.materialized image)
  feedback_image f none = do
    refuse (is_empty disk.upload_root) (invalid "复核图片未存入可读取的对象存储，请配置复核上传目录")
    located ← disk.located f.input_ref
    under_root located

  unfoldable pub typed_name : String → String → String
  typed_name filename content_type =
      if str_eq content_type "image/png"
      then "review.png"
      else if str_eq content_type "image/jpeg"
      then "review.jpg"
      else if str_eq content_type "image/webp"
      then "review.webp"
      else if str_eq content_type "image/bmp"
      then "review.bmp"
      else filename

  unfoldable pub feedback_name : String → Option Descriptor → String
  feedback_name filename none = filename
  feedback_name filename (some image) =
      if not (image_extension to_lower filename)
      then typed_name filename image.content_type
      else filename

  unfoldable pub add_feedback : Feedback → Merging → Result Merging
  add_feedback f m = do
    b ← feedback_image f f.image_artifact
    add to_lower sha256 disk f.label (feedback_name f.input_ref f.image_artifact) b (reviewed f) m

  unfoldable pub add_feedbacks : List Feedback → Merging → Result Merging
  add_feedbacks [] m = ok m
  add_feedbacks (f ∷ rest) m = do m' ← add_feedback f m; add_feedbacks rest m'

  -- the samples of the base, with the archive's files already read
  unfoldable pub merge_base : Snapshot → List Member → Result Merging
  merge_base base files = do
    members ← index_members files []
    samples ← samples_of (lookup "samples" base.manifest) (invalid "基础版本缺少样本清单，无法保证测试集不变")
    base_samples to_lower sha256 disk members 0 samples start

  unfoldable pub merge :
      Snapshot
      → Result (List Member)
      → Option (Result (List Member))
      → List Feedback
      → Result Merging
  merge base archive incoming feedback = do
    files ← archive
    kept ← merge_base base files
    uploaded ← add_incoming incoming kept
    m ← add_feedbacks feedback uploaded
    refuse (m.added == 0) (invalid "没有新增图片，所选图片已存在于数据集中")
    refuse disk.close_fails failed
    ok m
