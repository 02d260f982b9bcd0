-- ===== src/Dataset/Build/Additions.antt =====
-- go/internal/dataset/annotation_build.go: the new images of BuildLabeledArchive, class by class, and
-- the whole of it.
use fgvcplateform_public.Base.{
  ℕ, suc, ◌+◌, String, Bool, true, false, not, ◌&&◌, ◌||◌, Option, none, some, List, [], ◌∷◌, ◌++◌,
  str_eq, if◌then◌else◌, ltb, ◌==◌, length, ℤ, pos, negsuc, byte_len, any,
}
use fgvcplateform_public.Base.Assoc.{Assoc, lookup, insert}
use fgvcplateform_public.Base.Paths.{extension, decimal}
use Prim.Native.String.{◌++◌ as str_append, compare}
use Prim.Native.Nat.{Ordering}
use fgvcplateform_public.Dataset.{
  invalid_archive, failed, invalid, Result, ok, ◌>>=◌, ◌>>◌, refuse, Bytes, max_upload_bytes,
  max_image_bytes, Snapshot, safe_part, image_extension, read_image, Member,
}
use fgvcplateform_public.Dataset.Merge.{or_default, join3}
use fgvcplateform_public.Dataset.Split.{SplitPlan, is_valid_plan, Counts, split_labels, weight}
use fgvcplateform_public.Dataset.Build.{
  LabeledImage, Identity, Pending, Site, Building, empty_archive, put, keep_base,
}

-- The groups of the images that are new.
pub record Gathering : Type 0 where
  pub known : Assoc Identity
  pub groups : Assoc (List Pending)
  pub duplicates : ℕ
  pub incoming : ℕ

abbrev pub size_of : ℤ → ℕ
size_of (pos n) = n
size_of (negsuc n) = 0

-- SizeBytes <= 0 || SizeBytes > maxImageBytes || len(SHA256) != 64
unfoldable pub is_bad_image : LabeledImage → Bool
is_bad_image x =
    size_of x.image.size_bytes == 0
    || ltb max_image_bytes (size_of x.image.size_bytes)
    || not (byte_len x.image.sha256 == 64)

abbrev pub is_held_out : String → Bool
is_held_out split = str_eq split "val" || str_eq split "test"

abbrev pub pending_of : LabeledImage → Pending
pending_of x = record { sample = x; digest = x.image.sha256 }

abbrev pub weighed : LabeledImage → Gathering → Gathering
weighed x g = record g { incoming = g.incoming + size_of x.image.size_bytes }

-- a digest that is known, or a new image for the group of its label
unfoldable pub gather_known : LabeledImage → Option Identity → Gathering → Result Gathering
gather_known x (some old) g = do
  refuse (not (str_eq old.label x.label)) (invalid "图片与已有标签冲突；已注册标签不允许修改")
  refuse (is_held_out old.split) (invalid "图片已在验证集或测试集中，禁止重复加入")
  ok (record g { duplicates = g.duplicates + 1 })
gather_known x none g = ok (record g {
  known = insert x.image.sha256 (record { label = x.label; split = "new" }) g.known;
  groups = insert x.label (or_default [] (lookup x.label g.groups) ++ pending_of x ∷ []) g.groups;
})

module _ (to_lower : String → String) (site : Site) where
  -- `total` is the size of the base
  unfoldable pub gather : ℕ → LabeledImage → Gathering → Result Gathering
  gather total x g = do
    refuse (not (safe_part x.label) || not (image_extension to_lower x.filename))
        (invalid "类别名称不能含路径分隔符，图片须为受支持格式")
    refuse (is_bad_image x) invalid_archive
    refuse (ltb max_upload_bytes (g.incoming + size_of x.image.size_bytes + total))
        (invalid "本批与基准版本总量超过 5 GB")
    site.materialized x.image
    gather_known x (lookup x.image.sha256 g.known) (weighed x g)

  unfoldable pub gather_all : ℕ → List LabeledImage → Gathering → Result Gathering
  gather_all total [] g = ok g
  gather_all total (x ∷ xs) g = do g' ← gather total x g; gather_all total xs g'

abbrev pub is_less : Ordering → Bool
is_less Ordering.lt = true
is_less _ = false

-- sort.Strings
abbrev pub place_text : String → List String → List String
place_text x [] = x ∷ []
place_text x (y ∷ ys) = if is_less (compare y x) then y ∷ place_text x ys else x ∷ y ∷ ys

unfoldable pub sort_texts : List String → List String
sort_texts [] = []
sort_texts (x ∷ xs) = place_text x (sort_texts xs)

abbrev pub keys_of {ℓ} : {A : Type ℓ} → Assoc A → List String
keys_of [] = []
keys_of ((k, v) ∷ rest) = k ∷ keys_of rest

abbrev pub decimal_int : ℤ → String
decimal_int (pos n) = decimal n
decimal_int (negsuc n) = str_append "-" (decimal (suc n))

module _ (digest_of : String → String) (seed : ℤ) where
  -- SHA-256 of "%d:%s", in hex digits, which are in the order of the bytes
  abbrev pub rank : Pending → String
  rank item = digest_of (str_append (decimal_int seed) (str_append ":" item.digest))

  abbrev pub place_item : Pending → List Pending → List Pending
  place_item x [] = x ∷ []
  place_item x (y ∷ ys) =
      if is_less (compare (rank y) (rank x)) then y ∷ place_item x ys else x ∷ y ∷ ys

  -- sort.Slice; the digests of a group differ, so no two ranks are the same
  unfoldable pub sort_items : List Pending → List Pending
  sort_items [] = []
  sort_items (x ∷ xs) = place_item x (sort_items xs)

abbrev pub allocation : SplitPlan → Bool → ℕ → Counts
allocation plan train_only n =
    if train_only then record { trained = n; validated = 0; tested = 0 } else split_labels n plan

-- the part of the item at place `i`
abbrev pub part_of : Counts → ℕ → String
part_of c i =
    if ltb i c.trained then "train" else if ltb i (c.trained + c.validated) then "val" else "test"

-- sample_sources
pub record Origin : Type 0 where
  pub annotation_task_id : String
  pub sha256 : String

pub record Report : Type 0 where
  pub added_count : ℕ
  pub duplicate_count : ℕ
  pub sample_sources : Assoc Origin
  pub warnings : List String
  pub new_classes : List String
  pub existing_class_additions : Assoc ℕ
  pub new_class_additions : Assoc ℕ

abbrev pub empty_report : ℕ → Report
empty_report duplicates = record {
  added_count = 0;
  duplicate_count = duplicates;
  sample_sources = [];
  warnings = [];
  new_classes = [];
  existing_class_additions = [];
  new_class_additions = [];
}

abbrev pub item_name : String → String → Pending → String
item_name partition label item =
    join3 partition label (str_append item.digest (extension item.sample.filename))

abbrev pub sourced : String → Pending → Report → Report
sourced name item r = record r {
  added_count = r.added_count + 1;
  sample_sources =
      insert name (record { annotation_task_id = item.sample.id; sha256 = item.digest })
        r.sample_sources;
}

-- a class that the base has, or a new one
abbrev pub classed : List String → String → ℕ → Report → Report
classed existing label n r =
    if any (λ l. str_eq l label) existing
    then record r { existing_class_additions = insert label n r.existing_class_additions }
    else record r {
      new_classes = r.new_classes ++ label ∷ [];
      new_class_additions = insert label n r.new_class_additions;
    }

abbrev pub warned : SplitPlan → Bool → String → Counts → Report → Report
warned plan train_only label c r =
    if not train_only
      && ((ltb 0 (weight plan.val) && c.validated == 0)
          || (ltb 0 (weight plan.test) && c.tested == 0))
    then record r { warnings = r.warnings ++ str_append label " 样本较少，无法覆盖所有指定集合" ∷ [] }
    else r

module _ (sha256 : Bytes → String) (digest_of : String → String) (site : Site) where
  unfoldable pub put_items :
      String → Counts → ℕ → List Pending → Building × Report → Result (Building × Report)
  put_items label c i [] w = ok w
  put_items label c i (item ∷ rest) (m, r) = do
    b ← read_image (site.opened item.sample.image)
    let name = item_name (part_of c i) label item
    m' ← put sha256 site name label (part_of c i) b m
    put_items label c (suc i) rest (m', sourced name item r)

  unfoldable pub put_class :
      SplitPlan → Bool → String → List Pending → Building × Report → Result (Building × Report)
  put_class plan train_only label group (m, r) =
      let items = sort_items digest_of plan.seed group in
      let c = allocation plan train_only (length items) in
      put_items label c 0 items
        (m, warned plan train_only label c (classed m.existing label (length items) r))

  unfoldable pub put_classes :
      SplitPlan
      → Bool
      → Assoc (List Pending)
      → List String
      → Building × Report
      → Result (Building × Report)
  put_classes plan train_only groups [] w = ok w
  put_classes plan train_only groups (label ∷ labels) w = do
    w' ← put_class plan train_only label (or_default [] (lookup label groups)) w
    put_classes plan train_only groups labels w'

module _ (to_lower : String → String) (sha256 : Bytes → String) (digest_of : String → String)
    (site : Site) where
  -- The archive and the report; its split counts are those of the archive.
  unfoldable pub build_labeled_archive :
      Option (Snapshot × Result (List Member))
      → List LabeledImage
      → SplitPlan
      → Bool
      → Result (Building × Report)
  build_labeled_archive base images plan train_only = do
    refuse (not (is_valid_plan plan)) (invalid "训练比例必须大于 0，三个整数比例之和必须为 100")
    refuse (length images == 0 || ltb 10_000 (length images)) (invalid "")
    refuse site.temp_fails failed
    m ← keep_base sha256 site base empty_archive
    g ←
        gather_all to_lower site m.total images
          (record { known = m.seen; groups = []; duplicates = 0; incoming = 0 })
    w ←
        put_classes sha256 digest_of site plan train_only g.groups (sort_texts (keys_of g.groups))
          (m, empty_report g.duplicates)
    refuse (w.1.added_count == 0) (invalid "去重后没有可新增的图片")
    refuse site.close_fails failed
    ok w
