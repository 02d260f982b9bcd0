-- ===== src/Dataset/Build/Extended.antt =====
-- A successful build extends the base: nothing of it changes, and no image of it comes in again.
use fgvcplateform_public.Base.{◌≤◌, ◌≡◌, ◌≢◌, String, some, List, ◌++◌, All}
use fgvcplateform_public.Base.Assoc.{lookup}
use fgvcplateform_public.Dataset.{Bytes, max_upload_images, max_upload_bytes}
use fgvcplateform_public.Dataset.Merge.{Entry}
use fgvcplateform_public.Dataset.Build.{Building}
use fgvcplateform_public.Dataset.Build.Additions.{Origin, Report}

-- `kept` are the entries that come from the base.
pub record IsExtended (sha256 : Bytes → String) (kept : List Entry) (w : Building × Report)
    : Type 0 where
  -- the entries of the base come first, as they are
  pub rest : List Entry
  pub entries : w.0.entries ≡ kept ++ rest
  -- the limits on the whole archive
  pub few : w.0.count ≤ max_upload_images
  pub small : w.0.total ≤ max_upload_bytes
  -- an image that is reported as added is none of the base's, in whatever part
  pub new_images :
      (name : String) (o : Origin)
      → lookup name w.1.sample_sources ≡ some o
      → All (λ (e : Entry). sha256 e.content ≢ o.sha256) kept
