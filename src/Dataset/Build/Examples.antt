-- ===== src/Dataset/Build/Examples.antt =====
-- A build on which the theorem applies.
use fgvcplateform_public.Base.{String, false, some, List, [], ◌∷◌, pos, ◌==◌, if◌then◌else◌}
use fgvcplateform_public.Base.Value.{Fields, str, array, object, nil, cons, end, field}
use fgvcplateform_public.Artifact.{zero_descriptor}
use fgvcplateform_public.Dataset.{ok, value_or, Bytes, Snapshot, Member}
use fgvcplateform_public.Dataset.Split.{SplitPlan}
use fgvcplateform_public.Dataset.Build.{LabeledImage, Site, Building, empty_archive}
use fgvcplateform_public.Dataset.Build.Additions.{Report, empty_report, build_labeled_archive}

abbrev lower : String → String
lower s = s

-- in place of SHA-256 in hex digits
abbrev hex : String
hex = "0123456789abcdef0123456789abcdef0123456789abcdef0123456789abcdef"

abbrev digest : Bytes → String
digest [] = "none"
digest (b ∷ bs) = if b == 7 then hex else "other"

abbrev calm : Site
calm = record {
  temp_fails = false;
  cancelled = λ i. false;
  zip_fails = λ n. false;
  close_fails = false;
  materialized = λ d. ok tt;
  opened = λ d. ok (7 ∷ []);
}

abbrev row : Fields
row = field "path" (str "a.png") (field "label" (str "wren") (field "split" (str "test") end))

abbrev base : Snapshot
base = record {
  dataset_id = "d";
  dataset_key = "d";
  name = "birds";
  version_id = "v";
  number = 1;
  archive = zero_descriptor;
  manifest = ("samples", array (cons (object row) nil)) ∷ [];
}

abbrev files : List Member
files = record { name = "a.png"; is_dir = false; content = ok (5 ∷ []) } ∷ []

abbrev wren : LabeledImage
wren = record {
  id = "t";
  label = "wren";
  filename = "w.png";
  image = record zero_descriptor { sha256 = hex; size_bytes = pos 1 };
}

abbrev plan : SplitPlan
plan = record { train = pos 80; val = pos 10; test = pos 10; seed = pos 1 }

abbrev nothing : Building × Report
nothing = (empty_archive, empty_report 0)

abbrev built : Building × Report
built =
    value_or nothing
      (build_labeled_archive lower digest lower calm (some (base, ok files)) (wren ∷ []) plan false)
