-- ===== src/Models/Releases.antt =====
-- go/internal/modelregistry/releases.go: the release that a data set was given last.
use fgvcplateform_public.Base.{
  String, Bool, true, false, not, ◌&&◌, Option, none, some, List, [], ◌∷◌, str_eq, if◌then◌else◌,
  ltb, ℤ, pos, negsuc, is_empty,
}
use fgvcplateform_public.Models.{Version}

-- n > m
abbrev pub exceeds : ℤ → ℤ → Bool
exceeds (pos n) (pos m) = ltb m n
exceeds (pos n) (negsuc m) = true
exceeds (negsuc n) (pos m) = false
exceeds (negsuc n) (negsuc m) = ltb n m

-- latest == nil || v.ReleaseSequence > latest.ReleaseSequence
abbrev pub supersedes : Version → Option Version → Bool
supersedes v none = true
supersedes v (some latest) = exceeds v.release_sequence latest.release_sequence

unfoldable pub is_released : String → Version → Bool
is_released dataset v = str_eq v.dataset_id dataset && not (is_empty v.release_version)

-- the loop, with `latest` as it stands
unfoldable pub latest_from : String → Option Version → List Version → Option Version
latest_from dataset latest [] = latest
latest_from dataset latest (v ∷ rest) =
    latest_from dataset (if is_released dataset v && supersedes v latest then some v else latest)
      rest

unfoldable pub latest_release : List Version → String → Option Version
latest_release versions dataset = latest_from dataset none versions
