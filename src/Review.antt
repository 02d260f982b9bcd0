-- ===== src/Review.antt =====
-- go/internal/review/review.go: the validation of a reviewer's submission.
use fgvcplateform_public.Base.{
  ℕ, String, Bool, true, false, not, ◌&&◌, ◌||◌, Option, none, some, str_eq, if◌then◌else◌, ltb,
  is_empty, trim_space, byte_len,
}
mod Routes

pub record Submission : Type 0 where
  pub outcome : String
  pub destination : String
  pub label : String
  pub note : String
  pub reviewer : String

-- The table `allowed`.
unfoldable pub allowed : String → Option String
allowed outcome =
    if str_eq outcome "confirmed_label"
    then some "training_candidate"
    else if str_eq outcome "corrected_label"
    then some "training_candidate"
    else if str_eq outcome "ood"
    then some "ood_stress"
    else if str_eq outcome "bad_image"
    then some "bad_image"
    else if str_eq outcome "uncertain"
    then some "taxonomy_dispute"
    else if str_eq outcome "ignore"
    then some "ignore"
    else none

abbrev pub misrouted : String → String → Option String → Bool
misrouted outcome destination none = true
misrouted outcome destination (some dest) =
    not (str_eq destination dest) && not (str_eq outcome "uncertain" && str_eq destination "ignore")

abbrev pub trimmed : Submission → Submission
trimmed s = record s { label = trim_space s.label }

-- The tests of Validate, on the submission with its label trimmed.
unfoldable pub admits : Submission → Bool
admits s =
    if misrouted s.outcome s.destination (allowed s.outcome)
    then false
    else if (str_eq s.outcome "confirmed_label" || str_eq s.outcome "corrected_label")
        && is_empty s.label
    then false
    else not
        (ltb 512 (byte_len s.label) || ltb 8192 (byte_len s.note) || ltb 256 (byte_len s.reviewer))

-- Validate: whether it returns no error, and the submission that it leaves.
unfoldable pub validate : Submission → Bool × Submission
validate s = (admits (trimmed s), trimmed s)
