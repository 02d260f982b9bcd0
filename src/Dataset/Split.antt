-- ===== src/Dataset/Split.antt =====
-- go/internal/dataset/annotation_build.go: how the images of a class are divided. SplitLabels is only
-- called on a plan that Validate accepted, whose ratios are not negative.
use fgvcplateform_public.Base.{
  ℕ, zero, suc, ◌+◌, ◌-◌, ◌*◌, ◌/◌, ◌%◌, Bool, true, false, ◌&&◌, ◌||◌, List, [], ◌∷◌,
  if◌then◌else◌, ltb, ◌==◌, ℤ, pos, negsuc, is_negative,
}
mod Shares
mod Examples

pub record SplitPlan : Type 0 where
  pub train : ℤ
  pub val : ℤ
  pub test : ℤ
  pub seed : ℤ

abbrev pub exceeds_percent : ℤ → Bool
exceeds_percent (pos n) = ltb 100 n
exceeds_percent (negsuc n) = false

-- the value of an integer that is not negative
abbrev pub weight : ℤ → ℕ
weight (pos n) = n
weight (negsuc n) = 0

-- Validate returns no error. The last test sees integers of 0 to 100 only.
unfoldable pub is_valid_plan : SplitPlan → Bool
is_valid_plan p =
    if is_negative p.train
      || weight p.train == 0
      || exceeds_percent p.train
      || is_negative p.val
      || exceeds_percent p.val
      || is_negative p.test
      || exceeds_percent p.test
    then false
    else weight p.train + weight p.val + weight p.test == 100

pub data Part : Type 0 where
  train val test : Part

pub record Counts : Type 0 where
  pub trained : ℕ
  pub validated : ℕ
  pub tested : ℕ

abbrev pub weight_of : SplitPlan → Part → ℕ
weight_of p train = weight p.train
weight_of p val = weight p.val
weight_of p test = weight p.test

-- n*weights[i]%100
abbrev pub remainder : ℕ → SplitPlan → Part → ℕ
remainder n p part = n * weight_of p part % 100

-- one step of a stable sort: `x` stood before all of `ys`
abbrev pub place : (Part → ℕ) → Part → List Part → List Part
place rest x [] = x ∷ []
place rest x (y ∷ ys) = if ltb (rest x) (rest y) then y ∷ place rest x ys else x ∷ y ∷ ys

-- sort.SliceStable: by falling remainder
unfoldable pub order_of : (Part → ℕ) → List Part
order_of rest = place rest train (place rest val (place rest test []))

-- counts[part]++
abbrev pub more : Part → Counts → Counts
more train c = record c { trained = c.trained + 1 }
more val c = record c { validated = c.validated + 1 }
more test c = record c { tested = c.tested + 1 }

-- for i := 0; i < left; i++ { counts[order[i]]++ }
unfoldable pub allot : ℕ → List Part → Counts → Counts
allot zero order c = c
allot (suc left) [] c = c
allot (suc left) (part ∷ order) c = allot left order (more part c)

unfoldable pub ensure_training : ℕ → Counts → Counts
ensure_training n c =
    if ltb 0 n && c.trained == 0
    then (if ltb 0 c.validated
        then record { trained = c.trained + 1; validated = c.validated - 1; tested = c.tested }
        else if ltb 0 c.tested
        then record { trained = c.trained + 1; validated = c.validated; tested = c.tested - 1 }
        else c)
    else c

-- the quotas, rounded down
abbrev pub quotas : ℕ → SplitPlan → Counts
quotas n p = record {
  trained = n * weight p.train / 100;
  validated = n * weight p.val / 100;
  tested = n * weight p.test / 100;
}

abbrev pub left_over : ℕ → Counts → ℕ
left_over n c = n - c.trained - c.validated - c.tested

unfoldable pub split_labels : ℕ → SplitPlan → Counts
split_labels n p =
    let q = quotas n p in ensure_training n (allot (left_over n q) (order_of (remainder n p)) q)
