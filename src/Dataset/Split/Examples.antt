-- ===== src/Dataset/Split/Examples.antt =====
-- A plan on which the theorem applies: 80, 10 and 10 percent of seven images.
use fgvcplateform_public.Base.{◌≡◌, refl, true, pos}
use fgvcplateform_public.Dataset.Split.{SplitPlan, is_valid_plan, split_labels}
use fgvcplateform_public.Dataset.Split.Shares.{IsFair, split_labels-IsFair}

abbrev plan : SplitPlan
plan = record { train = pos 80; val = pos 10; test = pos 10; seed = pos 1 }

plan_valid : is_valid_plan plan ≡ true
unfolding is_valid_plan
plan_valid = refl

split_labels-IsFair_example : IsFair 7 plan (split_labels 7 plan)
split_labels-IsFair_example = split_labels-IsFair 7 plan plan_valid
