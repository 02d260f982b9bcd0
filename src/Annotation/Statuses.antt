-- ===== src/Annotation/Statuses.antt =====
-- The statuses of a task: which follow from which.
use fgvcplateform_public.Base.{◌≡◌, refl, Bool, true, false, ◌&&◌, ◌||◌, inl, inr, ◌⊎◌}
use fgvcplateform_public.Annotation.{
  Status, pending, queued, running, suggested, failed, unknown, confirmed,
}
use fgvcplateform_public.Annotation.Repository.{
  is_pending, is_queued, is_running, is_confirmed, is_outcome,
}

-- A worker may have called the model for it.
abbrev pub was_claimed : Status → Bool
was_claimed running = true
was_claimed suggested = true
was_claimed failed = true
was_claimed unknown = true
was_claimed _ = false

-- The model has been called for it, or may have been.
abbrev pub is_settled : Status → Bool
is_settled suggested = true
is_settled failed = true
is_settled unknown = true
is_settled _ = false

pub running-claimed : (s : Status) → is_running s ≡ true → was_claimed s ≡ true
running-claimed pending h = cc
running-claimed queued h = cc
running-claimed running h = refl
running-claimed suggested h = cc
running-claimed failed h = cc
running-claimed unknown h = cc
running-claimed confirmed h = cc

-- what a claimed task may have become
pub claimed_cases :
    (s : Status)
    → (was_claimed s || is_confirmed s) ≡ true
    → (is_running s ≡ true)
      ⊎ ((is_settled s ≡ true) × (is_running s ≡ false))
      ⊎ (is_confirmed s ≡ true)
claimed_cases pending h = cc
claimed_cases queued h = cc
claimed_cases running h = inl refl
claimed_cases suggested h = inr (inl (refl, refl))
claimed_cases failed h = inr (inl (refl, refl))
claimed_cases unknown h = inr (inl (refl, refl))
claimed_cases confirmed h = inr (inr refl)

pub settled-claimed : (s : Status) → is_settled s ≡ true → was_claimed s ≡ true
settled-claimed pending h = cc
settled-claimed queued h = cc
settled-claimed running h = cc
settled-claimed suggested h = refl
settled-claimed failed h = refl
settled-claimed unknown h = refl
settled-claimed confirmed h = cc

pub settled-resting : (s : Status) → is_settled s ≡ true → is_running s ≡ false
settled-resting pending h = cc
settled-resting queued h = cc
settled-resting running h = cc
settled-resting suggested h = refl
settled-resting failed h = refl
settled-resting unknown h = refl
settled-resting confirmed h = cc

pub confirmed-resting : (s : Status) → is_confirmed s ≡ true → is_running s ≡ false
confirmed-resting pending h = cc
confirmed-resting queued h = cc
confirmed-resting running h = cc
confirmed-resting suggested h = cc
confirmed-resting failed h = cc
confirmed-resting unknown h = cc
confirmed-resting confirmed h = refl

pub and_right : (a b : Bool) → (a && b) ≡ true → b ≡ true
and_right true b h = h
and_right false b h = cc

pub and_left : (a b : Bool) → (a && b) ≡ true → a ≡ true
and_left true b h = refl
and_left false b h = cc

pub pending-waiting : (s : Status) → is_pending s ≡ true → (is_confirmed s || was_claimed s) ≡ false
pending-waiting pending h = refl
pending-waiting queued h = cc
pending-waiting running h = cc
pending-waiting suggested h = cc
pending-waiting failed h = cc
pending-waiting unknown h = cc
pending-waiting confirmed h = cc

pub queued-waiting : (s : Status) → is_queued s ≡ true → (is_confirmed s || was_claimed s) ≡ false
queued-waiting pending h = cc
queued-waiting queued h = refl
queued-waiting running h = cc
queued-waiting suggested h = cc
queued-waiting failed h = cc
queued-waiting unknown h = cc
queued-waiting confirmed h = cc

pub outcome-settled : (s : Status) → is_outcome s ≡ true → is_settled s ≡ true
outcome-settled pending h = cc
outcome-settled queued h = cc
outcome-settled running h = cc
outcome-settled suggested h = refl
outcome-settled failed h = refl
outcome-settled unknown h = refl
outcome-settled confirmed h = cc
