-- ===== src/Annotation/Calls.antt =====
-- Sequences of calls of the annotation repository, in the order of their transactions.
use fgvcplateform_public.Base.{ℕ, ℤ, String, Bool, Option, List, [], ◌∷◌}
use fgvcplateform_public.Artifact.{Descriptor}
use fgvcplateform_public.Annotation.{Status, Store}
use fgvcplateform_public.Annotation.Repository.{
  add, queue, queue_all, confirm, claim, finish, memory_ack,
}

pub data Call : Type 0 where
  adds : (pid name : String) → Descriptor → (new_id : String) → Call
  queues : (pid : String) → (ids : List String) → Call
  queues_all : (pid : String) → (last : ℤ) → Call
  confirms : (now : ℕ) → (id label actor : String) → Call
  claims : (now : ℕ) → (token : String) → Call
  finishes : (now : ℕ) → (id token : String) → Status → (result message : String) → Call
  acks : (now : ℕ) → (id : String) → (delivered : Bool) → (message : String) → Call

-- `seq` is the column of that name.
module _ (is_uuid : String → Bool) (seq : String → ℕ) (parse : String → Option (List String))
    (same_json : String → String → Bool) where
  unfoldable pub step : Call → Store → Store
  step (adds pid name image new_id) s = (add pid name image new_id s).0
  step (queues pid ids) s = (queue is_uuid pid ids s).0
  step (queues_all pid last) s = (queue_all seq pid last s).0
  step (confirms now id label actor) s = (confirm now id label actor s).0
  step (claims now token) s = (claim now token s).0
  step (finishes now id token status result message) s =
      (finish parse same_json now id token status result message s).0
  step (acks now id delivered message) s = memory_ack now id delivered message s

  unfoldable pub run : List Call → Store → Store
  run [] s = s
  run (c ∷ cs) s = run cs (step c s)
