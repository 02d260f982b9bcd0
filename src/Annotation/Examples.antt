-- ===== src/Annotation/Examples.antt =====
-- A project and a task of it on which the theorems apply.
use fgvcplateform_public.Base.{
  ℕ, pos, ◌≡◌, refl, byte_len, String, Bool, true, Option, some, List, [], ◌∷◌, str_eq,
}
use fgvcplateform_public.Base.Assoc.{lookup}
use fgvcplateform_public.Artifact.{zero_descriptor}
use fgvcplateform_public.Base.Tables.{IsKeyed}
use fgvcplateform_public.Annotation.{Project, running, suggested, Task, Store, ok}
use fgvcplateform_public.Annotation.Repository.{
  finish, finish_found, finish_in, finish_valid, valid_candidates,
}
use fgvcplateform_public.Annotation.Calls.{Call, claims, confirms, queues, queues_all, run}
use fgvcplateform_public.Base.Changes.{Later}
use fgvcplateform_public.Annotation.Moves.{Moves}
use fgvcplateform_public.Annotation.Lifecycle.{run-Later}
use fgvcplateform_public.Annotation.Repeats.{finish-repeated}

abbrev birds : Project
birds = record {
  id = "p";
  name = "birds";
  classes = record { id = "w"; name = "wren" } ∷ record { id = "r"; name = "robin" } ∷ [];
  method = "A";
  domain = "birds";
}

abbrev image : Task
image = record {
  project_id = "p";
  filename = "a.png";
  image = zero_descriptor;
  sha = "1";
  status = running;
  result = "{}";
  label = "";
  actor = "";
  error = "";
  claim_token = some "token";
  lease_until = some 100;
}

abbrev store : Store
store = record { projects = ("p", birds) ∷ []; tasks = ("t", image) ∷ []; events = []; outbox = [] }

abbrev any_uuid : String → Bool
any_uuid s = true

abbrev row_number : String → ℕ
row_number id = 1

-- every report names both classes
abbrev both : String → Option (List String)
both s = some ("w" ∷ "r" ∷ [])

store_keyed : IsKeyed store.tasks
unfolding lookup
store_keyed = (refl, tt)

abbrev calls : List Call
calls =
    claims 200 "other"
    ∷ confirms 300 "t" "w" "ann"
    ∷ queues "p" ("t" ∷ [])
    ∷ queues_all "p" (pos 7)
    ∷ []

run-Later_example : Later Moves store.tasks (run any_uuid row_number both str_eq calls store).tasks
run-Later_example = run-Later any_uuid row_number both str_eq calls store store_keyed

report_accepted : (finish both str_eq 50 "t" "token" suggested "[w,r]" "" store).1 ≡ ok tt
unfolding finish finish_found finish_in finish_valid valid_candidates lookup byte_len
report_accepted = refl

finish-repeated_example :
    finish both str_eq 70 "t" "token" suggested "[w,r]" ""
      (finish both str_eq 50 "t" "token" suggested "[w,r]" "" store).0
    ≡ ((finish both str_eq 50 "t" "token" suggested "[w,r]" "" store).0, ok tt)
finish-repeated_example =
    finish-repeated both str_eq 50 70 "t" "token" suggested "[w,r]" "" store refl report_accepted
