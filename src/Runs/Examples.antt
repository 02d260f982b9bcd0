-- ===== src/Runs/Examples.antt =====
-- A conversation and its runs on which the theorems apply.
use fgvcplateform_public.Base.{
  ◌<◌, ◌≡◌, refl, String, Bool, true, some, List, [], ◌∷◌, arith, byte_len, trim_space,
}
use fgvcplateform_public.Base.Assoc.{lookup}
use fgvcplateform_public.Base.Tables.{IsKeyed}
use fgvcplateform_public.Base.Changes.{Later}
use fgvcplateform_public.Runs.{Status, running, waiting_confirmation, Proposal, Run, Store, ok}
use fgvcplateform_public.Runs.Submission.{
  first_run, submit, submit_found, submit_in, find_key, answered, history,
}
use fgvcplateform_public.Runs.Control.{confirm, confirm_found, confirm_proposal}
use fgvcplateform_public.Runs.Calls.{Call, submits, claims, beats, cancels, run}
use fgvcplateform_public.Runs.Moves.{Moves, IsBounded}
use fgvcplateform_public.Runs.Steps.{run-IsBounded, run-Moves}
use fgvcplateform_public.Runs.Fencing.{IsShutOut, stale_epoch-IsShutOut}
use fgvcplateform_public.Runs.Submitted.{submit-again}
use fgvcplateform_public.Runs.Confirmed.{confirm-again}

abbrev any_key : String → Bool
any_key s = true

abbrev as_is : String → String
as_is s = s

abbrev empty : Store
empty = record {
  conversations = ("c", record { owner = "ann"; title = "新对话" }) ∷ [];
  runs = [];
  events = [];
}

abbrev calls : List Call
calls =
    submits "r1" "ann" "c" "k" "hello" "g" ∷ claims 10 ∷ beats 20 "r1" 1 ∷ cancels "ann" "r1" ∷ []

run-IsBounded_example : IsBounded (run any_key as_is calls empty).runs
run-IsBounded_example =
    run-IsBounded any_key as_is calls empty tt
      (record { total = omega arith; each = λ owner. omega arith })

abbrev row : Run
row = first_run "ann" "c" "k" "hello" "g" []

submit_accepted : (submit any_key "r1" "ann" "c" "k" "hello" "g" empty).1 ≡ ok ("r1", row)
unfolding submit submit_found submit_in find_key answered history lookup byte_len trim_space
submit_accepted = refl

submit-again_example :
    submit any_key "r2" "ann" "c" "k" "hello" "h"
      (submit any_key "r1" "ann" "c" "k" "hello" "g" empty).0
    ≡ ((submit any_key "r1" "ann" "c" "k" "hello" "g" empty).0, ok ("r1", row))
submit-again_example =
    submit-again any_key "r1" "r2" "ann" "c" "k" "hello" "g" "h" ("r1", row) empty submit_accepted

abbrev plan : Proposal
plan = record {
  call = record { id = "1"; call_type = "function"; name = "create_job"; arguments = "{}" };
  arguments = "{}";
  operation_id = "op";
  confirmed = Bool.false;
}

-- a run that waits for its owner, and another at work for the second time
abbrev asking : Run
asking = record row {
  status = waiting_confirmation;
  state = record (row.state) { proposal = some plan };
}

abbrev at_work : Run
at_work = record row { status = running; epoch = 2; lease_until = some 100; key = "k2" }

abbrev store : Store
store = record empty { runs = ("r1", asking) ∷ ("r2", at_work) ∷ [] }

store_keyed : IsKeyed store.runs
unfolding lookup
store_keyed = (refl, (refl, tt))

run-Moves_example : Later Moves store.runs (run any_key as_is calls store).runs
run-Moves_example = run-Moves any_key as_is calls store store_keyed

r2_found : lookup "r2" store.runs ≡ some at_work
unfolding lookup
r2_found = refl

old_copy : Run.epoch (record at_work { epoch = 1 }) < at_work.epoch
old_copy = omega arith

stale_epoch-IsShutOut_example :
    IsShutOut 50 "r2"
      (record at_work { epoch = 1 })
      Status.succeeded
      "done"
      []
      (run any_key as_is calls store)
stale_epoch-IsShutOut_example =
    stale_epoch-IsShutOut any_key as_is calls store "r2" at_work (record at_work { epoch = 1 }) 50
      Status.succeeded "done" [] store_keyed r2_found old_copy

confirm_accepted : (confirm as_is "ann" "r1" "op" "receipt" "g" "{}" store).1 ≡ ok tt
unfolding confirm confirm_found confirm_proposal lookup
confirm_accepted = refl

confirm-again_example :
    confirm as_is "ann" "r1" "op" "other" "h" "[]"
      (confirm as_is "ann" "r1" "op" "receipt" "g" "{}" store).0
    ≡ ((confirm as_is "ann" "r1" "op" "receipt" "g" "{}" store).0, ok tt)
confirm-again_example =
    confirm-again as_is "ann" "r1" "op" "receipt" "g" "{}" "other" "h" "[]" store confirm_accepted
