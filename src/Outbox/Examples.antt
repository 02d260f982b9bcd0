-- ===== src/Outbox/Examples.antt =====
-- Two relays on one store: runs on which the theorems of the outbox apply.
use fgvcplateform_public.Base.{
  ℕ, ◌+◌, ◌≤◌, String, ◌≡◌, refl, ◌↔◌, true, false, Option, none, List, [], ◌∷◌, map, ltb,
  if◌then◌else◌, take, pos, arith,
}
use fgvcplateform_public.Outbox.{
  Event, MemoryStore, due, locked, claim_loop, events, memory_claim, memory_store, run_batch,
}
use fgvcplateform_public.Outbox.Locks.{
  due_events, held, memory_claim-due, has_id, UniqueIds, handed_out,
}
use fgvcplateform_public.Outbox.Calls.{Call, claims, publishes, run}
use fgvcplateform_public.Outbox.Exclusion.{memory_claim-exclusive}
use fgvcplateform_public.Outbox.Batch.{run_batch_complete}

abbrev event : String → String → Event
event id owner = record {
  id = id;
  message_id = id;
  event_type = "training.job.ready.v1";
  schema_version = pos 1;
  payload = "";
  headers = [];
  available_at = 3;
  created_at = 3;
  published_at = 0;
  lock_owner = owner;
  lock_expires_at = 0;
  publish_attempts = 0;
  last_error = "";
}

abbrev two : MemoryStore
two = record { events = event "x" "a" ∷ event "y" "" ∷ []; fail_next_mark_published = none }

two-UniqueIds : UniqueIds two.events
two-UniqueIds = (refl, (refl, tt))

memory_claim-due_example :
    (memory_claim "a" 5 60 (pos 1) two).0
    ≡ events (
        map
          (held "a" 65)
          (if ltb 0 1 then take 1 (due_events 5 two.events) else due_events 5 two.events))
memory_claim-due_example = memory_claim-due "a" 5 60 1 two

claimed-x : has_id "x" (handed_out (memory_claim "a" 5 60 (pos 1) two).0) ≡ true
unfolding memory_claim claim_loop due locked
claimed-x = refl

-- while the lock of "x" lasts: another relay claims all it can, and publishes the other event
abbrev meanwhile : List Call
meanwhile = claims "b" 20 60 (pos 0) ∷ publishes "y" "b" 25 ∷ []

memory_claim-exclusive_example :
    has_id "x" (
      handed_out
        (memory_claim "b" 30 60 (pos 0) (run meanwhile (memory_claim "a" 5 60 (pos 1) two).1)).0)
    ≡ false
memory_claim-exclusive_example =
    memory_claim-exclusive "a" "x" 5 60 (pos 1) two meanwhile "b" 30 60 (pos 0) two-UniqueIds
      claimed-x (omega arith, (refl, tt)) (omega arith)

-- A publisher that accepts everything and counts.
abbrev accepts : Event → ℕ → Option String × ℕ
accepts e n = (none, n + 1)

both-claimed :
    (memory_claim "a" 5 60_000_000_000 (pos 0) two).0
    ≡ events (
        locked "a" 5 60_000_000_000 (event "x" "a")
        ∷ locked "a" 5 60_000_000_000 (event "y" "")
        ∷ [])
unfolding memory_claim claim_loop due locked
both-claimed = refl

run_batch_complete_example :
    ((run_batch memory_store accepts "a" 5 (pos 0) two 0).published ≤ 2)
    × (((run_batch memory_store accepts "a" 5 (pos 0) two 0).errors ≡ [])
        ↔ ((run_batch memory_store accepts "a" 5 (pos 0) two 0).published ≡ 2))
unfolding memory_store
run_batch_complete_example =
    run_batch_complete memory_store accepts "a" 5 (pos 0) two 0
      (locked "a" 5 60_000_000_000 (event "x" "a")
        ∷ locked "a" 5 60_000_000_000 (event "y" "")
        ∷ [])
      both-claimed
