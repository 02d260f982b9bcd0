-- ===== src/Outbox.antt =====
-- go/internal/outbox/relay.go: the relay that publishes outbox events under short locks, and its
-- memory store. A Go error is an optional text; times are nanoseconds since the zero time.
use fgvcplateform_public.Base.{
  ℕ, zero, suc, ◌+◌, ◌-◌, ◌*◌, ◌^◌, min, String, Bool, true, false, not, ◌&&◌, Option, none, some,
  List, [], ◌∷◌, ◌++◌, ltb, leb, ◌==◌, if◌then◌else◌, str_eq, ℤ, pos, negsuc,
}
use fgvcplateform_public.Base.Assoc.{Assoc}
pub mod Locks
pub mod Calls
pub mod Batch
mod Exclusion
mod Examples

pub record Event : Type 0 where
  pub id : String
  pub message_id : String
  pub event_type : String
  pub schema_version : ℤ
  pub payload : String
  pub headers : Assoc String
  pub available_at : ℕ
  pub created_at : ℕ
  pub published_at : ℕ
  pub lock_owner : String
  pub lock_expires_at : ℕ
  pub publish_attempts : ℕ
  pub last_error : String

pub record MemoryStore : Type 0 where
  pub events : List Event
  pub fail_next_mark_published : Option String

-- The test that `Claim` skips an event by, negated.
unfoldable pub due : ℕ → Event → Bool
due now e =
    e.published_at == 0
    && not (ltb now e.available_at)
    && not (not (e.lock_expires_at == 0) && ltb now e.lock_expires_at)

unfoldable pub locked : String → ℕ → ℕ → Event → Event
locked owner now ttl e = record e { lock_owner = owner; lock_expires_at = now + ttl }

-- limit > 0 && len(claimed) >= limit
abbrev pub full : ℤ → ℕ → Bool
full (pos k) n = ltb 0 k && leb k n
full (negsuc k) n = false

-- The loop of `Claim`, with the number of events claimed so far: the events it appends, and the
-- events it leaves in the store.
unfoldable pub claim_loop : String → ℕ → ℕ → ℤ → ℕ → List Event → List Event × List Event
claim_loop owner now ttl limit n [] = ([], [])
claim_loop owner now ttl limit n (e ∷ es) =
    let next = claim_loop owner now ttl limit (n + 1) es in
    let skip = claim_loop owner now ttl limit n es in
    let l = locked owner now ttl e in
    let stop = full limit (n + 1) in
    if due now e
    then (l ∷ (if stop then [] else next.0), l ∷ (if stop then es else next.1))
    else (skip.0, e ∷ skip.1)

-- What a store answers to Claim.
pub data Claimed : Type 0 where
  events : List Event → Claimed
  refused : String → Claimed

unfoldable pub memory_claim : String → ℕ → ℕ → ℤ → MemoryStore → Claimed × MemoryStore
memory_claim owner now ttl limit s =
    let r = claim_loop owner now ttl limit 0 s.events in (events r.0, record s { events = r.1 })

-- find: an edit of the first event with this id that this owner has locked.
unfoldable pub edit_locked : String → String → (Event → Event) → List Event → Option (List Event)
edit_locked id owner f [] = none
edit_locked id owner f (e ∷ es) =
    let rest = edit_locked id owner f es in
    if str_eq e.id id && str_eq e.lock_owner owner
    then some (f e ∷ es)
    else elim rest [ none ↦ none | some es' ↦ some (e ∷ es') ]

abbrev pub put_back : MemoryStore → Option (List Event) → Option String × MemoryStore
put_back s none = (some "outbox event is not locked by relay", s)
put_back s (some es) = (none, record s { events = es })

unfoldable pub as_published : ℕ → Event → Event
as_published now e = record e {
  published_at = now;
  lock_owner = "";
  lock_expires_at = 0;
  publish_attempts = e.publish_attempts + 1;
}

unfoldable pub mark_published : String → String → ℕ → MemoryStore → Option String × MemoryStore
mark_published id owner now s = elim s.fail_next_mark_published [
  | some e ↦ (some e, record s { fail_next_mark_published = none })
  | none ↦ put_back s (edit_locked id owner (as_published now) s.events)
]

-- 1<<min(attempts-1, 6) seconds, for the incremented count
unfoldable pub retry_delay : ℕ → ℕ
retry_delay attempts = 2 ^ min (attempts - 1) 6 * 1_000_000_000

unfoldable pub as_failed : ℕ → String → Event → Event
unfolding retry_delay
as_failed now message e = record e {
  publish_attempts = e.publish_attempts + 1;
  available_at = now + retry_delay (e.publish_attempts + 1);
  last_error = message;
  lock_owner = "";
  lock_expires_at = 0;
}

unfoldable pub mark_failed :
    String → String → ℕ → String → MemoryStore → Option String × MemoryStore
mark_failed id owner now message s =
    put_back s (edit_locked id owner (as_failed now message) s.events)

-- The interface Store, over the state that an implementation keeps.
pub record Store (S : Type 0) : Type 0 where
  pub claim : String → ℕ → ℕ → ℤ → S → Claimed × S
  pub mark_published : String → String → ℕ → S → Option String × S
  pub mark_failed : String → String → ℕ → String → S → Option String × S

unfoldable pub memory_store : Store MemoryStore
memory_store = record {
  claim = memory_claim;
  mark_published = mark_published;
  mark_failed = mark_failed;
}

abbrev pub joined : Option String → List String
joined none = []
joined (some e) = e ∷ []

-- The state of the loop of RunBatch: the store, the publisher's world, the count and the errors
-- joined so far.
pub record Progress (S : Type 0) (W : Type 0) : Type 0 where
  pub store : S
  pub world : W
  pub published : ℕ
  pub errors : List String

module _ {S W : Type 0} (ops : Store S) (publish : Event → W → Option String × W) where
  abbrev pub after_mark : Progress S W → W → Option String × S → Progress S W
  after_mark p w (none, s) = record {
    store = s;
    world = w;
    published = p.published + 1;
    errors = p.errors;
  }
  after_mark p w (some e, s) = record {
    store = s;
    world = w;
    published = p.published;
    errors = p.errors ++ e ∷ [];
  }

  abbrev pub after_publish : String → ℕ → Event → Progress S W → Option String × W → Progress S W
  after_publish owner now e p (none, w) = after_mark p w (ops.mark_published e.id owner now p.store)
  after_publish owner now e p (some err, w) =
      let (m, s) = ops.mark_failed e.id owner now err p.store in
      record { store = s; world = w; published = p.published; errors = p.errors ++ err ∷ joined m }

  unfoldable pub run_events : String → ℕ → List Event → Progress S W → Progress S W
  run_events owner now [] p = p
  run_events owner now (e ∷ es) p =
      run_events owner now es (after_publish owner now e p (publish e p.world))

  abbrev pub run_claimed : String → ℕ → W → Claimed × S → Progress S W
  run_claimed owner now w (refused e, s) = record {
    store = s;
    world = w;
    published = 0;
    errors = e ∷ [];
  }
  run_claimed owner now w (events es, s) =
      run_events owner now es (record { store = s; world = w; published = 0; errors = [] })

  -- RunBatch of the relay `owner` at the time `now`; its locks last a minute.
  unfoldable pub run_batch : String → ℕ → ℤ → S → W → Progress S W
  run_batch owner now limit s w =
      run_claimed owner now w (ops.claim owner now 60_000_000_000 limit s)
