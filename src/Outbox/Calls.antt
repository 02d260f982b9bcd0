-- ===== src/Outbox/Calls.antt =====
-- Sequences of calls of the memory store, by any relays, in the order in which they take its mutex.
use fgvcplateform_public.Base.{ℕ, String, List, [], ◌∷◌, ℤ}
use fgvcplateform_public.Outbox.{MemoryStore, memory_claim, mark_published, mark_failed}

pub data Call : Type 0 where
  claims : (owner : String) → (now ttl : ℕ) → (limit : ℤ) → Call
  publishes : (id owner : String) → (now : ℕ) → Call
  fails : (id owner : String) → (now : ℕ) → (message : String) → Call

unfoldable pub step : Call → MemoryStore → MemoryStore
step (claims owner now ttl limit) s = (memory_claim owner now ttl limit s).1
step (publishes id owner now) s = (mark_published id owner now s).1
step (fails id owner now message) s = (mark_failed id owner now message s).1

unfoldable pub run : List Call → MemoryStore → MemoryStore
run [] s = s
run (c ∷ cs) s = run cs (step c s)
