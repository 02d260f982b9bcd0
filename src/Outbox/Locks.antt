-- ===== src/Outbox/Locks.antt =====
-- Which events `Claim` takes, and that a lock keeps other relays off an event.
use fgvcplateform_public.Base.{
  ℕ, zero, suc, ◌+◌, ◌-◌, ◌≤◌, String, ◌≡◌, refl, ap, subst, ◌∙◌, Bool, true, false, ◌&&◌, List, [],
  ◌∷◌, map, ltb, if◌then◌else◌, str_eq, eq_iff, ℤ, pos, arith, take, any, leb, ◌==◌, Bool-cases,
  inl, inr,
}
use fgvcplateform_public.Outbox.{
  Event, MemoryStore, due, locked, full, claim_loop, Claimed, events, refused, memory_claim,
}

-- An event that may be handed out: not published, available, and without a lock that lasts.
abbrev pub is_claimable : ℕ → Event → Bool
is_claimable now e = e.published_at == 0 && leb e.available_at now && leb e.lock_expires_at now

-- The reference: the events that may be handed out, in the store's order.
unfoldable pub due_events : ℕ → List Event → List Event
due_events now [] = []
due_events now (e ∷ es) =
    let rest = due_events now es in if is_claimable now e then e ∷ rest else rest

-- The event with a lock of its owner until a time, and otherwise as it was.
abbrev pub held : String → ℕ → Event → Event
held owner until e = record e { lock_owner = owner; lock_expires_at = until }

due-is_claimable : (now : ℕ) (e : Event) → due now e ≡ is_claimable now e
unfolding due
due-is_claimable now e = ground arith

module _ (owner : String) (now ttl : ℕ) where
  claim_loop-all :
      (n : ℕ) (es : List Event)
      → (claim_loop owner now ttl (pos 0) n es).0 ≡ map (held owner (now + ttl)) (due_events now es)
  unfolding claim_loop due_events locked
  claim_loop-all n [] = refl
  claim_loop-all n (e ∷ es) = elim (Bool-cases (is_claimable now e)) [
    | inl d ↦
        rw (due-is_claimable, d)
          (ap (λ xs. locked owner now ttl e ∷ xs) (claim_loop-all (n + 1) es))
    | inr d ↦ rw (due-is_claimable, d) (claim_loop-all n es)
  ]

  claim_loop-some :
      (k n : ℕ) (es : List Event)
      → n ≤ k
      → (claim_loop owner now ttl (pos (suc k)) n es).0
        ≡ map (held owner (now + ttl)) (take (suc (k - n)) (due_events now es))
  unfolding claim_loop due_events locked
  claim_loop-some k n [] h = refl
  claim_loop-some k n (e ∷ es) h = elim (Bool-cases (is_claimable now e)) [
    | inl d ↦
        rw (due-is_claimable, d)
          (ap (λ xs. locked owner now ttl e ∷ xs) (go (claim_loop-some k (n + 1) es) (k - n) refl))
    | inr d ↦ rw (due-is_claimable, d) (claim_loop-some k n es h)
  ]
    where
      go :
          (n + 1 ≤ k
            → (claim_loop owner now ttl (pos (suc k)) (n + 1) es).0
              ≡ map (held owner (now + ttl)) (take (suc (k - (n + 1))) (due_events now es)))
          → (m : ℕ) → k - n ≡ m
          → (if full (pos (suc k)) (n + 1)
              then []
              else (claim_loop owner now ttl (pos (suc k)) (n + 1) es).0)
            ≡ map (held owner (now + ttl)) (take m (due_events now es))
      go later zero e = ground arith
      go later (suc m) e =
          let room : full (pos (suc k)) (n + 1) ≡ false = ground arith in
          let left : suc (k - (n + 1)) ≡ suc m = omega arith in
          rw room (
            later (omega arith)
            ∙ ap (λ j. map (held owner (now + ttl)) (take j (due_events now es))) left)

-- Claim hands out exactly the due events in the store's order, the first `k` of them if the limit
-- `k` is positive, each locked by
-- the caller until the end of the lock's time and otherwise as it was. An event is due if it is not
-- published, its time has come, and no lock on it lasts.
pub memory_claim-due :
    (owner : String) (now ttl k : ℕ) (s : MemoryStore)
    → (memory_claim owner now ttl (pos k) s).0
      ≡ events (
          map
            (held owner (now + ttl))
            (if ltb 0 k then take k (due_events now s.events) else due_events now s.events))
unfolding memory_claim
memory_claim-due owner now ttl zero s = ap events (claim_loop-all owner now ttl 0 s.events)
memory_claim-due owner now ttl (suc k) s =
    let start : suc (k - 0) ≡ suc k = omega arith in
    let limited : ltb 0 (suc k) ≡ true = ground arith in
    rw limited (
      ap events (
        claim_loop-some owner now ttl k 0 s.events (omega arith)
        ∙ ap (λ j. map (held owner (now + ttl)) (take j (due_events now s.events))) start))

abbrev pub has_id : String → List Event → Bool
has_id i es = any (λ e. str_eq e.id i) es

-- No two events of the store have the same id.
abbrev pub UniqueIds : List Event → Type 0
UniqueIds [] = Unit
UniqueIds (e ∷ es) = (has_id e.id es ≡ false) × UniqueIds es

module _ (owner : String) (now ttl : ℕ) (limit : ℤ) where
  -- The loop takes no event that is not in the store, and leaves every event's id there.
  pub claim_loop-has_id :
      (i : String) (n : ℕ) (es : List Event)
      → has_id i es ≡ false
      → (has_id i (claim_loop owner now ttl limit n es).0 ≡ false)
        × (has_id i (claim_loop owner now ttl limit n es).1 ≡ false)
  unfolding claim_loop locked
  claim_loop-has_id i n [] h = (refl, refl)
  claim_loop-has_id i n (e ∷ es) h =
      let later = claim_loop-has_id i (n + 1) es in
      let here = claim_loop-has_id i n es in ground (arith, later, here)

-- Behind an event that is not due, or that has another id.
pub claim_loop-behind :
    (owner : String) (now ttl : ℕ) (limit : ℤ) (i : String) (n : ℕ) (e : Event) (es : List Event)
    → str_eq e.id i && due now e ≡ false
    → has_id i (claim_loop owner now ttl limit n es).0 ≡ false
    → has_id i (claim_loop owner now ttl limit (n + 1) es).0 ≡ false
    → has_id i (claim_loop owner now ttl limit n (e ∷ es)).0 ≡ false
unfolding claim_loop locked
claim_loop-behind owner now ttl limit i n e es d a b = ground arith

pub no_twin :
    (i : String) (e : Event) (es : List Event)
    → str_eq e.id i ≡ true
    → has_id e.id es ≡ false
    → has_id i es ≡ false
no_twin i e es q h = subst (λ j. has_id j es ≡ false) ((eq_iff e.id i).0 q) h

-- The events in a store's answer.
abbrev pub handed_out : Claimed → List Event
handed_out (events es) = es
handed_out (refused e) = []
