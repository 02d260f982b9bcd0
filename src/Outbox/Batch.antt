-- ===== src/Outbox/Batch.antt =====
-- What RunBatch counts and reports, and what becomes of an event that it has marked.
use fgvcplateform_public.Base.{
  ℕ, zero, suc, ◌+◌, ◌-◌, ◌^◌, ◌≤◌, ◌<◌, min, String, ◌≡◌, refl, ap, ◌∙◌, ◌↔◌, true, false, ◌&&◌,
  Option, none, some, List, [], ◌∷◌, str_eq, ℤ, arith, length, length-append, Bool-cases,
  Option-cases, inl, inr,
}
use fgvcplateform_public.Outbox.{
  Event, MemoryStore, due, claim_loop, Claimed, events, memory_claim, edit_locked, put_back,
  as_published, mark_published, retry_delay, as_failed, mark_failed, Store, Progress, joined,
  after_mark, after_publish, run_events, run_claimed, run_batch,
}
use fgvcplateform_public.Outbox.Locks.{
  has_id, UniqueIds, no_twin, claim_loop-has_id, claim_loop-behind, handed_out,
}

-- Of `n` events, what the loop adds to the count and to the errors.
record Tally {S W : Type 0} (n : ℕ) (p : Progress S W) (q : Progress S W) : Type 0 where
  pub bounded : q.published ≤ p.published + n
  pub nothing_lost : length p.errors + (p.published + n) ≤ length q.errors + q.published
  pub no_fuss : q.published ≡ p.published + n → q.errors ≡ p.errors

module _ {S W : Type 0} (ops : Store S) (publish : Event → W → Option String × W) where
  mark-Tally :
      (p : Progress S W) (w : W) (r : Option String × S) → Tally 1 p (after_mark ops publish p w r)
  mark-Tally p w (none, s) = record {
    bounded = omega arith;
    nothing_lost = omega arith;
    no_fuss = λ h. refl;
  }
  mark-Tally p w (some e, s) = record {
    bounded = omega arith;
    nothing_lost = omega (arith, length-append p.errors (e ∷ []));
    no_fuss = λ h. ground arith;
  }

  publish-Tally :
      (owner : String) (now : ℕ) (e : Event) (p : Progress S W) (r : Option String × W)
      → Tally 1 p (after_publish ops publish owner now e p r)
  publish-Tally owner now e p (none, w) = mark-Tally p w (ops.mark_published e.id owner now p.store)
  publish-Tally owner now e p (some err, w) =
      let m = (ops.mark_failed e.id owner now err p.store).0 in
      record {
        bounded = omega arith;
        nothing_lost = omega (arith, length-append p.errors (err ∷ joined m));
        no_fuss = λ h. ground arith;
      }

  run_events-Tally :
      (owner : String) (now : ℕ) (es : List Event) (p : Progress S W)
      → Tally (length es) p (run_events ops publish owner now es p)
  unfolding run_events
  run_events-Tally owner now [] p = record {
    bounded = omega arith;
    nothing_lost = omega arith;
    no_fuss = λ h. refl;
  }
  run_events-Tally owner now (e ∷ es) p =
      let p' = after_publish ops publish owner now e p (publish e p.world) in
      let a = publish-Tally owner now e p (publish e p.world) in
      let b = run_events-Tally owner now es p' in
      record {
        bounded = omega (arith, a.bounded, b.bounded);
        nothing_lost = omega (arith, a.nothing_lost, b.nothing_lost);
        no_fuss = λ h.
            b.no_fuss (omega (arith, a.bounded, b.bounded, h))
            ∙ a.no_fuss (omega (arith, a.bounded, b.bounded, h));
      }

  run_claimed_complete :
      (owner : String) (now : ℕ) (w : W) (c : Claimed) (s : S) (es : List Event)
      → c ≡ events es
      → let q = run_claimed ops publish owner now w (c, s) in
        (q.published ≤ length es) × ((q.errors ≡ []) ↔ (q.published ≡ length es))
  run_claimed_complete owner now w c s es h =
      let t =
        run_events-Tally owner now es
          (record { store = s; world = w; published = 0; errors = [] }) in
      rw h (
        omega (arith, t.bounded),
        (
          (λ e. omega (arith, t.nothing_lost, t.bounded, ap length e)),
          (λ k. t.no_fuss (omega (arith, k))),
        ),
      )

-- RunBatch over any store and any publisher counts at most the events that the store handed out,
-- and reports no error exactly when it counted all of them.
pub run_batch_complete :
    {S W : Type 0} (ops : Store S) (publish : Event → W → Option String × W) (owner : String)
    (now : ℕ) (limit : ℤ) (s : S) (w : W) (es : List Event)
    → (ops.claim owner now 60_000_000_000 limit s).0 ≡ events es
    → let q = run_batch ops publish owner now limit s w in
      (q.published ≤ length es) × ((q.errors ≡ []) ↔ (q.published ≡ length es))
unfolding run_batch
run_batch_complete ops publish owner now limit s w es c =
    let r = ops.claim owner now 60_000_000_000 limit s in
    run_claimed_complete ops publish owner now w r.0 r.1 es c

absent-edit_locked :
    (id owner : String) (f : Event → Event) (es : List Event)
    → has_id id es ≡ false
    → edit_locked id owner f es ≡ none
unfolding edit_locked
absent-edit_locked id owner f [] h = refl
absent-edit_locked id owner f (e ∷ es) h =
    let rest = absent-edit_locked id owner f es (ground arith) in ground (arith, rest)

-- An edit that keeps the id hides the event from a claim, if the edited event is not due.
edit_locked-hides :
    (id owner : String) (f : Event → Event) (owner' : String) (now' ttl : ℕ) (limit : ℤ)
    → ((e : Event) → due now' (f e) ≡ false)
    → ((e : Event) → (f e).id ≡ e.id)
    → (n : ℕ) (es es' : List Event) → UniqueIds es
    → edit_locked id owner f es ≡ some es'
    → has_id id (claim_loop owner' now' ttl limit n es').0 ≡ false
unfolding edit_locked
edit_locked-hides id owner f owner' now' ttl limit hidden kept n [] es' u h = cc
edit_locked-hides id owner f owner' now' ttl limit hidden kept n (e ∷ es) es' u h =
    elim (Bool-cases (str_eq e.id id && str_eq e.lock_owner owner)) [
      | inl t ↦
          let q : str_eq e.id id ≡ true = ground arith in
          let here : es' ≡ f e ∷ es = ground (arith, rw t at h) in
          let gone = λ (m : ℕ).
            (claim_loop-has_id owner' now' ttl limit id m es (no_twin id e es q u.0)).0 in
          rw here (
            claim_loop-behind owner' now' ttl limit id n (f e) es (ground (arith, hidden e))
              (gone n) (gone (n + 1)))
      | inr t ↦ elim (Option-cases (edit_locked id owner f es)) [
        | inl o ↦ ground (arith, rw (t, o) at h)
        | inr (es'', o) ↦
            let there : es' ≡ e ∷ es'' = ground (arith, rw (t, o) at h) in
            let other : str_eq e.id id ≡ false = elim (Bool-cases (str_eq e.id id)) [
              | inl q ↦ let b = absent-edit_locked id owner f es (no_twin id e es q u.0) in cc
              | inr q ↦ q
            ] in
            let rest = λ (m : ℕ).
              edit_locked-hides id owner f owner' now' ttl limit hidden kept m es es'' u.1 o in
            rw there (
              claim_loop-behind owner' now' ttl limit id n e es'' (ground (arith, other)) (rest n)
                (rest (n + 1)))
      ]
    ]

hides :
    (id owner : String) (f : Event → Event) (owner' : String) (now' ttl : ℕ) (limit : ℤ)
    (s : MemoryStore)
    → ((e : Event) → due now' (f e) ≡ false)
    → ((e : Event) → (f e).id ≡ e.id)
    → UniqueIds s.events
    → (put_back s (edit_locked id owner f s.events)).0 ≡ none
    → has_id id (
        handed_out
          (memory_claim owner' now' ttl limit (put_back s (edit_locked id owner f s.events)).1).0)
      ≡ false
unfolding memory_claim
hides id owner f owner' now' ttl limit s hidden kept u h =
    elim (Option-cases (edit_locked id owner f s.events)) [
      | inl o ↦ ground (arith, rw o at h)
      | inr (es', o) ↦
          rw o (edit_locked-hides id owner f owner' now' ttl limit hidden kept 0 s.events es' u o)
    ]

published-due : (now now' : ℕ) (e : Event) → 0 < now → due now' (as_published now e) ≡ false
unfolding due as_published
published-due now now' e h = ground arith

mark_published-ok :
    (id owner : String) (now : ℕ) (s : MemoryStore)
    → (mark_published id owner now s).0 ≡ none
    → mark_published id owner now s ≡ put_back s (edit_locked id owner (as_published now) s.events)
unfolding mark_published
mark_published-ok id owner now s h = ground arith

-- An event that the memory store has marked published is never handed out again: no claim, at any
-- later or earlier time, returns its id, if the ids are unique and the clock is not at the zero
-- time.
pub mark_published-claim :
    (id owner owner' : String) (now now' ttl : ℕ) (limit : ℤ) (s : MemoryStore)
    → UniqueIds s.events
    → 0 < now
    → (mark_published id owner now s).0 ≡ none
    → has_id id
        (handed_out (memory_claim owner' now' ttl limit (mark_published id owner now s).1).0)
      ≡ false
unfolding as_published
mark_published-claim id owner owner' now now' ttl limit s u p h =
    let marked = mark_published-ok id owner now s h in
    rw marked (
      hides id owner (as_published now) owner' now' ttl limit s (λ e. published-due now now' e p)
        (λ e. refl) u (rw marked at h))

two_pow_pos : (k : ℕ) → 1 ≤ 2 ^ k
two_pow_pos zero = omega arith
two_pow_pos (suc k) = omega (arith, two_pow_pos k)

failed-due :
    (now now' : ℕ) (m : String) (e : Event)
    → now' < now + 1_000_000_000
    → due now' (as_failed now m e) ≡ false
unfolding due as_failed retry_delay
failed-due now now' m e h =
    let d : 1 ≤ 2 ^ min (e.publish_attempts + 1 - 1) 6 =
      two_pow_pos (min (e.publish_attempts + 1 - 1) 6) in
    ground (arith, d)

-- After a failed publication the event rests: no claim within the next second hands it out, if
-- the ids are unique.
pub mark_failed-claim :
    (id owner owner' m : String) (now now' ttl : ℕ) (limit : ℤ) (s : MemoryStore)
    → UniqueIds s.events
    → now' < now + 1_000_000_000
    → (mark_failed id owner now m s).0 ≡ none
    → has_id id (handed_out (memory_claim owner' now' ttl limit (mark_failed id owner now m s).1).0)
      ≡ false
unfolding mark_failed as_failed
mark_failed-claim id owner owner' m now now' ttl limit s u b h =
    hides id owner (as_failed now m) owner' now' ttl limit s (λ e. failed-due now now' m e b)
      (λ e. refl) u h
