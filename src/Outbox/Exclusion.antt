-- ===== src/Outbox/Exclusion.antt =====
-- A lock keeps other relays off an event, whatever they call while it lasts.
use fgvcplateform_public.Base.{
  ℕ, ◌+◌, ◌<◌, ◌≡◌, refl, subst, String, true, false, ◌&&◌, ◌||◌, ◌⊎◌, Option, none, some, List, [],
  ◌∷◌, str_eq, eq_iff, ℤ, arith, Bool-cases, inl, inr,
}
use fgvcplateform_public.Outbox.{
  Event, MemoryStore, due, locked, full, claim_loop, memory_claim, edit_locked, put_back,
  as_published, mark_published, as_failed, mark_failed,
}
use fgvcplateform_public.Outbox.Calls.{Call, claims, publishes, fails, step, run}
use fgvcplateform_public.Outbox.Locks.{has_id, UniqueIds, claim_loop-has_id, no_twin, handed_out}

taken : (e : Event) (now until : ℕ) → due now e ≡ true → e.lock_expires_at ≡ until → now < until → ⊥
unfolding due
taken e now until d w b = ground (arith, d, w, b)

module _ (i owner : String) (until : ℕ) where
  -- An event with the id `i` is locked by `owner` for the time.
  abbrev Held1 : Event → Type 0
  Held1 e = str_eq e.id i ≡ true → (e.lock_owner ≡ owner) × (e.lock_expires_at ≡ until)

  abbrev Held : List Event → Type 0
  Held [] = Unit
  Held (e ∷ es) = Held1 e × Held es

  -- The calls while the lock lasts: claims by anyone, and marks by anyone but those that its owner
  -- makes of this event.
  abbrev pub Within1 : Call → Type 0
  Within1 (claims by now ttl limit) = now < until
  Within1 (publishes id by now) = str_eq id i && str_eq by owner ≡ false
  Within1 (fails id by now message) = str_eq id i && str_eq by owner ≡ false

  abbrev pub Within : List Call → Type 0
  Within [] = Unit
  Within (c ∷ cs) = Within1 c × Within cs

  absent-Held : (es : List Event) → has_id i es ≡ false → Held es
  absent-Held [] h = tt
  absent-Held (e ∷ es) h = elim (Bool-cases (str_eq e.id i)) [
    | inl p ↦ let x = rw p at h in absurd (cc x)
    | inr p ↦ ((λ q. absurd (cc (p, q))), absent-Held es (rw p at h))
  ]

  -- a claim while the lock lasts passes the event over
  claim_loop-Held :
      (by : String) (now ttl : ℕ) (limit : ℤ) (n : ℕ) (es : List Event)
      → now < until
      → Held es
      → Held (claim_loop by now ttl limit n es).1
        × (has_id i (claim_loop by now ttl limit n es).0 ≡ false)
  unfolding claim_loop locked
  claim_loop-Held by now ttl limit n [] b h = (tt, refl)
  claim_loop-Held by now ttl limit n (e ∷ es) b h =
      let next = claim_loop-Held by now ttl limit (n + 1) es b h.1 in
      let skip = claim_loop-Held by now ttl limit n es b h.1 in
      elim (Bool-cases (due now e)) [
        | inr d ↦ rw d ((h.0, skip.0), skip.1)
        | inl d ↦
            let other : str_eq e.id i ≡ false = elim (Bool-cases (str_eq e.id i)) [
              | inr q ↦ q
              | inl q ↦ let w = (h.0 q).1 in absurd (taken e now until d w b)
            ] in
            elim (Bool-cases (full limit (n + 1))) [
              | inl f ↦ rw (d, f, other) (((λ q. absurd (cc q)), h.1), refl)
              | inr f ↦ rw (d, f, other) (((λ q. absurd (cc q)), next.0), next.1)
            ]
      ]

  -- a mark of another event, or by another relay
  edit_locked-Held :
      (id by : String) (f : Event → Event) (es es' : List Event)
      → ((e : Event) → (f e).id ≡ e.id)
      → str_eq id i && str_eq by owner ≡ false
      → Held es
      → edit_locked id by f es ≡ some es'
      → Held es'
  unfolding edit_locked
  edit_locked-Held id by f [] es' keeps apart h e = absurd (cc e)
  edit_locked-Held id by f (x ∷ es) es' keeps apart h e =
      elim (Bool-cases (str_eq x.id id && str_eq x.lock_owner by)) [
        | inl p ↦
            let done : some (f x ∷ es) ≡ some es' = rw p at e in
            subst (λ o. Held (list_or o)) done
              (
                (λ q.
                    let mine = h.0 (subst (λ (k : String). str_eq k i ≡ true) (keeps x) q) in
                    absurd
                      (clash x (subst (λ (k : String). str_eq k i ≡ true) (keeps x) q) mine.0 p)),
                h.1,
              )
        | inr p ↦
            rest (λ xs same. edit_locked-Held id by f es xs keeps apart h.1 same)
              (edit_locked id by f es) refl (rw p at e)
      ]
    where
      list_or : Option (List Event) → List Event
      list_or none = []
      list_or (some xs) = xs

      clash :
          (x : Event)
          → str_eq x.id i ≡ true
          → x.lock_owner ≡ owner
          → str_eq x.id id && str_eq x.lock_owner by ≡ true
          → ⊥
      clash x q o p = ground (
        arith,
        q,
        o,
        p,
        apart,
        eq_iff x.id i,
        eq_iff x.id id,
        eq_iff id i,
        eq_iff by owner,
        eq_iff x.lock_owner by,
      )

      rest :
          ((xs : List Event) → edit_locked id by f es ≡ some xs → Held xs)
          → (o : Option (List Event)) → edit_locked id by f es ≡ o
          → (elim o as (λ _. Option (List Event)) [ none ↦ none | some xs ↦ some (x ∷ xs) ])
            ≡ some es'
          → Held es'
      rest ih none same k = absurd (cc k)
      rest ih (some xs) same k = subst (λ o. Held (list_or o)) k (h.0, ih xs same)

  put_back-Held :
      (o : Option (List Event)) (s : MemoryStore)
      → Held s.events
      → ((es : List Event) → o ≡ some es → Held es)
      → Held (put_back s o).1.events
  put_back-Held none s h k = h
  put_back-Held (some es) s h k = k es refl

  step-Held : (c : Call) (s : MemoryStore) → Within1 c → Held s.events → Held (step c s).events
  unfolding step memory_claim mark_published mark_failed as_published as_failed
  step-Held (claims by now ttl limit) s b h = (claim_loop-Held by now ttl limit 0 s.events b h).0
  step-Held (publishes id by now) s apart h = marked s.fail_next_mark_published
    where
      marked :
          (o : Option String)
          → Held
              (elim o as (λ _. Option String × MemoryStore) [
                | some e ↦ (some e, record s { fail_next_mark_published = none })
                | none ↦ put_back s (edit_locked id by (as_published now) s.events)
              ]).1.events
      marked (some e) = h
      marked none =
          put_back-Held (edit_locked id by (as_published now) s.events) s h
            (λ es e. edit_locked-Held id by (as_published now) s.events es (λ x. refl) apart h e)
  step-Held (fails id by now message) s apart h =
      put_back-Held (edit_locked id by (as_failed now message) s.events) s h
        (λ es e. edit_locked-Held id by (as_failed now message) s.events es (λ x. refl) apart h e)

  run-Held : (cs : List Call) (s : MemoryStore) → Within cs → Held s.events → Held (run cs s).events
  unfolding run
  run-Held [] s b h = h
  run-Held (c ∷ cs) s b h = run-Held cs (step c s) b.1 (step-Held c s b.0 h)

-- the claim that hands the event out leaves it locked
claimed-Held :
    (i owner : String) (now ttl : ℕ) (limit : ℤ) (n : ℕ) (es : List Event)
    → UniqueIds es
    → has_id i (claim_loop owner now ttl limit n es).0 ≡ true
    → Held i owner (now + ttl) (claim_loop owner now ttl limit n es).1
unfolding claim_loop locked
claimed-Held i owner now ttl limit n [] u h = tt
claimed-Held i owner now ttl limit n (e ∷ es) u h = elim (Bool-cases (due now e)) [
  | inr d ↦
      let later : has_id i (claim_loop owner now ttl limit n es).0 ≡ true = rw d at h in
      rw d (
        (λ q.
            let gone = (claim_loop-has_id owner now ttl limit i n es (no_twin i e es q u.0)).0 in
            absurd (cc (later, gone))),
        claimed-Held i owner now ttl limit n es u.1 later,
      )
  | inl d ↦ elim (Bool-cases (full limit (n + 1))) [
    | inl f ↦ rw (d, f) ((λ q. (refl, refl)), only f (rw (d, f) at h))
    | inr f ↦
        rw (d, f)
          (
            (λ q. (refl, refl)),
            behind (claimed-Held i owner now ttl limit (n + 1) es u.1) (Bool-cases (str_eq e.id i))
                (rw (d, f) at h),
          )
  ]
]
  where
    only : full limit (n + 1) ≡ true → (str_eq e.id i || false) ≡ true → Held i owner (now + ttl) es
    only f k = absent-Held i owner (now + ttl) es (no_twin i e es (ground (arith, k)) u.0)

    behind :
        (has_id i (claim_loop owner now ttl limit (n + 1) es).0 ≡ true
          → Held i owner (now + ttl) (claim_loop owner now ttl limit (n + 1) es).1)
        → (str_eq e.id i ≡ true) ⊎ (str_eq e.id i ≡ false)
        → (str_eq e.id i || has_id i (claim_loop owner now ttl limit (n + 1) es).0) ≡ true
        → Held i owner (now + ttl) (claim_loop owner now ttl limit (n + 1) es).1
    behind ih (inl q) k =
        absent-Held i owner (now + ttl) (claim_loop owner now ttl limit (n + 1) es).1
          (claim_loop-has_id owner now ttl limit i (n + 1) es (no_twin i e es q u.0)).1
    behind ih (inr q) k = ih (ground (arith, q, k))

-- If the ids in the store are unique and a claim hands an event out, then after any calls while its
-- lock lasts - claims by anyone with whatever limit and lock time, marks by anyone but its owner's
-- of this event - no claim that is made before the lock ends hands out an event of the same id.
pub memory_claim-exclusive :
    (owner i : String) (now ttl : ℕ) (limit : ℤ) (s : MemoryStore) (cs : List Call) (by : String)
    (now' ttl' : ℕ) (limit' : ℤ)
    → UniqueIds s.events
    → has_id i (handed_out (memory_claim owner now ttl limit s).0) ≡ true
    → Within i owner (now + ttl) cs
    → now' < now + ttl
    → has_id i (
        handed_out
          (memory_claim by now' ttl' limit' (run cs (memory_claim owner now ttl limit s).1)).0)
      ≡ false
unfolding memory_claim
memory_claim-exclusive owner i now ttl limit s cs by now' ttl' limit' u h within before =
    let s' = (memory_claim owner now ttl limit s).1 in
    (claim_loop-Held i owner (now + ttl) by now' ttl' limit' 0 (run cs s').events before (
      run-Held i owner (now + ttl) cs s' within
        (claimed-Held i owner now ttl limit 0 s.events u h))).1
