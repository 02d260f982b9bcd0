-- ===== src/Workers/Derived.antt =====
-- Which workers can take a task.
use fgvcplateform_public.Base.{ℕ, ◌+◌, ◌*◌, ◌≤◌, ◌≡◌, refl, ◌↔◌, true, false, length, arith, eq_iff}
use fgvcplateform_public.Workers.{Instance, has_room, seconds, older_than, connection_of, derive}

-- What it takes to be given a task.
pub record Available (now : ℕ) (i : Instance) : Type 0 where
  pub heard : now ≤ i.received_at + 30 * seconds
  pub ready : i.snapshot.readiness ≡ "ready"
  pub room : has_room (length i.snapshot.tasks) i.snapshot.capacity ≡ true

-- Derive lets a worker accept tasks exactly when it was heard of within the last 30 seconds, says
-- that it is ready, and has fewer tasks than its capacity.
pub derive-Available :
    (now : ℕ) (i : Instance) → ((derive now i).can_accept ≡ true) ↔ Available now i
unfolding derive connection_of
derive-Available now i = (
  (λ h. record {
    heard = ground (arith, h);
    ready = (eq_iff i.snapshot.readiness "ready").0 (ground (arith, h));
    room = ground (arith, h);
  }),
  (λ a.
      let heard : older_than now i.received_at (30 * seconds) ≡ false = ground (arith, a.heard) in
      let recent : older_than now i.received_at (90 * seconds) ≡ false = ground (arith, a.heard) in
      rw (heard, recent, a.ready, a.room) refl),
)
