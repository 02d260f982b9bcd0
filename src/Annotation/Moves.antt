-- ===== src/Annotation/Moves.antt =====
-- What may become of a task, and that each edit of the repository is such a move.
use fgvcplateform_public.Base.{
  ℕ, ◌≡◌, refl, ap, ◌∙◌, String, true, false, ◌&&◌, ◌||◌, List, str_eq, arith, Bool-cases, inl, inr,
  ◌⊎◌, ℤ, pos,
}
use fgvcplateform_public.Base.Changes.{IsPath}
use fgvcplateform_public.Annotation.{contains_text, Status, queued, confirmed, Task}
use fgvcplateform_public.Annotation.Statuses.{
  was_claimed, is_settled, running-claimed, claimed_cases, confirmed-resting, settled-claimed,
  settled-resting, pending-waiting, queued-waiting, outcome-settled, and_right, and_left,
}
use fgvcplateform_public.Annotation.Repository.{
  is_queued, is_running, is_confirmed, to_queue, int_leb, is_through, has_expired, quarantined,
  leased, is_outcome, finished,
}

-- What may become of a task.
pub record Moves (x y : Task) : Type 0 where
  pub same_project : y.project_id ≡ x.project_id
  pub same_image : y.sha ≡ x.sha
  -- a confirmed task stays as it is
  pub final : is_confirmed x.status ≡ true → y ≡ x
  -- a task with an outcome stays as it is, or is confirmed
  pub settled : is_settled x.status ≡ true → (y ≡ x) ⊎ (is_confirmed y.status ≡ true)
  -- a task that is still running is the row it was, with the token of its claim
  pub one_claim : is_running x.status ≡ true → is_running y.status ≡ true → y ≡ x
  -- a claimed task stays claimed or is confirmed
  pub onward : was_claimed x.status ≡ true → (was_claimed y.status || is_confirmed y.status) ≡ true

pub Moves-refl : (x : Task) → Moves x x
Moves-refl x = record {
  same_project = refl;
  same_image = refl;
  final = λ h. refl;
  settled = λ h. inl refl;
  one_claim = λ h k. refl;
  onward = λ h. rw h refl;
}

still_confirmed : (x y : Task) → y ≡ x → is_confirmed x.status ≡ true → is_confirmed y.status ≡ true
still_confirmed x y e h = ap (λ (t : Task). is_confirmed t.status) e ∙ h

settled_trans :
    (x y z : Task)
    → Moves x y
    → Moves y z
    → is_settled x.status ≡ true
    → (z ≡ x) ⊎ (is_confirmed z.status ≡ true)
settled_trans x y z m n h = elim (m.settled h) [
  | inl e ↦ elim (n.settled (ap (λ (t : Task). is_settled t.status) e ∙ h)) [
    | inl f ↦ inl (f ∙ e)
    | inr c ↦ inr c
  ]
  | inr c ↦ inr (still_confirmed y z (n.final c) c)
]

one_claim_trans :
    (x y z : Task)
    → Moves x y
    → Moves y z
    → is_running x.status ≡ true
    → is_running z.status ≡ true
    → z ≡ x
one_claim_trans x y z m n h k =
    elim (claimed_cases y.status (m.onward (running-claimed x.status h))) [
      | inl r ↦ n.one_claim r k ∙ m.one_claim h r
      | inr (inl (settled, resting)) ↦ elim (n.settled settled) [
        | inl e ↦
            let f : is_running z.status ≡ false =
              ap (λ (t : Task). is_running t.status) e ∙ resting in
            cc (f, k)
        | inr c ↦ cc (confirmed-resting z.status c, k)
      ]
      | inr (inr c) ↦ cc (confirmed-resting z.status (still_confirmed y z (n.final c) c), k)
    ]

Moves-trans : (x y z : Task) → Moves x y → Moves y z → Moves x z
Moves-trans x y z m n = record {
  same_project = n.same_project ∙ m.same_project;
  same_image = n.same_image ∙ m.same_image;
  final = λ h. let e = m.final h in n.final (ap (λ (t : Task). is_confirmed t.status) e ∙ h) ∙ e;
  settled = settled_trans x y z m n;
  one_claim = one_claim_trans x y z m n;
  onward = λ h. elim (Bool-cases (was_claimed y.status)) [
    | inl p ↦ n.onward p
    | inr p ↦
        let e = n.final (ground (arith, p, m.onward h)) in
        ap (λ (t : Task). was_claimed t.status || is_confirmed t.status) e ∙ m.onward h
  ];
}

pub Moves-IsPath : IsPath Moves
Moves-IsPath = record { stay = Moves-refl; follow = Moves-trans }

-- A task that no worker has claimed may get another row.
unclaimed-Moves :
    (x y : Task)
    → y.project_id ≡ x.project_id
    → y.sha ≡ x.sha
    → (is_confirmed x.status || was_claimed x.status) ≡ false
    → Moves x y
unclaimed-Moves x y p i waiting = record {
  same_project = p;
  same_image = i;
  final = λ h. absurd (ground (arith, waiting, h));
  settled = λ h. absurd (cc (settled-claimed x.status h, waiting_claimed));
  one_claim = λ h k. absurd (cc (running-claimed x.status h, waiting_claimed));
  onward = λ h. absurd (cc (h, waiting_claimed));
}
  where
    waiting_claimed : was_claimed x.status ≡ false
    waiting_claimed = ground (arith, waiting)

-- A running task may rest with an outcome.
running-Moves :
    (x y : Task)
    → y.project_id ≡ x.project_id
    → y.sha ≡ x.sha
    → is_running x.status ≡ true
    → is_settled y.status ≡ true
    → Moves x y
running-Moves x y p i r o = record {
  same_project = p;
  same_image = i;
  final = λ h. absurd (cc (confirmed-resting x.status h, r));
  settled = λ h. absurd (cc (settled-resting x.status h, r));
  one_claim = λ h k. absurd (cc (settled-resting y.status o, k));
  onward = λ h. rw (settled-claimed y.status o) refl;
}

pub to_queue-Moves :
    (pid : String) (ids : List String) (id : String) (t : Task)
    → to_queue pid ids id t ≡ true
    → Moves t (record t { status = queued })
to_queue-Moves pid ids id t h =
    unclaimed-Moves t _ refl refl
      (pending-waiting t.status (and_right (str_eq t.project_id pid && contains_text ids id) _ h))

pub through-Moves :
    (seq : String → ℕ) (pid : String) (last : ℤ) (id : String) (t : Task)
    → is_through seq pid last id t ≡ true
    → Moves t (record t { status = queued })
through-Moves seq pid last id t h = unclaimed-Moves t _ refl refl (
    pending-waiting t.status
      (and_right (str_eq t.project_id pid && int_leb (pos (seq id)) last) _ h))

pub has_expired-Moves :
    (now : ℕ) (id : String) (t : Task) → has_expired now id t ≡ true → Moves t (quarantined t)
has_expired-Moves now id t h = running-Moves t (quarantined t) refl refl (and_left _ _ h) refl

pub leased-Moves :
    (now : ℕ) (token : String) (t : Task) → is_queued t.status ≡ true → Moves t (leased now token t)
leased-Moves now token t h =
    unclaimed-Moves t (leased now token t) refl refl (queued-waiting t.status h)

pub finished-Moves :
    (status : Status) (result message : String) (t : Task)
    → is_outcome status ≡ true
    → is_running t.status ≡ true
    → Moves t (finished status result message t)
finished-Moves status result message t o h =
    running-Moves t (finished status result message t) refl refl h (outcome-settled status o)

pub confirmed-Moves :
    (label actor : String) (t : Task)
    → is_confirmed t.status ≡ false
    → Moves t (record t { status = confirmed; label = label; actor = actor })
confirmed-Moves label actor t h = record {
  same_project = refl;
  same_image = refl;
  final = λ c. absurd (cc (c, h));
  settled = λ c. inr refl;
  one_claim = λ c k. absurd (cc k);
  onward = λ c. refl;
}
