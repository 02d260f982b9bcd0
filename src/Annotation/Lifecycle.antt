-- ===== src/Annotation/Lifecycle.antt =====
-- What becomes of a task over the calls: a confirmed label is final, and a task that a worker has
-- claimed is never claimed again.
use fgvcplateform_public.Base.{
  ℕ, ℤ, pos, ◌≡◌, refl, sym, subst, String, Bool, true, not, ◌&&◌, ◌||◌, Option, none, some, List,
  [], ◌∷◌, str_eq, arith, Bool-cases, inl, inr, if_cases, ltb, length, all, byte_len, is_blank, min,
  ◌==◌, ◌*◌,
}
use fgvcplateform_public.Base.Assoc.{lookup, insert}
use fgvcplateform_public.Artifact.{Descriptor}
use fgvcplateform_public.Base.Tables.{edit_where, IsKeyed, edit_where-IsKeyed, insert-IsKeyed}
use fgvcplateform_public.Annotation.{Project, Status, queued, confirmed, Task, Store}
use fgvcplateform_public.Annotation.Repository.{
  is_queued, is_running, is_confirmed, to_queue, queue, queue_all, int_leb, is_through, add,
  add_found, insert_new, new_task, same_image, confirm, confirm_found, has_class, has_expired,
  quarantined, expire, first_queued, leased, claim, claim_found, is_outcome, is_suggested, finished,
  holds, after, finish, finish_parsed, finish_found, finish_in, finish_valid, valid_candidates,
  is_repeat, memory_ack,
}
use fgvcplateform_public.Annotation.Tables.{first_queued-lookup}
use fgvcplateform_public.Annotation.Calls.{
  Call, adds, queues, queues_all, confirms, claims, finishes, acks, step, run,
}
use fgvcplateform_public.Base.Changes.{
  Became, Became-refl, Became-trans, Later, Later-edit_where, Later-insert,
}
use fgvcplateform_public.Annotation.Moves.{
  Moves, Moves-IsPath, to_queue-Moves, through-Moves, has_expired-Moves, leased-Moves,
  finished-Moves, confirmed-Moves,
}
use fgvcplateform_public.Annotation.Statuses.{and_left, and_right}

-- What a call does to the table of tasks.
record Goes (s s' : Store) : Type 0 where
  keyed : IsKeyed s'.tasks
  later : Later Moves s.tasks s'.tasks

abbrev Ends {ℓ} : {A : Type ℓ} → Store → Store × A → Type 0
Ends s r = Goes s r.0

stays : (s s' : Store) → IsKeyed s.tasks → s'.tasks ≡ s.tasks → Goes s s'
stays s s' u e = record {
  keyed = subst IsKeyed (sym e) u;
  later =
      subst (Later Moves s.tasks) (sym e)
        (λ id. Became-refl Moves Moves-IsPath (lookup id s.tasks));
}

-- the row of one id is written
puts :
    (id : String) (t : Task) (s s' : Store)
    → IsKeyed s.tasks
    → s'.tasks ≡ insert id t s.tasks
    → Became Moves (lookup id s.tasks) (some t)
    → Goes s s'
puts id t s s' u e b = record {
  keyed = subst IsKeyed (sym e) (insert-IsKeyed id t s.tasks u);
  later = subst (Later Moves s.tasks) (sym e) (Later-insert Moves Moves-IsPath id t s.tasks b);
}

edits :
    (test : String → Task → Bool) (edit : Task → Task) (s s' : Store)
    → IsKeyed s.tasks
    → s'.tasks ≡ edit_where test edit s.tasks
    → ((id : String) (t : Task) → test id t ≡ true → Moves t (edit t))
    → Goes s s'
edits test edit s s' u e moves = record {
  keyed = subst IsKeyed (sym e) (edit_where-IsKeyed test edit s.tasks u);
  later =
      subst (Later Moves s.tasks) (sym e)
        (Later-edit_where Moves Moves-IsPath test edit s.tasks moves);
}

Goes-trans : (a b c : Store) → Goes a b → Goes b c → Goes a c
Goes-trans a b c g h = record {
  keyed = h.keyed;
  later = λ id.
      Became-trans Moves Moves-IsPath (lookup id a.tasks) (lookup id b.tasks) (lookup id c.tasks)
        (g.later id) (h.later id);
}

add-Goes :
    (pid name : String) (image : Descriptor) (new_id : String) (s : Store)
    → IsKeyed s.tasks
    → Goes s (add pid name image new_id s).0
unfolding add
add-Goes pid name image new_id s u = found (same_image pid image.sha256 s.tasks)
  where
    inserted :
        (o : Option Task)
        → lookup new_id s.tasks ≡ o
        → Goes s (insert_new pid name image new_id o s).0
    inserted none e =
        puts new_id (new_task pid name image) s _ u refl
          (subst (λ o. Became Moves o (some (new_task pid name image))) (sym e) tt)
    inserted (some t) e = stays s s u refl

    found : (o : Option String) → Goes s (add_found pid name image new_id o s).0
    found none = inserted (lookup new_id s.tasks) refl
    found (some id) = stays s _ u refl

queue-Goes :
    (is_uuid : String → Bool) (pid : String) (ids : List String) (s : Store)
    → IsKeyed s.tasks
    → Goes s (queue is_uuid pid ids s).0
unfolding queue
queue-Goes is_uuid pid ids s u =
    if_cases (Ends s) (ltb (length ids) 1 || ltb 100 (length ids)) (λ _. stays s s u refl)
      (λ _.
        if_cases (Ends s) (not (all is_uuid ids)) (λ _. stays s s u refl)
          (λ _.
            edits (to_queue pid ids) (λ t. record t { status = queued }) s _ u refl
              (to_queue-Moves pid ids)))

queue_all-Goes :
    (seq : String → ℕ) (pid : String) (last : ℤ) (s : Store)
    → IsKeyed s.tasks
    → Goes s (queue_all seq pid last s).0
unfolding queue_all
queue_all-Goes seq pid last s u =
    if_cases (Ends s) (not (int_leb (pos 1) last)) (λ _. stays s s u refl)
      (λ _.
        edits (is_through seq pid last) (λ t. record t { status = queued }) s _ u refl
          (through-Moves seq pid last))

confirm_found-Goes :
    (now : ℕ) (id label actor : String) (o : Option Task) (s : Store)
    → IsKeyed s.tasks
    → lookup id s.tasks ≡ o
    → Goes s (confirm_found now id label actor o s).0
unfolding confirm_found
confirm_found-Goes now id label actor none s u e = stays s s u refl
confirm_found-Goes now id label actor (some t) s u e =
    if_cases (Ends s) (not (has_class label (lookup t.project_id s.projects)))
      (λ _. stays s s u refl)
      (λ _.
        if_cases (Ends s) (is_running t.status || is_queued t.status) (λ _. stays s s u refl)
          (λ _.
            if_cases (Ends s) (is_confirmed t.status)
              (λ _.
                if_cases (Ends s) (str_eq t.label label) (λ _. stays s s u refl)
                  (λ _. stays s s u refl))
              (λ open_.
                let y : Task = record t { status = confirmed; label = label; actor = actor } in
                puts id y s _ u refl (
                  subst (λ o. Became Moves o (some y)) (sym e)
                    (confirmed-Moves label actor t open_)))))

expire-Goes : (now : ℕ) (s : Store) → IsKeyed s.tasks → Goes s (expire now s)
unfolding expire
expire-Goes now s u = edits (has_expired now) quarantined s _ u refl (has_expired-Moves now)

claim-Goes : (now : ℕ) (token : String) (s : Store) → IsKeyed s.tasks → Goes s (claim now token s).0
unfolding claim
claim-Goes now token s u = found (first_queued after_expiry.tasks) refl
  where
    after_expiry : Store
    after_expiry = expire now s

    g : Goes s after_expiry
    g = expire-Goes now s u

    found :
        (o : Option (String × Task))
        → first_queued after_expiry.tasks ≡ o
        → Goes s (claim_found now token o after_expiry).0
    found none e = g
    found (some (id, t)) e =
        let r = first_queued-lookup after_expiry.tasks id t g.keyed e in
        Goes-trans s after_expiry _ g (
          puts id (leased now token t) after_expiry _ g.keyed refl (
            subst (λ o. Became Moves o (some (leased now token t))) (sym r.0)
              (leased-Moves now token t r.1)))

module _ (parse : String → Option (List String)) (same_json : String → String → Bool) where
  finish_valid-Goes :
      (now : ℕ) (id token : String) (status : Status) (result message : String) (t : Task)
      (s : Store)
      → IsKeyed s.tasks
      → is_outcome status ≡ true
      → lookup id s.tasks ≡ some t
      → Goes s (finish_valid parse same_json now id token status result message t s).0
  unfolding finish_valid
  finish_valid-Goes now id token status result message t s u o e =
      if_cases (Ends s)
        (holds token t.claim_token && is_running t.status && after t.lease_until now)
        (λ h. puts id _ s _ u refl (
          subst (λ r. Became Moves r (some (finished status result message t))) (sym e)
            (finished-Moves status result message t o (
              and_right (holds token t.claim_token) _
                (and_left (holds token t.claim_token && is_running t.status) _ h)))))
        (λ _.
          if_cases (Ends s) (is_repeat parse same_json token status result message t)
            (λ _. stays s s u refl) (λ _. stays s s u refl))

  finish_in-Goes :
      (now : ℕ) (id token : String) (status : Status) (result : String) (candidates : List String)
      (message : String) (t : Task) (p : Option Project) (s : Store)
      → IsKeyed s.tasks
      → is_outcome status ≡ true
      → lookup id s.tasks ≡ some t
      → Goes s (finish_in parse same_json now id token status result candidates message t p s).0
  unfolding finish_in
  finish_in-Goes now id token status result candidates message t none s u o e = stays s s u refl
  finish_in-Goes now id token status result candidates message t (some p) s u o e =
      if_cases (Ends s) (not (valid_candidates p.classes [] candidates)) (λ _. stays s s u refl)
        (λ _.
          if_cases (Ends s)
            (ltb 10 (length candidates)
              || (is_suggested status && not (length candidates == min 10 (length p.classes))))
            (λ _. stays s s u refl)
            (λ _. finish_valid-Goes now id token status result message t s u o e))

  finish_found-Goes :
      (now : ℕ) (id token : String) (status : Status) (result : String) (candidates : List String)
      (message : String) (o : Option Task) (s : Store)
      → IsKeyed s.tasks
      → is_outcome status ≡ true
      → lookup id s.tasks ≡ o
      → Goes s (finish_found parse same_json now id token status result candidates message o s).0
  unfolding finish_found
  finish_found-Goes now id token status result candidates message none s u o e = stays s s u refl
  finish_found-Goes now id token status result candidates message (some t) s u o e =
      finish_in-Goes now id token status result candidates message t
        (lookup t.project_id s.projects) s u o e

  finish-Goes :
      (now : ℕ) (id token : String) (status : Status) (result message : String) (s : Store)
      → IsKeyed s.tasks
      → Goes s (finish parse same_json now id token status result message s).0
  unfolding finish
  finish-Goes now id token status result message s u = elim (Bool-cases (is_outcome status)) [
    | inl o ↦ rw o (
        if_cases (Ends s) (ltb (128 * 1024) (byte_len result)) (λ _. stays s s u refl)
          (λ _. parsed o (parse result)))
    | inr o ↦ rw o (stays s s u refl)
  ]
    where
      parsed :
          is_outcome status ≡ true
          → (c : Option (List String))
          → Goes s (finish_parsed parse same_json now id token status result c message s).0
      parsed o none = stays s s u refl
      parsed o (some candidates) =
          finish_found-Goes now id token status result candidates message (lookup id s.tasks) s u o
            refl

memory_ack-Goes :
    (now : ℕ) (id : String) (delivered : Bool) (message : String) (s : Store)
    → IsKeyed s.tasks
    → Goes s (memory_ack now id delivered message s)
unfolding memory_ack
memory_ack-Goes now id delivered message s u = stays s _ u (ground arith)

module _ (is_uuid : String → Bool) (seq : String → ℕ) (parse : String → Option (List String))
    (same_json : String → String → Bool) where
  step-Goes :
      (c : Call) (s : Store) → IsKeyed s.tasks → Goes s (step is_uuid seq parse same_json c s)
  unfolding step confirm
  step-Goes (adds pid name image new_id) s u = add-Goes pid name image new_id s u
  step-Goes (queues pid ids) s u = queue-Goes is_uuid pid ids s u
  step-Goes (queues_all pid last) s u = queue_all-Goes seq pid last s u
  step-Goes (confirms now id label actor) s u =
      if_cases (Ends s) (is_blank actor || ltb 120 (byte_len actor)) (λ _. stays s s u refl)
        (λ _. confirm_found-Goes now id label actor (lookup id s.tasks) s u refl)
  step-Goes (claims now token) s u = claim-Goes now token s u
  step-Goes (finishes now id token status result message) s u =
      finish-Goes parse same_json now id token status result message s u
  step-Goes (acks now id delivered message) s u = memory_ack-Goes now id delivered message s u

  run-Goes :
      (cs : List Call) (s : Store) → IsKeyed s.tasks → Goes s (run is_uuid seq parse same_json cs s)
  unfolding run
  run-Goes [] s u = stays s s u refl
  run-Goes (c ∷ cs) s u =
      let g = step-Goes c s u in
      Goes-trans s (step is_uuid seq parse same_json c s) _ g
        (run-Goes cs (step is_uuid seq parse same_json c s) g.keyed)

  -- Over any sequence of calls from a store whose ids are keys, no task is lost or gets another
  -- project or image. A confirmed task stays exactly as it is, its label and its actor included. A
  -- suggested, failed or unknown task stays exactly as it is or is confirmed, so it is never handed
  -- to a worker again. A running task is never pending or queued again; if it runs after the calls,
  -- it is the row it was, with the token of its claim.
  pub run-Later :
      (cs : List Call) (s : Store)
      → IsKeyed s.tasks
      → Later Moves s.tasks (run is_uuid seq parse same_json cs s).tasks
  run-Later cs s u = (run-Goes cs s u).later
