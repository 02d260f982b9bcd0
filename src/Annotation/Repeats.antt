-- ===== src/Annotation/Repeats.antt =====
-- A worker that does not know whether its report arrived may report again.
use fgvcplateform_public.Base.{
  ℕ, ◌≡◌, refl, sym, ap, ◌∙◌, String, Bool, true, false, not, ◌&&◌, ◌||◌, Option, none, some, List,
  [], arith, Bool-cases, inl, inr, ltb, length, byte_len, min, ◌==◌, ◌*◌, eq_refl,
}
use fgvcplateform_public.Base.Assoc.{lookup, lookup-insert_self}
use fgvcplateform_public.Annotation.{
  Project, Status, pending, queued, running, suggested, failed, unknown, confirmed, Task, Store,
  Result, ok,
}
use fgvcplateform_public.Annotation.Repository.{
  is_running, is_outcome, is_suggested, same_status, holds, after, finished, is_repeat,
  valid_candidates, finish, finish_parsed, finish_found, finish_in, finish_valid,
}

same_status_refl : (s : Status) → same_status s s ≡ true
same_status_refl pending = refl
same_status_refl queued = refl
same_status_refl running = refl
same_status_refl suggested = refl
same_status_refl failed = refl
same_status_refl unknown = refl
same_status_refl confirmed = refl

outcome-ended : (s : Status) → is_outcome s ≡ true → is_running s ≡ false
outcome-ended pending h = refl
outcome-ended queued h = refl
outcome-ended running h = cc
outcome-ended suggested h = refl
outcome-ended failed h = refl
outcome-ended unknown h = refl
outcome-ended confirmed h = refl

same_status-ended :
    (a b : Status) → same_status a b ≡ true → is_outcome b ≡ true → is_running a ≡ false
same_status-ended pending b h o = refl
same_status-ended queued b h o = refl
same_status-ended suggested b h o = refl
same_status-ended failed b h o = refl
same_status-ended unknown b h o = refl
same_status-ended confirmed b h o = refl
same_status-ended running running h o = cc
same_status-ended running pending h o = cc
same_status-ended running queued h o = cc
same_status-ended running suggested h o = cc
same_status-ended running failed h o = cc
same_status-ended running unknown h o = cc
same_status-ended running confirmed h o = cc

module _ (parse : String → Option (List String)) (same_json : String → String → Bool) where
  -- A row that holds the report answers it with success.
  held_report :
      (later : ℕ) (id token : String) (status : Status) (result message : String) (t : Task)
      (s : Store)
      → is_running t.status ≡ false
      → is_repeat parse same_json token status result message t ≡ true
      → finish_valid parse same_json later id token status result message t s ≡ (s, ok tt)
  unfolding finish_valid
  held_report later id token status result message t s ended repeat =
      let idle : (holds token t.claim_token && is_running t.status && after t.lease_until later)
          ≡ false =
        ground (arith, ended) in
      rw (idle, repeat) refl

  written_report :
      (token : String) (status : Status) (result message : String) (t : Task)
      → same_json result result ≡ true
      → holds token t.claim_token ≡ true
      → is_repeat parse same_json token status result message (finished status result message t)
        ≡ true
  written_report token status result message t same holding =
      rw (holding, same_status_refl status, same, eq_refl message) refl

  -- What is there of the task after an accepted report.
  record IsHeld (id token : String) (status : Status) (result message : String) (t : Task)
      (s : Store) : Type 0 where
    row : Task
    found : lookup id s.tasks ≡ some row
    same_project : row.project_id ≡ t.project_id
    ended : is_running row.status ≡ false
    repeat : is_repeat parse same_json token status result message row ≡ true

  finish_valid-IsHeld :
      (now : ℕ) (id token : String) (status : Status) (result message : String) (t : Task)
      (s : Store)
      → same_json result result ≡ true
      → is_outcome status ≡ true
      → lookup id s.tasks ≡ some t
      → (finish_valid parse same_json now id token status result message t s).1 ≡ ok tt
      → IsHeld id token status result message t
          (finish_valid parse same_json now id token status result message t s).0
  unfolding finish_valid
  finish_valid-IsHeld now id token status result message t s same o found done =
      elim (Bool-cases
        (holds token t.claim_token && is_running t.status && after t.lease_until now)) [
          | inl p ↦
              let holding : holds token t.claim_token ≡ true = ground (arith, p) in
              rw p (record {
                row = finished status result message t;
                found = lookup-insert_self id (finished status result message t) s.tasks;
                same_project = refl;
                ended = outcome-ended status o;
                repeat = written_report token status result message t same holding;
              })
          | inr p ↦ elim (Bool-cases (is_repeat parse same_json token status result message t)) [
            | inl q ↦
                let alike : same_status t.status status ≡ true = ground (arith, q) in
                rw (p, q)
                  (record {
                    row = t;
                    found = found;
                    same_project = refl;
                    ended = same_status-ended t.status status alike o;
                    repeat = q;
                  })
            | inr q ↦ absurd (refused p q done)
          ]
        ]
    where
      refused :
          (holds token t.claim_token && is_running t.status && after t.lease_until now) ≡ false
          → is_repeat parse same_json token status result message t ≡ false
          → (finish_valid parse same_json now id token status result message t s).1 ≡ ok tt
          → ⊥
      refused p q d = let e = rw (p, q) at d in cc e

  finish_valid-projects :
      (now : ℕ) (id token : String) (status : Status) (result message : String) (t : Task)
      (s : Store)
      → (finish_valid parse same_json now id token status result message t s).0.projects
        ≡ s.projects
  unfolding finish_valid
  finish_valid-projects now id token status result message t s =
      elim (Bool-cases
        (holds token t.claim_token && is_running t.status && after t.lease_until now)) [
          | inl p ↦ rw p refl
          | inr p ↦ elim (Bool-cases (is_repeat parse same_json token status result message t)) [
            | inl q ↦ rw (p, q) refl
            | inr q ↦ rw (p, q) refl
          ]
        ]

  module _ (id token : String) (status : Status) (result : String) (candidates : List String)
      (message : String) where
    -- The tests of the candidates pass, whatever the row and the time.
    finish_in-accepted :
        (now : ℕ) (t : Task) (o : Option Project) (s : Store)
        → (finish_in parse same_json now id token status result candidates message t o s).1 ≡ ok tt
        → (later : ℕ) (row : Task) (s' : Store)
        → finish_in parse same_json later id token status result candidates message row o s'
          ≡ finish_valid parse same_json later id token status result message row s'
    unfolding finish_in
    finish_in-accepted now t none s h later row s' = absurd (cc h)
    finish_in-accepted now t (some p) s h later row s' =
        elim (Bool-cases (valid_candidates p.classes [] candidates)) [
          | inl a ↦
              elim (Bool-cases (
                ltb 10 (length candidates)
                || (is_suggested status && not (length candidates == min 10 (length p.classes))))) [
                  | inl b ↦ let e = rw (a, b) at h in absurd (cc e)
                  | inr b ↦ rw (a, b) refl
                ]
          | inr a ↦ let e = rw a at h in absurd (cc e)
        ]

    finish_found-again :
        (now later : ℕ) (o : Option Task) (s : Store)
        → same_json result result ≡ true
        → is_outcome status ≡ true
        → lookup id s.tasks ≡ o
        → (finish_found parse same_json now id token status result candidates message o s).1 ≡ ok tt
        → let s' =
            (finish_found parse same_json now id token status result candidates message o s).0 in
          finish_found parse same_json later id token status result candidates message
            (lookup id s'.tasks)
            s'
          ≡ (s', ok tt)
    unfolding finish_found
    finish_found-again now later none s same o found h = absurd (cc h)
    finish_found-again now later (some t) s same o found h =
        let accepted = finish_in-accepted now t (lookup t.project_id s.projects) s h in
        let first = accepted now t s in
        let done = sym (ap (λ (r : Store × Result (Unit {0})). r.1) first) ∙ h in
        let held = finish_valid-IsHeld now id token status result message t s same o found done in
        let s' = (finish_valid parse same_json now id token status result message t s).0 in
        let project : lookup held.row.project_id s'.projects ≡ lookup t.project_id s.projects =
          cc (held.same_project, finish_valid-projects now id token status result message t s) in
        rw (first, held.found, project)
          (accepted later held.row s'
            ∙ held_report later id token status result message held.row s' held.ended held.repeat)

  finish_parsed-again :
      (now later : ℕ) (id token : String) (status : Status) (result message : String)
      (c : Option (List String)) (s : Store)
      → same_json result result ≡ true
      → is_outcome status ≡ true
      → (finish_parsed parse same_json now id token status result c message s).1 ≡ ok tt
      → let s' = (finish_parsed parse same_json now id token status result c message s).0 in
        finish_parsed parse same_json later id token status result c message s' ≡ (s', ok tt)
  finish_parsed-again now later id token status result message none s same o h = absurd (cc h)
  finish_parsed-again now later id token status result message (some candidates) s same o h =
      finish_found-again id token status result candidates message now later (lookup id s.tasks) s
        same o refl h

  -- If Finish accepts a report, the same report made again on the tables that it left, whatever the
  -- clock says, succeeds and changes nothing: no second event, and the task as it was. A Confirm in
  -- between is another call, after which this says nothing. It is assumed that PostgreSQL finds the
  -- result equal to itself.
  pub finish-repeated :
      (now later : ℕ) (id token : String) (status : Status) (result message : String) (s : Store)
      → same_json result result ≡ true
      → (finish parse same_json now id token status result message s).1 ≡ ok tt
      → let s' = (finish parse same_json now id token status result message s).0 in
        finish parse same_json later id token status result message s' ≡ (s', ok tt)
  unfolding finish
  finish-repeated now later id token status result message s same h =
      elim (Bool-cases (is_outcome status)) [
        | inl o ↦ elim (Bool-cases (ltb (128 * 1024) (byte_len result))) [
          | inl long ↦ let e = rw (o, long) at h in absurd (cc e)
          | inr fits ↦
              rw (o, fits)
                (finish_parsed-again now later id token status result message (parse result) s same
                  o (rw (o, fits) at h))
        ]
        | inr o ↦ let e = rw o at h in absurd (cc e)
      ]
