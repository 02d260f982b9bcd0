-- ===== src/Runs/Steps.antt =====
-- Over any calls, the runs keep what they are, and no more than eight of them, two of one owner, are
-- at work.
use fgvcplateform_public.Base.{
  ℕ, ◌+◌, ◌*◌, ◌≡◌, refl, String, Bool, true, false, not, ◌&&◌, ◌||◌, Option, none, some, List, [],
  ◌∷◌, str_eq, arith, if_cases, Bool-cases, inl, inr, ltb, leb, is_empty, byte_len, trim_space, any,
}
use fgvcplateform_public.Base.Assoc.{Assoc, lookup}
use fgvcplateform_public.Base.Tables.{IsKeyed}
use fgvcplateform_public.Base.Changes.{Later}
use fgvcplateform_public.Runs.{Status, queued, Proposal, Run, Conversation, Store, is_running}
use fgvcplateform_public.Runs.Submission.{
  count_runs, is_active, is_owned, is_pending, first_run, insert_run, submit_in, submit_found,
  find_key, submit,
}
use fgvcplateform_public.Runs.Workers.{
  holds, beat_found, heartbeat, saved, save_found, save, second,
}
use fgvcplateform_public.Runs.Control.{
  is_ended, awaits_confirmation, awaits_auth, stopping, owned, cancel_found, cancel, agreed,
  confirm_proposal, confirm_found, confirm, resume_found, resume,
}
use fgvcplateform_public.Runs.Calls.{
  Call, submits, claims, beats, saves, cancels, confirms, resumes, step, run,
}
use fgvcplateform_public.Runs.Moves.{Moves, IsBounded, Goes, stays, Goes-trans, puts, adds}
use fgvcplateform_public.Runs.Lifecycle.{
  Ends, moves, running-open, waiting-open, auth-open, claim-Goes,
}

heartbeat-Goes :
    (now : ℕ) (id : String) (epoch : ℕ) (s : Store)
    → IsKeyed s.runs
    → Ends s (heartbeat now id epoch s)
unfolding heartbeat
heartbeat-Goes now id epoch s u = found (lookup id s.runs) refl
  where
    found : (o : Option Run) → lookup id s.runs ≡ o → Ends s (beat_found now id epoch o s)
    found none e = stays s s u refl
    found (some r) e =
        if_cases (Ends s) (holds now epoch r)
          (λ h.
            let at_work : is_running r.status ≡ true = ground (arith, h) in
            puts id (record r { lease_until = some (now + 60 * second) }) r s _ u refl e
              (moves r (record r { lease_until = some (now + 60 * second) }) refl refl refl refl
                (omega arith) (λ c. c) (running-open r.status at_work))
              (omega arith))
          (λ h. stays s s u refl)

save-Goes :
    (now : ℕ) (id : String) (mine : Run) (status : Status) (kind : String) (payload : Assoc String)
    (s : Store)
    → IsKeyed s.runs
    → Ends s (save now id mine status kind payload s)
unfolding save
save-Goes now id mine status kind payload s u = found (lookup id s.runs) refl
  where
    found :
        (o : Option Run)
        → lookup id s.runs ≡ o
        → Ends s (save_found now id mine status kind payload o s)
    found none e = stays s s u refl
    found (some r) e =
        if_cases (Ends s) (holds now mine.epoch r)
          (λ h.
            let at_work : is_running r.status ≡ true = ground (arith, h) in
            puts id (saved mine status r) r s _ u refl e
              (moves r (saved mine status r) refl refl refl refl (omega arith) (λ c. c)
                (running-open r.status at_work))
              (ground (arith, at_work)))
          (λ h. stays s s u refl)

submit-Goes :
    (is_uuid : String → Bool) (new_id owner conv key input grant : String) (s : Store)
    → IsKeyed s.runs
    → Ends s (submit is_uuid new_id owner conv key input grant s)
unfolding submit submit_found submit_in
submit-Goes is_uuid new_id owner conv key raw grant s u =
    if_cases (Ends s) (is_empty input || ltb 16000 (byte_len input)) (λ _. stays s s u refl)
      (λ _.
        if_cases (Ends s) (not (is_uuid key)) (λ _. stays s s u refl)
          (λ _. found (find_key owner key s.runs)))
  where
    input : String
    input = trim_space raw

    inserted :
        (r : Run) (c : Conversation) (o : Option Run)
        → is_running r.status ≡ false
        → lookup new_id s.runs ≡ o
        → Ends s (insert_run conv new_id r c o s)
    inserted r c none idle e = adds new_id r s _ u refl e idle
    inserted r c (some old) idle e = stays s s u refl

    in_conversation :
        (o : Option Conversation) → Ends s (submit_in new_id owner conv key input grant o s)
    in_conversation none = stays s s u refl
    in_conversation (some c) =
        if_cases (Ends s) (not (str_eq c.owner owner)) (λ _. stays s s u refl)
          (λ _.
            if_cases (Ends s) (ltb 0 (count_runs (is_active conv) s.runs)) (λ _. stays s s u refl)
              (λ _.
                if_cases (Ends s)
                  (leb 8 (count_runs (is_owned owner) s.runs)
                    || leb 128 (count_runs is_pending s.runs))
                  (λ _. stays s s u refl)
                  (λ _.
                    inserted (first_run owner conv key input grant s.runs) c (lookup new_id s.runs)
                      refl refl)))

    found :
        (o : Option (String × Run)) → Ends s (submit_found new_id owner conv key input grant o s)
    found none = in_conversation (lookup conv s.conversations)
    found (some (id, previous)) =
        if_cases (Ends s)
          (not (str_eq previous.conversation_id conv) || not (str_eq previous.input input))
          (λ _. stays s s u refl) (λ _. stays s s u refl)

-- the row that an owner's call finds is the row of the id
owned-row : (owner : String) (o : Option Run) (r : Run) → owned owner o ≡ some r → o ≡ some r
owned-row owner none r h = cc
owned-row owner (some x) r h = elim (Bool-cases (str_eq x.owner owner)) [
  | inl p ↦ rw p at h
  | inr p ↦ let e = rw p at h in absurd (cc e)
]

cancel-Goes : (owner id : String) (s : Store) → IsKeyed s.runs → Ends s (cancel owner id s)
unfolding cancel cancel_found
cancel-Goes owner id s u = found (owned owner (lookup id s.runs)) refl
  where
    found : (o : Option Run) → owned owner (lookup id s.runs) ≡ o → Ends s (cancel_found id o s)
    found none e = stays s s u refl
    found (some r) e =
        if_cases (Ends s) (is_ended r.status) (λ _. stays s s u refl)
          (λ open_.
            puts id (stopping r) r s _ u refl (owned-row owner (lookup id s.runs) r e)
              (moves r (stopping r) refl refl refl refl (omega arith) (λ c. refl) open_)
              (ground arith))

resume-Goes :
    (owner id grant : String) (s : Store) → IsKeyed s.runs → Ends s (resume owner id grant s)
unfolding resume resume_found
resume-Goes owner id grant s u = found (owned owner (lookup id s.runs)) refl
  where
    found :
        (o : Option Run) → owned owner (lookup id s.runs) ≡ o → Ends s (resume_found id grant o s)
    found none e = stays s s u refl
    found (some r) e =
        let r' : Run = record r { status = queued; grant = grant; error = "" } in
        if_cases (Ends s) (awaits_auth r.status && not r.cancel)
          (λ h.
            let waiting : awaits_auth r.status ≡ true = ground (arith, h) in
            puts id r' r s _ u refl (owned-row owner (lookup id s.runs) r e)
              (moves r r' refl refl refl refl (omega arith) (λ c. c) (auth-open r.status waiting))
              (omega arith))
          (λ h. stays s s u refl)

module _ (is_uuid : String → Bool) (canon : String → String) where
  confirm-Goes :
      (owner id operation receipt grant args : String) (s : Store)
      → IsKeyed s.runs
      → Ends s (confirm canon owner id operation receipt grant args s)
  unfolding confirm confirm_found confirm_proposal
  confirm-Goes owner id operation receipt grant args s u =
      found (owned owner (lookup id s.runs)) refl
    where
      proposed :
          (r : Run) (o : Option Proposal)
          → lookup id s.runs ≡ some r
          → Ends s (confirm_proposal canon id operation receipt grant args r o s)
      proposed r none e = stays s s u refl
      proposed r (some p) e =
          if_cases (Ends s) (not (str_eq p.operation_id operation)) (λ _. stays s s u refl)
            (λ _.
              if_cases (Ends s) p.confirmed (λ _. stays s s u refl)
                (λ _.
                  if_cases (Ends s) (not (awaits_confirmation r.status) || r.cancel)
                    (λ _. stays s s u refl)
                    (λ h.
                      if_cases (Ends s) (not (str_eq (canon p.arguments) (canon args)))
                        (λ _. stays s s u refl)
                        (λ _.
                          let waiting : awaits_confirmation r.status ≡ true = ground (arith, h) in
                          puts id (agreed receipt grant p r) r s _ u refl e
                            (moves r (agreed receipt grant p r) refl refl refl refl (omega arith)
                              (λ c. c) (waiting-open r.status waiting))
                            (omega arith)))))

      found :
          (o : Option Run)
          → owned owner (lookup id s.runs) ≡ o
          → Ends s (confirm_found canon id operation receipt grant args o s)
      found none e = stays s s u refl
      found (some r) e =
          if_cases (Ends s) (any (λ done. str_eq done operation) r.state.completed_operations)
            (λ _. stays s s u refl)
            (λ _. proposed r r.state.proposal (owned-row owner (lookup id s.runs) r e))

  step-Goes : (c : Call) (s : Store) → IsKeyed s.runs → Goes s (step is_uuid canon c s)
  unfolding step
  step-Goes (submits new_id owner conv key input grant) s u =
      submit-Goes is_uuid new_id owner conv key input grant s u
  step-Goes (claims now) s u = claim-Goes now s u
  step-Goes (beats now id epoch) s u = heartbeat-Goes now id epoch s u
  step-Goes (saves now id mine status kind payload) s u =
      save-Goes now id mine status kind payload s u
  step-Goes (cancels owner id) s u = cancel-Goes owner id s u
  step-Goes (confirms owner id operation receipt grant args) s u =
      confirm-Goes owner id operation receipt grant args s u
  step-Goes (resumes owner id grant) s u = resume-Goes owner id grant s u

  pub run-Goes : (cs : List Call) (s : Store) → IsKeyed s.runs → Goes s (run is_uuid canon cs s)
  unfolding run
  run-Goes [] s u = stays s s u refl
  run-Goes (c ∷ cs) s u =
      let g = step-Goes c s u in
      Goes-trans s (step is_uuid canon c s) _ g (run-Goes cs (step is_uuid canon c s) g.keyed)

  -- Over any calls of any workers and owners, from a store whose ids are keys: if at most eight
  -- runs are at work and at most two of each owner, then so it stays.
  pub run-IsBounded :
      (cs : List Call) (s : Store)
      → IsKeyed s.runs
      → IsBounded s.runs
      → IsBounded (run is_uuid canon cs s).runs
  run-IsBounded cs s u b = (run-Goes cs s u).bounded b

  -- Over any calls no run is lost or gets another owner, conversation, key or input; its epoch never
  -- falls; a request to stop is never withdrawn; and a run that succeeded, failed or was cancelled
  -- stays exactly as it is.
  pub run-Moves :
      (cs : List Call) (s : Store)
      → IsKeyed s.runs
      → Later Moves s.runs (run is_uuid canon cs s).runs
  run-Moves cs s u = (run-Goes cs s u).later
