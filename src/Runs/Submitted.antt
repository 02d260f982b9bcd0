-- ===== src/Runs/Submitted.antt =====
-- A browser may repeat a submission: it makes one run.
use fgvcplateform_public.Base.{
  ◌≡◌, refl, ap, subst, String, Bool, ◌&&◌, ◌||◌, Option, none, some, [], ◌∷◌, str_eq, eq_iff,
  Bool-cases, inl, inr, ltb, leb, is_empty, byte_len, trim_space,
}
use fgvcplateform_public.Base.Assoc.{Assoc, lookup, insert}
use fgvcplateform_public.Runs.{Run, Conversation, Store, ok, value_or}
use fgvcplateform_public.Runs.Submission.{
  count_runs, is_active, is_owned, is_pending, first_run, insert_run, submit_in, submit_found,
  find_key, submit,
}

find_key-insert :
    (owner key id : String) (r : Run) (m : Assoc Run)
    → r.owner ≡ owner
    → r.key ≡ key
    → lookup id m ≡ none
    → find_key owner key m ≡ none
    → find_key owner key (insert id r m) ≡ some (id, r)
unfolding find_key insert lookup
find_key-insert owner key id r [] o k fresh absent =
    rw ((eq_iff r.owner owner).1 o, (eq_iff r.key key).1 k) refl
find_key-insert owner key id r ((j, x) ∷ m) o k fresh absent = elim (Bool-cases (str_eq j id)) [
  | inl p ↦ let e = rw p at fresh in absurd (cc e)
  | inr p ↦ elim (Bool-cases (str_eq x.owner owner && str_eq x.key key)) [
    | inl q ↦ let e = rw q at absent in absurd (cc e)
    | inr q ↦ rw (p, q) (find_key-insert owner key id r m o k (rw p at fresh) (rw q at absent))
  ]
]

-- The run of a successful submission is found by its key afterwards.
record IsFiled (owner conv key input : String) (row : String × Run) (s : Store) : Type 0 where
  found : find_key owner key s.runs ≡ some row
  same_conversation : row.1.conversation_id ≡ conv
  same_input : row.1.input ≡ input

inserted-IsFiled :
    (new_id owner conv key input grant : String) (c : Conversation) (o : Option Run)
    (row : String × Run) (s : Store)
    → find_key owner key s.runs ≡ none
    → lookup new_id s.runs ≡ o
    → (insert_run conv new_id (first_run owner conv key input grant s.runs) c o s).1 ≡ ok row
    → IsFiled owner conv key input row
        (insert_run conv new_id (first_run owner conv key input grant s.runs) c o s).0
inserted-IsFiled new_id owner conv key input grant c (some old) row s absent e h = absurd (cc h)
inserted-IsFiled new_id owner conv key input grant c none row s absent e h =
    let r = first_run owner conv key input grant s.runs in
    let same : (new_id, r) ≡ row = ap (value_or (new_id, r)) h in
    subst (λ w. IsFiled owner conv key input w (insert_run conv new_id r c none s).0) same
      (record {
        found = find_key-insert owner key new_id r s.runs refl refl e absent;
        same_conversation = refl;
        same_input = refl;
      })

submit_in-IsFiled :
    (new_id owner conv key input grant : String) (o : Option Conversation) (row : String × Run)
    (s : Store)
    → find_key owner key s.runs ≡ none
    → (submit_in new_id owner conv key input grant o s).1 ≡ ok row
    → IsFiled owner conv key input row (submit_in new_id owner conv key input grant o s).0
unfolding submit_in
submit_in-IsFiled new_id owner conv key input grant none row s absent h = absurd (cc h)
submit_in-IsFiled new_id owner conv key input grant (some c) row s absent h =
    elim (Bool-cases (str_eq c.owner owner)) [
      | inl mine ↦ elim (Bool-cases (ltb 0 (count_runs (is_active conv) s.runs))) [
        | inl active ↦ let e = rw (mine, active) at h in absurd (cc e)
        | inr idle ↦
            elim (Bool-cases (
              leb 8 (count_runs (is_owned owner) s.runs)
              || leb 128 (count_runs is_pending s.runs))) [
                | inl full ↦ let e = rw (mine, idle, full) at h in absurd (cc e)
                | inr room ↦
                    rw (mine, idle, room)
                      (inserted-IsFiled new_id owner conv key input grant c (lookup new_id s.runs)
                        row s absent refl (rw (mine, idle, room) at h))
              ]
      ]
      | inr other ↦ let e = rw other at h in absurd (cc e)
    ]

submit_found-IsFiled :
    (new_id owner conv key input grant : String) (o : Option (String × Run)) (row : String × Run)
    (s : Store)
    → find_key owner key s.runs ≡ o
    → (submit_found new_id owner conv key input grant o s).1 ≡ ok row
    → IsFiled owner conv key input row (submit_found new_id owner conv key input grant o s).0
unfolding submit_found
submit_found-IsFiled new_id owner conv key input grant none row s found h =
    submit_in-IsFiled new_id owner conv key input grant (lookup conv s.conversations) row s found h
submit_found-IsFiled new_id owner conv key input grant (some (id, r)) row s found h =
    elim (Bool-cases (str_eq r.conversation_id conv)) [
      | inl p ↦ elim (Bool-cases (str_eq r.input input)) [
        | inl q ↦
            let same : (id, r) ≡ row = ap (value_or (id, r)) (rw (p, q) at h) in
            rw (p, q)
              (subst (λ w. IsFiled owner conv key input w s) same
                (record {
                  found = found;
                  same_conversation = (eq_iff r.conversation_id conv).0 p;
                  same_input = (eq_iff r.input input).0 q;
                }))
        | inr q ↦ let e = rw (p, q) at h in absurd (cc e)
      ]
      | inr p ↦ let e = rw p at h in absurd (cc e)
    ]

filed_again :
    (new_id owner conv key input grant : String) (row : String × Run) (s : Store)
    → IsFiled owner conv key input row s
    → submit_found new_id owner conv key input grant (find_key owner key s.runs) s ≡ (s, ok row)
unfolding submit_found
filed_again new_id owner conv key input grant row s f =
    rw
      (
        f.found,
        (eq_iff row.1.conversation_id conv).1 f.same_conversation,
        (eq_iff row.1.input input).1 f.same_input,
      )
      refl

-- If a submission is accepted, the same submission made again, with another new id and grant,
-- answers with the same run and changes nothing.
pub submit-again :
    (is_uuid : String → Bool) (new_id later_id owner conv key input grant later_grant : String)
    (row : String × Run) (s : Store)
    → (submit is_uuid new_id owner conv key input grant s).1 ≡ ok row
    → let s' = (submit is_uuid new_id owner conv key input grant s).0 in
      submit is_uuid later_id owner conv key input later_grant s' ≡ (s', ok row)
unfolding submit
submit-again is_uuid new_id later_id owner conv key raw grant later_grant row s h =
    let input = trim_space raw in
    elim (Bool-cases (is_empty input || ltb 16000 (byte_len input))) [
      | inl p ↦ let e = rw p at h in absurd (cc e)
      | inr p ↦ elim (Bool-cases (is_uuid key)) [
        | inl q ↦
            rw (p, q)
              (filed_again later_id owner conv key input later_grant row
                (submit_found new_id owner conv key input grant (find_key owner key s.runs) s).0
                (submit_found-IsFiled new_id owner conv key input grant (find_key owner key s.runs)
                  row s refl (rw (p, q) at h)))
        | inr q ↦ let e = rw (p, q) at h in absurd (cc e)
      ]
    ]
