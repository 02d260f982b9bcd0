-- ===== src/Runs/Confirmed.antt =====
-- A browser may repeat a confirmation: it makes one dispatch.
use fgvcplateform_public.Base.{
  ◌≡◌, refl, subst, String, true, false, not, ◌||◌, Option, none, some, str_eq, Bool-cases, inl,
  inr, any,
}
use fgvcplateform_public.Base.Assoc.{lookup, lookup-insert_self}
use fgvcplateform_public.Runs.{Proposal, Run, Store, ok}
use fgvcplateform_public.Runs.Control.{
  awaits_confirmation, owned, agreed, confirm_proposal, confirm_found, confirm,
}

-- What makes a further confirmation of the operation a repetition.
data IsAgreed (owner id operation : String) (s : Store) : Type 0 where
  is_done :
      (r : Run)
      → owned owner (lookup id s.runs) ≡ some r
      → any (λ done. str_eq done operation) r.state.completed_operations ≡ true
      → IsAgreed owner id operation s
  is_confirmed :
      (r : Run) (p : Proposal)
      → owned owner (lookup id s.runs) ≡ some r
      → any (λ done. str_eq done operation) r.state.completed_operations ≡ false
      → r.state.proposal ≡ some p
      → str_eq p.operation_id operation ≡ true
      → p.confirmed ≡ true
      → IsAgreed owner id operation s

owned-parts :
    (owner : String) (o : Option Run) (r : Run)
    → owned owner o ≡ some r
    → str_eq r.owner owner ≡ true
owned-parts owner none r h = absurd (cc h)
owned-parts owner (some x) r h = elim (Bool-cases (str_eq x.owner owner)) [
  | inl p ↦
      let same : some x ≡ some r = rw p at h in
      subst (λ o. (str_eq (from_some x o).owner owner) ≡ true) same p
  | inr p ↦ let e = rw p at h in absurd (cc e)
]
  where
    from_some : Run → Option Run → Run
    from_some d none = d
    from_some d (some y) = y

module _ (canon : String → String) where
  confirm_proposal-IsAgreed :
      (owner id operation receipt grant args : String) (r : Run) (o : Option Proposal) (s : Store)
      → owned owner (lookup id s.runs) ≡ some r
      → any (λ done. str_eq done operation) r.state.completed_operations ≡ false
      → r.state.proposal ≡ o
      → (confirm_proposal canon id operation receipt grant args r o s).1 ≡ ok tt
      → IsAgreed owner id operation (confirm_proposal canon id operation receipt grant args r o s).0
  unfolding confirm_proposal
  confirm_proposal-IsAgreed owner id operation receipt grant args r none s found fresh e h =
      absurd (cc h)
  confirm_proposal-IsAgreed owner id operation receipt grant args r (some p) s found fresh e h =
      elim (Bool-cases (str_eq p.operation_id operation)) [
        | inr q ↦ let w = rw q at h in absurd (cc w)
        | inl q ↦ elim (Bool-cases p.confirmed) [
          | inl c ↦ rw (q, c) (is_confirmed r p found fresh e q c)
          | inr c ↦ elim (Bool-cases (not (awaits_confirmation r.status) || r.cancel)) [
            | inl x ↦ let w = rw (q, c, x) at h in absurd (cc w)
            | inr x ↦ elim (Bool-cases (str_eq (canon p.arguments) (canon args))) [
              | inr y ↦ let w = rw (q, c, x, y) at h in absurd (cc w)
              | inl y ↦
                  rw (q, c, x, y)
                    (is_confirmed (agreed receipt grant p r) (record p { confirmed = true })
                      (rw
                        (
                          lookup-insert_self id (agreed receipt grant p r) s.runs,
                          owned-parts owner (lookup id s.runs) r found,
                        )
                        refl)
                      fresh refl q refl)
            ]
          ]
        ]
      ]

  confirm_found-IsAgreed :
      (owner id operation receipt grant args : String) (o : Option Run) (s : Store)
      → owned owner (lookup id s.runs) ≡ o
      → (confirm_found canon id operation receipt grant args o s).1 ≡ ok tt
      → IsAgreed owner id operation (confirm_found canon id operation receipt grant args o s).0
  unfolding confirm_found
  confirm_found-IsAgreed owner id operation receipt grant args none s found h = absurd (cc h)
  confirm_found-IsAgreed owner id operation receipt grant args (some r) s found h =
      elim (Bool-cases (any (λ done. str_eq done operation) r.state.completed_operations)) [
        | inl p ↦ rw p (is_done r found p)
        | inr p ↦ rw p (
            confirm_proposal-IsAgreed owner id operation receipt grant args r r.state.proposal s
              found p refl (rw p at h))
      ]

  agreed_again :
      (owner id operation receipt grant args : String) (s : Store)
      → IsAgreed owner id operation s
      → confirm canon owner id operation receipt grant args s ≡ (s, ok tt)
  unfolding confirm confirm_found confirm_proposal
  agreed_again owner id operation receipt grant args s (is_done r found done) =
      rw (found, done) refl
  agreed_again owner id operation receipt grant args s (is_confirmed r p found fresh e q c) =
      rw (found, fresh, e, q, c) refl

  -- If a confirmation of an operation is accepted, then confirming the same operation of the same run
  -- again, with any receipt, grant and arguments, is accepted and changes nothing.
  pub confirm-again :
      (owner id operation receipt grant args receipt' grant' args' : String) (s : Store)
      → (confirm canon owner id operation receipt grant args s).1 ≡ ok tt
      → let s' = (confirm canon owner id operation receipt grant args s).0 in
        confirm canon owner id operation receipt' grant' args' s' ≡ (s', ok tt)
  unfolding confirm
  confirm-again owner id operation receipt grant args receipt' grant' args' s h =
      agreed_again owner id operation receipt' grant' args'
        (confirm canon owner id operation receipt grant args s).0
        (confirm_found-IsAgreed owner id operation receipt grant args
          (owned owner (lookup id s.runs)) s refl h)
