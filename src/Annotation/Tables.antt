-- ===== src/Annotation/Tables.antt =====
-- The row that the queue of tasks hands out.
use fgvcplateform_public.Base.{
  ◌≡◌, sym, ap, ◌∙◌, String, true, false, some, [], ◌∷◌, str_eq, arith, eq_iff, Bool-cases, inl,
  inr, some_inj,
}
use fgvcplateform_public.Base.Assoc.{Assoc, lookup}
use fgvcplateform_public.Base.Tables.{IsKeyed}
use fgvcplateform_public.Annotation.{Task}
use fgvcplateform_public.Annotation.Repository.{first_queued, is_queued}

-- The row that the queue hands out is the row of its id, and is queued.
pub first_queued-lookup :
    (m : Assoc Task) (id : String) (t : Task)
    → IsKeyed m
    → first_queued m ≡ some (id, t)
    → (lookup id m ≡ some t) × (is_queued t.status ≡ true)
unfolding first_queued lookup
first_queued-lookup [] id t u h = cc
first_queued-lookup ((k, x) ∷ m) id t u h = elim (Bool-cases (is_queued x.status)) [
  | inl p ↦
      let e = some_inj (rw p at h) in
      let same_id : k ≡ id = ap (λ (r : String × Task). r.0) e in
      let same_row : x ≡ t = ap (λ (r : String × Task). r.1) e in
      (
        rw ((eq_iff k id).1 same_id) (ap some same_row),
        ap (λ (r : Task). is_queued r.status) (sym same_row) ∙ p,
      )
  | inr p ↦
      let r = first_queued-lookup m id t u.1 (rw p at h) in
      let apart : str_eq k id ≡ false = ground (arith, r.0, u.0, eq_iff k id) in (rw apart r.0, r.1)
]
