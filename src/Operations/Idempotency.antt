-- ===== src/Operations/Idempotency.antt =====
-- A key starts one operation, and a definite outcome stays.
use fgvcplateform_public.Base.{
  ℕ, String, ◌≡◌, refl, ap, subst, ◌∙◌, Bool, false, not, ◌&&◌, ◌||◌, Option, none, some, str_eq,
  if◌then◌else◌, arith, Bool-cases, inl, inr, ℤ,
}
use fgvcplateform_public.Base.Assoc.{lookup, insert, lookup-insert_self}
use fgvcplateform_public.Operations.{
  completed, Operation, conflict, Result, ok, err, at_least, outcome_of, clone, Rows, row_key,
  started, begin_found, begin, finished, finish_found, finish, get_found, get_operation,
}

-- What a Begin that returned `x` leaves under its key.
record Held (key : String) (x : Operation) (rows : Rows) : Type 0 where
  pub row : Operation
  pub found : lookup key rows ≡ some row
  pub cloned : clone row ≡ x

clone_idem : (op : Operation) → clone (clone op) ≡ clone op
unfolding clone
clone_idem op = refl

returned : Operation → Result (Operation × Bool) → Operation
returned x (ok y) = y.0
returned x (err e) = x

returned_inj :
    {x y : Operation} {a b : Bool}
    → ◌≡◌ {A = Result (Operation × Bool)} (ok (x, a)) (ok (y, b))
    → x ≡ y
unfolding returned
returned_inj {x = x} e = ap (λ o. returned x o) e

begin-Held :
    (now : ℕ) (op : Operation) (rows : Rows) (x : Operation) (b : Bool)
    → (begin now op rows).0 ≡ ok (x, b)
    → Held (row_key op.actor op.id) x (begin now op rows).1
unfolding begin
begin-Held now op rows x b h = go (lookup (row_key op.actor op.id) rows) refl h
  where
    key : String
    key = row_key op.actor op.id

    go :
        (o : Option Operation)
        → lookup key rows ≡ o
        → (begin_found now op rows o).0 ≡ ok (x, b)
        → Held key x (begin_found now op rows o).1
    go none f e = record {
      row = clone (started now op);
      found = lookup-insert_self key (clone (started now op)) rows;
      cloned = clone_idem (started now op) ∙ returned_inj e;
    }
    go (some old) f e =
        elim (Bool-cases (not (str_eq old.digest op.digest) || not (str_eq old.tool op.tool))) [
          | inl t ↦ ground (arith, rw t at e)
          | inr t ↦ rw t (record { row = old; found = f; cloned = returned_inj (rw t at e) })
        ]

answer :
    (now : ℕ) (op row : Operation) (rows : Rows)
    → begin_found now op rows (some row) ≡ (
      (if str_eq (clone row).digest op.digest && str_eq (clone row).tool op.tool
          then ok (clone row, false)
          else err conflict),
      rows,
    )
unfolding clone
answer now op row rows = ground arith

-- A Begin under a key that holds `x`.
begin_of_Held :
    (now : ℕ) (op x : Operation) (rows : Rows)
    → Held (row_key op.actor op.id) x rows
    → begin now op rows ≡ (
      (if str_eq x.digest op.digest && str_eq x.tool op.tool then ok (x, false) else err conflict),
      rows,
    )
unfolding begin
begin_of_Held now op x rows k =
    subst
      (λ y. begin now op rows ≡ (
        (if str_eq y.digest op.digest && str_eq y.tool op.tool
            then ok (y, false)
            else err conflict),
        rows,
      ))
      k.cloned (ap (λ o. begin_found now op rows o) k.found ∙ answer now op k.row rows)

-- After a Begin that returned an operation, a Begin of the same actor under the same id stores
-- nothing: it returns that very operation, as not new, if the tool and the digest of the arguments
-- are the same, and a conflict otherwise.
pub begin-again :
    (now now' : ℕ) (op op' : Operation) (rows : Rows) (x : Operation) (b : Bool)
    → (begin now op rows).0 ≡ ok (x, b)
    → op'.actor ≡ op.actor
    → op'.id ≡ op.id
    → let rows' = (begin now op rows).1 in
      begin now' op' rows' ≡ (
        (if str_eq x.digest op'.digest && str_eq x.tool op'.tool
            then ok (x, false)
            else err conflict),
        rows',
      )
begin-again now now' op op' rows x b h a i =
    let held : Held (row_key op.actor op.id) x (begin now op rows).1 =
      begin-Held now op rows x b h in
    let key : row_key op.actor op.id ≡ row_key op'.actor op'.id = rw (a, i) refl in
    begin_of_Held now' op' x (begin now op rows).1
      (subst (λ k. Held k x (begin now op rows).1) key held)

accepted :
    (now : ℕ) (key : String) (status : ℤ) (body : String) (rows : Rows) (o : Option Operation)
    → (finish_found now key status body rows o).0 ≡ ok tt
    → (op : Operation) × (finish_found now key status body rows o
        ≡ (ok tt, insert key (finished now status body op) rows))
accepted now key status body rows none h = cc
accepted now key status body rows (some op) h = (op, ground arith)

-- After a Finish that was accepted, Get returns the operation as completed with this status, body
-- and outcome, and a further Finish is accepted exactly when the status was 500 or more: a definite
-- outcome is never overwritten.
pub finish-again :
    (now now' : ℕ) (actor id body body' : String) (status status' : ℤ) (rows : Rows)
    → (finish now actor id status body rows).0 ≡ ok tt
    → let rows' = (finish now actor id status body rows).1 in
      ((op : Operation) × (get_operation actor id rows' ≡ ok op)
        × (op.status ≡ completed)
        × (op.http_status ≡ status)
        × (op.response ≡ body)
        × (op.outcome ≡ outcome_of status))
      × ((finish now' actor id status' body' rows').0
          ≡ (if at_least 500 status then ok tt else err conflict))
unfolding finish get_operation finished clone
finish-again now now' actor id body body' status status' rows h =
    let (op, e) =
      accepted now (row_key actor id) status body rows (lookup (row_key actor id) rows) h in
    rw e (
      (
        clone (finished now status body op),
        ap get_found (lookup-insert_self (row_key actor id) (finished now status body op) rows),
        refl,
        refl,
        refl,
        refl,
      ),
      ap
            (λ o.
              (finish_found now' (row_key actor id) status' body'
                (insert (row_key actor id) (finished now status body op) rows) o).0)
            (lookup-insert_self (row_key actor id) (finished now status body op) rows)
          ∙ ground arith,
    )
