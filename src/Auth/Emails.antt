-- ===== src/Auth/Emails.antt =====
-- The account of an address, in a table of accounts.
use fgvcplateform_public.Base.{
  ◌≡◌, sym, ap, subst, ◌∙◌, String, true, Option, none, some, [], ◌∷◌, str_eq, eq_iff, Bool-cases,
  inl, inr,
}
use fgvcplateform_public.Base.Assoc.{Assoc, lookup, insert}
use fgvcplateform_public.Base.Tables.{IsKeyed}
use fgvcplateform_public.Auth.{Account}
use fgvcplateform_public.Auth.Accounts.{find_email}

abbrev pub row_or : String × Account → Option (String × Account) → String × Account
row_or d none = d
row_or d (some x) = x

-- the account that is found by its address stands under its id
pub find_email-lookup :
    (email id : String) (a : Account) (m : Assoc Account)
    → IsKeyed m
    → find_email email m ≡ some (id, a)
    → lookup id m ≡ some a
unfolding find_email lookup
find_email-lookup email id a [] u h = absurd (cc h)
find_email-lookup email id a ((k, x) ∷ m) u h = elim (Bool-cases (str_eq x.user.email email)) [
  | inl p ↦
      let met : some (k, x) ≡ some (id, a) = rw p at h in
      let same : (k, x) ≡ (id, a) = ap (row_or (k, x)) met in
      let key : str_eq k id ≡ true = (eq_iff k id).1 (ap (λ (r : String × Account). r.0) same) in
      rw key (ap (λ (r : String × Account). some r.1) same)
  | inr p ↦
      let later = find_email-lookup email id a m u.1 (rw p at h) in
      elim (Bool-cases (str_eq k id)) [
        | inl q ↦
            let same : k ≡ id = (eq_iff k id).0 q in
            absurd
              (let gone = subst (λ (j : String). lookup j m ≡ none) same u.0 in cc (gone, later))
        | inr q ↦ rw q later
      ]
]

-- an account that keeps its address is still found by it
pub find_email-insert :
    (email id : String) (a b : Account) (m : Assoc Account)
    → IsKeyed m
    → find_email email m ≡ some (id, a)
    → b.user.email ≡ a.user.email
    → find_email email (insert id b m) ≡ some (id, b)
unfolding find_email insert
find_email-insert email id a b [] u h e = absurd (cc h)
find_email-insert email id a b ((k, x) ∷ m) u h e = elim (Bool-cases (str_eq x.user.email email)) [
  | inl p ↦
      let met : some (k, x) ≡ some (id, a) = rw p at h in
      let same : (k, x) ≡ (id, a) = ap (row_or (k, x)) met in
      let key : str_eq k id ≡ true = (eq_iff k id).1 (ap (λ (r : String × Account). r.0) same) in
      let address : x.user.email ≡ b.user.email =
        ap (λ (r : String × Account). r.1.user.email) same ∙ sym e in
      let kept : str_eq b.user.email email ≡ true = subst (λ t. str_eq t email ≡ true) address p in
      rw (key, kept) (ap (λ (r : String × Account). some (r.0, b)) same)
  | inr p ↦
      let later = find_email-insert email id a b m u.1 (rw p at h) e in
      let there = find_email-lookup email id a m u.1 (rw p at h) in
      elim (Bool-cases (str_eq k id)) [
        | inl q ↦
            let same : k ≡ id = (eq_iff k id).0 q in
            absurd
              (let gone = subst (λ (j : String). lookup j m ≡ none) same u.0 in cc (gone, there))
        | inr q ↦ rw (q, p) later
      ]
]
