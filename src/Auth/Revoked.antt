-- ===== src/Auth/Revoked.antt =====
-- A change of access ends the user's sessions.
use fgvcplateform_public.Base.{
  ℕ, ◌≡◌, refl, sym, ap, subst, ◌∙◌, String, false, not, ◌&&◌, ◌||◌, Option, none, some, str_eq,
  Bool-cases, inl, inr, ltb, leb,
}
use fgvcplateform_public.Base.Assoc.{Assoc, lookup}
use fgvcplateform_public.Base.Tables.{delete_where, deleted-kept}
use fgvcplateform_public.Auth.{
  User, Account, SessionRow, Session, Store, Result, ok, err, is_admin, is_active, valid_role,
  valid_status,
}
use fgvcplateform_public.Auth.Accounts.{
  is_active_admin, count_admins, of_user, joined, session_of, find_session, update_found,
  update_user,
}

-- No session of the user is there.
abbrev pub IsLoggedOut : String → Store → Type 0
IsLoggedOut id s =
    (t : ℕ) (hash : String) (x : Session)
    → find_session t hash s ≡ ok x
    → str_eq x.user_id id ≡ false

joined-row :
    (t : ℕ) (row : SessionRow) (o : Option Account) (x : Session)
    → joined t row o ≡ ok x
    → x.user_id ≡ row.user_id
joined-row t row none x h = absurd (cc h)
joined-row t row (some a) x h =
    elim (Bool-cases (ltb t row.expires_at && is_active a.user.status)) [
      | inl p ↦
          let mine : Session = record {
            user_id = row.user_id;
            user = a.user;
            csrf_token = row.csrf_token;
          } in
          let same : ok mine ≡ ok x = rw p at h in sym (ap (id_or "") same)
      | inr p ↦ let e = rw p at h in absurd (cc e)
    ]
  where
    id_or : String → Result Session → String
    id_or d (err e) = d
    id_or d (ok y) = y.user_id

deleted-IsLoggedOut :
    (id : String) (s : Store) (sessions : Assoc SessionRow)
    → s.sessions ≡ delete_where (of_user id) sessions
    → IsLoggedOut id s
unfolding find_session
deleted-IsLoggedOut id s sessions e t hash x h = found (lookup hash s.sessions) refl h
  where
    found :
        (o : Option SessionRow)
        → lookup hash s.sessions ≡ o
        → session_of t o s ≡ ok x
        → str_eq x.user_id id ≡ false
    found none l k = absurd (cc k)
    found (some row) l k =
        let kept : of_user id row ≡ false =
          deleted-kept (of_user id) hash row sessions (ap (lookup hash) (sym e) ∙ l) in
        subst (λ u. str_eq u id ≡ false) (sym (joined-row t row (lookup row.user_id s.users) x k))
          kept

-- If UpdateUser succeeds, no session of the user is found afterwards, at any time and for any secret.
pub update_user-IsLoggedOut :
    (now : ℕ) (actor id role status reason : String) (row : String × User) (s : Store)
    → (update_user now actor id role status reason s).1 ≡ ok row
    → IsLoggedOut id (update_user now actor id role status reason s).0
unfolding update_user
update_user-IsLoggedOut now actor id role status reason row s h =
    elim (Bool-cases (not (valid_role role) || not (valid_status status))) [
      | inl p ↦ let e = rw p at h in absurd (cc e)
      | inr p ↦ elim (Bool-cases (str_eq actor id)) [
        | inl q ↦ let e = rw (p, q) at h in absurd (cc e)
        | inr q ↦ rw (p, q) (found (lookup id s.users) (rw (p, q) at h))
      ]
    ]
  where
    found :
        (o : Option Account)
        → (update_found now actor id role status reason o s).1 ≡ ok row
        → IsLoggedOut id (update_found now actor id role status reason o s).0
    found none k = absurd (cc k)
    found (some a) k =
        elim (Bool-cases (
          is_active_admin a.user
          && (not (is_admin role) || not (is_active status))
          && leb (count_admins s.users) 1)) [
            | inl y ↦ let e = rw y at k in absurd (cc e)
            | inr y ↦ rw y (deleted-IsLoggedOut id _ s.sessions refl)
          ]
