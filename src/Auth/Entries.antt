-- ===== src/Auth/Entries.antt =====
-- Who may log in, and what the session then gives.
use fgvcplateform_public.Base.{
  ℕ, ◌+◌, ◌*◌, ◌≡◌, refl, ap, subst, String, true, false, Option, none, some, List, str_eq, arith,
  if◌then◌else◌, Bool-cases, inl, inr, ltb, byte_len, ◌==◌,
}
use fgvcplateform_public.Base.Assoc.{lookup, insert, lookup-insert_self}
use fgvcplateform_public.Base.Tables.{IsKeyed}
use fgvcplateform_public.Auth.{
  Account, SessionRow, Store, credentials, ok, err, value_or, is_active,
}
use fgvcplateform_public.Auth.Passwords.{verify_password}
use fgvcplateform_public.Auth.Accounts.{
  minute, find_email, find_by_email, found_or, cleared, clear_failed_logins, open_session,
  create_session, find_session,
}
use fgvcplateform_public.Auth.Service.{
  Entry, normalize_email, is_locked, entered, login, login_at, login_as, session,
}
use fgvcplateform_public.Auth.Emails.{find_email-lookup}

-- the session is there until it expires, if the account is active
opened_session :
    (t expires : ℕ) (hash id csrf : String) (a : Account) (s : Store)
    → lookup id s.users ≡ some a
    → is_active a.user.status ≡ true
    → let row : SessionRow = record { user_id = id; csrf_token = csrf; expires_at = expires } in
      find_session t hash (record s { sessions = insert hash row s.sessions }) ≡ (
        if ltb t expires
        then ok (record { user_id = id; user = a.user; csrf_token = csrf })
        else err credentials)
unfolding find_session
opened_session t expires hash id csrf a s e active =
    let row : SessionRow = record { user_id = id; csrf_token = csrf; expires_at = expires } in
    elim (Bool-cases (ltb t expires)) [
      | inl p ↦ rw (lookup-insert_self hash row s.sessions, e, p, active) refl
      | inr p ↦ rw (lookup-insert_self hash row s.sessions, e, p) refl
    ]

cleared_row :
    (id : String) (a : Account) (s : Store)
    → lookup id s.users ≡ some a
    → lookup id (clear_failed_logins id s).users ≡ some (cleared a)
unfolding clear_failed_logins
cleared_row id a s e = rw e (lookup-insert_self id (cleared a) s.users)

module _ (encode : List ℕ → String) (decode : String → Option (List ℕ))
    (argon : String → List ℕ → List ℕ) (sha : String → String) where
  -- What a successful Login of an address means, for the store before and after it.
  pub record IsEntitled (now : ℕ) (email password : String) (e : Entry) (s s' : Store)
      : Type 0 where
    pub account : Account
    pub found : find_email email s.users ≡ some (e.user_id, account)
    pub same_user : e.user ≡ account.user
    pub unlocked : is_locked account.locked_until now ≡ false
    pub verified : verify_password encode decode argon account.password_hash password ≡ true
    pub active : is_active account.user.status ≡ true
    -- for twelve hours the secret gives a session of this user
    pub lasts :
        (t : ℕ)
        → session sha t e.secret s' ≡ (
            if ltb t (now + 12 * 60 * minute)
            then ok (record { user_id = e.user_id; user = e.user; csrf_token = e.csrf })
            else err credentials)

module _ (lower : String → String) (parse : String → Option String) (encode : List ℕ → String)
    (decode : String → Option (List ℕ)) (argon : String → List ℕ → List ℕ)
    (sha : String → String) where
  opened-IsEntitled :
      (now : ℕ) (secret csrf email password id : String) (a : Account) (o : Option SessionRow)
      (e : Entry) (s : Store)
      → IsKeyed s.users
      → byte_len secret ≡ 43
      → find_email email s.users ≡ some (id, a)
      → is_locked a.locked_until now ≡ false
      → verify_password encode decode argon a.password_hash password ≡ true
      → is_active a.user.status ≡ true
      → let row : SessionRow = record {
        user_id = id;
        csrf_token = csrf;
        expires_at = now + 12 * 60 * minute;
      } in
        let mine : Entry = record { user_id = id; user = a.user; secret = secret; csrf = csrf } in
        let w = entered mine (open_session (sha secret) row o (clear_failed_logins id s)) in
        w.1 ≡ ok e → IsEntitled encode decode argon sha now email password e s w.0
  unfolding open_session session
  opened-IsEntitled now secret csrf email password id a (some old) e s u size f open_ v active h =
      absurd (cc h)
  opened-IsEntitled now secret csrf email password id a none e s u size f open_ v active h =
      let mine : Entry = record { user_id = id; user = a.user; secret = secret; csrf = csrf } in
      let row : SessionRow = record {
        user_id = id;
        csrf_token = csrf;
        expires_at = now + 12 * 60 * minute;
      } in
      let s' = clear_failed_logins id s in
      let full : (byte_len secret == 43) ≡ true = ground (arith, size) in
      subst
        (λ x.
          IsEntitled encode decode argon sha now email password x s
            (record s' { sessions = insert (sha secret) row s'.sessions }))
        (ap (value_or mine) h)
        (record {
          account = a;
          found = f;
          same_user = refl;
          unlocked = open_;
          verified = v;
          active = active;
          lasts = λ t. rw full (
              opened_session t (now + 12 * 60 * minute) (sha secret) id csrf (cleared a) s'
                (cleared_row id a s (find_email-lookup email id a s.users u f)) active);
        })

  found-IsEntitled :
      (now : ℕ) (secret csrf email password : String) (o : Option (String × Account)) (e : Entry)
      (s : Store)
      → IsKeyed s.users
      → byte_len secret ≡ 43
      → find_email email s.users ≡ o
      → let w =
          login_as lower parse encode decode argon sha now secret csrf password (found_or o) s in
        w.1 ≡ ok e → IsEntitled encode decode argon sha now email password e s w.0
  unfolding login_as create_session
  found-IsEntitled now secret csrf email password none e s u size f h = absurd (cc h)
  found-IsEntitled now secret csrf email password (some (id, a)) e s u size f h =
      elim (Bool-cases (is_locked a.locked_until now)) [
        | inl p ↦ let x = rw p at h in absurd (cc x)
        | inr p ↦ elim (Bool-cases (verify_password encode decode argon a.password_hash password)) [
          | inr q ↦ let x = rw (p, q) at h in absurd (cc x)
          | inl q ↦ elim (Bool-cases (str_eq a.user.status "pending")) [
            | inl y ↦ let x = rw (p, q, y) at h in absurd (cc x)
            | inr y ↦ elim (Bool-cases (is_active a.user.status)) [
              | inr z ↦ let x = rw (p, q, y, z) at h in absurd (cc x)
              | inl z ↦
                  rw (p, q, y, z)
                    (opened-IsEntitled now secret csrf email password id a
                      (lookup (sha secret) (clear_failed_logins id s).sessions) e s u size f p q z
                      (rw (p, q, y, z) at h))
            ]
          ]
        ]
      ]

  -- If ids are keys, the secret has 43 bytes and Login of an address answers with a session, then the
  -- account of the normalised address was active and not locked, the password verified against its
  -- hash, and for twelve hours from then, and no longer, the secret gives a session of that user.
  pub login-IsEntitled :
      (now : ℕ) (secret csrf raw email password : String) (e : Entry) (s : Store)
      → IsKeyed s.users
      → byte_len secret ≡ 43
      → normalize_email lower parse raw ≡ some email
      → (login lower parse encode decode argon sha now secret csrf raw password s).1 ≡ ok e
      → IsEntitled encode decode argon sha now email password e s
          (login lower parse encode decode argon sha now secret csrf raw password s).0
  unfolding login login_at find_by_email
  login-IsEntitled now secret csrf raw email password e s u size n h = rw n (
      found-IsEntitled now secret csrf email password (find_email email s.users) e s u size refl
        (rw n at h))
