-- ===== src/Auth/Service.antt =====
-- auth/core.go: NormalizeEmail, Register, Login, Session and Logout over the store of accounts.
-- strings.ToLower, mail.ParseAddress (the address that it reads), SHA-256, base64 and Argon2 are
-- arguments; a salt and the random tokens are drawn by the caller.
use fgvcplateform_public.Base.{
  ℕ, ◌+◌, ◌*◌, String, Bool, false, not, ◌&&◌, ◌||◌, Option, none, some, List, str_eq,
  if◌then◌else◌, ltb, byte_len, trim_space, is_empty, runes, length, ◌==◌,
}
use fgvcplateform_public.Auth.{
  User, Account, Session, Store, invalid, credentials, waiting, disabled, locked, not_found, Result,
  ok, err, is_active,
}
use fgvcplateform_public.Auth.Passwords.{hash_password, verify_password}
use fgvcplateform_public.Auth.Accounts.{
  minute, create_user, find_by_email, record_failed_login, clear_failed_logins, create_session,
  find_session, delete_session,
}

abbrev pub is_address : String → Option String → Bool
is_address email none = false
is_address email (some address) =
    str_eq address email && not (ltb 254 (byte_len email)) && not (ltb (byte_len email) 3)

-- After(now), for a time that may be missing
abbrev pub is_locked : Option ℕ → ℕ → Bool
is_locked none now = false
is_locked (some until) now = ltb now until

-- What Login answers: the user, the secret of the session and its CSRF token.
pub record Entry : Type 0 where
  pub user_id : String
  pub user : User
  pub secret : String
  pub csrf : String

abbrev pub entered : Entry → Store × Result (Unit {0}) → Store × Result Entry
entered e (s, ok _) = (s, ok e)
entered e (s, err x) = (s, err x)

abbrev pub registered : String × User → Store × Result (Unit {0}) → Store × Result (String × User)
registered row (s, ok _) = (s, ok row)
registered row (s, err x) = (s, err x)

module _ (lower : String → String) (parse : String → Option String) where
  unfoldable pub normalize_email : String → Option String
  normalize_email value =
      let email = lower (trim_space value) in
      if is_address email (parse email) then some email else none

module _ (lower : String → String) (parse : String → Option String) (encode : List ℕ → String)
    (decode : String → Option (List ℕ)) (argon : String → List ℕ → List ℕ)
    (sha : String → String) where
  abbrev pub register_hashed :
      ℕ → String → String → String → Option String → Store → Store × Result (String × User)
  register_hashed now id email name none s = (s, err invalid)
  register_hashed now id email name (some hash) s =
      let user : User = record {
        email = email;
        display_name = name;
        role = "business";
        status = "pending";
        created_at = now;
        updated_at = now;
      } in
      registered (id, user) (create_user id user hash s)

  abbrev pub register_as :
      ℕ → String → List ℕ → Option String → String → String → Store → Store × Result (String × User)
  register_as now id salt none name password s = (s, err invalid)
  register_as now id salt (some email) name password s =
      if is_empty name || ltb 80 (length (runes name))
      then (s, err invalid)
      else register_hashed now id email name (hash_password encode decode argon salt password) s

  unfoldable pub register :
      ℕ → String → List ℕ → String → String → String → Store → Store × Result (String × User)
  register now id salt email name password s =
      register_as now id salt (normalize_email lower parse email) (trim_space name) password s

  -- the account of the address
  unfoldable pub login_as :
      ℕ → String → String → String → Result (String × Account) → Store → Store × Result Entry
  login_as now secret csrf password (err not_found) s = (s, err credentials)
  login_as now secret csrf password (err e) s = (s, err e)
  login_as now secret csrf password (ok (id, a)) s =
      let s' = clear_failed_logins id s in
      if is_locked a.locked_until now
      then (s, err locked)
      else if not (verify_password encode decode argon a.password_hash password)
      then (record_failed_login now id s, err credentials)
      else if str_eq a.user.status "pending"
      then (s', err waiting)
      else if not (is_active a.user.status)
      then (s', err disabled)
      else entered (record { user_id = id; user = a.user; secret = secret; csrf = csrf })
          (create_session (sha secret) id csrf (now + 12 * 60 * minute) s')

  unfoldable pub login_at :
      ℕ → String → String → Option String → String → Store → Store × Result Entry
  login_at now secret csrf none password s = (s, err credentials)
  login_at now secret csrf (some email) password s =
      login_as now secret csrf password (find_by_email email s) s

  -- one call at one time, whose statements no other call comes between
  unfoldable pub login : ℕ → String → String → String → String → Store → Store × Result Entry
  login now secret csrf email password s =
      login_at now secret csrf (normalize_email lower parse email) password s

module _ (sha : String → String) where
  unfoldable pub session : ℕ → String → Store → Result Session
  session now secret s =
      if not (byte_len secret == 43) then err credentials else find_session now (sha secret) s

  unfoldable pub logout : String → Store → Store
  logout secret s = if is_empty secret then s else delete_session (sha secret) s
