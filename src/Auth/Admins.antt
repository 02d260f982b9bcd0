-- ===== src/Auth/Admins.antt =====
-- An active administrator remains, whatever the calls.
use fgvcplateform_public.Base.{
  ℕ, ◌+◌, ◌*◌, ◌≤◌, ◌≡◌, refl, sym, ap, subst, String, not, ◌&&◌, ◌||◌, Option, none, some, List,
  [], ◌∷◌, str_eq, arith, if◌then◌else◌, if_cases, Bool-cases, inl, inr, ltb, leb, is_empty,
  trim_space, runes, length,
}
use fgvcplateform_public.Base.Assoc.{Assoc, lookup, insert}
use fgvcplateform_public.Auth.{
  User, Account, SessionRow, Store, is_admin, is_active, valid_role, valid_status,
}
use fgvcplateform_public.Auth.Passwords.{hash_password, verify_password}
use fgvcplateform_public.Auth.Accounts.{
  minute, is_active_admin, count_admins, new_account, create_found, create_user, find_email,
  find_by_email, found_or, failed_once, cleared, edit_account, record_failed_login,
  clear_failed_logins, open_session, create_session, delete_session, with_access, update_found,
  update_user, admin_user, promoted, bootstrap_found, bootstrap_admin,
}
use fgvcplateform_public.Auth.Service.{
  Entry, normalize_email, register, register_as, register_hashed, registered, login, login_at,
  login_as, entered, logout, is_locked,
}
use fgvcplateform_public.Auth.Calls.{
  Call, registers, logs_in, logs_out, updates, bootstraps, step, run,
}

abbrev weight : Account → ℕ
weight a = if is_active_admin a.user then 1 else 0

abbrev weight_of : Option Account → ℕ
weight_of none = 0
weight_of (some a) = weight a

count_admins-insert :
    (id : String) (a : Account) (m : Assoc Account)
    → count_admins (insert id a m) + weight_of (lookup id m) ≡ count_admins m + weight a
unfolding insert lookup
count_admins-insert id a [] = omega arith
count_admins-insert id a ((k, x) ∷ m) = elim (Bool-cases (str_eq k id)) [
  | inl p ↦ rw p (omega arith)
  | inr p ↦ let rest = count_admins-insert id a m in rw p (omega (arith, rest))
]

abbrev pub HasAdmin : Store → Type 0
HasAdmin s = 1 ≤ count_admins s.users

abbrev Keeps {ℓ} : {A : Type ℓ} → Store × A → Type 0
Keeps w = HasAdmin w.0

-- an account takes the place of one that weighs no more
heavier :
    (id : String) (a : Account) (o : Option Account) (m : Assoc Account)
    → lookup id m ≡ o
    → weight_of o ≤ weight a
    → 1 ≤ count_admins m
    → 1 ≤ count_admins (insert id a m)
heavier id a o m e w h =
    let c = count_admins-insert id a m in
    let w' : weight_of (lookup id m) ≤ weight a = subst (λ x. weight_of x ≤ weight a) (sym e) w in
    omega (arith, c, w', h)

held : (id : String) (m : Assoc Account) → weight_of (lookup id m) ≤ count_admins m
unfolding lookup
held id [] = omega arith
held id ((k, x) ∷ m) = elim (Bool-cases (str_eq k id)) [
  | inl p ↦ rw p (omega arith)
  | inr p ↦ let rest = held id m in rw p (omega (arith, rest))
]

-- an administrator comes in
admitted :
    (id : String) (a : Account) (m : Assoc Account)
    → weight a ≡ 1
    → 1 ≤ count_admins (insert id a m)
admitted id a m w =
    let c = count_admins-insert id a m in let light = held id m in omega (arith, c, w, light)

-- a call that edits an account without a change of its role and status
edited-HasAdmin :
    (id : String) (edit : Account → Account) (s : Store)
    → ((a : Account) → (edit a).user ≡ a.user)
    → HasAdmin s
    → HasAdmin (edit_account id edit (lookup id s.users) s)
edited-HasAdmin id edit s same h = found (lookup id s.users) refl
  where
    found : (o : Option Account) → lookup id s.users ≡ o → HasAdmin (edit_account id edit o s)
    found none e = h
    found (some a) e =
        let light : weight a ≤ weight (edit a) =
          subst (λ (u : User). weight a ≤ (if is_active_admin u then 1 else 0)) (sym (same a))
            (omega arith) in
        heavier id (edit a) (some a) s.users e light h

update_user-HasAdmin :
    (now : ℕ) (actor id role status reason : String) (s : Store)
    → HasAdmin s
    → HasAdmin (update_user now actor id role status reason s).0
unfolding update_user
update_user-HasAdmin now actor id role status reason s h =
    if_cases Keeps (not (valid_role role) || not (valid_status status)) (λ _. h)
      (λ _. if_cases Keeps (str_eq actor id) (λ _. h) (λ _. found (lookup id s.users) refl))
  where
    found :
        (o : Option Account)
        → lookup id s.users ≡ o
        → HasAdmin (update_found now actor id role status reason o s).0
    found none e = h
    found (some a) e =
        if_cases Keeps
          (is_active_admin a.user
            && (not (is_admin role) || not (is_active status))
            && leb (count_admins s.users) 1)
          (λ _. h)
          (λ p.
            let a' : Account = with_access now role status a in
            let c = count_admins-insert id a' s.users in
            let w : weight_of (lookup id s.users) ≡ weight a = ap weight_of e in
            ground (arith, p, c, w, h))

bootstrap_admin-HasAdmin :
    (now : ℕ) (new_id email name hash : String) (s : Store)
    → HasAdmin s
    → HasAdmin (bootstrap_admin now new_id email name hash s).0
unfolding bootstrap_admin bootstrap_found
bootstrap_admin-HasAdmin now new_id email name hash s h =
    found (find_email email s.users) (lookup new_id s.users)
  where
    found :
        (o : Option (String × Account)) (taken : Option Account)
        → HasAdmin (bootstrap_found now new_id email name hash o taken s).0
    found (some (id, a)) taken = admitted id (promoted now name hash a) s.users refl
    found none none = admitted new_id (new_account (admin_user email name now) hash) s.users refl
    found none (some old) = h

module _ (lower : String → String) (parse : String → Option String) (encode : List ℕ → String)
    (decode : String → Option (List ℕ)) (argon : String → List ℕ → List ℕ)
    (sha : String → String) where
  register-HasAdmin :
      (now : ℕ) (id : String) (salt : List ℕ) (email name password : String) (s : Store)
      → HasAdmin s
      → HasAdmin (register lower parse encode decode argon sha now id salt email name password s).0
  unfolding register create_user create_found
  register-HasAdmin now id salt email raw password s h =
      addressed (normalize_email lower parse email)
    where
      name : String
      name = trim_space raw

      created :
          (user : User) (hash : String) (o : Option Account) (f : Option (String × Account))
          → lookup id s.users ≡ o
          → Keeps (registered (id, user) (create_found id user hash o f s))
      created user hash none none e =
          heavier id (new_account user hash) none s.users e (omega arith) h
      created user hash none (some row) e = h
      created user hash (some a) f e = h

      hashed :
          (email : String) (o : Option String)
          → Keeps (register_hashed lower parse encode decode argon sha now id email name o s)
      hashed email none = h
      hashed email (some hash) =
          let user : User = record {
            email = email;
            display_name = name;
            role = "business";
            status = "pending";
            created_at = now;
            updated_at = now;
          } in
          created user hash (lookup id s.users) (find_email email s.users) refl

      addressed :
          (o : Option String)
          → Keeps (register_as lower parse encode decode argon sha now id salt o name password s)
      addressed none = h
      addressed (some email) =
          if_cases Keeps (is_empty name || ltb 80 (length (runes name))) (λ _. h)
            (λ _. hashed email (hash_password encode decode argon salt password))

  login-HasAdmin :
      (now : ℕ) (secret csrf email password : String) (s : Store)
      → HasAdmin s
      → HasAdmin (login lower parse encode decode argon sha now secret csrf email password s).0
  unfolding login login_at login_as find_by_email record_failed_login clear_failed_logins
      create_session open_session
  login-HasAdmin now secret csrf email password s h = addressed (normalize_email lower parse email)
    where
      opened :
          (e : Entry) (row : SessionRow) (o : Option SessionRow) (s' : Store)
          → HasAdmin s'
          → Keeps (entered e (open_session (sha secret) row o s'))
      opened e row none s' h' = h'
      opened e row (some old) s' h' = h'

      found :
          (o : Option (String × Account))
          → Keeps
              (login_as lower parse encode decode argon sha now secret csrf password (found_or o) s)
      found none = h
      found (some (id, a)) =
          let s' = clear_failed_logins id s in
          let h' : HasAdmin s' = edited-HasAdmin id cleared s (λ _. refl) h in
          if_cases Keeps (is_locked a.locked_until now) (λ _. h)
            (λ _.
              if_cases Keeps (not (verify_password encode decode argon a.password_hash password))
                (λ _. edited-HasAdmin id (failed_once now) s (λ _. refl) h)
                (λ _.
                  if_cases Keeps (str_eq a.user.status "pending") (λ _. h')
                    (λ _.
                      if_cases Keeps (not (is_active a.user.status)) (λ _. h')
                        (λ _.
                          opened
                            (record { user_id = id; user = a.user; secret = secret; csrf = csrf })
                            (record {
                              user_id = id;
                              csrf_token = csrf;
                              expires_at = now + 12 * 60 * minute;
                            })
                            (lookup (sha secret) s'.sessions) s' h'))))

      addressed :
          (o : Option String)
          → Keeps (login_at lower parse encode decode argon sha now secret csrf o password s)
      addressed none = h
      addressed (some email) = found (find_email email s.users)

  step-HasAdmin :
      (c : Call) (s : Store) → HasAdmin s → HasAdmin (step lower parse encode decode argon sha c s)
  unfolding step logout delete_session
  step-HasAdmin (registers now id salt email name password) s h =
      register-HasAdmin now id salt email name password s h
  step-HasAdmin (logs_in now secret csrf email password) s h =
      login-HasAdmin now secret csrf email password s h
  step-HasAdmin (logs_out secret) s h = if_cases HasAdmin (is_empty secret) (λ _. h) (λ _. h)
  step-HasAdmin (updates now actor id role status reason) s h =
      update_user-HasAdmin now actor id role status reason s h
  step-HasAdmin (bootstraps now new_id email name hash) s h =
      bootstrap_admin-HasAdmin now new_id email name hash s h

  -- If some account is an active administrator, then after any calls, in any order, some account is.
  pub run-HasAdmin :
      (cs : List Call) (s : Store)
      → HasAdmin s
      → HasAdmin (run lower parse encode decode argon sha cs s)
  unfolding run
  run-HasAdmin [] s h = h
  run-HasAdmin (c ∷ cs) s h =
      run-HasAdmin cs (step lower parse encode decode argon sha c s) (step-HasAdmin c s h)
