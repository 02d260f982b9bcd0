-- ===== src/Auth/Accounts.antt =====
-- auth/postgres.go: each method is one statement or one transaction on the tables. A count of
-- failures stays below 2 ^ 31, and no user is ever deleted.
use fgvcplateform_public.Base.{
  ℕ, ◌+◌, ◌*◌, String, Bool, false, not, ◌&&◌, ◌||◌, Option, none, some, [], ◌∷◌, ◌++◌, str_eq,
  if◌then◌else◌, ltb, leb,
}
use fgvcplateform_public.Base.Assoc.{Assoc, lookup, insert}
use fgvcplateform_public.Base.Tables.{delete_where}
use fgvcplateform_public.Auth.{
  User, Account, SessionRow, Session, Event, Store, invalid, duplicate, credentials, not_found,
  last_admin, unavailable, Result, ok, err, is_admin, is_active, valid_role, valid_status,
}

abbrev pub minute : ℕ
minute = 60_000_000_000

unfoldable pub find_email : String → Assoc Account → Option (String × Account)
find_email email [] = none
find_email email ((id, a) ∷ rest) =
    let later = find_email email rest in if str_eq a.user.email email then some (id, a) else later

abbrev pub new_account : User → String → Account
new_account user hash = record {
  user = user;
  password_hash = hash;
  failed_logins = 0;
  locked_until = none;
}

-- INSERT, where the id and the address are unique
unfoldable pub create_found :
    String
    → User
    → String
    → Option Account
    → Option (String × Account)
    → Store
    → Store × Result (Unit {0})
create_found id user hash none none s =
    (record s { users = insert id (new_account user hash) s.users }, ok tt)
create_found id user hash _ _ s = (s, err duplicate)

unfoldable pub create_user : String → User → String → Store → Store × Result (Unit {0})
create_user id user hash s =
    create_found id user hash (lookup id s.users) (find_email user.email s.users) s

abbrev pub found_or : Option (String × Account) → Result (String × Account)
found_or none = err not_found
found_or (some row) = ok row

unfoldable pub find_by_email : String → Store → Result (String × Account)
find_by_email email s = found_or (find_email email s.users)

-- locked_until < now, which is false of NULL
abbrev pub lock_is_over : Option ℕ → ℕ → Bool
lock_is_over none now = false
lock_is_over (some until) now = ltb until now

abbrev pub failures : ℕ → Account → ℕ
failures now a = if lock_is_over a.locked_until now then 1 else a.failed_logins + 1

abbrev pub failed_once : ℕ → Account → Account
failed_once now a = record a {
  failed_logins = failures now a;
  locked_until = if leb 5 (failures now a) then some (now + 15 * minute) else none;
}

abbrev pub edit_account : String → (Account → Account) → Option Account → Store → Store
edit_account id edit none s = s
edit_account id edit (some a) s = record s { users = insert id (edit a) s.users }

unfoldable pub record_failed_login : ℕ → String → Store → Store
record_failed_login now id s = edit_account id (failed_once now) (lookup id s.users) s

abbrev pub cleared : Account → Account
cleared a = record a { failed_logins = 0; locked_until = none }

-- a row that is clear already is left as it is
unfoldable pub clear_failed_logins : String → Store → Store
clear_failed_logins id s = edit_account id cleared (lookup id s.users) s

-- INSERT, where the hash is the primary key
unfoldable pub open_session :
    String → SessionRow → Option SessionRow → Store → Store × Result (Unit {0})
open_session hash row none s = (record s { sessions = insert hash row s.sessions }, ok tt)
open_session hash row (some old) s = (s, err unavailable)

unfoldable pub create_session : String → String → String → ℕ → Store → Store × Result (Unit {0})
create_session hash user_id csrf expires s =
    open_session hash (record { user_id = user_id; csrf_token = csrf; expires_at = expires })
      (lookup hash s.sessions) s

abbrev pub joined : ℕ → SessionRow → Option Account → Result Session
joined now row none = err credentials
joined now row (some a) =
    if ltb now row.expires_at && is_active a.user.status
    then ok (record { user_id = row.user_id; user = a.user; csrf_token = row.csrf_token })
    else err credentials

abbrev pub session_of : ℕ → Option SessionRow → Store → Result Session
session_of now none s = err credentials
session_of now (some row) s = joined now row (lookup row.user_id s.users)

unfoldable pub find_session : ℕ → String → Store → Result Session
find_session now hash s = session_of now (lookup hash s.sessions) s

unfoldable pub delete_key : String → Assoc SessionRow → Assoc SessionRow
delete_key hash [] = []
delete_key hash ((k, row) ∷ rest) =
    let rest' = delete_key hash rest in if str_eq k hash then rest' else (k, row) ∷ rest'

unfoldable pub delete_session : String → Store → Store
delete_session hash s = record s { sessions = delete_key hash s.sessions }

abbrev pub is_active_admin : User → Bool
is_active_admin u = is_admin u.role && is_active u.status

-- count(*) WHERE role='admin' AND status='active'
abbrev pub count_admins : Assoc Account → ℕ
count_admins [] = 0
count_admins ((id, a) ∷ rest) = (if is_active_admin a.user then 1 else 0) + count_admins rest

abbrev pub with_access : ℕ → String → String → Account → Account
with_access now role status a = record a {
  user = record (a.user) { role = role; status = status; updated_at = now };
}

abbrev pub of_user : String → SessionRow → Bool
of_user id row = str_eq row.user_id id

abbrev pub access_event : String → String → User → String → String → String → Event
access_event actor id before role status reason = record {
  user_id = id;
  actor_id = some actor;
  event_type = "access_updated";
  from_role = some before.role;
  to_role = role;
  from_status = some before.status;
  to_status = status;
  reason = reason;
}

abbrev pub update_found :
    ℕ
    → String
    → String
    → String
    → String
    → String
    → Option Account
    → Store
    → Store × Result (String × User)
update_found now actor id role status reason none s = (s, err not_found)
update_found now actor id role status reason (some a) s =
    if is_active_admin a.user
      && (not (is_admin role) || not (is_active status))
      && leb (count_admins s.users) 1
    then (s, err last_admin)
    else (
      record {
        users = insert id (with_access now role status a) s.users;
        sessions = delete_where (of_user id) s.sessions;
        events = s.events ++ access_event actor id a.user role status reason ∷ [];
      },
      ok (id, (with_access now role status a).user),
    )

unfoldable pub update_user :
    ℕ → String → String → String → String → String → Store → Store × Result (String × User)
update_user now actor id role status reason s =
    if not (valid_role role) || not (valid_status status)
    then (s, err invalid)
    else if str_eq actor id
    then (s, err invalid)
    else update_found now actor id role status reason (lookup id s.users) s

abbrev pub admin_user : String → String → ℕ → User
admin_user email name now = record {
  email = email;
  display_name = name;
  role = "admin";
  status = "active";
  created_at = now;
  updated_at = now;
}

-- DO UPDATE SET of the row whose address conflicts
abbrev pub promoted : ℕ → String → String → Account → Account
promoted now name hash a = record a {
  user = record (a.user) {
    display_name = name;
    role = "admin";
    status = "active";
    updated_at = now;
  };
  password_hash = hash;
  failed_logins = 0;
  locked_until = none;
}

abbrev pub bootstrap_event : String → Event
bootstrap_event id = record {
  user_id = id;
  actor_id = none;
  event_type = "bootstrap";
  from_role = none;
  to_role = "admin";
  from_status = none;
  to_status = "active";
  reason = "admin CLI";
}

abbrev pub bootstrap_as : String → Account → Store → Store × Result (Unit {0})
bootstrap_as id a s = (
  record {
    users = insert id a s.users;
    sessions = delete_where (of_user id) s.sessions;
    events = s.events ++ bootstrap_event id ∷ [];
  },
  ok tt,
)

unfoldable pub bootstrap_found :
    ℕ
    → String
    → String
    → String
    → String
    → Option (String × Account)
    → Option Account
    → Store
    → Store × Result (Unit {0})
bootstrap_found now new_id email name hash (some (id, a)) taken s =
    bootstrap_as id (promoted now name hash a) s
bootstrap_found now new_id email name hash none none s =
    bootstrap_as new_id (new_account (admin_user email name now) hash) s
bootstrap_found now new_id email name hash none (some old) s = (s, err unavailable)

unfoldable pub bootstrap_admin :
    ℕ → String → String → String → String → Store → Store × Result (Unit {0})
bootstrap_admin now new_id email name hash s =
    bootstrap_found now new_id email name hash (find_email email s.users) (lookup new_id s.users) s
