-- ===== src/Auth.antt =====
-- auth/core.go: accounts, sessions and the errors of the service. The tables app_users, app_sessions
-- and app_user_events are those of auth/postgres.go, each by its primary key; the e-mail address is
-- unique too. A hash of a token is a text.
use fgvcplateform_public.Base.{ℕ, String, Bool, Option, List, str_eq, ◌||◌}
use fgvcplateform_public.Base.Assoc.{Assoc}
pub mod Passwords
pub mod Accounts
pub mod Service
pub mod Calls
pub mod Access
pub mod Delegation
mod Emails
mod Admins
mod Entries
mod Lockout
mod Revoked
mod Guarded
mod Roles
mod Granted
mod Examples
mod AccessExamples

pub record User : Type 0 where
  pub email : String
  pub display_name : String
  pub role : String
  pub status : String
  pub created_at : ℕ
  pub updated_at : ℕ

pub record Account : Type 0 where
  pub user : User
  pub password_hash : String
  pub failed_logins : ℕ
  pub locked_until : Option ℕ

pub record SessionRow : Type 0 where
  pub user_id : String
  pub csrf_token : String
  pub expires_at : ℕ

pub record Session : Type 0 where
  pub user_id : String
  pub user : User
  pub csrf_token : String

pub record Event : Type 0 where
  pub user_id : String
  pub actor_id : Option String
  pub event_type : String
  pub from_role : Option String
  pub to_role : String
  pub from_status : Option String
  pub to_status : String
  pub reason : String

pub record Store : Type 0 where
  pub users : Assoc Account
  pub sessions : Assoc SessionRow
  pub events : List Event

-- `unavailable` is any other error of the database.
pub data Error : Type 0 where
  invalid duplicate credentials waiting disabled locked not_found last_admin unavailable : Error

pub data Result {ℓ} (A : Type ℓ) : Type ℓ where
  ok : A → Result A
  err : Error → Result A

abbrev pub value_or {ℓ} : {A : Type ℓ} → A → Result A → A
value_or d (ok a) = a
value_or d (err e) = d

abbrev pub is_admin : String → Bool
is_admin role = str_eq role "admin"

abbrev pub is_active : String → Bool
is_active status = str_eq status "active"

unfoldable pub valid_role : String → Bool
valid_role role = str_eq role "admin" || str_eq role "annotator" || str_eq role "business"

unfoldable pub valid_status : String → Bool
valid_status status = str_eq status "pending" || str_eq status "active" || str_eq status "disabled"
