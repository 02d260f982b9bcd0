-- ===== src/Auth/Examples.antt =====
-- Accounts and passwords on which the theorems apply.
use fgvcplateform_public.Base.{
  ℕ, ◌≡◌, ◌≤◌, refl, String, true, false, Option, none, some, List, [], ◌∷◌, arith, byte_len,
  length, ◌==◌, if◌then◌else◌, str_eq, trim_space,
}
use fgvcplateform_public.Base.Assoc.{lookup, insert}
use fgvcplateform_public.Base.Tables.{IsKeyed}
use fgvcplateform_public.Base.Paths.{split_on, join_on, has_rune}
use fgvcplateform_public.Auth.{Account, SessionRow, Store, ok, valid_role, valid_status}
use fgvcplateform_public.Auth.Passwords.{
  validate_password, hash_password, verify_parts, verify_password, IsEncodable,
  verify_password-hash_password,
}
use fgvcplateform_public.Auth.Accounts.{
  find_email, find_by_email, clear_failed_logins, create_session, open_session, update_user,
}
use fgvcplateform_public.Auth.Service.{Entry, normalize_email, login, login_at, login_as}
use fgvcplateform_public.Auth.Calls.{Call, registers, updates, run}
use fgvcplateform_public.Auth.Admins.{HasAdmin, run-HasAdmin}
use fgvcplateform_public.Auth.Entries.{IsEntitled, login-IsEntitled}
use fgvcplateform_public.Auth.Lockout.{Try, checks, checks-bound}
use fgvcplateform_public.Auth.Revoked.{IsLoggedOut, update_user-IsLoggedOut}

abbrev salt : List ℕ
salt = 1 ∷ 2 ∷ 3 ∷ 4 ∷ 5 ∷ 6 ∷ 7 ∷ 8 ∷ 9 ∷ 10 ∷ 11 ∷ 12 ∷ 13 ∷ 14 ∷ 15 ∷ 16 ∷ []

abbrev pub key_of : ℕ → List ℕ
key_of n =
    n ∷ n ∷ n ∷ n ∷ n ∷ n ∷ n ∷ n ∷ n ∷ n ∷ n ∷ n ∷ n ∷ n ∷ n ∷ n ∷ n ∷ n ∷ n ∷ n ∷ n ∷ n ∷ n ∷ n
    ∷ n ∷ n ∷ n ∷ n ∷ n ∷ n ∷ n ∷ n ∷ []

-- a key is the length of the password, 32 times
abbrev argon : String → List ℕ → List ℕ
argon password drawn = key_of (byte_len password)

abbrev encode : List ℕ → String
encode [] = "none"
encode (n ∷ ns) = if n == 1 then "salt" else if n == 21 then "right" else "wrong"

abbrev decode : String → Option (List ℕ)
decode s =
    if str_eq s "salt" then some salt else if str_eq s "right" then some (key_of 21) else none

abbrev hashed : String
hashed = "$argon2id$v=19$m=19456,t=2,p=1$salt$right"

salt-IsEncodable : IsEncodable encode decode argon salt
unfolding has_rune
salt-IsEncodable = record { decodes = refl; no_dollar = refl }

key-IsEncodable : IsEncodable encode decode argon (argon "correct horse battery" salt)
unfolding has_rune byte_len
key-IsEncodable = record { decodes = refl; no_dollar = refl }

hash_made : hash_password encode decode argon salt "correct horse battery" ≡ some hashed
unfolding hash_password validate_password join_on byte_len
hash_made = refl

key_size : length (argon "correct horse battery" salt) ≡ 32
key_size = refl

verify_password-hash_password_example :
    verify_password encode decode argon hashed "correct horse battery" ≡ true
verify_password-hash_password_example =
    verify_password-hash_password encode decode argon salt "correct horse battery" hashed refl
      key_size salt-IsEncodable key-IsEncodable hash_made

abbrev as_is : String → String
as_is s = s

abbrev root : Account
root = record {
  user = record {
    email = "root@lab";
    display_name = "root";
    role = "admin";
    status = "active";
    created_at = 0;
    updated_at = 0;
  };
  password_hash = hashed;
  failed_logins = 0;
  locked_until = none;
}

abbrev pub ann : Account
ann = record root { user = record (root.user) { email = "ann@lab"; role = "annotator" } }

abbrev annes : SessionRow
annes = record { user_id = "u"; csrf_token = "x"; expires_at = 1000 }

abbrev pub store : Store
store = record { users = ("r", root) ∷ ("u", ann) ∷ []; sessions = ("h", annes) ∷ []; events = [] }

store_keyed : IsKeyed store.users
unfolding lookup
store_keyed = (refl, (refl, tt))

abbrev calls : List Call
calls =
    registers 1 "v" salt "bob@lab" "bob" "correct horse battery"
    ∷ updates 2 "u" "r" "business" "active" "turn"
    ∷ updates 3 "r" "u" "admin" "active" "turn"
    ∷ updates 4 "u" "r" "business" "disabled" "turn"
    ∷ []

store_admin : HasAdmin store
store_admin = omega arith

run-HasAdmin_example : HasAdmin (run as_is some encode decode argon as_is calls store)
run-HasAdmin_example = run-HasAdmin as_is some encode decode argon as_is calls store store_admin

-- 43 letters, as 32 random bytes give in base64
abbrev secret : String
secret = "abcdefghijklmnopqrstuvwxyzabcdefghijklmnopq"

secret_long : byte_len secret ≡ 43
unfolding byte_len
secret_long = refl

address_normal : normalize_email as_is some " ann@lab" ≡ some "ann@lab"
unfolding normalize_email trim_space byte_len
address_normal = refl

abbrev entry : Entry
entry = record { user_id = "u"; user = ann.user; secret = secret; csrf = "csrf" }

login_accepted :
    (login as_is some encode decode argon as_is 50 secret "csrf" " ann@lab" "correct horse battery"
      store).1
    ≡ ok entry
unfolding login login_at login_as normalize_email trim_space byte_len find_by_email find_email
    verify_password verify_parts split_on create_session open_session clear_failed_logins lookup
    insert
login_accepted = refl

login-IsEntitled_example :
    IsEntitled encode decode argon as_is 50 "ann@lab" "correct horse battery" entry store
      (login as_is some encode decode argon as_is 50 secret "csrf" " ann@lab"
        "correct horse battery" store).0
login-IsEntitled_example =
    login-IsEntitled as_is some encode decode argon as_is 50 secret "csrf" " ann@lab" "ann@lab"
      "correct horse battery" entry store store_keyed secret_long address_normal login_accepted

abbrev guess : ℕ → Try
guess now = record {
  now = now;
  address = " ann@lab";
  password = "guess";
  secret = secret;
  csrf = "c";
}

guess_wrong : verify_password encode decode argon hashed "guess" ≡ false
unfolding verify_password verify_parts split_on byte_len
guess_wrong = refl

ann_found : find_email "ann@lab" store.users ≡ some ("u", ann)
unfolding find_email
ann_found = refl

checks-bound_example :
    checks as_is some encode decode argon as_is (guess 20 ∷ guess 30 ∷ []) store ≤ 5
checks-bound_example =
    checks-bound as_is some encode decode argon as_is 10 "ann@lab" "u" ann
      (guess 20 ∷ guess 30 ∷ []) store store_keyed ann_found
      (
        record {
          from = omega arith;
          to = omega arith;
          addressed = address_normal;
          wrong = guess_wrong;
        },
        (
          record {
            from = omega arith;
            to = omega arith;
            addressed = address_normal;
            wrong = guess_wrong;
          },
          tt,
        ),
      )

update_accepted :
    (update_user 9 "r" "u" "annotator" "disabled" "left" store).1
    ≡ ok ("u", record (ann.user) { status = "disabled"; updated_at = 9 })
unfolding update_user lookup valid_role valid_status
update_accepted = refl

update_user-IsLoggedOut_example :
    IsLoggedOut "u" (update_user 9 "r" "u" "annotator" "disabled" "left" store).0
update_user-IsLoggedOut_example =
    update_user-IsLoggedOut 9 "r" "u" "annotator" "disabled" "left"
      ("u", record (ann.user) { status = "disabled"; updated_at = 9 }) store update_accepted
