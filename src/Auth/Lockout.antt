-- ===== src/Auth/Lockout.antt =====
-- How many wrong passwords an account takes in a quarter of an hour.
use fgvcplateform_public.Base.{
  ℕ, ◌+◌, ◌-◌, ◌*◌, ◌≤◌, ◌<◌, ◌≡◌, refl, String, false, Option, none, some, List, [], ◌∷◌, arith,
  if◌then◌else◌, Bool-cases, inl, inr, ltb, leb,
}
use fgvcplateform_public.Base.Assoc.{insert}
use fgvcplateform_public.Base.Tables.{IsKeyed, insert-IsKeyed}
use fgvcplateform_public.Auth.{Account, Store, credentials, locked, Result, err}
use fgvcplateform_public.Auth.Passwords.{verify_password}
use fgvcplateform_public.Auth.Accounts.{
  minute, find_email, find_by_email, lock_is_over, failed_once, record_failed_login,
}
use fgvcplateform_public.Auth.Service.{Entry, normalize_email, is_locked, login, login_at, login_as}
use fgvcplateform_public.Auth.Emails.{find_email-lookup, find_email-insert}

-- how many checks of a password an account still allows from `start` on, for fifteen minutes
abbrev budget_of : ℕ → ℕ → Option ℕ → ℕ
budget_of start f none = if ltb f 5 then 5 - f else 1
budget_of start f (some until) = if leb (start + 15 * minute) until then 0 else 5

abbrev budget : ℕ → Account → ℕ
budget start a = budget_of start a.failed_logins a.locked_until

budget-bound : (start f : ℕ) (l : Option ℕ) → budget_of start f l ≤ 5
budget-bound start f none = ground arith
budget-bound start f (some until) = ground arith

spends :
    (start now f : ℕ) (l : Option ℕ)
    → start ≤ now
    → now < start + 15 * minute
    → is_locked l now ≡ false
    → let n = if lock_is_over l now then 1 else f + 1 in
      budget_of start n (if leb 5 n then some (now + 15 * minute) else none) + 1
      ≤ budget_of start f l
spends start now f none from to open_ = elim (Bool-cases (leb 5 (f + 1))) [
  | inl p ↦ rw p (ground (arith, p, from, to))
  | inr p ↦ rw p (ground (arith, p, from, to))
]
spends start now f (some until) from to open_ = elim (Bool-cases (ltb until now)) [
  | inl q ↦ rw q (ground (arith, q, from, to, open_))
  | inr q ↦ elim (Bool-cases (leb 5 (f + 1))) [
    | inl p ↦ rw (q, p) (ground (arith, p, q, from, to, open_))
    | inr p ↦ rw (q, p) (ground (arith, p, q, from, to, open_))
  ]
]

-- a call of Login
pub record Try : Type 0 where
  pub now : ℕ
  pub address : String
  pub password : String
  pub secret : String
  pub csrf : String

-- the answer after a check of the password that failed
abbrev pub was_checked : Result Entry → ℕ
was_checked (err credentials) = 1
was_checked _ = 0

module _ (lower : String → String) (parse : String → Option String) (encode : List ℕ → String)
    (decode : String → Option (List ℕ)) (argon : String → List ℕ → List ℕ)
    (sha : String → String) where
  -- A wrong password for the account of this address, within fifteen minutes from `start`.
  pub record IsWrong (start : ℕ) (email hash : String) (x : Try) : Type 0 where
    pub from : start ≤ x.now
    pub to : x.now < start + 15 * minute
    pub addressed : normalize_email lower parse x.address ≡ some email
    pub wrong : verify_password encode decode argon hash x.password ≡ false

  abbrev pub AreWrong : ℕ → String → String → List Try → Type 0
  AreWrong start email hash [] = Unit
  AreWrong start email hash (x ∷ xs) = IsWrong start email hash x × AreWrong start email hash xs

  abbrev pub checks : List Try → Store → ℕ
  checks [] s = 0
  checks (x ∷ xs) s =
      let w =
        login lower parse encode decode argon sha x.now x.secret x.csrf x.address x.password s in
      was_checked w.1 + checks xs w.0

  -- what a wrong password does
  refused :
      (start : ℕ) (email id : String) (a : Account) (x : Try) (s : Store)
      → IsKeyed s.users
      → find_email email s.users ≡ some (id, a)
      → IsWrong start email a.password_hash x
      → let w =
          login lower parse encode decode argon sha x.now x.secret x.csrf x.address x.password s in
        w ≡ (
          if is_locked a.locked_until x.now
          then (s, err locked)
          else (record s { users = insert id (failed_once x.now a) s.users }, err credentials))
  unfolding login login_at login_as find_by_email record_failed_login
  refused start email id a x s u f g =
      let row = find_email-lookup email id a s.users u f in
      elim (Bool-cases (is_locked a.locked_until x.now)) [
        | inl p ↦ rw (g.addressed, f, p) refl
        | inr p ↦ rw (g.addressed, f, p, g.wrong, row) refl
      ]

  checks-budget :
      (start : ℕ) (email id : String) (a : Account) (xs : List Try) (s : Store)
      → IsKeyed s.users
      → find_email email s.users ≡ some (id, a)
      → AreWrong start email a.password_hash xs
      → checks xs s ≤ budget start a
  checks-budget start email id a [] s u f g = omega arith
  checks-budget start email id a (x ∷ xs) s u f (g, gs) =
      elim (Bool-cases (is_locked a.locked_until x.now)) [
        | inl p ↦
            let r = refused start email id a x s u f g in
            let rest = checks-budget start email id a xs s u f gs in rw (r, p) (omega (arith, rest))
        | inr p ↦
            let r = refused start email id a x s u f g in
            let b = failed_once x.now a in
            let s' = record s { users = insert id b s.users } in
            let rest =
              checks-budget start email id b xs s' (insert-IsKeyed id b s.users u)
                (find_email-insert email id a b s.users u f refl) gs in
            let spent = spends start x.now a.failed_logins a.locked_until g.from g.to p in
            rw (r, p) (omega (arith, rest, spent))
      ]

  -- If ids are keys and the address has an account, then of any calls of Login of that address with
  -- wrong passwords, one after another within fifteen minutes, at most five have the password checked.
  pub checks-bound :
      (start : ℕ) (email id : String) (a : Account) (xs : List Try) (s : Store)
      → IsKeyed s.users
      → find_email email s.users ≡ some (id, a)
      → AreWrong start email a.password_hash xs
      → checks xs s ≤ 5
  checks-bound start email id a xs s u f g =
      let spent = checks-budget start email id a xs s u f g in
      let most = budget-bound start a.failed_logins a.locked_until in omega (arith, spent, most)
