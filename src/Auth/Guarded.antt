-- ===== src/Auth/Guarded.antt =====
-- What Protect lets through, and what a role may ask for.
use fgvcplateform_public.Base.{
  ◌≡◌, refl, sym, ap, subst, String, Bool, true, false, not, ◌&&◌, ◌||◌, Option, none, some, str_eq,
  eq_iff, arith, if◌then◌else◌, Bool-cases, inl, inr, is_empty, ◌==◌,
}
use Prim.Native.Char.{code}
use fgvcplateform_public.Base.Paths.{has_prefix}
use fgvcplateform_public.Auth.{Session, Error, credentials, Result, ok, err}
use fgvcplateform_public.Auth.Access.{
  is_public, is_service_path, allowed, Request, Answer, served, is_safe, fails_csrf, answered,
  dispatch, protect,
}

-- Why the handler is reached.
pub data IsAuthorized (r : Request) (delegated own : Result Session) (context : Option Session)
    : Type 0 where
  open_path :
      (is_public r.path || is_service_path r.path || str_eq r.path "/metrics") ≡ true
      → context ≡ r.bound
      → IsAuthorized r delegated own context
  by_bridge :
      (s : Session)
      → r.dispatched ≡ true
      → r.bound ≡ some s
      → allowed s.user.role r.method r.path ≡ true
      → context ≡ some s
      → IsAuthorized r delegated own context
  by_delegation :
      (s : Session)
      → is_empty r.delegation ≡ false
      → delegated ≡ ok s
      → allowed s.user.role r.method r.path ≡ true
      → context ≡ some s
      → IsAuthorized r delegated own context
  by_cookie :
      (s : Session)
      → is_empty r.delegation ≡ true
      → own ≡ ok s
      → allowed s.user.role r.method r.path ≡ true
      → (is_safe r.method || not (is_empty r.csrf) && str_eq r.csrf s.csrf_token) ≡ true
      → context ≡ some s
      → IsAuthorized r delegated own context

abbrev context_of : Answer → Option Session
context_of (served c) = c
context_of (Answer.refused n) = none

dispatched-IsAuthorized :
    (r : Request) (d own : Result Session) (o c : Option Session)
    → o ≡ r.bound
    → r.dispatched ≡ true
    → dispatch r o ≡ served c
    → IsAuthorized r d own c
dispatched-IsAuthorized r d own none c b m h = absurd (cc h)
dispatched-IsAuthorized r d own (some s) c b m h =
    elim (Bool-cases (allowed s.user.role r.method r.path)) [
      | inl p ↦
          let e : served (some s) ≡ served c = rw p at h in
          by_bridge s m (sym b) p (sym (ap context_of e))
      | inr p ↦ let x = rw p at h in absurd (cc x)
    ]

-- a session that passed the tests of its role and of CSRF
answered-IsAuthorized :
    (r : Request) (d own o : Result Session) (c : Option Session)
    → o ≡ (if not (is_empty r.delegation) then d else own)
    → answered r o ≡ served c
    → IsAuthorized r d own c
answered-IsAuthorized r d own (err credentials) c b h = absurd (cc h)
answered-IsAuthorized r d own (err Error.invalid) c b h = absurd (cc h)
answered-IsAuthorized r d own (err Error.duplicate) c b h = absurd (cc h)
answered-IsAuthorized r d own (err Error.waiting) c b h = absurd (cc h)
answered-IsAuthorized r d own (err Error.disabled) c b h = absurd (cc h)
answered-IsAuthorized r d own (err Error.locked) c b h = absurd (cc h)
answered-IsAuthorized r d own (err Error.not_found) c b h = absurd (cc h)
answered-IsAuthorized r d own (err Error.last_admin) c b h = absurd (cc h)
answered-IsAuthorized r d own (err Error.unavailable) c b h = absurd (cc h)
answered-IsAuthorized r d own (ok s) c b h =
    elim (Bool-cases (allowed s.user.role r.method r.path)) [
      | inr p ↦ let x = rw p at h in absurd (cc x)
      | inl p ↦ elim (Bool-cases (fails_csrf r s)) [
        | inl q ↦ let x = rw (p, q) at h in absurd (cc x)
        | inr q ↦
            let e : served (some s) ≡ served c = rw (p, q) at h in
            let same = sym (ap context_of e) in
            elim (Bool-cases (is_empty r.delegation)) [
              | inl y ↦ by_cookie s y (sym (rw y at b)) p (ground (arith, q, y)) same
              | inr y ↦ by_delegation s y (sym (rw y at b)) p same
            ]
      ]
    ]

-- If Protect serves a request with a session in its context, or none, then the path is open to all
-- and the context is as it was; or the session's role is allowed the method and path, and it is that
-- of the tool bridge, of a delegation, or of the cookie; with the cookie alone the method is safe or
-- the CSRF token is given and is the session's.
pub protect-IsAuthorized :
    (r : Request) (delegated own : Result Session) (c : Option Session)
    → protect r delegated own ≡ served c
    → IsAuthorized r delegated own c
unfolding protect
protect-IsAuthorized r d own c h =
    elim (Bool-cases (is_public r.path || is_service_path r.path || str_eq r.path "/metrics")) [
      | inl p ↦ let e : served r.bound ≡ served c = rw p at h in open_path p (sym (ap context_of e))
      | inr p ↦ elim (Bool-cases (has_prefix r.path "/internal/")) [
        | inl q ↦ let x = rw (p, q) at h in absurd (cc x)
        | inr q ↦ elim (Bool-cases r.dispatched) [
          | inl m ↦ dispatched-IsAuthorized r d own r.bound c refl m (rw (p, q, m) at h)
          | inr m ↦
              answered-IsAuthorized r d own (if not (is_empty r.delegation) then d else own) c refl
                (rw (p, q, m) at h)
        ]
      ]
    ]

-- Two texts of which neither can begin with the other are not both prefixes of a third.
abbrev pub agree : String → String → Bool
agree String.[] q = true
agree (String.◌∷◌ c p) String.[] = true
agree (String.◌∷◌ c p) (String.◌∷◌ d q) = code c == code d && agree p q

prefixes-agree : (s p q : String) → has_prefix s p ≡ true → has_prefix s q ≡ true → agree p q ≡ true
unfolding has_prefix
prefixes-agree s String.[] q h k = refl
prefixes-agree s (String.◌∷◌ c p) String.[] h k = refl
prefixes-agree String.[] (String.◌∷◌ c p) (String.◌∷◌ d q) h k = absurd (cc h)
prefixes-agree (String.◌∷◌ x s) (String.◌∷◌ c p) (String.◌∷◌ d q) h k =
    let hp : has_prefix s p ≡ true = ground (arith, h) in
    let kq : has_prefix s q ≡ true = ground (arith, k) in
    let rest = prefixes-agree s p q hp kq in ground (arith, h, k, rest)

pub apart : (s p q : String) → has_prefix s p ≡ true → agree p q ≡ false → has_prefix s q ≡ false
apart s p q h a = elim (Bool-cases (has_prefix s q)) [
  | inl k ↦ let both = prefixes-agree s p q h k in absurd (cc (both, a))
  | inr k ↦ k
]

-- a path with the prefix `p` is not a given one without it
pub other_path :
    (s p q : String) → has_prefix s p ≡ true → has_prefix q p ≡ false → str_eq s q ≡ false
other_path s p q h k = elim (Bool-cases (str_eq s q)) [
  | inl e ↦
      let same : s ≡ q = (eq_iff s q).0 e in
      absurd (let x = subst (λ t. has_prefix t p ≡ true) same h in cc (x, k))
  | inr e ↦ e
]

-- a prefix of a prefix
pub shorter :
    (s p q : String) → has_prefix s q ≡ true → has_prefix q p ≡ true → has_prefix s p ≡ true
unfolding has_prefix
shorter s String.[] q h k = refl
shorter s (String.◌∷◌ c p) String.[] h k = absurd (cc k)
shorter String.[] (String.◌∷◌ c p) (String.◌∷◌ d q) h k = absurd (cc h)
shorter (String.◌∷◌ x s) (String.◌∷◌ c p) (String.◌∷◌ d q) h k =
    let hq : has_prefix s q ≡ true = ground (arith, h) in
    let kp : has_prefix q p ≡ true = ground (arith, k) in
    let rest = shorter s p q hq kp in ground (arith, h, k, rest)
