-- ===== src/Auth/Roles.antt =====
-- What a role may ask for.
use fgvcplateform_public.Base.{
  ◌≡◌, refl, String, true, false, not, ◌&&◌, ◌||◌, str_eq, eq_iff, arith, if◌then◌else◌, Bool-cases,
  inl, inr,
}
use fgvcplateform_public.Base.Paths.{has_prefix}
use fgvcplateform_public.Auth.{is_admin}
use fgvcplateform_public.Auth.Access.{
  is_business, is_annotator, is_registration, annotator_allowed, allowed,
}
use fgvcplateform_public.Auth.Guarded.{apart, other_path, shorter}

-- The limits of the roles on a method and a path.
pub record IsLimited (role method path : String) : Type 0 where
  -- the accounts of others are the administrators'
  pub accounts :
      has_prefix path "/api/auth/" ≡ true
      → str_eq path "/api/auth/me" ≡ false
      → str_eq path "/api/auth/logout" ≡ false
      → is_admin role ≡ true
  -- the assistant serves administrators and business users
  pub assistant : has_prefix path "/api/agent/" ≡ true → (is_admin role || is_business role) ≡ true
  -- annotation is for administrators and annotators
  pub annotation :
      has_prefix path "/api/annotation/" ≡ true → (is_admin role || is_annotator role) ≡ true
  -- a dataset version is registered by an administrator
  pub registration : is_registration method path ≡ true → is_admin role ≡ true

-- no test before the last ones holds of a path of annotation
annotation_tests :
    (role method path : String)
    → has_prefix path "/api/annotation/" ≡ true
    → is_admin role ≡ false
    → allowed role method path ≡ (
        if is_business role
        then false
        else if not (is_annotator role)
        then false
        else not (is_registration method path))
unfolding allowed annotator_allowed has_prefix
annotation_tests role method path p a =
    rw
      (
        a,
        other_path path "/api/annotation/" "/api/auth/me" p refl,
        other_path path "/api/annotation/" "/api/auth/logout" p refl,
        apart path "/api/annotation/" "/api/agent/" p refl,
        apart path "/api/annotation/" "/api/agent-tools/" p refl,
        apart path "/api/annotation/" "/api/auth/" p refl,
        apart path "/api/annotation/" "/swagger" p refl,
        apart path "/api/annotation/" "/openapi/" p refl,
        other_path path "/api/annotation/" "/api/workers" p refl,
        apart path "/api/annotation/" "/api/workers/" p refl,
        p,
      )
      refl

-- business and annotator are different roles
one_role : (role : String) → is_business role ≡ true → is_annotator role ≡ false
one_role role b = let same : role ≡ "business" = (eq_iff role "business").0 b in rw same refl

accounts_limit :
    (role method path : String)
    → allowed role method path ≡ true
    → has_prefix path "/api/auth/" ≡ true
    → str_eq path "/api/auth/me" ≡ false
    → str_eq path "/api/auth/logout" ≡ false
    → is_admin role ≡ true
unfolding allowed has_prefix
accounts_limit role method path h p me out = elim (Bool-cases (is_admin role)) [
  | inl a ↦ a
  | inr a ↦
      let refused : allowed role method path ≡ false =
        rw
          (
            a,
            me,
            out,
            apart path "/api/auth/" "/api/agent/" p refl,
            apart path "/api/auth/" "/api/agent-tools/" p refl,
            p,
          )
          refl in
      absurd (cc (h, refused))
]

assistant_limit :
    (role method path : String)
    → allowed role method path ≡ true
    → has_prefix path "/api/agent/" ≡ true
    → (is_admin role || is_business role) ≡ true
unfolding allowed has_prefix
assistant_limit role method path h p = elim (Bool-cases (is_admin role)) [
  | inl a ↦ rw a refl
  | inr a ↦
      let only : allowed role method path ≡ is_business role =
        rw
          (
            a,
            other_path path "/api/agent/" "/api/auth/me" p refl,
            other_path path "/api/agent/" "/api/auth/logout" p refl,
            p,
          )
          refl in
      ground (arith, only, h)
]

annotation_limit :
    (role method path : String)
    → allowed role method path ≡ true
    → has_prefix path "/api/annotation/" ≡ true
    → (is_admin role || (is_annotator role && not (is_registration method path))) ≡ true
annotation_limit role method path h p = elim (Bool-cases (is_admin role)) [
  | inl a ↦ rw a refl
  | inr a ↦ let tests = annotation_tests role method path p a in ground (arith, tests, h, a)
]

-- A request that a role is allowed respects the limits: the accounts are for administrators, but for
-- one's own session; the assistant for administrators and business users; annotation for
-- administrators and annotators; and publish, retry and cancel of a publication for administrators.
pub allowed-IsLimited :
    (role method path : String) → allowed role method path ≡ true → IsLimited role method path
unfolding is_registration has_prefix
allowed-IsLimited role method path h = record {
  accounts = accounts_limit role method path h;
  assistant = assistant_limit role method path h;
  annotation = λ p. let l = annotation_limit role method path h p in ground (arith, l);
  registration = λ g.
      let inner : has_prefix path "/api/annotation/publications/" ≡ true = ground (arith, g) in
      let p = shorter path "/api/annotation/" "/api/annotation/publications/" inner refl in
      let l = annotation_limit role method path h p in ground (arith, l, g);
}
