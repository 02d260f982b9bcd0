-- ===== src/Annotation/Accepted.antt =====
-- Which projects Validate accepts.
use fgvcplateform_public.Base.{
  ◌≡◌, ◌≢◌, ◌≤◌, refl, ◌↔◌, String, true, false, List, [], ◌∷◌, All, arith, eq_iff, Bool-cases, inl,
  inr, is_blank, byte_len, trim_space, ltb, length,
}
use fgvcplateform_public.Annotation.{
  Class, Project, contains_text, is_method, is_domain, bad_name, bad_class, valid_classes,
  is_valid_project,
}

-- A name of at most 180 bytes with no space around it, and not blank.
pub record IsTidy (s : String) : Type 0 where
  pub filled : is_blank s ≡ false
  pub short : byte_len s ≤ 180
  pub trimmed : s ≡ trim_space s

-- No class shares its id or its name with an earlier one.
abbrev pub Distinct : List Class → Type 0
Distinct [] = Unit
Distinct (c ∷ cs) = All (λ (d : Class). (c.id ≢ d.id) × (c.name ≢ d.name)) cs × Distinct cs

-- A project that can be labelled.
pub record IsLabelable (p : Project) : Type 0 where
  pub named : is_blank p.name ≡ false
  pub short : byte_len p.name ≤ 180
  pub enough : 2 ≤ length p.classes
  pub few : length p.classes ≤ 1000
  pub method : is_method p.method ≡ true
  pub domain : is_domain p.domain ≡ true
  pub tidy : All (λ (c : Class). IsTidy c.id × IsTidy c.name) p.classes
  pub distinct : Distinct p.classes

-- the classes are not among those seen
Apart : List String → List String → List Class → Type 0
Apart seen names cs =
    All (λ (c : Class). (contains_text seen c.id ≡ false) × (contains_text names c.name ≡ false)) cs

Accepted : List String → List String → List Class → Type 0
Accepted seen names cs =
    All (λ (c : Class). IsTidy c.id × IsTidy c.name) cs × Distinct cs × Apart seen names cs

good_class :
    (seen names : List String) (c : Class)
    → (bad_class seen names c ≡ false) ↔ (
        IsTidy c.id
        × IsTidy c.name
        × (contains_text seen c.id ≡ false)
        × (contains_text names c.name ≡ false))
unfolding bad_class bad_name
good_class seen names c = (
  (λ h. (
    record {
      filled = ground (arith, h);
      short = ground (arith, h);
      trimmed = ground (arith, h, eq_iff c.id (trim_space c.id));
    },
    record {
      filled = ground (arith, h);
      short = ground (arith, h);
      trimmed = ground (arith, h, eq_iff c.name (trim_space c.name));
    },
    ground (arith, h),
    ground (arith, h),
  )),
  (λ g. good c g.0 g.1 g.2 g.3),
)
  where
    good :
        (c : Class)
        → IsTidy c.id
        → IsTidy c.name
        → contains_text seen c.id ≡ false
        → contains_text names c.name ≡ false
        → bad_class seen names c ≡ false
    good c i n s t =
        let ti = (eq_iff c.id (trim_space c.id)).1 i.trimmed in
        let tn = (eq_iff c.name (trim_space c.name)).1 n.trimmed in
        let si : ltb 180 (byte_len c.id) ≡ false = ground (arith, i.short) in
        let sn : ltb 180 (byte_len c.name) ≡ false = ground (arith, n.short) in
        rw (i.filled, si, n.filled, sn, s, ti, tn, t) refl

apart_head :
    (seen names : List String) (c d : Class)
    → ((contains_text (c.id ∷ seen) d.id ≡ false) × (contains_text (c.name ∷ names) d.name ≡ false))
      ↔ (((contains_text seen d.id ≡ false) × (contains_text names d.name ≡ false))
          × ((c.id ≢ d.id) × (c.name ≢ d.name)))
apart_head seen names c d = (
  (λ h. (
    (ground (arith, h.0), ground (arith, h.1)),
    (
      (λ e. let t = (eq_iff c.id d.id).1 e in let u = h.0 in ground (arith, t, u)),
      (λ e. let t = (eq_iff c.name d.name).1 e in let u = h.1 in ground (arith, t, u)),
    ),
  )),
  (λ h. (
    ground (arith, eq_iff c.id d.id, h.0.0, h.1.0),
    ground (arith, eq_iff c.name d.name, h.0.1, h.1.1),
  )),
)

Apart-cons :
    (seen names : List String) (c : Class) (cs : List Class)
    → Apart (c.id ∷ seen) (c.name ∷ names) cs
    → Apart seen names cs × All (λ (d : Class). (c.id ≢ d.id) × (c.name ≢ d.name)) cs
unfolding Apart
Apart-cons seen names c [] a = (tt, tt)
Apart-cons seen names c (d ∷ cs) a =
    let h = (apart_head seen names c d).0 a.0 in
    let rest = Apart-cons seen names c cs a.1 in ((h.0, rest.0), (h.1, rest.1))

Apart-snoc :
    (seen names : List String) (c : Class) (cs : List Class)
    → Apart seen names cs
    → All (λ (d : Class). (c.id ≢ d.id) × (c.name ≢ d.name)) cs
    → Apart (c.id ∷ seen) (c.name ∷ names) cs
unfolding Apart
Apart-snoc seen names c [] a b = tt
Apart-snoc seen names c (d ∷ cs) a b =
    ((apart_head seen names c d).1 (a.0, b.0), Apart-snoc seen names c cs a.1 b.1)

valid-Accepted :
    (seen names : List String) (cs : List Class)
    → valid_classes seen names cs ≡ true
    → Accepted seen names cs
unfolding valid_classes Accepted Apart
valid-Accepted seen names [] h = (tt, tt, tt)
valid-Accepted seen names (c ∷ cs) h = elim (Bool-cases (bad_class seen names c)) [
  | inl bad ↦ let e = rw bad at h in absurd (cc e)
  | inr good ↦
      let g = (good_class seen names c).0 good in
      let ih = valid-Accepted (c.id ∷ seen) (c.name ∷ names) cs (rw good at h) in
      let a = Apart-cons seen names c cs ih.2 in
      (((g.0, g.1), ih.0), (a.1, ih.1), ((g.2, g.3), a.0))
]

Accepted-valid :
    (seen names : List String) (cs : List Class)
    → Accepted seen names cs
    → valid_classes seen names cs ≡ true
unfolding valid_classes Accepted Apart
Accepted-valid seen names [] a = refl
Accepted-valid seen names (c ∷ cs) a =
    let good = (good_class seen names c).1 (a.0.0.0, a.0.0.1, a.2.0.0, a.2.0.1) in
    rw good (
      Accepted-valid (c.id ∷ seen) (c.name ∷ names) cs
        (a.0.1, a.1.1, Apart-snoc seen names c cs a.2.1 a.1.0))

Apart-none : (cs : List Class) → Apart [] [] cs
unfolding Apart
Apart-none [] = tt
Apart-none (c ∷ cs) = ((refl, refl), Apart-none cs)

-- Validate accepts a project exactly when its name is not blank and has at most 180 bytes, it has 2 to
-- 1000 classes, its method is A, B, C or D and its domain one of the three, every class has an id
-- and a name that are not blank, have at most 180 bytes and no space around them, and no two
-- classes share an id or a name.
pub is_valid_project-IsLabelable : (p : Project) → (is_valid_project p ≡ true) ↔ IsLabelable p
unfolding is_valid_project Accepted
is_valid_project-IsLabelable p = (
  (λ h.
      let classes : valid_classes [] [] p.classes ≡ true = ground (arith, h) in
      let a = valid-Accepted [] [] p.classes classes in
      record {
        named = ground (arith, h);
        short = ground (arith, h);
        enough = ground (arith, h);
        few = ground (arith, h);
        method = ground (arith, h);
        domain = ground (arith, h);
        tidy = a.0;
        distinct = a.1;
      }),
  (λ l.
      let short : ltb 180 (byte_len p.name) ≡ false = ground (arith, l.short) in
      let enough : ltb (length p.classes) 2 ≡ false = ground (arith, l.enough) in
      let few : ltb 1000 (length p.classes) ≡ false = ground (arith, l.few) in
      rw (l.named, short, enough, few, l.method, l.domain)
        (Accepted-valid [] [] p.classes (l.tidy, l.distinct, Apart-none p.classes))),
)
