-- ===== src/Models/Comparable.antt =====
-- When Compare calls its versions comparable, and when it warns.
use fgvcplateform_public.Base.{
  ◌≤◌, String, ◌≡◌, refl, sym, ap, subst, ◌∙◌, Bool, true, false, not, ◌&&◌, ◌||◌, List, [], ◌∷◌,
  ◌++◌, map, str_eq, eq_iff, if_cases, ltb, is_empty, any, all, length, arith, Bool-cases, inl, inr,
}
use fgvcplateform_public.Models.{Result, ok, err, ok_inj, Version}
use fgvcplateform_public.Models.Comparison.{
  Warning, Comparison, missing, mismatch, fingerprint, append_warning, object_to, then_prepend,
  fetch, inspect_one, inspect, same_scope, fresh, opening, weigh, weigh_fetched, compare_versions,
}

-- One fingerprint for all, and not the empty one.
unfoldable pub agree : List Version → Bool
agree [] = false
agree (first ∷ rest) =
    not (is_empty (fingerprint first)) && all (λ v. str_eq (fingerprint v) (fingerprint first)) rest

abbrev pub silent : List Warning → Bool
silent [] = true
silent (w ∷ ws) = false

-- The flag and the warnings agree.
record Honest (c : Comparison) : Type 0 where
  pub honest : silent c.warnings ≡ c.comparable

silent-snoc : (ws : List Warning) (w : Warning) → silent (ws ++ w ∷ []) ≡ false
silent-snoc [] w = refl
silent-snoc (x ∷ ws) w = refl

any-silent : (p : Warning → Bool) (ws : List Warning) → any p ws ≡ true → silent ws ≡ false
any-silent p [] h = cc
any-silent p (w ∷ ws) h = refl

object_to-Honest : (w : Warning) (c : Comparison) → Honest (object_to w c)
unfolding append_warning
object_to-Honest w c =
    if_cases {A = Comparison} Honest (any (λ x. str_eq x.code w.code) c.warnings)
      (λ h. record { honest = any-silent (λ x. str_eq x.code w.code) c.warnings h })
      (λ h. record { honest = silent-snoc c.warnings w })

object_to_fields :
    (w : Warning) (c : Comparison)
    → ((object_to w c).comparable ≡ false)
      × ((object_to w c).protocol_fingerprint ≡ c.protocol_fingerprint)
      × ((object_to w c).versions ≡ c.versions)
unfolding append_warning
object_to_fields w c = (ground arith, ground arith, ground arith)

abbrev fits : String → Version → Bool
fits print v = not (is_empty (fingerprint v)) && str_eq (fingerprint v) print

record Inspected (ok_so_far : Bool) (c : Comparison) (d : Comparison) : Type 0 where
  pub flag : d.comparable ≡ c.comparable && ok_so_far
  pub print : d.protocol_fingerprint ≡ c.protocol_fingerprint
  pub versions : d.versions ≡ c.versions
  pub honest : Honest d

objected : (w : Warning) (c : Comparison) → Inspected false c (object_to w c)
objected w c =
    let f = object_to_fields w c in
    record { flag = ground arith; print = f.1; versions = f.2; honest = object_to-Honest w c }

inspect_one-Inspected :
    (v : Version) (c : Comparison)
    → Honest c
    → Inspected (fits c.protocol_fingerprint v) c (inspect_one v c)
unfolding inspect_one
inspect_one-Inspected v c h = elim (Bool-cases (is_empty (fingerprint v))) [
  | inl e ↦ rw e (objected missing c)
  | inr e ↦ elim (Bool-cases (str_eq (fingerprint v) c.protocol_fingerprint)) [
    | inl s ↦ rw (e, s) (record { flag = ground arith; print = refl; versions = refl; honest = h })
    | inr s ↦ rw (e, s) (objected mismatch c)
  ]
]

inspect-Inspected :
    (vs : List Version) (c : Comparison)
    → Honest c
    → Inspected (all (fits c.protocol_fingerprint) vs) c (inspect vs c)
unfolding inspect
inspect-Inspected [] c h = record { flag = ground arith; print = refl; versions = refl; honest = h }
inspect-Inspected (v ∷ vs) c h =
    let a = inspect_one-Inspected v c h in
    let b = inspect-Inspected vs (inspect_one v c) a.honest in
    let later : (inspect vs (inspect_one v c)).comparable
        ≡ (inspect_one v c).comparable && all (fits c.protocol_fingerprint) vs =
      b.flag ∙ ap (λ s. (inspect_one v c).comparable && all (fits s) vs) a.print in
    record {
      flag = later ∙ ground (arith, a.flag);
      print = b.print ∙ a.print;
      versions = b.versions ∙ a.versions;
      honest = b.honest;
    }

fits-all :
    (print : String) (vs : List Version)
    → not (is_empty print) && all (fits print) vs
      ≡ not (is_empty print) && all (λ v. str_eq (fingerprint v) print) vs
fits-all print [] = refl
fits-all print (v ∷ vs) =
    let rest = fits-all print vs in
    ground (arith, rest, eq_iff (fingerprint v) print, eq_iff (fingerprint v) "", eq_iff print "")

record Weighed (vs : List Version) (c : Comparison) : Type 0 where
  pub versions : c.versions ≡ vs
  pub flag : c.comparable ≡ agree vs
  pub honest : silent c.warnings ≡ c.comparable

fresh-Honest : (first : Version) (rest : List Version) → Honest (fresh first rest)
unfolding fresh
fresh-Honest first rest = record { honest = refl }

opening-Inspected :
    (first : Version) (rest : List Version)
    → Inspected (not (is_empty (fingerprint first))) (fresh first rest) (opening first rest)
unfolding opening
opening-Inspected first rest = elim (Bool-cases (is_empty (fingerprint first))) [
  | inl e ↦ rw e (objected missing (fresh first rest))
  | inr e ↦ rw e (record {
    flag = ground arith;
    print = refl;
    versions = refl;
    honest = fresh-Honest first rest;
  })
]

inspect-Weighed :
    (first : Version) (rest : List Version)
    → Weighed (first ∷ rest) (inspect rest (opening first rest))
unfolding agree fresh
inspect-Weighed first rest =
    let o = opening-Inspected first rest in
    let i = inspect-Inspected rest (opening first rest) o.honest in
    let print : (opening first rest).protocol_fingerprint ≡ fingerprint first = o.print in
    let flag : (opening first rest).comparable ≡ not (is_empty (fingerprint first)) = o.flag in
    record {
      versions = i.versions ∙ o.versions;
      flag = i.flag ∙ rw (print, flag) (fits-all (fingerprint first) rest);
      honest = i.honest.honest;
    }

weigh-Weighed : (vs : List Version) (c : Comparison) → weigh vs ≡ ok c → Weighed vs c
unfolding weigh
weigh-Weighed [] c h = cc
weigh-Weighed (first ∷ rest) c h =
    elim (Bool-cases (is_empty first.dataset_id || is_empty first.dataset_version_id)) [
      | inl a ↦ ground (arith, rw a at h)
      | inr a ↦ elim (Bool-cases (not (all (same_scope first) rest))) [
        | inl b ↦ ground (arith, rw (a, b) at h)
        | inr b ↦
            subst (Weighed (first ∷ rest)) (ok_inj (rw (a, b) at h)) (inspect-Weighed first rest)
      ]
    ]

both_ok :
    (a : Result Version) (b : Result (List Version)) (vs : List Version)
    → then_prepend a b ≡ ok vs
    → (w : Version) × (ws : List Version) × (a ≡ ok w) × (b ≡ ok ws) × (w ∷ ws ≡ vs)
both_ok (err e) b vs h = cc
both_ok (ok w) (err e) vs h = cc
both_ok (ok w) (ok ws) vs h = (w, ws, refl, refl, ok_inj h)

fetch-map :
    (get : String → Result Version) (seen ids : List String) (vs : List Version)
    → fetch get seen ids ≡ ok vs
    → map get ids ≡ map ok vs
unfolding fetch
fetch-map get seen [] vs h = ap (map ok) (ok_inj h)
fetch-map get seen (id ∷ ids) vs h = elim (Bool-cases (any (λ s. str_eq s id) seen)) [
  | inl a ↦ ground (arith, rw a at h)
  | inr a ↦
      let (w, ws, x, y, z) = both_ok (get id) (fetch get (id ∷ seen) ids) vs (rw a at h) in
      let rest = fetch-map get (id ∷ seen) ids ws y in rw (x, rest) (ap (map ok) z)
]

-- What Compare answers, when it answers.
pub record Compared (get : String → Result Version) (ids : List String) (c : Comparison)
    : Type 0 where
  pub fetched : map get ids ≡ map ok c.versions
  pub at_least : 2 ≤ length ids
  pub at_most : length ids ≤ 5
  pub flag : c.comparable ≡ agree c.versions
  pub warned : silent c.warnings ≡ c.comparable

-- If Compare succeeds, then two to five ids were asked for, the versions are those of the
-- repository in the order of the ids, they are called comparable exactly when they all have the
-- same protocol fingerprint and it is not empty, and there is a warning exactly when they are not.
pub compare_versions-Compared :
    (get : String → Result Version) (ids : List String) (c : Comparison)
    → compare_versions get ids ≡ ok c
    → Compared get ids c
unfolding compare_versions
compare_versions-Compared get ids c h =
    elim (Bool-cases (ltb (length ids) 2 || ltb 5 (length ids))) [
      | inl a ↦ ground (arith, rw a at h)
      | inr a ↦
          let (vs, f, w) = weighed (fetch get [] ids) (rw a at h) in
          record {
            fetched = fetch-map get [] ids vs f ∙ ap (map ok) (sym w.versions);
            at_least = ground (arith, a);
            at_most = ground (arith, a);
            flag = w.flag ∙ ap agree (sym w.versions);
            warned = w.honest;
          }
    ]
  where
    weighed :
        (o : Result (List Version))
        → weigh_fetched o ≡ ok c
        → (vs : List Version) × (o ≡ ok vs) × Weighed vs c
    weighed (err e) h' = cc
    weighed (ok vs) h' = (vs, refl, weigh-Weighed vs c h')
