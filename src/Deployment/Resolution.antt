-- ===== src/Deployment/Resolution.antt =====
-- What Resolve may hand out.
use fgvcplateform_public.Base.{
  String, ◌≡◌, refl, ap, subst, Bool, true, not, ◌&&◌, ◌||◌, List, [], ◌∷◌, ◌++◌, str_eq, eq_iff,
  eq_refl, if_cases, is_empty, any, All, arith, Bool-cases, inl, inr,
}
use fgvcplateform_public.Artifact.{Descriptor}
use fgvcplateform_public.Models.{production, is_status, Version}
use fgvcplateform_public.Deployment.{
  Record, Result, ok, err, sift, sort_slice, bundle_of, is_variant, variant, variants, variant_less,
  portable_variants, first_variant, same_source, is_compiled, check_record, find_record, resolve,
}

-- What the code relies on in a portable variant.
record Portable (v : Version) (r : Record) : Type 0 where
  pub ready : r.status ≡ "ready"
  pub of_model : r.model_version_id ≡ v.id
  pub runtime : r.runtime ≡ "onnx_cpu"

module _ {A : Type 0} (less : A → A → Bool) (P : A → Type 0) where
  sift-All : (x : A) (xs : List A) → P x → All P xs → All P (sift less x xs)
  unfolding sift
  sift-All x [] p h = (p, tt)
  sift-All x (y ∷ ys) p h =
      if_cases {A = List A} (All P) (less y x) (λ _. (h.0, sift-All x ys p h.1)) (λ _. (p, h))

  sort_slice-All : (xs : List A) → All P xs → All P (sort_slice less xs)
  unfolding sort_slice
  sort_slice-All [] h = tt
  sort_slice-All (x ∷ xs) h = sift-All x (sort_slice less xs) h.0 (sort_slice-All xs h.1)

variant-Portable : (v : Version) (a : Descriptor) → Portable v (variant v a)
unfolding variant
variant-Portable v a = record { ready = refl; of_model = refl; runtime = refl }

variants-Portable :
    (v : Version) (bundle : Descriptor) (xs : List Descriptor)
    → All (Portable v) (variants v bundle xs)
unfolding variants
variants-Portable v bundle [] = tt
variants-Portable v bundle (a ∷ rest) =
    if_cases {A = List Record} (All (Portable v)) (is_variant v bundle a)
      (λ _. (variant-Portable v a, variants-Portable v bundle rest))
      (λ _. variants-Portable v bundle rest)

portable_variants-Portable : (v : Version) → All (Portable v) (portable_variants v).1
unfolding portable_variants
portable_variants-Portable v =
    if_cases {A = Descriptor × List Record} (λ x. All (Portable v) x.1)
      (not (is_status v.status production) || is_empty (bundle_of v).artifact_id) (λ _. tt)
      (λ _.
        sort_slice-All variant_less (Portable v) (variants v (bundle_of v) v.artifacts)
          (variants-Portable v (bundle_of v) v.artifacts))

-- A record that may serve the version `v` when `id` was asked for.
pub record Servable (v : Version) (id : String) (r : Record) : Type 0 where
  pub ready : r.status ≡ "ready"
  pub of_model : r.model_version_id ≡ v.id
  pub wanted : is_empty id || str_eq r.id id ≡ true
  pub source : any (same_source r) (portable_variants v).1 ≡ true
  pub runnable : str_eq r.runtime "onnx_cpu" || is_compiled r.compiled ≡ true

value_or : Record → Result Record → Record
value_or x (ok r) = r
value_or x (err e) = x

ok_inj : {x y : Record} → ok x ≡ ok y → x ≡ y
unfolding value_or
ok_inj {x = x} e = ap (λ o. value_or x o) e

first-Servable :
    (v : Version) (id : String) (rs : List Record) (r : Record)
    → is_empty id ≡ true
    → rs ≡ (portable_variants v).1
    → All (Portable v) rs
    → first_variant rs ≡ ok r
    → Servable v id r
first-Servable v id [] r e s p h = cc
first-Servable v id (x ∷ xs) r e s p h =
    let here : any (same_source x) (x ∷ xs) ≡ true =
      rw (eq_refl x.source.artifact_id, eq_refl x.source.sha256) refl in
    subst (Servable v id) (ok_inj h) (record {
      ready = p.0.ready;
      of_model = p.0.of_model;
      wanted = rw e refl;
      source = subst (λ l. any (same_source x) l ≡ true) s here;
      runnable = rw (p.0.runtime) refl;
    })

checked :
    (portable : List Record) (x r : Record)
    → check_record portable x ≡ ok r
    → (x.status ≡ "ready")
      × (any (same_source x) portable ≡ true)
      × (str_eq x.runtime "onnx_cpu" || is_compiled x.compiled ≡ true)
      × (x ≡ r)
unfolding check_record
checked portable x r h = elim (Bool-cases (str_eq x.status "ready")) [
  | inr a ↦ ground (arith, rw a at h)
  | inl a ↦
      elim (Bool-cases (
        not (any (same_source x) portable)
        || (not (str_eq x.runtime "onnx_cpu") && not (is_compiled x.compiled)))) [
          | inl b ↦ ground (arith, rw (a, b) at h)
          | inr b ↦ (
            (eq_iff x.status "ready").0 a,
            ground (arith, b),
            ground (arith, b),
            ok_inj (rw (a, b) at h),
          )
        ]
]

found-Servable :
    (v : Version) (id : String) (rs : List Record) (r : Record)
    → find_record v (portable_variants v).1 id rs ≡ ok r
    → Servable v id r
unfolding find_record
found-Servable v id [] r h = cc
found-Servable v id (x ∷ xs) r h =
    elim (Bool-cases (not (str_eq x.id id) || not (str_eq x.model_version_id v.id))) [
      | inl t ↦ found-Servable v id xs r (rw t at h)
      | inr t ↦
          let (ready, source, runnable, same) = checked (portable_variants v).1 x r (rw t at h) in
          subst (Servable v id) same (record {
            ready = ready;
            of_model = (eq_iff x.model_version_id v.id).0 (ground (arith, t));
            wanted = ground (arith, t);
            source = source;
            runnable = runnable;
          })
    ]

-- Whatever Resolve hands out, the version is in production and the record is ready, belongs to
-- this version, is the one asked for (if one was), comes from a portable variant of the version by
-- artifact and digest, and can run: it is ONNX or has been compiled.
pub resolve-Servable :
    (v : Version) (records : List Record) (id : String) (r : Record)
    → (resolve v records id).1 ≡ ok r
    → (is_status v.status production ≡ true) × Servable v id r
unfolding resolve
resolve-Servable v records id r h = elim (Bool-cases (is_status v.status production)) [
  | inr n ↦ ground (arith, rw n at h)
  | inl y ↦ elim (Bool-cases (is_empty id)) [
    | inl e ↦ (
      y,
      first-Servable v id (portable_variants v).1 r e refl (portable_variants-Portable v)
          (rw (y, e) at h),
    )
    | inr e ↦ (y, found-Servable v id ((portable_variants v).1 ++ records) r (rw (y, e) at h))
  ]
]
