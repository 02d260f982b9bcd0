-- ===== src/Models/Published.antt =====
-- What PublishPrecision hands to CompletePublication.
use fgvcplateform_public.Base.{
  String, ◌≡◌, refl, sym, ◌∙◌, ◌⊎◌, inl, inr, Bool, true, false, not, ◌&&◌, ◌||◌, Option, none,
  some, List, [], ◌∷◌, str_eq, eq_iff, is_blank, any, length, ◌==◌, arith, Bool-cases, if_cases,
}
use fgvcplateform_public.Artifact.{Descriptor}
use fgvcplateform_public.Models.{
  candidate, staging, production, is_status, Error, Result, ok, err, Version,
}
use fgvcplateform_public.Models.Publication.{
  artifact_precision, Publisher, onnx_kind, pt_kind, has_precision, breaks_contract, check_export,
  complete_checked, publish_exported, publish_found, publish_precision,
}

-- One PyTorch and one ONNX artifact, both verified and of the precision asked for.
pub record Complete (verify : Descriptor → Bool) (v : Version) (precision : String)
    (a b : Descriptor) : Type 0 where
  pub one_each :
      ((a.artifact_type ≡ pt_kind v) × (b.artifact_type ≡ onnx_kind v))
      ⊎ ((a.artifact_type ≡ onnx_kind v) × (b.artifact_type ≡ pt_kind v))
  pub verified : (verify a ≡ true) × (verify b ≡ true)
  pub precise :
      (artifact_precision a.metadata ≡ precision) × (artifact_precision b.metadata ≡ precision)

pub data Outcome {S : Type 0} (p : Publisher S) (actor reason precision : String) (s : S)
    (x : Result Version × S) : Type 0 where
  untouched : x.1 ≡ s → Outcome p actor reason precision s x
  completed :
      (v : Version) (a b : Descriptor)
      → x ≡ p.complete_publication v (a ∷ b ∷ []) actor reason s
      → Complete p.verify v precision a b
      → Outcome p actor reason precision s x

record Passed (verify : Descriptor → Bool) (v : Version) (precision : String) (kinds : List String)
    (a : Descriptor) : Type 0 where
  pub kind : (a.artifact_type ≡ pt_kind v) ⊎ (a.artifact_type ≡ onnx_kind v)
  pub new : any (λ k. str_eq k a.artifact_type) kinds ≡ false
  pub verified : verify a ≡ true
  pub precise : artifact_precision a.metadata ≡ precision

contract :
    (v : Version) (kinds : List String) (a : Descriptor)
    → breaks_contract v kinds a ≡ false
    → ((a.artifact_type ≡ pt_kind v) ⊎ (a.artifact_type ≡ onnx_kind v))
      × (any (λ k. str_eq k a.artifact_type) kinds ≡ false)
unfolding breaks_contract
contract v kinds a y = (
  elim (Bool-cases (str_eq a.artifact_type (pt_kind v))) [
    | inl p ↦ inl ((eq_iff a.artifact_type (pt_kind v)).0 p)
    | inr p ↦ inr ((eq_iff a.artifact_type (onnx_kind v)).0 (ground (arith, y, p)))
  ],
  ground (arith, y),
)

check_export-Passed :
    (verify : Descriptor → Bool) (v : Version) (precision : String) (kinds : List String)
    (a : Descriptor) (rest : List Descriptor)
    → check_export verify v precision kinds (a ∷ rest) ≡ none
    → Passed verify v precision kinds a
      × (check_export verify v precision (a.artifact_type ∷ kinds) rest ≡ none)
unfolding check_export
check_export-Passed verify v precision kinds a rest h =
    elim (Bool-cases (str_eq (artifact_precision a.metadata) precision)) [
      | inr x ↦ ground (arith, rw x at h)
      | inl x ↦ elim (Bool-cases (breaks_contract v kinds a)) [
        | inl y ↦ ground (arith, rw (x, y) at h)
        | inr y ↦ elim (Bool-cases (verify a)) [
          | inr z ↦ ground (arith, rw (x, y, z) at h)
          | inl z ↦
              let k = contract v kinds a y in
              (
                record {
                  kind = k.0;
                  new = k.1;
                  verified = z;
                  precise = (eq_iff (artifact_precision a.metadata) precision).0 x;
                },
                rw (x, y, z) at h,
              )
        ]
      ]
    ]

distinct :
    (v : Version) (a b : Descriptor)
    → (a.artifact_type ≡ pt_kind v) ⊎ (a.artifact_type ≡ onnx_kind v)
    → (b.artifact_type ≡ pt_kind v) ⊎ (b.artifact_type ≡ onnx_kind v)
    → str_eq a.artifact_type b.artifact_type ≡ false
    → ((a.artifact_type ≡ pt_kind v) × (b.artifact_type ≡ onnx_kind v))
      ⊎ ((a.artifact_type ≡ onnx_kind v) × (b.artifact_type ≡ pt_kind v))
distinct v a b (inl x) (inl y) n =
    let e = (eq_iff a.artifact_type b.artifact_type).1 (x ∙ sym y) in cc
distinct v a b (inl x) (inr y) n = inl (x, y)
distinct v a b (inr x) (inl y) n = inr (x, y)
distinct v a b (inr x) (inr y) n =
    let e = (eq_iff a.artifact_type b.artifact_type).1 (x ∙ sym y) in cc

exported-Outcome :
    {S : Type 0} (get : String → S → Result Version) (publisher : Option (Publisher S))
    (p : Publisher S) (v : Version) (actor reason : String) (s : S) (o : Option (List Descriptor))
    → Outcome p actor reason v.release_precision s
        (publish_exported get publisher p v actor reason s o)
exported-Outcome get publisher p v actor reason s none = untouched refl
exported-Outcome get publisher p v actor reason s (some []) = untouched refl
exported-Outcome get publisher p v actor reason s (some (a ∷ [])) = untouched refl
exported-Outcome get publisher p v actor reason s (some (a ∷ b ∷ [])) =
    checked (check_export p.verify v v.release_precision [] (a ∷ b ∷ [])) refl
  where
    checked :
        (e : Option Error)
        → check_export p.verify v v.release_precision [] (a ∷ b ∷ []) ≡ e
        → Outcome p actor reason v.release_precision s
            (complete_checked get publisher p v (a ∷ b ∷ []) actor reason s e)
    checked (some e) h = untouched refl
    checked none h =
        let (m, later) = check_export-Passed p.verify v v.release_precision [] a (b ∷ []) h in
        let (n, end) =
          check_export-Passed p.verify v v.release_precision (a.artifact_type ∷ []) b [] later in
        completed v a b refl (record {
          one_each = distinct v a b m.kind n.kind (ground (arith, n.new));
          verified = (m.verified, n.verified);
          precise = (m.precise, n.precise);
        })
exported-Outcome get publisher p v actor reason s (some (a ∷ b ∷ c ∷ cs)) =
    let more : (length (a ∷ b ∷ c ∷ cs) == 2) ≡ false = ground arith in rw more (untouched refl)

found-Outcome :
    {S : Type 0} (get : String → S → Result Version) (p : Publisher S)
    (actor reason precision : String) (s : S) (r : Result Version)
    → Outcome p actor reason precision s (publish_found get (some p) actor reason precision s r)
found-Outcome get p actor reason precision s (err e) = untouched refl
found-Outcome get p actor reason precision s (ok v) =
    if_cases (Outcome p actor reason precision s)
      (not (is_status v.status candidate)
        && not (is_status v.status staging)
        && not (is_status v.status production))
      (λ _. untouched refl)
      (λ _.
        if_cases (Outcome p actor reason precision s)
          (is_status v.status production && any (has_precision v precision) v.artifacts)
          (λ _. untouched refl)
          (λ _.
            exported-Outcome get (some p) p (record v { release_precision = precision }) actor
              reason s (p.export (record v { release_precision = precision }))))

-- PublishPrecision leaves the repository as it is, or hands exactly two artifacts to
-- CompletePublication, one PyTorch and one ONNX file of the version's kind, both verified and both
-- of the precision asked for.
pub publish_precision-Outcome :
    {S : Type 0} (get : String → S → Result Version) (p : Publisher S)
    (id actor reason precision : String) (s : S)
    → Outcome p actor reason precision s
        (publish_precision get (some p) id actor reason precision s)
unfolding publish_precision
publish_precision-Outcome get p id actor reason precision s =
    if_cases (Outcome p actor reason precision s)
      (not (str_eq precision "FP32") && not (str_eq precision "FP16")) (λ _. untouched refl)
      (λ _.
        if_cases (Outcome p actor reason precision s) (is_blank actor || is_blank reason)
          (λ _. untouched refl) (λ _. found-Outcome get p actor reason precision s (get id s)))
