-- ===== src/Review/Routes.antt =====
-- Which submissions Validate admits.
use fgvcplateform_public.Base.{
  ◌≤◌, String, ◌≡◌, ◌≢◌, refl, ◌↔◌, ◌⊎◌, inl, inr, true, false, ◌||◌, str_eq, eq_iff, is_empty,
  byte_len, arith, Bool-cases,
}
use fgvcplateform_public.Review.{Submission, allowed, misrouted, trimmed, admits, validate}

-- The outcomes of a review and where each may send the image.
pub data Route : String → String → Type 0 where
  confirmed : Route "confirmed_label" "training_candidate"
  corrected : Route "corrected_label" "training_candidate"
  out_of_distribution : Route "ood" "ood_stress"
  bad_image : Route "bad_image" "bad_image"
  disputed : Route "uncertain" "taxonomy_dispute"
  dropped : Route "uncertain" "ignore"
  ignored : Route "ignore" "ignore"

pub record Admissible (s : Submission) : Type 0 where
  pub route : Route s.outcome s.destination
  pub named : ((s.outcome ≡ "confirmed_label") ⊎ (s.outcome ≡ "corrected_label")) → s.label ≢ ""
  pub label : byte_len s.label ≤ 512
  pub note : byte_len s.note ≤ 8192
  pub reviewer : byte_len s.reviewer ≤ 256

via :
    (s : Submission) (o d : String)
    → s.outcome ≡ o
    → s.destination ≡ d
    → Route o d
    → Route s.outcome s.destination
via s o d p q r = rw (p, q) r

routed :
    (s : Submission)
    → misrouted s.outcome s.destination (allowed s.outcome) ≡ false
    → Route s.outcome s.destination
unfolding allowed
routed s m = elim (Bool-cases (str_eq s.outcome "confirmed_label")) [
  | inl q ↦
      let e = (eq_iff s.outcome "confirmed_label").0 q in
      let t : str_eq s.destination "training_candidate" ≡ true = ground (arith, rw e at m) in
      via s "confirmed_label" "training_candidate" e
        ((eq_iff s.destination "training_candidate").0 t) confirmed
  | inr nconfirmed ↦ elim (Bool-cases (str_eq s.outcome "corrected_label")) [
    | inl q ↦
        let e = (eq_iff s.outcome "corrected_label").0 q in
        let t : str_eq s.destination "training_candidate" ≡ true = ground (arith, rw e at m) in
        via s "corrected_label" "training_candidate" e
          ((eq_iff s.destination "training_candidate").0 t) corrected
    | inr ncorrected ↦ elim (Bool-cases (str_eq s.outcome "ood")) [
      | inl q ↦
          let e = (eq_iff s.outcome "ood").0 q in
          let t : str_eq s.destination "ood_stress" ≡ true = ground (arith, rw e at m) in
          via s "ood" "ood_stress" e ((eq_iff s.destination "ood_stress").0 t) out_of_distribution
      | inr nout_of_distribution ↦ elim (Bool-cases (str_eq s.outcome "bad_image")) [
        | inl q ↦
            let e = (eq_iff s.outcome "bad_image").0 q in
            let t : str_eq s.destination "bad_image" ≡ true = ground (arith, rw e at m) in
            via s "bad_image" "bad_image" e ((eq_iff s.destination "bad_image").0 t) bad_image
        | inr nbad_image ↦ elim (Bool-cases (str_eq s.outcome "uncertain")) [
          | inl q ↦
              let e = (eq_iff s.outcome "uncertain").0 q in
              elim (Bool-cases (str_eq s.destination "taxonomy_dispute")) [
                | inl t ↦
                    via s "uncertain" "taxonomy_dispute" e
                      ((eq_iff s.destination "taxonomy_dispute").0 t) disputed
                | inr t ↦
                    let u : str_eq s.destination "ignore" ≡ true = ground (arith, rw (e, t) at m) in
                    via s "uncertain" "ignore" e ((eq_iff s.destination "ignore").0 u) dropped
              ]
          | inr nu ↦ elim (Bool-cases (str_eq s.outcome "ignore")) [
            | inl q ↦
                let e = (eq_iff s.outcome "ignore").0 q in
                let t : str_eq s.destination "ignore" ≡ true = ground (arith, rw e at m) in
                via s "ignore" "ignore" e ((eq_iff s.destination "ignore").0 t) ignored
            | inr nignored ↦
                ground
                  (arith, m, nconfirmed, ncorrected, nout_of_distribution, nbad_image, nu, nignored)
          ]
        ]
      ]
    ]
  ]
]

unnamed :
    (s : Submission)
    → admits s ≡ true
    → ((s.outcome ≡ "confirmed_label") ⊎ (s.outcome ≡ "corrected_label"))
    → s.label ≡ ""
    → ⊥
unfolding admits
unnamed s h (inl o) e = ground (arith, rw (o, e) at h)
unnamed s h (inr o) e = ground (arith, rw (o, e) at h)

admits-Admissible : (s : Submission) → admits s ≡ true → Admissible s
unfolding admits
admits-Admissible s h = record {
  route = routed s (ground (arith, h));
  named = λ o e. unnamed s h o e;
  label = ground (arith, h);
  note = ground (arith, h);
  reviewer = ground (arith, h);
}

routed_of_Route : {o d : String} → Route o d → misrouted o d (allowed o) ≡ false
unfolding allowed
routed_of_Route confirmed = refl
routed_of_Route corrected = refl
routed_of_Route out_of_distribution = refl
routed_of_Route bad_image = refl
routed_of_Route disputed = refl
routed_of_Route dropped = refl
routed_of_Route ignored = refl

admits_of_Admissible : (s : Submission) → Admissible s → admits s ≡ true
unfolding admits
admits_of_Admissible s a =
    let r = routed_of_Route a.route in
    elim (Bool-cases (is_empty s.label)) [
      | inl e ↦
          let empty : s.label ≡ "" = (eq_iff s.label "").0 e in
          let n : (str_eq s.outcome "confirmed_label" || str_eq s.outcome "corrected_label")
              ≡ false =
            elim (Bool-cases (str_eq s.outcome "confirmed_label")) [
              | inl q ↦ absurd (a.named (inl ((eq_iff s.outcome "confirmed_label").0 q)) empty)
              | inr q ↦ elim (Bool-cases (str_eq s.outcome "corrected_label")) [
                | inl k ↦ absurd (a.named (inr ((eq_iff s.outcome "corrected_label").0 k)) empty)
                | inr k ↦ rw (q, k) refl
              ]
            ] in
          rw (r, n) (ground (arith, a.label, a.note, a.reviewer))
      | inr e ↦ rw (r, e) (ground (arith, a.label, a.note, a.reviewer))
    ]

-- Validate returns no error exactly when, with the label trimmed, the outcome may send the image
-- to the destination, a confirmed or corrected label is not empty, and the texts are within their
-- limits in bytes.
pub validate-Admissible : (s : Submission) → ((validate s).0 ≡ true) ↔ Admissible (validate s).1
unfolding validate
validate-Admissible s = (admits-Admissible (trimmed s), admits_of_Admissible (trimmed s))
