-- ===== src/Dataset/Build/Gathered.antt =====
-- The groups of new images hold nothing that the base has.
use fgvcplateform_public.Base.{
  ℕ, ◌+◌, ◌≡◌, refl, sym, subst, ◌∙◌, String, not, ◌||◌, Option, none, some, List, [], ◌∷◌, ◌++◌,
  All, All-append, str_eq, if_cases, Bool-cases, inl, inr, ltb,
}
use fgvcplateform_public.Base.Assoc.{Assoc, lookup, insert, lookup-insert}
use Prim.Native.String.{compare}
use fgvcplateform_public.Dataset.{
  ok, bind-ok, refuse-ok, ok_inj, max_upload_bytes, safe_part, image_extension,
}
use fgvcplateform_public.Dataset.Merge.{or_default}
use fgvcplateform_public.Dataset.Split.{SplitPlan}
use fgvcplateform_public.Dataset.Build.{LabeledImage, Identity, Pending, Site}
use fgvcplateform_public.Dataset.Build.Additions.{
  Gathering, size_of, is_bad_image, is_held_out, pending_of, weighed, gather_known, gather,
  gather_all, is_less, rank, place_item, sort_items,
}

abbrev pub IsFresh : Assoc Identity → Pending → Type 0
IsFresh seen x = lookup x.digest seen ≡ none

-- The groups hold images that are not in the table `seen` of the base.
pub record IsGathered (seen : Assoc Identity) (g : Gathering) : Type 0 where
  pub wider : (d : String) → lookup d g.known ≡ none → lookup d seen ≡ none
  pub fresh : (label : String) → All (IsFresh seen) (or_default [] (lookup label g.groups))

gather_known-IsGathered :
    (seen : Assoc Identity) (x : LabeledImage) (o : Option Identity) (g g' : Gathering)
    → IsGathered seen g
    → lookup x.image.sha256 g.known ≡ o
    → gather_known x o g ≡ ok g'
    → IsGathered seen g'
unfolding gather_known
gather_known-IsGathered seen x (some old) g g' i e h =
    let p = refuse-ok (not (str_eq old.label x.label)) _ _ h in
    let q = refuse-ok (is_held_out old.split) _ _ p.1 in
    subst (IsGathered seen) (ok_inj q.1) (record { wider = i.wider; fresh = i.fresh })
gather_known-IsGathered seen x none g g' i e h =
    let v : Identity = record { label = x.label; split = "new" } in
    let group = or_default [] (lookup x.label g.groups) ++ pending_of x ∷ [] in
    subst (IsGathered seen) (ok_inj h) (record {
      wider = λ d k. elim (Bool-cases (str_eq x.image.sha256 d)) [
        | inl p ↦
            let w : lookup d (insert x.image.sha256 v g.known) ≡ some v =
              lookup-insert x.image.sha256 d v g.known ∙ rw p refl in
            absurd (cc (w, k))
        | inr p ↦
            let w : lookup d (insert x.image.sha256 v g.known) ≡ lookup d g.known =
              lookup-insert x.image.sha256 d v g.known ∙ rw p refl in
            i.wider d (sym w ∙ k)
      ];
      fresh = λ label. elim (Bool-cases (str_eq x.label label)) [
        | inl p ↦
            let w : lookup label (insert x.label group g.groups) ≡ some group =
              lookup-insert x.label label group g.groups ∙ rw p refl in
            subst (λ o. All (IsFresh seen) (or_default [] o)) (sym w)
              (All-append (IsFresh seen) (or_default [] (lookup x.label g.groups))
                (pending_of x ∷ []) (i.fresh x.label) (i.wider x.image.sha256 e, tt))
        | inr p ↦
            let w : lookup label (insert x.label group g.groups) ≡ lookup label g.groups =
              lookup-insert x.label label group g.groups ∙ rw p refl in
            subst (λ o. All (IsFresh seen) (or_default [] o)) (sym w) (i.fresh label)
      ];
    })

module _ (to_lower : String → String) (site : Site) where
  gather-IsGathered :
      (seen : Assoc Identity) (total : ℕ) (x : LabeledImage) (g g' : Gathering)
      → IsGathered seen g
      → gather to_lower site total x g ≡ ok g'
      → IsGathered seen g'
  unfolding gather
  gather-IsGathered seen total x g g' i h =
      let a =
        refuse-ok (not (safe_part x.label) || not (image_extension to_lower x.filename)) _ _ h in
      let b = refuse-ok (is_bad_image x) _ _ a.1 in
      let c =
        refuse-ok (ltb max_upload_bytes (g.incoming + size_of x.image.size_bytes + total)) _ _
          b.1 in
      let (done, there, k) = bind-ok (site.materialized x.image) _ c.1 in
      gather_known-IsGathered seen x (lookup x.image.sha256 g.known) (weighed x g) g'
        (record { wider = i.wider; fresh = i.fresh }) refl k

  pub gather_all-IsGathered :
      (seen : Assoc Identity) (total : ℕ) (xs : List LabeledImage) (g g' : Gathering)
      → IsGathered seen g
      → gather_all to_lower site total xs g ≡ ok g'
      → IsGathered seen g'
  unfolding gather_all
  gather_all-IsGathered seen total [] g g' i h = subst (IsGathered seen) (ok_inj h) i
  gather_all-IsGathered seen total (x ∷ xs) g g' i h =
      let (g₁, one, more) = bind-ok (gather to_lower site total x g) _ h in
      gather_all-IsGathered seen total xs g₁ g' (gather-IsGathered seen total x g g₁ i one) more

module _ (digest_of : String → String) (site : Site) where
  place_item-All :
      (P : Pending → Type 0) (plan : SplitPlan) (x : Pending) (ys : List Pending)
      → P x
      → All P ys
      → All P (place_item digest_of plan.seed x ys)
  place_item-All P plan x [] p q = (p, tt)
  place_item-All P plan x (y ∷ ys) p q =
      if_cases (All P) (is_less (compare (rank digest_of plan.seed y) (rank digest_of plan.seed x)))
        (λ _. (q.0, place_item-All P plan x ys p q.1)) (λ _. (p, q))

  pub sort_items-All :
      (P : Pending → Type 0) (plan : SplitPlan) (xs : List Pending)
      → All P xs
      → All P (sort_items digest_of plan.seed xs)
  unfolding sort_items
  sort_items-All P plan [] p = tt
  sort_items-All P plan (x ∷ xs) p =
      place_item-All P plan x (sort_items digest_of plan.seed xs) p.0 (sort_items-All P plan xs p.1)
