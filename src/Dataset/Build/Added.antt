-- ===== src/Dataset/Build/Added.antt =====
-- What the new images add to the archive of the base, within the limits.
use fgvcplateform_public.Base.{
  ℕ, suc, ◌≤◌, ◌≡◌, refl, sym, ap, subst, ◌∙◌, String, Bool, not, ◌&&◌, ◌||◌, Option, none, some,
  List, [], ◌∷◌, ◌++◌, All, str_eq, if_cases, Bool-cases, inl, inr, ltb, length, ◌==◌, any,
}
use fgvcplateform_public.Base.Assoc.{lookup, insert, lookup-insert}
use mathlib.Core.List.{append_assoc}
use fgvcplateform_public.Dataset.{
  ok, bind-ok, ok_inj, Bytes, max_upload_images, max_upload_bytes, read_image,
}
use fgvcplateform_public.Dataset.Merge.{Entry, or_default}
use fgvcplateform_public.Dataset.Split.{SplitPlan, Counts, weight}
use fgvcplateform_public.Dataset.Build.{Pending, Site, Building, put}
use fgvcplateform_public.Dataset.Build.Additions.{
  Gathering, sort_items, allocation, part_of, Origin, Report, item_name, sourced, classed, warned,
  put_items, put_class, put_classes,
}
use fgvcplateform_public.Dataset.Build.Held.{put-IsPut}
use fgvcplateform_public.Dataset.Build.Gathered.{IsFresh, IsGathered, sort_items-All}

-- What the archive and the report are, relative to the archive `base` of the base.
pub record IsAdded (base : Building) (w : Building × Report) : Type 0 where
  pub few : w.0.count ≤ max_upload_images
  pub small : w.0.total ≤ max_upload_bytes
  pub rest : List Entry
  pub entries : w.0.entries ≡ base.entries ++ rest
  pub origins :
      (name : String) (o : Origin)
      → lookup name w.1.sample_sources ≡ some o
      → lookup o.sha256 base.seen ≡ none

module _ (sha256 : Bytes → String) (digest_of : String → String) (site : Site) where
  -- one new image
  put-IsAdded :
      (base : Building) (name label partition : String) (b : Bytes) (item : Pending)
      (m m' : Building) (r : Report)
      → IsFresh base.seen item
      → IsAdded base (m, r)
      → put sha256 site name label partition b m ≡ ok m'
      → IsAdded base (m', sourced name item r)
  put-IsAdded base name label partition b item m m' r fresh i h =
      let p = put-IsPut sha256 site name label partition b m m' h in
      let o : Origin = record { annotation_task_id = item.sample.id; sha256 = item.digest } in
      let e : Entry = record { name = name; content = b } in
      subst (λ n. IsAdded base (n, sourced name item r)) (sym p.result)
        (record {
          few = p.few;
          small = p.small;
          rest = i.rest ++ e ∷ [];
          entries = ap (λ es. es ++ e ∷ []) i.entries ∙ append_assoc base.entries i.rest (e ∷ []);
          origins = λ n x k. elim (Bool-cases (str_eq name n)) [
            | inl q ↦
                let w : lookup n (insert name o r.sample_sources) ≡ some o =
                  lookup-insert name n o r.sample_sources ∙ rw q refl in
                let same : some o ≡ some x = sym w ∙ k in
                subst (λ y. lookup (digest_or o y) base.seen ≡ none) same fresh
            | inr q ↦
                let w : lookup n (insert name o r.sample_sources) ≡ lookup n r.sample_sources =
                  lookup-insert name n o r.sample_sources ∙ rw q refl in
                i.origins n x (sym w ∙ k)
          ];
        })
    where
      digest_or : Origin → Option Origin → String
      digest_or d none = d.sha256
      digest_or d (some y) = y.sha256

  put_items-IsAdded :
      (base : Building) (label : String) (c : Counts) (i : ℕ) (items : List Pending) (m : Building)
      (r : Report) (w' : Building × Report)
      → All (IsFresh base.seen) items
      → IsAdded base (m, r)
      → put_items sha256 digest_of site label c i items (m, r) ≡ ok w'
      → IsAdded base w'
  unfolding put_items
  put_items-IsAdded base label c i [] m r w' fresh a h = subst (IsAdded base) (ok_inj h) a
  put_items-IsAdded base label c i (item ∷ items) m r w' fresh a h =
      let (b, read, written) = bind-ok (read_image (site.opened item.sample.image)) _ h in
      let name = item_name (part_of c i) label item in
      let (m₁, one, more) = bind-ok (put sha256 site name label (part_of c i) b m) _ written in
      put_items-IsAdded base label c (suc i) items m₁ (sourced name item r) w' fresh.1
        (put-IsAdded base name label (part_of c i) b item m m₁ r fresh.0 a one) more

  -- the notes on a class leave the sources as they are
  noted_sources :
      (plan : SplitPlan) (train_only : Bool) (existing : List String) (label : String) (n : ℕ)
      (c : Counts) (r : Report)
      → (warned plan train_only label c (classed existing label n r)).sample_sources
        ≡ r.sample_sources
  noted_sources plan train_only existing label n c r =
      if_cases
        (λ (x : Report). (warned plan train_only label c x).sample_sources ≡ r.sample_sources)
        (any (λ l. str_eq l label) existing) (λ _. warned_sources _) (λ _. warned_sources _)
    where
      warned_sources :
          (x : Report) → (warned plan train_only label c x).sample_sources ≡ x.sample_sources
      warned_sources x =
          if_cases (λ (y : Report). y.sample_sources ≡ x.sample_sources)
            (not train_only
              && ((ltb 0 (weight plan.val) && c.validated == 0)
                  || (ltb 0 (weight plan.test) && c.tested == 0)))
            (λ _. refl) (λ _. refl)

  pub put_classes-IsAdded :
      (base : Building) (plan : SplitPlan) (train_only : Bool) (g : Gathering)
      (labels : List String) (m : Building) (r : Report) (w' : Building × Report)
      → IsGathered base.seen g
      → IsAdded base (m, r)
      → put_classes sha256 digest_of site plan train_only g.groups labels (m, r) ≡ ok w'
      → IsAdded base w'
  unfolding put_classes put_class
  put_classes-IsAdded base plan train_only g [] m r w' gathered a h =
      subst (IsAdded base) (ok_inj h) a
  put_classes-IsAdded base plan train_only g (label ∷ labels) m r w' gathered a h =
      let group = or_default [] (lookup label g.groups) in
      let items = sort_items digest_of plan.seed group in
      let c = allocation plan train_only (length items) in
      let r₁ = warned plan train_only label c (classed m.existing label (length items) r) in
      let (w₁, one, more) = bind-ok (put_items sha256 digest_of site label c 0 items (m, r₁)) _ h in
      let begun : IsAdded base (m, r₁) = record {
        few = a.few;
        small = a.small;
        rest = a.rest;
        entries = a.entries;
        origins = λ name o k. a.origins name o (
            ap (lookup name)
              (sym (noted_sources plan train_only m.existing label (length items) c r))
            ∙ k);
      } in
      put_classes-IsAdded base plan train_only g labels w₁.0 w₁.1 w' gathered
        (put_items-IsAdded base label c 0 items m r₁ w₁
          (sort_items-All digest_of site (IsFresh base.seen) plan group (gathered.fresh label))
          begun one)
        more
