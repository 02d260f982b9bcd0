-- ===== src/Dataset/Build/Held.antt =====
-- What a successful build keeps of the base, and what it adds.
use fgvcplateform_public.Base.{
  ℕ, suc, ◌+◌, ◌≤◌, ◌≡◌, ◌≢◌, refl, sym, subst, ◌∙◌, String, not, ◌||◌, Option, none, some, List,
  [], All, All-append, All-map, str_eq, eq_refl, arith, if_cases, Bool-cases, inl, inr, ltb, length,
}
use fgvcplateform_public.Base.Assoc.{Assoc, lookup, insert, lookup-insert}
use fgvcplateform_public.Base.Value.{Values, Fields, cons, nil}
use fgvcplateform_public.Dataset.{
  Result, ok, bind-ok, refuse-ok, ok_inj, Bytes, Member, Snapshot, max_upload_images,
  max_upload_bytes, invalid_archive, failed, read_image, text_field, object_of, samples_of,
}
use fgvcplateform_public.Dataset.Merge.{Entry}
use fgvcplateform_public.Dataset.Build.{
  Identity, Site, Building, put_entry, remember, noted, kept_name, put, keep_member, keep_sample,
  keep_samples, members_of, keep_base,
}

abbrev pub Known : Assoc Identity → String → Type 0
Known seen d = lookup d seen ≢ none

pub insert-Known :
    (d k : String) (v : Identity) (seen : Assoc Identity) → Known seen d → Known (insert k v seen) d
insert-Known d k v seen known h = elim (Bool-cases (str_eq k d)) [
  | inl p ↦
      let e : lookup d (insert k v seen) ≡ some v = lookup-insert k d v seen ∙ rw p refl in
      cc (e, h)
  | inr p ↦
      let e : lookup d (insert k v seen) ≡ lookup d seen = lookup-insert k d v seen ∙ rw p refl in
      known (sym e ∙ h)
]

pub inserted-Known : (d : String) (v : Identity) (seen : Assoc Identity) → Known (insert d v seen) d
inserted-Known d v seen h =
    let e : lookup d (insert d v seen) ≡ some v = lookup-insert d d v seen ∙ rw (eq_refl d) refl in
    cc (e, h)

remember-Known :
    (d digest label partition : String) (o : Option Identity) (seen : Assoc Identity)
    → Known seen d
    → Known (remember digest label partition o seen) d
unfolding remember
remember-Known d digest label partition none seen k = insert-Known d digest _ seen k
remember-Known d digest label partition (some prior) seen k =
    if_cases (λ s. Known s d) (not (str_eq prior.label label)) (λ _. insert-Known d digest _ seen k)
      (λ _.
        if_cases (λ s. Known s d) (not (str_eq partition "train"))
          (λ _. insert-Known d digest _ seen k) (λ _. k))

remembered-Known :
    (digest label partition : String) (o : Option Identity) (seen : Assoc Identity)
    → lookup digest seen ≡ o
    → Known (remember digest label partition o seen) digest
unfolding remember
remembered-Known digest label partition none seen e = inserted-Known digest _ seen
remembered-Known digest label partition (some prior) seen e =
    if_cases (λ s. Known s digest) (not (str_eq prior.label label))
      (λ _. inserted-Known digest _ seen)
      (λ _.
        if_cases (λ s. Known s digest) (not (str_eq partition "train"))
          (λ _. inserted-Known digest _ seen) (λ _ h. cc (e, h)))

module _ (sha256 : Bytes → String) (site : Site) where
  -- The limits hold, and every image of the archive is known by its digest.
  pub record IsSound (m : Building) : Type 0 where
    pub few : m.count ≤ max_upload_images
    pub small : m.total ≤ max_upload_bytes
    pub known : All (λ (e : Entry). Known m.seen (sha256 e.content)) m.entries

  pub record IsPut (name label partition : String) (b : Bytes) (m m' : Building) : Type 0 where
    pub few : m.count + 1 ≤ max_upload_images
    pub small : m.total + length b ≤ max_upload_bytes
    pub result : m' ≡ put_entry name label partition b m

  pub put-IsPut :
      (name label partition : String) (b : Bytes) (m m' : Building)
      → put sha256 site name label partition b m ≡ ok m'
      → IsPut name label partition b m m'
  unfolding put
  put-IsPut name label partition b m m' h =
      let p =
        refuse-ok (ltb max_upload_images (m.count + 1) || ltb max_upload_bytes (m.total + length b))
          invalid_archive _ h in
      let q = refuse-ok (site.zip_fails m.count) failed _ p.1 in
      let limits = p.0 in
      record {
        few = ground (arith, limits);
        small = ground (arith, limits);
        result = sym (ok_inj q.1);
      }

  keep_member-IsSound :
      (i : ℕ) (original label partition : String) (o : Option Member) (m m' : Building)
      → IsSound m
      → keep_member sha256 site i original label partition o m ≡ ok m'
      → IsSound m'
  unfolding keep_member
  keep_member-IsSound i original label partition none m m' s h = absurd (cc h)
  keep_member-IsSound i original label partition (some member) m m' s h =
      let (b, read, written) = bind-ok (read_image member.content) _ h in
      let n = noted (sha256 b) label partition m in
      let p = put-IsPut (kept_name partition label i original) label partition b n m' written in
      subst IsSound (sym p.result) (record {
        few = p.few;
        small = p.small;
        known =
            All-append _ m.entries _
              (All-map _ _ m.entries
                (λ e k.
                  remember-Known (sha256 e.content) (sha256 b) label partition
                    (lookup (sha256 b) m.seen) m.seen k)
                s.known)
              (
                remembered-Known (sha256 b) label partition (lookup (sha256 b) m.seen) m.seen refl,
                tt,
              );
      })

  keep_sample-IsSound :
      (members : Assoc Member) (i : ℕ) (row : Fields) (m m' : Building)
      → IsSound m
      → keep_sample sha256 site members i row m ≡ ok m'
      → IsSound m'
  unfolding keep_sample
  keep_sample-IsSound members i row m m' s h =
      keep_member-IsSound i (text_field "path" row) (text_field "label" row)
        (text_field "split" row) (lookup (text_field "path" row) members) m m' s
        (refuse-ok _ _ _ h).1

  keep_samples-IsSound :
      (members : Assoc Member) (i : ℕ) (samples : Values) (m m' : Building)
      → IsSound m
      → keep_samples sha256 site members i samples m ≡ ok m'
      → IsSound m'
  unfolding keep_samples
  keep_samples-IsSound members i nil m m' s h = subst IsSound (ok_inj h) s
  keep_samples-IsSound members i (cons raw rest) m m' s h =
      let (here, later) = refuse-ok (site.cancelled i) failed _ h in
      let (row, is_row, kept) = bind-ok (object_of raw) _ later in
      let (m₁, one, more) = bind-ok (keep_sample sha256 site members i row m) _ kept in
      keep_samples-IsSound members (suc i) rest m₁ m' (keep_sample-IsSound members i row m m₁ s one)
        more

  pub keep_base-IsSound :
      (base : Option (Snapshot × Result (List Member))) (m m' : Building)
      → IsSound m
      → keep_base sha256 site base m ≡ ok m'
      → IsSound m'
  unfolding keep_base
  keep_base-IsSound none m m' s h = subst IsSound (ok_inj h) s
  keep_base-IsSound (some (base, archive)) m m' s h =
      let (files, is_open, rest) = bind-ok archive _ h in
      let (samples, are_samples, kept) =
        bind-ok (samples_of (lookup "samples" base.manifest) invalid_archive) _ rest in
      keep_samples-IsSound (members_of sha256 site files []) 0 samples m m' s kept
