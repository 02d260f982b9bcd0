-- ===== src/Dataset/Build/Placed.antt =====
-- The files that a build takes over from the base.
use fgvcplateform_public.Base.{
  ℕ, suc, ◌≡◌, refl, sym, ap, subst, ◌∙◌, String, Option, none, some, List, [], ◌∷◌, ◌++◌, All,
}
use fgvcplateform_public.Base.Assoc.{Assoc, lookup, insert}
use fgvcplateform_public.Base.Value.{
  Value, Values, Fields, null, flag, number, str, array, object, nil, cons,
}
use mathlib.Core.List.{append_assoc, append-nil, Memᴰ}
use fgvcplateform_public.Dataset.{
  Result, ok, bind-ok, refuse-ok, ok_inj, Bytes, Member, Snapshot, invalid_archive, failed,
  read_image, text_field, object_of, samples_of,
}
use fgvcplateform_public.Dataset.Merge.{Entry}
use fgvcplateform_public.Dataset.Samples.{
  Indexes, empty-Indexes, insert-Indexes, files-All, IsSample, Samples, join3-directory,
  read_image-content,
}
use fgvcplateform_public.Dataset.Build.{
  Site, Building, noted, kept_name, keep_member, keep_sample, keep_samples, members_of, keep_base,
  empty_archive,
}
use fgvcplateform_public.Dataset.Build.Held.{put-IsPut}

-- The files `kept` are those of the base's samples; without a base there are none.
abbrev pub IsBase :
    (Bytes → String) → Site → Option (Snapshot × Result (List Member)) → List Entry → Type 0
IsBase sha256 site none kept = kept ≡ []
IsBase sha256 site (some (base, archive)) kept =
    (files : List Member) × (samples : Values) × (archive ≡ ok files)
    × (samples_of (lookup "samples" base.manifest) invalid_archive ≡ ok samples)
    × Samples files samples kept

object_of-object : (raw : Value) {sample : Fields} → object_of raw ≡ ok sample → raw ≡ object sample
unfolding object_of
object_of-object (object fields) h = ap object (ok_inj h)
object_of-object null h = absurd (cc h)
object_of-object (flag b) h = absurd (cc h)
object_of-object (number n) h = absurd (cc h)
object_of-object (str s) h = absurd (cc h)
object_of-object (array xs) h = absurd (cc h)

members_of-Indexes :
    (sha256 : Bytes → String) (site : Site) (files fs : List Member) (found : Assoc Member)
    → All (λ (f : Member). Memᴰ f files) fs
    → Indexes files found
    → Indexes files (members_of sha256 site fs found)
members_of-Indexes sha256 site files [] found a x = x
members_of-Indexes sha256 site files (f ∷ fs) found a x =
    members_of-Indexes sha256 site files fs (insert f.name f found) a.1
      (insert-Indexes files f found a.0 x)

module _ (sha256 : Bytes → String) (site : Site) where
  -- What the samples add to the archive `m`.
  record Takes (files : List Member) (samples : Values) (m m' : Building) : Type 0 where
    kept : List Entry
    entries : m'.entries ≡ m.entries ++ kept
    placed : Samples files samples kept

  -- one sample
  record Takes1 (files : List Member) (sample : Fields) (m m' : Building) : Type 0 where
    entry : Entry
    entries : m'.entries ≡ m.entries ++ entry ∷ []
    placed : IsSample files sample entry

  keep_member-Takes1 :
      (files : List Member) (members : Assoc Member) (x : Indexes files members) (i : ℕ)
      (sample : Fields) (o : Option Member) (m : Building) {m' : Building}
      → lookup (text_field "path" sample) members ≡ o
      → keep_member sha256 site i
          (text_field "path" sample)
          (text_field "label" sample)
          (text_field "split" sample)
          o
          m
        ≡ ok m'
      → Takes1 files sample m m'
  unfolding keep_member
  keep_member-Takes1 files members x i sample none m e h = absurd (cc h)
  keep_member-Takes1 files members x i sample (some member) m {m'} e h =
      let label = text_field "label" sample in
      let partition = text_field "split" sample in
      let name = kept_name partition label i (text_field "path" sample) in
      let (b, read, written) = bind-ok (read_image member.content) _ h in
      let p =
        put-IsPut sha256 site name label partition b (noted (sha256 b) label partition m) m'
          written in
      record {
        entry = record { name = name; content = b };
        entries = ap (λ (w : Building). w.entries) p.result;
        placed = record {
          member = member;
          found = (x (text_field "path" sample) member e).0;
          named = (x (text_field "path" sample) member e).1;
          content = read_image-content member.content read;
          placed = join3-directory partition label _;
        };
      }

  then_Takes :
      (files : List Member) (sample : Fields) (rest : Values) (m m₁ m' : Building)
      → Takes1 files sample m m₁
      → Takes files rest m₁ m'
      → Takes files (cons (object sample) rest) m m'
  then_Takes files sample rest m m₁ m' one more = record {
    kept = one.entry ∷ more.kept;
    entries = more.entries ∙ ap (λ es. es ++ more.kept) one.entries ∙ append_assoc m.entries _ _;
    placed = (one.placed, more.placed);
  }

  keep_samples-Takes :
      (files : List Member) (members : Assoc Member) (x : Indexes files members) (i : ℕ)
      (samples : Values) (m m' : Building)
      → keep_samples sha256 site members i samples m ≡ ok m'
      → Takes files samples m m'
  unfolding keep_samples keep_sample
  keep_samples-Takes files members x i nil m m' h =
      subst (Takes files nil m) (ok_inj h)
        (record { kept = []; entries = sym (append-nil m.entries); placed = tt })
  keep_samples-Takes files members x i (cons raw rest) m m' h =
      let (here, later) = refuse-ok (site.cancelled i) failed _ h in
      let (sample, is_object, kept) = bind-ok (object_of raw) _ later in
      let (m₁, one, more) = bind-ok (keep_sample sha256 site members i sample m) _ kept in
      subst (λ v. Takes files (cons v rest) m m') (sym (object_of-object raw is_object))
        (then_Takes files sample rest m m₁ m'
          (keep_member-Takes1 files members x i sample (lookup (text_field "path" sample) members) m
            refl (refuse-ok _ _ _ one).1)
          (keep_samples-Takes files members x (suc i) rest m₁ m' more))

  pub keep_base-IsBase :
      (base : Option (Snapshot × Result (List Member))) (m : Building)
      → keep_base sha256 site base empty_archive ≡ ok m
      → IsBase sha256 site base m.entries
  unfolding keep_base
  keep_base-IsBase none m h = sym (ap (λ (w : Building). w.entries) (ok_inj h))
  keep_base-IsBase (some (base, archive)) m h =
      let (files, is_open, rest) = bind-ok archive _ h in
      let (samples, are_samples, kept) =
        bind-ok (samples_of (lookup "samples" base.manifest) invalid_archive) _ rest in
      let x =
        members_of-Indexes sha256 site files files [] (files-All files) (empty-Indexes files) in
      let t =
        keep_samples-Takes files (members_of sha256 site files []) x 0 samples empty_archive m
          kept in
      (files, samples, is_open, are_samples, subst (Samples files samples) (sym t.entries) t.placed)
