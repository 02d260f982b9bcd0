-- ===== src/Dataset/Merge/Placed.antt =====
-- The files of the base after a merge stand where the manifest says.
use text.Mathlib.Text.{starts_with}
use mathlib.Core.List.{Memᴰ}
use fgvcplateform_public.Base.{
  ℕ, suc, ◌≡◌, refl, subst, String, true, Option, none, some, List, [], ◌∷◌, All, Bool-cases, inl,
  inr,
}
use fgvcplateform_public.Base.Assoc.{Assoc, lookup, insert}
use fgvcplateform_public.Base.Value.{
  Values, Fields, null, flag, number, str, array, object, nil, cons,
}
use fgvcplateform_public.Dataset.{
  ok, bind-ok, refuse-ok, ok_inj, Bytes, Member, read_image, text_field, object_of,
}
use fgvcplateform_public.Dataset.Merge.{
  Disk, Merging, base_name, base_member, base_sample, base_samples, join3,
}
use fgvcplateform_public.Dataset.Merge.Additions.{index_members}
use fgvcplateform_public.Dataset.Merge.Kept.{sample_image, baseline}
use fgvcplateform_public.Dataset.Samples.{
  directory, IsSample, Indexes, empty-Indexes, insert-Indexes, files-All, Samples, join3-directory,
  read_image-content,
}

base_name-directory :
    (to_lower : String → String) (i : ℕ) (old_path label split : String)
    → starts_with (base_name to_lower i old_path label split) (directory split label) ≡ true
unfolding base_name join3
base_name-directory to_lower i old_path label split =
    elim (Bool-cases (starts_with old_path (join3 split label ""))) [
      | inl p ↦ rw p p
      | inr p ↦ rw p (join3-directory split label _)
    ]

index_members-Indexes :
    (files fs : List Member) (found : Assoc Member) {members : Assoc Member}
    → All (λ (f : Member). Memᴰ f files) fs
    → Indexes files found
    → index_members fs found ≡ ok members
    → Indexes files members
unfolding index_members
index_members-Indexes files [] found a x h = subst (Indexes files) (ok_inj h) x
index_members-Indexes files (f ∷ fs) found a x h =
    index_members-Indexes files fs (insert f.name f found) a.1 (insert-Indexes files f found a.0 x)
      (refuse-ok _ _ _ h).1

-- What merge_base reads of the archive.
pub indexed-Indexes :
    (files : List Member) {members : Assoc Member}
    → index_members files [] ≡ ok members
    → Indexes files members
indexed-Indexes files = index_members-Indexes files files [] (files-All files) (empty-Indexes files)

module _ (to_lower : String → String) (sha256 : Bytes → String) (disk : Disk) (files : List Member)
    (members : Assoc Member) (x : Indexes files members) where
  base_member-IsSample :
      (i : ℕ) (sample : Fields) (o : Option Member) (m : Merging) {m' : Merging}
      → lookup (text_field "path" sample) members ≡ o
      → base_member to_lower sha256 disk i
          (text_field "path" sample)
          (text_field "label" sample)
          (text_field "split" sample)
          o
          m
        ≡ ok m'
      → IsSample files sample (record {
        name =
            base_name to_lower i
              (text_field "path" sample)
              (text_field "label" sample)
              (text_field "split" sample);
        content = sample_image members sample;
      })
  unfolding base_member
  base_member-IsSample i sample none m e h = absurd (cc h)
  base_member-IsSample i sample (some member) m e h =
      let (b, read, more) = bind-ok (read_image member.content) _ h in
      let bytes = read_image-content member.content read in
      record {
        member = member;
        found = (x (text_field "path" sample) member e).0;
        named = (x (text_field "path" sample) member e).1;
        content = rw e (rw bytes refl);
        placed =
            base_name-directory to_lower i (text_field "path" sample) (text_field "label" sample)
              (text_field "split" sample);
      }

  pub base_samples-Samples :
      (i : ℕ) (samples : Values) (m : Merging) {m' : Merging}
      → base_samples to_lower sha256 disk members i samples m ≡ ok m'
      → Samples files samples (baseline to_lower members i samples)
  unfolding base_samples object_of base_sample
  base_samples-Samples i nil m h = tt
  base_samples-Samples i (cons (object sample) rest) m h =
      let (m₁, p, q) = bind-ok (base_sample to_lower sha256 disk members i sample m) _ h in
      (
        base_member-IsSample i sample (lookup (text_field "path" sample) members) m refl
            (refuse-ok _ _ _ p).1,
        base_samples-Samples (suc i) rest m₁ q,
      )
  base_samples-Samples i (cons null rest) m h = absurd (cc h)
  base_samples-Samples i (cons (flag b) rest) m h = absurd (cc h)
  base_samples-Samples i (cons (number n) rest) m h = absurd (cc h)
  base_samples-Samples i (cons (str s) rest) m h = absurd (cc h)
  base_samples-Samples i (cons (array xs) rest) m h = absurd (cc h)
