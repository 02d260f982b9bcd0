-- ===== src/Dataset/Samples.antt =====
-- What the archive of a version should hold of a manifest's samples, whatever names the builder and
-- the merge give the files.
use Prim.Native.String.{◌++◌ as str_append}
use text.Mathlib.Text.{starts_with}
use text.Mathlib.TextLemmas.{append_assoc as text_append_assoc}
use text.Mathlib.TextPositions.{starts_with-append}
use mathlib.Core.List.{Memᴰ}
use mathlib.Core.Option.{some_inj}
use fgvcplateform_public.Base.{
  All, All-map, Bool-cases, inl, inr, str_eq, eq_iff, ◌≡◌, refl, sym, ap, subst, ◌∙◌, String, true,
  List, [], ◌∷◌, some,
}
use fgvcplateform_public.Base.Assoc.{Assoc, lookup, insert, lookup-insert}
use fgvcplateform_public.Base.Value.{Values, Fields, object, nil, cons}
use fgvcplateform_public.Dataset.{
  Result, ok, err, refuse-ok, ok_inj, Bytes, Member, read_image, text_field,
}
use fgvcplateform_public.Dataset.Merge.{Entry, join3}

-- the directory of a part and a label, with its slash
abbrev pub directory : String → String → String
directory split label = str_append split (str_append "/" (str_append label "/"))

-- The file `e` holds the bytes that the old archive `files` has under the sample's path, in the
-- directory of the sample's part and label.
pub record IsSample (files : List Member) (sample : Fields) (e : Entry) : Type 0 where
  pub member : Member
  pub found : Memᴰ member files
  pub named : member.name ≡ text_field "path" sample
  pub content : member.content ≡ ok e.content
  pub placed :
      starts_with e.name (directory (text_field "split" sample) (text_field "label" sample)) ≡ true

-- One file for each sample, in order; a sample that is no object has none.
abbrev pub Samples : List Member → Values → List Entry → Type 0
Samples files nil [] = Unit
Samples files (cons (object sample) rest) (e ∷ es) = IsSample files sample e × Samples files rest es
Samples files _ _ = ⊥

-- The index `members` has files of the archive, each under its name.
abbrev pub Indexes : List Member → Assoc Member → Type 0
Indexes files members =
    (path : String) (member : Member)
    → lookup path members ≡ some member
    → Memᴰ member files × (member.name ≡ path)

pub empty-Indexes : (files : List Member) → Indexes files []
unfolding lookup
empty-Indexes files path member h = absurd (cc h)

pub insert-Indexes :
    (files : List Member) (f : Member) (members : Assoc Member)
    → Memᴰ f files
    → Indexes files members
    → Indexes files (insert f.name f members)
insert-Indexes files f members here x path member h = elim (Bool-cases (str_eq f.name path)) [
  | inl p ↦
      let found : lookup path (insert f.name f members) ≡ some f =
        lookup-insert f.name path f members ∙ rw p refl in
      let same : f ≡ member = some_inj.0 (sym found ∙ h) in
      (
        subst (λ (m : Member). Memᴰ m files) same here,
        ap (λ (m : Member). m.name) (sym same) ∙ (eq_iff f.name path).0 p,
      )
  | inr p ↦
      let found : lookup path (insert f.name f members) ≡ lookup path members =
        lookup-insert f.name path f members ∙ rw p refl in
      x path member (sym found ∙ h)
]

-- every file of a list is in it
pub files-All : (fs : List Member) → All (λ (f : Member). Memᴰ f fs) fs
files-All [] = tt
files-All (f ∷ fs) = (
  Memᴰ.head refl,
  All-map (λ (x : Member). Memᴰ x fs) (λ (x : Member). Memᴰ x (f ∷ fs)) fs (λ x m. Memᴰ.tail m)
      (files-All fs),
)

pub join3-directory :
    (split label name : String)
    → starts_with (join3 split label name) (directory split label) ≡ true
unfolding join3
join3-directory split label name =
    subst (λ s. starts_with s (directory split label) ≡ true)
      (text_append_assoc split (str_append "/" (str_append label "/")) name
        ∙ ap (str_append split) (
            text_append_assoc "/" (str_append label "/") name
            ∙ ap (str_append "/") (text_append_assoc label "/" name)))
      (starts_with-append (directory split label) name)

pub read_image-content :
    (content : Result Bytes) {b : Bytes} → read_image content ≡ ok b → content ≡ ok b
unfolding read_image
read_image-content (ok b) h = ap ok (ok_inj (refuse-ok _ _ _ h).1)
read_image-content (err e) h = cc
