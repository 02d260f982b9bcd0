-- ===== src/Dataset/Merge/Kept.antt =====
-- The samples of the base after a merge: what the archive should hold of them, and which digests
-- they keep out of the training part.
use fgvcplateform_public.Base.{
  ℕ, suc, ◌≡◌, ◌≢◌, refl, sym, ap, subst, ◌∙◌, String, Bool, false, not, ◌||◌, Option, none, some,
  List, [], ◌∷◌, ◌++◌, All, All-append, str_eq, arith, Bool-cases, inl, inr, eq_iff, if◌then◌else◌,
}
use fgvcplateform_public.Base.Assoc.{Assoc, lookup, lookup-insert}
use fgvcplateform_public.Base.Value.{
  Values, Fields, null, flag, number, str, array, object, nil, cons,
}
use mathlib.Core.List.{append_assoc, append-nil}
use fgvcplateform_public.Dataset.{
  Result, ok, err, bind-ok, refuse-ok, ok_inj, Bytes, Member, read_image, text_field, object_of,
}
use fgvcplateform_public.Dataset.Merge.{
  Disk, Source, no_source, Entry, Merging, contains, mark_seen, written, write, base_name,
  evaluated, base_member, base_sample, base_samples,
}
use fgvcplateform_public.Dataset.Merge.Growth.{write_new-Fits}

abbrev pub bytes_of : Result Bytes → Bytes
bytes_of (ok b) = b
bytes_of (err e) = []

abbrev pub image_of : Option Member → Bytes
image_of none = []
image_of (some member) = bytes_of member.content

-- a sample's file
abbrev pub sample_image : Assoc Member → Fields → Bytes
sample_image members sample = image_of (lookup (text_field "path" sample) members)

-- The files of the new archive that come from the base: each sample's, under its own split.
abbrev pub baseline : (String → String) → Assoc Member → ℕ → Values → List Entry
baseline to_lower members i nil = []
baseline to_lower members i (cons (object sample) rest) =
    record {
      name =
          base_name to_lower i (text_field "path" sample) (text_field "label" sample)
            (text_field "split" sample);
      content = sample_image members sample;
    }
    ∷ baseline to_lower members (suc i) rest
baseline to_lower members i (cons _ rest) = baseline to_lower members (suc i) rest

-- The digests of the samples that are not for training.
abbrev pub held_out : (Bytes → String) → Assoc Member → Values → List String
held_out sha256 members nil = []
held_out sha256 members (cons (object sample) rest) =
    if str_eq (text_field "split" sample) "train"
    then held_out sha256 members rest
    else sha256 (sample_image members sample) ∷ held_out sha256 members rest
held_out sha256 members (cons _ rest) = held_out sha256 members rest

-- Every image of the archive is known by its digest.
abbrev pub Covers : (Bytes → String) → Assoc String → List Entry → Type 0
Covers sha256 seen es = All (λ (e : Entry). lookup (sha256 e.content) seen ≢ none) es

marked :
    (digest other label : String) (known : Option String) (seen : Assoc String)
    → lookup digest seen ≡ known
    → lookup other (mark_seen digest label known seen) ≡ none
    → (lookup other seen ≡ none) × (str_eq digest other ≡ false)
unfolding mark_seen
marked digest other label none seen known h = ground (arith, lookup-insert digest other label seen)
marked digest other label (some old) seen known h =
    ground (arith, lookup-insert digest other "" seen, eq_iff digest other)

Covers-mark :
    (sha256 : Bytes → String) (digest label : String) (seen : Assoc String) (es : List Entry)
    → Covers sha256 seen es
    → Covers sha256 (mark_seen digest label (lookup digest seen) seen) es
Covers-mark sha256 digest label seen [] c = tt
Covers-mark sha256 digest label seen (e ∷ es) c = (
  (λ h. c.0 (marked digest (sha256 e.content) label (lookup digest seen) seen refl h).0),
  Covers-mark sha256 digest label seen es c.1,
)

module _ (sha256 : Bytes → String) (disk : Disk) where
  -- One more entry is known like the others.
  pub written-Covers :
      (name label : String) (b : Bytes) (addition : Bool) (origin : Source) (m : Merging)
      → Covers sha256 m.seen m.entries
      → Covers sha256
          (written sha256 disk name label b addition origin m).seen
          (written sha256 disk name label b addition origin m).entries
  unfolding written
  written-Covers name label b addition origin m c =
      All-append _ m.entries _ (Covers-mark sha256 (sha256 b) label m.seen m.entries c) (
        (λ h.
            let p = marked (sha256 b) (sha256 b) label (lookup (sha256 b) m.seen) m.seen refl h in
            let q = (eq_iff (sha256 b) (sha256 b)).1 refl in cc (p.1, q)),
        tt,
      )

read_image-bytes :
    (content : Result Bytes) {b : Bytes} → read_image content ≡ ok b → b ≡ bytes_of content
unfolding read_image
read_image-bytes (ok b) h = sym (ok_inj (refuse-ok _ _ _ h).1)
read_image-bytes (err e) h = cc

module _ (to_lower : String → String) (sha256 : Bytes → String) (disk : Disk)
    (members : Assoc Member) where
  -- What the samples from the `i`th on add to the state `m`.
  pub record Keeps (i : ℕ) (samples : Values) (m m' : Merging) : Type 0 where
    pub entries : m'.entries ≡ m.entries ++ baseline to_lower members i samples
    pub added : m'.added ≡ m.added
    pub evaluation :
        (d : String)
        → contains m'.evaluation d
          ≡ (contains m.evaluation d || contains (held_out sha256 members samples) d)
    pub covers : Covers sha256 m.seen m.entries → Covers sha256 m'.seen m'.entries

  -- one sample
  pub record Keeps1 (i : ℕ) (sample : Fields) (m m' : Merging) : Type 0 where
    pub entry :
        m'.entries
        ≡ m.entries
          ++ record {
            name =
                base_name to_lower i
                  (text_field "path" sample)
                  (text_field "label" sample)
                  (text_field "split" sample);
            content = sample_image members sample;
          }
            ∷ []
    pub added : m'.added ≡ m.added
    pub evaluation : m'.evaluation ≡ (
        if not (str_eq (text_field "split" sample) "train")
        then sha256 (sample_image members sample) ∷ m.evaluation
        else m.evaluation)
    pub covers : Covers sha256 m.seen m.entries → Covers sha256 m'.seen m'.entries

  kept_name : ℕ → Fields → String
  kept_name i sample =
      base_name to_lower i (text_field "path" sample) (text_field "label" sample)
        (text_field "split" sample)

  after_sample : ℕ → Fields → Merging → Merging
  after_sample i sample m =
      evaluated to_lower sha256 disk (text_field "split" sample) (sample_image members sample) (
        written sha256 disk (kept_name i sample) (text_field "label" sample)
          (sample_image members sample) false no_source m)

  after_sample-Keeps1 :
      (i : ℕ) (sample : Fields) (m : Merging) → Keeps1 i sample m (after_sample i sample m)
  unfolding after_sample kept_name
  after_sample-Keeps1 i sample m =
      let c =
        written-Covers sha256 disk (kept_name i sample) (text_field "label" sample)
          (sample_image members sample) false no_source m in
      elim (Bool-cases (str_eq (text_field "split" sample) "train")) [
        | inl p ↦ record {
          entry = rw p (unfold written in refl);
          added = rw p (unfold written in refl);
          evaluation = rw p (unfold written in refl);
          covers = rw p c;
        }
        | inr p ↦ record {
          entry = rw p (unfold written in refl);
          added = rw p (unfold written in refl);
          evaluation = rw p (unfold written in refl);
          covers = rw p c;
        }
      ]

  write-written :
      (name label : String) (b : Bytes) (m : Merging) {m' : Merging}
      → write sha256 disk name label b false no_source m ≡ ok m'
      → m' ≡ written sha256 disk name label b false no_source m
  unfolding write
  write-written name label b m h =
      let running = refuse-ok (disk.cancelled m.calls) _ _ h in
      (write_new-Fits sha256 disk name label b false no_source m running.1).1

  base_member-Keeps1 :
      (i : ℕ) (sample : Fields) (found : Option Member) (m : Merging) {m' : Merging}
      → lookup (text_field "path" sample) members ≡ found
      → base_member to_lower sha256 disk i
          (text_field "path" sample)
          (text_field "label" sample)
          (text_field "split" sample)
          found
          m
        ≡ ok m'
      → Keeps1 i sample m m'
  unfolding base_member after_sample kept_name
  base_member-Keeps1 i sample none m e h = cc
  base_member-Keeps1 i sample (some member) m {m'} e h =
      let label = text_field "label" sample in
      let split = text_field "split" sample in
      let name = base_name to_lower i (text_field "path" sample) label split in
      let (b, p, q) = bind-ok (read_image member.content) _ h in
      let (m₁, r, s) = bind-ok (write sha256 disk name label b false no_source m) _ q in
      let same : b ≡ sample_image members sample =
        read_image-bytes member.content p ∙ sym (ap image_of e) in
      let done : evaluated to_lower sha256 disk split b m₁ ≡ after_sample i sample m =
        cc (same, write-written name label b m r) in
      subst (Keeps1 i sample m) (sym done ∙ ok_inj s) (after_sample-Keeps1 i sample m)

  base_sample-Keeps1 :
      (i : ℕ) (sample : Fields) (m : Merging) {m' : Merging}
      → base_sample to_lower sha256 disk members i sample m ≡ ok m'
      → Keeps1 i sample m m'
  unfolding base_sample
  base_sample-Keeps1 i sample m h =
      base_member-Keeps1 i sample (lookup (text_field "path" sample) members) m refl
        (refuse-ok _ _ _ h).1

  -- one sample, then the rest
  then_Keeps :
      (i : ℕ) (sample : Fields) (rest : Values) (m m₁ m' : Merging)
      → Keeps1 i sample m m₁
      → Keeps (suc i) rest m₁ m'
      → Keeps i (cons (object sample) rest) m m'
  then_Keeps i sample rest m m₁ m' k ks = record {
    entries =
        ks.entries
        ∙ ap (λ es. es ++ baseline to_lower members (suc i) rest) k.entry
        ∙ append_assoc m.entries _ _;
    added = ks.added ∙ k.added;
    evaluation = λ d. ground (arith, ks.evaluation d, k.evaluation);
    covers = λ c. ks.covers (k.covers c);
  }

  pub base_samples-Keeps :
      (i : ℕ) (samples : Values) (m : Merging) {m' : Merging}
      → base_samples to_lower sha256 disk members i samples m ≡ ok m'
      → Keeps i samples m m'
  unfolding base_samples object_of
  base_samples-Keeps i nil m h = subst (Keeps i nil m) (ok_inj h) (record {
    entries = sym (append-nil m.entries);
    added = refl;
    evaluation = λ d. ground arith;
    covers = λ c. c;
  })
  base_samples-Keeps i (cons (object sample) rest) m {m'} h =
      let (m₁, p, q) = bind-ok (base_sample to_lower sha256 disk members i sample m) _ h in
      then_Keeps i sample rest m m₁ m' (base_sample-Keeps1 i sample m p)
        (base_samples-Keeps (suc i) rest m₁ q)
  base_samples-Keeps i (cons null rest) m h = cc
  base_samples-Keeps i (cons (flag b) rest) m h = cc
  base_samples-Keeps i (cons (number n) rest) m h = cc
  base_samples-Keeps i (cons (str s) rest) m h = cc
  base_samples-Keeps i (cons (array xs) rest) m h = cc
