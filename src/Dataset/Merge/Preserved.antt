-- ===== src/Dataset/Merge/Preserved.antt =====
-- A merge keeps the samples of the base as they were, and lets no image of the validation or test
-- part into the training part.
use fgvcplateform_public.Base.{
  All-append, ◌+◌, ◌≤◌, ◌≡◌, ◌≢◌, refl, sym, ap, subst, ◌∙◌, String, true, false, Option, none,
  List, [], ◌∷◌, ◌++◌, All, arith, length, ◌==◌,
}
use fgvcplateform_public.Base.Assoc.{Assoc, lookup}
use fgvcplateform_public.Base.Value.{Values}
use mathlib.Core.List.{append_assoc, append-nil}
use fgvcplateform_public.Dataset.{
  Result, ok, bind-ok, ok_inj, Bytes, Member, Snapshot, Feedback, samples_of, invalid,
}
use fgvcplateform_public.Dataset.Merge.{
  Disk, Source, Entry, Merging, start, contains, written, base_samples,
}
use fgvcplateform_public.Dataset.Merge.Additions.{index_members, merge_base, merge}
use fgvcplateform_public.Dataset.Merge.Growth.{again, new, Grows, here, next, merge-Merged}
use fgvcplateform_public.Dataset.Merge.Repeats.{Unrepeated, Unrepeated-snoc, length-snoc}
use fgvcplateform_public.Dataset.Samples.{Samples}
use fgvcplateform_public.Dataset.Merge.Placed.{indexed-Indexes, base_samples-Samples}
use fgvcplateform_public.Dataset.Merge.Kept.{
  baseline, held_out, Covers, written-Covers, Keeps, base_samples-Keeps,
}

-- An unknown digest is that of no image of the archive.
Covers-apart :
    (sha256 : Bytes → String) (seen : Assoc String) (es : List Entry) (d : String)
    → Covers sha256 seen es
    → lookup d seen ≡ none
    → All (λ (o : Entry). sha256 o.content ≢ d) es
Covers-apart sha256 seen [] d c unseen = tt
Covers-apart sha256 seen (e ∷ es) d c unseen = (
  (λ same. c.0 (ap (λ k. lookup k seen) same ∙ unseen)),
  Covers-apart sha256 seen es d c.1 unseen,
)

module _ (sha256 : Bytes → String) (disk : Disk) where
  -- What was added to `m₀`.
  record Extends (m₀ m : Merging) : Type 0 where
    extra : List Entry
    entries : m.entries ≡ m₀.entries ++ extra
    evaluation : m.evaluation ≡ m₀.evaluation
    apart : All (λ (e : Entry). contains m₀.evaluation (sha256 e.content) ≡ false) extra
    unrepeated : Unrepeated (λ e. sha256 e.content) m₀.entries extra
    counted : m.added ≡ m₀.added + length extra
    covers : Covers sha256 m.seen m.entries

  Extends-new :
      (m₀ m : Merging) (name label : String) (b : Bytes) (origin : Source)
      → Extends m₀ m
      → lookup (sha256 b) m.seen ≡ none
      → contains m.evaluation (sha256 b) ≡ false
      → Extends m₀ (written sha256 disk name label b true origin m)
  unfolding written
  Extends-new m₀ m name label b origin x unseen apart =
      let e : Entry = record { name = name; content = b } in
      let fresh = Covers-apart sha256 m.seen m.entries (sha256 b) x.covers unseen in
      record {
        extra = x.extra ++ e ∷ [];
        entries = ap (λ es. es ++ e ∷ []) x.entries ∙ append_assoc m₀.entries x.extra (e ∷ []);
        evaluation = x.evaluation;
        apart =
            All-append (λ (e : Entry). contains m₀.evaluation (sha256 e.content) ≡ false) x.extra
              (e ∷ []) x.apart
              (subst (λ ev. contains ev (sha256 b) ≡ false) x.evaluation apart, tt);
        unrepeated =
            Unrepeated-snoc (λ e. sha256 e.content) m₀.entries x.extra e x.unrepeated
              (subst (All (λ (o : Entry). sha256 o.content ≢ sha256 b)) x.entries fresh);
        counted = omega (arith, x.counted, length-snoc {0} x.extra e);
        covers = written-Covers sha256 disk name label b true origin m x.covers;
      }

  Grows-Extends :
      {m₀ m : Merging} → Covers sha256 m₀.seen m₀.entries → Grows sha256 disk m₀ m → Extends m₀ m
  Grows-Extends {m₀} c here = record {
    extra = [];
    entries = sym (append-nil m₀.entries);
    evaluation = refl;
    apart = tt;
    unrepeated = tt;
    counted = omega arith;
    covers = c;
  }
  Grows-Extends {m₀} c (next g (again e)) =
      let x = Grows-Extends c g in
      subst (Extends m₀) (sym e) (record {
        extra = x.extra;
        entries = x.entries;
        evaluation = x.evaluation;
        apart = x.apart;
        unrepeated = x.unrepeated;
        counted = x.counted;
        covers = x.covers;
      })
  Grows-Extends {m₀} c (next {m' = m'} g (new name label b origin fits unseen apart e)) =
      subst (Extends m₀) (sym e)
        (Extends-new m₀ m' name label b origin (Grows-Extends c g) unseen apart)

module _ (to_lower : String → String) (sha256 : Bytes → String) (disk : Disk) where
  -- What a merge of the archive `files`, whose index is `members`, and the manifest's `samples` must
  -- be.
  pub record IsPreserved (files : List Member) (members : Assoc Member) (samples : Values)
      (m : Merging) : Type 0 where
    pub kept : List Entry
    pub extra : List Entry
    -- the files of the base's samples, then the added images
    pub entries : m.entries ≡ kept ++ extra
    -- one file for each sample, with its bytes, in the directory of its split and label
    pub placed : Samples files samples kept
    -- no added image is one of validation or test
    pub apart :
        All
          (λ (e : Entry). contains (held_out sha256 members samples) (sha256 e.content) ≡ false)
          extra
    -- no added image is one of the base, or added twice
    pub unrepeated : Unrepeated (λ e. sha256 e.content) kept extra
    pub counted : m.added ≡ length extra
    pub some_added : 1 ≤ length extra

  All-apart :
      (evaluation held : List String) (es : List Entry)
      → ((d : String) → contains evaluation d ≡ contains held d)
      → All (λ (e : Entry). contains evaluation (sha256 e.content) ≡ false) es
      → All (λ (e : Entry). contains held (sha256 e.content) ≡ false) es
  All-apart evaluation held [] same a = tt
  All-apart evaluation held (e ∷ es) same a =
      (sym (same (sha256 e.content)) ∙ a.0, All-apart evaluation held es same a.1)

  preserved :
      (files : List Member) (members : Assoc Member) (samples : Values) (kept m : Merging)
      → Keeps to_lower sha256 disk members 0 samples start kept
      → Samples files samples (baseline to_lower members 0 samples)
      → Extends sha256 disk kept m
      → (m.added == 0) ≡ false
      → IsPreserved files members samples m
  preserved files members samples kept m k placed x some_added = record {
    kept = baseline to_lower members 0 samples;
    extra = x.extra;
    placed = placed;
    entries = x.entries ∙ ap (λ es. es ++ x.extra) k.entries;
    apart =
        All-apart kept.evaluation (held_out sha256 members samples) x.extra k.evaluation x.apart;
    unrepeated = subst (λ es. Unrepeated (λ e. sha256 e.content) es x.extra) k.entries x.unrepeated;
    counted = omega (arith, x.counted, k.added);
    some_added = ground (arith, x.counted, k.added, some_added);
  }

  -- If a merge succeeds, the new archive holds one file for each sample of the base, in their order:
  -- each has the bytes that the base's archive has under the sample's path, and stands in the
  -- directory of the sample's split and label. Then come the added images, of which there is one at
  -- least. No added image has the digest of a sample outside the training part, of
  -- any other sample, or of another added image; and added_count is the number of added images.
  pub merge-IsPreserved :
      (base : Snapshot) (files : List Member) (incoming : Option (Result (List Member)))
      (feedback : List Feedback) (members : Assoc Member) (samples : Values) (m : Merging)
      → merge to_lower sha256 disk base (ok files) incoming feedback ≡ ok m
      → index_members files [] ≡ ok members
      → samples_of (lookup "samples" base.manifest) (invalid "基础版本缺少样本清单，无法保证测试集不变") ≡ ok samples
      → IsPreserved files members samples m
  unfolding merge_base
  merge-IsPreserved base files incoming feedback members samples m h indexed listed =
      let x = merge-Merged to_lower sha256 disk base files incoming feedback h in
      let (members', p, q) = bind-ok (index_members files []) _ x.of_base in
      let (samples', r, s) = bind-ok (samples_of (lookup "samples" base.manifest) _) _ q in
      let same : members' ≡ members = ok_inj (sym p ∙ indexed) in
      let same_samples : samples' ≡ samples = ok_inj (sym r ∙ listed) in
      let read : base_samples to_lower sha256 disk members 0 samples start ≡ ok x.kept =
        subst (λ ss. base_samples to_lower sha256 disk members 0 ss start ≡ ok x.kept) same_samples
          (subst (λ ms. base_samples to_lower sha256 disk ms 0 samples' start ≡ ok x.kept) same
            s) in
      let k = base_samples-Keeps to_lower sha256 disk members 0 samples start read in
      preserved files members samples x.kept m k
        (base_samples-Samples to_lower sha256 disk files members (indexed-Indexes files indexed) 0
          samples start read)
        (Grows-Extends sha256 disk (k.covers tt) x.grows) x.some_added
