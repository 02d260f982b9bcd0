-- ===== src/Dataset/Merge/Limits.antt =====
-- The limits of a merged archive, and that its files have different names.
use fgvcplateform_public.Base.{
  All-append, ℕ, suc, ◌+◌, ◌≤◌, ◌≡◌, ◌≢◌, refl, sym, subst, String, Bool, true, false, Option, none,
  some, List, [], ◌∷◌, ◌++◌, All, arith, length, str_eq, Bool-cases, inl, inr, eq_iff,
}
use fgvcplateform_public.Base.Assoc.{Assoc, lookup}
use fgvcplateform_public.Base.Value.{
  Values, Fields, null, flag, number, str, array, object, nil, cons,
}
use fgvcplateform_public.Dataset.{
  Result, ok, bind-ok, refuse-ok, ok_inj, Bytes, Member, Snapshot, Feedback, samples_of,
  max_upload_images, max_upload_bytes, read_image, text_field, object_of,
}
use fgvcplateform_public.Dataset.Merge.{
  Disk, Source, no_source, Entry, Merging, start, contains, written, write, evaluated, base_name,
  base_member, base_sample, base_samples,
}
use fgvcplateform_public.Dataset.Merge.Additions.{index_members, merge_base, merge}
use fgvcplateform_public.Dataset.Merge.Growth.{
  Fits, again, new, Grows, here, next, merge-Merged, write_new-Fits,
}
use fgvcplateform_public.Dataset.Merge.Repeats.{Unrepeated, Unrepeated-snoc, length-snoc}

abbrev pub sum_sizes : List Entry → ℕ
sum_sizes [] = 0
sum_sizes (e ∷ es) = length e.content + sum_sizes es

sum_sizes-snoc :
    (es : List Entry) (e : Entry) → sum_sizes (es ++ e ∷ []) ≡ sum_sizes es + length e.content
sum_sizes-snoc [] e = omega arith
sum_sizes-snoc (d ∷ es) e = omega (arith, sum_sizes-snoc es e)

-- What `write` keeps to.
pub record IsLimited (m : Merging) : Type 0 where
  pub few : length m.entries ≤ max_upload_images
  pub small : sum_sizes m.entries ≤ max_upload_bytes
  pub distinct : Unrepeated (λ e. e.name) [] m.entries
  pub counted : m.count ≡ length m.entries
  pub summed : m.total ≡ sum_sizes m.entries
  pub named : All (λ (e : Entry). contains m.names e.name ≡ true) m.entries

named-cons :
    (name : String) (names : List String) (es : List Entry)
    → All (λ (e : Entry). contains names e.name ≡ true) es
    → All (λ (e : Entry). contains (name ∷ names) e.name ≡ true) es
named-cons name names [] a = tt
named-cons name names (e ∷ es) a = (ground (arith, a.0), named-cons name names es a.1)

named-apart :
    (name : String) (names : List String) (es : List Entry)
    → contains names name ≡ false
    → All (λ (e : Entry). contains names e.name ≡ true) es
    → All (λ (e : Entry). e.name ≢ name) es
named-apart name names [] fresh a = tt
named-apart name names (e ∷ es) fresh a =
    ((λ same. cc (same, fresh, a.0)), named-apart name names es fresh a.1)

module _ (sha256 : Bytes → String) (disk : Disk) where
  written-IsLimited :
      (name label : String) (b : Bytes) (addition : Bool) (origin : Source) (m : Merging)
      → Fits sha256 disk name b m
      → IsLimited m
      → IsLimited (written sha256 disk name label b addition origin m)
  unfolding written
  written-IsLimited name label b addition origin m f l =
      let e : Entry = record { name = name; content = b } in
      let longer = length-snoc {0} m.entries e in
      let larger = sum_sizes-snoc m.entries e in
      record {
        few = omega (arith, longer, l.counted, f.few);
        small = omega (arith, larger, l.summed, f.small);
        distinct =
            Unrepeated-snoc (λ e. e.name) [] m.entries e l.distinct
              (named-apart name m.names m.entries f.fresh_name l.named);
        counted = omega (arith, longer, l.counted);
        summed = omega (arith, larger, l.summed);
        named =
            All-append (λ (d : Entry). contains (name ∷ m.names) d.name ≡ true) m.entries (e ∷ [])
              (named-cons name m.names m.entries l.named) (rw ((eq_iff name name).1 refl) refl, tt);
      }

  Grows-IsLimited : {m₀ m : Merging} → IsLimited m₀ → Grows sha256 disk m₀ m → IsLimited m
  Grows-IsLimited l here = l
  Grows-IsLimited l (next g (again e)) =
      let x = Grows-IsLimited l g in
      subst IsLimited (sym e) (record {
        few = x.few;
        small = x.small;
        distinct = x.distinct;
        counted = x.counted;
        summed = x.summed;
        named = x.named;
      })
  Grows-IsLimited l (next {m' = m'} g (new name label b origin fits unseen apart e)) =
      subst IsLimited (sym e)
        (written-IsLimited name label b true origin m' fits (Grows-IsLimited l g))

module _ (to_lower : String → String) (sha256 : Bytes → String) (disk : Disk) where
  evaluated-IsLimited :
      (split : String) (b : Bytes) (m : Merging)
      → IsLimited m
      → IsLimited (evaluated to_lower sha256 disk split b m)
  evaluated-IsLimited split b m l = elim (Bool-cases (str_eq split "train")) [
    | inl p ↦ rw p l
    | inr p ↦ rw p (record {
      few = l.few;
      small = l.small;
      distinct = l.distinct;
      counted = l.counted;
      summed = l.summed;
      named = l.named;
    })
  ]

  base_member-IsLimited :
      (i : ℕ) (old_path label split : String) (found : Option Member) (m : Merging) {m' : Merging}
      → IsLimited m
      → base_member to_lower sha256 disk i old_path label split found m ≡ ok m'
      → IsLimited m'
  unfolding base_member write
  base_member-IsLimited i old_path label split none m l h = cc
  base_member-IsLimited i old_path label split (some member) m l h =
      let name = base_name to_lower i old_path label split in
      let (b, _, q) = bind-ok (read_image member.content) _ h in
      let (m₁, r, s) = bind-ok (write sha256 disk name label b false no_source m) _ q in
      let running = refuse-ok (disk.cancelled m.calls) _ _ r in
      let (fits, e) = write_new-Fits sha256 disk name label b false no_source m running.1 in
      subst IsLimited (ok_inj s) (
        evaluated-IsLimited split b m₁ (
          subst IsLimited (sym e)
            (written-IsLimited sha256 disk name label b false no_source m fits l)))

  base_sample-IsLimited :
      (members : Assoc Member) (i : ℕ) (sample : Fields) (m : Merging) {m' : Merging}
      → IsLimited m
      → base_sample to_lower sha256 disk members i sample m ≡ ok m'
      → IsLimited m'
  unfolding base_sample
  base_sample-IsLimited members i sample m l h =
      base_member-IsLimited i (text_field "path" sample) (text_field "label" sample)
        (text_field "split" sample) (lookup (text_field "path" sample) members) m l
        (refuse-ok _ _ _ h).1

  base_samples-IsLimited :
      (members : Assoc Member) (i : ℕ) (samples : Values) (m : Merging) {m' : Merging}
      → IsLimited m
      → base_samples to_lower sha256 disk members i samples m ≡ ok m'
      → IsLimited m'
  unfolding base_samples object_of
  base_samples-IsLimited members i nil m l h = subst IsLimited (ok_inj h) l
  base_samples-IsLimited members i (cons (object sample) rest) m l h =
      let (m₁, p, q) = bind-ok (base_sample to_lower sha256 disk members i sample m) _ h in
      base_samples-IsLimited members (suc i) rest m₁ (base_sample-IsLimited members i sample m l p)
        q
  base_samples-IsLimited members i (cons null rest) m l h = cc
  base_samples-IsLimited members i (cons (flag b) rest) m l h = cc
  base_samples-IsLimited members i (cons (number n) rest) m l h = cc
  base_samples-IsLimited members i (cons (str s) rest) m l h = cc
  base_samples-IsLimited members i (cons (array xs) rest) m l h = cc

  start-IsLimited : IsLimited start
  start-IsLimited = record {
    few = omega arith;
    small = omega arith;
    distinct = tt;
    counted = refl;
    summed = refl;
    named = tt;
  }

  -- If a merge succeeds, the new archive has at most 100,000 files and 5 GB of images, no two of its
  -- files have the same name, and the counters of files and bytes are those of the archive.
  pub merge-IsLimited :
      (base : Snapshot) (files : List Member) (incoming : Option (Result (List Member)))
      (feedback : List Feedback) (m : Merging)
      → merge to_lower sha256 disk base (ok files) incoming feedback ≡ ok m
      → IsLimited m
  unfolding merge_base
  merge-IsLimited base files incoming feedback m h =
      let x = merge-Merged to_lower sha256 disk base files incoming feedback h in
      let (members, _, q) = bind-ok (index_members files []) _ x.of_base in
      let (samples, _, s) = bind-ok (samples_of (lookup "samples" base.manifest) _) _ q in
      Grows-IsLimited sha256 disk (base_samples-IsLimited members 0 samples start start-IsLimited s)
        x.grows
