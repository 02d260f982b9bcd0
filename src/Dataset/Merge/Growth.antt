-- ===== src/Dataset/Merge/Growth.antt =====
-- What a successful merge did: it kept the samples of the base, then each addition was a repeat or a
-- new image.
use fgvcplateform_public.Base.{
  suc, ◌+◌, ◌≤◌, ◌≡◌, refl, sym, subst, String, Bool, true, false, not, Option, none, some, List,
  [], ◌∷◌, length, arith, ltb, str_eq, ◌==◌,
}
use fgvcplateform_public.Base.Assoc.{lookup}
use fgvcplateform_public.Base.Paths.{split_on, extension}
use Prim.Native.String.{◌++◌ as str_append}
use fgvcplateform_public.Dataset.{
  Result, ok, bind-ok, refuse-ok, ok_inj, or_false_left, or_false_right, Bytes, Feedback, Member,
  Snapshot, max_upload_images, max_upload_bytes, read_image, safe_path,
}
use fgvcplateform_public.Dataset.Merge.{
  Disk, Source, manual_upload, reviewed, Merging, contains, written, write_new, write_addition,
  write, join3, add,
}
use fgvcplateform_public.Dataset.Merge.Additions.{
  label_of, add_member, add_members, add_incoming, feedback_image, feedback_name, add_feedback,
  add_feedbacks, merge_base, merge,
}

-- The state after a repeated image.
abbrev pub repeated : Merging → Merging
repeated m = record m { calls = suc m.calls; duplicates = m.duplicates + 1 }

module _ (sha256 : Bytes → String) (disk : Disk) where
  -- What `write_new` needs.
  pub record Fits (name : String) (b : Bytes) (m : Merging) : Type 0 where
    pub fresh_name : contains m.names name ≡ false
    pub few : m.count + 1 ≤ max_upload_images
    pub small : m.total + length b ≤ max_upload_bytes

  pub data Grew (m m' : Merging) : Type 0 where
    again : m' ≡ repeated m → Grew m m'
    new :
        (name label : String) (b : Bytes) (origin : Source)
        → Fits name b m
        → lookup (sha256 b) m.seen ≡ none
        → contains m.evaluation (sha256 b) ≡ false
        → m' ≡ written sha256 disk name label b true origin m
        → Grew m m'

  pub data Grows (m : Merging) : Merging → Type 0 where
    here : Grows m m
    next : {m' m'' : Merging} → Grows m m' → Grew m' m'' → Grows m m''

  pub write_new-Fits :
      (name label : String) (b : Bytes) (addition : Bool) (origin : Source) (m : Merging)
      {m' : Merging}
      → write_new sha256 disk name label b addition origin m ≡ ok m'
      → Fits name b m × (m' ≡ written sha256 disk name label b addition origin m)
  unfolding write_new
  write_new-Fits name label b addition origin m h =
      let p = refuse-ok _ _ _ h in
      let q = refuse-ok _ _ _ p.1 in
      let r = refuse-ok _ _ _ q.1 in
      (
        record {
          fresh_name = or_false_right (not (safe_path name)) _ p.0;
          few =
              let few = or_false_left (ltb max_upload_images (m.count + 1)) _ q.0 in
              ground (arith, few);
          small =
              let small = or_false_right (ltb max_upload_images (m.count + 1)) _ q.0 in
              ground (arith, small);
        },
        sym (ok_inj r.1),
      )

  write_addition-Grew :
      (known : Option String) (name label : String) (b : Bytes) (origin : Source) (m : Merging)
      {m' : Merging}
      → lookup (sha256 b) m.seen ≡ known
      → contains m.evaluation (sha256 b) ≡ false
      → write_addition sha256 disk known name label b origin m ≡ ok m'
      → Grew m m'
  unfolding write_addition
  write_addition-Grew none name label b origin m unseen apart h =
      let p = write_new-Fits name label b true origin m h in
      new name label b origin p.0 unseen apart p.1
  write_addition-Grew (some previous) name label b origin m unseen apart h =
      again (sym (ok_inj (refuse-ok (not (str_eq previous label)) _ _ h).1))

  pub write-Grew :
      (name label : String) (b : Bytes) (origin : Source) (m : Merging) {m' : Merging}
      → write sha256 disk name label b true origin m ≡ ok m'
      → Grew m m'
  unfolding write
  write-Grew name label b origin m h =
      let p = refuse-ok _ _ _ h in
      let q = refuse-ok _ _ _ p.1 in
      write_addition-Grew (lookup (sha256 b) m.seen) name label b origin m refl q.0 q.1

module _ (to_lower : String → String) (sha256 : Bytes → String) (disk : Disk) where
  add-Grew :
      (label filename : String) (b : Bytes) (origin : Source) (m : Merging) {m' : Merging}
      → add to_lower sha256 disk label filename b origin m ≡ ok m'
      → Grew sha256 disk m m'
  unfolding add
  add-Grew label filename b origin m h =
      write-Grew sha256 disk
        (join3 "train" label
          (str_append "add-" (str_append (sha256 b) (to_lower (extension filename)))))
        label b origin m (refuse-ok _ _ _ h).1

  add_member-Grew :
      (member : Member) (m : Merging) {m' : Merging}
      → add_member to_lower sha256 disk member m ≡ ok m'
      → Grew sha256 disk m m'
  unfolding add_member
  add_member-Grew member m h =
      let p = refuse-ok _ _ _ h in
      let (label, _, q) = bind-ok (label_of (split_on b'/' member.name)) _ p.1 in
      let (b, _, r) = bind-ok (read_image member.content) _ q in
      add-Grew label member.name b (manual_upload member.name) m r

  add_feedback-Grew :
      (f : Feedback) (m : Merging) {m' : Merging}
      → add_feedback to_lower sha256 disk f m ≡ ok m'
      → Grew sha256 disk m m'
  unfolding add_feedback
  add_feedback-Grew f m h =
      let (b, _, r) = bind-ok (feedback_image to_lower sha256 disk f f.image_artifact) _ h in
      add-Grew f.label (feedback_name to_lower sha256 disk f.input_ref f.image_artifact) b
        (reviewed f) m r

  add_members-Grows :
      {m₀ : Merging} (files : List Member) (m : Merging) {m' : Merging}
      → Grows sha256 disk m₀ m
      → add_members to_lower sha256 disk files m ≡ ok m'
      → Grows sha256 disk m₀ m'
  unfolding add_members
  add_members-Grows {m₀} [] m g h = subst (Grows sha256 disk m₀) (ok_inj h) g
  add_members-Grows (f ∷ rest) m g h =
      let (m₁, p, q) = bind-ok (add_member to_lower sha256 disk f m) _ h in
      add_members-Grows rest m₁ (next g (add_member-Grew f m p)) q

  add_incoming-Grows :
      (incoming : Option (Result (List Member))) (m : Merging) {m' : Merging}
      → add_incoming to_lower sha256 disk incoming m ≡ ok m'
      → Grows sha256 disk m m'
  unfolding add_incoming
  add_incoming-Grows none m h = subst (Grows sha256 disk m) (ok_inj h) here
  add_incoming-Grows (some incoming) m h =
      let (files, _, q) = bind-ok incoming _ h in add_members-Grows files m here q

  add_feedbacks-Grows :
      {m₀ : Merging} (fs : List Feedback) (m : Merging) {m' : Merging}
      → Grows sha256 disk m₀ m
      → add_feedbacks to_lower sha256 disk fs m ≡ ok m'
      → Grows sha256 disk m₀ m'
  unfolding add_feedbacks
  add_feedbacks-Grows {m₀} [] m g h = subst (Grows sha256 disk m₀) (ok_inj h) g
  add_feedbacks-Grows (f ∷ rest) m g h =
      let (m₁, p, q) = bind-ok (add_feedback to_lower sha256 disk f m) _ h in
      add_feedbacks-Grows rest m₁ (next g (add_feedback-Grew f m p)) q

  -- A successful merge, taken apart.
  pub record Merged (base : Snapshot) (files : List Member) (m : Merging) : Type 0 where
    pub kept : Merging
    pub of_base : merge_base to_lower sha256 disk base files ≡ ok kept
    pub grows : Grows sha256 disk kept m
    pub some_added : (m.added == 0) ≡ false

  pub merge-Merged :
      (base : Snapshot) (files : List Member) (incoming : Option (Result (List Member)))
      (feedback : List Feedback) {m : Merging}
      → merge to_lower sha256 disk base (ok files) incoming feedback ≡ ok m
      → Merged base files m
  unfolding merge
  merge-Merged base files incoming feedback {m} h =
      let (kept, p, q) = bind-ok (merge_base to_lower sha256 disk base files) _ h in
      let (uploaded, r, s) = bind-ok (add_incoming to_lower sha256 disk incoming kept) _ q in
      let (last, t, u) = bind-ok (add_feedbacks to_lower sha256 disk feedback uploaded) _ s in
      let v = refuse-ok (last.added == 0) _ _ u in
      let e : last ≡ m = ok_inj (refuse-ok disk.close_fails _ _ v.1).1 in
      record {
        kept = kept;
        of_base = p;
        grows =
            subst (Grows sha256 disk kept) e
              (add_feedbacks-Grows feedback uploaded (add_incoming-Grows incoming kept r) t);
        some_added = subst (λ (l : Merging). (l.added == 0) ≡ false) e v.0;
      }
