-- ===== src/Models/Stages.antt =====
-- What Promote and Archive do to the stage of a version in the memory repository.
use fgvcplateform_public.Base.{
  ℕ, String, ◌≡◌, refl, sym, subst, ◌∙◌, true, false, not, ◌||◌, Option, none, some, arith, str_eq,
  if◌then◌else◌, is_blank, some_inj, Bool-cases, inl, inr,
}
use fgvcplateform_public.Base.Assoc.{lookup, lookup-insert}
use fgvcplateform_public.Models.{
  Status, is_status, Result, ok, Version, Registry, get_version, found_version, ok_inj, transition,
  transition_found,
}
use fgvcplateform_public.Models.Service.{
  memory, promotes, promote, promote_found, archive, archive_found,
}

-- The version `id` has been moved to `target`, at the time `now`, and no other has changed.
pub record Moved (now : ℕ) (id : String) (target : Status) (r : Registry) (w v : Version)
    (r' : Registry) : Type 0 where
  pub found : lookup id r.versions ≡ some w
  pub version : v ≡ record w { status = target; updated_at = now }
  pub stored :
      (j : String) → lookup j r'.versions ≡ (if str_eq id j then some v else lookup j r.versions)
  pub aliases : r'.aliases ≡ r.aliases

transition-Moved :
    (now : ℕ) (id : String) (from target : Status) (r : Registry) {v : Version}
    → (transition now id from target r).0 ≡ ok v
    → (w : Version) × Moved now id target r w v (transition now id from target r).1
unfolding transition
transition-Moved now id from target r {v} e = go (lookup id r.versions) refl e
  where
    go :
        (o : Option Version)
        → lookup id r.versions ≡ o
        → (transition_found now id from target r o).0 ≡ ok v
        → (w : Version) × Moved now id target r w v (transition_found now id from target r o).1
    go none f e = cc
    go (some w) f e = elim (Bool-cases (not (is_status w.status from))) [
      | inl m ↦ ground (arith, rw m at e)
      | inr m ↦
          let v' : Version = record w { status = target; updated_at = now } in
          let same : v' ≡ v = ok_inj (rw m at e) in
          rw m (
            w,
            record {
              found = f;
              version = sym same;
              stored = λ j. rw⁻¹ same (lookup-insert id j v' r.versions);
              aliases = refl;
            },
          )
    ]

-- If Promote succeeds, past its call of Publish for production, then the version was stored, its
-- status and the target are an edge that Promote admits, it is stored with the target, and no other
-- version and no alias has changed.
pub promote-Moved :
    (now : ℕ) (id actor reason : String) (target : Status) (r : Registry) (v : Version)
    → (promote (memory now) id target actor reason r).0 ≡ ok v
    → (w : Version) × (promotes (memory now) w.status target ≡ true)
      × Moved now id target r w v (promote (memory now) id target actor reason r).1
unfolding promote memory get_version
promote-Moved now id actor reason target r v e =
    elim (Bool-cases (is_blank actor || is_blank reason)) [
      | inl a ↦ ground (arith, rw a at e)
      | inr a ↦ rw a (go (lookup id r.versions) refl (rw a at e))
    ]
  where
    Goal : Result Version × Registry → Type 0
    Goal x =
        (w : Version) × (promotes (memory now) w.status target ≡ true)
        × Moved now id target r w v x.1

    go :
        (o : Option Version)
        → lookup id r.versions ≡ o
        → (promote_found (memory now) id target r (found_version o)).0 ≡ ok v
        → Goal (promote_found (memory now) id target r (found_version o))
    go none f e' = cc
    go (some w) f e' = elim (Bool-cases (promotes (memory now) w.status target)) [
      | inl t ↦
          let (x, m) = transition-Moved now id w.status target r (rw t at e') in
          let same : w ≡ x = some_inj (sym f ∙ m.found) in
          rw t (x, subst (λ y. promotes (memory now) y.status target ≡ true) same t, m)
      | inr t ↦ ground (arith, rw t at e')
    ]

-- If Archive succeeds, the version was stored, in another stage than archived; it is stored as
-- archived, and no other version and no alias has changed.
pub archive-Moved :
    (now : ℕ) (id actor reason : String) (r : Registry) (v : Version)
    → (archive (memory now) id actor reason r).0 ≡ ok v
    → (w : Version) × (is_status w.status Status.archived ≡ false)
      × Moved now id Status.archived r w v (archive (memory now) id actor reason r).1
unfolding archive memory get_version
archive-Moved now id actor reason r v e = elim (Bool-cases (is_blank actor || is_blank reason)) [
  | inl a ↦ ground (arith, rw a at e)
  | inr a ↦ rw a (go (lookup id r.versions) refl (rw a at e))
]
  where
    Goal : Result Version × Registry → Type 0
    Goal x =
        (w : Version) × (is_status w.status Status.archived ≡ false)
        × Moved now id Status.archived r w v x.1

    go :
        (o : Option Version)
        → lookup id r.versions ≡ o
        → (archive_found (memory now) id r (found_version o)).0 ≡ ok v
        → Goal (archive_found (memory now) id r (found_version o))
    go none f e' = cc
    go (some w) f e' = elim (Bool-cases (is_status w.status Status.archived)) [
      | inl t ↦ ground (arith, rw t at e')
      | inr t ↦
          let (x, m) = transition-Moved now id w.status Status.archived r (rw t at e') in
          let same : w ≡ x = some_inj (sym f ∙ m.found) in
          rw t (x, subst (λ y. is_status y.status Status.archived ≡ false) same t, m)
    ]
