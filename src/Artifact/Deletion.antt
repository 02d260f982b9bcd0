-- ===== src/Artifact/Deletion.antt =====
-- When the garbage collection guard lets a physical object go.
use fgvcplateform_public.Base.{
  String, ◌≡◌, refl, ◌↔◌, Bool, true, false, not, ◌||◌, ℤ, pos, negsuc, int_is, is_empty, arith,
  Bool-cases, inl, inr, ap,
}
use fgvcplateform_public.Artifact.{
  is_sha256, PhysicalReferenceState, GcResult, answer, reference_check, repository_error, Lookup,
  found, failed, eligible, can_delete_physical_object,
}

-- The repository knows the candidate, and nothing else that uses the object.
pub record Unreferenced (references : String → String → Lookup) (sha candidate : String)
    : Type 0 where
  pub digest : is_sha256 sha ≡ true
  pub named : is_empty candidate ≡ false
  pub state : PhysicalReferenceState
  pub looked_up : references sha candidate ≡ found state
  pub exists : state.candidate_exists ≡ true
  pub alone : state.other_records ≡ pos 0
  pub unrelated : state.relationships ≡ pos 0

int_is_zero : (z : ℤ) → int_is z 0 ≡ true → z ≡ pos 0
int_is_zero (pos n) h = ap pos (ground (arith, h))
int_is_zero (negsuc n) h = cc

abbrev says_yes : GcResult → Bool
says_yes (answer b) = b
says_yes reference_check = false
says_yes (repository_error e) = false

-- The guard answers that an object may be deleted exactly when the digest is well formed, the
-- candidate is named, and the repository finds it, with no other record and no relationship; an
-- error of the repository never lets an object go.
pub can_delete_physical_object-Unreferenced :
    (references : String → String → Lookup) (sha candidate : String)
    → (can_delete_physical_object references sha candidate ≡ answer true)
      ↔ Unreferenced references sha candidate
unfolding can_delete_physical_object
can_delete_physical_object-Unreferenced references sha candidate = (
  (λ h. elim (Bool-cases (not (is_sha256 sha) || is_empty candidate)) [
    | inl b ↦ ground (arith, rw b at h)
    | inr b ↦
        allowed (ground (arith, b)) (ground (arith, b)) (references sha candidate) refl (rw b at h)
  ]),
  (λ u. rw (u.digest, u.named, u.looked_up) (clear u.state u.exists u.alone u.unrelated)),
)
  where
    clear :
        (s : PhysicalReferenceState)
        → s.candidate_exists ≡ true
        → s.other_records ≡ pos 0
        → s.relationships ≡ pos 0
        → eligible (found s) ≡ answer true
    clear s a b c = rw (a, b, c) refl

    allowed :
        is_sha256 sha ≡ true
        → is_empty candidate ≡ false
        → (l : Lookup) → references sha candidate ≡ l
        → eligible l ≡ answer true
        → Unreferenced references sha candidate
    allowed d n (failed e) f h = cc
    allowed d n (found s) f h =
        let e = ap says_yes h in
        record {
          digest = d;
          named = n;
          state = s;
          looked_up = f;
          exists = ground (arith, e);
          alone = int_is_zero s.other_records (ground (arith, e));
          unrelated = int_is_zero s.relationships (ground (arith, e));
        }
