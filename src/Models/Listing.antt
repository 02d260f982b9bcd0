-- ===== src/Models/Listing.antt =====
-- What List returns: the versions that pass the filter, the newest first.
use fgvcplateform_public.Base.{
  ℕ, ◌+◌, ◌≤◌, ◌≡◌, refl, ◌∙◌, Bool, ◌&&◌, List, [], ◌∷◌, if◌then◌else◌, leb, arith, if_cases, All,
}
use fgvcplateform_public.Base.Assoc.{Assoc}
use fgvcplateform_public.Models.{
  Filter, Version, Registry, passes, filtered, place, newest_first, list_versions,
}

-- From the newest on, every version is at least as new as all that follow.
abbrev pub NewestFirst : List Version → Type 0
NewestFirst [] = Unit
NewestFirst (v ∷ vs) = All (λ w. w.created_at ≤ v.created_at) vs × NewestFirst vs

unfoldable pub count : (Version → Bool) → List Version → ℕ
count p [] = 0
count p (v ∷ vs) = (if p v then 1 else 0) + count p vs

AllOlder : ℕ → List Version → Type 0
AllOlder t vs = All (λ w. w.created_at ≤ t) vs

AllOlder-weaken : (s t : ℕ) (vs : List Version) → s ≤ t → AllOlder s vs → AllOlder t vs
unfolding AllOlder
AllOlder-weaken s t [] h o = tt
AllOlder-weaken s t (v ∷ vs) h o = (omega (arith, o.0), AllOlder-weaken s t vs h o.1)

place-AllOlder :
    (t : ℕ) (v : Version) (ws : List Version)
    → v.created_at ≤ t
    → AllOlder t ws
    → AllOlder t (place v ws)
unfolding place AllOlder
place-AllOlder t v [] h o = (h, tt)
place-AllOlder t v (w ∷ ws) h o =
    if_cases {A = List Version} (AllOlder t) (leb w.created_at v.created_at) (λ _. (h, o))
      (λ _. (o.0, place-AllOlder t v ws h o.1))

place-NewestFirst : (v : Version) (ws : List Version) → NewestFirst ws → NewestFirst (place v ws)
unfolding place AllOlder
place-NewestFirst v [] h = (tt, tt)
place-NewestFirst v (w ∷ ws) h =
    if_cases {A = List Version} NewestFirst (leb w.created_at v.created_at)
      (λ t.
        let le : w.created_at ≤ v.created_at = ground (arith, t) in
        ((le, AllOlder-weaken w.created_at v.created_at ws le h.0), h))
      (λ f. (place-AllOlder w.created_at v ws (ground (arith, f)) h.0, place-NewestFirst v ws h.1))

newest_first-NewestFirst : (vs : List Version) → NewestFirst (newest_first vs)
unfolding newest_first
newest_first-NewestFirst [] = tt
newest_first-NewestFirst (v ∷ vs) =
    place-NewestFirst v (newest_first vs) (newest_first-NewestFirst vs)

count-place :
    (p : Version → Bool) (v : Version) (ws : List Version)
    → count p (place v ws) ≡ (if p v then 1 else 0) + count p ws
unfolding count place
count-place p v [] = refl
count-place p v (w ∷ ws) =
    if_cases {A = List Version} (λ vs. count p vs ≡ (if p v then 1 else 0) + count p (w ∷ ws))
      (leb w.created_at v.created_at) (λ _. refl) (λ _. omega (arith, count-place p v ws))

count-newest_first :
    (p : Version → Bool) (vs : List Version) → count p (newest_first vs) ≡ count p vs
unfolding count newest_first
count-newest_first p [] = refl
count-newest_first p (v ∷ vs) =
    count-place p v (newest_first vs) ∙ omega (arith, count-newest_first p vs)

-- The stored versions that pass the filter and have a property.
unfoldable pub count_stored : (Version → Bool) → Filter → Assoc Version → ℕ
count_stored p f [] = 0
count_stored p f ((id, v) ∷ vs) = (if passes f v && p v then 1 else 0) + count_stored p f vs

count-filtered :
    (p : Version → Bool) (f : Filter) (vs : Assoc Version)
    → count p (filtered f vs) ≡ count_stored p f vs
unfolding count filtered count_stored
count-filtered p f [] = refl
count-filtered p f ((id, v) ∷ vs) = ground (arith, count-filtered p f vs)

-- List returns the stored versions that pass the filter, each as often as it is stored (whatever
-- property one counts by), and the newest first.
pub list_versions-NewestFirst :
    (p : Version → Bool) (f : Filter) (r : Registry)
    → NewestFirst (list_versions f r) × (count p (list_versions f r) ≡ count_stored p f r.versions)
unfolding list_versions
list_versions-NewestFirst p f r = (
  newest_first-NewestFirst (filtered f r.versions),
  count-newest_first p (filtered f r.versions) ∙ count-filtered p f r.versions,
)
