-- ===== src/Training/Storage.antt =====
-- What the repository promises: an update is atomic, touches one job, and is a step of that job;
-- Expired finds the jobs whose lease is over.
use fgvcplateform_public.Base.{
  ℕ, ◌+◌, ◌≤◌, ◌<◌, suc, zero, String, ◌≡◌, refl, sym, ap, subst, ◌∙◌, inl, inr, ◌⊎◌, true, false,
  Option, none, some, List, [], ◌∷◌, arith, eq_iff, str_eq, if◌then◌else◌, Option-cases, Bool-cases,
  ltb, if_cases, length,
}
use fgvcplateform_public.Base.Assoc.{lookup, lookup-insert}
use fgvcplateform_public.Training.Types.{Result, ok, err, Aggregate, Closure, Env}
use fgvcplateform_public.Training.Claims.{claim, heartbeat}
use fgvcplateform_public.Training.Metrics.{progress}
use fgvcplateform_public.Training.Control.{to_cancelled, pause, cancel, transition_keyed, resume}
use fgvcplateform_public.Training.Completion.{UrlParser, complete}
use fgvcplateform_public.Training.Failure.{fail, reap}
use fgvcplateform_public.Training.Steps.{
  Call, claims, heartbeats, reports, pauses, cancels, resumes, reaps, cancels_keyed, completes,
  fails, stored, step,
}
use fgvcplateform_public.Training.Ownership.{Inv}
use fgvcplateform_public.Training.Invariant.{step-Inv}
use mathlib.Core.List.{Memᴰ}
use fgvcplateform_public.Base.{All}
use fgvcplateform_public.Base.{ℤ, pos}
use fgvcplateform_public.Training.Repository.{
  Repository, commit, update, update_found, is_expired, reached, collect, expired,
}

commit-stored :
    {A : Type 0} (id j : String) (f : Closure A) (repo : Repository) (g : Aggregate)
    (r : Result A × Aggregate)
    → lookup id repo ≡ some g
    → (lookup j (commit id repo r).1 ≡ (if str_eq id j then some (stored g r) else lookup j repo))
      × ((commit id repo r).0 ≡ r.0)
commit-stored id j f repo g (ok a, c) h = (lookup-insert id j c repo, refl)
commit-stored id j f repo g (err e, c) h = (ground (arith, eq_iff id j), refl)

-- Update of a job that is there returns what the closure returned and stores its candidate if
-- that is no error; after an error, and under every other id, the stored aggregate is unchanged.
pub update-stored :
    {A : Type 0} (id j : String) (f : Closure A) (repo : Repository) (g : Aggregate)
    → lookup id repo ≡ some g
    → (lookup j (update id f repo).1
        ≡ (if str_eq id j then some (stored g (f g)) else lookup j repo))
      × ((update id f repo).0 ≡ (f g).0)
unfolding update
update-stored id j f repo g h = rw (h, update_found) (commit-stored id j f repo g (f g) h)

-- One call of the lifecycle on the repository.
unfoldable pub call_on : UrlParser → String → Env × Call → Repository → Repository
call_on url_parse id (env, claims cmd) repo = (update id (claim env cmd) repo).1
call_on url_parse id (env, heartbeats cmd) repo = (update id (heartbeat env cmd) repo).1
call_on url_parse id (env, reports cmd) repo = (update id (progress env cmd) repo).1
call_on url_parse id (env, pauses) repo = (update id (pause env) repo).1
call_on url_parse id (env, cancels) repo = (update id (cancel env) repo).1
call_on url_parse id (env, resumes) repo = (update id (resume env) repo).1
call_on url_parse id (env, reaps) repo = (update id (reap env) repo).1
call_on url_parse id (env, cancels_keyed key) repo =
    (update id (transition_keyed env to_cancelled key) repo).1
call_on url_parse id (env, completes cmd) repo = (update id (complete url_parse env cmd) repo).1
call_on url_parse id (env, fails cmd) repo = (update id (fail env cmd) repo).1

abbrev pub on_found : (Aggregate → Aggregate) → Option Aggregate → Option Aggregate
on_found f none = none
on_found f (some g) = some (f g)

lookup-update :
    {A : Type 0} (id j : String) (f : Closure A) (repo : Repository)
    → lookup j (update id f repo).1
      ≡ (if str_eq id j then on_found (λ g. stored g (f g)) (lookup id repo) else lookup j repo)
unfolding update
lookup-update id j f repo = elim (Option-cases (lookup id repo)) [
  | inl e ↦ rw (e, update) (ground (arith, eq_iff id j))
  | inr (g, e) ↦
      (update-stored id j f repo g e).0
      ∙ ap (λ o. if str_eq id j then on_found (λ g. stored g (f g)) o else lookup j repo) (sym e)
]

-- A call on the repository is a step of the job that it names, if that is there, and changes no
-- other job.
pub lookup-call_on :
    (url_parse : UrlParser) (id j : String) (c : Env × Call) (repo : Repository)
    → lookup j (call_on url_parse id c repo)
      ≡ (if str_eq id j then on_found (λ g. step url_parse g c) (lookup id repo) else lookup j repo)
unfolding call_on step
lookup-call_on url_parse id j (env, claims cmd) repo = lookup-update id j (claim env cmd) repo
lookup-call_on url_parse id j (env, heartbeats cmd) repo =
    lookup-update id j (heartbeat env cmd) repo
lookup-call_on url_parse id j (env, reports cmd) repo = lookup-update id j (progress env cmd) repo
lookup-call_on url_parse id j (env, pauses) repo = lookup-update id j (pause env) repo
lookup-call_on url_parse id j (env, cancels) repo = lookup-update id j (cancel env) repo
lookup-call_on url_parse id j (env, resumes) repo = lookup-update id j (resume env) repo
lookup-call_on url_parse id j (env, reaps) repo = lookup-update id j (reap env) repo
lookup-call_on url_parse id j (env, cancels_keyed key) repo =
    lookup-update id j (transition_keyed env to_cancelled key) repo
lookup-call_on url_parse id j (env, completes cmd) repo =
    lookup-update id j (complete url_parse env cmd) repo
lookup-call_on url_parse id j (env, fails cmd) repo = lookup-update id j (fail env cmd) repo

-- The invariant of every stored job.
abbrev pub AllInv : Repository → Type 0
AllInv repo = (id : String) (g : Aggregate) → lookup id repo ≡ some g → Inv g

abbrev or_else : Aggregate → Option Aggregate → Aggregate
or_else g none = g
or_else g (some x) = x

-- Every call on the repository keeps the invariant of every stored job.
pub call_on-AllInv :
    (url_parse : UrlParser) (id : String) (c : Env × Call) (repo : Repository)
    → AllInv repo
    → AllInv (call_on url_parse id c repo)
call_on-AllInv url_parse id c repo all j g h =
    go (lookup id repo) refl (Bool-cases (str_eq id j))
      (sym (lookup-call_on url_parse id j c repo) ∙ h)
  where
    go :
        (o : Option Aggregate)
        → lookup id repo ≡ o
        → (str_eq id j ≡ true) ⊎ (str_eq id j ≡ false)
        → (if str_eq id j then on_found (λ g. step url_parse g c) o else lookup j repo) ≡ some g
        → Inv g
    go none e (inl s) p = cc (rw s at p)
    go (some x) e (inl s) p =
        subst Inv (ap (or_else (step url_parse x c)) (rw s at p))
          (step-Inv url_parse x c (all id x e))
    go o e (inr s) p = all j g (rw s at p)

-- What Expired asks of the list of stored jobs.
abbrev pub IsExpired : ℕ → Repository → String → Type 0
IsExpired now repo id = (g : Aggregate) × Memᴰ (id, g) repo × (is_expired now g ≡ true)

weaken :
    (now : ℕ) (x : String × Aggregate) (repo : Repository) (ids : List String)
    → All (IsExpired now repo) ids
    → All (IsExpired now (x ∷ repo)) ids
weaken now x repo [] h = tt
weaken now x repo (id ∷ ids) h =
    let (g, m, e) = h.0 in ((g, Memᴰ.tail m, e), weaken now x repo ids h.1)

collect-IsExpired :
    (now : ℕ) (limit : ℤ) (n : ℕ) (repo : Repository)
    → All (IsExpired now repo) (collect now limit n repo)
unfolding collect
collect-IsExpired now limit n [] = tt
collect-IsExpired now limit n ((id, g) ∷ repo) = elim (Bool-cases (is_expired now g)) [
  | inl e ↦ rw e (
    (g, Memᴰ.head refl, e),
    if_cases (All (IsExpired now ((id, g) ∷ repo))) (reached limit (n + 1)) (λ _. tt)
        (λ _. weaken now (id, g) repo _ (collect-IsExpired now limit (n + 1) repo)),
  )
  | inr e ↦ rw e (weaken now (id, g) repo _ (collect-IsExpired now limit n repo))
]

length-collect :
    (now k n : ℕ) (repo : Repository) → n < k → n + length (collect now (pos k) n repo) ≤ k
unfolding collect
length-collect now k n [] h = omega arith
length-collect now k n ((id, g) ∷ repo) h =
    ground (arith, length-collect now k (n + 1) repo, length-collect now k n repo)

length-collect_all :
    (now n : ℕ) (repo : Repository) → length (collect now (pos 0) n repo) ≤ length repo
unfolding collect
length-collect_all now n [] = omega arith
length-collect_all now n ((id, g) ∷ repo) =
    ground (arith, length-collect_all now (n + 1) repo, length-collect_all now n repo)

length-expired :
    (now k : ℕ) (repo : Repository)
    → length (expired now (pos k) repo) ≤ (if ltb 0 k then k else length repo)
unfolding expired
length-expired now zero repo = length-collect_all now 0 repo
length-expired now (suc k) repo = ground (arith, length-collect now (suc k) 0 repo)

-- Every id that Expired returns is that of a stored job whose lease is over, and there are no more
-- of them than a positive limit, or than jobs.
pub expired_sound :
    (now k : ℕ) (repo : Repository)
    → All (IsExpired now repo) (expired now (pos k) repo)
      × (length (expired now (pos k) repo) ≤ (if ltb 0 k then k else length repo))
unfolding expired
expired_sound now k repo = (collect-IsExpired now (pos k) 0 repo, length-expired now k repo)

collect_all :
    (now n : ℕ) (repo : Repository) (id : String) (g : Aggregate)
    → Memᴰ (id, g) repo
    → is_expired now g ≡ true
    → Memᴰ id (collect now (pos 0) n repo)
unfolding collect
collect_all now n [] id g m e = elim m [ ]
collect_all now n ((i, h) ∷ repo) id g (Memᴰ.head p) e =
    let here : is_expired now h ≡ true =
      ap (λ (x : String × Aggregate). is_expired now x.1) (sym p) ∙ e in
    rw here (Memᴰ.head (ap (λ (x : String × Aggregate). x.0) p))
collect_all now n ((i, h) ∷ repo) id g (Memᴰ.tail m) e =
    if_cases (Memᴰ id) (is_expired now h) (λ _. Memᴰ.tail (collect_all now (n + 1) repo id g m e))
      (λ _. collect_all now n repo id g m e)

-- Without a limit Expired misses no job whose lease is over.
pub expired_complete :
    (now : ℕ) (repo : Repository) (id : String) (g : Aggregate)
    → Memᴰ (id, g) repo
    → is_expired now g ≡ true
    → Memᴰ id (expired now (pos 0) repo)
unfolding expired
expired_complete now repo id g m e = collect_all now 0 repo id g m e
