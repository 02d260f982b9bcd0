-- ===== src/Models/Aliases.antt =====
-- An alias of a dataset names one version: what SetAlias keeps of the versions and the alias table.
use fgvcplateform_public.Base.{
  ℕ, String, ◌≡◌, ◌≢◌, refl, sym, ap, subst, ◌∙◌, inl, inr, Bool, true, false, not, ◌&&◌, Option,
  none, some, arith, str_eq, eq_iff, if◌then◌else◌, any, Bool-cases, if_cases, some_inj, is_empty,
}
use fgvcplateform_public.Base.Assoc.{Assoc, lookup, insert, lookup-insert, lookup-insert_self}
use fgvcplateform_public.Models.{
  Result, AliasResult, Version, Registry, remove_value, alias_key, version_or_zero, take_alias,
  without_previous, with_alias, give_alias, set_alias_found, set_alias,
}
use fgvcplateform_public.Models.AliasKeys.{
  Alias, alias_name, keys_differ, any-append_unique, any-remove_value,
}

abbrev pub carries : Version → String → Bool
carries v alias = any (λ a. str_eq a alias) v.aliases

pub record AliasInv (r : Registry) : Type 0 where
  pub named : lookup "" r.versions ≡ none
  pub owner :
      (id : String) (v : Version) (b : Alias)
      → lookup id r.versions ≡ some v
      → carries v (alias_name b) ≡ true
      → lookup (alias_key v.dataset_id (alias_name b)) r.aliases ≡ some id

module _ (r : Registry) (inv : AliasInv r) (vid d : String) (b : Alias) where
  key : String
  key = alias_key d (alias_name b)

  key_of : Version → Alias → String
  key_of w b' = alias_key w.dataset_id (alias_name b')

  table : Assoc String
  table = insert key vid r.aliases

  -- An entry under another key stays.
  kept :
      (id k : String)
      → lookup k r.aliases ≡ some id
      → str_eq key k ≡ false
      → lookup k table ≡ some id
  unfolding table
  kept id k l n = rw (lookup-insert key k vid r.aliases, n) l

  -- A version that the call leaves as it is owned its alias under another key.
  untouched :
      (id : String) (w : Version) (b' : Alias)
      → lookup id r.versions ≡ some w
      → carries w (alias_name b') ≡ true
      → lookup key r.aliases ≢ some id
      → lookup (key_of w b') table ≡ some id
  unfolding key_of
  untouched id w b' l c n =
      let o = inv.owner id w b' l c in
      kept id (key_of w b') o (elim (Bool-cases (str_eq key (key_of w b'))) [
        | inl e ↦ absurd (n (ap (λ k. lookup k r.aliases) ((eq_iff key (key_of w b')).0 e) ∙ o))
        | inr e ↦ e
      ])

  robbed :
      (id : String) (w : Version) (b' : Alias) (o : Option Version)
      → lookup id r.versions ≡ o
      → w ≡ record (version_or_zero o) {
        aliases = remove_value (version_or_zero o).aliases (alias_name b);
      }
      → carries w (alias_name b') ≡ true
      → lookup (key_of w b') table ≡ some id
  unfolding key_of remove_value key
  robbed id w b' none l e c = ground (arith, rw e at c)
  robbed id w b' (some u) l e c =
      let h = any-remove_value u.aliases (alias_name b) (alias_name b') (rw e at c) in
      rw e (kept id (key_of u b') (inv.owner id u b' l h.1) (keys_differ d u.dataset_id b b' h.0))

  others :
      (id : String) (w : Version) (b' : Alias) (o : Option String)
      → lookup key r.aliases ≡ o
      → str_eq vid id ≡ false
      → lookup id (without_previous vid (alias_name b) r.versions o) ≡ some w
      → carries w (alias_name b') ≡ true
      → lookup (key_of w b') table ≡ some id
  others id w b' none f n l c = untouched id w b' l c (λ h. ground (arith, f, h))
  others id w b' (some p) f n l c = elim (Bool-cases (not (is_empty p) && not (str_eq p vid))) [
    | inl t ↦ taken (rw t at l)
    | inr t ↦
        let l' : lookup id r.versions ≡ some w = rw t at l in
        untouched id w b' l' c (λ h. unmoved t (some_inj (sym f ∙ h)) l')
  ]
    where
      unmoved :
          not (is_empty p) && not (str_eq p vid) ≡ false
          → p ≡ id
          → lookup id r.versions ≡ some w
          → ⊥
      unmoved t e l' =
          let t' : not (is_empty id) && not (str_eq id vid) ≡ false =
            subst (λ k. not (is_empty k) && not (str_eq k vid) ≡ false) e t in
          elim (Bool-cases (is_empty id)) [
            | inl q ↦
                let a = ap (λ k. lookup k r.versions) ((eq_iff id "").0 q) in
                let b = inv.named in cc
            | inr q ↦ ground (arith, eq_iff id vid, eq_iff vid id)
          ]

      taken :
          lookup id (take_alias p (alias_name b) r.versions (version_or_zero (lookup p r.versions)))
            ≡ some w
          → lookup (key_of w b') table ≡ some id
      taken l' =
          let robbed_version : Version = record (version_or_zero (lookup p r.versions)) {
            aliases = remove_value (version_or_zero (lookup p r.versions)).aliases (alias_name b);
          } in
          let l'' : (if str_eq p id then some robbed_version else lookup id r.versions) ≡ some w =
            sym (lookup-insert p id robbed_version r.versions) ∙ l' in
          elim (Bool-cases (str_eq p id)) [
            | inl q ↦
                robbed id w b' (lookup p r.versions)
                  (ap (λ k. lookup k r.versions) (sym ((eq_iff p id).0 q)))
                  (sym (some_inj (rw q at l''))) c
            | inr q ↦
                untouched id w b' (rw q at l'') c
                  (λ h. ground (arith, eq_iff p id, some_inj (sym f ∙ h)))
          ]

  left_nameless :
      (o : Option String) → lookup "" (without_previous vid (alias_name b) r.versions o) ≡ none
  left_nameless none = inv.named
  left_nameless (some p) =
      if_cases (λ vs. lookup "" vs ≡ none) (not (is_empty p) && not (str_eq p vid))
        (λ t.
          let n : is_empty p ≡ false = ground (arith, t) in
          let u = version_or_zero (lookup p r.versions) in
          lookup-insert p "" (record u { aliases = remove_value u.aliases (alias_name b) })
            r.versions
          ∙ rw n inv.named)
        (λ _. inv.named)

  nameless :
      (v' v : Version)
      → lookup vid r.versions ≡ some v
      → lookup ""
          (insert vid v' (without_previous vid (alias_name b) r.versions (lookup key r.aliases)))
        ≡ none
  nameless v' v l =
      let n : str_eq vid "" ≡ false = elim (Bool-cases (str_eq vid "")) [
        | inl q ↦
            let a = ap (λ k. lookup k r.versions) ((eq_iff vid "").0 q) in let c = inv.named in cc
        | inr q ↦ q
      ] in
      lookup-insert vid "" v'
        (without_previous vid (alias_name b) r.versions (lookup key r.aliases))
      ∙ rw n (left_nameless (lookup key r.aliases))

  -- The version that gets the alias.
  crowned :
      (now : ℕ) (actor reason : String) (v : Version)
      → lookup vid r.versions ≡ some v
      → str_eq v.dataset_id d ≡ true
      → (b' : Alias)
      → carries (with_alias now d (alias_name b) actor reason v) (alias_name b') ≡ true
      → lookup (alias_key v.dataset_id (alias_name b')) table ≡ some vid
  unfolding with_alias table key
  crowned now actor reason v l h b' c = elim (Bool-cases (str_eq (alias_name b) (alias_name b'))) [
    | inl q ↦
        let a : alias_key d (alias_name b) ≡ alias_key v.dataset_id (alias_name b') =
          rw ((eq_iff v.dataset_id d).0 h, (eq_iff (alias_name b) (alias_name b')).0 q) refl in
        subst (λ k. lookup k (insert (alias_key d (alias_name b)) vid r.aliases) ≡ some vid) a
          (lookup-insert_self (alias_key d (alias_name b)) vid r.aliases)
    | inr q ↦
        kept vid (alias_key v.dataset_id (alias_name b'))
          (inv.owner vid v b' l (any-append_unique v.aliases (alias_name b) (alias_name b') c q))
          (keys_differ d v.dataset_id b b' q)
  ]

  moved :
      (now : ℕ) (actor reason : String) (v : Version)
      → lookup vid r.versions ≡ some v
      → str_eq v.dataset_id d ≡ true
      → (id : String) (w : Version) (b' : Alias)
      → (if str_eq vid id
          then some (with_alias now d (alias_name b) actor reason v)
          else lookup id (without_previous vid (alias_name b) r.versions (lookup key r.aliases)))
        ≡ some w
      → carries w (alias_name b') ≡ true
      → lookup (key_of w b') table ≡ some id
  unfolding key_of with_alias
  moved now actor reason v l h id w b' f c = elim (Bool-cases (str_eq vid id)) [
    | inl q ↦
        let same : with_alias now d (alias_name b) actor reason v ≡ w = some_inj (rw q at f) in
        let e : vid ≡ id = (eq_iff vid id).0 q in
        subst (λ i. lookup (key_of w b') table ≡ some i) e
          (subst (λ x. lookup (key_of x b') table ≡ some vid) same
            (crowned now actor reason v l h b'
              (subst (λ x. carries x (alias_name b') ≡ true) (sym same) c)))
    | inr q ↦ others id w b' (lookup key r.aliases) refl q (rw q at f) c
  ]

  left : Assoc Version
  left = without_previous vid (alias_name b) r.versions (lookup key r.aliases)

  accepted :
      (now : ℕ) (actor reason : String) (v : Version)
      → lookup vid r.versions ≡ some v
      → str_eq v.dataset_id d ≡ true
      → AliasInv (record {
        versions = insert vid (with_alias now d (alias_name b) actor reason v) left;
        aliases = table;
      })
  unfolding left key_of
  accepted now actor reason v l h =
      let v' = with_alias now d (alias_name b) actor reason v in
      record {
        named = nameless v' v l;
        owner = λ id w b' f c.
            moved now actor reason v l h id w b' (sym (lookup-insert vid id v' left) ∙ f) c;
      }

  -- The call, once it has found the version.
  give_alias-AliasInv :
      (now : ℕ) (actor reason : String) (v : Version)
      → lookup vid r.versions ≡ some v
      → AliasInv (give_alias now d (alias_name b) vid actor reason v r).1
  unfolding give_alias key table left
  give_alias-AliasInv now actor reason v l =
      if_cases {A = Result AliasResult × Registry} (λ x. AliasInv x.1) (not (str_eq v.dataset_id d))
        (λ _. inv) (λ h. accepted now actor reason v l (ground (arith, h)))

-- SetAlias, accepted or refused, keeps the invariant: no version is stored under the empty id, and
-- whenever a stored version carries one of the service's two aliases, the alias table names that
-- very version for its dataset; so no two versions of a dataset carry the same alias.
pub set_alias-AliasInv :
    (now : ℕ) (d : String) (b : Alias) (vid actor reason : String) (r : Registry)
    → AliasInv r
    → AliasInv (set_alias now d (alias_name b) vid actor reason r).1
unfolding set_alias
set_alias-AliasInv now d b vid actor reason r inv = go (lookup vid r.versions) refl
  where
    go :
        (o : Option Version)
        → lookup vid r.versions ≡ o
        → AliasInv (set_alias_found now d (alias_name b) vid actor reason r o).1
    go none l = inv
    go (some v) l = give_alias-AliasInv r inv vid d b now actor reason v l
