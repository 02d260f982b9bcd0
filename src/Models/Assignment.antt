-- ===== src/Models/Assignment.antt =====
-- Service.SetAlias: the aliases that it admits, and what it keeps.
use fgvcplateform_public.Base.{
  ℕ, String, ◌≡◌, refl, sym, subst, ◌⊎◌, inl, inr, arith, str_eq, eq_iff, is_blank, ◌||◌,
  Bool-cases,
}
use fgvcplateform_public.Models.{Result, ok, err, Version, Registry, set_alias}
use fgvcplateform_public.Models.Service.{memory, assign_alias, assign_found}
use fgvcplateform_public.Models.AliasKeys.{Alias, champion, challenger, alias_name}
use fgvcplateform_public.Models.Aliases.{AliasInv, set_alias-AliasInv}

assign_found_cases :
    (now : ℕ) (d alias id actor reason : String) (r : Registry) (o : Result Version)
    → ((assign_found (memory now) d alias id actor reason r o).1 ≡ r)
      ⊎ ((assign_found (memory now) d alias id actor reason r o).1
          ≡ (set_alias now d alias id actor reason r).1)
unfolding memory
assign_found_cases now d alias id actor reason r (err e) = inl refl
assign_found_cases now d alias id actor reason r (ok v) = ground arith

assign_cases :
    (now : ℕ) (d alias id actor reason : String) (r : Registry)
    → ((assign_alias (memory now) d alias id actor reason r).1 ≡ r)
      ⊎ ((b : Alias) × (alias_name b ≡ alias)
          × ((assign_alias (memory now) d alias id actor reason r).1
              ≡ (set_alias now d alias id actor reason r).1))
unfolding assign_alias
assign_cases now d alias id actor reason r =
    let f = assign_found_cases now d alias id actor reason r ((memory now).get id r) in
    elim (Bool-cases (is_blank d || is_blank actor || is_blank reason)) [
      | inl a ↦ inl (ground (arith, a))
      | inr a ↦ elim (Bool-cases (str_eq alias "champion")) [
        | inl q ↦ elim f [
          | inl e ↦ inl (rw (q, a) e)
          | inr e ↦ inr (champion, sym ((eq_iff alias "champion").0 q), rw (q, a) e)
        ]
        | inr q ↦ elim (Bool-cases (str_eq alias "challenger")) [
          | inl k ↦ elim f [
            | inl e ↦ inl (rw (q, k, a) e)
            | inr e ↦ inr (challenger, sym ((eq_iff alias "challenger").0 k), rw (q, k, a) e)
          ]
          | inr k ↦ inl (rw (q, k) refl)
        ]
      ]
    ]

-- Service.SetAlias over the memory repository, whatever alias is asked for, accepted or refused,
-- keeps that no version is stored under the empty id and that, whenever a stored version carries one
-- of the service's two aliases, the alias table names that very version for its dataset.
pub assign_alias-AliasInv :
    (now : ℕ) (d alias id actor reason : String) (r : Registry)
    → AliasInv r
    → AliasInv (assign_alias (memory now) d alias id actor reason r).1
unfolding assign_alias memory
assign_alias-AliasInv now d alias id actor reason r inv =
    elim (assign_cases now d alias id actor reason r) [
      | inl same ↦ rw same inv
      | inr (b, n, e) ↦ rw e (
          subst (λ a. AliasInv (set_alias now d a id actor reason r).1) n
            (set_alias-AliasInv now d b id actor reason r inv))
    ]
