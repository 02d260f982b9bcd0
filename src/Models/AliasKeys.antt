-- ===== src/Models/AliasKeys.antt =====
-- The keys of the alias table, `dataset:alias`, and the edits of a version's aliases.
use fgvcplateform_public.Base.{
  ℕ, String, ◌≡◌, refl, sym, ap, ◌∙◌, inl, inr, true, false, List, [], ◌∷◌, ◌++◌, arith, str_eq,
  eq_iff, any, Bool-cases,
}
use fgvcplateform_public.Models.{append_unique, remove_value, alias_key}
use Prim.Native.Char.{code}
use Prim.Native.String.append

-- The two aliases that the service admits.
pub data Alias : Type 0 where
  champion challenger : Alias

abbrev pub alias_name : Alias → String
alias_name champion = "champion"
alias_name challenger = "challenger"

last_code : String → ℕ → ℕ
last_code String.[] last = last
last_code (String.◌∷◌ c s) last = last_code s (code c)

last_code-champion : (s : String) (n : ℕ) → last_code (alias_key s "champion") n ≡ 110
unfolding last_code
last_code-champion String.[] n = ap (λ t. last_code t n) (λ i. append.nil ":champion" i)
last_code-champion (String.◌∷◌ c s) n =
    ap (λ t. last_code t n) (λ i. append.cons c s ":champion" i) ∙ last_code-champion s (code c)

last_code-challenger : (s : String) (n : ℕ) → last_code (alias_key s "challenger") n ≡ 114
unfolding last_code
last_code-challenger String.[] n = ap (λ t. last_code t n) (λ i. append.nil ":challenger" i)
last_code-challenger (String.◌∷◌ c s) n =
    ap (λ t. last_code t n) (λ i. append.cons c s ":challenger" i) ∙ last_code-challenger s (code c)

-- The keys of different aliases are different, whatever the datasets are called.
keys_apart : (d e : String) → str_eq (alias_key d "champion") (alias_key e "challenger") ≡ false
keys_apart d e = elim (Bool-cases (str_eq (alias_key d "champion") (alias_key e "challenger"))) [
  | inl h ↦
      let same : 110 ≡ 114 =
        sym (last_code-champion d 0)
        ∙ ap (λ s. last_code s 0) ((eq_iff (alias_key d "champion") (alias_key e "challenger")).0 h)
        ∙ last_code-challenger e 0 in
      absurd (omega (arith, same))
  | inr h ↦ h
]

any-append :
    (xs : List String) (a b : String)
    → str_eq a b ≡ false
    → any (λ x. str_eq x b) (xs ++ a ∷ []) ≡ any (λ x. str_eq x b) xs
any-append [] a b n = rw n refl
any-append (x ∷ xs) a b n = rw (any-append xs a b n) refl

pub any-append_unique :
    (xs : List String) (a b : String)
    → any (λ x. str_eq x b) (append_unique xs a) ≡ true
    → str_eq a b ≡ false
    → any (λ x. str_eq x b) xs ≡ true
unfolding append_unique
any-append_unique xs a b h n = ground (arith, any-append xs a b n)

pub any-remove_value :
    (xs : List String) (a b : String)
    → any (λ x. str_eq x b) (remove_value xs a) ≡ true
    → (str_eq a b ≡ false) × (any (λ x. str_eq x b) xs ≡ true)
unfolding remove_value
any-remove_value [] a b h = cc
any-remove_value (x ∷ xs) a b h =
    let rest = any-remove_value xs a b in ground (arith, rest, eq_iff x a, eq_iff x b, eq_iff a b)

pub keys_differ :
    (d e : String) (b b' : Alias)
    → str_eq (alias_name b) (alias_name b') ≡ false
    → str_eq (alias_key d (alias_name b)) (alias_key e (alias_name b')) ≡ false
keys_differ d e champion champion h = cc
keys_differ d e champion challenger h = keys_apart d e
keys_differ d e challenger champion h =
    let k = keys_apart e d in
    ground (
      arith,
      k,
      eq_iff (alias_key d "challenger") (alias_key e "champion"),
      eq_iff (alias_key e "champion") (alias_key d "challenger"),
    )
keys_differ d e challenger challenger h = cc
