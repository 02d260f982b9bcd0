-- ===== src/Base/Paths.antt =====
-- What the code asks of a slash-separated path: strings.Split, strings.HasPrefix, path.Ext; and the
-- decimal numbers of fmt.Sprintf.
use Prim.Native.Nat.{ℕ, zero, suc, ◌-◌, ◌/◌, ◌%◌}
use Prim.Native.Char.{Char, code}
use Prim.Native.String.{String, count, ◌++◌ as str_append}
use mathlib.Core.Bool.{Bool, true, false, ◌&&◌, ◌||◌}
use text.Mathlib.Text.{◌==◌ as str_eq}
use mathlib.Core.List.{List, [], ◌∷◌}
use fgvcplateform_public.Base.Tests.{ltb, ◌==◌, if◌then◌else◌}
use fgvcplateform_public.Base.Lists.{any}
use fgvcplateform_public.Base.Text.{runes}

-- The head of a Split is one letter longer.
abbrev pub lengthen : String → List String → List String
lengthen letter [] = letter ∷ []
lengthen letter (part ∷ parts) = str_append letter part ∷ parts

-- strings.Split(s, separator) for a separator of one rune
unfoldable pub split_on : ℕ → String → List String
split_on separator String.[] = "" ∷ []
split_on separator (String.◌∷◌ c s) =
    let parts = split_on separator s in
    if code c == separator then "" ∷ parts else lengthen (String.◌∷◌ c String.[]) parts

-- The suffix from the last dot on that no slash follows; `found` is what was seen so far.
unfoldable pub extension_from : String → String → String
extension_from found String.[] = found
extension_from found (String.◌∷◌ c s) =
    extension_from (if code c == b'/' then "" else if code c == b'.' then String.◌∷◌ c s else found)
      s

-- path.Ext
unfoldable pub extension : String → String
unfolding extension_from
extension s = extension_from "" s

unfoldable pub head_part : List String → String
head_part [] = ""
head_part (part ∷ parts) = part

-- strings.Contains(s, c) for one rune
unfoldable pub has_rune : ℕ → String → Bool
has_rune c s = any (λ r. r == c) (runes s)

-- strings.ContainsAny(s, "/\\")
unfoldable pub has_separator : String → Bool
unfolding has_rune
has_separator s = has_rune b'/' s || has_rune b'\\' s

abbrev pub digit_text : ℕ → String
digit_text zero = "0"
digit_text (suc zero) = "1"
digit_text (suc (suc zero)) = "2"
digit_text (suc (suc (suc zero))) = "3"
digit_text (suc (suc (suc (suc zero)))) = "4"
digit_text (suc (suc (suc (suc (suc zero))))) = "5"
digit_text (suc (suc (suc (suc (suc (suc zero)))))) = "6"
digit_text (suc (suc (suc (suc (suc (suc (suc zero))))))) = "7"
digit_text (suc (suc (suc (suc (suc (suc (suc (suc zero)))))))) = "8"
digit_text _ = "9"

-- the digits of `n` before `tail`; more fuel than `n` is enough, since each round divides by ten
unfoldable pub digits_from : ℕ → ℕ → String → String
digits_from zero n tail = tail
digits_from (suc fuel) n tail =
    let more = digits_from fuel (n / 10) (str_append (digit_text (n % 10)) tail) in
    if ltb n 10 then str_append (digit_text n) tail else more

-- %d of a number that is not negative
unfoldable pub decimal : ℕ → String
unfolding digits_from
decimal n = digits_from (suc n) n ""

abbrev pub zeros : ℕ → String
zeros zero = ""
zeros (suc n) = str_append "0" (zeros n)

-- %06d of a number that is not negative
unfoldable pub decimal6 : ℕ → String
unfolding decimal
decimal6 n = str_append (zeros (6 - count (decimal n))) (decimal n)

-- strings.HasPrefix(s, p)
unfoldable pub has_prefix : String → String → Bool
has_prefix s String.[] = true
has_prefix String.[] (String.◌∷◌ d p) = false
has_prefix (String.◌∷◌ c s) (String.◌∷◌ d p) = code c == code d && has_prefix s p

-- strings.HasSuffix(s, p)
unfoldable pub has_suffix : String → String → Bool
has_suffix String.[] p = str_eq "" p
has_suffix (String.◌∷◌ c s) p = str_eq (String.◌∷◌ c s) p || has_suffix s p

-- strings.Contains(s, p)
unfoldable pub contains : String → String → Bool
unfolding has_prefix
contains String.[] p = has_prefix "" p
contains (String.◌∷◌ c s) p = has_prefix (String.◌∷◌ c s) p || contains s p

-- strings.TrimPrefix(s, p)
unfoldable pub trim_prefix : String → String → String
trim_prefix s String.[] = s
trim_prefix String.[] (String.◌∷◌ d p) = String.[]
trim_prefix (String.◌∷◌ c s) (String.◌∷◌ d p) =
    let rest = trim_prefix s p in
    if code c == code d && has_prefix s p then rest else String.◌∷◌ c s

-- the texts with `separator` between them, as strings.Join or a format "%s$%s" writes them
unfoldable pub join_on : Char → List String → String
join_on separator [] = ""
join_on separator (a ∷ []) = a
join_on separator (a ∷ b ∷ rest) =
    str_append a (String.◌∷◌ separator (join_on separator (b ∷ rest)))
