-- ===== src/Base/Text.antt =====
-- What the code asks of a text: is it blank, is it made of hex digits, is it empty.
use Prim.Native.Nat.{ℕ, ◌+◌}
use Prim.Native.Char.{code}
use Prim.Native.String.{String}
use mathlib.Core.Bool.{Bool, ◌&&◌, ◌||◌}
use mathlib.Core.List.{List, [], ◌∷◌}
use text.Mathlib.Text.{◌==◌ as str_eq}
use fgvcplateform_public.Base.Tests.{leb, ltb, ◌==◌, if◌then◌else◌}
use fgvcplateform_public.Base.Lists.{all}

-- The code points of a text, which Go ranges over as runes.
abbrev pub runes : String → List ℕ
runes String.[] = []
runes (String.◌∷◌ letter tail) = code letter ∷ runes tail

-- How many bytes UTF-8 takes for a code point.
unfoldable pub utf8_width : ℕ → ℕ
utf8_width c = if ltb c 0x80 then 1 else if ltb c 0x800 then 2 else if ltb c 0x10000 then 3 else 4

abbrev sum_widths : List ℕ → ℕ
sum_widths [] = 0
sum_widths (c ∷ cs) = utf8_width c + sum_widths cs

-- len(s), in bytes
unfoldable pub byte_len : String → ℕ
unfolding utf8_width
byte_len s = sum_widths (runes s)

-- unicode.IsSpace, which strings.TrimSpace strips at both ends
unfoldable pub is_space : ℕ → Bool
is_space c =
    (leb 9 c && leb c 13)
    || c == 32
    || c == 0x85
    || c == 0xa0
    || c == 0x1680
    || (leb 0x2000 c && leb c 0x200a)
    || c == 0x2028
    || c == 0x2029
    || c == 0x202f
    || c == 0x205f
    || c == 0x3000

-- strings.TrimSpace(s) == ""
unfoldable pub is_blank : String → Bool
unfolding is_space
is_blank s = all is_space (runes s)

unfoldable pub is_hex_digit : ℕ → Bool
is_hex_digit c = (leb b'0' c && leb c b'9') || (leb b'a' c && leb c b'f')

-- strings.Trim(s, "0123456789abcdef") == ""
unfoldable pub is_hex : String → Bool
unfolding is_hex_digit
is_hex s = all is_hex_digit (runes s)

-- s == ""
abbrev pub is_empty : String → Bool
is_empty s = str_eq s ""

abbrev drop_spaces : String → String
drop_spaces String.[] = String.[]
drop_spaces (String.◌∷◌ c s) =
    let rest = drop_spaces s in if is_space (code c) then rest else String.◌∷◌ c s

abbrev drop_end_spaces : String → String
drop_end_spaces String.[] = String.[]
drop_end_spaces (String.◌∷◌ c s) =
    let rest = drop_end_spaces s in
    if is_space (code c) && is_empty rest then String.[] else String.◌∷◌ c rest

-- strings.TrimSpace
unfoldable pub trim_space : String → String
unfolding is_space
trim_space s = drop_end_spaces (drop_spaces s)
