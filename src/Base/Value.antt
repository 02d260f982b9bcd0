-- ===== src/Base/Value.antt =====
-- Go's `any`, as far as the program puts it into its maps, and `map[string]any`.
use Prim.Native.Nat.{ℕ}
use Prim.Native.String.{String}
use mathlib.Core.Bool.{Bool, false}
use mathlib.Core.Option.{Option, some}
use text.Mathlib.Text.{◌==◌ as str_eq}
use fgvcplateform_public.Base.Assoc.{Assoc, lookup}

mutual
  pub data Value : Type 0 where
    null : Value
    flag : Bool → Value
    number : ℕ → Value
    str : String → Value
    array : Values → Value
    object : Fields → Value

  pub data Values : Type 0 where
    nil : Values
    cons : Value → Values → Values

  pub data Fields : Type 0 where
    end : Fields
    field : String → Value → Fields → Fields

abbrev pub ValueMap : Type 0
ValueMap = Assoc Value

-- `m[key] == s` for a string `s`: an interface equals a string only if it holds that string.
abbrev pub is_text : Option Value → String → Bool
is_text (some (str t)) s = str_eq t s
is_text _ s = false

-- `value, _ := m[key].(string)`
abbrev pub text_or_empty : Option Value → String
text_or_empty (some (str t)) = t
text_or_empty _ = ""

abbrev pub holds_text : ValueMap → String → String → Bool
holds_text m key s = is_text (lookup key m) s
