-- ===== src/Paging.antt =====
-- go/internal/httpapi/pagination.go, and the window of ListPage in
-- go/internal/modelregistry/registry.go: pages of a list. After normalizePageBounds no bound is
-- negative, so the window is over natural numbers; its sums stay below 2 ^ 63.
use fgvcplateform_public.Base.{
  ℕ, String, Option, none, some, trim_space, ◌+◌, ◌-◌, List, Bool, if◌then◌else◌, ltb, leb, ℤ, pos,
  negsuc, take, drop, length, ◌^◌, true,
}
mod Pages

abbrev pub clamp_limit : ℤ → ℕ
clamp_limit (negsuc n) = 1
clamp_limit (pos n) = if ltb n 1 then 1 else if ltb 100 n then 100 else n

abbrev pub clamp_offset : ℤ → ℕ
clamp_offset (negsuc n) = 0
clamp_offset (pos n) = n

unfoldable pub normalize_page_bounds : ℤ → ℤ → ℕ × ℕ
normalize_page_bounds limit offset = (clamp_limit limit, clamp_offset offset)

abbrev pub capped : ℕ → ℕ → ℕ
capped total n = if ltb total n then total else n

pub record PageFilter : Type 0 where
  pub query : String
  pub status : String
  pub dataset_id : String
  pub backbone_id : String
  pub limit : ℕ
  pub offset : ℕ

-- Unlike *value, a nil pointer reads as the zero value.
abbrev pub or_empty : Option String → String
or_empty none = ""
or_empty (some s) = s

unfoldable pub value_or_zero : Option ℤ → ℤ
value_or_zero none = pos 0
value_or_zero (some n) = n

unfoldable pub page_filter :
    Option String → Option String → Option String → Option String → Option ℤ → Option ℤ → PageFilter
page_filter q status dataset_id backbone_id limit offset =
    let bounds = normalize_page_bounds (value_or_zero limit) (value_or_zero offset) in
    record {
      query = trim_space (or_empty q);
      status = or_empty status;
      dataset_id = or_empty dataset_id;
      backbone_id = or_empty backbone_id;
      limit = bounds.0;
      offset = bounds.1;
    }

unfoldable pub page_window : ℕ → ℕ → ℕ → ℕ × ℕ
page_window total limit offset =
    let start = capped total offset in (start, capped total (start + limit))

-- filtered[offset:end]
unfoldable pub page_of {ℓ} : {A : Type ℓ} → List A → ℕ → ℕ → List A
page_of xs limit offset =
    let w = page_window (length xs) limit offset in take (w.1 - w.0) (drop w.0 xs)

-- offset+limit < total, in 64-bit arithmetic: a sum of 2 ^ 63 or more has become negative
unfoldable pub has_more : ℕ → ℕ → ℕ → Bool
has_more total limit offset =
    if leb (2 ^ 63) (offset + limit) then true else ltb (offset + limit) total
