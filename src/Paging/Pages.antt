-- ===== src/Paging/Pages.antt =====
-- A page is what it should be: the elements from the offset on, as many as the limit.
use fgvcplateform_public.Base.{
  ℕ, String, Option, zero, suc, ◌+◌, ◌-◌, ◌≤◌, ◌≡◌, refl, sym, ap, ◌∙◌, List, [], ◌∷◌, ltb, ℤ, pos,
  negsuc, take, drop, length, arith, Bool-cases, inl, inr,
}
use fgvcplateform_public.Paging.{
  normalize_page_bounds, capped, page_filter, value_or_zero, page_window, page_of,
}

module _ {ℓ} {A : Type ℓ} where
  drop-length : (n : ℕ) (xs : List A) → length (drop n xs) ≡ length xs - n
  drop-length zero xs = omega arith
  drop-length (suc n) [] = omega arith
  drop-length (suc n) (x ∷ xs) = drop-length n xs ∙ omega arith

  drop_past : (n : ℕ) (xs : List A) → length xs ≤ n → drop n xs ≡ []
  drop_past zero [] h = refl
  drop_past zero (x ∷ xs) h = absurd (omega arith)
  drop_past (suc n) [] h = refl
  drop_past (suc n) (x ∷ xs) h = drop_past n xs (omega arith)

  take_past : (n : ℕ) (xs : List A) → length xs ≤ n → take n xs ≡ xs
  take_past zero [] h = refl
  take_past zero (x ∷ xs) h = absurd (omega arith)
  take_past (suc n) [] h = refl
  take_past (suc n) (x ∷ xs) h = ap (λ ys. x ∷ ys) (take_past n xs (omega arith))

  take_nil : (n : ℕ) → take {A = A} n [] ≡ []
  take_nil zero = refl
  take_nil (suc n) = refl

-- The page that the window cuts out is the list without its first `offset` elements, cut to
-- `limit` elements, also where the offset or the limit goes past the end.
pub page_of-take {ℓ} :
    {A : Type ℓ} (xs : List A) (limit offset : ℕ)
    → page_of xs limit offset ≡ take limit (drop offset xs)
unfolding page_of page_window
page_of-take xs limit offset = elim (Bool-cases (ltb (length xs) offset)) [
  | inl p ↦
      let here = drop_past (length xs) xs (omega arith) in
      let there = drop_past offset xs (ground (arith, p)) in
      rw (p, here, there)
        (take_nil (capped (length xs) (length xs + limit) - length xs) ∙ sym (take_nil limit))
  | inr p ↦ elim (Bool-cases (ltb (length xs) (offset + limit))) [
    | inl q ↦
        let left = drop-length offset xs in
        rw (p, q)
          (take_past (length xs - offset) (drop offset xs) (omega (arith, left))
            ∙ sym (take_past limit (drop offset xs) (ground (arith, left, q))))
    | inr q ↦
        let size : offset + limit - offset ≡ limit = omega arith in
        rw (p, q) (ap (λ k. take k (drop offset xs)) size)
  ]
]

page_window-normalize :
    (total : ℕ) (limit offset : ℤ)
    → let b = normalize_page_bounds limit offset in
      let w = page_window total b.0 b.1 in
      (w.0 ≤ w.1) × (w.1 ≤ total) × (w.1 ≤ w.0 + 100) × (1 ≤ b.0)
unfolding page_window normalize_page_bounds
page_window-normalize total (pos l) (pos o) = ground arith
page_window-normalize total (pos l) (negsuc o) = ground arith
page_window-normalize total (negsuc l) (pos o) = ground arith
page_window-normalize total (negsuc l) (negsuc o) = ground arith

-- For any bounds that a request names or leaves out, negative and huge ones too, the window of its
-- page filter lies inside the list and is at most 100 long, and a page has room for an element.
pub page_window-page_filter :
    (total : ℕ) (query status dataset_id backbone_id : Option String) (limit offset : Option ℤ)
    → let f = page_filter query status dataset_id backbone_id limit offset in
      let w = page_window total f.limit f.offset in
      (w.0 ≤ w.1) × (w.1 ≤ total) × (w.1 ≤ w.0 + 100) × (1 ≤ f.limit)
unfolding page_filter
page_window-page_filter total query status dataset_id backbone_id limit offset =
    page_window-normalize total (value_or_zero limit) (value_or_zero offset)
