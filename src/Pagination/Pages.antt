-- ===== src/Pagination/Pages.antt =====
-- `PagesLinks` against the reference layout, with the padding that `NewPaginationView` sets.
use news_tracker.Prelude.{
  ℕ, zero, suc, ◌+◌, ◌-◌, ◌*◌, ◌/◌, ◌≤◌, ◌<◌, true, false, ◌||◌, ◌≡◌, ◌⊎◌, refl, ◌∙◌, inl, inr, ◌∷◌,
  map, leb, ◌==◌, leb→le, if◌then◌else◌, Bool-cases, arith,
}
use std.Path.{ap₂}
use native.Mathlib.Nat.{lt-div-mul-add, div-mul-le_self}
use news_tracker.Prelude.Int.{ℤ, pos, ◌+ℤ◌, ◌-ℤ◌, eq_ℤ, leb_ℤ, ltb_ℤ}
use news_tracker.Pagination.{
  Float64, UrlPackage, links, failed, invalid_page, total_pages, page_links_range, middle_links,
  pages_links,
}
use news_tracker.Pagination.Floats.{ceil_divide}
use news_tracker.Pagination.Links.{
  page, gap, pages_from, View, link_of, Makes, page_links_range-Makes,
}
use news_tracker.Pagination.Window.{layout, reference}
use news_tracker.Pagination.Closed.{left_reference, right_reference}
use news_tracker.Pagination.Middle.{limit, middle_links-left, middle_links-right}

-- `isFirstPage` holds exactly with two pages in all.
first_page :
    (q total : ℕ)
    → suc q ≤ total
    → total < limit
    → eq_ℤ (pos (suc q) +ℤ pos 1 -ℤ pos total +ℤ pos 1) (pos (suc q)) ≡ (total == 2)
unfolding ◌+ℤ◌ ◌-ℤ◌
first_page q total h l = ground arith

-- Where the layout of the code is the reference layout: two pages or more behind the current one, or
-- at most two pages in all, or from the fourth page on.
abbrev pub IsRegular : ℕ → ℕ → Type 0
IsRegular current total = (current + 2 ≤ total) ⊎ ((total ≤ 2) ⊎ (4 ≤ current))

all_pages :
    (current total : ℕ)
    → 0 < current
    → current ≤ total
    → total ≤ 2
    → reference current total ≡ pages_from total 1
unfolding layout
all_pages current zero p c t = absurd (omega arith)
all_pages zero (suc zero) p c t = absurd (omega arith)
all_pages (suc zero) (suc zero) p c t = refl
all_pages (suc (suc q)) (suc zero) p c t = absurd (omega arith)
all_pages zero (suc (suc zero)) p c t = absurd (omega arith)
all_pages (suc zero) (suc (suc zero)) p c t = refl
all_pages (suc (suc zero)) (suc (suc zero)) p c t = refl
all_pages (suc (suc (suc q))) (suc (suc zero)) p c t = absurd (omega arith)
all_pages current (suc (suc (suc n))) p c t = absurd (omega arith)

next_multiple : (a b : ℕ) → 0 < b → a < a / b * b + b
next_multiple a b p = lt-div-mul-add p

module _ (floats : Float64) (urls : UrlPackage) where
  -- Two pages or more behind the current one.
  middle_links-near :
      (v : View floats urls) (q total : ℕ)
      → suc q + 2 ≤ total
      → total < limit
      → Makes floats urls v
          (middle_links floats urls (pos (suc q)) (pos 1) (pos total) v)
          (reference (suc q) total)
  middle_links-near v q total near l =
      let e : ℕ = total - (suc q + 2) in
      let et : total ≡ suc q + 2 + e = omega arith in
      rw (left_reference total q e et) (middle_links-left floats urls v q e total et l)

  -- From the fourth page on, at the end.
  middle_links-late :
      (v : View floats urls) (k d : ℕ)
      → d < 2
      → suc (suc (suc k)) + 3 < limit
      → (total : ℕ) → total ≡ suc (suc (suc (suc k))) + d
      → Makes floats urls v
          (middle_links floats urls
            (pos (suc (suc (suc (suc k)))))
            (pos 1)
            (pos (suc (suc (suc (suc k))) + d))
            v)
          (reference (suc (suc (suc (suc k)))) total)
  middle_links-late v k d few l total et =
      rw (right_reference k d total few et)
        (middle_links-right floats urls v (suc (suc (suc k))) d (omega arith) few (omega arith) l)

  -- The links behind the tests of `PagesLinks`, with more than two pages.
  middle_links-reference :
      (v : View floats urls) (q total : ℕ)
      → suc q ≤ total
      → 2 < total
      → total + 3 < limit
      → IsRegular (suc q) total
      → Makes floats urls v
          (middle_links floats urls (pos (suc q)) (pos 1) (pos total) v)
          (reference (suc q) total)
  middle_links-reference v q total c t l (inl near) = middle_links-near v q total near (omega arith)
  middle_links-reference v q total c t l (inr (inl two)) = absurd (omega arith)
  middle_links-reference v zero total c t l (inr (inr late)) = absurd (omega arith)
  middle_links-reference v (suc zero) total c t l (inr (inr late)) = absurd (omega arith)
  middle_links-reference v (suc (suc zero)) total c t l (inr (inr late)) = absurd (omega arith)
  middle_links-reference v (suc (suc (suc k))) total c t l (inr (inr late)) =
      let q : ℕ = suc (suc (suc k)) in
      let d : ℕ = total - suc q in
      let et : suc q + d ≡ total = omega arith in
      elim (Bool-cases (leb (suc q + 2) total)) [
        | inl e ↦ middle_links-near v q total (leb→le (suc q + 2) total e) (omega arith)
        | inr e ↦
            rw et at (middle_links-late v k d (ground arith) (omega arith) total (omega arith))
      ]

  -- What `PagesLinks` returns for a page between 1 and the last.
  module _ (v : View floats urls) (q total : ℕ) (c : suc q ≤ total) (l : total + 3 < limit)
      (pad : v.cursor_padding ≡ pos 1) (pages : total_pages floats urls v ≡ pos total) where
    inside : ltb_ℤ (pos total) (pos (suc q)) ≡ false
    inside = ground arith

    above : ltb_ℤ (pos (suc q)) (pos 1) ≡ false
    above = ground arith

    few_or_many : leb_ℤ (pos total) (pos 1) || (total == 2) ≡ leb total 2
    few_or_many = ground arith

    pages_links_inside :
        (pages_links floats urls (pos (suc q)) v).0
        ≡ links (
            if leb total 2
            then (page_links_range floats urls (pos 1) (pos total) v).0
            else (middle_links floats urls (pos (suc q)) (pos 1) (pos total) v).0)
    unfolding pages_links
    pages_links_inside = elim (Bool-cases (leb total 2)) [
      | inl e ↦
          simp (pages, pad, first_page q total c (omega arith), inside, above, few_or_many, e) refl
      | inr e ↦
          simp (pages, pad, first_page q total c (omega arith), inside, above, few_or_many, e) refl
    ]

  few_pages-Makes :
      (v : View floats urls) (total : ℕ)
      → 0 < total
      → total + 3 < limit
      → Makes floats urls v
          (page_links_range floats urls (pos 1) (pos total) v)
          (pages_from total 1)
  few_pages-Makes v zero p l = absurd (omega arith)
  few_pages-Makes v (suc n) p l =
      let e : 1 + n ≡ suc n = omega arith in
      rw e at (page_links_range-Makes floats urls 1 n v (omega arith))

  -- For a page between 1 and the last, fewer than 2^53 - 3 pages, with the padding that `NewPaginationView` sets and where the
  -- layout is regular, `PagesLinks` returns the links of the reference layout: the first page, the
  -- last, the current one with its neighbours, and a placeholder for each run of pages left out.
  pub pages_links-reference :
      (v : View floats urls) (current total : ℕ)
      → v.cursor_padding ≡ pos 1
      → total_pages floats urls v ≡ pos total
      → 0 < current
      → current ≤ total
      → total + 3 < limit
      → IsRegular current total
      → (pages_links floats urls (pos current) v).0
        ≡ links (map (link_of floats urls v) (reference current total))
  pages_links-reference v zero total pad pages p c l r = absurd (omega arith)
  pages_links-reference v (suc q) total pad pages p c l r = elim (Bool-cases (leb total 2)) [
    | inl few ↦
        pages_links_inside v q total c l pad pages
        ∙ rw
            (
              few,
              all_pages (suc q) total (omega arith) c (leb→le total 2 few),
              (few_pages-Makes v total (omega arith) l).0,
            )
            refl
    | inr many ↦
        pages_links_inside v q total c l pad pages
        ∙ rw (many, (middle_links-reference v q total c (ground arith) l r).0) refl
  ]

  -- With the padding of `NewPaginationView`, outside the regular layout, on page 2 or 3 of at least three pages with fewer than two pages
  -- behind it, the links are those of page 1, a placeholder, and the pages from the one in front of
  -- the current page to the last: the placeholder stands for no page.
  pub pages_links-crowded :
      (v : View floats urls) (current d : ℕ)
      → v.cursor_padding ≡ pos 1
      → total_pages floats urls v ≡ pos (current + d)
      → 1 < current
      → current < 4
      → d < 2
      → 2 < current + d
      → (pages_links floats urls (pos current) v).0
        ≡ links
            (map (link_of floats urls v) (page 1 ∷ gap ∷ pages_from (suc (suc d)) (current - 1)))
  pages_links-crowded v zero d pad pages p c few three = absurd (omega arith)
  pages_links-crowded v (suc q) d pad pages p c few three =
      let many : leb (suc q + d) 2 ≡ false = ground arith in
      let front : suc q - 1 ≡ q = omega arith in
      pages_links_inside v q (suc q + d) (omega arith) (omega arith) pad pages
      ∙ rw
          (
            many,
            front,
            (middle_links-right floats urls v q d (omega arith) few three (omega arith)).0,
          )
          refl

  -- A page below 1 or above the last is refused with `ErrInvalidPage`, whatever the padding is, and
  -- the view's url is not touched.
  pub pages_links-invalid :
      (v : View floats urls) (current : ℤ)
      → (ltb_ℤ (total_pages floats urls v) current || ltb_ℤ current (pos 1)) ≡ true
      → pages_links floats urls current v ≡ (failed invalid_page, v)
  unfolding pages_links
  pages_links-invalid v current h = rw h refl

  total_pages-quotient :
      (v : View floats urls) (items per : ℕ)
      → v.items_count ≡ pos items
      → v.items_per_page ≡ pos per
      → 0 < per
      → items < limit
      → per < limit
      → total_pages floats urls v ≡ pos ((items + per - 1) / per)
  unfolding total_pages
  total_pages-quotient v items per i p pos_per li lp =
      ap₂
        (λ (a b : ℤ).
          floats.to_int (floats.ceil (floats.divide (floats.of_int a) (floats.of_int b))))
        i p
      ∙ ceil_divide floats items per li pos_per lp

  -- `TotalPages` counts the pages, where both numbers are below 2^53 and a page holds an item or more:
  -- all items fit, and on one page fewer they would not.
  pub total_pages-count :
      (v : View floats urls) (items per : ℕ)
      → v.items_count ≡ pos items
      → v.items_per_page ≡ pos per
      → 0 < per
      → items < limit
      → per < limit
      → (total : ℕ) × (total_pages floats urls v ≡ pos total)
        × (items ≤ total * per)
        × (total * per < items + per)
  total_pages-count v items per i p pos_per li lp = (
    (items + per - 1) / per,
    total_pages-quotient v items per i p pos_per li lp,
    omega (arith, next_multiple (items + per - 1) per pos_per),
    omega (arith, div-mul-le_self (items + per - 1) per),
  )
