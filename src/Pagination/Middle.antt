-- ===== src/Pagination/Middle.antt =====
-- The links that `PagesLinks` makes behind its tests, as items.
use news_tracker.Prelude.{
  ℕ, zero, suc, ◌+◌, ◌-◌, ◌^◌, ◌<◌, true, false, ◌≡◌, [], ◌∷◌, ◌++◌, leb, if◌then◌else◌, arith,
}
use news_tracker.Prelude.Int.{pos, ◌+ℤ◌, ◌-ℤ◌, pos-add, pos-sub, eq_ℤ, leb_ℤ, ltb_ℤ}
use news_tracker.Pagination.{
  Float64, UrlPackage, make_link_placeholder, make_link_from_url, page_links_range, left_links,
  right_links, last_links, middle_links,
}
use news_tracker.Pagination.Links.{
  page, gap, pages_from, View, Makes, make_link-Makes, Makes-append, Makes-gap, Makes-in_front,
  page_links_range-Makes,
}
use news_tracker.Pagination.Window.{tail_of}
use news_tracker.Pagination.Closed.{left_items}

-- The pages that a float64 holds exactly.
abbrev pub limit : ℕ
limit = 2 ^ 53

module _ (q : ℕ) (h : q + 3 < limit) where
  page_minus : pos (suc q) -ℤ pos 1 ≡ pos q
  page_minus =
      let e : suc q - 1 ≡ q = omega arith in rw (pos-sub (suc q) 1 (omega arith) (omega arith), e)

  page_plus : pos (suc q) +ℤ pos 1 ≡ pos (q + 2)
  page_plus = let e : suc q + 1 ≡ q + 2 = omega arith in rw (pos-add (suc q) 1 (omega arith), e)

module _ (floats : Float64) (urls : UrlPackage) where
  left_links-Makes :
      (v : View floats urls) (q : ℕ)
      → q + 3 < limit
      → Makes floats urls v (left_links floats urls (pos (suc q)) (pos 1) v) (left_items q)
  unfolding left_links
  left_links-Makes v zero h =
      unfold ◌+ℤ◌ ◌-ℤ◌ in page_links_range-Makes floats urls 1 1 v (omega arith)
  left_links-Makes v (suc zero) h =
      unfold ◌+ℤ◌ ◌-ℤ◌ in page_links_range-Makes floats urls 1 2 v (omega arith)
  left_links-Makes v (suc (suc zero)) h =
      let first = page_links_range floats urls (pos 1) (pos 1) v in
      unfold ◌+ℤ◌ ◌-ℤ◌ in
      Makes-append floats urls v first (page_links_range floats urls (pos 2) (pos 4) first.1)
        (page 1 ∷ []) (pages_from 3 2) (page_links_range-Makes floats urls 1 0 v (omega arith))
        (page_links_range-Makes floats urls 2 2 first.1 (omega arith))
  left_links-Makes v (suc (suc (suc q))) h =
      let n : ℕ = suc (suc (suc q)) in
      let first = page_links_range floats urls (pos 1) (pos 1) v in
      let window = page_links_range floats urls (pos n) (pos (n + 2)) first.1 in
      let far : leb_ℤ (pos n) (pos 1) ≡ false = ground arith in
      let before : pos n -ℤ pos 1 ≡ pos (suc (suc q)) = page_minus (suc (suc q)) (omega arith) in
      let not_next : eq_ℤ (pos (suc (suc q))) (pos 1) ≡ false = ground arith in
      rw (page_minus n h, page_plus n h, far, before, not_next)
        (Makes-append floats urls v first (make_link_placeholder ∷ window.0, window.1) (page 1 ∷ [])
          (gap ∷ pages_from 3 n) (page_links_range-Makes floats urls 1 0 v (omega arith))
          (Makes-gap floats urls first.1 window (pages_from 3 n)
            (page_links_range-Makes floats urls n 2 first.1 (omega arith))))

  right_links-Makes :
      (v : View floats urls) (q e total : ℕ)
      → total ≡ suc q + 2 + e
      → total < limit
      → Makes floats urls v
          (right_links floats urls (pos (suc q)) (pos 1) (pos total) v)
          (tail_of (suc q) total e)
  unfolding right_links
  right_links-Makes v q zero total et l =
      let near : leb_ℤ (pos total) (pos (q + 2 + 1)) ≡ true = ground arith in
      rw (page_plus q (omega arith), pos-add (q + 2) 1 (omega arith), near)
        (make_link-Makes floats urls total v)
  right_links-Makes v q (suc e) total et l =
      let far : leb_ℤ (pos total) (pos (q + 2 + 1)) ≡ false = ground arith in
      let last = make_link_from_url floats urls (pos total) v in
      rw (page_plus q (omega arith), pos-add (q + 2) 1 (omega arith), far)
        (Makes-gap floats urls v (last.0 ∷ [], last.1) (page total ∷ [])
          (make_link-Makes floats urls total v))

  -- Two pages or more behind the current one.
  pub middle_links-left :
      (v : View floats urls) (q e total : ℕ)
      → total ≡ suc q + 2 + e
      → total < limit
      → Makes floats urls v
          (middle_links floats urls (pos (suc q)) (pos 1) (pos total) v)
          (left_items q ++ tail_of (suc q) total e)
  unfolding middle_links
  middle_links-left v q e total et l =
      let left = left_links floats urls (pos (suc q)) (pos 1) v in
      let is_left : ltb_ℤ (pos (if leb q 1 then 1 else q)) (pos total) ≡ true = ground arith in
      let is_right : ltb_ℤ (pos (total - 1)) (pos (if leb (q + 2) total then q + 2 else total))
          ≡ false =
        ground arith in
      rw
        (
          page_minus q (omega arith),
          page_plus q (omega arith),
          floats.max_exact q 1 (omega arith) (omega arith),
          floats.min_exact (q + 2) total (omega arith) l,
          pos-sub total 1 (omega arith) (omega arith),
          is_left,
          is_right,
        )
        (Makes-append floats urls v left
          (right_links floats urls (pos (suc q)) (pos 1) (pos total) left.1) (left_items q)
          (tail_of (suc q) total e) (left_links-Makes v q (omega arith))
          (right_links-Makes left.1 q e total et l))

  last_links-Makes :
      (v : View floats urls) (q n : ℕ)
      → q + 3 < limit
      → n < 3
      → Makes floats urls v
          (last_links floats urls (pos q) (pos (q + n)) v)
          (page 1 ∷ gap ∷ pages_from (suc n) q)
  unfolding last_links
  last_links-Makes v q n h l =
      let window = page_links_range floats urls (pos q) (pos (q + n)) v in
      let first = make_link_from_url floats urls (pos 1) window.1 in
      Makes-in_front floats urls v window (first.0 ∷ [], first.1) (pages_from (suc n) q)
        (page 1 ∷ []) (page_links_range-Makes floats urls q n v (omega arith))
        (make_link-Makes floats urls 1 window.1)

  -- The last page, or the one in front of it.
  pub middle_links-right :
      (v : View floats urls) (q d : ℕ)
      → 0 < q
      → d < 2
      → 2 < suc q + d
      → q + 3 < limit
      → Makes floats urls v
          (middle_links floats urls (pos (suc q)) (pos 1) (pos (suc q + d)) v)
          (page 1 ∷ gap ∷ pages_from (suc (suc d)) q)
  unfolding middle_links
  middle_links-right v q d p m three l =
      let total = suc q + d in
      let is_right : ltb_ℤ (pos (total - 1)) (pos (if leb (q + 2) total then q + 2 else total))
          ≡ true =
        ground arith in
      let left_border : (if leb q 1 then 1 else q) ≡ q = ground arith in
      let right_border : (if leb (q + 2) total then q + 2 else total) ≡ q + suc d = ground arith in
      let is_left : ltb_ℤ (pos q) (pos total) ≡ true = ground arith in
      rw
        (
          page_minus q (omega arith),
          page_plus q (omega arith),
          floats.max_exact q 1 (omega arith) (omega arith),
          floats.min_exact (q + 2) total (omega arith) (omega arith),
          pos-sub total 1 (omega arith) (omega arith),
          is_right,
          left_border,
          right_border,
          is_left,
        )
        (last_links-Makes v q (suc d) (omega arith) (omega arith))
