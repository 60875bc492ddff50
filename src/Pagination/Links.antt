-- ===== src/Pagination/Links.antt =====
-- The links do not depend on the order in which they are made, although each one overwrites the url.
use news_tracker.Prelude.{
  ℕ, zero, suc, ◌+◌, ◌-◌, ◌<◌, false, ◌≡◌, refl, sym, ap, ◌∙◌, fun_ext, List, [], ◌∷◌, ◌++◌, map,
  map-append, arith,
}
use news_tracker.Prelude.Int.{pos, pos-add, pos-sub, int_half}
use news_tracker.Prelude.Decimal.{sprint}
use news_tracker.Pagination.{
  Float64, UrlPackage, PaginationLink, make_link_placeholder, PaginationView, make_link_from_url,
  links_from, page_links_range,
}

-- One entry of the pagination: a page, or the placeholder.
pub data Item : Type 0 where
  page : ℕ → Item
  gap : Item

-- The pages `a`, `a + 1`, …, `n` of them.
abbrev pub pages_from : ℕ → ℕ → List Item
pages_from zero a = []
pages_from (suc n) a = page a ∷ pages_from n (suc a)

module _ (floats : Float64) (urls : UrlPackage) where
  open urls use {
    query, set, encode, with_raw_query, show, query-encode, set-set, with_raw_query-twice,
  }

  abbrev pub View : Type 0
  View = PaginationView floats urls

  -- The entry that a view shows for an item.
  abbrev pub link_of : View → Item → PaginationLink
  link_of v gap = make_link_placeholder
  link_of v (page n) = record {
    link = show (
        with_raw_query v.url (encode (set (query v.url) v.page_query_param_name (sprint (pos n)))));
    page_number = sprint (pos n);
    placeholder = false;
  }

  -- The links are those of the items, and the view left behind makes the same links.
  abbrev pub Makes : View → List PaginationLink × View → List Item → Type 0
  Makes v r items = (r.0 ≡ map (link_of v) items) × (link_of r.1 ≡ link_of v)

  link_of-make_link :
      (n : ℕ) (v : View) → link_of (make_link_from_url floats urls (pos n) v).1 ≡ link_of v
  unfolding make_link_from_url
  link_of-make_link n v = fun_ext λ i. same i
    where
      same : (i : Item) → link_of (make_link_from_url floats urls (pos n) v).1 i ≡ link_of v i
      same gap = refl
      same (page m) = rw (
        query-encode v.url v.url v.page_query_param_name (sprint (pos n)),
        set-set,
        with_raw_query-twice,
      )

  pub make_link-Makes :
      (n : ℕ) (v : View)
      → Makes v
          (
            (make_link_from_url floats urls (pos n) v).0 ∷ [],
            (make_link_from_url floats urls (pos n) v).1,
          )
          (page n ∷ [])
  make_link-Makes n v = (unfold make_link_from_url in refl, link_of-make_link n v)

  pub Makes-append :
      (v : View) (r : List PaginationLink × View) (s : List PaginationLink × View)
      (xs ys : List Item)
      → Makes v r xs
      → Makes r.1 s ys
      → Makes v (r.0 ++ s.0, s.1) (xs ++ ys)
  Makes-append v r s xs ys (lr, vr) (ls, vs) =
      (rw (lr, ls, vr) (sym (map-append (link_of v) xs ys)), vs ∙ vr)

  links_from-Makes :
      (n i s : ℕ) (v : View)
      → i + s + n < int_half
      → Makes v (links_from floats urls n (pos i) (pos s) v) (pages_from n (i + s))
  unfolding links_from
  links_from-Makes zero i s v h = (refl, refl)
  links_from-Makes (suc n) i s v h =
      let first : PaginationLink × View = make_link_from_url floats urls (pos (i + s)) v in
      let e : suc (i + s) ≡ i + 1 + s = omega arith in
      rw (pos-add i s (omega arith), pos-add i 1 (omega arith), e)
        (Makes-append v (first.0 ∷ [], first.1)
          (links_from floats urls n (pos (i + 1)) (pos s) first.1) (page (i + s) ∷ [])
          (pages_from n (i + 1 + s)) (make_link-Makes (i + s) v)
          (links_from-Makes n (i + 1) s first.1 (omega arith)))

  -- The pages from `a` to `a + n`.
  pub page_links_range-Makes :
      (a n : ℕ) (v : View)
      → a + n + 1 < int_half
      → Makes v (page_links_range floats urls (pos a) (pos (a + n)) v) (pages_from (suc n) a)
  unfolding page_links_range
  page_links_range-Makes a n v h =
      let length : a + n - a ≡ n = omega arith in
      let first : 0 + a ≡ a = omega arith in
      rw (pos-sub (a + n) a (omega arith) (omega arith), length)
        (rw first at (links_from-Makes (suc n) 0 a v (omega arith)))

  pub Makes-gap :
      (v : View) (r : List PaginationLink × View) (xs : List Item)
      → Makes v r xs
      → Makes v (make_link_placeholder ∷ r.0, r.1) (gap ∷ xs)
  Makes-gap v r xs (l, s) = (ap (◌∷◌ make_link_placeholder) l, s)

  -- The second operation's links in front, with a placeholder between.
  pub Makes-in_front :
      (v : View) (r : List PaginationLink × View) (s : List PaginationLink × View)
      (xs ys : List Item)
      → Makes v r xs
      → Makes r.1 s ys
      → Makes v (s.0 ++ make_link_placeholder ∷ r.0, s.1) (ys ++ gap ∷ xs)
  Makes-in_front v r s xs ys (lr, vr) (ls, vs) =
      (rw (lr, ls, vr) (sym (map-append (link_of v) ys (gap ∷ xs))), vs ∙ vr)
