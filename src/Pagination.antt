-- ===== src/Pagination.antt =====
-- pkg/paginationutils/paginationutils.go. An `int` is a ℤ wrapped to 64 bits. Go's floats and its
-- net/url are parameters. `makeLinkFromUrl` writes the view's url, so every operation that makes
-- links returns the view.
pub mod Links
pub mod Window
pub mod Closed
pub mod Middle
pub mod Floats
pub mod Pages
use news_tracker.Prelude.{
  ℕ, zero, suc, ◌+◌, ◌-◌, ◌*◌, ◌/◌, ◌%◌, ◌^◌, ◌≤◌, ◌<◌, String, Bool, true, false, not, ◌&&◌, ◌||◌,
  ◌≡◌, ◌≢◌, ◌↔◌, ◌⊎◌, refl, sym, ap, ◌∙◌, fun_ext, inl, inr, Option, some, none, List, [], ◌∷◌,
  ◌++◌, map, append_assoc, append-nil, Bytes, codes, length, length-append, get_elem?,
  get_elem?-append, get_elem?-some, get_elem?-none, take, drop, drop-length, take-length, ltb, leb,
  ◌==◌, ==_iff, ltb→lt, leb→le, eq_bytes, eq_bytes_iff, eq_bytes_refl, has_prefix, contains,
  replace_all, replace_from, StringMap, find, put, remove, find-put, find-remove, if◌then◌else◌,
  Bool-cases, Option-cases, arith,
}
use news_tracker.Prelude.Int.{ℤ, pos, negsuc, ◌+ℤ◌, ◌-ℤ◌, ltb_ℤ, leb_ℤ, eq_ℤ}
use news_tracker.Prelude.Decimal.{sprint}

-- Go's float64, as far as the program uses it, with what IEEE arithmetic and `math` promise: `value` is
-- a float that is finite and not negative as a numerator and a denominator. The quotient of two integers below 2^53
-- is exact where it is an integer and else has a relative error of 2^-53 at most; `Ceil` is the least
-- integer that is not below its argument.
pub record Float64 : Type 1 where
  pub Float : Type 0
  pub of_int : ℤ → Float
  pub to_int : Float → ℤ
  pub divide : Float → Float → Float
  pub ceil : Float → Float
  pub max : Float → Float → Float
  pub min : Float → Float → Float
  pub value : Float → ℕ × ℕ
  -- Neither negative nor infinite nor NaN.
  pub IsFinite : Float → Type 0
  pub has_denominator : (x : Float) → IsFinite x → 0 < (value x).1
  pub divide_exact :
      (a b k : ℕ)
      → a < 2 ^ 53
      → 0 < b
      → b < 2 ^ 53
      → a ≡ k * b
      → (value (divide (of_int (pos a)) (of_int (pos b)))).0
        ≡ k * (value (divide (of_int (pos a)) (of_int (pos b)))).1
  pub divide_finite :
      (a b : ℕ)
      → a < 2 ^ 53
      → 0 < b
      → b < 2 ^ 53
      → IsFinite (divide (of_int (pos a)) (of_int (pos b)))
  pub divide_near :
      (a b : ℕ)
      → a < 2 ^ 53
      → 0 < b
      → b < 2 ^ 53
      → let x = value (divide (of_int (pos a)) (of_int (pos b))) in
        (a * x.1 * 2 ^ 53 ≤ x.0 * b * 2 ^ 53 + a * x.1)
        × (x.0 * b * 2 ^ 53 ≤ a * x.1 * 2 ^ 53 + a * x.1)
  pub ceil_least :
      (x : Float)
      → IsFinite x
      → (n : ℕ) × IsFinite (ceil x)
        × ((value (ceil x)).0 ≡ n * (value (ceil x)).1)
        × ((value x).0 ≤ n * (value x).1)
        × (n * (value x).1 < (value x).0 + (value x).1)
  pub to_int_exact :
      (x : Float) (n : ℕ)
      → IsFinite x
      → n < 2 ^ 63
      → (value x).0 ≡ n * (value x).1
      → to_int x ≡ pos n
  pub max_exact :
      (a b : ℕ)
      → a < 2 ^ 53
      → b < 2 ^ 53
      → to_int (max (of_int (pos a)) (of_int (pos b))) ≡ pos (if leb a b then b else a)
  pub min_exact :
      (a b : ℕ)
      → a < 2 ^ 53
      → b < 2 ^ 53
      → to_int (min (of_int (pos a)) (of_int (pos b))) ≡ pos (if leb a b then a else b)

-- Go's net/url: `Query`, `Values.Set`, `Values.Encode`, an assignment to `RawQuery`, and `String`.
pub record UrlPackage : Type 1 where
  pub Url : Type 0
  pub Values : Type 0
  pub query : Url → Values
  pub set : Values → Bytes → Bytes → Values
  pub encode : Values → Bytes
  pub with_raw_query : Url → Bytes → Url
  pub show : Url → Bytes
  -- Values that were parsed and then set are parsed back from their encoding.
  pub query-encode :
      (u w : Url) (k v : Bytes)
      → query (with_raw_query w (encode (set (query u) k v))) ≡ set (query u) k v
  -- A second `Set` of a key replaces the first.
  pub set-set : (q : Values) (k v w : Bytes) → set (set q k v) k w ≡ set q k w
  pub with_raw_query-twice :
      (u : Url) (a b : Bytes) → with_raw_query (with_raw_query u a) b ≡ with_raw_query u b

pub record PaginationLink : Type 0 where
  pub link : Bytes
  pub page_number : Bytes
  pub placeholder : Bool

pub data Error : Type 0 where
  invalid_page : Error

pub data PagesResult : Type 0 where
  links : List PaginationLink → PagesResult
  failed : Error → PagesResult

abbrev pub make_link_placeholder : PaginationLink
make_link_placeholder = record { link = codes "..."; page_number = codes "..."; placeholder = true }

module _ (floats : Float64) (urls : UrlPackage) where
  open floats use {of_int, to_int, divide, ceil, max, min}
  open urls use {Url, query, set, encode, with_raw_query, show}

  pub record PaginationView : Type 0 where
    pub cursor_padding : ℤ
    pub items_per_page : ℤ
    pub items_count : ℤ
    pub page_query_param_name : Bytes
    pub url : Url

  infixl 5 ◌>>=◌
  abbrev pub ◌>>=◌ :
      {A B : Type 0}
      → (PaginationView → A × PaginationView)
      → (A → PaginationView → B × PaginationView)
      → PaginationView
      → B × PaginationView
  ◌>>=◌ m f v = let (a, v') = m v in f a v'

  abbrev pub pure : {A : Type 0} → A → PaginationView → A × PaginationView
  pure a v = (a, v)

  unfoldable pub total_pages : PaginationView → ℤ
  total_pages v = to_int (ceil (divide (of_int v.items_count) (of_int v.items_per_page)))

  unfoldable pub make_link_from_url : ℤ → PaginationView → PaginationLink × PaginationView
  make_link_from_url page v =
      let query_values = set (query v.url) v.page_query_param_name (sprint page) in
      let v' = record v { url = with_raw_query v.url (encode query_values) } in
      (record { link = show v'.url; page_number = sprint page; placeholder = false }, v')

  -- The rounds of the loop that are left, and its counter.
  unfoldable pub links_from : ℕ → ℤ → ℤ → PaginationView → List PaginationLink × PaginationView
  links_from zero i start = pure []
  links_from (suc n) i start = do
    l ← make_link_from_url (i +ℤ start)
    ls ← links_from n (i +ℤ pos 1) start
    pure (l ∷ ls)

  abbrev pub rounds : ℤ → ℕ
  rounds (pos n) = suc n
  rounds (negsuc n) = 0

  unfoldable pub page_links_range : ℤ → ℤ → PaginationView → List PaginationLink × PaginationView
  page_links_range start end = links_from (rounds (end -ℤ start)) (pos 0) start

  abbrev pub max_int : ℤ → ℤ → ℤ
  max_int a b = to_int (max (of_int a) (of_int b))

  abbrev pub min_int : ℤ → ℤ → ℤ
  min_int a b = to_int (min (of_int a) (of_int b))

  -- The links in front of the window and the window itself, where the right end is far.
  unfoldable pub left_links : ℤ → ℤ → PaginationView → List PaginationLink × PaginationView
  left_links page pad =
      let left_side = page -ℤ pad in
      let page_offset = page -ℤ pos 1 in
      let offset = if eq_ℤ page_offset (pos 0) then page_offset +ℤ pos 1 else page_offset in
      if leb_ℤ left_side (pos 1)
      then page_links_range offset (page +ℤ pad)
      else if eq_ℤ (page -ℤ pad -ℤ pos 1) (pos 1)
      then (do
        first ← page_links_range (pos 1) pad
        window ← page_links_range left_side (page +ℤ pad)
        pure (first ++ window))
      else do
        first ← page_links_range (pos 1) pad
        window ← page_links_range left_side (page +ℤ pad)
        pure (first ++ make_link_placeholder ∷ window)

  unfoldable pub right_links : ℤ → ℤ → ℤ → PaginationView → List PaginationLink × PaginationView
  right_links page pad total =
      if leb_ℤ total (page +ℤ pad +ℤ pos 1)
      then (do last ← make_link_from_url total; pure (last ∷ []))
      else do last ← make_link_from_url total; pure (make_link_placeholder ∷ last ∷ [])

  -- `rightLinks` is built before the link to page 1.
  unfoldable pub last_links : ℤ → ℤ → PaginationView → List PaginationLink × PaginationView
  last_links left_border right_border = do
    window ← page_links_range left_border right_border
    first ← make_link_from_url (pos 1)
    pure (first ∷ make_link_placeholder ∷ window)

  unfoldable pub middle_links : ℤ → ℤ → ℤ → PaginationView → List PaginationLink × PaginationView
  middle_links page pad total =
      let left_border = max_int (page -ℤ pad) (pos 1) in
      let right_border = min_int (page +ℤ pad) total in
      let is_left_border = ltb_ℤ left_border total in
      let is_right_border = ltb_ℤ (total -ℤ pad) right_border in
      if is_left_border && not is_right_border
      then (do left ← left_links page pad; right ← right_links page pad total; pure (left ++ right))
      else last_links left_border right_border

  unfoldable pub pages_links : ℤ → PaginationView → PagesResult × PaginationView
  pages_links page v =
      let total = total_pages v in
      let pad = v.cursor_padding in
      let is_first_page = eq_ℤ (page +ℤ pad -ℤ total +ℤ pos 1) page in
      if ltb_ℤ total page || ltb_ℤ page (pos 1)
      then (failed invalid_page, v)
      else if leb_ℤ total pad || is_first_page
      then (do all ← page_links_range (pos 1) total; pure (links all)) v
      else (do result ← middle_links page pad total; pure (links result)) v

  abbrev pub new_pagination_view : Url → ℤ → ℤ → Bytes → PaginationView
  new_pagination_view url items_per_page items_count name = record {
    cursor_padding = pos 1;
    items_per_page = items_per_page;
    items_count = items_count;
    page_query_param_name = name;
    url = url;
  }
