-- ===== src/Examples/Pagination.antt =====
-- The pagination's properties at concrete inputs, over rational numbers and one query parameter.
use news_tracker.Prelude.{
  ℕ, ◌+◌, ◌-◌, ◌*◌, ◌/◌, ◌≤◌, ◌<◌, ◌≡◌, refl, ap, inl, [], ◌∷◌, ◌++◌, map, Bytes, codes, leb,
  if◌then◌else◌, arith,
}
use native.Mathlib.Nat.{lt-div-mul-add, div-mul-le_self, div-eq_of_eq-mul_left, div-one}
use news_tracker.Prelude.Int.{ℤ, pos, negsuc}
use news_tracker.Pagination.{
  Float64, UrlPackage, PaginationView, new_pagination_view, pages_links, total_pages, links,
}
use news_tracker.Pagination.Links.{page, gap, link_of}
use news_tracker.Pagination.Window.{layout, reference}
use news_tracker.Pagination.Pages.{pages_links-reference, pages_links-crowded, total_pages-count}

-- Fractions without a rounding error: the numerator, and one less than the denominator.
abbrev Fraction : Type 0
Fraction = ℕ × ℕ

abbrev natural : ℤ → ℕ
natural (pos n) = n
natural (negsuc n) = 0

abbrev quotient : Fraction → Fraction → Fraction
quotient f g = (f.0 * (g.1 + 1), (f.1 + 1) * g.0 - 1)

abbrev ceiling : Fraction → ℕ
ceiling f = (f.0 + f.1) / (f.1 + 1)

ceiling_least :
    (f : Fraction) → (f.0 ≤ ceiling f * (f.1 + 1)) × (ceiling f * (f.1 + 1) < f.0 + (f.1 + 1))
ceiling_least f = (
  omega (arith, lt-div-mul-add {a = f.0 + f.1} {b = f.1 + 1} (omega arith)),
  omega (arith, div-mul-le_self (f.0 + f.1) (f.1 + 1)),
)

quotient_value :
    (a b : ℕ) → 0 < b → ((quotient (a, 0) (b, 0)).0 ≡ a) × ((quotient (a, 0) (b, 0)).1 + 1 ≡ b)
quotient_value a b p = (omega arith, omega arith)

abbrev fractions : Float64
fractions = record {
  Float = Fraction;
  of_int = λ n. (natural n, 0);
  to_int = λ f. pos (f.0 / (f.1 + 1));
  divide = quotient;
  ceil = λ f. (ceiling f, 0);
  max = λ f g. (if leb f.0 g.0 then g.0 else f.0, 0);
  min = λ f g. (if leb f.0 g.0 then f.0 else g.0, 0);
  value = λ f. (f.0, f.1 + 1);
  IsFinite = λ f. Unit {0};
  has_denominator = λ f t. omega arith;
  divide_finite = λ a b l p m. tt;
  divide_exact = λ a b k l p m e. rw ((quotient_value a b p).0, (quotient_value a b p).1) e;
  divide_near = λ a b l p m.
      rw ((quotient_value a b p).0, (quotient_value a b p).1) (omega arith, omega arith);
  ceil_least = λ f t. (ceiling f, tt, omega arith, (ceiling_least f).0, (ceiling_least f).1);
  to_int_exact = λ f n t l e. ap pos (div-eq_of_eq-mul_left (omega arith) e);
  max_exact = λ a b l m. ap pos (div-one _);
  min_exact = λ a b l m. ap pos (div-one _);
}

-- A url is its path and a query of one parameter.
abbrev one_parameter : UrlPackage
one_parameter = record {
  Url = Bytes × Bytes;
  Values = Bytes;
  query = λ u. u.1;
  set = λ q k v. k ++ codes "=" ++ v;
  encode = λ q. q;
  with_raw_query = λ u q. (u.0, q);
  show = λ u. u.0 ++ codes "?" ++ u.1;
  query-encode = λ u w k v. refl;
  set-set = λ q k v w. refl;
  with_raw_query-twice = λ u a b. refl;
}

-- Ten items to a page.
abbrev view_of : ℕ → PaginationView fractions one_parameter
view_of items =
    new_pagination_view fractions one_parameter (codes "/articles", []) (pos 10) (pos items)
      (codes "page")

pages_links-reference_example :
    (pages_links fractions one_parameter (pos 5) (view_of 98)).0
    ≡ links (map (link_of fractions one_parameter (view_of 98)) (reference 5 10))
unfolding total_pages
pages_links-reference_example =
    pages_links-reference fractions one_parameter (view_of 98) 5 10 refl refl (omega arith)
      (omega arith) (omega arith) (inl (omega arith))

reference_test : reference 5 10 ≡ page 1 ∷ gap ∷ page 4 ∷ page 5 ∷ page 6 ∷ gap ∷ page 10 ∷ []
unfolding layout
reference_test = refl

pages_links-crowded_example :
    (pages_links fractions one_parameter (pos 2) (view_of 30)).0
    ≡ links (
        map
          (link_of fractions one_parameter (view_of 30))
          (page 1 ∷ gap ∷ page 1 ∷ page 2 ∷ page 3 ∷ []))
unfolding total_pages
pages_links-crowded_example =
    pages_links-crowded fractions one_parameter (view_of 30) 2 1 refl refl (omega arith)
      (omega arith) (omega arith) (omega arith)

total_pages-count_example :
    (total : ℕ) × (total_pages fractions one_parameter (view_of 98) ≡ pos total)
    × (98 ≤ total * 10)
    × (total * 10 < 98 + 10)
total_pages-count_example =
    total_pages-count fractions one_parameter (view_of 98) 98 10 refl refl (omega arith)
      (omega arith) (omega arith)
