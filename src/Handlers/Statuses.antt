-- ===== src/Handlers/Statuses.antt =====
-- How a bad query is answered.
use news_tracker.Prelude.{
  ℕ, false, ◌≡◌, refl, inl, inr, Option, some, none, List, [], ◌∷◌, ◌++◌, Bytes, codes, eq_bytes,
  Bool-cases, Outcome, ok, panic, timeout, ◌>>=◌,
}
use news_tracker.Prelude.Int.{ℤ, pos}
use news_tracker.Dates.{Clock, Parsed, parsed, failed, panicked, parse_query_string}
use news_tracker.Dates.Strings.{atoi}
use news_tracker.Handlers.{
  RequestError, unsupported, article_err_handler, Query, get_article_sorting_query,
  get_number_query, number_or_error, get_text_query, Reply, get_date_query, date_or_error, written,
  unless_error, get_articles,
}

abbrev pub All500 : List ℕ → Type 0
All500 [] = Unit {0}
All500 (status ∷ statuses) = (status ≡ 500) × All500 statuses

-- No error, or one with a message.
abbrev IsJoined : Option RequestError → Type 0
IsJoined none = Unit {0}
IsJoined (some e) = e ≡ unsupported

sorting-IsJoined : (query : Query) (d : Bytes) → IsJoined (get_article_sorting_query query d).1
unfolding get_article_sorting_query
sorting-IsJoined query d = elim (Bool-cases (eq_bytes (query (codes "sort")) (codes "newest"))) [
  | inl y ↦ rw y tt
  | inr n ↦ elim (Bool-cases (eq_bytes (query (codes "sort")) (codes "oldest"))) [
    | inl y ↦ rw (n, y) tt
    | inr o ↦ elim (Bool-cases (eq_bytes (query (codes "sort")) [])) [
      | inl y ↦ rw (n, o, y) tt
      | inr e ↦ rw (n, o, e) refl
    ]
  ]
]

number_or_error-IsJoined : (n : Option ℤ) → IsJoined (number_or_error n).1
number_or_error-IsJoined none = refl
number_or_error-IsJoined (some n) = tt

number-IsJoined :
    (query : Query) (name : Bytes) (d : ℤ) → IsJoined (get_number_query query name d).1
unfolding get_number_query
number-IsJoined query name d = elim (Bool-cases (eq_bytes (query name) [])) [
  | inl y ↦ rw y tt
  | inr n ↦ rw n (number_or_error-IsJoined (atoi (query name)))
]

module _ (clock : Clock) (zero_time : clock.Time) where
  abbrev pub Answers500 : Outcome (Reply clock zero_time) → Type 0
  Answers500 (ok r) = All500 r.0
  Answers500 panic = Unit {0}
  Answers500 timeout = ⊥

  written-All500 : (err : Option RequestError) → IsJoined err → All500 (written clock zero_time err)
  unfolding article_err_handler
  written-All500 none j = tt
  written-All500 (some e) j = (rw j refl, tt)

  append-All500 : (a b : List ℕ) → All500 a → All500 b → All500 (a ++ b)
  append-All500 [] b p q = q
  append-All500 (x ∷ a) b (p, ps) q = (p, append-All500 a b ps q)

  unless-Answers500 :
      (statuses : List ℕ) (err : Option RequestError) (rest : Outcome (Reply clock zero_time))
      → All500 statuses
      → IsJoined err
      → Answers500 rest
      → Answers500 (unless_error clock zero_time statuses err rest)
  unless-Answers500 statuses none rest s j r = r
  unless-Answers500 statuses (some e) rest s j r =
      append-All500 statuses _ s (written-All500 (some e) j)

  date_or_error-Answers500 :
      (d : Parsed clock.Time)
      (f : clock.Time × Option RequestError → Outcome (Reply clock zero_time))
      → ((r : clock.Time × Option RequestError) → IsJoined r.1 → Answers500 (f r))
      → Answers500 (date_or_error clock zero_time d >>= f)
  date_or_error-Answers500 (parsed t) f h = h (t, none) tt
  date_or_error-Answers500 (failed e) f h = h (zero_time, some unsupported) refl
  date_or_error-Answers500 panicked f h = tt

  date-Answers500 :
      (query : Query) (name : Bytes)
      (f : clock.Time × Option RequestError → Outcome (Reply clock zero_time))
      → ((r : clock.Time × Option RequestError) → IsJoined r.1 → Answers500 (f r))
      → Answers500 (get_date_query clock zero_time query name >>= f)
  unfolding get_date_query
  date-Answers500 query name f h = elim (Bool-cases (eq_bytes (query name) [])) [
    | inl y ↦ rw y (h (zero_time, none) tt)
    | inr n ↦ rw n (date_or_error-Answers500 (parse_query_string clock (query name)) f h)
  ]

  -- Whatever the query is, every status that the reading of its parameters writes is 500: a bad
  -- parameter is never answered with the 406 of `ErrUnsupportedQueryParam`.
  pub get_articles-Answers500 : (query : Query) → Answers500 (get_articles clock zero_time query)
  unfolding get_articles
  get_articles-Answers500 query =
      let s = written-All500 _ (sorting-IsJoined query (codes "newest")) in
      date-Answers500 query (codes "start_date") _ λ start js. unless-Answers500 _ start.1 _ s js (
        date-Answers500 query (codes "end_date") _ λ end je. unless-Answers500 _ end.1 _ s je (
          unless-Answers500 _ _ _ s (number-IsJoined query (codes "page") (pos 1))
            (unless-Answers500 _ _ _ s (number-IsJoined query (codes "page_size") (pos 7)) s)))

  -- With a sorting that is neither empty nor known, no dates and no numbers in the query, 500 is
  -- written and the handler is called all the same, with an empty sorting.
  pub get_articles-bad_sorting :
      (query : Query)
      → eq_bytes (query (codes "sort")) (codes "newest") ≡ false
      → eq_bytes (query (codes "sort")) (codes "oldest") ≡ false
      → eq_bytes (query (codes "sort")) [] ≡ false
      → query (codes "start_date") ≡ []
      → query (codes "end_date") ≡ []
      → query (codes "page") ≡ []
      → query (codes "page_size") ≡ []
      → get_articles clock zero_time query
        ≡ ok (
          500 ∷ [],
          some (record {
            sorting = [];
            start_date = zero_time;
            end_date = zero_time;
            text_lexems = get_text_query query;
            page = pos 1;
            page_size = pos 7;
          }),
        )
  unfolding get_articles get_date_query get_number_query get_article_sorting_query eq_bytes
      article_err_handler
  get_articles-bad_sorting query n o e start end page size =
      rw (n, o, e, start, end, page, size) refl
