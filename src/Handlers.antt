-- ===== src/Handlers.antt =====
-- backend/internal/handler/v1/article_wrapper.go: how the query of a request for articles is read, and
-- the status that an error is answered with. A query is the function that `Get` is.
pub mod Statuses
use news_tracker.Prelude.{
  ℕ, zero, suc, ◌+◌, ◌-◌, ◌*◌, ◌/◌, ◌%◌, ◌^◌, ◌≤◌, ◌<◌, String, Bool, true, false, not, ◌&&◌, ◌||◌,
  ◌≡◌, ◌≢◌, ◌↔◌, ◌⊎◌, refl, sym, ap, ◌∙◌, fun_ext, inl, inr, Option, some, none, List, [], ◌∷◌,
  ◌++◌, map, map-append, append_assoc, append-nil, Bytes, codes, length, length-append, get_elem?,
  get_elem?-append, get_elem?-some, get_elem?-none, take, drop, drop-length, take-length, ltb, leb,
  ◌==◌, ==_iff, ltb→lt, leb→le, eq_bytes, eq_bytes_iff, eq_bytes_refl, has_prefix, contains,
  replace_all, replace_from, StringMap, find, put, remove, find-put, find-remove, if◌then◌else◌,
  Bool-cases, Option-cases, Outcome, ok, panic, timeout, ◌>>=◌, Ends, Ends-bind, Ends-if,
  Ends-weaken, Ends-ne-timeout, Returns, Returns-bind, arith,
}
use news_tracker.Prelude.Int.{ℤ, pos, negsuc}
use news_tracker.Errors.{Error, no_rows, articles_not_found, article_not_found, joined, other}
use news_tracker.Dates.{Clock, Parsed, parsed, failed, panicked, parse_query_string}
use news_tracker.Dates.Strings.{split, atoi}

-- The errors of a request: one of the service's, or `ErrUnsupportedQueryParam`, or that one joined
-- behind a message.
pub data RequestError : Type 0 where
  from_service : Error → RequestError
  unsupported_query_param : RequestError
  with_message : RequestError → RequestError

-- The switch of `articleErrHandler`, which compares by `==`.
unfoldable pub article_err_handler : RequestError → ℕ
article_err_handler (from_service articles_not_found) = 404
article_err_handler (from_service article_not_found) = 404
article_err_handler (from_service e) = 500
article_err_handler unsupported_query_param = 406
article_err_handler (with_message e) = 500

abbrev pub Query : Type 0
Query = Bytes → Bytes

abbrev pub unsupported : RequestError
unsupported = with_message unsupported_query_param

unfoldable pub get_article_sorting_query : Query → Bytes → Bytes × Option RequestError
get_article_sorting_query query default_val =
    let sorting_param = query (codes "sort") in
    if eq_bytes sorting_param (codes "newest")
    then (codes "newest", none)
    else if eq_bytes sorting_param (codes "oldest")
    then (codes "oldest", none)
    else if eq_bytes sorting_param []
    then (default_val, none)
    else ([], some unsupported)

abbrev pub number_or_error : Option ℤ → ℤ × Option RequestError
number_or_error none = (negsuc 0, some unsupported)
number_or_error (some n) = (n, none)

-- `getPageQuery` and `getPageSizeQuery`.
unfoldable pub get_number_query : Query → Bytes → ℤ → ℤ × Option RequestError
get_number_query query name default_val =
    if eq_bytes (query name) [] then (default_val, none) else number_or_error (atoi (query name))

unfoldable pub get_text_query : Query → List Bytes
get_text_query query = split (query (codes "text")) b' '

module _ (clock : Clock) (zero_time : clock.Time) where
  pub record GetArticlesQueryParams : Type 0 where
    pub sorting : Bytes
    pub start_date : clock.Time
    pub end_date : clock.Time
    pub text_lexems : List Bytes
    pub page : ℤ
    pub page_size : ℤ

  -- The statuses that were written, and the parameters that the handler behind is called with.
  abbrev pub Reply : Type 0
  Reply = List ℕ × Option GetArticlesQueryParams

  abbrev pub date_or_error : Parsed clock.Time → Outcome (clock.Time × Option RequestError)
  date_or_error (parsed t) = ok (t, none)
  date_or_error (failed e) = ok (zero_time, some unsupported)
  date_or_error panicked = panic

  unfoldable pub get_date_query : Query → Bytes → Outcome (clock.Time × Option RequestError)
  get_date_query query name =
      if eq_bytes (query name) []
      then ok (zero_time, none)
      else date_or_error (parse_query_string clock (query name))

  abbrev pub written : Option RequestError → List ℕ
  written none = []
  written (some e) = article_err_handler e ∷ []

  -- An error is written and ends the request.
  abbrev pub unless_error : List ℕ → Option RequestError → Outcome Reply → Outcome Reply
  unless_error statuses (some e) rest = ok (statuses ++ written (some e), none)
  unless_error statuses none rest = rest

  -- A bad sorting is written, and does not end the request.
  unfoldable pub get_articles : Query → Outcome Reply
  get_articles query =
      let (sorting, sorting_err) = get_article_sorting_query query (codes "newest") in
      let statuses = written sorting_err in
      let (page, page_err) = get_number_query query (codes "page") (pos 1) in
      let (page_size, page_size_err) = get_number_query query (codes "page_size") (pos 7) in
      get_date_query query (codes "start_date") >>= λ start. unless_error statuses start.1 (
        get_date_query query (codes "end_date") >>= λ end. unless_error statuses end.1 (
          unless_error statuses page_err (
            unless_error statuses page_size_err (
              ok (
                statuses,
                some (record {
                  sorting = sorting;
                  start_date = start.0;
                  end_date = end.0;
                  text_lexems = get_text_query query;
                  page = page;
                  page_size = page_size;
                }),
              )))))
