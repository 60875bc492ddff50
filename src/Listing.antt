-- ===== src/Listing.antt =====
-- backend/internal/handler/v1/article.go on top of `GetArticles`, `GetArticleByID` and `GetArticlesCount`
-- of the service and of the pagination; `GetArticleByID` of article_wrapper.go; pkg/hashutils and
-- pkg/sqlutils. The queries, the cache, sha256 and the format of times are parameters.
pub mod Stale
use news_tracker.Prelude.{
  ℕ, zero, suc, ◌+◌, ◌-◌, ◌*◌, ◌/◌, ◌%◌, ◌^◌, ◌≤◌, ◌<◌, String, Bool, true, false, not, ◌&&◌, ◌||◌,
  ◌≡◌, ◌≢◌, ◌↔◌, ◌⊎◌, refl, sym, ap, ◌∙◌, fun_ext, inl, inr, Option, some, none, List, [], ◌∷◌,
  ◌++◌, map, map-append, append_assoc, append-nil, Bytes, codes, length, length-append, get_elem?,
  get_elem?-append, get_elem?-some, get_elem?-none, take, drop, drop-length, take-length, ltb, leb,
  ◌==◌, ==_iff, ltb→lt, leb→le, eq_bytes, eq_bytes_iff, eq_bytes_refl, has_prefix, contains,
  replace_all, replace_from, StringMap, find, put, remove, find-put, find-remove, if◌then◌else◌,
  Bool-cases, Option-cases, Outcome, ok, panic, timeout, ◌>>=◌, Ends, Ends-bind, Ends-if,
  Ends-weaken, Ends-ne-timeout, Returns, Returns-bind, Safe, Safe-bind, Safe-if, Keeps, Keeps-bind,
  Keeps-if, Safe-Keeps, Returns-if, Returns-Safe, Returns-weaken, length-slice, arith,
}
use news_tracker.Prelude.Int.{ℤ, pos, negsuc, ◌-ℤ◌, ◌*ℤ◌}
use news_tracker.Errors.{Error, articles_not_found, article_not_found, is_no_rows, other}
use news_tracker.Dates.{Clock}
use news_tracker.Dates.Strings.{atoi}
use news_tracker.Accessor.{
  ArticleRowImage, ArticlesRow, ModelArticle, Answer, answer, failed, articles_from_articles_rows,
  article_from_article_by_id_row,
}
use news_tracker.Counts.{CountStore, get_articles_count}
use news_tracker.Handlers.{RequestError, from_service, article_err_handler, GetArticlesQueryParams}
use news_tracker.Pagination.{
  Float64, UrlPackage, PaginationLink, PagesResult, PaginationView, pages_links,
  new_pagination_view,
}

-- storage.ArticlesParams and storage.GetArticleCountParams; a sql.NullTime that is not valid is `none`, and
-- the default start date, one for all requests, is left to the queries.
pub record ArticlesParams (Time : Type 0) : Type 0 where
  pub start_date : Option Time
  pub end_date : Option Time
  pub lexems : List Bytes
  pub article_sorting : Bytes
  pub page : ℤ
  pub page_size : ℤ

pub record CountParams (Time : Type 0) : Type 0 where
  pub start_date : Option Time
  pub end_date : Option Time
  pub lexems : List Bytes

-- The database and the key-value bucket; `none` of `get` is an error.
pub record ArticleStore (clock : Clock) : Type 1 where
  pub State : Type 0
  pub articles : ArticlesParams clock.Time → State → List (ArticlesRow clock.Time) × Option Error
  pub article_by_id : ℤ → State → ArticlesRow clock.Time × Option Error
  pub article_count : CountParams clock.Time → State → ℤ × Option Error
  pub get : Bytes → State → Option Bytes
  pub store : Bytes → Bytes → State → Option Error × State
  -- A value that was stored is read back.
  pub get-store :
      (k v : Bytes) (s : State) → (store k v s).0 ≡ none → get k (store k v s).1 ≡ some v

-- `Time.Equal`, the `%s` of two times with a dot between them, and the hexadecimal sha256.
pub record KeyFormat (Time : Type 0) : Type 0 where
  pub zero_time : Time
  pub equal : Time → Time → Bool
  pub sprint_times : Time → Time → Bytes
  pub generate_hash : Bytes → Bytes

-- strings.Join
unfoldable pub join : List Bytes → Bytes → Bytes
join [] sep = []
join (word ∷ []) sep = word
join (word ∷ next ∷ words) sep = word ++ (sep ++ join (next ∷ words) sep)

pub data ListingReply : Type 0 where
  status : ℕ → ListingReply
  listing : List ModelArticle → List PaginationLink → ListingReply
  article : ModelArticle → ListingReply

module _ (clock : Clock) (format : KeyFormat clock.Time) where
  open format use {zero_time, equal, sprint_times, generate_hash}

  abbrev pub Params : Type 0
  Params = GetArticlesQueryParams clock zero_time

  unfoldable pub get_nullable_sql_time : clock.Time → Option clock.Time
  get_nullable_sql_time u = if equal zero_time u then none else some u

  -- The second assignment to `key` is not `+=`.
  unfoldable pub get_cache_key : clock.Time → clock.Time → List Bytes → Bytes
  unfolding join
  get_cache_key start_date end_date text_lexems =
      let key = sprint_times start_date end_date in
      let key = join text_lexems (codes ".") in generate_hash key

  abbrev pub count_params : Params → CountParams clock.Time
  count_params params = record {
    start_date = get_nullable_sql_time params.start_date;
    end_date = get_nullable_sql_time params.end_date;
    lexems = params.text_lexems;
  }

  abbrev pub articles_params : Params → ArticlesParams clock.Time
  articles_params params = record {
    start_date = get_nullable_sql_time params.start_date;
    end_date = get_nullable_sql_time params.end_date;
    lexems = params.text_lexems;
    article_sorting = params.sorting;
    page = (params.page -ℤ pos 1) *ℤ params.page_size;
    page_size = params.page_size;
  }

  -- What `GetArticlesCount` has of the store, with the parameters of one request.
  abbrev pub bucket_of : ArticleStore clock → CountParams clock.Time → CountStore
  bucket_of store params = record {
    State = store.State;
    get = store.get;
    store = store.store;
    count = store.article_count params;
    get-store = store.get-store;
  }

  module _ (store : ArticleStore clock) where
    -- The cached count of a request.
    unfoldable pub count_for : Params → store.State → (ℤ × Option Error) × store.State
    unfolding get_cache_key get_articles_count
    count_for params s =
        get_articles_count (bucket_of store (count_params params))
          (get_cache_key params.start_date params.end_date params.text_lexems) s

  module _ (store : ArticleStore clock)
      (unmarshal_images : Bytes → Option (List ArticleRowImage)) where
    abbrev pub or_not_found : Error → Option Error → Bool → Bool
    or_not_found e none empty = empty
    or_not_found e (some err) empty = is_no_rows err || empty

    abbrev pub is_empty : List (ArticlesRow clock.Time) → Bool
    is_empty [] = true
    is_empty (row ∷ rows) = false

    abbrev pub articles_of :
        List (ArticlesRow clock.Time) × Option Error → Answer (List ModelArticle)
    articles_of (rows, err) =
        if or_not_found articles_not_found err (is_empty rows)
        then failed articles_not_found
        else articles_from_articles_rows clock unmarshal_images rows

    -- `ArticleService.GetArticles`
    unfoldable pub find_articles : Params → store.State → Answer (List ModelArticle)
    find_articles params s = articles_of (store.articles (articles_params params) s)

    abbrev pub article_of : ArticlesRow clock.Time × Option Error → Answer ModelArticle
    article_of (row, err) =
        if or_not_found article_not_found err false
        then failed article_not_found
        else article_from_article_by_id_row clock unmarshal_images row

    -- `ArticleService.GetArticleByID`; an error but ErrNoRows is not looked at.
    unfoldable pub find_article : ℤ → store.State → Answer ModelArticle
    find_article id s = article_of (store.article_by_id id s)

    abbrev pub reply_of : List ModelArticle → PagesResult → ListingReply
    reply_of articles (PagesResult.links pages) = listing articles pages
    reply_of articles (PagesResult.failed e) =
        status (article_err_handler (from_service (other (codes "invalid page."))))

    module _ (floats : Float64) (urls : UrlPackage) where
      abbrev pub listing_of :
          urls.Url → Params → Answer (List ModelArticle) → store.State → ListingReply × store.State
      listing_of url params (failed e) s = (status (article_err_handler (from_service e)), s)
      listing_of url params (answer articles) s =
          let ((count, err), s') = count_for store params s in
          (
            reply_of articles
                (pages_links floats urls params.page
                  (new_pagination_view floats urls url params.page_size count (codes "page"))).0,
            s',
          )

      -- `articleHandler.GetArticles`: the error of the count is overwritten.
      unfoldable pub reply_articles : urls.Url → Params → store.State → ListingReply × store.State
      unfolding find_articles count_for
      reply_articles url params s = listing_of url params (find_articles params s) s

    abbrev pub article_reply : Answer ModelArticle → ListingReply
    article_reply (failed e) = status (article_err_handler (from_service e))
    article_reply (answer a) = article a

    -- `GetArticleByID` of the wrapper and of the handler.
    unfoldable pub reply_article : Bytes → store.State → ListingReply
    unfolding find_article
    reply_article id_param s = elim (atoi id_param) [
      | none ↦ status 428
      | some id ↦ article_reply (find_article id s)
    ]
