-- ===== src/Extract.antt =====
-- worker/internal/prebuiltemplate/newsfeed.go: the way from the feed's url to the articles of the channel.
pub mod Images
pub mod Page
pub mod Endings
pub mod Titles
pub mod Origin
use news_tracker.Prelude.{
  ℕ, zero, suc, ◌+◌, ◌-◌, ◌*◌, ◌/◌, ◌%◌, ◌^◌, ◌≤◌, ◌<◌, String, Bool, true, false, not, ◌&&◌, ◌||◌,
  ◌≡◌, ◌≢◌, ◌↔◌, ◌⊎◌, refl, sym, ap, ◌∙◌, fun_ext, inl, inr, Option, some, none, List, [], ◌∷◌,
  ◌++◌, map, map-append, append_assoc, append-nil, Bytes, codes, length, length-append, get_elem?,
  get_elem?-append, get_elem?-some, get_elem?-none, take, drop, drop-length, take-length, ltb, leb,
  ◌==◌, ==_iff, ltb→lt, leb→le, eq_bytes, eq_bytes_iff, eq_bytes_refl, has_prefix, contains,
  replace_all, replace_from, StringMap, find, put, remove, find-put, find-remove, if◌then◌else◌,
  Bool-cases, Option-cases, Outcome, ok, panic, timeout, ◌>>=◌, Ends, Ends-bind, Ends-if,
  Ends-weaken, Ends-ne-timeout, Returns, Returns-bind, Safe, Safe-bind, Safe-if, Keeps, Keeps-bind,
  Keeps-if, Safe-Keeps, Returns-if, Returns-Safe, Returns-weaken, length-slice, arith,
}
use news_tracker.Prelude.Int.{ℤ, pos}
use news_tracker.Errors.{Error}
use news_tracker.Dates.{Clock, Parsed, parsed, failed, panicked, parse_date_ua}
use news_tracker.Dates.Strings.{split, onto_first, atoi}
use news_tracker.Article.{ArticleDto, Formats, Article, zero_article}
use news_tracker.Ast.{Node, Heap}
use news_tracker.Token.Reader.{slash}
use news_tracker.Selector.{Tree, ClassSelector, attr_of, contains_class, new_class_selector}
use news_tracker.Parse.{Token, handle}
use news_tracker.Tokenizer.{IoReader, Tokenizer, new_tokenizer, has_err, next}
use news_tracker.Watch.{Watcher, Call, Schedule, parse_watched}
use news_tracker.Fields.{
  Codec, Field, NewsFeedConfig, PageArticle, content_of, contents, count_behind, formats_of,
  has_attr, is_img, next_of, on_content, on_content_images, on_info, on_main_image, on_preface,
  on_publish_date, on_title, src_of, viewers_count_selector, with_count, with_date, without,
  without_all,
}

-- strings.SplitAfter(s, "//")
unfoldable pub split_after : Bytes → List Bytes
split_after [] = [] ∷ []
split_after (b ∷ []) = (b ∷ []) ∷ []
split_after (b ∷ c ∷ s) = elim (b == slash && c == slash) [
  | true ↦ (slash ∷ slash ∷ []) ∷ split_after s
  | false ↦ onto_first b (split_after (c ∷ s))
]

-- An index into what a string is split into.
abbrev pub part_at : List Bytes → ℕ → Outcome Bytes
part_at parts i = elim (get_elem? parts i) [ none ↦ panic | some part ↦ ok part ]

-- The `origin` of a feed's url.
unfoldable pub origin_of : Bytes → Outcome Bytes
unfolding split_after
origin_of url = do behind ← part_at (split_after url) 1; part_at (split behind slash) 0

module _ (clock : Clock) (codec : Codec clock) where
  -- The switch on `field.Type`; a field of another type gets no selector.
  unfoldable pub callback_of :
      clock.Time
      → Bytes
      → Field
      → Option (List Node → (PageArticle clock codec) → Outcome (PageArticle clock codec))
  callback_of now prefix field =
      if eq_bytes field.type (codes "title")
      then some (on_title clock codec)
      else if eq_bytes field.type (codes "content")
      then some (λ nodes a. ok (on_content clock codec field nodes a))
      else if eq_bytes field.type (codes "preface")
      then some (on_preface clock codec)
      else if eq_bytes field.type (codes "published_at")
      then some (on_publish_date clock codec now)
      else if eq_bytes field.type (codes "info")
      then some (on_info clock codec)
      else if eq_bytes field.type (codes "main_image")
      then some (λ nodes a. ok (on_main_image clock codec prefix nodes a))
      else if eq_bytes field.type (codes "content_images")
      then some (λ nodes a. ok (on_content_images clock codec prefix nodes a))
      else none

  unfoldable pub selectors_of :
      clock.Time → Bytes → List Field → List (Watcher (PageArticle clock codec))
  unfolding callback_of
  selectors_of now prefix [] = []
  selectors_of now prefix (field ∷ fields) =
      let rest = selectors_of now prefix fields in
      elim (callback_of now prefix field) [
        | none ↦ rest
        | some f ↦
            record { selector = new_class_selector (field.class_selector ∷ []); callback = f }
            ∷ rest
      ]

  module _ (source : IoReader) where
    -- `onArticlePageNode` behind the request: the article that goes into the channel.
    unfoldable pub read_article :
        Schedule (PageArticle clock codec)
        → ℕ
        → ℕ
        → clock.Time
        → NewsFeedConfig
        → Bytes
        → source.State
        → Outcome (PageArticle clock codec)
    unfolding parse_watched selectors_of
    read_article schedule rounds fuel now config origin page = do
      article ←
          parse_watched (PageArticle clock codec) source schedule rounds fuel
            (new_tokenizer source page)
            (selectors_of now config.article_prefix_url config.article_config)
            (zero_article (formats_of clock codec))
      ok (record article { origin = origin })

    -- http.Get: `none` is an error. The order of the goroutines of a page is given by its url.
    unfoldable pub on_article_page_node :
        (Bytes → Option source.State)
        → (Bytes → Schedule (PageArticle clock codec))
        → ℕ
        → ℕ
        → clock.Time
        → NewsFeedConfig
        → Bytes
        → Node
        → List (PageArticle clock codec)
        → Outcome (List (PageArticle clock codec))
    unfolding read_article
    on_article_page_node get orders rounds fuel now config origin node channel =
        let url = config.article_prefix_url ++ attr_of (codes "href") node in
        elim (get url) [
          | none ↦ ok channel
          | some page ↦ read_article (orders url) rounds fuel now config origin page >>= λ a.
              ok (channel ++ a ∷ [])
        ]

    -- The first node of the tree with one of the classes of the page selector.
    unfoldable pub on_news_feed_article_node :
        (Bytes → Option source.State)
        → (Bytes → Schedule (PageArticle clock codec))
        → ℕ
        → ℕ
        → clock.Time
        → NewsFeedConfig
        → Bytes
        → List Node
        → List (PageArticle clock codec)
        → Outcome (List (PageArticle clock codec))
    unfolding on_article_page_node
    on_news_feed_article_node get orders rounds fuel now config origin [] channel = ok channel
    on_news_feed_article_node get orders rounds fuel now config origin (n ∷ nodes) channel =
        let rest =
          on_news_feed_article_node get orders rounds fuel now config origin nodes channel in
        if contains_class (attr_of (codes "class") n) config.article_page_selector
        then on_article_page_node get orders rounds fuel now config origin n channel
        else rest

    -- What `Start` waits for: its context, or a tick, with what the network has then and the order
    -- of the goroutines on its pages.
    pub data FeedEvent : Type 0 where
      done : FeedEvent
      tick :
          (now : clock.Time) (get : Bytes → Option source.State)
          (orders : Bytes → Schedule (PageArticle clock codec))
          → FeedEvent

    -- One selector is one goroutine a token, in the one order that there is.
    unfoldable pub refresh :
        (Bytes → Option source.State)
        → (Bytes → Schedule (PageArticle clock codec))
        → ℕ
        → ℕ
        → clock.Time
        → NewsFeedConfig
        → Bytes
        → List (PageArticle clock codec)
        → Outcome (List (PageArticle clock codec))
    unfolding parse_watched on_news_feed_article_node
    refresh get orders rounds fuel now config origin channel = elim (get config.news_feed_url) [
      | none ↦ ok channel
      | some page ↦
          parse_watched (List (PageArticle clock codec)) source (λ n calls. calls) rounds fuel
            (new_tokenizer source page)
            (record {
              selector = new_class_selector config.news_feed_article_selector;
              callback = on_news_feed_article_node get orders rounds fuel now config origin;
            }
              ∷ [])
            channel
    ]

    unfoldable pub run_feed :
        ℕ
        → ℕ
        → NewsFeedConfig
        → Bytes
        → List FeedEvent
        → List (PageArticle clock codec)
        → Outcome (List (PageArticle clock codec))
    unfolding refresh
    run_feed rounds fuel config origin [] channel = ok channel
    run_feed rounds fuel config origin (done ∷ events) channel = ok channel
    run_feed rounds fuel config origin (tick now get orders ∷ events) channel =
        refresh get orders rounds fuel now config origin channel >>= λ channel.
        run_feed rounds fuel config origin events channel

    -- The articles of the channel, in order.
    unfoldable pub start :
        ℕ → ℕ → NewsFeedConfig → List FeedEvent → Outcome (List (PageArticle clock codec))
    unfolding run_feed origin_of
    start rounds fuel config events = do
      origin ← origin_of config.news_feed_url
      run_feed rounds fuel config origin events []
