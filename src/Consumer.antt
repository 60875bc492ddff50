-- ===== src/Consumer.antt =====
-- backend/internal/worker/article_consumer.go: what the backend does with one message. The state is
-- the database's; the acknowledgements of the message are counted.
pub mod Acks
use news_tracker.Prelude.{
  ℕ, zero, suc, ◌+◌, ◌-◌, ◌*◌, ◌/◌, ◌%◌, ◌^◌, ◌≤◌, ◌<◌, String, Bool, true, false, not, ◌&&◌, ◌||◌,
  ◌≡◌, ◌≢◌, ◌↔◌, ◌⊎◌, refl, sym, ap, ◌∙◌, fun_ext, inl, inr, Option, some, none, List, [], ◌∷◌,
  ◌++◌, map, map-append, append_assoc, append-nil, Bytes, codes, length, length-append, get_elem?,
  get_elem?-append, get_elem?-some, get_elem?-none, take, drop, drop-length, take-length, ltb, leb,
  ◌==◌, ==_iff, ltb→lt, leb→le, eq_bytes, eq_bytes_iff, eq_bytes_refl, has_prefix, contains,
  replace_all, replace_from, StringMap, find, put, remove, find-put, find-remove, if◌then◌else◌,
  Bool-cases, Option-cases, arith,
}
use news_tracker.Prelude.Int.{ℤ, pos, negsuc, int_mod}
use news_tracker.Errors.{Error, is_no_rows}
use news_tracker.Article.{Formats, Article, zero_article, unmarshal}
use news_tracker.Storage.{Connection, pool, transaction, NewArticleRow, ArticleStats, Database}
use news_tracker.Service.{NewArticleParams, new_article, get_article_id_by_title_and_origin}

-- `int32(x)` of an `int`.
unfoldable pub int32 : ℤ → ℤ
int32 (pos n) = let r = n % 2 ^ 32 in if ltb r (2 ^ 31) then pos r else negsuc (2 ^ 32 - 1 - r)
int32 (negsuc n) = let r = n % 2 ^ 32 in if ltb r (2 ^ 31) then negsuc r else pos (2 ^ 32 - 1 - r)

module _ (formats : Formats) (db : Database formats.Time) where
  open formats use {Time}
  open db use {State, update_article_stats}

  abbrev pub params_of : Article formats → NewArticleParams Time
  params_of a = record {
    article = record {
      title = a.title;
      preface = a.preface;
      content = a.content;
      origin = a.origin;
      viewers_count = int32 a.viewers_count;
      published_at = a.published_at;
    };
    main_image_url = a.main_image;
    content_images_urls = a.content_images;
  }

  abbrev pub stats_of : Time → Article formats → ℤ → ArticleStats Time
  stats_of now a id = record { viewers_count = int32 a.viewers_count; updated_at = now; id = id }

  abbrev pub ack_if_ok : ℕ → Option Error × State → ℕ × State
  ack_if_ok acks (some e, s) = (acks, s)
  ack_if_ok acks (none, s) = (suc acks, s)

  abbrev pub update_stats : Time → Article formats → ℤ → ℕ → State → ℕ × State
  update_stats now a id acks s = ack_if_ok acks (update_article_stats pool (stats_of now a id) s)

  -- A failed insertion falls through to the update, with the id of the failed look-up.
  abbrev pub after_insert : Time → Article formats → ℤ → ℕ → (ℤ × Option Error) × State → ℕ × State
  after_insert now a id acks ((new_id, none), s) = (suc acks, s)
  after_insert now a id acks ((new_id, some e), s) = update_stats now a id acks s

  abbrev pub after_lookup : Time → Article formats → ℕ → (ℤ × Option Error) × State → ℕ × State
  after_lookup now a acks ((id, none), s) = update_stats now a id acks s
  after_lookup now a acks ((id, some e), s) =
      if is_no_rows e
      then after_insert now a id acks (new_article db (params_of a) s)
      else (acks, s)

  -- A message that is not decoded is acknowledged, and handled all the same.
  abbrev pub after_decode : Time → Article formats × Option Error → State → ℕ × State
  after_decode now (a, err) s =
      after_lookup now a (acks_of err) (get_article_id_by_title_and_origin db a.title a.origin s)
    where
      acks_of : Option Error → ℕ
      acks_of none = 0
      acks_of (some e) = 1

  unfoldable pub handler : Time → Bytes → State → ℕ × State
  handler now payload s = after_decode now (unmarshal formats (zero_article formats) payload) s
