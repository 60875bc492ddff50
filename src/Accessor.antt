-- ===== src/Accessor.antt =====
-- backend/internal/accessor/article.go, with `Article` of backend/internal/model/article.go. The two
-- row types have the same fields, and the two functions on a row are the same. json.Unmarshal of the
-- images is a parameter, `none` being its error.
pub mod Images
use news_tracker.Prelude.{
  ℕ, zero, suc, ◌+◌, ◌-◌, ◌*◌, ◌/◌, ◌%◌, ◌^◌, ◌≤◌, ◌<◌, String, Bool, true, false, not, ◌&&◌, ◌||◌,
  ◌≡◌, ◌≢◌, ◌↔◌, ◌⊎◌, refl, sym, ap, ◌∙◌, fun_ext, inl, inr, Option, some, none, List, [], ◌∷◌,
  ◌++◌, map, map-append, append_assoc, append-nil, Bytes, codes, length, length-append, get_elem?,
  get_elem?-append, get_elem?-some, get_elem?-none, take, drop, drop-length, take-length, ltb, leb,
  ◌==◌, ==_iff, ltb→lt, leb→le, eq_bytes, eq_bytes_iff, eq_bytes_refl, has_prefix, contains,
  replace_all, replace_from, StringMap, find, put, remove, find-put, find-remove, if◌then◌else◌,
  Bool-cases, Option-cases, arith,
}
use news_tracker.Prelude.Int.{ℤ, pos}
use news_tracker.Errors.{Error, unable_get_article}
use news_tracker.Dates.{Clock, pretify}

pub record ArticleRowImage : Type 0 where
  pub url : Bytes
  pub main : Bool

-- The fields of a row that are read.
pub record ArticlesRow (Time : Type 0) : Type 0 where
  pub id : ℤ
  pub title : Bytes
  pub preface : Bytes
  pub content : Bytes
  pub viewers_count : ℤ
  pub published_at : Time
  pub images : Bytes

pub record ModelArticle : Type 0 where
  pub id : ℤ
  pub title : Bytes
  pub preface : Bytes
  pub content : Bytes
  pub viewers_count : ℤ
  pub published_at : Bytes
  pub main_image : Bytes
  pub content_images : List Bytes

pub data Answer (A : Type 0) : Type 0 where
  answer : A → Answer A
  failed : Error → Answer A

-- The loop over the images.
unfoldable pub add_images : List ArticleRowImage → ModelArticle → ModelArticle
add_images [] article = article
add_images (image ∷ images) article = add_images images (
    if image.main
    then record article { main_image = image.url }
    else record article { content_images = article.content_images ++ image.url ∷ [] })

module _ (clock : Clock) (unmarshal_images : Bytes → Option (List ArticleRowImage)) where
  abbrev pub model_of : ArticlesRow clock.Time → ModelArticle
  model_of row = record {
    id = row.id;
    title = row.title;
    preface = row.preface;
    content = row.content;
    viewers_count = row.viewers_count;
    published_at = pretify clock row.published_at;
    main_image = [];
    content_images = [];
  }

  abbrev pub article_with :
      ArticlesRow clock.Time → Option (List ArticleRowImage) → Answer ModelArticle
  article_with row none = failed unable_get_article
  article_with row (some images) = answer (add_images images (model_of row))

  unfoldable pub article_from_article_rows : ArticlesRow clock.Time → Answer ModelArticle
  article_from_article_rows row = article_with row (unmarshal_images row.images)

  -- The same, for the row of one article.
  abbrev pub article_from_article_by_id_row : ArticlesRow clock.Time → Answer ModelArticle
  article_from_article_by_id_row row = article_with row (unmarshal_images row.images)

  abbrev pub and_collect :
      Answer ModelArticle → (ModelArticle → Answer (List ModelArticle)) → Answer (List ModelArticle)
  and_collect (failed e) rest = failed e
  and_collect (answer a) rest = rest a

  -- The articles so far, and the rows that are left.
  unfoldable pub collect_articles :
      List ModelArticle → List (ArticlesRow clock.Time) → Answer (List ModelArticle)
  unfolding article_from_article_rows
  collect_articles articles [] = answer articles
  collect_articles articles (row ∷ rows) =
      and_collect (article_from_article_rows row) λ a. collect_articles (articles ++ a ∷ []) rows

  unfoldable pub articles_from_articles_rows :
      List (ArticlesRow clock.Time) → Answer (List ModelArticle)
  articles_from_articles_rows rows = collect_articles [] rows
