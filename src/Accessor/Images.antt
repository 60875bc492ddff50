-- ===== src/Accessor/Images.antt =====
-- Where the images of a row go, and what a list of rows becomes.
use news_tracker.Prelude.{
  ◌≡◌, refl, ap, ◌∙◌, inl, inr, Option, some, none, List, [], ◌∷◌, ◌++◌, append_assoc, append-nil,
  Bytes, if◌then◌else◌, Bool-cases, Option-cases,
}
use news_tracker.Errors.{unable_get_article}
use news_tracker.Dates.{Clock, pretify}
use news_tracker.Accessor.{
  ArticleRowImage, ArticlesRow, ModelArticle, Answer, answer, failed, add_images, model_of,
  article_from_article_rows, collect_articles, articles_from_articles_rows,
}

-- The urls of the images that are not the main one, in order.
abbrev pub content_urls : List ArticleRowImage → List Bytes
content_urls [] = []
content_urls (image ∷ images) =
    if image.main then content_urls images else image.url ∷ content_urls images

-- The url of the last image that is marked as the main one, if there is one.
abbrev pub last_main : Bytes → List ArticleRowImage → Bytes
last_main url [] = url
last_main url (image ∷ images) = last_main (if image.main then image.url else url) images

module _ (clock : Clock) (unmarshal_images : Bytes → Option (List ArticleRowImage)) where
  -- The article of a row, with the images sorted out.
  abbrev pub article_of : ArticlesRow clock.Time → List ArticleRowImage → ModelArticle
  article_of row images = record {
    id = row.id;
    title = row.title;
    preface = row.preface;
    content = row.content;
    viewers_count = row.viewers_count;
    published_at = pretify clock row.published_at;
    main_image = last_main [] images;
    content_images = content_urls images;
  }

  add_images-article :
      (images : List ArticleRowImage) (a : ModelArticle)
      → add_images images a ≡ record a {
        main_image = last_main a.main_image images;
        content_images = a.content_images ++ content_urls images;
      }
  unfolding add_images
  add_images-article [] a = rw (append-nil a.content_images) refl
  add_images-article (image ∷ images) a = elim (Bool-cases image.main) [
    | inl y ↦ rw y (add_images-article images (record a { main_image = image.url }))
    | inr n ↦
        rw (n, ← append_assoc a.content_images (image.url ∷ []) (content_urls images))
          (add_images-article images
            (record a { content_images = a.content_images ++ image.url ∷ [] }))
  ]

  abbrev pub with_first :
      ArticlesRow clock.Time
      → Option (List ArticleRowImage)
      → Answer (List ModelArticle)
      → Answer (List ModelArticle)
  with_first row none rest = failed unable_get_article
  with_first row (some images) (failed e) = failed e
  with_first row (some images) (answer articles) = answer (article_of row images ∷ articles)

  -- The articles that the rows stand for, or the error of a row whose images are not decoded.
  abbrev pub articles_of : List (ArticlesRow clock.Time) → Answer (List ModelArticle)
  articles_of [] = answer []
  articles_of (row ∷ rows) = with_first row (unmarshal_images row.images) (articles_of rows)

  abbrev prepend : List ModelArticle → Answer (List ModelArticle) → Answer (List ModelArticle)
  prepend front (answer articles) = answer (front ++ articles)
  prepend front (failed e) = failed e

  prepend_nil : (x : Answer (List ModelArticle)) → prepend [] x ≡ x
  prepend_nil (answer articles) = refl
  prepend_nil (failed e) = refl

  prepend_last :
      (front : List ModelArticle) (row : ArticlesRow clock.Time) (images : List ArticleRowImage)
      (x : Answer (List ModelArticle))
      → prepend (front ++ article_of row images ∷ []) x
        ≡ prepend front (with_first row (some images) x)
  prepend_last front row images (answer articles) =
      ap answer (append_assoc front (article_of row images ∷ []) articles)
  prepend_last front row images (failed e) = refl

  collect_articles-articles :
      (front : List ModelArticle) (rows : List (ArticlesRow clock.Time))
      → collect_articles clock unmarshal_images front rows ≡ prepend front (articles_of rows)
  unfolding collect_articles article_from_article_rows
  collect_articles-articles front [] = rw (append-nil front) refl
  collect_articles-articles front (row ∷ rows) = elim (Option-cases (unmarshal_images row.images)) [
    | inl e ↦ rw e refl
    | inr (images, e) ↦
        rw (e, add_images-article images (model_of clock unmarshal_images row))
          (collect_articles-articles (front ++ article_of row images ∷ []) rows
            ∙ prepend_last front row images (articles_of rows))
  ]

  -- `ArticlesFromArticlesRows` gives the article of each row in order, with the url of the last image
  -- marked as the main one, and the urls of the others in order; one row whose images are not decoded
  -- makes the whole list an error.
  pub articles_from_rows :
      (rows : List (ArticlesRow clock.Time))
      → articles_from_articles_rows clock unmarshal_images rows ≡ articles_of rows
  unfolding articles_from_articles_rows
  articles_from_rows rows = collect_articles-articles [] rows ∙ prepend_nil (articles_of rows)
