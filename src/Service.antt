-- ===== src/Service.antt =====
-- backend/internal/service/article.go, the operations of the consumer, with `WithTransaction` of
-- backend/pkg/txutils/txutils.go. A Go function that returns a value and an error returns both here.
-- The callback of `NewArticle` is given the transaction's queries and runs on the service's own.
pub mod Atomic
use news_tracker.Prelude.{
  ℕ, zero, suc, ◌+◌, ◌-◌, ◌*◌, ◌/◌, ◌%◌, ◌^◌, ◌≤◌, ◌<◌, String, Bool, true, false, not, ◌&&◌, ◌||◌,
  ◌≡◌, ◌≢◌, ◌↔◌, ◌⊎◌, refl, sym, ap, ◌∙◌, fun_ext, inl, inr, Option, some, none, List, [], ◌∷◌,
  ◌++◌, map, map-append, append_assoc, append-nil, Bytes, codes, length, length-append, get_elem?,
  get_elem?-append, get_elem?-some, get_elem?-none, take, drop, drop-length, take-length, ltb, leb,
  ◌==◌, ==_iff, ltb→lt, leb→le, eq_bytes, eq_bytes_iff, eq_bytes_refl, has_prefix, contains,
  replace_all, replace_from, StringMap, find, put, remove, find-put, find-remove, if◌then◌else◌,
  Bool-cases, Option-cases, arith,
}
use news_tracker.Prelude.Int.{ℤ, pos, negsuc}
use news_tracker.Errors.{Error, unable_create_image, unable_create_article}
use news_tracker.Storage.{Connection, pool, transaction, NewArticleRow, ArticleStats, Database}

pub record NewArticleParams (Time : Type 0) : Type 0 where
  pub article : NewArticleRow Time
  pub main_image_url : Bytes
  pub content_images_urls : List Bytes

module _ {Time : Type 0} (db : Database Time) where
  open db use {
    State, begin, commit, rollback, insert_article, insert_image, attach_article_image,
    select_article_id, update_article_stats,
  }

  -- What ends a transaction: the error of the end is the error that is returned.
  abbrev pub end_transaction {ℓ} :
      {A : Type ℓ} → (A × Option Error) × State → (A × Option Error) × State
  end_transaction ((a, some e), s) = let (err, s') = rollback s in ((a, err), s')
  end_transaction ((a, none), s) = let (err, s') = commit s in ((a, err), s')

  abbrev pub run_transaction {ℓ} :
      {A : Type ℓ}
      → A
      → (Connection → State → (A × Option Error) × State)
      → Option Error × State
      → (A × Option Error) × State
  run_transaction a fn (some e, s) = ((a, some e), s)
  run_transaction a fn (none, s) = end_transaction (fn transaction s)

  -- The callback's `A` is what it assigns outside; `a` is what stands there before.
  unfoldable pub with_transaction {ℓ} :
      {A : Type ℓ}
      → A
      → (Connection → State → (A × Option Error) × State)
      → State
      → (A × Option Error) × State
  with_transaction a fn s = run_transaction a fn (begin s)

  abbrev pub map_error : Error → Option Error × State → Option Error × State
  map_error f (some e, s) = (some f, s)
  map_error f (none, s) = (none, s)

  abbrev pub attach_image : ℤ → Bool → (ℤ × Option Error) × State → Option Error × State
  attach_image article_id main ((image_id, some e), s) = (some unable_create_image, s)
  attach_image article_id main ((image_id, none), s) =
      map_error unable_create_image (attach_article_image pool article_id image_id main s)

  unfoldable pub new_article_image : ℤ → Bytes → Bool → State → Option Error × State
  new_article_image article_id url main s = attach_image article_id main (insert_image pool url s)

  abbrev pub and_then : Option Error × State → (State → Option Error × State) → Option Error × State
  and_then (some e, s) f = (some e, s)
  and_then (none, s) f = f s

  -- The loop over the images of the content.
  unfoldable pub new_content_images : ℤ → List Bytes → State → Option Error × State
  unfolding new_article_image
  new_content_images article_id [] s = (none, s)
  new_content_images article_id (url ∷ urls) s =
      and_then (new_article_image article_id url false s) (new_content_images article_id urls)

  -- The id is assigned at the end of the callback only.
  abbrev pub assign_id : ℤ → Option Error × State → (ℤ × Option Error) × State
  assign_id article_id (some e, s) = ((pos 0, some e), s)
  assign_id article_id (none, s) = ((article_id, none), s)

  abbrev pub with_images :
      NewArticleParams Time → (ℤ × Option Error) × State → (ℤ × Option Error) × State
  with_images params ((article_id, some e), s) = ((pos 0, some unable_create_article), s)
  with_images params ((article_id, none), s) = assign_id article_id (
      and_then (new_article_image article_id params.main_image_url true s)
        (new_content_images article_id params.content_images_urls))

  -- The callback of `NewArticle`, which does not use the connection that it is given.
  unfoldable pub store_article :
      NewArticleParams Time → Connection → State → (ℤ × Option Error) × State
  store_article params connection s = with_images params (insert_article pool params.article s)

  unfoldable pub new_article : NewArticleParams Time → State → (ℤ × Option Error) × State
  new_article params s = with_transaction (pos 0) (store_article params) s

  abbrev pub get_article_id_by_title_and_origin : Bytes → Bytes → State → (ℤ × Option Error) × State
  get_article_id_by_title_and_origin = select_article_id pool
