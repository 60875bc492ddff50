-- ===== src/Storage.antt =====
-- The database behind backend/internal/storage, which sqlc generates: a parameter. A statement runs
-- on a connection: the pool of connections, where it is a transaction of its own, or the open
-- transaction.
use news_tracker.Prelude.{Bool, Bytes, Option, some, ◌≡◌}
use news_tracker.Prelude.Int.{ℤ}
use news_tracker.Errors.{Error}

pub data Connection : Type 0 where
  pool : Connection
  transaction : Connection

-- `storage.NewArticleParams`.
pub record NewArticleRow (Time : Type 0) : Type 0 where
  pub title : Bytes
  pub preface : Bytes
  pub content : Bytes
  pub origin : Bytes
  pub viewers_count : ℤ
  pub published_at : Time

-- `storage.UpdateArticleStatsParams`.
pub record ArticleStats (Time : Type 0) : Type 0 where
  pub viewers_count : ℤ
  pub updated_at : Time
  pub id : ℤ

-- `Data` is what all connections see, `State` what the server holds with the open transaction.
pub record Database (Time : Type 0) : Type 1 where
  pub State : Type 0
  pub Data : Type 0
  pub visible : State → Data
  pub begin : State → Option Error × State
  pub commit : State → Option Error × State
  pub rollback : State → Option Error × State
  pub insert_article : Connection → NewArticleRow Time → State → (ℤ × Option Error) × State
  pub insert_image : Connection → Bytes → State → (ℤ × Option Error) × State
  pub attach_article_image : Connection → ℤ → ℤ → Bool → State → Option Error × State
  pub select_article_id : Connection → Bytes → Bytes → State → (ℤ × Option Error) × State
  pub update_article_stats : Connection → ArticleStats Time → State → Option Error × State
  -- Only a commit shows the work of a transaction.
  pub begin_visible : (s : State) → visible (begin s).1 ≡ visible s
  pub rollback_visible : (s : State) → visible (rollback s).1 ≡ visible s
  -- A statement that fails changes nothing.
  pub insert_image_failed :
      (u : Bytes) (s : State) (e : Error)
      → (insert_image pool u s).0.1 ≡ some e
      → visible (insert_image pool u s).1 ≡ visible s
