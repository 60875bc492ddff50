-- ===== src/Errors.antt =====
-- The error values of backend/internal/service/article.go and of the packages that it calls. A Go
-- `error` is an `Option Error`.
use news_tracker.Prelude.{Bytes, Bool, true, false, if◌then◌else◌}

pub data Error : Type 0 where
  no_rows : Error
  unable_create_image : Error
  unable_create_article : Error
  article_not_found : Error
  articles_not_found : Error
  articles_count : Error
  unable_get_article : Error
  joined : Error → Error → Error
  other : Bytes → Error

-- `errors.Is(err, sql.ErrNoRows)`, of the error and of those that it joins.
abbrev pub is_no_rows : Error → Bool
is_no_rows no_rows = true
is_no_rows unable_create_image = false
is_no_rows unable_create_article = false
is_no_rows article_not_found = false
is_no_rows articles_not_found = false
is_no_rows articles_count = false
is_no_rows unable_get_article = false
is_no_rows (joined a b) = let right = is_no_rows b in if is_no_rows a then true else right
is_no_rows (other message) = false
