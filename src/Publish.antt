-- ===== src/Publish.antt =====
-- worker/main.go: the loop over the articles of a feed, which publishes each of them in JetStream.
use news_tracker.Prelude.{Option, some, none, List, [], ◌∷◌, Bytes, ◌==◌, if◌then◌else◌}
use news_tracker.Errors.{Error}
use news_tracker.Article.{Formats, Article, marshal}
use news_tracker.Nats.{new_article_subject}

-- strings.ReplaceAll(s, ".", "_")
unfoldable pub undotted : Bytes → Bytes
undotted [] = []
undotted (b ∷ s) = (if b == b'.' then b'_' else b) ∷ undotted s

-- `publish` is `js.Publish` of a payload under a subject; its error is logged.
module _ (formats : Formats) {State : Type 0}
    (publish : Bytes → Bytes → State → Option Error × State) where
  abbrev pub publish_payload : Bytes → Bytes × Option Error → State → State
  publish_payload subject (payload, some e) s = s
  publish_payload subject (payload, none) s = (publish subject payload s).1

  unfoldable pub publish_article : Article formats → State → State
  unfolding undotted
  publish_article a s =
      publish_payload (new_article_subject (undotted a.origin) a.title) (marshal formats a) s

  unfoldable pub publish_articles : List (Article formats) → State → State
  unfolding publish_article
  publish_articles [] s = s
  publish_articles (a ∷ articles) s = publish_articles articles (publish_article a s)
