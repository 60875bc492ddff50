-- ===== src/Article/Json.antt =====
-- The JSON form of an article.
use news_tracker.Prelude.{◌≡◌, refl, none}
use news_tracker.Article.{Formats, Article, marshal, unmarshal, to_dto}

-- Where encoding/json reads back what it wrote for the article, and `time` reads back the article's
-- time, `Unmarshal` into any article gives back what was marshalled.
pub unmarshal-marshal :
    (formats : Formats) (target a : Article formats)
    → formats.decode (formats.encode (to_dto formats a)).0 ≡ (to_dto formats a, none)
    → formats.parse_string (formats.to_string a.published_at) ≡ (a.published_at, none)
    → unmarshal formats target (marshal formats a).0 ≡ (a, none)
unfolding marshal unmarshal
unmarshal-marshal formats target a m t = simp (m, t) refl
