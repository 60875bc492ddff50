-- ===== src/Examples/Consumer.antt =====
-- The consumer's properties at concrete inputs: a server that keeps its rows in a list, refuses an
-- image without a url, and runs no statement in a transaction.
use news_tracker.Prelude.{
  ℕ, suc, ◌&&◌, ◌≡◌, refl, Option, some, none, List, [], ◌∷◌, Bytes, codes, length, eq_bytes,
  if◌then◌else◌,
}
use news_tracker.Prelude.Int.{ℤ, pos}
use news_tracker.Errors.{Error, no_rows, other}
use news_tracker.Article.{ArticleDto, Formats, Article, zero_article, unmarshal, marshal}
use news_tracker.Article.Json.{unmarshal-marshal}
use news_tracker.Storage.{Connection, pool, transaction, NewArticleRow, Database}
use news_tracker.Service.{
  NewArticleParams, new_article, with_transaction, store_article, new_article_image,
  new_content_images,
}
use news_tracker.Service.Atomic.{inserted, AllAttached, new_article-lost_error, new_article-id}
use news_tracker.Consumer.{handler, params_of}
use news_tracker.Consumer.Acks.{
  AckedWhen, Succeeds, handler-AckedWhen, handler-lost_images, handler_undecoded,
}

abbrev Row : Type 0
Row = Bytes × Bytes × ℤ

abbrev select : Bytes → Bytes → List Row → ℤ × Option Error
select title origin [] = (pos 0, some no_rows)
select title origin ((t, o, id) ∷ rows) =
    let rest = select title origin rows in
    if eq_bytes title t && eq_bytes origin o then (id, none) else rest

abbrev refused : Error
refused = other (codes "refused")

abbrev insert :
    {Time : Type 0} → Connection → NewArticleRow Time → List Row → (ℤ × Option Error) × List Row
insert pool row rows =
    let id = pos (suc (length rows)) in ((id, none), (row.title, row.origin, id) ∷ rows)
insert transaction row rows = ((pos 0, some refused), rows)

abbrev insert_image_row : Connection → Bytes → List Row → (ℤ × Option Error) × List Row
insert_image_row pool [] rows = ((pos 0, some refused), rows)
insert_image_row pool (b ∷ url) rows = ((pos 1, none), rows)
insert_image_row transaction url rows = ((pos 0, some refused), rows)

insert_image_row-same : (u : Bytes) (rows : List Row) → (insert_image_row pool u rows).1 ≡ rows
insert_image_row-same [] rows = refl
insert_image_row-same (b ∷ u) rows = refl

abbrev list_server : Database ℕ
list_server = record {
  State = List Row;
  Data = List Row;
  visible = λ s. s;
  begin = λ s. (none, s);
  commit = λ s. (none, s);
  rollback = λ s. (none, s);
  insert_article = insert;
  insert_image = insert_image_row;
  attach_article_image = λ c id image main s. (none, s);
  select_article_id = λ c title origin s. (select title origin s, s);
  update_article_stats = λ c stats s. (none, s);
  begin_visible = λ s. refl;
  rollback_visible = λ s. refl;
  insert_image_failed = λ u s e h. insert_image_row-same u s;
}

-- The payload is the title; the empty one is no JSON.
abbrev dto : Bytes → ArticleDto
dto title = record {
  title = title;
  preface = [];
  content = [];
  published_at = [];
  viewers_count = pos 0;
  main_image = [];
  content_images = [];
  origin = codes "site";
}

abbrev decode_title : Bytes → ArticleDto × Option Error
decode_title [] = (dto [], some refused)
decode_title (b ∷ title) = (dto (b ∷ title), none)

abbrev titles : Formats
titles = record {
  Time = ℕ;
  zero_time = 0;
  encode = λ d. (d.title, none);
  decode = decode_title;
  to_string = λ t. [];
  parse_string = λ s. (0, none);
}

abbrev titled : Bytes → Article titles
titled title = record {
  title = title;
  preface = [];
  content = [];
  published_at = 0;
  viewers_count = pos 0;
  main_image = [];
  content_images = [];
  origin = codes "site";
}

unmarshal-marshal_example :
    unmarshal titles (titled (codes "old")) (marshal titles (titled (codes "new"))).0
    ≡ (titled (codes "new"), none)
unmarshal-marshal_example =
    unmarshal-marshal titles (titled (codes "old")) (titled (codes "new")) refl refl

handler-AckedWhen_example :
    AckedWhen titles list_server 5
      (titled (codes "new"))
      0
      (handler titles list_server 5 (codes "new") ((codes "new", codes "site", pos 1) ∷ [])).0
      (Succeeds titles list_server 5
        (titled (codes "new"))
        ((pos 1, none), (codes "new", codes "site", pos 1) ∷ []))
unfolding unmarshal eq_bytes
handler-AckedWhen_example =
    handler-AckedWhen titles list_server 5 (titled (codes "new")) (codes "new")
      ((codes "new", codes "site", pos 1) ∷ []) refl

handler-lost_images_example :
    ((handler titles list_server 5 (codes "new") []).0 ≡ 1)
    × ((handler titles list_server 5 (codes "new") []).1 ≡ (codes "new", codes "site", pos 1) ∷ [])
unfolding unmarshal
handler-lost_images_example =
    handler-lost_images titles list_server 5 (titled (codes "new")) (codes "new") [] refused refl
      refl refl refl refl refl

-- Every image is inserted.
abbrev insert_any_image : Connection → Bytes → List Row → (ℤ × Option Error) × List Row
insert_any_image c url rows = ((pos 1, none), rows)

abbrev open_server : Database ℕ
open_server = record {
  State = List Row;
  Data = List Row;
  visible = λ s. s;
  begin = λ s. (none, s);
  commit = λ s. (none, s);
  rollback = λ s. (none, s);
  insert_article = insert;
  insert_image = insert_any_image;
  attach_article_image = λ c id image main s. (none, s);
  select_article_id = λ c title origin s. (select title origin s, s);
  update_article_stats = λ c stats s. (none, s);
  begin_visible = λ s. refl;
  rollback_visible = λ s. refl;
  insert_image_failed = λ u s e h. refl;
}

handler_undecoded_example :
    (handler titles open_server 5 [] []
      ≡ (2, (new_article open_server (params_of titles open_server (zero_article titles)) []).1))
    × (◌≡◌ {A = ℤ × Option Error} (pos 1, none) (pos 1, none))
unfolding new_article with_transaction store_article new_article_image new_content_images
handler_undecoded_example =
    handler_undecoded titles open_server 5 [] [] refused (pos 1) refl refl refl (λ e. cc)

abbrev pictured : NewArticleParams ℕ
pictured = record {
  article = record {
    title = codes "new";
    preface = [];
    content = [];
    origin = codes "site";
    viewers_count = pos 0;
    published_at = 0;
  };
  main_image_url = codes "/a.png";
  content_images_urls = codes "/b.png" ∷ [];
}

new_article-id_example :
    (◌≡◌ {A = Option Error} none none)
    × (◌≡◌ {A = ℤ × Option Error} (pos 1, none) ((new_article list_server pictured []).0.0, none))
    × AllAttached list_server pictured
        (new_article list_server pictured []).0.0
        (inserted list_server pictured [])
unfolding new_article with_transaction store_article new_article_image new_content_images
new_article-id_example = new_article-id list_server pictured [] (λ e. cc)

new_article-lost_error_example :
    ((new_article list_server (params_of titles list_server (titled (codes "new"))) []).0
      ≡ (pos 0, none))
    × ((new_article list_server (params_of titles list_server (titled (codes "new"))) []).1
        ≡ (codes "new", codes "site", pos 1) ∷ [])
new_article-lost_error_example =
    new_article-lost_error list_server (params_of titles list_server (titled (codes "new"))) []
      refused refl refl refl refl
