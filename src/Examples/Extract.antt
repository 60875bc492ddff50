-- ===== src/Examples/Extract.antt =====
-- Tests of the extraction of articles, and its properties at concrete inputs.
use news_tracker.Prelude.{
  ℕ, String, ◌≡◌, refl, some, none, List, [], ◌∷◌, ◌++◌, map, Bytes, codes, length, eq_bytes,
  has_prefix, contains, replace_all, replace_from, find, Outcome, ok, panic, arith,
}
use news_tracker.Prelude.Int.{pos}
use news_tracker.Token.Reader.{slash}
use news_tracker.Ast.{Node}
use news_tracker.Parse.{node_of_open, node_of_text}
use news_tracker.Tokenizer.{new_tokenizer, normal}
use news_tracker.Article.{zero_article, ArticleDto}
use news_tracker.Selector.{attr_of, is_selected, contains_class}
use news_tracker.Document.Print.{open_piece, close_piece, print_pieces}
use mathlib.Core.List.{Permᴰ}
use mathlib.Core.List.Permᴰ
use news_tracker.Watch.{Call, parse_watched}
use news_tracker.Watch.Orders.{Reorders}
use news_tracker.Fields.{
  Codec, formats_of, PageArticle, Field, NewsFeedConfig, on_main_image, on_content_images,
  without_all, without,
}
use news_tracker.Extract.{read_article, origin_of}
use news_tracker.Extract.Images.{images_of, first_or, on_main_image-on_content_images}
use news_tracker.Extract.Origin.{origin_of-host}
use news_tracker.Extract.Page.{watch, new_watcher, new_seen, parse_watched-watch}
use news_tracker.Extract.Titles.{read_article_empty_title}
use news_tracker.Examples.Dates.{Moment, moments}
use news_tracker.Examples.Tokenizer.{pieces, polite_pieces}

abbrev empty_dto : ArticleDto
empty_dto = record {
  title = [];
  preface = [];
  content = [];
  published_at = [];
  viewers_count = pos 0;
  main_image = [];
  content_images = [];
  origin = [];
}

abbrev midnight : Moment
midnight = (pos 2024, pos 2, pos 6, pos 0, pos 0)

abbrev codec : Codec moments
codec = record {
  zero_time = midnight;
  encode = λ dto. ([], none);
  decode = λ bytes. (empty_dto, none);
  parse_string = λ bytes. (midnight, none);
}

abbrev image : String → Node
image src =
    node_of_open (record { name = codes "img"; attr = some ((codes "src", codes src) ∷ []) })

abbrev bare_image : Node
bare_image = node_of_open (record { name = codes "img"; attr = none })

abbrev nodes : List Node
nodes = bare_image ∷ image "/a.png" ∷ node_of_text (codes "x") ∷ image "/b.png" ∷ []

abbrev no_article : PageArticle moments codec
no_article = zero_article (formats_of moments codec)

on_main_image-on_content_images_example :
    (on_main_image moments codec (codes "h:") nodes no_article
      ≡ record no_article { main_image = first_or [] (images_of (codes "h:") nodes) })
    × (on_content_images moments codec (codes "h:") nodes no_article
        ≡ record no_article { content_images = images_of (codes "h:") nodes })
on_main_image-on_content_images_example =
    on_main_image-on_content_images moments codec (codes "h:") nodes no_article

images_of-nodes : images_of (codes "h:") nodes ≡ codes "h:/a.png" ∷ codes "h:/b.png" ∷ []
unfolding attr_of find eq_bytes
images_of-nodes = refl

origin_of-host_example :
    (origin_of (codes "https:" ++ slash ∷ slash ∷ (codes "ua" ++ slash ∷ codes "a//b"))
      ≡ ok (codes "ua"))
    × (origin_of (codes "ua") ≡ panic)
origin_of-host_example =
    origin_of-host (codes "https:") (codes "ua") (codes "a//b") (codes "ua")
      (refl, (refl, (refl, (refl, (refl, (refl, tt)))))) (refl, (refl, tt)) (refl, (refl, tt))

-- A callback that keeps the number of nodes of each tree.
abbrev count_nodes : List Node → List ℕ → Outcome (List ℕ)
count_nodes nodes counts = ok (counts ++ length nodes ∷ [])

abbrev count_none : List Node → List ℕ → Outcome (List ℕ)
count_none _ counts = ok (counts ++ 0 ∷ [])

-- The second goroutine comes before the first.
abbrev second_first : {A : Type 0} → ℕ → List (Call A) → List (Call A)
second_first n (f ∷ g ∷ calls) = g ∷ f ∷ calls
second_first n calls = calls

second_first-Reorders : (A : Type 0) → Reorders A second_first
second_first-Reorders A n [] = Permᴰ.refl []
second_first-Reorders A n (f ∷ []) = Permᴰ.refl (f ∷ [])
second_first-Reorders A n (f ∷ g ∷ calls) = Permᴰ.swap refl refl

abbrev page : Bytes
page = codes "<ul><li class=x>a<b></b></li></ul>"

abbrev counters : List (List Bytes × (List Node → List ℕ → Outcome (List ℕ)))
counters = (codes "x" ∷ [], count_nodes) ∷ (codes "x" ∷ [], count_none) ∷ []

parse_watched-watch_example :
    parse_watched
      (List ℕ)
      (pieces 3)
      second_first
      40
      50
      (new_tokenizer (pieces 3) page)
      (map (new_watcher (List ℕ)) counters)
      []
    ≡ watch (List ℕ) second_first 40 normal page (map (new_seen (List ℕ)) counters) []
parse_watched-watch_example =
    parse_watched-watch (List ℕ) (pieces 3) (polite_pieces 3) second_first page page 40 50 counters
      [] refl (omega arith)

abbrev title_field : Field
title_field = record { type = codes "title"; class_selector = []; ignored_sentences = [] }

abbrev preface_field : Field
preface_field = record { type = codes "preface"; class_selector = []; ignored_sentences = [] }

abbrev config : NewsFeedConfig
config = record {
  news_feed_url = codes "https://ua/";
  news_feed_article_selector = codes "item" ∷ [];
  news_feed_refresh_interval = pos 1;
  article_prefix_url = codes "https://ua";
  article_config = title_field ∷ preface_field ∷ [];
  article_pull_interval = pos 1;
  article_page_selector = codes "link" ∷ [];
}

-- `<h1></h1><p>x</p>`
abbrev untitled : Bytes
untitled =
    print_pieces (open_piece [] b'h' (codes "1") [] ∷ close_piece [] (codes "h1") ∷ [])
      (codes "<p>x</p>")

read_article_empty_title_example :
    read_article moments codec (pieces 5) second_first 30 40 midnight config (codes "ua") untitled
    ≡ panic
unfolding is_selected attr_of contains_class contains has_prefix find eq_bytes
read_article_empty_title_example =
    read_article_empty_title moments codec (pieces 5) (polite_pieces 5) second_first untitled b'h'
      (codes "1") [] (codes "<p>x</p>") 28 40 midnight config (codes "ua") title_field
      (preface_field ∷ []) (second_first-Reorders (PageArticle moments codec)) refl (omega arith)
      (tt, refl, (refl, (refl, tt)), tt, tt, refl) (tt, (refl, (refl, tt))) refl refl refl

-- A sentence is taken out wherever it stands.
without_all-text : without_all (codes "aXbXc") (codes "X" ∷ [] ∷ []) ≡ codes "abc"
unfolding without_all without replace_all replace_from has_prefix eq_bytes
without_all-text = refl
