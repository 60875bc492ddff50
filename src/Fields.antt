-- ===== src/Fields.antt =====
-- worker/internal/prebuiltemplate/article.go: what the callbacks of the fields write into the article.
use news_tracker.Prelude.{
  Bool, true, false, not, Option, some, none, List, [], ◌∷◌, ◌++◌, Bytes, codes, eq_bytes,
  replace_all, if◌then◌else◌, Outcome, ok, panic, ◌>>=◌,
}
use news_tracker.Prelude.Int.{ℤ, pos}
use news_tracker.Errors.{Error}
use news_tracker.Dates.{Clock, Parsed, parsed, failed, panicked, parse_date_ua}
use news_tracker.Dates.Strings.{atoi}
use news_tracker.Article.{ArticleDto, Formats, Article}
use news_tracker.Ast.{Node}
use news_tracker.Selector.{attr_of, contains_class}
use news_tracker.Tokenizer.{next}

-- What `encoding/json` and `time` have for an article, its times being those of the clock.
pub record Codec (clock : Clock) : Type 0 where
  pub zero_time : clock.Time
  pub encode : ArticleDto → Bytes × Option Error
  pub decode : Bytes → ArticleDto × Option Error
  pub parse_string : Bytes → clock.Time × Option Error

abbrev pub formats_of : (clock : Clock) → Codec clock → Formats
formats_of clock codec = record {
  Time = clock.Time;
  zero_time = codec.zero_time;
  encode = codec.encode;
  decode = codec.decode;
  to_string = clock.format_layout;
  parse_string = codec.parse_string;
}

pub record Field : Type 0 where
  pub type : Bytes
  pub class_selector : Bytes
  pub ignored_sentences : List Bytes

pub record NewsFeedConfig : Type 0 where
  pub news_feed_url : Bytes
  pub news_feed_article_selector : List Bytes
  pub news_feed_refresh_interval : ℤ
  pub article_prefix_url : Bytes
  pub article_config : List Field
  pub article_pull_interval : ℤ
  pub article_page_selector : List Bytes

-- `node.Next` of a node that is there; nil is the empty list.
abbrev pub next_of : List Node → Outcome (List Node)
next_of [] = panic
next_of (n ∷ nodes) = ok nodes

abbrev pub content_of : List Node → Outcome Bytes
content_of [] = panic
content_of (n ∷ nodes) = ok n.content

abbrev pub is_img : Node → Bool
is_img n = eq_bytes n.name (codes "img")

abbrev pub has_attr : Node → Bool
has_attr n = elim n.tag.attr [ none ↦ false | some m ↦ true ]

-- The attribute `src` behind the prefix.
abbrev pub src_of : Bytes → Node → Bytes
src_of prefix n = prefix ++ attr_of (codes "src") n

-- The content of all nodes, one behind the other.
abbrev pub contents : List Node → Bytes
contents [] = []
contents (n ∷ nodes) = n.content ++ contents nodes

-- strings.Replace with an empty replacement: an empty sentence takes nothing out.
unfoldable pub without : Bytes → Bytes → Bytes
without content sentence = if eq_bytes sentence [] then content else replace_all content sentence []

unfoldable pub without_all : Bytes → List Bytes → Bytes
unfolding without
without_all content [] = content
without_all content (sentence ∷ sentences) = without_all (without content sentence) sentences

abbrev pub viewers_count_selector : Bytes
viewers_count_selector = codes "ServicePeopleItem__icon ServicePeopleItem__icon_look"

module _ (clock : Clock) (codec : Codec clock) where
  -- natsinfo.Article.
  abbrev pub PageArticle : Type 0
  PageArticle = Article (formats_of clock codec)

  unfoldable pub on_main_image : Bytes → List Node → PageArticle → PageArticle
  on_main_image prefix [] a = a
  on_main_image prefix (n ∷ nodes) a =
      let rest = on_main_image prefix nodes a in
      if is_img n
      then (if not (has_attr n) then rest else record a { main_image = src_of prefix n })
      else rest

  unfoldable pub on_content_images : Bytes → List Node → PageArticle → PageArticle
  on_content_images prefix [] a = a
  on_content_images prefix (n ∷ nodes) a = on_content_images prefix nodes (
      if is_img n
      then (if not (has_attr n)
          then a
          else record a { content_images = a.content_images ++ src_of prefix n ∷ [] })
      else a)

  unfoldable pub on_content : Field → List Node → PageArticle → PageArticle
  on_content field nodes a = record a {
    content = without_all (contents nodes) field.ignored_sentences;
  }

  unfoldable pub on_preface : List Node → PageArticle → Outcome PageArticle
  on_preface nodes a = do
    next ← next_of nodes
    content ← content_of next
    ok (record a { preface = content })

  unfoldable pub on_title : List Node → PageArticle → Outcome PageArticle
  on_title nodes a = do
    next ← next_of nodes
    content ← content_of next
    ok (record a { title = content })

  abbrev pub with_date : clock.Time → PageArticle → Parsed clock.Time → Outcome PageArticle
  with_date now a (parsed date) = ok (record a { published_at = date })
  with_date now a (failed e) = ok (record a { published_at = now })
  with_date now a panicked = panic

  unfoldable pub on_publish_date : clock.Time → List Node → PageArticle → Outcome PageArticle
  on_publish_date now nodes a = do
    next ← next_of nodes
    content ← content_of next
    with_date now a (parse_date_ua clock now content)

  abbrev pub with_count : PageArticle → Option ℤ → PageArticle
  with_count a none = record a { viewers_count = pos 0 }
  with_count a (some count) = record a { viewers_count = count }

  -- `node.Next.Next.Next.Content` as a number.
  unfoldable pub count_behind : List Node → PageArticle → Outcome PageArticle
  count_behind nodes a = do
    one ← next_of nodes
    two ← next_of one
    three ← next_of two
    content ← content_of three
    ok (with_count a (atoi content))

  unfoldable pub on_info : List Node → PageArticle → Outcome PageArticle
  on_info [] a = ok a
  on_info (n ∷ nodes) a =
      let rest = on_info nodes a in
      if not (has_attr n)
      then rest
      else if contains_class (attr_of (codes "class") n) (viewers_count_selector ∷ [])
      then count_behind (n ∷ nodes) a
      else rest
