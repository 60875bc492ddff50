-- ===== src/Article.antt =====
-- pkg/natsinfo/models.go: an article and its JSON form. encoding/json, for `articleDTO`, and the
-- format of times are parameters.
pub mod Json
use news_tracker.Prelude.{
  ℕ, zero, suc, ◌+◌, ◌-◌, ◌*◌, ◌/◌, ◌%◌, ◌^◌, ◌≤◌, ◌<◌, String, Bool, true, false, not, ◌&&◌, ◌||◌,
  ◌≡◌, ◌≢◌, ◌↔◌, ◌⊎◌, refl, sym, ap, ◌∙◌, fun_ext, inl, inr, Option, some, none, List, [], ◌∷◌,
  ◌++◌, map, map-append, append_assoc, append-nil, Bytes, codes, length, length-append, get_elem?,
  get_elem?-append, get_elem?-some, get_elem?-none, take, drop, drop-length, take-length, ltb, leb,
  ◌==◌, ==_iff, ltb→lt, leb→le, eq_bytes, eq_bytes_iff, eq_bytes_refl, has_prefix, contains,
  replace_all, replace_from, StringMap, find, put, remove, find-put, find-remove, if◌then◌else◌,
  Bool-cases, Option-cases, arith,
}
use news_tracker.Prelude.Int.{ℤ, pos}
use news_tracker.Errors.{Error}

-- `articleDTO`: the time is a string.
pub record ArticleDto : Type 0 where
  pub title : Bytes
  pub preface : Bytes
  pub content : Bytes
  pub published_at : Bytes
  pub viewers_count : ℤ
  pub main_image : Bytes
  pub content_images : List Bytes
  pub origin : Bytes

-- `json.Marshal`, `json.Unmarshal` into a zero value, and the `Time.Format` and `time.Parse` with
-- `time.Layout` of dateutils.ToString and dateutils.ParseString; `zero_time` is `time.Time{}`.
pub record Formats : Type 1 where
  pub Time : Type 0
  pub zero_time : Time
  pub encode : ArticleDto → Bytes × Option Error
  pub decode : Bytes → ArticleDto × Option Error
  pub to_string : Time → Bytes
  pub parse_string : Bytes → Time × Option Error

module _ (formats : Formats) where
  open formats use {Time, zero_time, encode, decode, to_string, parse_string}

  pub record Article : Type 0 where
    pub title : Bytes
    pub preface : Bytes
    pub content : Bytes
    pub published_at : Time
    pub viewers_count : ℤ
    pub main_image : Bytes
    pub content_images : List Bytes
    pub origin : Bytes

  -- A `var article Article`.
  abbrev pub zero_article : Article
  zero_article = record {
    title = [];
    preface = [];
    content = [];
    published_at = zero_time;
    viewers_count = pos 0;
    main_image = [];
    content_images = [];
    origin = [];
  }

  abbrev pub to_dto : Article → ArticleDto
  to_dto a = record {
    title = a.title;
    preface = a.preface;
    content = a.content;
    published_at = to_string a.published_at;
    viewers_count = a.viewers_count;
    main_image = a.main_image;
    content_images = a.content_images;
    origin = a.origin;
  }

  unfoldable pub marshal : Article → Bytes × Option Error
  marshal a = encode (to_dto a)

  -- All fields but the time are written before the time is parsed.
  abbrev pub fill : Article → ArticleDto → Article
  fill a dto = record a {
    title = dto.title;
    preface = dto.preface;
    content = dto.content;
    viewers_count = dto.viewers_count;
    main_image = dto.main_image;
    content_images = dto.content_images;
    origin = dto.origin;
  }

  abbrev pub set_time : Article → Time × Option Error → Article × Option Error
  set_time a (t, some e) = (a, some e)
  set_time a (t, none) = (record a { published_at = t }, none)

  abbrev pub unmarshal_dto : Article → ArticleDto × Option Error → Article × Option Error
  unmarshal_dto a (dto, some e) = (a, some e)
  unmarshal_dto a (dto, none) = set_time (fill a dto) (parse_string dto.published_at)

  unfoldable pub unmarshal : Article → Bytes → Article × Option Error
  unmarshal a payload = unmarshal_dto a (decode payload)
