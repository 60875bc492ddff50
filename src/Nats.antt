-- ===== src/Nats.antt =====
-- pkg/natsinfo: the subject of an article, the url of the server, and what is made or brought up to date in
-- JetStream, whose client is a parameter.
use news_tracker.Prelude.{
  ℕ, Bool, true, false, ◌||◌, ◌≡◌, refl, sym, ap, ◌∙◌, Option, some, none, [], ◌∷◌, ◌++◌,
  append_assoc, append-nil, Bytes, codes, ◌==◌, eq_bytes, if◌then◌else◌,
}
use news_tracker.Token.Reader.Scan.{Avoids}
use news_tracker.Dates.Strings.{split}

abbrev pub star : ℕ
star = b'*'

abbrev pub dot : ℕ
dot = b'.'

abbrev is_dot : ℕ → Bool
is_dot c = c == dot

-- strings.Replace(s, "*", new, 1)
unfoldable pub replace_star : Bytes → Bytes → Bytes
replace_star [] new = []
replace_star (b ∷ s) new = let rest = replace_star s new in if b == star then new ++ s else b ∷ rest

-- strings.ReplaceAll(s, " ", "_")
unfoldable pub underscored : Bytes → Bytes
underscored [] = []
underscored (b ∷ s) = (if b == b' ' then b'_' else b) ∷ underscored s

abbrev pub any_article_subject : Bytes
any_article_subject = codes "article.*.*"

unfoldable pub new_article_subject : Bytes → Bytes → Bytes
unfolding replace_star underscored
new_article_subject origin title =
    replace_star (replace_star any_article_subject origin) (underscored title)

pub record NatsConfig : Type 0 where
  pub port : Bytes
  pub host : Bytes

abbrev pub new_nats_config : NatsConfig
new_nats_config = record { port = codes "4222"; host = codes "nats" }

-- `default_url` is that of the client.
unfoldable pub get_url : Bytes → NatsConfig → Bytes
get_url default_url config =
    if eq_bytes config.host [] || eq_bytes config.port []
    then default_url
    else codes "nats://" ++ (config.host ++ (codes ":" ++ config.port))

pub data NatsError : Type 0 where
  stream_name_already_in_use : NatsError
  consumer_name_already_in_use : NatsError
  bucket_not_found : NatsError
  invalid_bucket_name : NatsError
  other_nats_error : Bytes → NatsError

pub record JetStream : Type 1 where
  pub State : Type 0
  pub StreamConfig : Type 0
  pub StreamInfo : Type 0
  pub ConsumerConfig : Type 0
  pub ConsumerInfo : Type 0
  pub KeyValueConfig : Type 0
  pub KeyValue : Type 0
  pub bucket : KeyValueConfig → Bytes
  pub add_stream : StreamConfig → State → (StreamInfo × Option NatsError) × State
  pub update_stream : StreamConfig → State → (StreamInfo × Option NatsError) × State
  pub add_consumer : Bytes → ConsumerConfig → State → (ConsumerInfo × Option NatsError) × State
  pub update_consumer : Bytes → ConsumerConfig → State → (ConsumerInfo × Option NatsError) × State
  pub key_value : Bytes → State → (KeyValue × Option NatsError) × State
  pub create_key_value : KeyValueConfig → State → (KeyValue × Option NatsError) × State

-- A call that is made again, as an update, where its error says so.
abbrev pub or_update :
    {A State : Type 0}
    → (NatsError → Bool)
    → (State → (A × Option NatsError) × State)
    → (A × Option NatsError) × State
    → (A × Option NatsError) × State
or_update is_known update ((info, none), s) = ((info, none), s)
or_update is_known update ((info, some e), s) = if is_known e then update s else ((info, some e), s)

abbrev pub is_stream_in_use : NatsError → Bool
is_stream_in_use stream_name_already_in_use = true
is_stream_in_use _ = false

abbrev pub is_consumer_in_use : NatsError → Bool
is_consumer_in_use consumer_name_already_in_use = true
is_consumer_in_use _ = false

abbrev pub is_bucket_missing : NatsError → Bool
is_bucket_missing bucket_not_found = true
is_bucket_missing invalid_bucket_name = true
is_bucket_missing _ = false

module _ (js : JetStream) where
  open js use {
    State, StreamConfig, StreamInfo, ConsumerConfig, ConsumerInfo, KeyValueConfig, KeyValue, bucket,
    add_stream, update_stream, add_consumer, update_consumer, key_value, create_key_value,
  }

  unfoldable pub create_or_update_stream :
      StreamConfig → State → (StreamInfo × Option NatsError) × State
  create_or_update_stream config s =
      or_update is_stream_in_use (update_stream config) (add_stream config s)

  unfoldable pub create_or_update_consumer :
      Bytes → ConsumerConfig → State → (ConsumerInfo × Option NatsError) × State
  create_or_update_consumer stream config s =
      or_update is_consumer_in_use (update_consumer stream config) (add_consumer stream config s)

  unfoldable pub create_or_attach_key_value :
      KeyValueConfig → State → (KeyValue × Option NatsError) × State
  create_or_attach_key_value config s =
      or_update is_bucket_missing (create_key_value config) (key_value (bucket config) s)

-- No star is in front of the first one.
abbrev HasNoStar : Bytes → Type 0
HasNoStar [] = Unit {0}
HasNoStar (b ∷ s) = ((b == star) ≡ false) × HasNoStar s

replace_star-append :
    (front s new : Bytes)
    → HasNoStar front
    → replace_star (front ++ star ∷ s) new ≡ front ++ (new ++ s)
unfolding replace_star
replace_star-append [] s new h = refl
replace_star-append (b ∷ front) s new (n, h) = rw (n, replace_star-append front s new h) refl

HasNoStar-append : (xs ys : Bytes) → HasNoStar xs → HasNoStar ys → HasNoStar (xs ++ ys)
HasNoStar-append [] ys h k = k
HasNoStar-append (x ∷ xs) ys (n, h) k = (n, HasNoStar-append xs ys h k)

-- For an origin without a '*' the subject is `article.` with the origin, a dot, and the title with each
-- space as an underscore.
new_article_subject-append :
    (origin title : Bytes)
    → HasNoStar origin
    → new_article_subject origin title ≡ codes "article." ++ (origin ++ dot ∷ underscored title)
unfolding new_article_subject replace_star
new_article_subject-append origin title h =
    let front : Bytes = codes "article." ++ (origin ++ dot ∷ []) in
    let clean : HasNoStar front =
      HasNoStar-append (codes "article.") (origin ++ dot ∷ [])
        (refl, (refl, (refl, (refl, (refl, (refl, (refl, (refl, tt))))))))
        (HasNoStar-append origin (dot ∷ []) h (refl, tt)) in
    ap (λ (s : Bytes). replace_star (codes "article." ++ s) (underscored title))
      (sym (append_assoc origin (dot ∷ []) (star ∷ [])))
    ∙ replace_star-append front [] (underscored title) clean
    ∙ ap (◌++◌ front) (append-nil (underscored title))
    ∙ ap (λ (s : Bytes). codes "article." ++ s) (append_assoc origin (dot ∷ []) (underscored title))

split-dot : (xs s : Bytes) → Avoids is_dot xs → split (xs ++ dot ∷ s) dot ≡ xs ∷ split s dot
unfolding split
split-dot [] s a = refl
split-dot (b ∷ xs) s (n, a) = rw (n, split-dot xs s a) refl

-- The words of a subject: a title with a dot has more of them than the subject of the stream, which has
-- three.
split-new_article_subject :
    (origin title : Bytes)
    → HasNoStar origin
    → Avoids is_dot origin
    → split (new_article_subject origin title) dot
      ≡ codes "article" ∷ origin ∷ split (underscored title) dot
split-new_article_subject origin title h a =
    rw
      (
        new_article_subject-append origin title h,
        split-dot (codes "article") (origin ++ dot ∷ underscored title)
            (refl, (refl, (refl, (refl, (refl, (refl, (refl, tt))))))),
        split-dot origin (underscored title) a,
      )
      refl
