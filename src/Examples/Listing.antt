-- ===== src/Examples/Listing.antt =====
-- Tests of the listing, and its properties at concrete inputs.
use news_tracker.Prelude.{
  false, ◌≡◌, refl, ◌∙◌, some, none, [], ◌∷◌, Bytes, codes, length, eq_bytes_refl, StringMap, find,
  put, find-put, arith,
}
use news_tracker.Prelude.Int.{pos}
use news_tracker.Accessor.{ArticlesRow}
use news_tracker.Listing.{KeyFormat, ArticleStore, Params, get_cache_key, count_for, join}
use news_tracker.Listing.Stale.{count_for_stale}
use news_tracker.Nats.{new_article_subject, replace_star, underscored}
use news_tracker.Examples.Dates.{Moment, moments}

abbrev zero_moment : Moment
zero_moment = (pos 1, pos 1, pos 1, pos 0, pos 0)

abbrev plain_keys : KeyFormat Moment
plain_keys = record {
  zero_time = zero_moment;
  equal = λ a b. false;
  sprint_times = λ a b. [];
  generate_hash = λ bytes. bytes;
}

put_found : (k v : Bytes) (s : StringMap Bytes) → find k (put k v s) ≡ some v
put_found k v s = find-put k k v s ∙ rw (eq_bytes_refl k) refl

abbrev empty_row : ArticlesRow Moment
empty_row = record {
  id = pos 0;
  title = [];
  preface = [];
  content = [];
  viewers_count = pos 0;
  published_at = zero_moment;
  images = [];
}

-- The count is the number of words.
abbrev cached_words : ArticleStore moments
cached_words = record {
  State = StringMap Bytes;
  articles = λ params s. ([], none);
  article_by_id = λ id s. (empty_row, none);
  article_count = λ params s. (pos (length params.lexems), none);
  get = find;
  store = λ k v s. (none, put k v s);
  get-store = λ k v s e. put_found k v s;
}

abbrev request : Moment → Params moments plain_keys
request start = record {
  sorting = codes "newest";
  start_date = start;
  end_date = zero_moment;
  text_lexems = codes "a" ∷ codes "b" ∷ [];
  page = pos 1;
  page_size = pos 7;
}

abbrev this_year : Moment
this_year = (pos 2024, pos 1, pos 1, pos 0, pos 0)

count_for_stale_example :
    ((count_for moments plain_keys cached_words (request zero_moment) []).0 ≡ (pos 2, none))
    × (count_for moments plain_keys cached_words
          (request this_year)
          (count_for moments plain_keys cached_words (request zero_moment) []).1
        ≡ ((pos 2, none), (count_for moments plain_keys cached_words (request zero_moment) []).1))
unfolding find
count_for_stale_example =
    count_for_stale moments plain_keys cached_words (request zero_moment) (request this_year) 2 []
      (omega arith) refl refl refl refl

words_joined :
    get_cache_key moments plain_keys this_year this_year (codes "a" ∷ codes "b" ∷ []) ≡ codes "a.b"
unfolding get_cache_key join
words_joined = refl

subject_of-article : new_article_subject (codes "ua") (codes "to be") ≡ codes "article.ua.to_be"
unfolding new_article_subject replace_star underscored
subject_of-article = refl
