-- ===== src/Listing/Stale.antt =====
-- One count is cached for all ranges of dates.
use news_tracker.Prelude.{ℕ, ◌<◌, ◌≡◌, refl, ap, some, none}
use news_tracker.Prelude.Int.{pos, int_half}
use news_tracker.Prelude.Decimal.{sprint}
use news_tracker.Dates.{Clock}
use news_tracker.Counts.{get_articles_count}
use news_tracker.Counts.Cache.{atoi-sprint}
use news_tracker.Listing.{KeyFormat, ArticleStore, Params, get_cache_key, count_params, count_for}

module _ (clock : Clock) (format : KeyFormat clock.Time) (store : ArticleStore clock) where
  same_key :
      (p q : Params clock format)
      → q.text_lexems ≡ p.text_lexems
      → get_cache_key clock format q.start_date q.end_date q.text_lexems
        ≡ get_cache_key clock format p.start_date p.end_date p.text_lexems
  unfolding get_cache_key
  same_key p q e = rw e refl

  -- A request whose count is not cached, whose query gives a count below 2^63 and whose count is stored
  -- gets that count; and after it a request with the same words gets the same count, with no query of its
  -- own, whatever its dates are.
  pub count_for_stale :
      (p q : Params clock format) (n : ℕ) (s : store.State)
      → n < int_half
      → q.text_lexems ≡ p.text_lexems
      → store.get (get_cache_key clock format p.start_date p.end_date p.text_lexems) s ≡ none
      → store.article_count (count_params clock format p) s ≡ (pos n, none)
      → (store.store
          (get_cache_key clock format p.start_date p.end_date p.text_lexems)
          (sprint (pos n))
          s).0
        ≡ none
      → ((count_for clock format store p s).0 ≡ (pos n, none))
        × (count_for clock format store q (count_for clock format store p s).1
            ≡ ((pos n, none), (count_for clock format store p s).1))
  unfolding count_for get_articles_count
  count_for_stale p q n s l e g c w =
      let key = get_cache_key clock format p.start_date p.end_date p.text_lexems in
      let after : store.State = (store.store key (sprint (pos n)) s).1 in
      let first : count_for clock format store p s ≡ ((pos n, none), after) = simp (g, c) refl in
      let stored : store.get key after ≡ some (sprint (pos n)) =
        store.get-store key (sprint (pos n)) s w in
      let second : count_for clock format store q after ≡ ((pos n, none), after) =
        simp (same_key p q e, stored, atoi-sprint n l) refl in
      (ap (λ r. r.0) first, rw first second)
