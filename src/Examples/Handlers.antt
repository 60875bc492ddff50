-- ===== src/Examples/Handlers.antt =====
-- The properties of the reading of a query at a concrete query.
use news_tracker.Prelude.{◌≡◌, refl, some, none, [], ◌∷◌, codes, eq_bytes, if◌then◌else◌, ok}
use news_tracker.Prelude.Int.{ℤ, pos}
use news_tracker.Dates.{Clock}
use news_tracker.Handlers.{Query, get_articles, get_text_query}
use news_tracker.Handlers.Statuses.{Answers500, get_articles-Answers500, get_articles-bad_sorting}

abbrev hours : Clock
hours = record {
  Time = ℤ;
  date = λ y m d h n. h;
  add_date = λ t y m d. t;
  year = λ t. pos 2024;
  month = λ t. pos 2;
  day = λ t. pos 6;
  hour = λ t. t;
  minute = λ t. pos 0;
  format_layout = λ t. [];
  parse_layout = λ s. none;
}

-- `?sort=best`.
abbrev best_first : Query
best_first name = if eq_bytes name (codes "sort") then codes "best" else []

get_articles-Answers500_example : Answers500 hours (pos 0) (get_articles hours (pos 0) best_first)
get_articles-Answers500_example = get_articles-Answers500 hours (pos 0) best_first

get_articles-bad_sorting_example :
    get_articles hours (pos 0) best_first
    ≡ ok (
      500 ∷ [],
      some (record {
        sorting = [];
        start_date = pos 0;
        end_date = pos 0;
        text_lexems = get_text_query best_first;
        page = pos 1;
        page_size = pos 7;
      }),
    )
unfolding eq_bytes
get_articles-bad_sorting_example =
    get_articles-bad_sorting hours (pos 0) best_first refl refl refl refl refl refl refl
