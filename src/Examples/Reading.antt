-- ===== src/Examples/Reading.antt =====
-- The properties of the reading side of the backend at concrete inputs.
use news_tracker.Prelude.{
  true, false, ◌≡◌, refl, ◌∙◌, Option, some, none, List, [], ◌∷◌, Bytes, codes, eq_bytes_refl,
  StringMap, find, put, find-put, arith,
}
use news_tracker.Prelude.Int.{ℤ, pos}
use news_tracker.Dates.{Clock}
use news_tracker.Accessor.{ArticleRowImage, ArticlesRow, articles_from_articles_rows}
use news_tracker.Accessor.Images.{articles_of, articles_from_rows}
use news_tracker.Counts.{CountStore, get_articles_count}
use news_tracker.Counts.Cache.{get_articles_count-twice}

read_back : (k v : Bytes) (m : StringMap Bytes) → find k (put k v m) ≡ some v
read_back k v m = find-put k k v m ∙ rw (eq_bytes_refl k) refl

-- Twelve articles, and a bucket in memory.
abbrev twelve : CountStore
twelve = record {
  State = StringMap Bytes;
  get = find;
  store = λ k v m. (none, put k v m);
  count = λ m. (pos 12, none);
  get-store = λ k v m e. read_back k v m;
}

get_articles_count-twice_example :
    ((get_articles_count twelve (codes "key") []).0 ≡ (pos 12, none))
    × ((t : StringMap Bytes)
        → find (codes "key") t ≡ find (codes "key") (get_articles_count twelve (codes "key") []).1
        → get_articles_count twelve (codes "key") t ≡ ((pos 12, none), t))
unfolding find
get_articles_count-twice_example =
    get_articles_count-twice twelve (codes "key") 12 [] (omega arith) refl refl refl

abbrev hours : Clock
hours = record {
  Time = ℤ;
  date = λ y m d h n. h;
  add_date = λ t y m d. t;
  year = λ t. pos 2024;
  month = λ t. pos 2;
  day = λ t. pos 6;
  hour = λ t. t;
  minute = λ t. pos 0;
  format_layout = λ t. [];
  parse_layout = λ s. none;
}

-- The first byte names the main image, the others the images of the content.
abbrev one_each : Bytes → Option (List ArticleRowImage)
one_each [] = none
one_each (b ∷ s) =
    some (record { url = b ∷ []; main = true } ∷ record { url = s; main = false } ∷ [])

abbrev row : Bytes → ArticlesRow ℤ
row images = record {
  id = pos 1;
  title = codes "news";
  preface = [];
  content = [];
  viewers_count = pos 5;
  published_at = pos 18;
  images = images;
}

articles_from_rows_example :
    articles_from_articles_rows hours one_each (row (codes "ab") ∷ row (codes "cd") ∷ [])
    ≡ articles_of hours one_each (row (codes "ab") ∷ row (codes "cd") ∷ [])
articles_from_rows_example =
    articles_from_rows hours one_each (row (codes "ab") ∷ row (codes "cd") ∷ [])
