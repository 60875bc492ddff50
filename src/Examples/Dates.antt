-- ===== src/Examples/Dates.antt =====
-- Tests of the dates, and their properties at concrete inputs, with a clock whose times are six
-- numbers.
use news_tracker.Prelude.{
  ◌+◌, ◌≤◌, ◌<◌, false, ◌≡◌, ◌⊎◌, refl, some, [], ◌∷◌, codes, eq_bytes, find, arith,
}
use news_tracker.Prelude.Int.{ℤ, pos}
use news_tracker.Dates.Strings.{utf8, split, fields, fields_from, atoi, digits_value}
use news_tracker.Dates.{
  Clock, parsed, panicked, parse_hour, parse_minute, parse_day, parse_query_string,
  parse_query_string_at, parse_date_ua, parse_absolute_date, month_text,
}
use news_tracker.Dates.Query.{
  IsNumeral, all_digits, parse_query_string_colon, parse_query_string_at-numerals,
}
use news_tracker.Dates.Prints.{month_text_digits}

abbrev pub Moment : Type 0
Moment = ℤ × ℤ × ℤ × ℤ × ℤ

abbrev pub moments : Clock
moments = record {
  Time = Moment;
  date = λ y m d h n. (y, m, d, h, n);
  add_date = λ t y m d. t;
  year = λ t. t.0;
  month = λ t. t.1;
  day = λ t. t.2;
  hour = λ t. t.3;
  minute = λ t. t.4;
  format_layout = λ t. [];
  parse_layout = λ s. some (pos 0, pos 1, pos 1, pos 0, pos 0);
}

month-IsNumeral : IsNumeral (codes "06") 6
unfolding digits_value
month-IsNumeral = record {
  is_filled = λ e. cc;
  are_digits = refl;
  has_value = refl;
  is_small = omega arith;
}

year-IsNumeral : IsNumeral (codes "24") 24
unfolding digits_value
year-IsNumeral = record {
  is_filled = λ e. cc;
  are_digits = refl;
  has_value = refl;
  is_small = omega arith;
}

parse_query_string_at-numerals_example :
    parse_query_string_at moments (codes "24-06-06T24:06")
    ≡ parsed (pos 24, pos 6, pos 6, pos 24, pos 6)
parse_query_string_at-numerals_example =
    parse_query_string_at-numerals moments (codes "24") (codes "06") (codes "06") (codes "24")
      (codes "06") 24 6 6 24 6 year-IsNumeral month-IsNumeral (omega arith) month-IsNumeral
      year-IsNumeral month-IsNumeral

parse_query_string_colon_example : parse_query_string moments (codes "2024-10-12T10") ≡ panicked
unfolding atoi digits_value
parse_query_string_colon_example =
    parse_query_string_colon moments (codes "2024-10-12") (codes "10") (pos 10) refl refl refl refl

month_text_digits_example :
    ((10 < 10) × (month_text (pos 10) ≡ b'0' ∷ (b'0' + 10) ∷ []))
    ⊎ ((10 ≤ 10) × (all_digits (month_text (pos 10)) ≡ false))
month_text_digits_example =
    month_text_digits moments (pos 2024, pos 10, pos 12, pos 10, pos 1) 10 refl

parse_date_ua_test :
    parse_date_ua moments (pos 1, pos 1, pos 1, pos 1, pos 1) (utf8 "06 Лют 2024 о 18:29")
    ≡ parsed (pos 2024, pos 2, pos 6, pos 18, pos 29)
unfolding parse_date_ua fields fields_from parse_absolute_date find eq_bytes atoi digits_value
    parse_day parse_hour parse_minute split
parse_date_ua_test = refl
