-- ===== src/Dates.antt =====
-- pkg/dateutils/dateutils.go. `time` is a parameter; the time of the call is an argument. An index out
-- of range is a panic.
pub mod Strings
pub mod Query
pub mod Prints
use news_tracker.Prelude.{
  ℕ, zero, suc, ◌+◌, ◌-◌, ◌*◌, ◌/◌, ◌%◌, ◌^◌, ◌≤◌, ◌<◌, String, Bool, true, false, not, ◌&&◌, ◌||◌,
  ◌≡◌, ◌≢◌, ◌↔◌, ◌⊎◌, refl, sym, ap, ◌∙◌, fun_ext, inl, inr, Option, some, none, List, [], ◌∷◌,
  ◌++◌, map, map-append, append_assoc, append-nil, Bytes, codes, length, length-append, get_elem?,
  get_elem?-append, get_elem?-some, get_elem?-none, take, drop, drop-length, take-length, ltb, leb,
  ◌==◌, ==_iff, ltb→lt, leb→le, eq_bytes, eq_bytes_iff, eq_bytes_refl, has_prefix, contains,
  replace_all, replace_from, StringMap, find, put, remove, find-put, find-remove, if◌then◌else◌,
  Bool-cases, Option-cases, arith,
}
use news_tracker.Prelude.Int.{ℤ, pos, negsuc, ltb_ℤ}
use news_tracker.Prelude.Decimal.{sprint}
use news_tracker.Dates.Strings.{utf8, split, fields, atoi}

pub data DateError : Type 0 where
  unsupported_date_format : DateError
  invalid_day_format : DateError
  invalid_hour_format : DateError
  invalid_minute_format : DateError
  invalid_year_format : DateError
  unknow_month_abbr : DateError
  invalid_month_format : DateError
  invalid_format : DateError
  invalid_year : DateError
  invalid_month : DateError
  invalid_day : DateError
  invalid_layout : DateError

pub data Parsed (A : Type 0) : Type 0 where
  parsed : A → Parsed A
  failed : DateError → Parsed A
  panicked : Parsed A

infixl 5 ◌>>=◌
abbrev pub ◌>>=◌ : {A B : Type 0} → Parsed A → (A → Parsed B) → Parsed B
parsed a >>= f = f a
failed e >>= f = failed e
panicked >>= f = panicked

-- What `time` has: `date` is time.Date in the local zone, with no seconds.
pub record Clock : Type 1 where
  pub Time : Type 0
  pub date : ℤ → ℤ → ℤ → ℤ → ℤ → Time
  pub add_date : Time → ℤ → ℤ → ℤ → Time
  pub year : Time → ℤ
  pub month : Time → ℤ
  pub day : Time → ℤ
  pub hour : Time → ℤ
  pub minute : Time → ℤ
  pub format_layout : Time → Bytes
  pub parse_layout : Bytes → Option Time

abbrev pub ua_month : StringMap ℤ
ua_month =
    (utf8 "Січ", pos 1)
    ∷ (utf8 "Лют", pos 2)
    ∷ (utf8 "Бер", pos 3)
    ∷ (utf8 "Кві", pos 4)
    ∷ (utf8 "Тра", pos 5)
    ∷ (utf8 "Чер", pos 6)
    ∷ (utf8 "Лип", pos 7)
    ∷ (utf8 "Сер", pos 8)
    ∷ (utf8 "Вер", pos 9)
    ∷ (utf8 "Жов", pos 10)
    ∷ (utf8 "Лис", pos 11)
    ∷ (utf8 "Гру", pos 12)
    ∷ []

abbrev pub or_fail : {A : Type 0} → DateError → Option A → Parsed A
or_fail e none = failed e
or_fail e (some a) = parsed a

-- An error of the callee, replaced by the caller's own.
abbrev pub fail_as : {A : Type 0} → DateError → Parsed A → Parsed A
fail_as e (parsed a) = parsed a
fail_as e (failed f) = failed e
fail_as e panicked = panicked

abbrev pub part : List Bytes → ℕ → Parsed Bytes
part ws i = elim (get_elem? ws i) [ none ↦ panicked | some w ↦ parsed w ]

unfoldable pub parse_day : Bytes → Parsed ℤ
parse_day day = or_fail invalid_day_format (atoi day)

unfoldable pub parse_hour : Bytes → Parsed ℤ
parse_hour time_string = do
  w ← part (split time_string b':') 0
  or_fail invalid_hour_format (atoi w)

unfoldable pub parse_minute : Bytes → Parsed ℤ
parse_minute time_string = do
  w ← part (split time_string b':') 1
  or_fail invalid_minute_format (atoi w)

abbrev pub up_to_twelve : ℤ → Parsed ℤ
up_to_twelve m = if ltb_ℤ (pos 12) m then failed invalid_month_format else parsed m

unfoldable pub parse_month : Bytes → Parsed ℤ
parse_month day = do m ← or_fail invalid_month_format (atoi day); up_to_twelve m

module _ (clock : Clock) where
  open clock use {Time, date, add_date, year, month, day, hour, minute, format_layout, parse_layout}

  abbrev pub at_time : Time → Bytes → Parsed Time
  at_time t time_string = do
    h ← parse_hour time_string
    m ← parse_minute time_string
    parsed (date (year t) (month t) (day t) h m)

  unfoldable pub parse_relative_date : Time → Bytes → Bytes → Parsed Time
  parse_relative_date now d time_string =
      if eq_bytes d (utf8 "Сьогодні")
      then at_time now time_string
      else if eq_bytes d (utf8 "Вчора")
      then at_time (add_date now (pos 0) (pos 0) (negsuc 0)) time_string
      else failed unsupported_date_format

  unfoldable pub parse_absolute_date : Bytes → Bytes → Bytes → Bytes → Parsed Time
  parse_absolute_date d month_abbrev y time_string = do
    m ← or_fail unknow_month_abbr (find month_abbrev ua_month)
    year_int ← or_fail invalid_year_format (atoi y)
    day_int ← fail_as invalid_day_format (parse_day d)
    hour_int ← fail_as invalid_hour_format (parse_hour time_string)
    minute_int ← fail_as invalid_minute_format (parse_minute time_string)
    parsed (date year_int m day_int hour_int minute_int)

  abbrev pub parse_fields_ua : Time → List Bytes → Parsed Time
  parse_fields_ua now (a ∷ b ∷ c ∷ []) = parse_relative_date now a c
  parse_fields_ua now (a ∷ b ∷ c ∷ d ∷ e ∷ []) = parse_absolute_date a b c e
  parse_fields_ua now _ = failed unsupported_date_format

  unfoldable pub parse_date_ua : Time → Bytes → Parsed Time
  parse_date_ua now str = parse_fields_ua now (fields str)

  -- The date and the time of a query; more than one `T` leaves both empty.
  abbrev pub date_and_time : List Bytes → Bytes × Bytes
  date_and_time (d ∷ t ∷ []) = (d, t)
  date_and_time (d ∷ []) = (d, [])
  date_and_time _ = ([], [])

  abbrev pub hour_and_minute : Bytes → Parsed (ℤ × ℤ)
  hour_and_minute [] = parsed (pos 0, pos 0)
  hour_and_minute (b ∷ t) = do h ← parse_hour (b ∷ t); m ← parse_minute (b ∷ t); parsed (h, m)

  abbrev pub date_at : List Bytes → ℤ × ℤ → Parsed Time
  date_at (y ∷ m ∷ d ∷ []) (h, minutes) = do
    year_int ← or_fail invalid_year (atoi y)
    month_int ← fail_as invalid_month (parse_month m)
    day_int ← fail_as invalid_day (parse_day d)
    parsed (date year_int month_int day_int h minutes)
  date_at _ hm = failed invalid_format

  unfoldable pub parse_query_string_at : Bytes → Parsed Time
  parse_query_string_at query_str =
      let (date_str, time_str) = date_and_time (split query_str b'T') in
      hour_and_minute time_str >>= date_at (split date_str b'-')

  unfoldable pub parse_query_string : Bytes → Parsed Time
  parse_query_string query_time = do
    t ← parse_query_string_at query_time
    or_fail invalid_layout (parse_layout (format_layout t))

-- time.Month.String, for a month of the year.
abbrev pub month_name : ℤ → Bytes
month_name m =
    if ltb_ℤ m (pos 11)
    then codes "October"
    else if ltb_ℤ m (pos 12)
    then codes "November"
    else codes "December"

-- `fmt.Sprint` of a month writes its name; `%d` its number. The name is written from 10 on.
unfoldable pub month_text : ℤ → Bytes
month_text m = if ltb_ℤ m (pos 10) then b'0' ∷ sprint m else month_name m

module _ (clock : Clock) where
  open clock use {Time, year, month, day, hour, minute}

  unfoldable pub pretify : Time → Bytes
  pretify t =
      sprint (hour t)
      ++ codes ":"
      ++ sprint (minute t)
      ++ codes " "
      ++ sprint (day t)
      ++ codes "-"
      ++ month_text (month t)
      ++ codes "-"
      ++ sprint (year t)
