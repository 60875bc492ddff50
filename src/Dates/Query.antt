-- ===== src/Dates/Query.antt =====
-- What the dates of a query are read as.
use news_tracker.Prelude.{
  ℕ, ◌-◌, ◌≤◌, ◌<◌, Bool, true, false, not, ◌&&◌, ◌≡◌, ◌≢◌, refl, ap, ◌∙◌, some, [], ◌∷◌, ◌++◌,
  Bytes, leb, ◌==◌, arith,
}
use news_tracker.Prelude.Int.{ℤ, pos, int_half, ltb_ℤ}
use news_tracker.Dates.Strings.{split, atoi, digits_value}
use news_tracker.Dates.{
  Clock, parsed, panicked, parse_hour, parse_minute, parse_day, parse_month, parse_query_string,
  parse_query_string_at, date_at, hour_and_minute,
}

abbrev pub avoids : ℕ → Bytes → Bool
avoids sep [] = true
avoids sep (b ∷ s) = not (b == sep) && avoids sep s

abbrev pub is_digit : ℕ → Bool
is_digit b = leb b'0' b && leb b b'9'

abbrev pub all_digits : Bytes → Bool
all_digits [] = true
all_digits (b ∷ s) = is_digit b && all_digits s

-- A text of digits, leading zeros allowed, and its value.
pub record IsNumeral (s : Bytes) (n : ℕ) : Type 0 where
  pub is_filled : s ≢ []
  pub are_digits : all_digits s ≡ true
  pub has_value : digits_value 0 s ≡ some n
  pub is_small : n < int_half

split-avoids : (s : Bytes) (sep : ℕ) → avoids sep s ≡ true → split s sep ≡ s ∷ []
unfolding split
split-avoids [] sep h = refl
split-avoids (b ∷ s) sep h = ground (arith, split-avoids s sep)

split-append :
    (s : Bytes) (sep : ℕ) (t : Bytes)
    → avoids sep s ≡ true
    → split (s ++ sep ∷ t) sep ≡ s ∷ split t sep
unfolding split
split-append [] sep t h = ground arith
split-append (b ∷ s) sep t h = ground (arith, split-append s sep t)

digits-avoid :
    (s : Bytes) (sep : ℕ) → is_digit sep ≡ false → all_digits s ≡ true → avoids sep s ≡ true
digits-avoid [] sep n h = refl
digits-avoid (b ∷ s) sep n h = ground (arith, digits-avoid s sep n)

avoids-append :
    (sep : ℕ) (s t : Bytes) → avoids sep s ≡ true → avoids sep t ≡ true → avoids sep (s ++ t) ≡ true
avoids-append sep [] t a b = b
avoids-append sep (c ∷ s) t a b = ground (arith, avoids-append sep s t)

pub atoi_numeral : (s : Bytes) (n : ℕ) → IsNumeral s n → atoi s ≡ some (pos n)
unfolding atoi
atoi_numeral [] n i = absurd (i.is_filled refl)
atoi_numeral (b ∷ s) n i =
    let minus : (b == b'-') ≡ false = ground (arith, i.are_digits) in
    let plus : (b == b'+') ≡ false = ground (arith, i.are_digits) in
    let small : leb n (int_half - 1) ≡ true = ground (arith, i.is_small) in
    rw (minus, plus, i.has_value, small) refl

split_two :
    (s t : Bytes) (sep : ℕ)
    → avoids sep s ≡ true
    → avoids sep t ≡ true
    → split (s ++ sep ∷ t) sep ≡ s ∷ t ∷ []
split_two s t sep a b = split-append s sep t a ∙ ap (◌∷◌ s) (split-avoids t sep b)

numeral-avoids :
    (s : Bytes) (n sep : ℕ) → IsNumeral s n → is_digit sep ≡ false → avoids sep s ≡ true
numeral-avoids s n sep i h = digits-avoid s sep h i.are_digits

avoids-joined :
    (sep mark : ℕ) (s t : Bytes)
    → (mark == sep) ≡ false
    → avoids sep s ≡ true
    → avoids sep t ≡ true
    → avoids sep (s ++ mark ∷ t) ≡ true
avoids-joined sep mark s t n a b = avoids-append sep s (mark ∷ t) a (rw n b)

module _ (clock : Clock) where
  -- A query with a time that is a number without a colon panics, whatever its date is.
  pub parse_query_string_colon :
      (d t : Bytes) (h : ℤ)
      → avoids b'T' d ≡ true
      → avoids b'T' t ≡ true
      → avoids b':' t ≡ true
      → atoi t ≡ some h
      → parse_query_string clock (d ++ b'T' ∷ t) ≡ panicked
  unfolding parse_query_string parse_query_string_at parse_hour parse_minute atoi
  parse_query_string_colon d [] h d_ok t_ok tc a = cc
  parse_query_string_colon d (b ∷ t) h d_ok t_ok tc a =
      rw
        (
          split-append d b'T' (b ∷ t) d_ok,
          split-avoids (b ∷ t) b'T' t_ok,
          split-avoids (b ∷ t) b':' tc,
          a,
        )
        refl

  hour_and_minute-numerals :
      (h n : Bytes) (vh vn : ℕ)
      → IsNumeral h vh
      → IsNumeral n vn
      → hour_and_minute clock (h ++ b':' ∷ n) ≡ parsed (pos vh, pos vn)
  unfolding parse_hour parse_minute
  hour_and_minute-numerals [] n vh vn ih minutes = absurd (ih.is_filled refl)
  hour_and_minute-numerals (b ∷ h) n vh vn ih minutes =
      rw
        (
          split_two (b ∷ h) n b':' (numeral-avoids (b ∷ h) vh b':' ih refl)
              (numeral-avoids n vn b':' minutes refl),
          atoi_numeral (b ∷ h) vh ih,
          atoi_numeral n vn minutes,
        )
        refl

  date_at-numerals :
      (y m d : Bytes) (vy vm vd : ℕ)
      → IsNumeral y vy
      → IsNumeral m vm
      → vm ≤ 12
      → IsNumeral d vd
      → (h n : ℤ)
      → date_at clock (y ∷ m ∷ d ∷ []) (h, n) ≡ parsed (clock.date (pos vy) (pos vm) (pos vd) h n)
  unfolding parse_month parse_day
  date_at-numerals y m d vy vm vd iy im lm id h n =
      let month : ltb_ℤ (pos 12) (pos vm) ≡ false = ground arith in
      rw (atoi_numeral y vy iy, atoi_numeral m vm im, atoi_numeral d vd id, month) refl

  -- A date of three numerals, of which the month is at most 12, and a time of two: the parts are read
  -- in order.
  pub parse_query_string_at-numerals :
      (y m d h n : Bytes) (vy vm vd vh vn : ℕ)
      → IsNumeral y vy
      → IsNumeral m vm
      → vm ≤ 12
      → IsNumeral d vd
      → IsNumeral h vh
      → IsNumeral n vn
      → parse_query_string_at clock ((y ++ b'-' ∷ (m ++ b'-' ∷ d)) ++ b'T' ∷ (h ++ b':' ∷ n))
        ≡ parsed (clock.date (pos vy) (pos vm) (pos vd) (pos vh) (pos vn))
  unfolding parse_query_string_at parse_hour parse_minute parse_month parse_day
  parse_query_string_at-numerals y m d h n vy vm vd vh vn iy im lm id ih minutes =
      rw
        (
          split_two (y ++ b'-' ∷ (m ++ b'-' ∷ d)) (h ++ b':' ∷ n) b'T'
              (avoids-joined b'T' b'-' y (m ++ b'-' ∷ d) refl (numeral-avoids y vy b'T' iy refl) (
                avoids-joined b'T' b'-' m d refl (numeral-avoids m vm b'T' im refl)
                  (numeral-avoids d vd b'T' id refl)))
              (avoids-joined b'T' b':' h n refl (numeral-avoids h vh b'T' ih refl)
                (numeral-avoids n vn b'T' minutes refl)),
          hour_and_minute-numerals h n vh vn ih minutes,
          split-append y b'-' (m ++ b'-' ∷ d) (numeral-avoids y vy b'-' iy refl),
          split_two m d b'-' (numeral-avoids m vm b'-' im refl) (numeral-avoids d vd b'-' id refl),
        )
        (date_at-numerals y m d vy vm vd iy im lm id (pos vh) (pos vn))
