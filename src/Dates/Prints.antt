-- ===== src/Dates/Prints.antt =====
-- How `Pretify` writes a month.
use news_tracker.Prelude.{
  ℕ, suc, ◌+◌, ◌%◌, ◌≤◌, ◌<◌, true, false, ◌≡◌, ◌⊎◌, refl, inl, inr, [], ◌∷◌, ltb, Bool-cases,
  arith,
}
use news_tracker.Prelude.Int.{ℤ, pos, ltb_ℤ}
use news_tracker.Prelude.Decimal.{sprint, digits_onto}
use news_tracker.Dates.{Clock, month_text, month_name}
use news_tracker.Dates.Query.{all_digits}

sprint_digit : (m : ℕ) → m < 10 → sprint (pos m) ≡ (b'0' + m) ∷ []
unfolding sprint digits_onto
sprint_digit m h =
    let e : m + 1 ≡ suc m = omega arith in
    let small : ltb m 10 ≡ true = ground arith in
    let digit : m % 10 ≡ m = omega arith in rw (e, small, digit) refl

month_name_lem : (m : ℤ) → all_digits (month_name m) ≡ false
month_name_lem m = ground arith

-- For the months of a year, `Pretify` writes the month as two digits exactly up to September: from
-- October on it writes a text that is no number.
pub month_text_digits :
    (clock : Clock) (t : clock.Time) (m : ℕ)
    → clock.month t ≡ pos m
    → ((m < 10) × (month_text (clock.month t) ≡ b'0' ∷ (b'0' + m) ∷ []))
      ⊎ ((10 ≤ m) × (all_digits (month_text (clock.month t)) ≡ false))
unfolding month_text
month_text_digits clock t m e = elim (Bool-cases (ltb_ℤ (pos m) (pos 10))) [
  | inl y ↦ inl (ground arith, rw (e, y, sprint_digit m (ground arith)) refl)
  | inr n ↦ inr (ground arith, rw (e, n) (month_name_lem (pos m)))
]
