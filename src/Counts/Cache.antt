-- ===== src/Counts/Cache.antt =====
-- A count that was written to the cache is read back from it.
use news_tracker.Prelude.{
  ℕ, zero, suc, ◌+◌, ◌-◌, ◌*◌, ◌/◌, ◌%◌, ◌<◌, true, false, ◌≡◌, ◌≢◌, refl, ◌∙◌, inl, inr, some,
  none, [], ◌∷◌, Bytes, ltb, leb, Bool-cases, arith,
}
use news_tracker.Prelude.Int.{pos, int_half}
use news_tracker.Prelude.Decimal.{sprint, digits_onto}
use news_tracker.Dates.Strings.{atoi, digits_value}
use news_tracker.Dates.Query.{all_digits, atoi_numeral}
use news_tracker.Counts.{CountStore, get_articles_count}

module _ (f : ℕ) where
  small_digits :
      (n : ℕ) (rest : Bytes) → ltb n 10 ≡ true → digits_onto (suc f) n rest ≡ (b'0' + n % 10) ∷ rest
  unfolding digits_onto
  small_digits n rest h = rw h refl

  large_digits :
      (n : ℕ) (rest : Bytes)
      → ltb n 10 ≡ false
      → digits_onto (suc f) n rest ≡ digits_onto f (n / 10) ((b'0' + n % 10) ∷ rest)
  unfolding digits_onto
  large_digits n rest h = rw h refl

-- What the digits of `n` in front of `rest` are, with enough rounds.
pub record IsWritten (n : ℕ) (rest s : Bytes) : Type 0 where
  pub is_filled : s ≢ []
  pub are_digits : all_digits s ≡ true
  pub has_value : digits_value 0 s ≡ digits_value n rest

digit_value :
    (n : ℕ) (rest : Bytes) (m : ℕ)
    → digits_value m ((b'0' + n % 10) ∷ rest) ≡ digits_value (m * 10 + n % 10) rest
unfolding digits_value
digit_value n rest m =
    let low : leb b'0' (b'0' + n % 10) ≡ true = ground arith in
    let high : leb (b'0' + n % 10) b'9' ≡ true = ground arith in
    let e : m * 10 + (b'0' + n % 10 - b'0') ≡ m * 10 + n % 10 = omega arith in
    rw (low, high, e) refl

digits_onto-IsWritten :
    (f n : ℕ) (rest : Bytes)
    → n < f
    → all_digits rest ≡ true
    → IsWritten n rest (digits_onto f n rest)
digits_onto-IsWritten zero n rest l h = absurd (omega arith)
digits_onto-IsWritten (suc f) n rest l h =
    let low : leb b'0' (b'0' + n % 10) ≡ true = ground arith in
    let high : leb (b'0' + n % 10) b'9' ≡ true = ground arith in
    elim (Bool-cases (ltb n 10)) [
      | inl y ↦
          let e : 0 * 10 + n % 10 ≡ n = ground arith in
          rw (small_digits f n rest y) record {
            is_filled = λ z. cc;
            are_digits = rw (low, high) h;
            has_value = rw (digit_value n rest 0, e) refl;
          }
      | inr y ↦
          let more =
            digits_onto-IsWritten f (n / 10) ((b'0' + n % 10) ∷ rest) (ground arith)
              (rw (low, high) h) in
          let e : n / 10 * 10 + n % 10 ≡ n = omega arith in
          rw (large_digits f n rest y) record {
            is_filled = more.is_filled;
            are_digits = more.are_digits;
            has_value = more.has_value ∙ rw (digit_value n rest (n / 10), e) refl;
          }
    ]

pub atoi-sprint : (n : ℕ) → n < int_half → atoi (sprint (pos n)) ≡ some (pos n)
unfolding sprint digits_value
atoi-sprint n h =
    let written = digits_onto-IsWritten (n + 1) n [] (omega arith) refl in
    atoi_numeral (digits_onto (n + 1) n []) n record {
      is_filled = written.is_filled;
      are_digits = written.are_digits;
      has_value = written.has_value;
      is_small = h;
    }

-- Where nothing is cached, the query gives a count below 2^63 and the count is stored, the count is returned;
-- and from every state whose cache still holds what was stored, the same count is returned, and
-- nothing is changed, whatever the query would give.
pub get_articles_count-twice :
    (bucket : CountStore) (key : Bytes) (n : ℕ) (s : bucket.State)
    → n < int_half
    → bucket.get key s ≡ none
    → bucket.count s ≡ (pos n, none)
    → (bucket.store key (sprint (pos n)) s).0 ≡ none
    → ((get_articles_count bucket key s).0 ≡ (pos n, none))
      × ((t : bucket.State)
          → bucket.get key t ≡ bucket.get key (get_articles_count bucket key s).1
          → get_articles_count bucket key t ≡ ((pos n, none), t))
unfolding get_articles_count
get_articles_count-twice bucket key n s l g c p = (
  simp (g, c) refl,
  λ t same.
      let stored : bucket.get key t ≡ some (sprint (pos n)) =
        same ∙ simp (g, c) (bucket.get-store key (sprint (pos n)) s p) in
      simp (stored, atoi-sprint n l) refl,
)
