-- ===== src/Tokenizer/Scans.antt =====
-- The search of `Next` for the start of a token finds what `find_tag` finds.
use news_tracker.Prelude.{
  ℕ, zero, suc, ◌-◌, ◌<◌, true, false, ◌≡◌, refl, ap, ◌∙◌, inl, inr, Option, some, none, [], ◌∷◌,
  ◌++◌, append_assoc, Bytes, length, length-append, ◌==◌, ==_iff, Bool-cases, Outcome, ok, arith,
}
use news_tracker.Token.Reader.{l_bracket}
use news_tracker.Tokenizer.{eof, IoReader, Tokenizer, has_err, next_symbol, starts_token}
use news_tracker.Tokenizer.Window.{IsPolite, At}
use news_tracker.Tokenizer.Reads.{read_byte-At, read_byte-AtEnd, no_error}
use news_tracker.Tokenizer.Lex.{Found, behind, find_tag}
use news_tracker.Tokenizer.{ParserState}

find_tag_other :
    (b : ℕ) (s : Bytes) → (b == l_bracket) ≡ false → find_tag (b ∷ s) ≡ behind b (find_tag s)
unfolding find_tag
find_tag_other b [] h = refl
find_tag_other b (c ∷ s) h = rw h refl

find_tag_nil : find_tag [] ≡ none
unfolding find_tag
find_tag_nil = refl

find_tag_one : (b : ℕ) → find_tag (b ∷ []) ≡ none
unfolding find_tag
find_tag_one b = refl

find_tag_plain :
    (b c : ℕ) (s : Bytes)
    → starts_token c ≡ false
    → find_tag (b ∷ c ∷ s) ≡ behind b (find_tag (c ∷ s))
unfolding find_tag
find_tag_plain b c s h = elim (Bool-cases (b == l_bracket)) [
  | inl y ↦ rw (y, h) refl
  | inr n ↦ rw n refl
]

find_tag_start :
    (b c : ℕ) (s : Bytes)
    → (b == l_bracket) ≡ true
    → starts_token c ≡ true
    → find_tag (b ∷ c ∷ s) ≡ some ([], c, s)
unfolding find_tag
find_tag_start b c s y h = rw (y, h) refl

module _ {source : IoReader} (polite : IsPolite source) where
  -- A byte is put back in front of the window's end.
  pub unread-At :
      (t : Tokenizer source) (win rest : Bytes) (b ds de : ℕ)
      → At polite t (win ++ b ∷ []) rest ds de
      → At polite
          (record t { reader = record t.reader { end = t.reader.end - 1 } })
          win
          (b ∷ rest)
          ds
          de
  unread-At t win rest b ds de (front, ahead, left, l, h, e) = (
    front,
    b ∷ ahead,
    left,
    record {
      no_err = l.no_err;
      buffer = l.buffer ∙ ap (◌++◌ front) (append_assoc win (b ∷ []) ahead);
      start_at = l.start_at;
      end_at = omega (arith, l.end_at, length-append win (b ∷ []));
      from = l.from;
      upto = l.upto;
      fits = l.fits;
      has_room = l.has_room;
    },
    h,
    ap (◌∷◌ b) e,
  )

  -- The search ends at the symbol, or with the reader.
  abbrev pub Finds :
      Bytes → ℕ → ℕ → ParserState → Option Found → Outcome (Option ℕ × Tokenizer source) → Type 0
  Finds win ds de st none r = (t' : Tokenizer source) × (r ≡ ok (none, t')) × (t'.err ≡ some eof)
  Finds win ds de st (some (front, c, after)) r =
      (t' : Tokenizer source) × (r ≡ ok (some c, t'))
      × At polite t' (win ++ (front ++ l_bracket ∷ c ∷ [])) after ds de
      × (t'.state ≡ st)

  Finds-behind :
      (win : Bytes) (b ds de : ℕ) (st : ParserState) (found : Option Found)
      (r : Outcome (Option ℕ × Tokenizer source))
      → Finds (win ++ b ∷ []) ds de st found r
      → Finds win ds de st (behind b found) r
  Finds-behind win b ds de st none r f = f
  Finds-behind win b ds de st (some (front, c, after)) r (t', e, at, same) =
      (t', e, rw (append_assoc win (b ∷ []) (front ++ l_bracket ∷ c ∷ [])) at at, same)

  pub is_ended : (t : Tokenizer source) → t.err ≡ some eof → has_err source t ≡ true
  is_ended t e = rw e refl

  pub At-no_err :
      (t : Tokenizer source) (win rest : Bytes) (ds de : ℕ)
      → At polite t win rest ds de
      → has_err source t ≡ false
  At-no_err t win rest ds de (front, ahead, left, l, h, e) = no_error polite t l.no_err

  pub next_symbol-Finds :
      (f : ℕ) (t : Tokenizer source) (win rest : Bytes) (ds de : ℕ) (st : ParserState)
      → At polite t win rest ds de
      → t.state ≡ st
      → length rest < f
      → Finds win ds de st (find_tag rest) (next_symbol source f t)
  unfolding next_symbol
  next_symbol-Finds zero t win rest ds de st a s h = absurd (omega arith)
  next_symbol-Finds (suc f) t win [] ds de st a s h =
      let (t', e, end, same) = read_byte-AtEnd polite t win ds de a in
      rw find_tag_nil (t', rw (e, is_ended t' end.is_eof) refl, end.is_eof)
  next_symbol-Finds (suc f) t win (b ∷ []) ds de st a s h =
      let (t', e, at, same) = read_byte-At polite t win [] b ds de a in
      elim (Bool-cases (b == l_bracket)) [
        | inl y ↦
            let (t'', e', end, same') = read_byte-AtEnd polite t' (win ++ b ∷ []) ds de at in
            rw (find_tag_one b) (
              t'',
              rw (e, At-no_err t' (win ++ b ∷ []) [] ds de at, y, e', is_ended t'' end.is_eof) refl,
              end.is_eof,
            )
        | inr n ↦
            rw (e, At-no_err t' (win ++ b ∷ []) [] ds de at, n, find_tag_other b [] n)
              (Finds-behind win b ds de st (find_tag []) _
                (next_symbol-Finds f t' (win ++ b ∷ []) [] ds de st at (same ∙ s) (omega arith)))
      ]
  next_symbol-Finds (suc f) t win (b ∷ c ∷ rest) ds de st a s h =
      let (t', e, at, same) = read_byte-At polite t win (c ∷ rest) b ds de a in
      let (t'', e', at', same') = read_byte-At polite t' (win ++ b ∷ []) rest c ds de at in
      let first = At-no_err t' (win ++ b ∷ []) (c ∷ rest) ds de at in
      let second = At-no_err t'' ((win ++ b ∷ []) ++ c ∷ []) rest ds de at' in
      elim (Bool-cases (b == l_bracket)) [
        | inl y ↦ elim (Bool-cases (starts_token c)) [
          | inl starts ↦
              let bracket : b ≡ l_bracket = (==_iff b l_bracket).0 y in
              rw (e, first, y, e', second, starts, find_tag_start b c rest y starts)
                (
                  t'',
                  refl,
                  rw (append_assoc win (b ∷ []) (c ∷ []), bracket) at at',
                  same' ∙ same ∙ s,
                )
          | inr plain ↦
              rw (e, first, y, e', second, plain, find_tag_plain b c rest plain)
                (Finds-behind win b ds de st (find_tag (c ∷ rest)) _ (
                  next_symbol-Finds f
                    (record t'' { reader = record t''.reader { end = t''.reader.end - 1 } })
                    (win ++ b ∷ []) (c ∷ rest) ds de st
                    (unread-At t'' (win ++ b ∷ []) rest c ds de at') (same' ∙ same ∙ s)
                    (omega arith)))
        ]
        | inr n ↦
            rw (e, first, n, find_tag_other b (c ∷ rest) n)
              (Finds-behind win b ds de st (find_tag (c ∷ rest)) _ (
                next_symbol-Finds f t' (win ++ b ∷ []) (c ∷ rest) ds de st at (same ∙ s)
                  (omega arith)))
      ]
