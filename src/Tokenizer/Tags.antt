-- ===== src/Tokenizer/Tags.antt =====
-- The loops of `tag` and `readUntilCloseBracket` stop where `upto_bracket` stops.
use news_tracker.Prelude.{
  ℕ, zero, suc, ◌+◌, ◌<◌, true, false, ◌≡◌, refl, ◌∙◌, inl, inr, Option, some, none, [], ◌∷◌, ◌++◌,
  append_assoc, append-nil, Bytes, length, length-append, ◌==◌, Bool-cases, Outcome, ok, arith,
}
use news_tracker.Token.Reader.{r_bracket}
use news_tracker.Tokenizer.{IoReader, Tokenizer, ParserState, tag_loop, bracket_loop}
use news_tracker.Tokenizer.Window.{IsPolite, At, AtEnd}
use news_tracker.Tokenizer.Reads.{read_byte-At, read_byte-AtEnd}
use news_tracker.Tokenizer.Lex.{in_front, upto_bracket}
use news_tracker.Tokenizer.Scans.{At-no_err, is_ended}

upto_bracket_other :
    (b : ℕ) (s : Bytes)
    → (b == r_bracket) ≡ false
    → upto_bracket (b ∷ s) ≡ in_front b (upto_bracket s)
unfolding upto_bracket
upto_bracket_other b s h = rw h refl

upto_bracket_end :
    (b : ℕ) (s : Bytes) → (b == r_bracket) ≡ true → upto_bracket (b ∷ s) ≡ some (b ∷ [], s)
unfolding upto_bracket
upto_bracket_end b s h = rw h refl

upto_bracket_nil : upto_bracket [] ≡ none
unfolding upto_bracket
upto_bracket_nil = refl

module _ {source : IoReader} (polite : IsPolite source) where
  -- The bytes up to the bracket are in the window and end the lexeme, or the reader has ended and the
  -- lexeme ends at `stop`.
  abbrev pub Takes :
      Bytes
      → ℕ
      → ℕ
      → ParserState
      → Bytes
      → Option (Bytes × Bytes)
      → Outcome (Tokenizer source)
      → Type 0
  Takes win ds stop st rest none r =
      (t' : Tokenizer source) × (r ≡ ok t') × AtEnd t' (win ++ rest) ds stop × (t'.state ≡ st)
  Takes win ds stop st rest (some (inside, later)) r =
      (t' : Tokenizer source) × (r ≡ ok t')
      × At polite t' (win ++ inside) later ds (length (win ++ inside))
      × (t'.state ≡ st)

  Takes-in_front :
      (win : Bytes) (b ds stop : ℕ) (st : ParserState) (rest : Bytes) (o : Option (Bytes × Bytes))
      (r : Outcome (Tokenizer source))
      → Takes (win ++ b ∷ []) ds stop st rest o r
      → Takes win ds stop st (b ∷ rest) (in_front b o) r
  Takes-in_front win b ds stop st rest none r (t', e, end, same) =
      (t', e, rw (append_assoc win (b ∷ []) rest) at end, same)
  Takes-in_front win b ds stop st rest (some (inside, later)) r (t', e, at, same) =
      (t', e, rw (append_assoc win (b ∷ []) inside) at at, same)

  -- The lexeme is ended behind the window.
  end_lexeme-At :
      (t : Tokenizer source) (win rest : Bytes) (ds de : ℕ)
      → At polite t win rest ds de
      → At polite
          (record t { lexeme = record t.lexeme { end = t.reader.end } })
          win
          rest
          ds
          (length win)
  end_lexeme-At t win rest ds de (front, ahead, left, l, h, e) = (
    front,
    ahead,
    left,
    record {
      no_err = l.no_err;
      buffer = l.buffer;
      start_at = l.start_at;
      end_at = l.end_at;
      from = l.from;
      upto = l.end_at;
      fits = l.fits;
      has_room = l.has_room;
    },
    h,
    e,
  )

  end_lexeme-AtEnd :
      (t : Tokenizer source) (win : Bytes) (ds de : ℕ)
      → AtEnd t win ds de
      → AtEnd (record t { lexeme = record t.lexeme { end = t.reader.end } }) win ds (length win)
  end_lexeme-AtEnd t win ds de a = record {
    is_eof = a.is_eof;
    buffer = a.buffer;
    start_at = a.start_at;
    end_at = a.end_at;
    from = a.from;
    upto = a.end_at;
  }

  pub tag_loop-Takes :
      (f : ℕ) (t : Tokenizer source) (win rest : Bytes) (ds de : ℕ) (st : ParserState)
      → At polite t win rest ds de
      → t.state ≡ st
      → length rest < f
      → Takes win ds de st rest (upto_bracket rest) (tag_loop source f t)
  unfolding tag_loop
  tag_loop-Takes zero t win rest ds de st a s h = absurd (omega arith)
  tag_loop-Takes (suc f) t win [] ds de st a s h =
      let (t', e, end, same) = read_byte-AtEnd polite t win ds de a in
      rw (upto_bracket_nil, append-nil win, e, is_ended polite t' end.is_eof)
        (t', refl, end, same ∙ s)
  tag_loop-Takes (suc f) t win (b ∷ rest) ds de st a s h =
      let (t', e, at, same) = read_byte-At polite t win rest b ds de a in
      let live = At-no_err polite t' (win ++ b ∷ []) rest ds de at in
      elim (Bool-cases (b == r_bracket)) [
        | inl y ↦
            rw (upto_bracket_end b rest y, e, live, y)
              (
                record t' { lexeme = record t'.lexeme { end = t'.reader.end } },
                refl,
                end_lexeme-At t' (win ++ b ∷ []) rest ds de at,
                same ∙ s,
              )
        | inr n ↦
            rw (upto_bracket_other b rest n, e, live, n)
              (Takes-in_front win b ds de st rest (upto_bracket rest) _
                (tag_loop-Takes f t' (win ++ b ∷ []) rest ds de st at (same ∙ s) (omega arith)))
      ]

  pub bracket_loop-Takes :
      (f : ℕ) (t : Tokenizer source) (win rest : Bytes) (ds de stop : ℕ) (st : ParserState)
      → At polite t win rest ds de
      → t.state ≡ st
      → length rest < f
      → stop ≡ length win + length rest
      → Takes win ds stop st rest (upto_bracket rest) (bracket_loop source f t)
  unfolding bracket_loop
  bracket_loop-Takes zero t win rest ds de stop st a s h z = absurd (omega arith)
  bracket_loop-Takes (suc f) t win [] ds de stop st a s h z =
      let (t', e, end, same) = read_byte-AtEnd polite t win ds de a in
      let whole : stop ≡ length win = omega (arith, z) in
      rw (upto_bracket_nil, append-nil win, e, is_ended polite t' end.is_eof, whole)
        (
          record t' { lexeme = record t'.lexeme { end = t'.reader.end } },
          refl,
          end_lexeme-AtEnd t' win ds de end,
          same ∙ s,
        )
  bracket_loop-Takes (suc f) t win (b ∷ rest) ds de stop st a s h z =
      let (t', e, at, same) = read_byte-At polite t win rest b ds de a in
      let live = At-no_err polite t' (win ++ b ∷ []) rest ds de at in
      elim (Bool-cases (b == r_bracket)) [
        | inl y ↦
            rw (upto_bracket_end b rest y, e, live, y)
              (
                record t' { lexeme = record t'.lexeme { end = t'.reader.end } },
                refl,
                end_lexeme-At t' (win ++ b ∷ []) rest ds de at,
                same ∙ s,
              )
        | inr n ↦
            rw (upto_bracket_other b rest n, e, live, n)
              (Takes-in_front win b ds stop st rest (upto_bracket rest) _ (
                bracket_loop-Takes f t' (win ++ b ∷ []) rest ds de stop st at (same ∙ s)
                  (omega arith) (omega (arith, z, length-append win (b ∷ [])))))
      ]
