-- ===== src/Tokenizer/Refines.antt =====
-- `Next` on any polite reader returns what `lex_next` says of the bytes to come.
use news_tracker.Prelude.{
  ℕ, suc, ◌+◌, ◌-◌, ◌≤◌, ◌<◌, true, ◌&&◌, ◌≡◌, refl, sym, ap, ◌∙◌, inl, inr, Option, some, none, [],
  ◌∷◌, ◌++◌, append_assoc, Bytes, length, length-append, ltb, ◌==◌, if◌then◌else◌, Bool-cases,
  Outcome, ◌>>=◌, arith,
}
use news_tracker.Token.Reader.{l_bracket, slash}
use news_tracker.Parse.{skip}
use news_tracker.Tokenizer.{
  IoReader, Tokenizer, ParserState, normal, script_content, skip_token, error_token, set_tt,
  is_comment, starts_token, next_symbol, text_of, close_of, open_in, token_of, next,
}
use news_tracker.Tokenizer.Window.{IsPolite, At}
use news_tracker.Tokenizer.Lex.{Found, behind, find_tag, lex_tag, lex_open_in, lex_found, lex_next}
use news_tracker.Tokenizer.Scans.{At-no_err, Finds, next_symbol-Finds}
use news_tracker.Tokenizer.Tokens.{
  Follows, relabel-At, text_of-Follows, comment_of-Follows, open_of-Follows, close_of-Follows,
}

-- What stands behind the start of a token.
abbrev pub Leaves : ℕ → Option Found → Type 0
Leaves n none = Unit {0}
Leaves n (some (front, c, after)) = length front + suc (suc (length after)) ≤ n

Leaves-behind : (n b : ℕ) (o : Option Found) → Leaves n o → Leaves (suc n) (behind b o)
Leaves-behind n b none l = tt
Leaves-behind n b (some (front, c, after)) l = omega arith

pub find_tag-Leaves : (s : Bytes) → Leaves (length s) (find_tag s)
unfolding find_tag
find_tag-Leaves [] = tt
find_tag-Leaves (b ∷ []) = tt
find_tag-Leaves (b ∷ c ∷ s) = elim (Bool-cases (b == l_bracket && starts_token c)) [
  | inl y ↦ rw y (omega arith)
  | inr n ↦ rw n (Leaves-behind (suc (length s)) b (find_tag (c ∷ s)) (find_tag-Leaves (c ∷ s)))
]

module _ {source : IoReader} (polite : IsPolite source) where
  -- A new token begins where the last one ended.
  begin-At :
      (t : Tokenizer source) (win rest : Bytes) (ds de : ℕ)
      → At polite t win rest ds de
      → At polite
          (record t {
            reader = record t.reader { start = t.reader.end };
            lexeme = record { start = t.reader.end; end = t.reader.end };
          })
          []
          rest
          0
          0
  begin-At t win rest ds de (front, ahead, left, l, h, e) = (
    front ++ win,
    ahead,
    left,
    record {
      no_err = l.no_err;
      buffer = l.buffer ∙ sym (append_assoc front win ahead);
      start_at = omega (arith, l.end_at, length-append front win);
      end_at = omega (arith, l.end_at, length-append front win);
      from = omega (arith, l.end_at, length-append front win);
      upto = omega (arith, l.end_at, length-append front win);
      fits = l.fits;
      has_room = l.has_room;
    },
    h,
    e,
  )

  -- The test on a text in front of the token.
  text_test :
      (t : Tokenizer source) (front after : Bytes) (c de : ℕ)
      → At polite t (front ++ l_bracket ∷ c ∷ []) after 0 de
      → ltb t.reader.start (t.reader.end - 2) ≡ ltb 0 (length front)
  text_test t front after c de (before, ahead, left, l, h, e) =
      ground (arith, l.start_at, l.end_at, length-append front (l_bracket ∷ c ∷ []))

  open_in-Follows :
      (fuel : ℕ) (t : Tokenizer source) (c : ℕ) (after : Bytes) (de : ℕ) (st : ParserState)
      → At polite t (l_bracket ∷ c ∷ []) after 0 de
      → t.state ≡ st
      → length after < fuel
      → Follows polite (lex_open_in st c after) (open_in source st fuel t)
  open_in-Follows fuel t c after de normal a s h =
      open_of-Follows polite fuel t c after de normal a s h
  open_in-Follows fuel t c after de script_content a s h = (
    set_tt source skip_token t,
    l_bracket ∷ c ∷ [],
    0,
    de,
    refl,
    relabel-At polite t _ after 0 de t.state skip_token a,
    s,
  )

  -- Behind the tests on a comment.
  tag-Follows :
      (fuel : ℕ) (t : Tokenizer source) (front : Bytes) (c : ℕ) (after : Bytes) (de : ℕ)
      (st : ParserState)
      → At polite t (front ++ l_bracket ∷ c ∷ []) after 0 de
      → t.state ≡ st
      → length after < fuel
      → Follows polite (lex_tag st front c after) (
          if ltb t.reader.start (t.reader.end - 2)
          then text_of source t
          else if c == slash
          then close_of source fuel t
          else open_in source t.state fuel t)
  tag-Follows fuel t (b ∷ front) c after de st a s h =
      let longer : ltb 0 (length (b ∷ front)) ≡ true = ground arith in
      rw (text_test t (b ∷ front) after c de a, longer)
        (text_of-Follows polite t (b ∷ front) c after de st a s)
  tag-Follows fuel t [] c after de st a s h =
      let state : open_in source t.state fuel t ≡ open_in source st fuel t =
        ap (λ x. open_in source x fuel t) s in
      rw (text_test t [] after c de a) (elim (Bool-cases (c == slash)) [
        | inl y ↦ rw y (close_of-Follows polite fuel t c after de st a s h)
        | inr n ↦ rw (n, state) (open_in-Follows fuel t c after de st a s h)
      ])

  found-Follows :
      (fuel : ℕ) (rest : Bytes) (st : ParserState) (o : Option Found)
      (r : Outcome (Option ℕ × Tokenizer source))
      → Finds polite [] 0 0 st o r
      → Leaves (length rest) o
      → length rest < fuel
      → Follows polite (lex_found st o) (r >>= λ x. token_of source fuel x.0 x.1)
  unfolding token_of
  found-Follows fuel rest st none r (t', e, err) l h =
      (skip, set_tt source error_token t', rw e refl, err)
  found-Follows fuel rest st (some (front, c, after)) r (t', e, at, same) l h =
      elim (Bool-cases (is_comment c)) [
        | inl y ↦
            rw (e, y) (comment_of-Follows polite fuel t' front c after 0 st at same (omega arith))
        | inr n ↦ rw (e, n) (tag-Follows fuel t' front c after 0 st at same (omega arith))
      ]

  -- On a polite reader, without an error so far, in front of the bytes `rest` and in the state
  -- `st`, with more fuel than bytes: `Next` returns the token that `lex_next` gives, in its state
  -- and in front of the bytes behind it; or it has met the end of the reader, where the bytes end
  -- first; or it panics, where `lex_next` does.
  pub next-Follows :
      (fuel : ℕ) (t : Tokenizer source) (win rest : Bytes) (ds de : ℕ) (st : ParserState)
      → At polite t win rest ds de
      → t.state ≡ st
      → length rest < fuel
      → Follows polite (lex_next st rest) (next source fuel t)
  unfolding next lex_next
  next-Follows fuel t win rest ds de st a s h =
      let t' : Tokenizer source = record t {
        reader = record t.reader { start = t.reader.end };
        lexeme = record { start = t.reader.end; end = t.reader.end };
      } in
      let at = begin-At t win rest ds de a in
      rw (At-no_err polite t' [] rest 0 0 at) (
        found-Follows fuel rest st (find_tag rest) (next_symbol source fuel t')
          (next_symbol-Finds polite fuel t' [] rest 0 0 st at s h) (find_tag-Leaves rest) h)
