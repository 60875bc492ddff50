-- ===== src/Tokenizer/Tokens.antt =====
-- Each kind of token has the bytes that `lex_next` gives it.
use news_tracker.Prelude.{
  ℕ, suc, ◌-◌, ◌<◌, ◌≡◌, refl, sym, ap, ◌∙◌, Option, some, none, [], ◌∷◌, ◌++◌, append_assoc,
  append-nil, Bytes, length, length-append, if◌then◌else◌, Outcome, ok, panic, timeout, ◌>>=◌,
  arith,
}
use news_tracker.Token.Reader.{l_bracket}
use news_tracker.Token.OpenTag
use news_tracker.Token.CloseTag
use news_tracker.Parse.{Token, open_tag, close_tag, text, comment, skip}
use news_tracker.Tokenizer.{
  eof, IoReader, Tokenizer, ParserState, normal, TokenType, text_token, open_tag_token,
  close_tag_token, error_token, set_tt, has_err, tag, tag_loop, bracket_loop,
  read_until_close_bracket, bytes_of, text_of, comment_of, open_of, close_of, state_after,
}
use news_tracker.Tokenizer.Window.{IsPolite, Layout, At, AtEnd, slice_of}
use news_tracker.Tokenizer.Lex.{Lexed, upto_bracket, lex_comment, lex_close, lex_open}
use news_tracker.Tokenizer.Scans.{At-no_err, is_ended}
use news_tracker.Tokenizer.Tags.{Takes, tag_loop-Takes, bracket_loop-Takes}

module _ {source : IoReader} (polite : IsPolite source) where
  -- `Next` returns the token and stands in front of the bytes behind it, or the reader has ended, or it
  -- panics, as the bytes to come have it.
  abbrev pub Follows : Lexed → Outcome (Token × Tokenizer source) → Type 0
  Follows (ok none) r =
      (tok : Token) × (t' : Tokenizer source) × (r ≡ ok (tok, t')) × (t'.err ≡ some eof)
  Follows (ok (some (tok, st, rest))) r =
      (t' : Tokenizer source) × (win : Bytes) × (ds : ℕ) × (de : ℕ) × (r ≡ ok (tok, t'))
      × At polite t' win rest ds de
      × (t'.state ≡ st)
  Follows panic r = r ≡ panic
  Follows timeout r = r ≡ timeout

  bytes_of-At :
      (t : Tokenizer source) (front win rest : Bytes)
      → At polite t (front ++ win) rest (length front) (length (front ++ win))
      → bytes_of source t ≡ ok win
  unfolding bytes_of
  bytes_of-At t front win rest (before, ahead, left, l, h, e) =
      slice_of t.buf (before ++ front) win ahead t.lexeme.start t.lexeme.end (l.buffer ∙ regroup)
        (omega (arith, l.from, length-append before front))
        (omega (arith, l.upto, length-append before front, length-append front win))
    where
      regroup : before ++ ((front ++ win) ++ ahead) ≡ (before ++ front) ++ (win ++ ahead)
      regroup = simp append_assoc

  bytes_of-AtEnd :
      (t : Tokenizer source) (front win : Bytes)
      → AtEnd t (front ++ win) (length front) (length (front ++ win))
      → bytes_of source t ≡ ok win
  unfolding bytes_of
  bytes_of-AtEnd t front win a =
      slice_of t.buf front win [] t.lexeme.start t.lexeme.end
        (a.buffer ∙ ap (◌++◌ front) (sym (append-nil win))) a.from
        (a.upto ∙ length-append front win)

  -- The first two bytes of a tag are all that is sliced where the reader ends in it.
  bytes_of-cut :
      (t : Tokenizer source) (b c : ℕ) (rest : Bytes)
      → AtEnd t (b ∷ c ∷ rest) 0 2
      → bytes_of source t ≡ ok (b ∷ c ∷ [])
  unfolding bytes_of
  bytes_of-cut t b c rest a =
      slice_of t.buf [] (b ∷ c ∷ []) rest t.lexeme.start t.lexeme.end a.buffer a.from a.upto

  -- The symbol and the '<' in front of it are put back, and the lexeme ends there.
  back_two :
      (t : Tokenizer source) (front win ahead : Bytes) (c de : ℕ)
      → Layout t front (win ++ l_bracket ∷ c ∷ []) ahead 0 de
      → Layout
          (record t {
            reader = record t.reader { end = t.reader.end - 2 };
            lexeme = record t.lexeme { end = t.reader.end - 2 };
            tt = text_token;
          })
          front
          win
          (l_bracket ∷ c ∷ ahead)
          0
          (length win)
  back_two t front win ahead c de l = record {
    no_err = l.no_err;
    buffer = l.buffer ∙ ap (◌++◌ front) (append_assoc win (l_bracket ∷ c ∷ []) ahead);
    start_at = l.start_at;
    end_at = omega (arith, l.end_at, length-append win (l_bracket ∷ c ∷ []));
    from = l.from;
    upto = omega (arith, l.end_at, length-append win (l_bracket ∷ c ∷ []));
    fits = l.fits;
    has_room = l.has_room;
  }

  pub text_of-Follows :
      (t : Tokenizer source) (win : Bytes) (c : ℕ) (after : Bytes) (de : ℕ) (st : ParserState)
      → At polite t (win ++ l_bracket ∷ c ∷ []) after 0 de
      → t.state ≡ st
      → Follows (ok (some (text win, st, l_bracket ∷ c ∷ after))) (text_of source t)
  unfolding text_of
  text_of-Follows t win c after de st (front, ahead, left, l, h, e) s =
      let t' : Tokenizer source = record t {
        reader = record t.reader { end = t.reader.end - 2 };
        lexeme = record t.lexeme { end = t.reader.end - 2 };
        tt = text_token;
      } in
      let at : At polite t' win (l_bracket ∷ c ∷ after) 0 (length win) = (
        front,
        l_bracket ∷ c ∷ ahead,
        left,
        back_two t front win ahead c de l,
        h,
        ap (λ r. l_bracket ∷ c ∷ r) e,
      ) in
      (t', win, 0, length win, rw (bytes_of-At t' [] win (l_bracket ∷ c ∷ after) at) refl, at, s)

  -- A comment begins at the '<' that is put back.
  back_comment :
      (t : Tokenizer source) (win after : Bytes) (c de : ℕ)
      → At polite t (win ++ l_bracket ∷ c ∷ []) after 0 de
      → At polite
          (record t {
            reader = record t.reader { end = t.reader.end - 2 };
            lexeme = record t.lexeme { start = t.reader.end - 2 };
          })
          win
          (l_bracket ∷ c ∷ after)
          (length win)
          de
  back_comment t win after c de (front, ahead, left, l, h, e) = (
    front,
    l_bracket ∷ c ∷ ahead,
    left,
    record {
      no_err = l.no_err;
      buffer = l.buffer ∙ ap (◌++◌ front) (append_assoc win (l_bracket ∷ c ∷ []) ahead);
      start_at = l.start_at;
      end_at = omega (arith, l.end_at, length-append win (l_bracket ∷ c ∷ []));
      from = omega (arith, l.end_at, length-append win (l_bracket ∷ c ∷ []));
      upto = l.upto;
      fits = l.fits;
      has_room = l.has_room;
    },
    h,
    ap (λ r. l_bracket ∷ c ∷ r) e,
  )

  comment_taken :
      (win rest : Bytes) (stop : ℕ) (st : ParserState) (o : Option (Bytes × Bytes))
      (r : Outcome (Tokenizer source))
      → stop ≡ length (win ++ rest)
      → Takes polite win (length win) stop st rest o r
      → Follows (lex_comment st o) (r >>= λ t. bytes_of source t >>= λ bytes. ok (comment bytes, t))
  comment_taken win rest stop st none r z (t', e, end, same) =
      (comment rest, t', rw (e, bytes_of-AtEnd t' win rest (rw z at end)) refl, end.is_eof)
  comment_taken win rest stop st (some (inside, later)) r z (t', e, at, same) = (
    t',
    win ++ inside,
    length win,
    length (win ++ inside),
    rw (e, bytes_of-At t' win inside later at) refl,
    at,
    same,
  )

  pub comment_of-Follows :
      (fuel : ℕ) (t : Tokenizer source) (win : Bytes) (c : ℕ) (after : Bytes) (de : ℕ)
      (st : ParserState)
      → At polite t (win ++ l_bracket ∷ c ∷ []) after 0 de
      → t.state ≡ st
      → suc (suc (length after)) < fuel
      → Follows (lex_comment st (upto_bracket (l_bracket ∷ c ∷ after))) (comment_of source fuel t)
  unfolding comment_of read_until_close_bracket
  comment_of-Follows fuel t win c after de st a s h =
      let t' : Tokenizer source = record t {
        reader = record t.reader { end = t.reader.end - 2 };
        lexeme = record t.lexeme { start = t.reader.end - 2 };
      } in
      let rest : Bytes = l_bracket ∷ c ∷ after in
      let stop = length (win ++ rest) in
      comment_taken win rest stop st (upto_bracket rest) (bracket_loop source fuel t') refl (
        bracket_loop-Takes polite fuel t' win rest (length win) de stop st
          (back_comment t win after c de a) s h (length-append win rest))

  -- The lexeme of a tag begins at its '<'.
  begin_tag :
      (t : Tokenizer source) (c : ℕ) (after : Bytes) (de : ℕ)
      → At polite t (l_bracket ∷ c ∷ []) after 0 de
      → At polite
          (record t { lexeme = record { start = t.reader.end - 2; end = t.reader.end } })
          (l_bracket ∷ c ∷ [])
          after
          0
          2
  begin_tag t c after de (front, ahead, left, l, h, e) = (
    front,
    ahead,
    left,
    record {
      no_err = l.no_err;
      buffer = l.buffer;
      start_at = l.start_at;
      end_at = l.end_at;
      from = omega (arith, l.end_at);
      upto = l.end_at;
      fits = l.fits;
      has_room = l.has_room;
    },
    h,
    e,
  )

  -- The state of the parser and the kind of the token are no matter of the window.
  pub relabel-At :
      (t : Tokenizer source) (win rest : Bytes) (ds de : ℕ) (st : ParserState) (kind : TokenType)
      → At polite t win rest ds de
      → At polite (record t { state = st; tt = kind }) win rest ds de
  relabel-At t win rest ds de st kind (front, ahead, left, l, h, e) = (
    front,
    ahead,
    left,
    record {
      no_err = l.no_err;
      buffer = l.buffer;
      start_at = l.start_at;
      end_at = l.end_at;
      from = l.from;
      upto = l.upto;
      fits = l.fits;
      has_room = l.has_room;
    },
    h,
    e,
  )

  open_read :
      (t : Tokenizer source) (st : ParserState) (c : ℕ) (inside later : Bytes)
      (u : Outcome (OpenTag.OpenTag × Option OpenTag.Error))
      → At polite t (l_bracket ∷ c ∷ inside) later 0 (length (l_bracket ∷ c ∷ inside))
      → t.state ≡ st
      → Follows (u >>= λ p. ok (some (open_tag p.0, state_after p.0 st, later))) (
          u >>= λ p.
          ok (open_tag p.0, record t { state = state_after p.0 t.state; tt = open_tag_token }))
  open_read t st c inside later (ok p) at s = (
    _,
    l_bracket ∷ c ∷ inside,
    0,
    length (l_bracket ∷ c ∷ inside),
    refl,
    relabel-At t _ later 0 _ (state_after p.0 t.state) open_tag_token at,
    ap (state_after p.0) s,
  )
  open_read t st c inside later panic at s = refl
  open_read t st c inside later timeout at s = refl

  open_cut :
      (t : Tokenizer source) (u : Outcome (OpenTag.OpenTag × Option OpenTag.Error))
      → t.err ≡ some eof
      → Follows (u >>= λ p. ok none) (
          u >>= λ p.
          ok (open_tag p.0, record t { state = state_after p.0 t.state; tt = open_tag_token }))
  open_cut t (ok p) e = (open_tag p.0, _, refl, e)
  open_cut t panic e = refl
  open_cut t timeout e = refl

  open_taken :
      (c : ℕ) (after : Bytes) (st : ParserState) (o : Option (Bytes × Bytes))
      (r : Outcome (Tokenizer source))
      → Takes polite (l_bracket ∷ c ∷ []) 0 2 st after o r
      → Follows (lex_open st c o) (
          r >>= λ t. bytes_of source t >>= λ bytes. OpenTag.unmarshal bytes >>= λ p.
          ok (open_tag p.0, record t { state = state_after p.0 t.state; tt = open_tag_token }))
  open_taken c after st none r (t', e, end, same) =
      rw (e, bytes_of-cut t' l_bracket c after end)
        (open_cut t' (OpenTag.unmarshal (l_bracket ∷ c ∷ [])) end.is_eof)
  open_taken c after st (some (inside, later)) r (t', e, at, same) =
      rw (e, bytes_of-At t' [] (l_bracket ∷ c ∷ inside) later at)
        (open_read t' st c inside later (OpenTag.unmarshal (l_bracket ∷ c ∷ inside)) at same)

  close_read :
      (t : Tokenizer source) (c : ℕ) (inside later : Bytes)
      (u : Outcome (CloseTag.CloseTag × Option CloseTag.Error))
      → At polite t (l_bracket ∷ c ∷ inside) later 0 (length (l_bracket ∷ c ∷ inside))
      → Follows
          (u >>= λ p. ok (some (close_tag p.0, normal, later)))
          (u >>= λ p. ok (close_tag p.0, record t { state = normal; tt = close_tag_token }))
  close_read t c inside later (ok p) at = (
    _,
    l_bracket ∷ c ∷ inside,
    0,
    length (l_bracket ∷ c ∷ inside),
    refl,
    relabel-At t _ later 0 _ normal close_tag_token at,
    refl,
  )
  close_read t c inside later panic at = refl
  close_read t c inside later timeout at = refl

  -- `close_of` behind the call of `tag`.
  abbrev close_rest : Tokenizer source → Outcome (Token × Tokenizer source)
  close_rest t =
      if has_err source t
      then ok (skip, set_tt source error_token t)
      else (bytes_of source t >>= λ bytes. CloseTag.unmarshal bytes >>= λ p.
          ok (close_tag p.0, record t { state = normal; tt = close_tag_token }))

  close_taken :
      (c : ℕ) (after : Bytes) (st : ParserState) (o : Option (Bytes × Bytes))
      (r : Outcome (Tokenizer source))
      → Takes polite (l_bracket ∷ c ∷ []) 0 2 st after o r
      → Follows (lex_close c o) (r >>= close_rest)
  close_taken c after st none r (t', e, end, same) =
      (skip, set_tt source error_token t', rw (e, is_ended polite t' end.is_eof) refl, end.is_eof)
  close_taken c after st (some (inside, later)) r (t', e, at, same) =
      rw
        (
          e,
          At-no_err polite t' (l_bracket ∷ c ∷ inside) later 0 (length (l_bracket ∷ c ∷ inside)) at,
          bytes_of-At t' [] (l_bracket ∷ c ∷ inside) later at,
        )
        (close_read t' c inside later (CloseTag.unmarshal (l_bracket ∷ c ∷ inside)) at)

  pub open_of-Follows :
      (fuel : ℕ) (t : Tokenizer source) (c : ℕ) (after : Bytes) (de : ℕ) (st : ParserState)
      → At polite t (l_bracket ∷ c ∷ []) after 0 de
      → t.state ≡ st
      → length after < fuel
      → Follows (lex_open st c (upto_bracket after)) (open_of source fuel t)
  unfolding open_of tag
  open_of-Follows fuel t c after de st a s h =
      let t' : Tokenizer source = record t {
        lexeme = record { start = t.reader.end - 2; end = t.reader.end };
      } in
      open_taken c after st (upto_bracket after) (tag_loop source fuel t') (
        tag_loop-Takes polite fuel t' (l_bracket ∷ c ∷ []) after 0 2 st (begin_tag t c after de a) s
          h)

  pub close_of-Follows :
      (fuel : ℕ) (t : Tokenizer source) (c : ℕ) (after : Bytes) (de : ℕ) (st : ParserState)
      → At polite t (l_bracket ∷ c ∷ []) after 0 de
      → t.state ≡ st
      → length after < fuel
      → Follows (lex_close c (upto_bracket after)) (close_of source fuel t)
  unfolding close_of tag
  close_of-Follows fuel t c after de st a s h =
      let t' : Tokenizer source = record t {
        lexeme = record { start = t.reader.end - 2; end = t.reader.end };
      } in
      close_taken c after st (upto_bracket after) (tag_loop source fuel t') (
        tag_loop-Takes polite fuel t' (l_bracket ∷ c ∷ []) after 0 2 st (begin_tag t c after de a) s
          h)
