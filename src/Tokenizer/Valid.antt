-- ===== src/Tokenizer/Valid.antt =====
-- What holds of the buffer and its cursors whatever the reader does within its contract.
use news_tracker.Prelude.{
  ℕ, suc, ◌+◌, ◌-◌, ◌*◌, ◌≤◌, ◌<◌, true, false, ◌≡◌, ◌⊎◌, refl, sym, ap, ◌∙◌, inl, inr, some, [],
  ◌∷◌, ◌++◌, Bytes, length, length-append, get_elem?, get_elem?-none, take, drop, drop-length,
  take-length, ltb, leb, ltb→lt, leb→le, Bool-cases, Option-cases, ok, Returns, Returns-bind,
  Returns-if, Returns-weaken, length-slice, drop-some, take-some, get_elem?-drop, drop-all, arith,
}
use news_tracker.Token.Reader.{slice}
use news_tracker.Tokenizer.{
  IoReader, Tokenizer, has_err, grown, get_buffer, move_window, add_bytes, read_more, take_byte,
  read_byte,
}

pub length-slice_of :
    (xs : Bytes) (lo hi : ℕ)
    → lo ≤ hi
    → hi ≤ length xs
    → Returns (λ ys. length ys ≡ hi - lo) (slice xs lo hi)
unfolding slice
length-slice_of xs lo hi h k =
    let inside : leb lo hi ≡ true = ground arith in
    let fits : leb hi (length xs) ≡ true = ground arith in
    rw (inside, fits) (length-slice xs lo (hi - lo) (omega arith))

slice_lem :
    (xs : Bytes) (lo hi : ℕ)
    → lo ≤ hi
    → hi ≤ length xs
    → slice xs lo hi ≡ ok (take (hi - lo) (drop lo xs))
unfolding slice
slice_lem xs lo hi h k =
    let inside : leb lo hi ≡ true = ground arith in
    let fits : leb hi (length xs) ≡ true = ground arith in rw (inside, fits) refl

module _ {source : IoReader} where
  -- The cursors are in the buffer, and the lexeme in what was read since the last token.
  pub record IsValid (t : Tokenizer source) : Type 0 where
    pub starts : t.reader.start ≤ t.reader.end
    pub in_buf : t.reader.end ≤ length t.buf
    pub fits : length t.buf ≤ t.capacity
    pub has_room : 0 < t.capacity
    pub from_low : t.reader.start ≤ t.lexeme.start
    pub from_high : t.lexeme.start ≤ t.reader.end
    pub upto_low : t.reader.start ≤ t.lexeme.end
    pub upto_high : t.lexeme.end ≤ t.reader.end

  -- What has been read since the last token.
  abbrev pub window_size : Tokenizer source → ℕ
  window_size t = t.reader.end - t.reader.start

  -- A byte was taken, or there was none and the symbol is 0.
  abbrev pub Moves : ℕ → ℕ → Tokenizer source → Type 0
  Moves n b t = (window_size t ≡ n + 1) ⊎ ((window_size t ≡ n) × (b ≡ 0))

  -- The capacity stays, or it doubles for a window of more than half of it.
  abbrev pub Grows : Tokenizer source → Tokenizer source → Type 0
  Grows t t' =
      (t'.capacity ≡ t.capacity)
      ⊎ ((t'.capacity ≡ 2 * t.capacity) × (t'.capacity < 4 * window_size t))

  -- The lexeme stays where it is in the window.
  abbrev pub SameLexeme : Tokenizer source → Tokenizer source → Type 0
  SameLexeme t t' =
      (t'.lexeme.start + t.reader.start ≡ t.lexeme.start + t'.reader.start)
      × (t'.lexeme.end + t.reader.start ≡ t.lexeme.end + t'.reader.start)

  -- The bytes that were read since the last token, and those in the buffer behind them.
  abbrev pub window : Tokenizer source → Bytes
  window t = take (t.reader.end - t.reader.start) (drop t.reader.start t.buf)

  abbrev pub ahead : Tokenizer source → Bytes
  ahead t = drop t.reader.end t.buf

  -- With nothing left in the buffer and no error so far, `Read` was called once with some room, gave
  -- `bytes`, and its error was kept.
  abbrev pub Fetches : Tokenizer source → Tokenizer source → Bytes → Type 0
  Fetches t t' bytes =
      (ahead t ≡ [])
      × (has_err source t ≡ false)
      × (n : ℕ) × (0 < n)
      × (source.read n t.state_of_source ≡ (bytes, t'.err, t'.state_of_source))

  -- The reader was not called.
  abbrev pub Rests : Tokenizer source → Tokenizer source → Type 0
  Rests t t' = (t'.err ≡ t.err) × (t'.state_of_source ≡ t.state_of_source)

  -- The symbol is the next byte, of the buffer or of what `Read` gave, and moves to the end of the window;
  -- or there is none, and the symbol is 0 and the window as it was.
  abbrev pub Supplies : Tokenizer source → ℕ → Tokenizer source → Type 0
  Supplies t b t' =
      ((window t' ≡ window t ++ b ∷ [])
        × ((Rests t t' × (ahead t ≡ b ∷ ahead t')) ⊎ Fetches t t' (b ∷ ahead t')))
      ⊎ ((window t' ≡ window t)
          × (b ≡ 0)
          × (ahead t' ≡ [])
          × ((Rests t t' × (has_err source t ≡ true)) ⊎ Fetches t t' []))

  abbrev pub Reads : Tokenizer source → ℕ × Tokenizer source → Type 0
  Reads t (b, t') =
      IsValid t' × Moves (window_size t) b t' × Grows t t' × SameLexeme t t' × Supplies t b t'

  abbrev Takes : Tokenizer source → ℕ × Tokenizer source → Type 0
  Takes t (b, t') =
      IsValid t'
      × (window_size t' ≡ window_size t + 1)
      × (t'.capacity ≡ t.capacity)
      × SameLexeme t t'
      × Rests t t'
      × (window t' ≡ window t ++ b ∷ [])
      × (ahead t ≡ b ∷ ahead t')

  -- The byte behind the window.
  byte_at :
      (t : Tokenizer source) (b : ℕ)
      → IsValid t
      → get_elem? t.buf t.reader.end ≡ some b
      → (take (t.reader.end + 1 - t.reader.start) (drop t.reader.start t.buf) ≡ window t ++ b ∷ [])
        × (ahead t ≡ b ∷ drop (t.reader.end + 1) t.buf)
  byte_at t b v e =
      let n = t.reader.end - t.reader.start in
      let more : t.reader.end + 1 - t.reader.start ≡ suc n = omega (arith, v.starts) in
      let place : t.reader.start + n ≡ t.reader.end = omega (arith, v.starts) in
      let add_one : t.reader.end + 1 ≡ suc t.reader.end = omega arith in
      let found : get_elem? (drop t.reader.start t.buf) n ≡ some b =
        get_elem?-drop t.buf t.reader.start n ∙ ap (get_elem? t.buf) place ∙ e in
      (
        rw more (take-some (drop t.reader.start t.buf) n b found),
        rw add_one (drop-some t.buf t.reader.end b e),
      )

  take_byte-Reads :
      (t : Tokenizer source)
      → IsValid t
      → t.reader.end < length t.buf
      → Returns (Takes t) (take_byte source t)
  unfolding take_byte
  take_byte-Reads t v h = elim (Option-cases (get_elem? t.buf t.reader.end)) [
    | inl e ↦ absurd (omega (arith, get_elem?-none t.buf t.reader.end e))
    | inr (b, e) ↦
        rw (take_byte, e)
          (
            record {
              starts = omega (arith, v.starts);
              in_buf = omega arith;
              fits = v.fits;
              has_room = v.has_room;
              from_low = v.from_low;
              from_high = omega (arith, v.from_high);
              upto_low = v.upto_low;
              upto_high = omega (arith, v.upto_high);
            },
            omega (arith, v.starts),
            refl,
            (refl, refl),
            (refl, refl),
            (byte_at t b v e).0,
            (byte_at t b v e).1,
          )
  ]

  -- The new buffer holds the window and has room behind it.
  grown-room :
      (t : Tokenizer source)
      → IsValid t
      → length t.buf ≤ t.reader.end
      → window_size t < grown t.capacity (window_size t)
  grown-room t v h = ground (arith, v.starts, v.in_buf, v.fits, v.has_room)

  grown-Grows :
      (t t' : Tokenizer source) → t'.capacity ≡ grown t.capacity (window_size t) → Grows t t'
  grown-Grows t t' e = elim (Bool-cases (ltb t.capacity (2 * window_size t))) [
    | inl y ↦ inr (rw y at e, omega (arith, rw y at e, ltb→lt t.capacity (2 * window_size t) y))
    | inr n ↦ inl (rw n at e)
  ]

  -- The window is moved, and what `Read` gave stands behind it.
  read_more-IsValid :
      (t : Tokenizer source)
      → IsValid t
      → length t.buf ≤ t.reader.end
      → has_err source t ≡ false
      → Returns
          (λ t'.
            IsValid t'
            × (window_size t' ≡ window_size t)
            × Grows t t'
            × SameLexeme t t'
            × (window t' ≡ window t)
            × Fetches t t' (ahead t'))
          (read_more source t)
  unfolding read_more get_buffer
  read_more-IsValid t v h noerr =
      let w = window t in
      let c' = grown t.capacity (window_size t) in
      let e : length w ≡ window_size t =
        length-slice t.buf t.reader.start (window_size t) (omega (arith, v.starts, v.in_buf)) in
      let r = source.read (c' - length w) t.state_of_source in
      let l = source.read_within (c' - length w) t.state_of_source in
      let room = grown-room t v h in
      let e' : length w ≡ window_size t - 0 = omega (arith, e) in
      let kept : take (window_size t - 0) (w ++ r.0) ≡ w =
        ap (λ n. take n (w ++ r.0)) (sym e') ∙ take-length w r.0 in
      let rest : drop (window_size t) (w ++ r.0) ≡ r.0 =
        ap (λ n. drop n (w ++ r.0)) (sym e) ∙ drop-length w r.0 in
      rw (slice_lem t.buf t.reader.start t.reader.end v.starts v.in_buf) (
        record {
          starts = omega arith;
          in_buf = omega (arith, length-append w r.0, e);
          fits = omega (arith, length-append w r.0, e, l, room);
          has_room = omega (arith, room);
          from_low = omega arith;
          from_high = omega (arith, v.from_high, v.starts);
          upto_low = omega arith;
          upto_high = omega (arith, v.upto_high, v.starts);
        },
        omega arith,
        grown-Grows t (add_bytes source r (move_window source w c' t)) refl,
        (omega (arith, v.from_low), omega (arith, v.upto_low)),
        kept,
        (drop-all t.buf t.reader.end h, noerr, c' - length w, omega (arith, e, room), rw rest refl),
      )

  Grows-through :
      (t t' t'' : Tokenizer source)
      → window_size t' ≡ window_size t
      → Grows t t'
      → t''.capacity ≡ t'.capacity
      → window_size t'' ≡ window_size t' + 1
      → Grows t t''
  Grows-through t t' t'' w (inl g) c w' = inl (c ∙ g)
  Grows-through t t' t'' w (inr (g, m)) c w' = inr (c ∙ g, omega (arith, m))

  take_direct :
      (t : Tokenizer source) (b : ℕ) (t' : Tokenizer source) → Takes t (b, t') → Reads t (b, t')
  take_direct t b t' (v, w, c, l, rests, added, front) =
      (v, inl w, inl c, l, inl (added, inl (rests, front)))

  -- A byte is taken from what was just read.
  take_fetched :
      (t t' : Tokenizer source) (b : ℕ) (t'' : Tokenizer source)
      → window_size t' ≡ window_size t
      → Grows t t'
      → SameLexeme t t'
      → window t' ≡ window t
      → Fetches t t' (ahead t')
      → Takes t' (b, t'')
      → Reads t (b, t'')
  take_fetched t t' b t'' w g l same (none_left, noerr, n, pos_n, gave)
        (v, w', c, l', rests, added, front) =
      (
        v,
        inl (omega arith),
        Grows-through t t' t'' w g c w',
        (omega (arith, l.0, l'.0), omega (arith, l.1, l'.1)),
        inl (
          added ∙ ap (λ x. x ++ b ∷ []) same,
          inr (none_left, noerr, n, pos_n, gave ∙ rw (front, rests.0, rests.1) refl),
        ),
      )

  nothing_fetched :
      (t t' : Tokenizer source)
      → IsValid t'
      → window_size t' ≡ window_size t
      → Grows t t'
      → SameLexeme t t'
      → window t' ≡ window t
      → Fetches t t' (ahead t')
      → length t'.buf ≤ t'.reader.end
      → Reads t (0, t')
  nothing_fetched t t' v w g l same (none_left, noerr, n, pos_n, gave) short =
      let empty : ahead t' ≡ [] = drop-all t'.buf t'.reader.end short in
      let gave_none : source.read n t.state_of_source ≡ ([], t'.err, t'.state_of_source) =
        gave ∙ rw empty refl in
      (v, inr (w, refl), g, l, inr (same, refl, empty, inr (none_left, noerr, n, pos_n, gave_none)))

  -- On any reader within its contract, and with the buffer and its cursors in order, `readByte`
  -- ends without a panic and keeps them in order. The symbol is the next byte behind the window,
  -- and it moves to the window's end: the next byte of the buffer, with the reader not called, or
  -- with nothing left there and no error kept the first byte that one `Read` into some room gave,
  -- with the others behind it in the buffer and the error of that `Read` kept. Or the symbol is 0
  -- and the window's bytes are as they were: nothing is left in the buffer, and an error was kept
  -- already or `Read` gave no byte. The lexeme stays where it is in the window, and the capacity
  -- stays as it was, or it doubles and is less than four times the window.
  pub read_byte-Reads : (t : Tokenizer source) → IsValid t → Returns (Reads t) (read_byte source t)
  unfolding read_byte
  read_byte-Reads t v =
      Returns-if (leb (length t.buf) t.reader.end) _ _ _
        (λ y.
          Returns-if (has_err source t) _ _ _
            (λ e. (
              v,
              inr (refl, refl),
              inl refl,
              (refl, refl),
              inr (refl, refl, drop-all t.buf t.reader.end (leb→le _ _ y), inl ((refl, refl), e)),
            ))
            (λ e.
              Returns-bind (read_more source t) _ _ (read_more-IsValid t v (leb→le _ _ y) e)
                λ t' (v', w, g, l, same, got).
                  Returns-if (leb (length t'.buf) t'.reader.end) _ _ _
                    (λ z. nothing_fetched t t' v' w g l same got (leb→le _ _ z))
                    (λ n.
                      Returns-weaken (take_byte source t') _ (take_byte-Reads t' v' (ground arith))
                        λ p k. take_fetched t t' p.0 p.1 w g l same got k)))
        (λ n.
          Returns-weaken (take_byte source t) _ (take_byte-Reads t v (ground arith))
            λ p k. take_direct t p.0 p.1 k)
