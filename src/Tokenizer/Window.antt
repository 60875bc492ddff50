-- ===== src/Tokenizer/Window.antt =====
-- The buffer as a window on the bytes of the reader: what has been read since the last token, and what
-- is still to come.
use news_tracker.Prelude.{
  ℕ, ◌+◌, ◌-◌, ◌≤◌, ◌<◌, true, ◌≡◌, ◌≢◌, ◌⊎◌, refl, sym, ap, ◌∙◌, Option, some, none, [], ◌∷◌, ◌++◌,
  append_assoc, append-nil, Bytes, length, length-append, get_elem?, get_elem?-append, drop-length,
  take-length, leb, ok, arith,
}
use news_tracker.Token.Reader.{slice}
use news_tracker.Tokenizer.{
  ReadError, eof, IoReader, Tokenizer, grown, move_window, add_bytes, read_more, take_byte,
}

-- One call of a reader that holds the bytes: some of them in order and no error, or at their end io.EOF
-- alone.
abbrev pub Delivers :
    {State : Type 0} → (State → Bytes → Type 0) → Bytes × Option ReadError × State → Bytes → Type 0
Delivers Holds r bytes =
    ((r.0 ≢ []) × (r.1 ≡ none) × (rest : Bytes) × Holds r.2 rest × (bytes ≡ r.0 ++ rest))
    ⊎ ((r.0 ≡ []) × (r.1 ≡ some eof) × (bytes ≡ []))

-- A reader that cuts its bytes as it likes, and ends with io.EOF and no bytes.
pub record IsPolite (source : IoReader) : Type 1 where
  pub Holds : source.State → Bytes → Type 0
  pub delivers :
      (n : ℕ) (s : source.State) (bytes : Bytes)
      → 0 < n
      → Holds s bytes
      → Delivers Holds (source.read n s) bytes

module _ {source : IoReader} where
  -- No error so far; `win` has been read since the last token, `ahead` is read and not yet looked at,
  -- and the lexeme goes from `ds` to `de` in the window.
  pub record Layout (t : Tokenizer source) (front win ahead : Bytes) (ds de : ℕ) : Type 0 where
    pub no_err : t.err ≡ none
    pub buffer : t.buf ≡ front ++ (win ++ ahead)
    pub start_at : t.reader.start ≡ length front
    pub end_at : t.reader.end ≡ length front + length win
    pub from : t.lexeme.start ≡ length front + ds
    pub upto : t.lexeme.end ≡ length front + de
    pub fits : length t.buf ≤ t.capacity
    pub has_room : 0 < t.capacity

  -- The reader has ended.
  pub record AtEnd (t : Tokenizer source) (win : Bytes) (ds de : ℕ) : Type 0 where
    pub is_eof : t.err ≡ some eof
    pub buffer : t.buf ≡ win
    pub start_at : t.reader.start ≡ 0
    pub end_at : t.reader.end ≡ length win
    pub from : t.lexeme.start ≡ ds
    pub upto : t.lexeme.end ≡ de

  -- `rest` is what comes after the window, in the buffer or in the reader.
  abbrev pub At : IsPolite source → Tokenizer source → Bytes → Bytes → ℕ → ℕ → Type 0
  At polite t win rest ds de =
      (front : Bytes) × (ahead : Bytes) × (left : Bytes) × Layout t front win ahead ds de
      × polite.Holds t.state_of_source left
      × (rest ≡ ahead ++ left)

pub slice_of :
    (xs front win ahead : Bytes) (lo hi : ℕ)
    → xs ≡ front ++ (win ++ ahead)
    → lo ≡ length front
    → hi ≡ length front + length win
    → slice xs lo hi ≡ ok win
unfolding slice
slice_of xs front win ahead lo hi e p q =
    let inside : leb (length front) (length front + length win) ≡ true = ground arith in
    let fits : leb (length front + length win) (length (front ++ (win ++ ahead))) ≡ true =
      ground (arith, length-append front (win ++ ahead), length-append win ahead) in
    let size : length front + length win - length front ≡ length win = omega arith in
    rw (e, p, q, inside, fits, size, drop-length front (win ++ ahead), take-length win ahead) refl

byte_behind :
    (xs front win ahead : Bytes) (b n : ℕ)
    → xs ≡ front ++ (win ++ b ∷ ahead)
    → n ≡ length front + length win
    → get_elem? xs n ≡ some b
byte_behind xs front win ahead b n e p =
    rw (e, p, ← length-append front win, ← append_assoc front win (b ∷ ahead))
      (get_elem?-append (front ++ win) b ahead)

module _ {source : IoReader} where
  -- A byte of the buffer moves into the window.
  pub take_byte-Layout :
      (t : Tokenizer source) (front win ahead : Bytes) (b ds de : ℕ)
      → Layout t front win (b ∷ ahead) ds de
      → (t' : Tokenizer source) × (take_byte source t ≡ ok (b, t'))
        × Layout t' front (win ++ b ∷ []) ahead ds de
        × (t'.state ≡ t.state)
        × (t'.state_of_source ≡ t.state_of_source)
  unfolding take_byte
  take_byte-Layout t front win ahead b ds de l = (
    record t { reader = record t.reader { end = t.reader.end + 1 } },
    rw (take_byte, byte_behind t.buf front win ahead b t.reader.end l.buffer l.end_at) refl,
    record {
      no_err = l.no_err;
      buffer = l.buffer ∙ ap (◌++◌ front) (sym (append_assoc win (b ∷ []) ahead));
      start_at = l.start_at;
      end_at = omega (arith, l.end_at, length-append win (b ∷ []));
      from = l.from;
      upto = l.upto;
      fits = l.fits;
      has_room = l.has_room;
    },
    refl,
    refl,
  )

  pub read_more_lem :
      (t : Tokenizer source) (front win : Bytes) (ds de : ℕ)
      → Layout t front win [] ds de
      → read_more source t
        ≡ ok (
            add_bytes source
              (source.read
                (grown t.capacity (t.reader.end - t.reader.start) - length win)
                t.state_of_source)
              (move_window source win (grown t.capacity (t.reader.end - t.reader.start)) t))
  unfolding read_more
  read_more_lem t front win ds de l =
      rw (slice_of t.buf front win [] t.reader.start t.reader.end l.buffer l.start_at l.end_at) refl

  -- The window stands at the front, and what was read behind it.
  pub more_bytes-Layout :
      (t : Tokenizer source) (front win : Bytes) (ds de capacity : ℕ)
      (r : Bytes × Option ReadError × source.State)
      → Layout t front win [] ds de
      → r.1 ≡ none
      → length win + length r.0 ≤ capacity
      → 0 < capacity
      → Layout (add_bytes source r (move_window source win capacity t)) [] win r.0 ds de
  more_bytes-Layout t front win ds de capacity r l e f p = record {
    no_err = e;
    buffer = refl;
    start_at = refl;
    end_at = omega (arith, l.end_at, l.start_at);
    from = omega (arith, l.from, l.start_at);
    upto = omega (arith, l.upto, l.start_at);
    fits = omega (arith, length-append win r.0);
    has_room = p;
  }

  pub no_bytes-AtEnd :
      (t : Tokenizer source) (front win : Bytes) (ds de capacity : ℕ)
      (r : Bytes × Option ReadError × source.State)
      → Layout t front win [] ds de
      → r.0 ≡ []
      → r.1 ≡ some eof
      → AtEnd (add_bytes source r (move_window source win capacity t)) win ds de
  no_bytes-AtEnd t front win ds de capacity r l n e = record {
    is_eof = e;
    buffer = rw n (append-nil win);
    start_at = refl;
    end_at = omega (arith, l.end_at, l.start_at);
    from = omega (arith, l.from, l.start_at);
    upto = omega (arith, l.upto, l.start_at);
  }

  -- There is room behind the window, whatever the window is.
  pub room :
      (t : Tokenizer source) (front win : Bytes) (ds de : ℕ)
      → Layout t front win [] ds de
      → (length win < grown t.capacity (t.reader.end - t.reader.start))
  room t front win ds de l = ground (
    arith,
    l.start_at,
    l.end_at,
    l.fits,
    l.has_room,
    ap length l.buffer,
    length-append front (win ++ []),
    length-append win [],
  )
