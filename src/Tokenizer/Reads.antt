-- ===== src/Tokenizer/Reads.antt =====
-- `readByte` hands out the reader's bytes in order, however the reader cuts them.
use news_tracker.Prelude.{
  ℕ, ◌+◌, ◌-◌, ◌≤◌, ◌<◌, true, false, ◌≡◌, ◌≢◌, refl, sym, ap, ◌∙◌, inl, inr, Option, none, [], ◌∷◌,
  ◌++◌, Bytes, length, length-append, leb, ok, arith,
}
use news_tracker.Tokenizer.{
  ReadError, IoReader, Tokenizer, has_err, grown, move_window, add_bytes, read_more, read_byte,
}
use news_tracker.Tokenizer.Window.{
  IsPolite, Layout, At, AtEnd, take_byte-Layout, read_more_lem, more_bytes-Layout, no_bytes-AtEnd,
  room,
}

module _ {source : IoReader} (polite : IsPolite source) where
  -- The byte is returned, and the state stands behind it.
  abbrev pub Reads : Tokenizer source → Bytes → Bytes → ℕ → ℕ → ℕ → Type 0
  Reads t win rest b ds de =
      (t' : Tokenizer source) × (read_byte source t ≡ ok (b, t'))
      × At polite t' (win ++ b ∷ []) rest ds de
      × (t'.state ≡ t.state)

  pub no_error : (t : Tokenizer source) → t.err ≡ none → has_err source t ≡ false
  no_error t e = rw e refl

  buffered :
      (t : Tokenizer source) (front win ahead : Bytes) (b ds de : ℕ)
      → Layout t front win (b ∷ ahead) ds de
      → leb (length t.buf) t.reader.end ≡ false
  buffered t front win ahead b ds de l = ground (
    arith,
    l.end_at,
    ap length l.buffer,
    length-append front (win ++ b ∷ ahead),
    length-append win (b ∷ ahead),
  )

  used_up :
      (t : Tokenizer source) (front win : Bytes) (ds de : ℕ)
      → Layout t front win [] ds de
      → leb (length t.buf) t.reader.end ≡ true
  used_up t front win ds de l =
      ground
        (arith, l.end_at, ap length l.buffer, length-append front (win ++ []), length-append win [])

  read_buffered :
      (t : Tokenizer source) (front win ahead left : Bytes) (b ds de : ℕ)
      → Layout t front win (b ∷ ahead) ds de
      → polite.Holds t.state_of_source left
      → Reads t win (ahead ++ left) b ds de
  unfolding read_byte
  read_buffered t front win ahead left b ds de l h =
      let (t', e, l', same, src) = take_byte-Layout t front win ahead b ds de l in
      (
        t',
        rw (buffered t front win ahead b ds de l) e,
        (front, ahead, left, l', rw src h, refl),
        same,
      )

  -- The bytes of one call of `Read`, of which the first is returned.
  read_chunk :
      (t : Tokenizer source) (front win rest later : Bytes) (b ds de capacity : ℕ)
      (r : Bytes × Option ReadError × source.State)
      → Layout t front win [] ds de
      → read_more source t ≡ ok (add_bytes source r (move_window source win capacity t))
      → r.1 ≡ none
      → length win + length r.0 ≤ capacity
      → 0 < capacity
      → polite.Holds r.2 later
      → b ∷ rest ≡ r.0 ++ later
      → r.0 ≢ []
      → Reads t win rest b ds de
  unfolding read_byte
  read_chunk t front win rest later b ds de capacity ([], err, s) l m n f p h e ne =
      absurd (ne refl)
  read_chunk t front win rest later b ds de capacity (c ∷ chunk, err, s) l m n f p h e ne =
      let r : Bytes × Option ReadError × source.State = (c ∷ chunk, err, s) in
      let moved : Tokenizer source = add_bytes source r (move_window source win capacity t) in
      let lay = more_bytes-Layout t front win ds de capacity r l n f p in
      let (t', taken, l', same, src) = take_byte-Layout moved [] win chunk c ds de lay in
      let first : c ≡ b = cc in
      let others : rest ≡ chunk ++ later = cc in
      rw (← first) (
        t',
        rw
            (
              used_up t front win ds de l,
              no_error t l.no_err,
              m,
              buffered moved [] win chunk c ds de lay,
            )
            taken,
        ([], chunk, later, l', rw src h, others),
        same,
      )

  read_fresh :
      (t : Tokenizer source) (front win left : Bytes) (b : ℕ) (rest : Bytes) (ds de : ℕ)
      → Layout t front win [] ds de
      → polite.Holds t.state_of_source left
      → left ≡ b ∷ rest
      → Reads t win rest b ds de
  unfolding read_byte
  read_fresh t front win left b rest ds de l h e =
      let n = grown t.capacity (t.reader.end - t.reader.start) in
      let fits = room t front win ds de l in
      let within = source.read_within (n - length win) t.state_of_source in
      elim (polite.delivers (n - length win) t.state_of_source left (omega (arith, fits)) h) [
        | inl (ne, no_err, later, h', splits) ↦
            read_chunk t front win rest later b ds de n
              (source.read (n - length win) t.state_of_source) l (read_more_lem t front win ds de l)
              no_err (omega (arith, fits, within)) (omega (arith, fits)) h' (sym e ∙ splits) ne
        | inr (no_bytes, ended, nothing) ↦ absurd (cc)
      ]

  -- With bytes to come, `readByte` returns the first one and moves it into the window.
  pub read_byte-At :
      (t : Tokenizer source) (win rest : Bytes) (b : ℕ) (ds de : ℕ)
      → At polite t win (b ∷ rest) ds de
      → Reads t win rest b ds de
  read_byte-At t win rest b ds de (front, [], left, l, h, e) =
      read_fresh t front win left b rest ds de l h (sym e)
  read_byte-At t win rest b ds de (front, c ∷ ahead, left, l, h, e) =
      let first : c ≡ b = cc in
      let others : ahead ++ left ≡ rest = cc in
      rw (← first, ← others) (read_buffered t front win ahead left c ds de l h)

  not_nil : (xs ys : Bytes) → xs ≢ [] → ◌≡◌ {A = Bytes} [] (xs ++ ys) → ⊥
  not_nil [] ys n e = n refl
  not_nil (x ∷ xs) ys n e = cc

  at_end :
      (t : Tokenizer source) (win : Bytes) (ds de : ℕ)
      → AtEnd t win ds de
      → leb (length t.buf) t.reader.end ≡ true
  at_end t win ds de a = ground (arith, a.end_at, ap length a.buffer)

  -- At the end of the reader it returns 0, and the error is set.
  pub read_byte-AtEnd :
      (t : Tokenizer source) (win : Bytes) (ds de : ℕ)
      → At polite t win [] ds de
      → (t' : Tokenizer source) × (read_byte source t ≡ ok (0, t'))
        × AtEnd t' win ds de
        × (t'.state ≡ t.state)
  unfolding read_byte
  read_byte-AtEnd t win ds de (front, [], left, l, h, e) =
      let n = grown t.capacity (t.reader.end - t.reader.start) in
      let fits = room t front win ds de l in
      let r = source.read (n - length win) t.state_of_source in
      elim (polite.delivers (n - length win) t.state_of_source left (omega (arith, fits)) h) [
        | inl (ne, no_err, later, h', splits) ↦ absurd (not_nil r.0 later ne (e ∙ splits))
        | inr (no_bytes, ended, nothing) ↦
            let moved : Tokenizer source = add_bytes source r (move_window source win n t) in
            let stop = no_bytes-AtEnd t front win ds de n r l no_bytes ended in
            (
              moved,
              rw
                  (
                    used_up t front win ds de l,
                    no_error t l.no_err,
                    read_more_lem t front win ds de l,
                    at_end moved win ds de stop,
                  )
                  refl,
              stop,
              refl,
            )
      ]
  read_byte-AtEnd t win ds de (front, c ∷ ahead, left, l, h, e) = absurd (cc)
