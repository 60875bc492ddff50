-- ===== src/Tokenizer/Reachable.antt =====
-- The states that `Next` leads a tokenizer to, whatever its reader does within its contract.
use news_tracker.Prelude.{
  ℕ, ◌-◌, ◌≤◌, Bool, true, false, ◌≡◌, ◌⊎◌, refl, inl, inr, Option, some, none, Bytes, ltb, ◌==◌,
  if◌then◌else◌, Outcome, ok, panic, timeout, ◌>>=◌, Safe, Returns-Safe, Returns-weaken, arith,
}
use news_tracker.Token.Reader.{slice, slash}
use news_tracker.Token.OpenTag
use news_tracker.Token.CloseTag
use news_tracker.Parse.{Token, open_tag, close_tag}
use news_tracker.Tokenizer.{
  IoReader, Tokenizer, new_tokenizer, ParserState, normal, script_content, has_err, is_comment, tag,
  bracket_loop, read_until_close_bracket, next_symbol, set_tt, bytes_of, text_of, comment_of,
  open_of, close_of, open_in, token_of, next, error_token, text_token, skip_token, open_tag_token,
  close_tag_token, state_after,
}
use news_tracker.Tokenizer.Valid.{IsValid, window_size, length-slice_of}
use news_tracker.Tokenizer.Loops.{
  IsFresh, Behind, IsLexed, next_symbol-Behind, bracket_loop-IsLexed, tag-IsLexed,
}

module _ {source : IoReader} where
  -- In front of a token.
  abbrev begun : Tokenizer source → Tokenizer source
  begun t = record t {
    reader = record t.reader { start = t.reader.end };
    lexeme = record { start = t.reader.end; end = t.reader.end };
  }

  -- `Unmarshal` panics of the bytes of the tag: a closing tag's, or, outside of scripts, an opening tag's.
  abbrev pub UnmarshalPanics : ℕ → Tokenizer source → Tokenizer source → Bytes → Type 0
  UnmarshalPanics c t₀ t₁ bytes =
      (((c == slash) ≡ true) × (has_err source t₁ ≡ false) × (CloseTag.unmarshal bytes ≡ panic))
      ⊎ (((c == slash) ≡ false) × (t₀.state ≡ normal) × (OpenTag.unmarshal bytes ≡ panic))

  -- This call of `Next` finds the start of a tag behind `t₀`, with no text in front of it, reads the tag to
  -- its end in `t₁`, takes its bytes, and `Unmarshal` of these bytes panics.
  abbrev pub TagPanics : ℕ → Tokenizer source → Type 0
  TagPanics f t =
      (c : ℕ) × (t₀ : Tokenizer source) × (t₁ : Tokenizer source) × (bytes : Bytes) × (next_symbol
          source f (begun t)
        ≡ ok (some c, t₀))
      × (is_comment c ≡ false)
      × (ltb t₀.reader.start (t₀.reader.end - 2) ≡ false)
      × (tag source f t₀ ≡ ok t₁)
      × (bytes_of source t₁ ≡ ok bytes)
      × UnmarshalPanics c t₀ t₁ bytes

  -- What `Next` may come to: a tokenizer in order, or a panic of the kind `B`, or no end.
  abbrev pub Comes : Type 0 → Outcome (Token × Tokenizer source) → Type 0
  Comes B (ok (token, t)) = IsValid t
  Comes B panic = B
  Comes B timeout = Unit {0}

  Comes-bind :
      {A : Type 0} (B : Type 0) (Q : A → Type 0) (m : Outcome A)
      (f : A → Outcome (Token × Tokenizer source))
      → Safe Q m
      → ((a : A) → m ≡ ok a → Q a → Comes B (f a))
      → Comes B (m >>= f)
  Comes-bind B Q (ok a) f h k = k a refl h
  Comes-bind B Q panic f h k = absurd h
  Comes-bind B Q timeout f h k = tt

  Comes-if :
      (B : Type 0) (b : Bool) (m n : Outcome (Token × Tokenizer source))
      → (b ≡ true → Comes B m)
      → (b ≡ false → Comes B n)
      → Comes B (if b then m else n)
  Comes-if B true m n hm hn = hm refl
  Comes-if B false m n hm hn = hn refl

  relabeled :
      (t : Tokenizer source) (tt : _) (st : ParserState)
      → IsValid t
      → IsValid (record t { tt = tt; state = st })
  relabeled t tt st v = record {
    starts = v.starts;
    in_buf = v.in_buf;
    fits = v.fits;
    has_room = v.has_room;
    from_low = v.from_low;
    from_high = v.from_high;
    upto_low = v.upto_low;
    upto_high = v.upto_high;
  }

  skipped : (t : Tokenizer source) (tt : _) → IsValid t → IsValid (set_tt source tt t)
  skipped t tt v = relabeled t tt t.state v

  bytes_of-Safe : (t : Tokenizer source) → IsLexed t → Safe (λ _. Unit {0}) (bytes_of source t)
  unfolding bytes_of
  bytes_of-Safe t (v, o) =
      Returns-Safe (λ _. Unit {0}) _
        (Returns-weaken (slice t.buf t.lexeme.start t.lexeme.end) _
          (length-slice_of t.buf t.lexeme.start t.lexeme.end o
            (omega (arith, v.upto_high, v.in_buf)))
          λ _ _. tt)

  text_of-Comes :
      (B : Type 0) (t : Tokenizer source)
      → IsValid t
      → IsFresh t
      → 2 ≤ window_size t
      → Comes B (text_of source t)
  unfolding text_of
  text_of-Comes B t v p h =
      let t' : Tokenizer source = record t {
        reader = record t.reader { end = t.reader.end - 2 };
        lexeme = record t.lexeme { end = t.reader.end - 2 };
        tt = text_token;
      } in
      let v' : IsValid t' = record {
        starts = omega arith;
        in_buf = omega (arith, v.in_buf);
        fits = v.fits;
        has_room = v.has_room;
        from_low = v.from_low;
        from_high = omega (arith, p.0);
        upto_low = omega arith;
        upto_high = omega arith;
      } in
      Comes-bind B (λ _. Unit {0}) (bytes_of source t') _
        (bytes_of-Safe t' (v', omega (arith, p.0))) λ bytes _ _. v'

  comment_of-Comes :
      (B : Type 0) (f : ℕ) (t : Tokenizer source)
      → IsValid t
      → IsFresh t
      → 2 ≤ window_size t
      → Comes B (comment_of source f t)
  unfolding comment_of read_until_close_bracket
  comment_of-Comes B f t v p h =
      let t' : Tokenizer source = record t {
        reader = record t.reader { end = t.reader.end - 2 };
        lexeme = record t.lexeme { start = t.reader.end - 2 };
      } in
      let v' : IsValid t' = record {
        starts = omega arith;
        in_buf = omega (arith, v.in_buf);
        fits = v.fits;
        has_room = v.has_room;
        from_low = omega arith;
        from_high = omega arith;
        upto_low = v.upto_low;
        upto_high = omega (arith, p.1);
      } in
      Comes-bind B IsLexed (bracket_loop source f t') _ (bracket_loop-IsLexed f t' v') λ t₁ e l.
        Comes-bind B (λ _. Unit {0}) (bytes_of source t₁) _ (bytes_of-Safe t₁ l) λ bytes _ _. l.0

  open_of-Comes :
      (B : Type 0) (f : ℕ) (t : Tokenizer source)
      → IsValid t
      → 2 ≤ window_size t
      → ((t₁ : Tokenizer source) (bytes : Bytes)
          → tag source f t ≡ ok t₁
          → bytes_of source t₁ ≡ ok bytes
          → OpenTag.unmarshal bytes ≡ panic
          → B)
      → Comes B (open_of source f t)
  unfolding open_of
  open_of-Comes B f t v h blame =
      Comes-bind B IsLexed (tag source f t) _ (tag-IsLexed f t v h) λ t₁ e l.
        Comes-bind B (λ _. Unit {0}) (bytes_of source t₁) _ (bytes_of-Safe t₁ l)
          λ bytes e' _. by_tag t₁ l.0 (OpenTag.unmarshal bytes) (blame t₁ bytes e e')
    where
      by_tag :
          (t₁ : Tokenizer source)
          → IsValid t₁
          → (r : Outcome (OpenTag.OpenTag × Option OpenTag.Error)) → (r ≡ panic → B)
          → Comes B (
              r >>= λ p.
              ok
                (open_tag p.0, record t₁ { state = state_after p.0 t₁.state; tt = open_tag_token }))
      by_tag t₁ v₁ (ok p) k = relabeled t₁ open_tag_token (state_after p.0 t₁.state) v₁
      by_tag t₁ v₁ panic k = k refl
      by_tag t₁ v₁ timeout k = tt

  close_of-Comes :
      (B : Type 0) (f : ℕ) (t : Tokenizer source)
      → IsValid t
      → 2 ≤ window_size t
      → ((t₁ : Tokenizer source) (bytes : Bytes)
          → tag source f t ≡ ok t₁
          → has_err source t₁ ≡ false
          → bytes_of source t₁ ≡ ok bytes
          → CloseTag.unmarshal bytes ≡ panic
          → B)
      → Comes B (close_of source f t)
  unfolding close_of
  close_of-Comes B f t v h blame =
      Comes-bind B IsLexed (tag source f t) _ (tag-IsLexed f t v h) λ t₁ e l.
        Comes-if B (has_err source t₁) _ _ (λ _. skipped t₁ error_token l.0)
          (λ n.
            Comes-bind B (λ _. Unit {0}) (bytes_of source t₁) _ (bytes_of-Safe t₁ l)
              λ bytes e' _. by_tag t₁ l.0 (CloseTag.unmarshal bytes) (blame t₁ bytes e n e'))
    where
      by_tag :
          (t₁ : Tokenizer source)
          → IsValid t₁
          → (r : Outcome (CloseTag.CloseTag × Option CloseTag.Error)) → (r ≡ panic → B)
          → Comes B
              (r >>= λ p. ok (close_tag p.0, record t₁ { state = normal; tt = close_tag_token }))
      by_tag t₁ v₁ (ok p) k = relabeled t₁ close_tag_token normal v₁
      by_tag t₁ v₁ panic k = k refl
      by_tag t₁ v₁ timeout k = tt

  open_in-Comes :
      (B : Type 0) (st : ParserState) (f : ℕ) (t : Tokenizer source)
      → IsValid t
      → 2 ≤ window_size t
      → ((t₁ : Tokenizer source) (bytes : Bytes)
          → st ≡ normal
          → tag source f t ≡ ok t₁
          → bytes_of source t₁ ≡ ok bytes
          → OpenTag.unmarshal bytes ≡ panic
          → B)
      → Comes B (open_in source st f t)
  open_in-Comes B normal f t v h blame = open_of-Comes B f t v h (λ t₁ bytes. blame t₁ bytes refl)
  open_in-Comes B script_content f t v h blame = skipped t skip_token v

  token_of-Comes :
      (f : ℕ) (t : Tokenizer source) (p : Option ℕ × Tokenizer source)
      → next_symbol source f (begun t) ≡ ok p
      → Behind p
      → Comes (TagPanics f t) (token_of source f p.0 p.1)
  unfolding token_of
  token_of-Comes f t (none, t₀) e v = skipped t₀ error_token v
  token_of-Comes f t (some c, t₀) e (v, p, h) =
      let B = TagPanics f t in
      Comes-if B (is_comment c) _ _ (λ _. comment_of-Comes B f t₀ v p h)
        (λ n.
          Comes-if B (ltb t₀.reader.start (t₀.reader.end - 2)) _ _ (λ _. text_of-Comes B t₀ v p h)
            (λ m.
              Comes-if B (c == slash) _ _
                (λ y.
                  close_of-Comes B f t₀ v h
                    (λ t₁ bytes g k l q. (c, t₀, t₁, bytes, e, n, m, g, l, inl (y, k, q))))
                (λ z.
                  open_in-Comes B t₀.state f t₀ v h
                    (λ t₁ bytes st g l q. (c, t₀, t₁, bytes, e, n, m, g, l, inr (z, st, q))))))

  next-Comes : (f : ℕ) (t : Tokenizer source) → IsValid t → Comes (TagPanics f t) (next source f t)
  unfolding next
  next-Comes f t v =
      let v' : IsValid (begun t) = record {
        starts = omega arith;
        in_buf = v.in_buf;
        fits = v.fits;
        has_room = v.has_room;
        from_low = omega arith;
        from_high = omega arith;
        upto_low = omega arith;
        upto_high = omega arith;
      } in
      Comes-if (TagPanics f t) (has_err source (begun t)) _ _
        (λ _. skipped (begun t) error_token v')
        (λ _.
          Comes-bind (TagPanics f t) Behind (next_symbol source f (begun t)) _
            (next_symbol-Behind f (begun t) v' (refl, refl)) λ p e b. token_of-Comes f t p e b)

-- The states of a tokenizer between calls of `Next`.
pub data Reached (source : IoReader) (s : source.State) : Tokenizer source → Type 0 where
  at_first : Reached source s (new_tokenizer source s)
  after_next :
      {t t' : Tokenizer source} {token : Token} (fuel : ℕ)
      → Reached source s t
      → next source fuel t ≡ ok (token, t')
      → Reached source s t'

Reached-IsValid :
    {source : IoReader} {s : source.State} {t : Tokenizer source} → Reached source s t → IsValid t
Reached-IsValid at_first = record {
  starts = omega arith;
  in_buf = omega arith;
  fits = omega arith;
  has_room = omega arith;
  from_low = omega arith;
  from_high = omega arith;
  upto_low = omega arith;
  upto_high = omega arith;
}
Reached-IsValid (after_next {t} {t'} {token} fuel r e) =
    rw e at (next-Comes fuel t (Reached-IsValid r))

-- On any reader within its contract, in every state that calls of `Next` lead to from a new tokenizer:
-- the cursors and the lexeme are inside the buffer, the buffer is within its capacity, and the next
-- call comes to such a state again, or does not end within its fuel, or it reads a tag to its end
-- without a panic, takes the tag's bytes without one, and the `Unmarshal` of these bytes panics.
pub Reached-Comes :
    (source : IoReader) (s : source.State) (t : Tokenizer source) (fuel : ℕ)
    → Reached source s t
    → IsValid t × Comes (TagPanics fuel t) (next source fuel t)
Reached-Comes source s t fuel r = (Reached-IsValid r, next-Comes fuel t (Reached-IsValid r))
