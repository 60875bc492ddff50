-- ===== src/Tokenizer/Loops.antt =====
-- The loops of `Next` keep the buffer and its cursors in order and do not panic, whatever the reader does.
use news_tracker.Prelude.{
  ℕ, zero, suc, ◌+◌, ◌-◌, ◌≤◌, ◌<◌, true, ◌≡◌, inl, inr, Option, some, none, ◌==◌, ==_iff, Safe,
  Safe-bind, Safe-if, Returns-Safe, arith,
}
use news_tracker.Token.Reader.{l_bracket, r_bracket}
use news_tracker.Tokenizer.{
  IoReader, Tokenizer, has_err, starts_token, read_byte, tag_loop, tag, bracket_loop, next_symbol,
}
use news_tracker.Tokenizer.Valid.{IsValid, window_size, Moves, SameLexeme, Reads, read_byte-Reads}

module _ {source : IoReader} where
  -- In front of a token the lexeme is empty and at the window's front.
  abbrev pub IsFresh : Tokenizer source → Type 0
  IsFresh t = (t.lexeme.start ≡ t.reader.start) × (t.lexeme.end ≡ t.reader.start)

  abbrev pub Behind : Option ℕ × Tokenizer source → Type 0
  Behind (none, t) = IsValid t
  Behind (some c, t) = IsValid t × IsFresh t × (2 ≤ window_size t)

  symbol_moved :
      (n b c : ℕ) (t : Tokenizer source)
      → Moves n b t
      → (b == c) ≡ true
      → 0 < c
      → window_size t ≡ n + 1
  symbol_moved n b c t (inl e) h p = e
  symbol_moved n b c t (inr (e, z)) h p = absurd (omega (arith, (==_iff b c).0 h))

  start_moved :
      (n b : ℕ) (t : Tokenizer source) → Moves n b t → starts_token b ≡ true → window_size t ≡ n + 1
  start_moved n b t (inl e) h = e
  start_moved n b t (inr (e, z)) h = absurd (ground arith)

  moved_on : (n b : ℕ) (t : Tokenizer source) → Moves n b t → n ≤ window_size t
  moved_on n b t (inl e) = omega arith
  moved_on n b t (inr (e, z)) = omega arith

  -- The cursor goes back in front of a symbol that starts nothing.
  step_back :
      (t : Tokenizer source)
      → IsValid t
      → IsFresh t
      → 0 < window_size t
      → IsValid (record t { reader = record t.reader { end = t.reader.end - 1 } })
  step_back t v (p, q) h = record {
    starts = omega arith;
    in_buf = omega (arith, v.in_buf);
    fits = v.fits;
    has_room = v.has_room;
    from_low = v.from_low;
    from_high = omega arith;
    upto_low = v.upto_low;
    upto_high = omega arith;
  }

  pub next_symbol-Behind :
      (f : ℕ) (t : Tokenizer source) → IsValid t → IsFresh t → Safe Behind (next_symbol source f t)
  unfolding next_symbol
  next_symbol-Behind zero t v p = tt
  next_symbol-Behind (suc f) t v p =
      Safe-bind {Q = Reads t} (read_byte source t) _ _
        (Returns-Safe (Reads t) (read_byte source t) (read_byte-Reads t v))
        λ (b, t₁) (v₁, m₁, g₁, l₁, s₁).
          let fresh₁ : IsFresh t₁ = (omega (arith, p.0, l₁.0), omega (arith, p.1, l₁.1)) in
          Safe-if (has_err source t₁) _ _ _ (λ _. v₁)
            (λ _.
              Safe-if (b == l_bracket) _ _ _
                (λ y.
                  Safe-bind {Q = Reads t₁} (read_byte source t₁) _ _
                    (Returns-Safe (Reads t₁) (read_byte source t₁) (read_byte-Reads t₁ v₁))
                    λ (c, t₂) (v₂, m₂, g₂, l₂, s₂).
                      let fresh₂ : IsFresh t₂ =
                        (omega (arith, fresh₁.0, l₂.0), omega (arith, fresh₁.1, l₂.1)) in
                      let one = symbol_moved (window_size t) b l_bracket t₁ m₁ y (omega arith) in
                      Safe-if (has_err source t₂) _ _ _ (λ _. v₂)
                        (λ _.
                          Safe-if (starts_token c) _ _ _
                            (λ z. (
                              v₂,
                              fresh₂,
                              omega (arith, one, start_moved (window_size t₁) c t₂ m₂ z),
                            ))
                            (λ _.
                              next_symbol-Behind f _
                                (step_back t₂ v₂ fresh₂
                                  (omega (arith, one, moved_on (window_size t₁) c t₂ m₂)))
                                fresh₂)))
                (λ _. next_symbol-Behind f t₁ v₁ fresh₁))

  relexed :
      (t : Tokenizer source) (lo hi : ℕ)
      → IsValid t
      → t.reader.start ≤ lo
      → lo ≤ t.reader.end
      → t.reader.start ≤ hi
      → hi ≤ t.reader.end
      → IsValid (record t { lexeme = record { start = lo; end = hi } })
  relexed t lo hi v a b c d = record {
    starts = v.starts;
    in_buf = v.in_buf;
    fits = v.fits;
    has_room = v.has_room;
    from_low = a;
    from_high = b;
    upto_low = c;
    upto_high = d;
  }

  -- The lexeme ends at the cursor.
  closed :
      (t : Tokenizer source)
      → IsValid t
      → IsValid (record t { lexeme = record t.lexeme { end = t.reader.end } })
  closed t v = relexed t t.lexeme.start t.reader.end v v.from_low v.from_high v.starts (omega arith)

  -- The lexeme is a slice of the buffer.
  abbrev pub IsLexed : Tokenizer source → Type 0
  IsLexed t = IsValid t × (t.lexeme.start ≤ t.lexeme.end)

  still_ordered :
      (t t' : Tokenizer source)
      → t.lexeme.start ≤ t.lexeme.end
      → SameLexeme t t'
      → t'.lexeme.start ≤ t'.lexeme.end
  still_ordered t t' o l = omega (arith, l.0, l.1)

  tag_loop-IsLexed :
      (f : ℕ) (t : Tokenizer source)
      → IsValid t
      → t.lexeme.start ≤ t.lexeme.end
      → Safe IsLexed (tag_loop source f t)
  unfolding tag_loop
  tag_loop-IsLexed zero t v o = tt
  tag_loop-IsLexed (suc f) t v o =
      Safe-bind {Q = Reads t} (read_byte source t) _ _
        (Returns-Safe (Reads t) (read_byte source t) (read_byte-Reads t v))
        λ (b, t₁) (v₁, m₁, g₁, l₁, s₁).
          Safe-if (has_err source t₁) _ _ _ (λ _. (v₁, still_ordered t t₁ o l₁))
            (λ _.
              Safe-if (b == r_bracket) _ _ _ (λ _. (closed t₁ v₁, v₁.from_high))
                (λ _. tag_loop-IsLexed f t₁ v₁ (still_ordered t t₁ o l₁)))

  pub bracket_loop-IsLexed :
      (f : ℕ) (t : Tokenizer source) → IsValid t → Safe IsLexed (bracket_loop source f t)
  unfolding bracket_loop
  bracket_loop-IsLexed zero t v = tt
  bracket_loop-IsLexed (suc f) t v =
      Safe-bind {Q = Reads t} (read_byte source t) _ _
        (Returns-Safe (Reads t) (read_byte source t) (read_byte-Reads t v))
        λ (b, t₁) (v₁, m₁, g₁, l₁, s₁).
          Safe-if (has_err source t₁) _ _ _ (λ _. (closed t₁ v₁, v₁.from_high))
            (λ _.
              Safe-if (b == r_bracket) _ _ _ (λ _. (closed t₁ v₁, v₁.from_high))
                (λ _. bracket_loop-IsLexed f t₁ v₁))

  pub tag-IsLexed :
      (f : ℕ) (t : Tokenizer source) → IsValid t → 2 ≤ window_size t → Safe IsLexed (tag source f t)
  unfolding tag
  tag-IsLexed f t v h =
      tag_loop-IsLexed f _
        (relexed t (t.reader.end - 2) t.reader.end v (omega arith) (omega arith) v.starts
          (omega arith))
        (omega arith)
