-- ===== src/Token/Reader/Scan.antt =====
-- What reading does: on any input (the cursor only grows, and stays inside), and on an input that
-- is written as the parts in front of the cursor and behind it.
use news_tracker.Prelude.{
  ℕ, zero, suc, ◌+◌, ◌-◌, ◌≤◌, ◌<◌, Bool, true, false, ◌≡◌, ◌≢◌, ◌⊎◌, refl, sym, ◌∙◌, inl, inr,
  some, none, [], ◌∷◌, ◌++◌, append_assoc, Bytes, length, length-append, get_elem?,
  get_elem?-append, get_elem?-length, get_elem?-some, drop-length, take-length, Option-cases,
  Outcome, ok, panic, timeout, Ends, arith,
}
use news_tracker.Token.Reader.{
  TokenCursorReader, byte, slice, lexeme, len, set_end, scan, scan_until,
}

module _ (r : TokenCursorReader) where
  pub byte_inside :
      {x : ℕ}
      → get_elem? r.source r.cursor.end ≡ some x
      → byte r ≡ ok (x, set_end (r.cursor.end + 1) r)
  unfolding byte
  byte_inside e = ground (arith, get_elem?-some r.source r.cursor.end e)

  pub byte_outside : get_elem? r.source r.cursor.end ≡ none → byte r ≡ panic
  unfolding byte
  byte_outside e = ground arith

  -- The byte behind the part in front of the cursor.
  pub byte_front :
      (pre : Bytes) (x : ℕ) (rest : Bytes)
      → r.source ≡ pre ++ x ∷ rest
      → r.cursor.end ≡ length pre
      → byte r ≡ ok (x, set_end (r.cursor.end + 1) r)
  byte_front pre x rest s e = byte_inside (rw (s, e) (get_elem?-append pre x rest))

  pub byte_end : {pre : Bytes} → r.source ≡ pre → r.cursor.end ≡ length pre → byte r ≡ panic
  byte_end {pre} s e = byte_outside (rw (s, e) (get_elem?-length pre))

  -- A byte that is read lies inside, and the cursor moves behind it.
  pub byte-cases :
      (byte r ≡ panic)
      ⊎ ((x : ℕ) × (byte r ≡ ok (x, set_end (r.cursor.end + 1) r)) × (r.cursor.end < len r))
  byte-cases = elim (Option-cases (get_elem? r.source r.cursor.end)) [
    | inl e ↦ inl (byte_outside e)
    | inr (x, e) ↦ inr (x, byte_inside e, get_elem?-some r.source r.cursor.end e)
  ]

-- A successful scan stops in front of a byte, at or behind the place where it began.
pub record Moved (r r' : TokenCursorReader) : Type 0 where
  pub same_source : r'.source ≡ r.source
  pub grows : r.cursor.end ≤ r'.cursor.end
  pub inside : r'.cursor.end < len r

pub scan-Moved :
    (f : ℕ) (stops : ℕ → Bool) (r r' : TokenCursorReader) → scan f stops r ≡ ok r' → Moved r r'
unfolding scan
scan-Moved zero stops r r' h = cc
scan-Moved (suc f) stops r r' h = elim (byte-cases r) [
  | inl e ↦ cc (rw (e, scan) at h)
  | inr (x, e, fits) ↦ ground (arith, e, scan-Moved f stops (set_end (r.cursor.end + 1) r) r')
]

pub scan-ne-timeout :
    (f : ℕ) (stops : ℕ → Bool) (r : TokenCursorReader)
    → len r < f + r.cursor.end
    → r.cursor.end ≤ len r
    → scan f stops r ≢ timeout
unfolding scan
scan-ne-timeout zero stops r h b e = absurd (omega arith)
scan-ne-timeout (suc f) stops r h b e = elim (byte-cases r) [
  | inl p ↦ ground (arith, p)
  | inr (x, p, fits) ↦ ground (arith, p, scan-ne-timeout f stops (set_end (r.cursor.end + 1) r))
]

module _ (r : TokenCursorReader) where
  pub byte-Ends : Ends (λ p. (p.1 ≡ set_end (r.cursor.end + 1) r) × (r.cursor.end < len r)) (byte r)
  byte-Ends = elim (byte-cases r) [ inl e ↦ rw e tt | inr (x, e, fits) ↦ rw e (refl, fits) ]

  pub lexeme-Ends : Ends (λ _. Unit {0}) (lexeme r)
  unfolding lexeme slice
  lexeme-Ends = ground arith

  pub scan_until-Ends :
      (stops : ℕ → Bool) → r.cursor.end ≤ len r → Ends (Moved r) (scan_until stops r)
  unfolding scan_until
  scan_until-Ends stops h = go (scan (len r + 1) stops r) refl
    where
      go : (o : Outcome TokenCursorReader) → scan (len r + 1) stops r ≡ o → Ends (Moved r) o
      go (ok r') e = scan-Moved _ stops r r' e
      go panic e = tt
      go timeout e = scan-ne-timeout (len r + 1) stops r (omega arith) h e

-- No byte of the list stops the scan.
abbrev pub Avoids : (ℕ → Bool) → Bytes → Type 0
Avoids stops [] = Unit {0}
Avoids stops (c ∷ cs) = (stops c ≡ false) × Avoids stops cs

module _ (stops : ℕ → Bool) (x : ℕ) (rest : Bytes) (stop : stops x ≡ true) where
  -- From the front of `body`, the scan goes to its end.
  scan-Avoids :
      (body pre : Bytes) (f : ℕ) (r : TokenCursorReader)
      → r.source ≡ pre ++ (body ++ x ∷ rest)
      → r.cursor.end ≡ length pre
      → length body < f
      → Avoids stops body
      → scan f stops r ≡ ok (set_end (length pre + length body) r)
  unfolding scan
  scan-Avoids body pre zero r s e h a = absurd (omega arith)
  scan-Avoids [] pre (suc f) r s e h a = ground (arith, byte_front r pre x rest s e)
  scan-Avoids (c ∷ body) pre (suc f) r s e h a =
      let s' : r.source ≡ (pre ++ c ∷ []) ++ (body ++ x ∷ rest) =
        s ∙ sym (append_assoc pre (c ∷ []) _) in
      ground (
        arith,
        byte_front r pre c _ s e,
        length-append pre (c ∷ []),
        scan-Avoids body (pre ++ c ∷ []) f (set_end (r.cursor.end + 1) r) s',
      )

  pub scan_until-Avoids :
      (body pre : Bytes) (r : TokenCursorReader)
      → r.source ≡ pre ++ (body ++ x ∷ rest)
      → r.cursor.end ≡ length pre
      → Avoids stops body
      → scan_until stops r ≡ ok (set_end (length pre + length body) r)
  unfolding scan_until
  scan_until-Avoids body pre r s e a =
      scan-Avoids body pre _ r s e
        (rw s (omega (arith, length-append pre (body ++ x ∷ rest), length-append body (x ∷ rest))))
        a

pub slice-append :
    (pre body rest : Bytes)
    → slice (pre ++ (body ++ rest)) (length pre) (length pre + length body) ≡ ok body
unfolding slice
slice-append pre body rest =
    let e : length pre + length body - length pre ≡ length body = omega arith in
    rw (drop-length, e, take-length)
      (ground (arith, length-append pre (body ++ rest), length-append body rest))

module _ (r : TokenCursorReader) (pre body rest : Bytes) where
  pub lexeme-append :
      r.source ≡ pre ++ (body ++ rest)
      → r.cursor.start ≡ length pre
      → r.cursor.end ≡ length pre + length body
      → lexeme r ≡ ok body
  unfolding lexeme
  lexeme-append s b e = rw (s, b, e) (slice-append pre body rest)
