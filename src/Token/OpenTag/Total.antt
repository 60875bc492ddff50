-- ===== src/Token/OpenTag/Total.antt =====
-- The loops of `Unmarshal` end: each round reads at least one byte more, and past the last one the
-- read panics.
use news_tracker.Prelude.{
  ℕ, zero, suc, ◌+◌, ◌≤◌, ◌<◌, not, ◌≡◌, ◌≢◌, [], Bytes, ◌==◌, StringMap, if◌then◌else◌, timeout,
  Ends, Ends-bind, Ends-if, Ends-weaken, Ends-ne-timeout, arith,
}
use news_tracker.Token.Reader.{
  TokenCursorReader, byte, lexeme, backward, len, new_token_cursor_reader, set_start, scan_until,
  l_bracket, r_bracket, space, equals,
}
use news_tracker.Token.Reader.Scan.{byte-Ends, lexeme-Ends, Moved, scan_until-Ends}
use news_tracker.Token.OpenTag.{
  unmarshal_attr_key, unmarshal_attr_value, unmarshal_pair, unmarshal_attr, unmarshal_name,
  unmarshal, is_quote, ends_key, ends_name,
}

-- The cursor is inside the tag.
abbrev IsInside : TokenCursorReader → Type 0
IsInside r = r.cursor.end ≤ len r

unmarshal_attr_value-Ends :
    (f : ℕ) (r : TokenCursorReader)
    → IsInside r
    → len r < f + r.cursor.end
    → Ends (Moved r) (unmarshal_attr_value f r)
unfolding unmarshal_attr_value
unmarshal_attr_value-Ends zero r i h = absurd (omega arith)
unmarshal_attr_value-Ends (suc f) r i h = Ends-bind (byte r) _ _ (byte-Ends r) λ (x, q) (e, fits).
    let q' : TokenCursorReader = (if x == equals then q else backward q) in
    let at_least : (q'.source ≡ r.source)
        × (r.cursor.end ≤ q'.cursor.end)
        × (q'.cursor.end < len r + 1) =
      ground arith in
    Ends-bind (byte q') _ _ (byte-Ends q') λ (y, s) (e', fits').
      let step : (s.source ≡ r.source) × (r.cursor.end < s.cursor.end) × (s.cursor.end ≤ len r) =
        ground arith in
      let from_step : (t : TokenCursorReader) → Moved s t → Moved r t = λ t m. ground (arith, m) in
      Ends-if (y == r_bracket) _ _ _ (λ _. ground arith)
        (λ _.
          Ends-if (is_quote y) _ _ _
            (λ _.
              Ends-weaken _ _
                (scan_until-Ends (set_start s.cursor.end s) (λ symbol. symbol == y) (ground arith))
                (λ t m. from_step t (ground (arith, m))))
            (λ _.
              Ends-weaken _ _ (unmarshal_attr_value-Ends f s (ground arith) (ground arith))
                from_step))

-- What a round leaves: the same tag, with the cursor at or behind its place.
abbrev Grows : TokenCursorReader → TokenCursorReader → Type 0
Grows r q = (q.source ≡ r.source) × (r.cursor.end ≤ q.cursor.end) × (q.cursor.end ≤ len r)

unmarshal_pair-Ends :
    (symbol : ℕ) (r : TokenCursorReader) (attr : StringMap Bytes)
    → IsInside r
    → Ends (λ p. Grows r p.0) (unmarshal_pair symbol r attr)
unfolding unmarshal_pair unmarshal_attr_key
unmarshal_pair-Ends symbol r attr i =
    let r₁ : TokenCursorReader =
      (if symbol == space then set_start (r.cursor.start + 1) r else r) in
    let same : (r₁.source ≡ r.source) × (r₁.cursor.end ≡ r.cursor.end) = ground arith in
    Ends-bind (scan_until ends_key r₁) _ _ (scan_until-Ends r₁ ends_key (ground arith)) λ r₂ m₂.
      Ends-bind (lexeme r₂) _ _ (lexeme-Ends r₂) λ key _.
        let r₃ : TokenCursorReader = set_start r₂.cursor.end r₂ in
        Ends-bind (unmarshal_attr_value (len r₂ + 1) r₃) _ _
          (unmarshal_attr_value-Ends (len r₂ + 1) r₃ (ground arith) (ground arith))
          λ r₄ m₄.
            Ends-bind (lexeme r₄) _ _ (lexeme-Ends r₄) λ value _.
              Ends-bind (byte r₄) _ _ (byte-Ends r₄) λ (quote, r₅) (e, fits). ground arith

unmarshal_attr-Ends :
    (f : ℕ) (r : TokenCursorReader) (attr : StringMap Bytes)
    → IsInside r
    → len r < f + r.cursor.end
    → Ends (λ _. Unit {0}) (unmarshal_attr f r attr)
unfolding unmarshal_attr
unmarshal_attr-Ends zero r attr i h = absurd (omega arith)
unmarshal_attr-Ends (suc f) r attr i h =
    Ends-bind (byte (set_start r.cursor.end r)) _ _ (byte-Ends (set_start r.cursor.end r))
      λ (symbol, q) (e, fits).
        let inside : (q.source ≡ r.source)
            × (q.cursor.end ≡ r.cursor.end + 1)
            × (q.cursor.end ≤ len r) =
          ground arith in
        Ends-if (symbol == r_bracket) _ _ _ (λ _. tt)
          (λ _.
            Ends-bind (unmarshal_pair symbol q attr) _ _
              (unmarshal_pair-Ends symbol q attr (ground arith))
              λ (s, attr') g. unmarshal_attr-Ends f s attr' (ground arith) (ground arith))

unmarshal_name-Ends :
    (r : TokenCursorReader) → IsInside r → Ends (λ p. Grows r p.1) (unmarshal_name r)
unfolding unmarshal_name
unmarshal_name-Ends r i =
    let r₁ : TokenCursorReader = set_start r.cursor.end r in
    Ends-bind (scan_until ends_name r₁) _ _ (scan_until-Ends r₁ ends_name i)
      λ r₂ m. Ends-bind (lexeme r₂) _ _ (lexeme-Ends r₂) λ name _. ground arith

pub unmarshal-Ends : (source : Bytes) → Ends (λ _. Unit {0}) (unmarshal source)
unfolding unmarshal
unmarshal-Ends source =
    let r : TokenCursorReader = new_token_cursor_reader source in
    Ends-bind (byte r) _ _ (byte-Ends r) λ (symbol, r₁) (e, fits).
      Ends-if (not (symbol == l_bracket)) _ _ _ (λ _. tt)
        (λ _.
          Ends-bind (unmarshal_name r₁) _ _ (unmarshal_name-Ends r₁ (ground arith)) λ (name, r₂) g.
            Ends-if (r₂.cursor.end == len r₂) _ _ _ (λ _. tt)
              (λ _.
                Ends-bind (unmarshal_attr (len r₂ + 1) r₂ []) _ _
                  (unmarshal_attr-Ends (len r₂ + 1) r₂ [] (ground arith) (ground arith)) λ _ _. tt))

-- The loops of `Unmarshal` end on every input: it returns, or it panics at a read past the end.
pub unmarshal_open-ne-timeout : (source : Bytes) → unmarshal source ≢ timeout
unmarshal_open-ne-timeout source = Ends-ne-timeout _ (unmarshal source) (unmarshal-Ends source)
