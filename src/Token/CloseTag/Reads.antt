-- ===== src/Token/CloseTag/Reads.antt =====
-- What `Unmarshal` of a closing tag does on every input that begins with `</`.
use news_tracker.Prelude.{
  ℕ, ◌+◌, ◌≤◌, Bool, not, ◌≡◌, ◌≢◌, refl, none, [], ◌∷◌, ◌++◌, Bytes, length, ◌==◌, ok, timeout,
  Ends, Ends-bind, Ends-if, Ends-ne-timeout, arith,
}
use news_tracker.Token.Reader.{
  TokenCursorReader, byte, lexeme, new_token_cursor_reader, scan_until, set_start, set_end, len,
  l_bracket, r_bracket, slash,
}
use news_tracker.Token.Reader.Scan.{
  byte-Ends, lexeme-Ends, scan_until-Ends, byte_front, Avoids, scan_until-Avoids, lexeme-append,
}
use news_tracker.Token.CloseTag.{unmarshal_name, unmarshal}

abbrev pub is_r_bracket : ℕ → Bool
is_r_bracket c = c == r_bracket

-- The name is what stands between `</` and the first `>`, blanks included; nothing behind is read.
pub unmarshal-close :
    (name rest : Bytes)
    → Avoids is_r_bracket name
    → unmarshal (l_bracket ∷ slash ∷ (name ++ r_bracket ∷ rest)) ≡ ok (record { name = name }, none)
unfolding unmarshal unmarshal_name
unmarshal-close name rest a =
    let r : TokenCursorReader =
      new_token_cursor_reader (l_bracket ∷ slash ∷ (name ++ r_bracket ∷ rest)) in
    let r₁ : TokenCursorReader = set_end (0 + 1) r in
    let r₂ : TokenCursorReader = set_start 2 (set_end 2 r) in
    let pre : Bytes = l_bracket ∷ slash ∷ [] in
    rw (
      byte_front r [] l_bracket _ refl refl,
      byte_front r₁ (l_bracket ∷ []) slash _ refl refl,
      scan_until-Avoids is_r_bracket r_bracket rest refl name pre r₂ refl refl a,
      lexeme-append (set_end (2 + length name) r₂) pre name _ refl refl refl,
    )

unmarshal_name-Ends :
    (r : TokenCursorReader) → r.cursor.end ≤ len r → Ends (λ _. Unit {0}) (unmarshal_name r)
unfolding unmarshal_name
unmarshal_name-Ends r i =
    let r₁ : TokenCursorReader = set_start r.cursor.end r in
    Ends-bind (scan_until is_r_bracket r₁) _ _ (scan_until-Ends r₁ is_r_bracket i)
      λ r₂ m. Ends-bind (lexeme r₂) _ _ (lexeme-Ends r₂) λ name _. tt

pub unmarshal-Ends : (source : Bytes) → Ends (λ _. Unit {0}) (unmarshal source)
unfolding unmarshal
unmarshal-Ends source =
    let r : TokenCursorReader = new_token_cursor_reader source in
    Ends-bind (byte r) _ _ (byte-Ends r) λ (symbol, r₁) (e, fits).
      Ends-if (not (symbol == l_bracket)) _ _ _ (λ _. tt)
        (λ _. Ends-bind (byte r₁) _ _ (byte-Ends r₁) λ (symbol', r₂) (e', fits').
          Ends-if (not (symbol' == slash)) _ _ _ (λ _. tt)
            (λ _.
              Ends-bind (unmarshal_name r₂) _ _ (unmarshal_name-Ends r₂ (ground arith)) λ _ _. tt))

-- `Unmarshal` ends on every input: it returns, or it panics at a read past the end.
pub unmarshal_close-ne-timeout : (source : Bytes) → unmarshal source ≢ timeout
unmarshal_close-ne-timeout source = Ends-ne-timeout _ (unmarshal source) (unmarshal-Ends source)
