-- ===== src/Token/CloseTag.antt =====
-- token/token_close_tag.go
pub mod Reads
use news_tracker.Prelude.{
  ℕ, zero, suc, ◌+◌, ◌-◌, ◌*◌, ◌%◌, ◌^◌, ◌≤◌, ◌<◌, String, Bool, true, false, not, ◌&&◌, ◌||◌, ◌≡◌,
  ◌≢◌, ◌↔◌, ◌⊎◌, refl, sym, ap, ◌∙◌, fun_ext, inl, inr, Option, some, none, List, [], ◌∷◌, ◌++◌,
  map, append_assoc, append-nil, Bytes, codes, length, length-append, get_elem?, get_elem?-append,
  get_elem?-some, get_elem?-none, take, drop, drop-length, take-length, ltb, leb, ◌==◌, ==_iff,
  ltb→lt, leb→le, eq_bytes, eq_bytes_iff, eq_bytes_refl, has_prefix, contains, replace_all,
  StringMap, find, put, remove, find-put, find-remove, if◌then◌else◌, Bool-cases, Option-cases,
  Outcome, ok, panic, timeout, ◌>>=◌, arith,
}
use news_tracker.Token.Reader.{
  TokenCursorReader, byte, lexeme, new_token_cursor_reader, set_start, scan_until, l_bracket,
  r_bracket, slash,
}

pub record CloseTag : Type 0 where
  pub name : Bytes

-- `Unmarshal` fills the tag through its pointer and may return an error with the tag left as it is.
pub data Error : Type 0 where
  missing_left_bracket : Error

unfoldable pub unmarshal_name : TokenCursorReader → Outcome (Bytes × TokenCursorReader)
unmarshal_name r = do
  r ← scan_until (λ symbol. symbol == r_bracket) (set_start r.cursor.end r)
  name ← lexeme r
  ok (name, r)

unfoldable pub unmarshal : Bytes → Outcome (CloseTag × Option Error)
unmarshal source = do
  (symbol, r) ← byte (new_token_cursor_reader source)
  if not (symbol == l_bracket) then ok (record { name = [] }, some missing_left_bracket) else do
    (symbol, r) ← byte r
    if not (symbol == slash)
        then ok (record { name = [] }, some missing_left_bracket)
        else do (name, r) ← unmarshal_name r; ok (record { name = name }, none)
