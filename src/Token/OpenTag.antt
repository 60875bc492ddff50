-- ===== src/Token/OpenTag.antt =====
-- token/token_open_tag.go. The cursor only grows over a round of each loop, so one round for each
-- byte of the tag is enough (OpenTag/Total).
pub mod Total
pub mod Pairs
pub mod RoundTrip
pub mod Cut
use news_tracker.Prelude.{
  ℕ, zero, suc, ◌+◌, ◌-◌, ◌*◌, ◌%◌, ◌^◌, ◌≤◌, ◌<◌, String, Bool, true, false, not, ◌&&◌, ◌||◌, ◌≡◌,
  ◌≢◌, ◌↔◌, ◌⊎◌, refl, sym, ap, ◌∙◌, fun_ext, inl, inr, Option, some, none, List, [], ◌∷◌, ◌++◌,
  map, append_assoc, append-nil, Bytes, codes, length, length-append, get_elem?, get_elem?-append,
  get_elem?-some, get_elem?-none, take, drop, drop-length, take-length, ltb, leb, ◌==◌, ==_iff,
  ltb→lt, leb→le, eq_bytes, eq_bytes_iff, eq_bytes_refl, has_prefix, contains, replace_all,
  replace_from, StringMap, find, put, remove, find-put, find-remove, if◌then◌else◌, Bool-cases,
  Option-cases, Outcome, ok, panic, timeout, ◌>>=◌, arith,
}
use news_tracker.Token.Reader.{
  TokenCursorReader, byte, lexeme, backward, len, new_token_cursor_reader, set_start, scan_until,
  l_bracket, r_bracket, slash, space, new_line, c_return, tab, form_feed, equals, single_quote,
  double_quote,
}
use news_tracker.Token.Utils.{remove_new_line}

-- A nil `Attr` is `none`.
pub record OpenTag : Type 0 where
  pub name : Bytes
  pub attr : Option (StringMap Bytes)

pub data Error : Type 0 where
  missing_left_bracket : Error

abbrev pub is_blank : ℕ → Bool
is_blank c = c == space || c == new_line || c == c_return || c == tab || c == form_feed

abbrev pub ends_name : ℕ → Bool
ends_name c = c == slash || c == r_bracket || is_blank c

abbrev pub ends_key : ℕ → Bool
ends_key c = is_blank c || c == slash || c == equals || c == r_bracket

abbrev pub is_quote : ℕ → Bool
is_quote c = c == single_quote || c == double_quote

unfoldable pub unmarshal_attr_key : TokenCursorReader → Outcome TokenCursorReader
unmarshal_attr_key r = scan_until ends_key r

unfoldable pub unmarshal_attr_value : ℕ → TokenCursorReader → Outcome TokenCursorReader
unmarshal_attr_value zero r = timeout
unmarshal_attr_value (suc f) r = do
  (symbol, r) ← byte r
  let r = if symbol == equals then r else backward r
  (quote, r) ← byte r
  let again = unmarshal_attr_value f r
  if quote == r_bracket
      then ok (backward r)
      else if is_quote quote
      then scan_until (λ symbol. symbol == quote) (set_start r.cursor.end r)
      else again

-- One round of `unmarshalAttr` behind the test on '>': the key, the value, and the closing quote.
unfoldable pub unmarshal_pair :
    ℕ → TokenCursorReader → StringMap Bytes → Outcome (TokenCursorReader × StringMap Bytes)
unmarshal_pair symbol r attr = do
  let r = if symbol == space then set_start (r.cursor.start + 1) r else r
  r ← unmarshal_attr_key r
  key ← lexeme r
  let attr_key = remove_new_line key
  r ← unmarshal_attr_value (len r + 1) (set_start r.cursor.end r)
  value ← lexeme r
  let attr_value = remove_new_line value
  (quote, r) ← byte r
  let r = if is_quote quote then r else backward r
  let skips = eq_bytes attr_key [] || eq_bytes attr_value []
  ok (r, if skips then attr else put attr_key attr_value attr)

unfoldable pub unmarshal_attr : ℕ → TokenCursorReader → StringMap Bytes → Outcome (StringMap Bytes)
unmarshal_attr zero r attr = timeout
unmarshal_attr (suc f) r attr = do
  (symbol, r) ← byte (set_start r.cursor.end r)
  let more = unmarshal_pair symbol r attr >>= λ p. unmarshal_attr f p.0 p.1
  if symbol == r_bracket then ok attr else more

unfoldable pub unmarshal_name : TokenCursorReader → Outcome (Bytes × TokenCursorReader)
unmarshal_name r = do
  r ← scan_until ends_name (set_start r.cursor.end r)
  name ← lexeme r
  ok (name, r)

unfoldable pub unmarshal : Bytes → Outcome (OpenTag × Option Error)
unmarshal source = do
  (symbol, r) ← byte (new_token_cursor_reader source)
  if not (symbol == l_bracket)
      then ok (record { name = []; attr = none }, some missing_left_bracket)
      else do
        (name, r) ← unmarshal_name r
        if r.cursor.end == len r then ok (record { name = name; attr = none }, none) else do
          attr ← unmarshal_attr (len r + 1) r []
          ok (record { name = name; attr = some attr }, none)
