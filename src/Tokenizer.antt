-- ===== src/Tokenizer.antt =====
-- worker/pkg/parser/tokenizer.go: the buffer over the bytes of a reader, and `Next`. A reader is a
-- parameter. The loops run on fuel: a reader that returns no bytes and no error again and again keeps
-- them going.
pub mod Window
pub mod Reads
pub mod Lex
pub mod Scans
pub mod Tags
pub mod Tokens
pub mod Refines
pub mod Progress
pub mod Valid
pub mod Loops
pub mod Reachable
use news_tracker.Prelude.{
  ℕ, zero, suc, ◌+◌, ◌-◌, ◌*◌, ◌/◌, ◌%◌, ◌^◌, ◌≤◌, ◌<◌, String, Bool, true, false, not, ◌&&◌, ◌||◌,
  ◌≡◌, ◌≢◌, ◌↔◌, ◌⊎◌, refl, sym, ap, ◌∙◌, fun_ext, inl, inr, Option, some, none, List, [], ◌∷◌,
  ◌++◌, map, map-append, append_assoc, append-nil, Bytes, codes, length, length-append, get_elem?,
  get_elem?-append, get_elem?-some, get_elem?-none, take, drop, drop-length, take-length, ltb, leb,
  ◌==◌, ==_iff, ltb→lt, leb→le, eq_bytes, eq_bytes_iff, eq_bytes_refl, has_prefix, contains,
  replace_all, replace_from, StringMap, find, put, remove, find-put, find-remove, if◌then◌else◌,
  Bool-cases, Option-cases, Outcome, ok, panic, timeout, ◌>>=◌, Ends, Ends-bind, Ends-if,
  Ends-weaken, Ends-ne-timeout, Returns, Returns-bind, arith,
}
use news_tracker.Token.Reader.{Cursor, slice, l_bracket, r_bracket, slash, space}
use news_tracker.Token.OpenTag.{OpenTag}
use news_tracker.Token.OpenTag
use news_tracker.Token.CloseTag.{CloseTag}
use news_tracker.Token.CloseTag
use news_tracker.Parse.{Token, open_tag, close_tag, text, comment, skip}

pub data ReadError : Type 0 where
  eof : ReadError
  read_failed : ReadError

-- An io.Reader: `read n` is `Read` with a buffer of `n` bytes, and returns the bytes that it wrote.
pub record IoReader : Type 1 where
  pub State : Type 0
  pub read : ℕ → State → Bytes × Option ReadError × State
  pub read_within : (n : ℕ) (s : State) → length (read n s).0 ≤ n

pub data TokenType : Type 0 where
  error_token : TokenType
  skip_token : TokenType
  text_token : TokenType
  open_tag_token : TokenType
  close_tag_token : TokenType
  self_closing_tag_token : TokenType
  comment_token : TokenType
  doctype_token : TokenType

pub data ParserState : Type 0 where
  normal : ParserState
  script_content : ParserState

abbrev pub is_letter : ℕ → Bool
is_letter c = leb b'a' c && leb c b'z' || leb b'A' c && leb c b'Z'

abbrev pub is_comment : ℕ → Bool
is_comment c = c == b'!' || c == b'?'

-- The symbols that make a token of a '<' in front of them.
abbrev pub starts_token : ℕ → Bool
starts_token c = is_letter c || c == slash || is_comment c

-- `buf` are the bytes up to the slice's length; `capacity` is `cap(tok.buf)`.
pub record Tokenizer (source : IoReader) : Type 0 where
  pub state_of_source : source.State
  pub buf : Bytes
  pub capacity : ℕ
  pub err : Option ReadError
  pub reader : Cursor
  pub lexeme : Cursor
  pub tt : TokenType
  pub state : ParserState

abbrev pub state_after : OpenTag → ParserState → ParserState
state_after tag state = if eq_bytes tag.name (codes "script") then script_content else state

-- The capacity of the next buffer.
abbrev pub grown : ℕ → ℕ → ℕ
grown capacity num_elems = if ltb capacity (2 * num_elems) then 2 * capacity else capacity

module _ (source : IoReader) where
  abbrev pub new_tokenizer : source.State → Tokenizer source
  new_tokenizer s = record {
    state_of_source = s;
    buf = [];
    capacity = 24;
    err = none;
    reader = record { start = 0; end = 0 };
    lexeme = record { start = 0; end = 0 };
    tt = error_token;
    state = normal;
  }

  abbrev pub has_err : Tokenizer source → Bool
  has_err t = elim t.err [ none ↦ false | some _ ↦ true ]

  -- The buffer that `GetBuffer` returns, and its capacity.
  unfoldable pub get_buffer : Tokenizer source → Outcome (Bytes × ℕ)
  unfolding slice
  get_buffer t = do
    window ← slice t.buf t.reader.start t.reader.end
    let num_elems = t.reader.end - t.reader.start
    ok (window, grown t.capacity num_elems)

  -- The window is moved to the front. `lexeme` lies in the window, so no subtraction falls below 0.
  abbrev pub move_window : Bytes → ℕ → Tokenizer source → Tokenizer source
  move_window window capacity t = record t {
    buf = window;
    capacity = capacity;
    reader = record { start = 0; end = t.reader.end - t.reader.start };
    lexeme = record {
      start = t.lexeme.start - t.reader.start;
      end = t.lexeme.end - t.reader.start;
    };
  }

  -- What `Read` wrote stands behind the window.
  abbrev pub add_bytes :
      Bytes × Option ReadError × source.State → Tokenizer source → Tokenizer source
  add_bytes r t = record t { buf = t.buf ++ r.0; err = r.1; state_of_source = r.2 }

  unfoldable pub read_more : Tokenizer source → Outcome (Tokenizer source)
  unfolding get_buffer
  read_more t = do
    (window, capacity) ← get_buffer t
    let t' = move_window window capacity t
    ok (add_bytes (source.read (capacity - length window) t.state_of_source) t')

  unfoldable pub take_byte : Tokenizer source → Outcome (ℕ × Tokenizer source)
  take_byte t = elim (get_elem? t.buf t.reader.end) [
    | none ↦ panic
    | some b ↦ ok (b, record t { reader = record t.reader { end = t.reader.end + 1 } })
  ]

  -- With no byte from `Read` the length of the buffer is still that of the window.
  unfoldable pub read_byte : Tokenizer source → Outcome (ℕ × Tokenizer source)
  unfolding read_more take_byte
  read_byte t =
      if leb (length t.buf) t.reader.end
      then (if has_err t then ok (0, t) else do
        t' ← read_more t
        if leb (length t'.buf) t'.reader.end then ok (0, t') else take_byte t')
      else take_byte t

  -- The loop of `tag`; `readUntilCloseBracket` has the same one, and sets the end on an error too.
  unfoldable pub tag_loop : ℕ → Tokenizer source → Outcome (Tokenizer source)
  tag_loop zero t = timeout
  tag_loop (suc f) t = do
    (symbol, t) ← read_byte t
    let more = tag_loop f t
    if has_err t
        then ok t
        else if symbol == r_bracket
        then ok (record t { lexeme = record t.lexeme { end = t.reader.end } })
        else more

  unfoldable pub tag : ℕ → Tokenizer source → Outcome (Tokenizer source)
  unfolding tag_loop
  tag fuel t =
      tag_loop fuel (record t { lexeme = record { start = t.reader.end - 2; end = t.reader.end } })

  unfoldable pub bracket_loop : ℕ → Tokenizer source → Outcome (Tokenizer source)
  bracket_loop zero t = timeout
  bracket_loop (suc f) t = do
    (symbol, t) ← read_byte t
    let more = bracket_loop f t
    let done = ok (record t { lexeme = record t.lexeme { end = t.reader.end } })
    if has_err t then done else if symbol == r_bracket then done else more

  unfoldable pub read_until_close_bracket : ℕ → Tokenizer source → Outcome (Tokenizer source)
  unfolding bracket_loop
  read_until_close_bracket fuel t =
      bracket_loop fuel (record t { lexeme = record t.lexeme { start = t.reader.end } })

  -- The loop of `Next` up to a symbol that starts a token behind a '<'; `none` is an error.
  unfoldable pub next_symbol : ℕ → Tokenizer source → Outcome (Option ℕ × Tokenizer source)
  next_symbol zero t = timeout
  next_symbol (suc f) t = do
    (symbol, t) ← read_byte t
    let more = next_symbol f t
    let ahead = read_byte t >>= λ p.
        let again =
          next_symbol f (record p.1 { reader = record p.1.reader { end = p.1.reader.end - 1 } }) in
        if has_err p.1
        then ok (none, p.1)
        else if starts_token p.0
        then ok (some p.0, p.1)
        else again
    if has_err t then ok (none, t) else if symbol == l_bracket then ahead else more

  abbrev pub set_tt : TokenType → Tokenizer source → Tokenizer source
  set_tt tt t = record t { tt = tt }

  unfoldable pub bytes_of : Tokenizer source → Outcome Bytes
  bytes_of t = slice t.buf t.lexeme.start t.lexeme.end

  unfoldable pub text_of : Tokenizer source → Outcome (Token × Tokenizer source)
  text_of t = do
    let x = t.reader.end - 2
    let t' = record t {
      reader = record t.reader { end = x };
      lexeme = record t.lexeme { end = x };
      tt = text_token;
    }
    bytes ← bytes_of t'
    ok (text bytes, t')

  -- Neither `tt` is set for a comment.
  unfoldable pub comment_of : ℕ → Tokenizer source → Outcome (Token × Tokenizer source)
  comment_of fuel t = do
    t ←
        read_until_close_bracket fuel
          (record t { reader = record t.reader { end = t.reader.end - 2 } })
    bytes ← bytes_of t
    ok (comment bytes, t)

  unfoldable pub open_of : ℕ → Tokenizer source → Outcome (Token × Tokenizer source)
  open_of fuel t = do
    t ← tag fuel t
    bytes ← bytes_of t
    (tag, err) ← OpenTag.unmarshal bytes
    ok (open_tag tag, record t { state = state_after tag t.state; tt = open_tag_token })

  unfoldable pub close_of : ℕ → Tokenizer source → Outcome (Token × Tokenizer source)
  close_of fuel t = do
    t ← tag fuel t
    if has_err t then ok (skip, set_tt error_token t) else do
      bytes ← bytes_of t
      (tag, err) ← CloseTag.unmarshal bytes
      ok (close_tag tag, record t { state = normal; tt = close_tag_token })

  -- An opening tag inside a script is passed over up to its first letter.
  abbrev pub open_in : ParserState → ℕ → Tokenizer source → Outcome (Token × Tokenizer source)
  open_in normal fuel t = open_of fuel t
  open_in script_content fuel t = ok (skip, set_tt skip_token t)

  -- `Next` behind the symbol: a comment drops the text in front of it.
  unfoldable pub token_of : ℕ → Option ℕ → Tokenizer source → Outcome (Token × Tokenizer source)
  token_of fuel none t = ok (skip, set_tt error_token t)
  token_of fuel (some symbol) t =
      if is_comment symbol
      then comment_of fuel t
      else if ltb t.reader.start (t.reader.end - 2)
      then text_of t
      else if symbol == slash
      then close_of fuel t
      else open_in t.state fuel t

  -- A bare token type is `skip`.
  unfoldable pub next : ℕ → Tokenizer source → Outcome (Token × Tokenizer source)
  next fuel t =
      let t' = record t {
        reader = record t.reader { start = t.reader.end };
        lexeme = record { start = t.reader.end; end = t.reader.end };
      } in
      if has_err t'
      then ok (skip, set_tt error_token t')
      else do (symbol, t) ← next_symbol fuel t'; token_of fuel symbol t
