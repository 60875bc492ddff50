-- ===== src/Token/Reader.antt =====
-- token/types.go and token/readers.go: `TokenCursorReader`, a cursor over the bytes of one tag.
pub mod Scan
use news_tracker.Prelude.{
  ℕ, zero, suc, ◌+◌, ◌-◌, Bool, true, false, ◌&&◌, ◌||◌, Option, none, some, List, [], ◌∷◌, Bytes,
  length, get_elem?, take, drop, ltb, leb, ◌==◌, if◌then◌else◌, Outcome, ok, panic, timeout, ◌>>=◌,
}

pub record Cursor : Type 0 where
  pub start : ℕ
  pub end : ℕ

abbrev pub l_bracket : ℕ
l_bracket = b'<'

abbrev pub r_bracket : ℕ
r_bracket = b'>'

abbrev pub slash : ℕ
slash = b'/'

abbrev pub space : ℕ
space = b' '

abbrev pub new_line : ℕ
new_line = 10

abbrev pub c_return : ℕ
c_return = 13

abbrev pub tab : ℕ
tab = 9

abbrev pub form_feed : ℕ
form_feed = 12

abbrev pub equals : ℕ
equals = b'='

abbrev pub single_quote : ℕ
single_quote = 39

abbrev pub double_quote : ℕ
double_quote = 34

pub record TokenCursorReader : Type 0 where
  pub source : Bytes
  pub cursor : Cursor
  pub cursor_end_err : Bool

-- Indexing past the slice panics before the test on the cursor is reached.
unfoldable pub byte : TokenCursorReader → Outcome (ℕ × TokenCursorReader)
byte r = elim (get_elem? r.source r.cursor.end) [
  | none ↦ panic
  | some symbol ↦
      if ltb (length r.source) r.cursor.end
      then ok (
        symbol,
        record r { cursor = record r.cursor { end = length r.source - 1 }; cursor_end_err = true },
      )
      else ok (symbol, record r { cursor = record r.cursor { end = r.cursor.end + 1 } })
]

-- The slice expression `xs[lo:hi]`.
unfoldable pub slice : Bytes → ℕ → ℕ → Outcome Bytes
slice xs lo hi = if leb lo hi && leb hi (length xs) then ok (take (hi - lo) (drop lo xs)) else panic

-- `Data`
unfoldable pub lexeme : TokenCursorReader → Outcome Bytes
lexeme r = slice r.source r.cursor.start r.cursor.end

-- Every call follows a successful `byte`, so the cursor is not at 0.
abbrev pub backward : TokenCursorReader → TokenCursorReader
backward r = record r { cursor = record r.cursor { end = r.cursor.end - 1 } }

abbrev pub len : TokenCursorReader → ℕ
len r = length r.source

abbrev pub set_start : ℕ → TokenCursorReader → TokenCursorReader
set_start n r = record r { cursor = record r.cursor { start = n } }

abbrev pub set_end : ℕ → TokenCursorReader → TokenCursorReader
set_end n r = record r { cursor = record r.cursor { end = n } }

abbrev pub new_token_cursor_reader : Bytes → TokenCursorReader
new_token_cursor_reader xs = record {
  source = xs;
  cursor = record { start = 0; end = 0 };
  cursor_end_err = false;
}

-- `for { if stops(Byte()) { Backward(); return } }`: the loop of each function that reads up to a
-- delimiter and leaves the cursor in front of it.
unfoldable pub scan : ℕ → (ℕ → Bool) → TokenCursorReader → Outcome TokenCursorReader
scan zero stops r = timeout
scan (suc f) stops r = do
  (symbol, r') ← byte r
  let rest = scan f stops r'
  if stops symbol then ok (backward r') else rest

-- One round for each byte left, and one for the delimiter.
unfoldable pub scan_until : (ℕ → Bool) → TokenCursorReader → Outcome TokenCursorReader
scan_until stops r = scan (len r + 1) stops r
