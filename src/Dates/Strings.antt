-- ===== src/Dates/Strings.antt =====
-- The parts of `strings` and `strconv` that dates are read with.
use news_tracker.Prelude.{
  ℕ, zero, suc, ◌+◌, ◌-◌, ◌*◌, ◌/◌, ◌%◌, String, ◌&&◌, ◌||◌, Option, some, none, List, [], ◌∷◌,
  ◌++◌, Bytes, ltb, leb, ◌==◌, if◌then◌else◌,
}
use Prim.Native.Char.{code}
use Prim.Native.String.{String}
use news_tracker.Prelude.Int.{ℤ, pos, negsuc, int_half}

-- The bytes of a literal, whose characters are below U+0800.
abbrev pub utf8 : String → Bytes
utf8 String.[] = []
utf8 (String.◌∷◌ c s) =
    if ltb (code c) 128 then code c ∷ utf8 s else (192 + code c / 64) ∷ (128 + code c % 64) ∷ utf8 s

abbrev pub onto_first : ℕ → List Bytes → List Bytes
onto_first b [] = (b ∷ []) ∷ []
onto_first b (w ∷ ws) = (b ∷ w) ∷ ws

-- strings.Split, by one byte.
unfoldable pub split : Bytes → ℕ → List Bytes
split [] sep = [] ∷ []
split (b ∷ s) sep = if b == sep then [] ∷ split s sep else onto_first b (split s sep)

-- The number of bytes of the white space that a string begins with, as unicode.IsSpace has it.
abbrev pub space_width : Bytes → ℕ
space_width (b ∷ c ∷ d ∷ s) =
    if b == 32 || leb 9 b && leb b 13
    then 1
    else if b == 194 && (c == 133 || c == 160)
    then 2
    else if b == 225 && c == 154 && d == 128
    then 3
    else if b == 226 && c == 128 && (leb 128 d && leb d 138 || d == 168 || d == 169 || d == 175)
    then 3
    else if b == 226 && c == 129 && d == 159
    then 3
    else if b == 227 && c == 128 && d == 128
    then 3
    else 0
space_width (b ∷ c ∷ []) =
    if b == 32 || leb 9 b && leb b 13
    then 1
    else if b == 194 && (c == 133 || c == 160)
    then 2
    else 0
space_width (b ∷ []) = if b == 32 || leb 9 b && leb b 13 then 1 else 0
space_width [] = 0

abbrev pub unless_empty : Bytes → List Bytes → List Bytes
unless_empty [] ws = ws
unless_empty (b ∷ w) ws = (b ∷ w) ∷ ws

-- `word` is the word that is being read, `skip` the bytes of a space still to be passed over.
unfoldable pub fields_from : Bytes → ℕ → Bytes → List Bytes
fields_from word skip [] = unless_empty word []
fields_from word (suc k) (b ∷ s) = fields_from word k s
fields_from word zero (b ∷ s) =
    let n = space_width (b ∷ s) in
    if n == 0
    then fields_from (word ++ b ∷ []) zero s
    else unless_empty word (fields_from [] (n - 1) s)

-- strings.Fields
unfoldable pub fields : Bytes → List Bytes
fields s = fields_from [] 0 s

unfoldable pub digits_value : ℕ → Bytes → Option ℕ
digits_value n [] = some n
digits_value n (b ∷ s) =
    if leb b'0' b && leb b b'9' then digits_value (n * 10 + (b - b'0')) s else none

abbrev pub in_range : ℕ → (ℕ → ℤ) → Option ℕ → Option ℤ
in_range limit sign none = none
in_range limit sign (some n) = if leb n limit then some (sign n) else none

abbrev pub negate : ℕ → ℤ
negate zero = pos 0
negate (suc n) = negsuc n

abbrev pub non_empty : Bytes → Option ℕ
non_empty [] = none
non_empty (b ∷ s) = digits_value 0 (b ∷ s)

-- strconv.Atoi; an error is `none`.
unfoldable pub atoi : Bytes → Option ℤ
unfolding digits_value
atoi [] = none
atoi (b ∷ s) =
    if b == b'-'
    then in_range int_half negate (non_empty s)
    else if b == b'+'
    then in_range (int_half - 1) pos (non_empty s)
    else in_range (int_half - 1) pos (non_empty (b ∷ s))
