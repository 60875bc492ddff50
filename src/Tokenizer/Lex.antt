-- ===== src/Tokenizer/Lex.antt =====
-- What `Next` returns, by the bytes that are to come alone: no buffer and no reader.
use news_tracker.Prelude.{
  ℕ, ◌&&◌, Option, some, none, [], ◌∷◌, Bytes, ◌==◌, if◌then◌else◌, Outcome, ok, ◌>>=◌,
}
use news_tracker.Token.Reader.{l_bracket, r_bracket, slash}
use news_tracker.Token.OpenTag
use news_tracker.Token.CloseTag
use news_tracker.Parse.{Token, open_tag, close_tag, text, comment, skip}
use news_tracker.Tokenizer.{
  ParserState, normal, script_content, starts_token, is_comment, state_after,
}

-- The text in front of the first '<' that starts a token, the symbol behind that '<', and the rest.
abbrev pub Found : Type 0
Found = Bytes × ℕ × Bytes

abbrev pub behind : ℕ → Option Found → Option Found
behind b none = none
behind b (some (front, c, after)) = some (b ∷ front, c, after)

unfoldable pub find_tag : Bytes → Option Found
find_tag [] = none
find_tag (b ∷ []) = none
find_tag (b ∷ c ∷ s) =
    let later = behind b (find_tag (c ∷ s)) in
    if b == l_bracket && starts_token c then some ([], c, s) else later

-- Up to the first '>', that one included, and the rest.
abbrev pub in_front : ℕ → Option (Bytes × Bytes) → Option (Bytes × Bytes)
in_front b none = none
in_front b (some (inside, rest)) = some (b ∷ inside, rest)

unfoldable pub upto_bracket : Bytes → Option (Bytes × Bytes)
upto_bracket [] = none
upto_bracket (b ∷ s) =
    let later = in_front b (upto_bracket s) in if b == r_bracket then some (b ∷ [], s) else later

-- The token, the state and the bytes behind it; `none` where the bytes end first.
abbrev pub Lexed : Type 0
Lexed = Outcome (Option (Token × ParserState × Bytes))

abbrev pub lex_comment : ParserState → Option (Bytes × Bytes) → Lexed
lex_comment st none = ok none
lex_comment st (some (inside, rest)) = ok (some (comment inside, st, rest))

abbrev pub lex_close : ℕ → Option (Bytes × Bytes) → Lexed
lex_close c none = ok none
lex_close c (some (inside, rest)) =
    CloseTag.unmarshal (l_bracket ∷ c ∷ inside) >>= λ p. ok (some (close_tag p.0, normal, rest))

-- A tag that the bytes cut off is read up to its first letter.
abbrev pub lex_open : ParserState → ℕ → Option (Bytes × Bytes) → Lexed
lex_open st c none = OpenTag.unmarshal (l_bracket ∷ c ∷ []) >>= λ p. ok none
lex_open st c (some (inside, rest)) = OpenTag.unmarshal (l_bracket ∷ c ∷ inside) >>= λ p.
    ok (some (open_tag p.0, state_after p.0 st, rest))

abbrev pub lex_open_in : ParserState → ℕ → Bytes → Lexed
lex_open_in normal c after = lex_open normal c (upto_bracket after)
lex_open_in script_content c after = ok (some (skip, script_content, after))

abbrev pub lex_tag : ParserState → Bytes → ℕ → Bytes → Lexed
lex_tag st (b ∷ front) c after = ok (some (text (b ∷ front), st, l_bracket ∷ c ∷ after))
lex_tag st [] c after =
    if c == slash then lex_close c (upto_bracket after) else lex_open_in st c after

abbrev pub lex_found : ParserState → Option Found → Lexed
lex_found st none = ok none
lex_found st (some (front, c, after)) =
    if is_comment c
    then lex_comment st (upto_bracket (l_bracket ∷ c ∷ after))
    else lex_tag st front c after

unfoldable pub lex_next : ParserState → Bytes → Lexed
unfolding find_tag upto_bracket
lex_next st bytes = lex_found st (find_tag bytes)
