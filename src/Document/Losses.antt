-- ===== src/Document/Losses.antt =====
-- Documents that the loop cannot finish, and readers that it does not hear out.
use news_tracker.Prelude.{
  ℕ, suc, ◌+◌, ◌-◌, ◌<◌, true, false, ◌≡◌, refl, ◌∙◌, Option, some, none, List, [], ◌∷◌, ◌++◌, map,
  Bytes, length, leb, ok, panic, arith,
}
use news_tracker.Token.Reader.{l_bracket}
use news_tracker.Token.Reader.Scan.{Avoids}
use news_tracker.Token.OpenTag.{ends_name}
use news_tracker.Token.OpenTag.Cut.{unmarshal-cut_name}
use news_tracker.Token.CloseTag.Reads.{is_r_bracket}
use news_tracker.Tokenizer.{
  ReadError, IoReader, Tokenizer, normal, new_tokenizer, move_window, add_bytes, is_letter, has_err,
  read_more, read_byte, next_symbol, token_of, next, get_buffer, take_byte,
}
use news_tracker.Tokenizer.Window.{IsPolite}
use news_tracker.Tokenizer.Lex.{upto_bracket, lex_tag}
use news_tracker.Document.{parse, read_tokens}
use news_tracker.Document.Tokens.{lex, read_tokens-lex}
use news_tracker.Document.Selectors.{new_spec, new_listener, new_listener-Hear, parse-Parses}
use news_tracker.Document.Print.{is_l_bracket, Piece, print_pieces, tokens_of, ArePieces}
use news_tracker.Document.RoundTrip.{
  letter_starts, letter_plain, lex_next-tag, lex-print_pieces, rounds_for, rounds_for_lem,
}

letter_in_name : (c : ℕ) → is_letter c ≡ true → ends_name c ≡ false
letter_in_name c h = ground arith

upto_bracket-none : (bytes : Bytes) → Avoids is_r_bracket bytes → upto_bracket bytes ≡ none
unfolding upto_bracket
upto_bracket-none [] a = refl
upto_bracket-none (b ∷ s) (n, a) = rw (n, upto_bracket-none s a) refl

lex_tag-cut :
    (c : ℕ) (left : Bytes)
    → is_letter c ≡ true
    → Avoids is_r_bracket left
    → lex_tag normal [] c left ≡ panic
lex_tag-cut c left h a =
    rw
      (
        (letter_plain c h).1,
        upto_bracket-none left a,
        unmarshal-cut_name (c ∷ []) (letter_in_name c h, tt),
      )
      refl

lex-cut :
    (rounds : ℕ) (front : Bytes) (c : ℕ) (left : Bytes)
    → Avoids is_l_bracket front
    → is_letter c ≡ true
    → Avoids is_r_bracket left
    → lex (suc (suc rounds)) normal (front ++ l_bracket ∷ c ∷ left) ≡ panic
unfolding lex
lex-cut rounds [] c left a h n =
    rw (lex_next-tag [] c left a (letter_starts c h) (letter_plain c h).0, lex_tag-cut c left h n)
      refl
lex-cut rounds (b ∷ front) c left a h n =
    rw
      (
        lex_next-tag (b ∷ front) c left a (letter_starts c h) (letter_plain c h).0,
        lex_next-tag [] c left tt (letter_starts c h) (letter_plain c h).0,
        lex_tag-cut c left h n,
      )
      refl

lex-truncated :
    (ps : List Piece) (rounds : ℕ) (front : Bytes) (c : ℕ) (left : Bytes)
    → ArePieces ps
    → Avoids is_l_bracket front
    → is_letter c ≡ true
    → Avoids is_r_bracket left
    → length (tokens_of ps) + 1 < rounds
    → lex rounds normal (print_pieces ps (front ++ l_bracket ∷ c ∷ left)) ≡ panic
lex-truncated ps rounds front c left w a h n r =
    let more : rounds ≡ rounds_for (tokens_of ps) (suc (suc (rounds - length (tokens_of ps) - 2))) =
      omega
        (arith, rounds_for_lem (tokens_of ps) (suc (suc (rounds - length (tokens_of ps) - 2)))) in
    rw
      (
        more,
        lex-print_pieces ps (suc (suc (rounds - length (tokens_of ps) - 2)))
            (front ++ l_bracket ∷ c ∷ left) w,
        lex-cut (rounds - length (tokens_of ps) - 2) front c left a h n,
      )
      refl

-- A document on a polite reader that ends inside an opening tag without '>', behind any well-formed
-- written pieces and a text without '<': with enough rounds and fuel for its tokens and bytes
-- `Parse` panics, whatever the selectors are and however the reader cuts the bytes. Nothing
-- recovers it.
pub parse-truncated :
    (source : IoReader) (polite : IsPolite source) (selectors : List (List Bytes))
    (s : source.State) (ps : List Piece) (front : Bytes) (c : ℕ) (left : Bytes) (rounds fuel : ℕ)
    → polite.Holds s (print_pieces ps (front ++ l_bracket ∷ c ∷ left))
    → ArePieces ps
    → Avoids is_l_bracket front
    → is_letter c ≡ true
    → Avoids is_r_bracket left
    → length (tokens_of ps) + 1 < rounds
    → length (print_pieces ps (front ++ l_bracket ∷ c ∷ left)) < fuel
    → parse source rounds fuel (new_tokenizer source s) (map new_listener selectors) ≡ panic
parse-truncated source polite selectors s ps front c left rounds fuel h w a l n r f =
    rw (read_tokens-lex polite s _ rounds fuel h f ∙ lex-truncated ps rounds front c left w a l n r)
      at
      (parse-Parses source rounds fuel (new_tokenizer source s) (map new_spec selectors)
        (map new_listener selectors) (new_listener-Hear selectors))

module _ (source : IoReader) where
  -- A new tokenizer behind its first Read.
  abbrev moved : source.State → Bytes × Option ReadError × source.State → Tokenizer source
  moved s r = add_bytes source r (move_window source [] 24 (new_tokenizer source s))

  -- The first byte of a new tokenizer, by what the reader gives.
  first_byte :
      (s : source.State) (r : Bytes × Option ReadError × source.State) (e : ReadError)
      → source.read 24 s ≡ r
      → r.1 ≡ some e
      → (b : ℕ) × (t : Tokenizer source) × (read_byte source (new_tokenizer source s) ≡ ok (b, t))
        × (t.err ≡ some e)
  unfolding read_byte read_more take_byte get_buffer
  first_byte s ([], err, s') e h f = (0, moved s ([], err, s'), rw h refl, f)
  first_byte s (b ∷ bs, err, s') e h f =
      let more : leb (suc (length bs)) 0 ≡ false = ground arith in
      (
        b,
        record (moved s (b ∷ bs, err, s')) { reader = record { start = 0; end = 1 } },
        rw (h, more, h) refl,
        f,
      )

  -- A reader that reports an error, io.EOF among them, together with its first bytes: with at least
  -- one round and some fuel `Parse` ends and hands on no token of them, whatever they are.
  pub read_tokens-eager :
      (s : source.State) (e : ReadError) (rounds fuel : ℕ)
      → (source.read 24 s).1 ≡ some e
      → read_tokens source (suc rounds) (suc fuel) (new_tokenizer source s) ≡ ok []
  unfolding read_tokens next next_symbol token_of
  read_tokens-eager s e rounds fuel h =
      let (b, t, run, err) = first_byte s (source.read 24 s) e refl h in
      let ended : has_err source t ≡ true = rw (has_err, err) refl in rw (run, ended, ended) refl
