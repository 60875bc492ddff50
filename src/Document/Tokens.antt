-- ===== src/Document/Tokens.antt =====
-- The tokens of a document are determined by its bytes.
use news_tracker.Prelude.{
  ℕ, zero, suc, ◌<◌, ◌≡◌, refl, Option, some, none, List, [], ◌∷◌, Bytes, length, if◌then◌else◌,
  Outcome, ok, panic, timeout, ◌>>=◌, Ends, Ends-bind, arith,
}
use news_tracker.Parse.{Token}
use news_tracker.Tokenizer.{IoReader, Tokenizer, new_tokenizer, ParserState, normal, has_err, next}
use news_tracker.Tokenizer.Window.{IsPolite, At}
use news_tracker.Tokenizer.Lex.{Lexed, lex_next}
use news_tracker.Tokenizer.Scans.{At-no_err, is_ended}
use news_tracker.Tokenizer.Tokens.{Follows}
use news_tracker.Tokenizer.Refines.{next-Follows}
use news_tracker.Tokenizer.Progress.{Shrinks, lex_next-Shrinks}
use news_tracker.Document.{read_tokens}

abbrev pub then_lex :
    (ParserState → Bytes → Outcome (List Token))
    → Option (Token × ParserState × Bytes)
    → Outcome (List Token)
then_lex later none = ok []
then_lex later (some (token, st, rest)) = later st rest >>= λ tokens. ok (token ∷ tokens)

-- The tokens of some bytes, with one round for each.
unfoldable pub lex : ℕ → ParserState → Bytes → Outcome (List Token)
lex zero st bytes = timeout
lex (suc rounds) st bytes = lex_next st bytes >>= then_lex (lex rounds)

-- A round of `read_tokens` behind `Next`.
abbrev more_tokens :
    {source : IoReader}
    → (Tokenizer source → Outcome (List Token))
    → Token × Tokenizer source
    → Outcome (List Token)
more_tokens {source} later (token, t) =
    let more = later t >>= λ tokens. ok (token ∷ tokens) in if has_err source t then ok [] else more

module _ {source : IoReader} (polite : IsPolite source) where
  pub new-At :
      (s : source.State) (bytes : Bytes)
      → polite.Holds s bytes
      → At polite (new_tokenizer source s) [] bytes 0 0
  new-At s bytes h = (
    [],
    [],
    bytes,
    record {
      no_err = refl;
      buffer = refl;
      start_at = refl;
      end_at = refl;
      from = refl;
      upto = refl;
      fits = omega arith;
      has_room = omega arith;
    },
    h,
    refl,
  )

  follow :
      (rounds fuel n : ℕ) (o : Lexed) (r : Outcome (Token × Tokenizer source))
      → ((t : Tokenizer source) (win rest : Bytes) (ds de : ℕ) (st : ParserState)
          → At polite t win rest ds de
          → t.state ≡ st
          → length rest < fuel
          → read_tokens source rounds fuel t ≡ lex rounds st rest)
      → Follows polite o r
      → Ends (Shrinks n) o
      → n < fuel
      → (r >>= more_tokens (read_tokens source rounds fuel)) ≡ (o >>= then_lex (lex rounds))
  follow rounds fuel n (ok none) r ih (tok, t', e, err) p l = rw (e, is_ended polite t' err) refl
  follow rounds fuel n (ok (some (tok, st', later))) r ih (t', win', ds', de', e, at, same) p l =
      rw
        (
          e,
          At-no_err polite t' win' later ds' de' at,
          ih t' win' later ds' de' st' at same (omega arith),
        )
        refl
  follow rounds fuel n panic r ih e p l = rw e refl
  follow rounds fuel n timeout r ih e p l = absurd p

  -- In any number of rounds.
  pub read_tokens-At :
      (rounds fuel : ℕ) (t : Tokenizer source) (win rest : Bytes) (ds de : ℕ) (st : ParserState)
      → At polite t win rest ds de
      → t.state ≡ st
      → length rest < fuel
      → read_tokens source rounds fuel t ≡ lex rounds st rest
  unfolding read_tokens lex
  read_tokens-At zero fuel t win rest ds de st a s h = refl
  read_tokens-At (suc rounds) fuel t win rest ds de st a s h =
      follow rounds fuel (length rest) (lex_next st rest) (next source fuel t)
        (λ t' win' later ds' de' st' at same shorter.
          read_tokens-At rounds fuel t' win' later ds' de' st' at same shorter)
        (next-Follows polite fuel t win rest ds de st a s h) (lex_next-Shrinks st rest) h

  -- Where a polite reader holds the bytes, and with more fuel than bytes, `Parse` hands on the
  -- tokens of the bytes, in any number of rounds, however the reader cuts them and whatever the
  -- buffer's capacity comes to.
  pub read_tokens-lex :
      (s : source.State) (bytes : Bytes) (rounds fuel : ℕ)
      → polite.Holds s bytes
      → length bytes < fuel
      → read_tokens source rounds fuel (new_tokenizer source s) ≡ lex rounds normal bytes
  read_tokens-lex s bytes rounds fuel h f =
      read_tokens-At rounds fuel (new_tokenizer source s) [] bytes 0 0 normal (new-At s bytes h)
        refl f

then_lex-Ends :
    (rounds n : ℕ) (o : Option (Token × ParserState × Bytes))
    → ((st : ParserState) (rest : Bytes)
        → length rest < rounds
        → Ends (λ _. Unit {0}) (lex rounds st rest))
    → Shrinks n o
    → n < suc rounds
    → Ends (λ _. Unit {0}) (then_lex (lex rounds) o)
then_lex-Ends rounds n none ih p h = tt
then_lex-Ends rounds n (some (tok, st, rest)) ih p h =
    Ends-bind (lex rounds st rest) _ _ (ih st rest (omega arith)) λ _ _. tt

-- With a round for each byte and one more the tokens come to an end.
pub lex-Ends :
    (rounds : ℕ) (st : ParserState) (bytes : Bytes)
    → length bytes < rounds
    → Ends (λ _. Unit {0}) (lex rounds st bytes)
unfolding lex
lex-Ends zero st bytes h = absurd (omega arith)
lex-Ends (suc rounds) st bytes h =
    Ends-bind (lex_next st bytes) _ _ (lex_next-Shrinks st bytes)
      λ o p. then_lex-Ends rounds (length bytes) o (λ st' rest l. lex-Ends rounds st' rest l) p h
