-- ===== src/Examples/Tokenizer.antt =====
-- Tests of the tokenizer and of the loop over its tokens, and their properties at concrete inputs.
use news_tracker.Prelude.{
  ℕ, zero, suc, ◌≤◌, ◌<◌, ◌≡◌, ◌≢◌, refl, sym, ap, ◌∙◌, inl, inr, Option, some, none, List, [], ◌∷◌,
  ◌++◌, map, Bytes, codes, length, eq_bytes, has_prefix, contains, put, ok, panic, Returns, arith,
}
use news_tracker.Parse.{open_tag, close_tag, text, comment}
use news_tracker.Tokenizer.{ReadError, eof, IoReader, new_tokenizer, normal, next}
use news_tracker.Tokenizer.Window.{IsPolite, Delivers}
use news_tracker.Tokenizer.Tokens.{Follows}
use news_tracker.Tokenizer.Lex.{lex_next}
use news_tracker.Tokenizer.Refines.{next-Follows}
use news_tracker.Tokenizer.Valid.{IsValid, Reads, read_byte-Reads}
use news_tracker.Tokenizer.Reachable.{Comes, TagPanics, at_first, Reached-Comes}
use news_tracker.Tokenizer.{read_failed, read_byte}
use news_tracker.Document.Print.{
  Piece, open_piece, close_piece, comment_piece, print_pieces, tokens_of, ArePieces,
}
use news_tracker.Document.RoundTrip.{read_tokens-print_pieces}
use news_tracker.Document.Losses.{parse-truncated, read_tokens-eager}
use news_tracker.Token.OpenTag.Pairs.{IsPair}
use news_tracker.Document.{parse, read_tokens}
use news_tracker.Document.Tokens.{lex, new-At, read_tokens-lex}
use news_tracker.Document.Selectors.{HeardAll, new_listener, parse-HeardAll}

-- At most `n` bytes, and at most `k`.
abbrev cut : ℕ → ℕ → Bytes → Bytes × Bytes
cut n k [] = ([], [])
cut zero k (b ∷ s) = ([], b ∷ s)
cut (suc n) zero (b ∷ s) = ([], b ∷ s)
cut (suc n) (suc k) (b ∷ s) = let (xs, rest) = cut n k s in (b ∷ xs, rest)

cut-length : (n k : ℕ) (s : Bytes) → length (cut n k s).0 ≤ n
cut-length n k [] = omega arith
cut-length zero k (b ∷ s) = omega arith
cut-length (suc n) zero (b ∷ s) = omega arith
cut-length (suc n) (suc k) (b ∷ s) = omega (arith, cut-length n k s)

cut-append : (n k : ℕ) (s : Bytes) → s ≡ (cut n k s).0 ++ (cut n k s).1
cut-append n k [] = refl
cut-append zero k (b ∷ s) = refl
cut-append (suc n) zero (b ∷ s) = refl
cut-append (suc n) (suc k) (b ∷ s) = ap (λ r. b ∷ r) (cut-append n k s)

-- A source that hands out its bytes in pieces of at most `k + 1`.
abbrev read_pieces : ℕ → ℕ → Bytes → Bytes × Option ReadError × Bytes
read_pieces k n [] = ([], some eof, [])
read_pieces k zero (b ∷ s) = ([], none, b ∷ s)
read_pieces k (suc n) (b ∷ s) = let (xs, rest) = cut n k s in (b ∷ xs, none, rest)

pub read_pieces_within : (k n : ℕ) (s : Bytes) → length (read_pieces k n s).0 ≤ n
read_pieces_within k n [] = omega arith
read_pieces_within k zero (b ∷ s) = omega arith
read_pieces_within k (suc n) (b ∷ s) = omega (arith, cut-length n k s)

abbrev pub pieces : ℕ → IoReader
pieces k = record { State = Bytes; read = read_pieces k; read_within = read_pieces_within k }

abbrev Still : Bytes → Bytes → Type 0
Still s bytes = s ≡ bytes

pub read_pieces-Delivers :
    (k n : ℕ) (s bytes : Bytes) → 0 < n → Still s bytes → Delivers Still (read_pieces k n s) bytes
read_pieces-Delivers k n [] bytes p h = inr (refl, refl, sym h)
read_pieces-Delivers k zero (b ∷ s) bytes p h = absurd (omega arith)
read_pieces-Delivers k (suc n) (b ∷ s) bytes p h =
    inl
      ((λ e. cons_ne_nil e), refl, (cut n k s).1, refl, sym h ∙ ap (λ r. b ∷ r) (cut-append n k s))
  where
    cons_ne_nil : {x : ℕ} {xs : Bytes} → x ∷ xs ≢ []
    cons_ne_nil e = absurd (omega (arith, ap length e))

abbrev pub polite_pieces : (k : ℕ) → IsPolite (pieces k)
polite_pieces k = record { Holds = Still; delivers = read_pieces-Delivers k }

abbrev page : Bytes
page = codes "a<b>hi<!--x--></b>"

next-Follows_example :
    Follows
      (polite_pieces 2)
      (lex_next normal page)
      (next (pieces 2) 40 (new_tokenizer (pieces 2) page))
next-Follows_example =
    next-Follows (polite_pieces 2) 40 (new_tokenizer (pieces 2) page) [] page 0 0 normal
      (new-At (polite_pieces 2) page page refl) refl (omega arith)

read_tokens-lex_example :
    read_tokens (pieces 0) 30 40 (new_tokenizer (pieces 0) page) ≡ lex 30 normal page
read_tokens-lex_example = read_tokens-lex (polite_pieces 0) page page 30 40 refl (omega arith)

parse-HeardAll_example : HeardAll ((codes "item" ∷ []) ∷ []) (lex 30 normal page) (
    parse
      (pieces 4)
      30
      40
      (new_tokenizer (pieces 4) page)
      (map new_listener ((codes "item" ∷ []) ∷ [])))
parse-HeardAll_example =
    parse-HeardAll (pieces 4) (polite_pieces 4) ((codes "item" ∷ []) ∷ []) page page 30 40 refl
      (omega arith) (omega arith)

-- A source that reports an error each time and gives more bytes all the same.
abbrev read_broken : ℕ → Unit {0} → Bytes × Option ReadError × Unit {0}
read_broken zero s = ([], some read_failed, s)
read_broken (suc n) s = (0 ∷ [], some read_failed, s)

read_broken_within : (n : ℕ) (s : Unit {0}) → length (read_broken n s).0 ≤ n
read_broken_within zero s = omega arith
read_broken_within (suc n) s = omega arith

abbrev broken : IoReader
broken = record { State = Unit {0}; read = read_broken; read_within = read_broken_within }

read_byte-Reads_example :
    Returns (Reads (new_tokenizer broken tt)) (read_byte broken (new_tokenizer broken tt))
read_byte-Reads_example = read_byte-Reads (new_tokenizer broken tt) (record {
  starts = omega arith;
  in_buf = omega arith;
  fits = omega arith;
  has_room = omega arith;
  from_low = omega arith;
  from_high = omega arith;
  upto_low = omega arith;
  upto_high = omega arith;
})

Reached-Comes_example :
    IsValid (new_tokenizer broken tt)
    × Comes (TagPanics 5 (new_tokenizer broken tt)) (next broken 5 (new_tokenizer broken tt))
Reached-Comes_example = Reached-Comes broken tt (new_tokenizer broken tt) 5 at_first

-- The bytes of `<p>`, and io.EOF with them.
abbrev read_at_once : ℕ → Unit {0} → Bytes × Option ReadError × Unit {0}
read_at_once (suc (suc (suc n))) s = (codes "<p>", some eof, s)
read_at_once _ s = ([], some eof, s)

read_at_once_within : (n : ℕ) (s : Unit {0}) → length (read_at_once n s).0 ≤ n
read_at_once_within zero s = omega arith
read_at_once_within (suc zero) s = omega arith
read_at_once_within (suc (suc zero)) s = omega arith
read_at_once_within (suc (suc (suc n))) s = omega arith

abbrev at_once : IoReader
at_once = record { State = Unit {0}; read = read_at_once; read_within = read_at_once_within }

read_tokens-eager_example : read_tokens at_once 6 8 (new_tokenizer at_once tt) ≡ ok []
read_tokens-eager_example = read_tokens-eager at_once tt eof 5 7 refl

-- `hi <b id="x">!<!--t--></b>`
abbrev written : List Piece
written =
    open_piece (codes "hi ") b'b' [] ((codes "id", codes "x") ∷ [])
    ∷ comment_piece (codes "!") b'!' (codes "--t--")
    ∷ close_piece [] (codes "b")
    ∷ []

id-IsPair : IsPair (codes "id") (codes "x")
unfolding contains has_prefix
id-IsPair = record {
  key_ne_nil = λ e. cc;
  key_avoids = (refl, (refl, tt));
  key_clean = record { no_spaces = refl; no_tab = refl; no_new_line = refl; no_c_return = refl };
  value_ne_nil = λ e. cc;
  value_avoids = (refl, tt);
  value_clean = record { no_spaces = refl; no_tab = refl; no_new_line = refl; no_c_return = refl };
}

written-ArePieces : ArePieces written
unfolding eq_bytes
written-ArePieces = (
  ((refl, (refl, (refl, tt))), refl, (refl, tt), (id-IsPair, tt), ((refl, tt), tt), refl),
  (((refl, tt), refl, (refl, (refl, (refl, (refl, (refl, tt)))))), ((tt, (refl, tt)), tt)),
)

abbrev written_bytes : Bytes
written_bytes = print_pieces written (codes "end")

read_tokens-print_pieces_example :
    read_tokens (pieces 1) 20 60 (new_tokenizer (pieces 1) written_bytes) ≡ ok (tokens_of written)
read_tokens-print_pieces_example =
    read_tokens-print_pieces (pieces 1) (polite_pieces 1) written_bytes written (codes "end") 20 60
      refl written-ArePieces (refl, (refl, (refl, tt))) (omega arith) (omega arith)

-- `<a href="` behind them.
abbrev cut_bytes : Bytes
cut_bytes = print_pieces written (codes "." ++ b'<' ∷ b'a' ∷ codes " href=")

parse-truncated_example :
    parse
      (pieces 7)
      20
      60
      (new_tokenizer (pieces 7) cut_bytes)
      (map new_listener ((codes "item" ∷ []) ∷ []))
    ≡ panic
parse-truncated_example =
    parse-truncated (pieces 7) (polite_pieces 7) ((codes "item" ∷ []) ∷ []) cut_bytes written
      (codes ".") b'a' (codes " href=") 20 60 refl written-ArePieces (refl, tt) refl
      (refl, (refl, (refl, (refl, (refl, (refl, tt)))))) (omega arith) (omega arith)

-- The text in front of the comment, and the one behind the last tag, are not among them.
tokens_of-written :
    tokens_of written
    ≡ text (codes "hi ")
      ∷ open_tag (record { name = codes "b"; attr = some ((codes "id", codes "x") ∷ []) })
      ∷ comment (codes "<!--t-->")
      ∷ close_tag (record { name = codes "b" })
      ∷ []
unfolding put eq_bytes
tokens_of-written = refl
