-- ===== src/Document/RoundTrip.antt =====
-- The tokens of a written document are read back.
use news_tracker.Prelude.{
  ℕ, zero, suc, ◌+◌, ◌-◌, ◌<◌, true, false, ◌≡◌, refl, sym, ap, ◌∙◌, some, none, List, [], ◌∷◌,
  ◌++◌, append_assoc, append-nil, Bytes, codes, length, ◌==◌, eq_bytes, StringMap, Outcome, ok,
  panic, timeout, ◌>>=◌, arith,
}
use news_tracker.Token.Reader.{l_bracket, r_bracket, slash}
use news_tracker.Token.Reader.Scan.{Avoids}
use news_tracker.Token.OpenTag.{ends_name}
use news_tracker.Token.OpenTag.Pairs.{print_pairs, ArePairs, put_all}
use news_tracker.Token.OpenTag.RoundTrip.{unmarshal-print_tag}
use news_tracker.Token.CloseTag.Reads.{is_r_bracket, unmarshal-close}
use news_tracker.Parse.{Token, open_tag, close_tag, text, comment}
use news_tracker.Tokenizer.{
  IoReader, ParserState, normal, new_tokenizer, is_letter, is_comment, starts_token,
}
use news_tracker.Tokenizer.Window.{IsPolite}
use news_tracker.Tokenizer.Lex.{find_tag, lex_tag, lex_next}
use news_tracker.Document.{read_tokens}
use news_tracker.Document.Tokens.{lex, read_tokens-lex}
use news_tracker.Document.Print.{
  is_l_bracket, Piece, open_piece, close_piece, comment_piece, print_piece, print_pieces, with_text,
  piece_tokens, tokens_of, AreClosed, IsPiece, ArePieces, Avoids-append, Avoids-weaken, name_closed,
  print_pairs-append, print_pairs-Avoids, find_tag-Avoids, upto_bracket-Avoids,
}

pub letter_starts : (c : ℕ) → is_letter c ≡ true → starts_token c ≡ true
letter_starts c h = rw h refl

pub letter_plain : (c : ℕ) → is_letter c ≡ true → (is_comment c ≡ false) × ((c == slash) ≡ false)
letter_plain c h = (ground arith, ground arith)

comment_starts : (c : ℕ) → is_comment c ≡ true → starts_token c ≡ true
comment_starts c h = ground arith

comment_plain : (c : ℕ) → is_comment c ≡ true → is_r_bracket c ≡ false
comment_plain c h = ground arith

abbrev pub add_tokens : List Token → Outcome (List Token) → Outcome (List Token)
add_tokens front r = r >>= λ ts. ok (front ++ ts)

add_tokens-append :
    (xs ys : List Token) (r : Outcome (List Token))
    → add_tokens xs (add_tokens ys r) ≡ add_tokens (xs ++ ys) r
add_tokens-append xs ys (ok ts) = ap ok (sym (append_assoc xs ys ts))
add_tokens-append xs ys panic = refl
add_tokens-append xs ys timeout = refl

pub add_no_tokens : (r : Outcome (List Token)) → add_tokens [] r ≡ r
add_no_tokens (ok ts) = refl
add_no_tokens panic = refl
add_no_tokens timeout = refl

pub then_lex-token :
    (rounds : ℕ) (st st' : ParserState) (bytes : Bytes) (tok : Token) (rest : Bytes)
    → lex_next st bytes ≡ ok (some (tok, st', rest))
    → lex (suc rounds) st bytes ≡ add_tokens (tok ∷ []) (lex rounds st' rest)
unfolding lex
then_lex-token rounds st st' bytes tok rest e = rw e refl

pub lex_next-tag :
    (front : Bytes) (c : ℕ) (after : Bytes)
    → Avoids is_l_bracket front
    → starts_token c ≡ true
    → is_comment c ≡ false
    → lex_next normal (front ++ l_bracket ∷ c ∷ after) ≡ lex_tag normal front c after
unfolding lex_next
lex_next-tag front c after a s n = rw (find_tag-Avoids front c after a s, n) refl

-- A round for each token, and `rounds` more.
abbrev pub rounds_for : List Token → ℕ → ℕ
rounds_for [] rounds = rounds
rounds_for (t ∷ ts) rounds = suc (rounds_for ts rounds)

rounds_for-append :
    (xs ys : List Token) (n : ℕ) → rounds_for (xs ++ ys) n ≡ rounds_for xs (rounds_for ys n)
rounds_for-append [] ys n = refl
rounds_for-append (x ∷ xs) ys n = ap suc (rounds_for-append xs ys n)

pub rounds_for_lem : (ts : List Token) (n : ℕ) → rounds_for ts n ≡ length ts + n
rounds_for_lem [] n = omega arith
rounds_for_lem (t ∷ ts) n = omega (arith, rounds_for_lem ts n)

-- A tag, and the text in front of it: a round for each.
lex-tag :
    (rounds : ℕ) (front : Bytes) (c : ℕ) (after : Bytes) (tok : Token) (rest : Bytes)
    → Avoids is_l_bracket front
    → starts_token c ≡ true
    → is_comment c ≡ false
    → lex_tag normal [] c after ≡ ok (some (tok, normal, rest))
    → lex (rounds_for (with_text front (tok ∷ [])) rounds) normal (front ++ l_bracket ∷ c ∷ after)
      ≡ add_tokens (with_text front (tok ∷ [])) (lex rounds normal rest)
lex-tag rounds [] c after tok rest a s n e =
    then_lex-token rounds normal normal (l_bracket ∷ c ∷ after) tok rest
      (lex_next-tag [] c after a s n ∙ e)
lex-tag rounds (b ∷ front) c after tok rest a s n e =
    then_lex-token (suc rounds) normal normal (b ∷ front ++ l_bracket ∷ c ∷ after)
      (text (b ∷ front)) (l_bracket ∷ c ∷ after) (lex_next-tag (b ∷ front) c after a s n)
    ∙ ap (add_tokens (text (b ∷ front) ∷ [])) (
        then_lex-token rounds normal normal (l_bracket ∷ c ∷ after) tok rest
          (lex_next-tag [] c after tt s n ∙ e))
    ∙ add_tokens-append (text (b ∷ front) ∷ []) (tok ∷ []) (lex rounds normal rest)

pub lex-open :
    (c : ℕ) (name : Bytes) (kvs : StringMap Bytes) (rest : Bytes)
    → is_letter c ≡ true
    → Avoids ends_name (c ∷ name)
    → ArePairs kvs
    → AreClosed kvs
    → eq_bytes (c ∷ name) (codes "script") ≡ false
    → lex_tag normal [] c (name ++ print_pairs kvs (r_bracket ∷ rest))
      ≡ ok
          (some (open_tag (record { name = c ∷ name; attr = some (put_all kvs []) }), normal, rest))
lex-open c name kvs rest h a ps cs n =
    let inside : Bytes = name ++ print_pairs kvs [] in
    let closed : Avoids is_r_bracket inside =
      Avoids-append is_r_bracket name _ (Avoids-weaken ends_name is_r_bracket name name_closed a.1)
        (print_pairs-Avoids kvs ps cs) in
    let whole : (r : Bytes) → name ++ print_pairs kvs (r_bracket ∷ r) ≡ inside ++ r_bracket ∷ r =
      λ r. sym (
        append_assoc name (print_pairs kvs []) (r_bracket ∷ r)
        ∙ ap (◌++◌ name) (print_pairs-append kvs [] (r_bracket ∷ r))) in
    rw
      (
        (letter_plain c h).1,
        whole rest,
        upto_bracket-Avoids inside rest closed,
        ← whole [],
        unmarshal-print_tag (c ∷ name) a kvs [] ps,
        n,
      )
      refl

pub lex-close :
    (name rest : Bytes)
    → Avoids is_r_bracket name
    → lex_tag normal [] slash (name ++ r_bracket ∷ rest)
      ≡ ok (some (close_tag (record { name = name }), normal, rest))
lex-close name rest a = rw (upto_bracket-Avoids name rest a, unmarshal-close name [] a) refl

lex_next-comment :
    (front : Bytes) (c : ℕ) (body rest : Bytes)
    → Avoids is_l_bracket front
    → is_comment c ≡ true
    → Avoids is_r_bracket body
    → lex_next normal (front ++ l_bracket ∷ c ∷ (body ++ r_bracket ∷ rest))
      ≡ ok (some (comment (l_bracket ∷ c ∷ (body ++ r_bracket ∷ [])), normal, rest))
unfolding lex_next
lex_next-comment front c body rest a h b =
    let closed : Avoids is_r_bracket (l_bracket ∷ c ∷ body) = (refl, (comment_plain c h, b)) in
    rw
      (
        find_tag-Avoids front c (body ++ r_bracket ∷ rest) a (comment_starts c h),
        h,
        upto_bracket-Avoids (l_bracket ∷ c ∷ body) rest closed,
      )
      refl

lex-print_piece :
    (p : Piece) (rounds : ℕ) (rest : Bytes)
    → IsPiece p
    → lex (rounds_for (piece_tokens p) rounds) normal (print_piece p rest)
      ≡ add_tokens (piece_tokens p) (lex rounds normal rest)
lex-print_piece (open_piece front c name kvs) rounds rest (a, h, n, ps, cs, e) =
    lex-tag rounds front c (name ++ print_pairs kvs (r_bracket ∷ rest)) _ rest a (letter_starts c h)
      (letter_plain c h).0 (lex-open c name kvs rest h n ps cs e)
lex-print_piece (close_piece front name) rounds rest (a, n) =
    lex-tag rounds front slash (name ++ r_bracket ∷ rest) _ rest a refl refl (lex-close name rest n)
lex-print_piece (comment_piece front c body) rounds rest (a, h, n) =
    then_lex-token rounds normal normal _ _ rest (lex_next-comment front c body rest a h n)

pub lex-print_pieces :
    (ps : List Piece) (rounds : ℕ) (rest : Bytes)
    → ArePieces ps
    → lex (rounds_for (tokens_of ps) rounds) normal (print_pieces ps rest)
      ≡ add_tokens (tokens_of ps) (lex rounds normal rest)
lex-print_pieces [] rounds rest h = sym (add_no_tokens (lex rounds normal rest))
lex-print_pieces (p ∷ ps) rounds rest (h, hs) =
    rw (rounds_for-append (piece_tokens p) (tokens_of ps) rounds) (
      lex-print_piece p (rounds_for (tokens_of ps) rounds) (print_pieces ps rest) h
      ∙ ap (add_tokens (piece_tokens p)) (lex-print_pieces ps rounds rest hs)
      ∙ add_tokens-append (piece_tokens p) (tokens_of ps) (lex rounds normal rest))

find_tag-none : (bytes : Bytes) → Avoids is_l_bracket bytes → find_tag bytes ≡ none
unfolding find_tag
find_tag-none [] a = refl
find_tag-none (b ∷ []) a = refl
find_tag-none (b ∷ c ∷ s) (n, a) = rw (n, find_tag-none (c ∷ s) a) refl

lex-end :
    (rounds : ℕ) (bytes : Bytes) → Avoids is_l_bracket bytes → lex (suc rounds) normal bytes ≡ ok []
unfolding lex lex_next
lex-end rounds bytes a = rw (find_tag-none bytes a) refl

pub lex-document :
    (ps : List Piece) (last : Bytes) (rounds : ℕ)
    → ArePieces ps
    → Avoids is_l_bracket last
    → length (tokens_of ps) < rounds
    → lex rounds normal (print_pieces ps last) ≡ ok (tokens_of ps)
lex-document ps last zero h a r = absurd (omega arith)
lex-document ps last (suc n) h a r =
    let more : suc n ≡ rounds_for (tokens_of ps) (suc (n - length (tokens_of ps))) =
      omega (arith, rounds_for_lem (tokens_of ps) (suc (n - length (tokens_of ps)))) in
    rw
      (
        more,
        lex-print_pieces ps (suc (n - length (tokens_of ps))) last h,
        lex-end (n - length (tokens_of ps)) last a,
      )
      (ap ok (append-nil (tokens_of ps)))

-- A polite reader holds pieces as they are written, with a text behind them. Texts are without '<',
-- tags and comments without '>' but their last byte, attributes such as the syntax can carry, and
-- no opening tag is "script". With more rounds than tokens and more fuel than bytes `Parse` hands
-- on their tokens in order, however the reader cuts the bytes. The text in front of a comment and
-- the text behind the last piece are not handed on.
pub read_tokens-print_pieces :
    (source : IoReader) (polite : IsPolite source) (s : source.State) (ps : List Piece)
    (last : Bytes) (rounds fuel : ℕ)
    → polite.Holds s (print_pieces ps last)
    → ArePieces ps
    → Avoids is_l_bracket last
    → length (tokens_of ps) < rounds
    → length (print_pieces ps last) < fuel
    → read_tokens source rounds fuel (new_tokenizer source s) ≡ ok (tokens_of ps)
read_tokens-print_pieces source polite s ps last rounds fuel h w a r f =
    read_tokens-lex polite s (print_pieces ps last) rounds fuel h f
    ∙ lex-document ps last rounds w a r
