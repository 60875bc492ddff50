-- ===== src/Document/Print.antt =====
-- A document as it is written: texts, tags with double-quoted attributes, and comments.
use news_tracker.Prelude.{
  ℕ, Bool, true, false, ◌≡◌, refl, some, List, [], ◌∷◌, ◌++◌, append_assoc, Bytes, codes, ◌==◌,
  eq_bytes, StringMap, arith,
}
use news_tracker.Token.Reader.{l_bracket, r_bracket, slash}
use news_tracker.Token.Reader.Scan.{Avoids}
use news_tracker.Token.OpenTag.{ends_name, ends_key}
use news_tracker.Token.OpenTag.Pairs.{print_pairs, ArePairs, put_all}
use news_tracker.Token.OpenTag.RoundTrip.{print_tag}
use news_tracker.Token.CloseTag.Reads.{is_r_bracket}
use news_tracker.Parse.{Token, open_tag, close_tag, text, comment}
use news_tracker.Tokenizer.{is_letter, is_comment, starts_token}
use news_tracker.Tokenizer.Lex.{find_tag, upto_bracket}

abbrev pub is_l_bracket : ℕ → Bool
is_l_bracket c = c == l_bracket

-- A tag or a comment, and the text in front of it.
pub data Piece : Type 0 where
  open_piece : (front : Bytes) (c : ℕ) (name : Bytes) (kvs : StringMap Bytes) → Piece
  close_piece : (front name : Bytes) → Piece
  comment_piece : (front : Bytes) (c : ℕ) (body : Bytes) → Piece

abbrev pub print_piece : Piece → Bytes → Bytes
print_piece (open_piece front c name kvs) rest = front ++ print_tag (c ∷ name) kvs rest
print_piece (close_piece front name) rest = front ++ l_bracket ∷ slash ∷ (name ++ r_bracket ∷ rest)
print_piece (comment_piece front c body) rest = front ++ l_bracket ∷ c ∷ (body ++ r_bracket ∷ rest)

abbrev pub print_pieces : List Piece → Bytes → Bytes
print_pieces [] rest = rest
print_pieces (p ∷ ps) rest = print_piece p (print_pieces ps rest)

abbrev pub with_text : Bytes → List Token → List Token
with_text [] ts = ts
with_text (b ∷ front) ts = text (b ∷ front) ∷ ts

-- The text in front of a comment is dropped.
abbrev pub piece_tokens : Piece → List Token
piece_tokens (open_piece front c name kvs) =
    with_text front (open_tag (record { name = c ∷ name; attr = some (put_all kvs []) }) ∷ [])
piece_tokens (close_piece front name) = with_text front (close_tag (record { name = name }) ∷ [])
piece_tokens (comment_piece front c body) = comment (l_bracket ∷ c ∷ (body ++ r_bracket ∷ [])) ∷ []

abbrev pub tokens_of : List Piece → List Token
tokens_of [] = []
tokens_of (p ∷ ps) = piece_tokens p ++ tokens_of ps

-- No value holds a '>'.
abbrev pub AreClosed : StringMap Bytes → Type 0
AreClosed [] = Unit {0}
AreClosed ((k, v) ∷ kvs) = Avoids is_r_bracket v × AreClosed kvs

-- A text has no '<', a tag no '>' but its last byte, and the name of an opening tag is not "script".
abbrev pub IsPiece : Piece → Type 0
IsPiece (open_piece front c name kvs) =
    Avoids is_l_bracket front
    × (is_letter c ≡ true)
    × Avoids ends_name (c ∷ name)
    × ArePairs kvs
    × AreClosed kvs
    × (eq_bytes (c ∷ name) (codes "script") ≡ false)
IsPiece (close_piece front name) = Avoids is_l_bracket front × Avoids is_r_bracket name
IsPiece (comment_piece front c body) =
    Avoids is_l_bracket front × (is_comment c ≡ true) × Avoids is_r_bracket body

abbrev pub ArePieces : List Piece → Type 0
ArePieces [] = Unit {0}
ArePieces (p ∷ ps) = IsPiece p × ArePieces ps

pub find_tag-Avoids :
    (front : Bytes) (c : ℕ) (s : Bytes)
    → Avoids is_l_bracket front
    → starts_token c ≡ true
    → find_tag (front ++ l_bracket ∷ c ∷ s) ≡ some (front, c, s)
unfolding find_tag
find_tag-Avoids [] c s a h = rw h refl
find_tag-Avoids (b ∷ []) c s (n, a) h = rw (n, h) refl
find_tag-Avoids (b ∷ d ∷ front) c s (n, a) h = rw (n, find_tag-Avoids (d ∷ front) c s a h) refl

pub upto_bracket-Avoids :
    (body rest : Bytes)
    → Avoids is_r_bracket body
    → upto_bracket (body ++ r_bracket ∷ rest) ≡ some (body ++ r_bracket ∷ [], rest)
unfolding upto_bracket
upto_bracket-Avoids [] rest a = refl
upto_bracket-Avoids (b ∷ body) rest (n, a) = rw (n, upto_bracket-Avoids body rest a) refl

pub Avoids-append :
    (stops : ℕ → Bool) (xs ys : Bytes) → Avoids stops xs → Avoids stops ys → Avoids stops (xs ++ ys)
Avoids-append stops [] ys a b = b
Avoids-append stops (x ∷ xs) ys (n, a) b = (n, Avoids-append stops xs ys a b)

pub Avoids-weaken :
    (stops stops' : ℕ → Bool) (xs : Bytes)
    → ((c : ℕ) → stops c ≡ false → stops' c ≡ false)
    → Avoids stops xs
    → Avoids stops' xs
Avoids-weaken stops stops' [] h a = tt
Avoids-weaken stops stops' (x ∷ xs) h (n, a) = (h x n, Avoids-weaken stops stops' xs h a)

pub key_closed : (c : ℕ) → ends_key c ≡ false → is_r_bracket c ≡ false
key_closed c h = ground arith

pub name_closed : (c : ℕ) → ends_name c ≡ false → is_r_bracket c ≡ false
name_closed c h = ground arith

pub print_pairs-append :
    (kvs : StringMap Bytes) (rest later : Bytes)
    → print_pairs kvs rest ++ later ≡ print_pairs kvs (rest ++ later)
print_pairs-append [] rest later = refl
print_pairs-append ((k, v) ∷ kvs) rest later =
    simp (append_assoc, print_pairs-append kvs rest later)

pub print_pairs-Avoids :
    (kvs : StringMap Bytes)
    → ArePairs kvs
    → AreClosed kvs
    → Avoids is_r_bracket (print_pairs kvs [])
print_pairs-Avoids [] ps cs = tt
print_pairs-Avoids ((k, v) ∷ kvs) (p, ps) (c, cs) = (
  refl,
  Avoids-append is_r_bracket k _ (Avoids-weaken ends_key is_r_bracket k key_closed p.key_avoids)
      (refl, (refl, Avoids-append is_r_bracket v _ c (refl, print_pairs-Avoids kvs ps cs))),
)
