-- ===== src/Tokenizer/Progress.antt =====
-- Every token takes at least one byte.
use news_tracker.Prelude.{
  ℕ, suc, ◌+◌, ◌≤◌, ◌<◌, inl, inr, Option, some, none, [], ◌∷◌, Bytes, length, ◌==◌, Bool-cases,
  Ends, Ends-bind, Ends-if, Ends-weaken, arith,
}
use news_tracker.Token.Reader.{l_bracket, r_bracket, slash}
use news_tracker.Token.OpenTag
use news_tracker.Token.OpenTag.Total
use news_tracker.Token.CloseTag
use news_tracker.Token.CloseTag.Reads
use news_tracker.Parse.{Token}
use news_tracker.Tokenizer.{ParserState, normal, script_content, is_comment}
use news_tracker.Tokenizer.Lex.{
  Found, find_tag, upto_bracket, in_front, Lexed, lex_comment, lex_close, lex_open, lex_open_in,
  lex_tag, lex_found, lex_next,
}
use news_tracker.Tokenizer.Refines.{Leaves, find_tag-Leaves}

-- What is left is shorter than `n`.
abbrev pub Shrinks : ℕ → Option (Token × ParserState × Bytes) → Type 0
Shrinks n none = Unit {0}
Shrinks n (some (tok, st, rest)) = length rest < n

abbrev Within : ℕ → Option (Bytes × Bytes) → Type 0
Within n none = Unit {0}
Within n (some (inside, rest)) = length inside + length rest ≤ n × (0 < length inside)

Within-in_front :
    (n b : ℕ) (o : Option (Bytes × Bytes)) → Within n o → Within (suc n) (in_front b o)
Within-in_front n b none w = tt
Within-in_front n b (some (inside, rest)) w = omega arith

upto_bracket-Within : (s : Bytes) → Within (length s) (upto_bracket s)
unfolding upto_bracket
upto_bracket-Within [] = tt
upto_bracket-Within (b ∷ s) = elim (Bool-cases (b == r_bracket)) [
  | inl y ↦ rw y (omega arith)
  | inr n ↦ rw n (Within-in_front (length s) b (upto_bracket s) (upto_bracket-Within s))
]

comment-Shrinks :
    (st : ParserState) (n : ℕ) (o : Option (Bytes × Bytes))
    → Within n o
    → Ends (Shrinks n) (lex_comment st o)
comment-Shrinks st n none w = tt
comment-Shrinks st n (some (inside, rest)) w = omega arith

close-Shrinks :
    (c n : ℕ) (o : Option (Bytes × Bytes)) → Within n o → Ends (Shrinks (suc n)) (lex_close c o)
close-Shrinks c n none w = tt
close-Shrinks c n (some (inside, rest)) w =
    Ends-bind (CloseTag.unmarshal _) _ _ (Reads.unmarshal-Ends (l_bracket ∷ c ∷ inside))
      λ p u. omega arith

open-Shrinks :
    (st : ParserState) (c n : ℕ) (o : Option (Bytes × Bytes))
    → Within n o
    → Ends (Shrinks (suc n)) (lex_open st c o)
open-Shrinks st c n none w =
    Ends-bind (OpenTag.unmarshal _) _ _ (Total.unmarshal-Ends (l_bracket ∷ c ∷ [])) λ p u. tt
open-Shrinks st c n (some (inside, rest)) w =
    Ends-bind (OpenTag.unmarshal _) _ _ (Total.unmarshal-Ends (l_bracket ∷ c ∷ inside))
      λ p u. omega arith

open_in-Shrinks :
    (st : ParserState) (c : ℕ) (after : Bytes)
    → Ends (Shrinks (suc (length after))) (lex_open_in st c after)
open_in-Shrinks normal c after =
    open-Shrinks normal c (length after) (upto_bracket after) (upto_bracket-Within after)
open_in-Shrinks script_content c after = omega arith

Shrinks-widen :
    (m n : ℕ) (o : Option (Token × ParserState × Bytes)) → m ≤ n → Shrinks m o → Shrinks n o
Shrinks-widen m n none l h = tt
Shrinks-widen m n (some (tok, st, rest)) l h = omega arith

wider : (m n : ℕ) (o : Lexed) → m ≤ n → Ends (Shrinks m) o → Ends (Shrinks n) o
wider m n o l h = Ends-weaken o (Shrinks n) h λ x s. Shrinks-widen m n x l s

tag-Shrinks :
    (st : ParserState) (front : Bytes) (c : ℕ) (after : Bytes) (n : ℕ)
    → length front + suc (suc (length after)) ≤ n
    → Ends (Shrinks n) (lex_tag st front c after)
tag-Shrinks st (b ∷ front) c after n l = omega arith
tag-Shrinks st [] c after n l =
    let m = suc (length after) in
    Ends-if (c == slash) _ _ _
      (λ _.
        wider m n _ (omega arith)
          (close-Shrinks c (length after) (upto_bracket after) (upto_bracket-Within after)))
      (λ _. wider m n _ (omega arith) (open_in-Shrinks st c after))

found-Shrinks :
    (st : ParserState) (n : ℕ) (o : Option Found) → Leaves n o → Ends (Shrinks n) (lex_found st o)
found-Shrinks st n none l = tt
found-Shrinks st n (some (front, c, after)) l =
    let rest : Bytes = l_bracket ∷ c ∷ after in
    Ends-if (is_comment c) _ _ _
      (λ _.
        wider (length rest) n _ (omega arith)
          (comment-Shrinks st (length rest) (upto_bracket rest) (upto_bracket-Within rest)))
      (λ _. tag-Shrinks st front c after n l)

-- `lex_next` ends, and what it leaves is shorter than what it was given.
pub lex_next-Shrinks :
    (st : ParserState) (bytes : Bytes) → Ends (Shrinks (length bytes)) (lex_next st bytes)
unfolding lex_next
lex_next-Shrinks st bytes = found-Shrinks st (length bytes) (find_tag bytes) (find_tag-Leaves bytes)
