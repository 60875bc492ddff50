-- ===== src/Document.antt =====
-- `Parse` of worker/pkg/parser/parser.go on a reader: the tokens up to the first error, each handed to
-- every selector before the next is read. `rounds` is fuel for the loop of `Parse`, `fuel` for those of
-- `Next`.
pub mod Tokens
pub mod Selectors
pub mod Print
pub mod RoundTrip
pub mod Losses
use news_tracker.Prelude.{
  ℕ, zero, suc, ◌+◌, ◌-◌, ◌*◌, ◌/◌, ◌%◌, ◌^◌, ◌≤◌, ◌<◌, String, Bool, true, false, not, ◌&&◌, ◌||◌,
  ◌≡◌, ◌≢◌, ◌↔◌, ◌⊎◌, refl, sym, ap, ◌∙◌, fun_ext, inl, inr, Option, some, none, List, [], ◌∷◌,
  ◌++◌, map, map-append, append_assoc, append-nil, Bytes, codes, length, length-append, get_elem?,
  get_elem?-append, get_elem?-some, get_elem?-none, take, drop, drop-length, take-length, ltb, leb,
  ◌==◌, ==_iff, ltb→lt, leb→le, eq_bytes, eq_bytes_iff, eq_bytes_refl, has_prefix, contains,
  replace_all, replace_from, StringMap, find, put, remove, find-put, find-remove, if◌then◌else◌,
  Bool-cases, Option-cases, Outcome, ok, panic, timeout, ◌>>=◌, Ends, Ends-bind, Ends-if,
  Ends-weaken, Ends-ne-timeout, Returns, Returns-bind, arith,
}
use news_tracker.Selector.{Tree, ClassSelector}
use news_tracker.Parse.{Token, handle}
use news_tracker.Tokenizer.{IoReader, Tokenizer, has_err, next}

-- A selector, and the trees that its callback has been given.
abbrev pub Listener : Type 0
Listener = ClassSelector × List Tree

abbrev pub add_tree : Option Tree → List Tree → List Tree
add_tree none trees = trees
add_tree (some t) trees = trees ++ t ∷ []

-- One goroutine for each selector, and `wg.Wait()`. The callback of each keeps its own trees: they
-- touch nothing in common.
unfoldable pub handle_all : Token → List Listener → Outcome (List Listener)
handle_all t [] = ok []
handle_all t ((s, trees) ∷ listeners) = do
  (s', tree) ← handle t s
  rest ← handle_all t listeners
  ok ((s', add_tree tree trees) ∷ rest)

module _ (source : IoReader) where
  unfoldable pub parse : ℕ → ℕ → Tokenizer source → List Listener → Outcome (List Listener)
  parse zero fuel t listeners = timeout
  parse (suc rounds) fuel t listeners = do
    (token, t) ← next source fuel t
    let more = handle_all token listeners >>= λ listeners. parse rounds fuel t listeners
    if has_err source t then ok listeners else more

  -- The tokens that the loop hands on.
  unfoldable pub read_tokens : ℕ → ℕ → Tokenizer source → Outcome (List Token)
  read_tokens zero fuel t = timeout
  read_tokens (suc rounds) fuel t = do
    (token, t) ← next source fuel t
    let more = read_tokens rounds fuel t >>= λ tokens. ok (token ∷ tokens)
    if has_err source t then ok [] else more
