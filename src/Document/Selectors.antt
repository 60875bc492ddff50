-- ===== src/Document/Selectors.antt =====
-- What the selectors of `Parse` are given, in terms of the tokens.
use std.Path.{ap₂}
use news_tracker.Prelude.{
  ℕ, zero, suc, ◌<◌, ◌≡◌, refl, sym, ap, ◌∙◌, inl, inr, Option, some, none, List, [], ◌∷◌, ◌++◌,
  map, append_assoc, append-nil, Bytes, length, if◌then◌else◌, Bool-cases, Outcome, ok, panic,
  timeout, ◌>>=◌, Ends, Returns, Returns-bind,
}
use news_tracker.Ast.{Node}
use news_tracker.Selector.{Tree, new_class_selector}
use news_tracker.Parse.{Token, handle}
use news_tracker.Parse.Build.{Building, idle, build_token, build, with_nodes}
use news_tracker.Parse.Simulates.{Simulates, SameTrees, SameTree, handle-Step, new-Simulates}
use news_tracker.Tokenizer.{IoReader, Tokenizer, new_tokenizer, normal, has_err, next}
use news_tracker.Tokenizer.Window.{IsPolite}
use news_tracker.Document.{Listener, add_tree, handle_all, parse, read_tokens}
use news_tracker.Document.Tokens.{lex, lex-Ends, read_tokens-lex}

-- A selector as the specification has it: its classes, what it is building, and what it has handed out.
abbrev pub Spec : Type 0
Spec = List Bytes × Building × List (List Node)

abbrev pub done_with : Option (List Node) → List (List Node) → List (List Node)
done_with none done = done
done_with (some nodes) done = done ++ nodes ∷ []

abbrev pub step : Token → Spec → Spec
step t (classes, b, done) =
    let (b', tree) = build_token classes t b in (classes, b', done_with tree done)

abbrev pub steps : List Token → List Spec → List Spec
steps [] specs = specs
steps (t ∷ ts) specs = steps ts (map (step t) specs)

abbrev pub new_spec : List Bytes → Spec
new_spec classes = (classes, idle, [])

abbrev pub new_listener : List Bytes → Listener
new_listener classes = (new_class_selector classes, [])

-- The listeners are in the states of their specifications, and were given those trees.
abbrev pub Hear : List Spec → List Listener → Type 0
Hear [] [] = Unit {0}
Hear ((classes, b, done) ∷ specs) ((s, trees) ∷ listeners) =
    Simulates classes s b × SameTrees trees done × Hear specs listeners
Hear _ _ = ⊥

SameTrees-append :
    (trees : List Tree) (done : List (List Node)) (tree : Option Tree) (nodes : Option (List Node))
    → SameTrees trees done
    → SameTree tree nodes
    → SameTrees (add_tree tree trees) (done_with nodes done)
SameTrees-append trees done none none s st = s
SameTrees-append trees done none (some nodes) s st = absurd st
SameTrees-append trees done (some t) none s st = absurd st
SameTrees-append [] [] (some t) (some nodes) s st = (st, tt)
SameTrees-append [] (d ∷ done) (some t) (some nodes) s st = absurd s
SameTrees-append (x ∷ trees) [] (some t) (some nodes) s st = absurd s
SameTrees-append (x ∷ trees) (d ∷ done) (some t) (some nodes) (same, s) st =
    (same, SameTrees-append trees done (some t) (some nodes) s st)

handle_all-Hear :
    (t : Token) (specs : List Spec) (listeners : List Listener)
    → Hear specs listeners
    → Returns (Hear (map (step t) specs)) (handle_all t listeners)
unfolding handle_all
handle_all-Hear t [] [] h = tt
handle_all-Hear t [] (l ∷ listeners) h = absurd h
handle_all-Hear t (s ∷ specs) [] h = absurd h
handle_all-Hear t ((classes, b, done) ∷ specs) ((s, trees) ∷ listeners) (sim, same, h) =
    Returns-bind (handle t s) _ _ (handle-Step classes t s b sim) λ (s', tree) (sim', same').
      Returns-bind (handle_all t listeners) _ _ (handle_all-Hear t specs listeners h) λ rest h'.
        (sim', SameTrees-append trees done tree (build_token classes t b).1 same same', h')

-- `Parse` ends as the reading of the tokens ends, and has its listeners hear the tokens.
abbrev pub Parses : List Spec → Outcome (List Token) → Outcome (List Listener) → Type 0
Parses specs (ok ts) r = Returns (Hear (steps ts specs)) r
Parses specs panic r = r ≡ panic
Parses specs timeout r = r ≡ timeout

after_token :
    (specs : List Spec) (token : Token) (tokens : Outcome (List Token))
    (handled : Outcome (List Listener)) (later : List Listener → Outcome (List Listener))
    → Returns (Hear (map (step token) specs)) handled
    → ((listeners : List Listener)
        → Hear (map (step token) specs) listeners
        → Parses (map (step token) specs) tokens (later listeners))
    → Parses specs (tokens >>= λ ts. ok (token ∷ ts)) (handled >>= later)
after_token specs token (ok ts) (ok listeners) later h k = k listeners h
after_token specs token panic (ok listeners) later h k = k listeners h
after_token specs token timeout (ok listeners) later h k = k listeners h
after_token specs token tokens panic later h k = absurd h
after_token specs token tokens timeout later h k = absurd h

module _ (source : IoReader) where
  a_round :
      (rounds fuel : ℕ) (specs : List Spec) (listeners : List Listener)
      (r : Outcome (Token × Tokenizer source))
      → Hear specs listeners
      → ((t : Tokenizer source) (specs' : List Spec) (listeners' : List Listener)
          → Hear specs' listeners'
          → Parses specs'
              (read_tokens source rounds fuel t)
              (parse source rounds fuel t listeners'))
      → Parses specs
          (r >>= λ x.
            let more = read_tokens source rounds fuel x.1 >>= λ ts. ok (x.0 ∷ ts) in
            if has_err source x.1 then ok [] else more)
          (r >>= λ x.
            let more = handle_all x.0 listeners >>= λ ls. parse source rounds fuel x.1 ls in
            if has_err source x.1 then ok listeners else more)
  a_round rounds fuel specs listeners panic h ih = refl
  a_round rounds fuel specs listeners timeout h ih = refl
  a_round rounds fuel specs listeners (ok (token, t)) h ih = elim (Bool-cases (has_err source t)) [
    | inl y ↦ rw y h
    | inr n ↦ rw n (
        after_token specs token (read_tokens source rounds fuel t) (handle_all token listeners)
          (parse source rounds fuel t) (handle_all-Hear token specs listeners h)
          (λ ls h'. ih t (map (step token) specs) ls h'))
  ]

  pub parse-Parses :
      (rounds fuel : ℕ) (t : Tokenizer source) (specs : List Spec) (listeners : List Listener)
      → Hear specs listeners
      → Parses specs (read_tokens source rounds fuel t) (parse source rounds fuel t listeners)
  unfolding parse read_tokens
  parse-Parses zero fuel t specs listeners h = refl
  parse-Parses (suc rounds) fuel t specs listeners h =
      a_round rounds fuel specs listeners (next source fuel t) h
        (λ t' specs' listeners' h'. parse-Parses rounds fuel t' specs' listeners' h')

-- Each selector's run, by `build`.
abbrev pub finish : List Token → Spec → Spec
finish ts (classes, b, done) =
    let (last, trees) = build classes ts b in (classes, last, done ++ trees)

finish-step :
    (t : Token) (ts : List Token) (spec : Spec) → finish ts (step t spec) ≡ finish (t ∷ ts) spec
unfolding build
finish-step t ts (classes, b, done) =
    by_tree (build_token classes t b).1 (build classes ts (build_token classes t b).0)
  where
    by_tree :
        (tree : Option (List Node)) (r : Building × List (List Node))
        → ◌≡◌ {A = Spec}
            (classes, r.0, done_with tree done ++ r.1)
            (classes, r.0, done ++ with_nodes tree r.1)
    by_tree none r = refl
    by_tree (some nodes) r =
        ap (λ (d : List (List Node)). (classes, r.0, d)) (append_assoc done (nodes ∷ []) r.1)

steps-finish : (ts : List Token) (specs : List Spec) → steps ts specs ≡ map (finish ts) specs
unfolding build
steps-finish [] [] = refl
steps-finish [] ((classes, b, done) ∷ specs) =
    ap₂ (λ (s : Spec) (ss : List Spec). s ∷ ss)
      (ap (λ (d : List (List Node)). (classes, b, d)) (sym (append-nil done)))
      (steps-finish [] specs)
steps-finish (t ∷ ts) specs = steps-finish ts (map (step t) specs) ∙ finish_all specs
  where
    finish_all :
        (specs : List Spec) → map (finish ts) (map (step t) specs) ≡ map (finish (t ∷ ts)) specs
    finish_all [] = refl
    finish_all (s ∷ specs) =
        ap₂ (λ (x : Spec) (xs : List Spec). x ∷ xs) (finish-step t ts s) (finish_all specs)

-- Every listener was handed the trees of these tokens, by its own classes alone; where there is a panic
-- in place of the tokens, there is one in place of the listeners.
abbrev pub HeardAll : List (List Bytes) → Outcome (List Token) → Outcome (List Listener) → Type 0
HeardAll selectors (ok ts) r = Returns (Hear (map (finish ts) (map new_spec selectors))) r
HeardAll selectors panic r = r ≡ panic
HeardAll selectors timeout r = ⊥

pub new_listener-Hear :
    (selectors : List (List Bytes)) → Hear (map new_spec selectors) (map new_listener selectors)
new_listener-Hear [] = tt
new_listener-Hear (classes ∷ selectors) = (new-Simulates classes, tt, new_listener-Hear selectors)

heard :
    (selectors : List (List Bytes)) (tokens : Outcome (List Token)) (r : Outcome (List Listener))
    → Ends (λ _. Unit {0}) tokens
    → Parses (map new_spec selectors) tokens r
    → HeardAll selectors tokens r
heard selectors (ok ts) r e p = rw (← steps-finish ts (map new_spec selectors)) p
heard selectors panic r e p = p
heard selectors timeout r e p = absurd e

-- `Parse` of a polite reader that holds the bytes, with new selectors and more rounds and fuel than
-- bytes: the lexer of the bytes gives tokens or panics. Where it gives tokens, `Parse` returns, and
-- each selector's callback was called with the trees that `build` makes of these tokens, in order,
-- whatever the other selectors are; where it panics, `Parse` panics.
pub parse-HeardAll :
    (source : IoReader) (polite : IsPolite source) (selectors : List (List Bytes))
    (s : source.State) (bytes : Bytes) (rounds fuel : ℕ)
    → polite.Holds s bytes
    → length bytes < rounds
    → length bytes < fuel
    → HeardAll selectors
        (lex rounds normal bytes)
        (parse source rounds fuel (new_tokenizer source s) (map new_listener selectors))
parse-HeardAll source polite selectors s bytes rounds fuel h r f =
    heard selectors (lex rounds normal bytes) _ (lex-Ends rounds normal bytes r) (
      rw (read_tokens-lex polite s bytes rounds fuel h f) at (
        parse-Parses source rounds fuel (new_tokenizer source s) (map new_spec selectors)
          (map new_listener selectors) (new_listener-Hear selectors)))
