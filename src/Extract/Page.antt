-- ===== src/Extract/Page.antt =====
-- `Parse` with callbacks, by the bytes of the page alone: no buffer, no reader and no pointers.
use news_tracker.Prelude.{
  ℕ, zero, suc, ◌≤◌, ◌<◌, ◌≡◌, refl, ap, fun_ext, Option, some, none, List, [], ◌∷◌, map, Bytes,
  length, if◌then◌else◌, Outcome, ok, panic, timeout, ◌>>=◌, Ends, Returns, Returns-bind, arith,
}
use std.Path.{ap₂}
use news_tracker.Ast.{Node, Heap}
use news_tracker.Ast.Segments.{Chain, Chain-lt}
use news_tracker.Selector.{Tree, new_class_selector}
use news_tracker.Parse.{Token, handle}
use news_tracker.Parse.Build.{Building, idle, build_token}
use news_tracker.Parse.Simulates.{Simulates, SameTree, handle-Step, new-Simulates}
use news_tracker.Tokenizer.{IoReader, Tokenizer, new_tokenizer, ParserState, normal, has_err, next}
use news_tracker.Tokenizer.Window.{IsPolite, At}
use news_tracker.Tokenizer.Lex.{Lexed, lex_next}
use news_tracker.Tokenizer.Scans.{At-no_err, is_ended}
use news_tracker.Tokenizer.Tokens.{Follows}
use news_tracker.Tokenizer.Refines.{next-Follows}
use news_tracker.Tokenizer.Progress.{Shrinks, lex_next-Shrinks}
use news_tracker.Document.Tokens.{new-At}
use news_tracker.Watch.{
  nodes_at, Watcher, Call, Schedule, call_back, handle_watched, run_calls, parse_watched,
}

nodes_at-Chain :
    (nodes : List Node) (f : ℕ) (h : Heap) (p e : ℕ)
    → Chain h p e nodes
    → length nodes ≤ f
    → nodes_at f h p ≡ ok nodes
unfolding nodes_at
nodes_at-Chain [] f h p e c l = absurd c
nodes_at-Chain (n ∷ nodes) zero h p e c l = absurd (omega arith)
nodes_at-Chain (n ∷ []) (suc f) h p e (same, last, end) l = rw (last, same) refl
nodes_at-Chain (n ∷ m ∷ nodes) (suc f) h p e (same, more, c) l =
    rw (more, nodes_at-Chain (m ∷ nodes) f h (suc p) e c (omega arith), same) refl

module _ (A : Type 0) where
  -- A callback with the classes of its selector and what the selector is building.
  abbrev pub Seen : Type 0
  Seen = List Bytes × Building × (List Node → A → Outcome A)

  abbrev pub given : (List Node → A → Outcome A) → Option (List Node) → Call A
  given f none = λ a. ok a
  given f (some nodes) = f nodes

  abbrev pub watch_token : Token → List Seen → List Seen × List (Call A)
  watch_token t [] = ([], [])
  watch_token t ((classes, b, f) ∷ seen) =
      let (b', nodes) = build_token classes t b in
      let (seen', calls) = watch_token t seen in ((classes, b', f) ∷ seen', given f nodes ∷ calls)

  abbrev pub then_watch :
      (ParserState → Bytes → List Seen → A → Outcome A)
      → (List (Call A) → List (Call A))
      → List Seen
      → A
      → Option (Token × ParserState × Bytes)
      → Outcome A
  then_watch later order seen a none = ok a
  then_watch later order seen a (some (t, st, rest)) =
      let (seen', calls) = watch_token t seen in run_calls A (order calls) a >>= later st rest seen'

  -- Token by token: what is complete is given to its callback before the next token is read.
  unfoldable pub watch : Schedule A → ℕ → ParserState → Bytes → List Seen → A → Outcome A
  watch schedule zero st bytes seen a = timeout
  watch schedule (suc rounds) st bytes seen a =
      lex_next st bytes >>= then_watch (watch schedule rounds) (schedule rounds) seen a

  abbrev Sees : List (Watcher A) → List Seen → Type 0
  Sees [] [] = Unit {0}
  Sees (w ∷ watchers) ((classes, b, f) ∷ seen) =
      Simulates classes w.selector b × (w.callback ≡ f) × Sees watchers seen
  Sees _ _ = ⊥

  call_back-given :
      (f g : List Node → A → Outcome A) (tree : Option Tree) (nodes : Option (List Node))
      → f ≡ g
      → SameTree tree nodes
      → ◌≡◌ {A = Call A} (call_back A f tree) (given g nodes)
  unfolding call_back
  call_back-given f g none none e s = refl
  call_back-given f g none (some nodes) e s = absurd s
  call_back-given f g (some t) none e s = absurd s
  call_back-given f g (some t) (some nodes) e s = fun_ext λ a.
      rw
        (
          nodes_at-Chain nodes t.heap.size t.heap t.root t.heap.size s
              (omega (arith, Chain-lt nodes t.heap t.root t.heap.size s)),
          e,
        )
        refl

  -- The selectors go on as the specification does, and the calls are the same.
  abbrev Matches : List Seen × List (Call A) → List (Watcher A) × List (Call A) → Type 0
  Matches (seen, calls) (watchers, calls') = Sees watchers seen × (calls' ≡ calls)

  handle_watched-Matches :
      (t : Token) (watchers : List (Watcher A)) (seen : List Seen)
      → Sees watchers seen
      → Returns (Matches (watch_token t seen)) (handle_watched A t watchers)
  unfolding handle_watched
  handle_watched-Matches t [] [] s = (tt, refl)
  handle_watched-Matches t [] (x ∷ seen) s = absurd s
  handle_watched-Matches t (w ∷ watchers) [] s = absurd s
  handle_watched-Matches t (w ∷ watchers) ((classes, b, f) ∷ seen) (sim, e, s) =
      Returns-bind (handle t w.selector) _ _ (handle-Step classes t w.selector b sim)
        λ (sel, tree) (sim', same).
          Returns-bind (handle_watched A t watchers) _ _ (handle_watched-Matches t watchers seen s)
            λ r (s', calls). (
              (sim', e, s'),
              ap₂ (λ (x : Call A) (xs : List (Call A)). x ∷ xs)
                  (call_back-given w.callback f tree (build_token classes t b).1 e same) calls,
            )

  parsed-Matches :
      (order : List (Call A) → List (Call A)) (x : List Seen × List (Call A)) (a : A)
      (r : Outcome (List (Watcher A) × List (Call A))) (k : List (Watcher A) → A → Outcome A)
      (k' : List Seen → A → Outcome A)
      → Returns (Matches x) r
      → ((watchers : List (Watcher A)) (a : A) → Sees watchers x.0 → k watchers a ≡ k' x.0 a)
      → (r >>= λ p. run_calls A (order p.1) a >>= k p.0) ≡ (run_calls A (order x.1) a >>= k' x.0)
  parsed-Matches order (seen, calls) a (ok (ws, calls')) k k' (s, e) h =
      rw e (ap (λ (g : A → Outcome A). run_calls A (order calls) a >>= g) (fun_ext λ b. h ws b s))
  parsed-Matches order x a panic k k' m h = absurd m
  parsed-Matches order x a timeout k k' m h = absurd m

  -- A round of `parse_watched` behind `Next`.
  abbrev a_page_round :
      {source : IoReader}
      → (Tokenizer source → List (Watcher A) → A → Outcome A)
      → (List (Call A) → List (Call A))
      → List (Watcher A)
      → A
      → Token × Tokenizer source
      → Outcome A
  a_page_round {source} later order watchers a (token, t) =
      let more =
        handle_watched A token watchers >>= λ r. run_calls A (order r.1) a >>= later t r.0 in
      if has_err source t then ok a else more

  module _ {source : IoReader} (polite : IsPolite source) (schedule : Schedule A) where
    watch_on :
        (rounds fuel n : ℕ) (o : Lexed) (r : Outcome (Token × Tokenizer source))
        (watchers : List (Watcher A)) (seen : List Seen) (a : A)
        → ((t : Tokenizer source) (win rest : Bytes) (ds de : ℕ) (st : ParserState)
              (watchers : List (Watcher A)) (seen : List Seen) (a : A)
            → At polite t win rest ds de
            → t.state ≡ st
            → length rest < fuel
            → Sees watchers seen
            → parse_watched A source schedule rounds fuel t watchers a
              ≡ watch schedule rounds st rest seen a)
        → Follows polite o r
        → Ends (Shrinks n) o
        → n < fuel
        → Sees watchers seen
        → (r
            >>= a_page_round
                (parse_watched A source schedule rounds fuel)
                (schedule rounds)
                watchers
                a)
          ≡ (o >>= then_watch (watch schedule rounds) (schedule rounds) seen a)
    watch_on rounds fuel n (ok none) r watchers seen a ih (tok, t', e, err) p l s =
        rw (e, is_ended polite t' err) refl
    watch_on rounds fuel n (ok (some (tok, st', later))) r watchers seen a ih
          (t', win', ds', de', e, at, same) p l s =
        rw (e, At-no_err polite t' win' later ds' de' at)
          (parsed-Matches (schedule rounds) (watch_token tok seen) a (handle_watched A tok watchers)
            (parse_watched A source schedule rounds fuel t') (watch schedule rounds st' later)
            (handle_watched-Matches tok watchers seen s)
            λ ws a' s'. ih t' win' later ds' de' st' ws _ a' at same (omega arith) s')
    watch_on rounds fuel n panic r watchers seen a ih e p l s = rw e refl
    watch_on rounds fuel n timeout r watchers seen a ih e p l s = absurd p

    parse_watched-At :
        (rounds fuel : ℕ) (t : Tokenizer source) (win rest : Bytes) (ds de : ℕ) (st : ParserState)
        (watchers : List (Watcher A)) (seen : List Seen) (a : A)
        → At polite t win rest ds de
        → t.state ≡ st
        → length rest < fuel
        → Sees watchers seen
        → parse_watched A source schedule rounds fuel t watchers a
          ≡ watch schedule rounds st rest seen a
    unfolding parse_watched watch
    parse_watched-At zero fuel t win rest ds de st watchers seen a at s h w = refl
    parse_watched-At (suc rounds) fuel t win rest ds de st watchers seen a at s h w =
        watch_on rounds fuel (length rest) (lex_next st rest) (next source fuel t) watchers seen a
          (λ t' win' rest' ds' de' st' ws seen' a' at' same shorter w'.
            parse_watched-At rounds fuel t' win' rest' ds' de' st' ws seen' a' at' same shorter w')
          (next-Follows polite fuel t win rest ds de st at s h) (lex_next-Shrinks st rest) h w

  abbrev pub new_watcher : List Bytes × (List Node → A → Outcome A) → Watcher A
  new_watcher (classes, f) = record { selector = new_class_selector classes; callback = f }

  abbrev pub new_seen : List Bytes × (List Node → A → Outcome A) → Seen
  new_seen (classes, f) = (classes, idle, f)

  new_watcher-Sees :
      (selectors : List (List Bytes × (List Node → A → Outcome A)))
      → Sees (map new_watcher selectors) (map new_seen selectors)
  new_watcher-Sees [] = tt
  new_watcher-Sees ((classes, f) ∷ selectors) =
      (new-Simulates classes, refl, new_watcher-Sees selectors)

  -- On any polite reader that holds the bytes of a page, with new selectors and more fuel than
  -- bytes, and in whatever order the goroutines of each token call back: `Parse` with callbacks does
  -- what `watch` does by the bytes alone in that order. The goroutines of a token are given the
  -- complete trees of their selectors, as their nodes in order, before the next token is read, and
  -- nothing depends on how the reader cuts the bytes or on where the nodes are in memory.
  pub parse_watched-watch :
      (source : IoReader) (polite : IsPolite source) (schedule : Schedule A) (s : source.State)
      (bytes : Bytes) (rounds fuel : ℕ)
      (selectors : List (List Bytes × (List Node → A → Outcome A))) (a : A)
      → polite.Holds s bytes
      → length bytes < fuel
      → parse_watched A source schedule rounds fuel
          (new_tokenizer source s)
          (map new_watcher selectors)
          a
        ≡ watch schedule rounds normal bytes (map new_seen selectors) a
  parse_watched-watch source polite schedule s bytes rounds fuel selectors a h f =
      parse_watched-At polite schedule rounds fuel (new_tokenizer source s) [] bytes 0 0 normal
        (map new_watcher selectors) (map new_seen selectors) a (new-At polite s bytes h) refl f
        (new_watcher-Sees selectors)
