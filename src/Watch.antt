-- ===== src/Watch.antt =====
-- parser.Parse with callbacks that change a state: selectors of worker/pkg/parser/selector over the loop of
-- worker/pkg/parser/parser.go. A callback gets the nodes from its tree's root on, in the order of `Next`, as a
-- list; `nodes_at` reads them off the heap. The order of the goroutines of one token is an argument.
pub mod Orders
use news_tracker.Prelude.{
  ℕ, zero, suc, Option, some, none, List, [], ◌∷◌, if◌then◌else◌, Outcome, ok, timeout, ◌>>=◌,
}
use news_tracker.Ast.{Node, Heap}
use news_tracker.Selector.{Tree, ClassSelector}
use news_tracker.Parse.{Token, handle}
use news_tracker.Tokenizer.{IoReader, Tokenizer, has_err, next}

-- The chain of `Next` from a node on.
unfoldable pub nodes_at : ℕ → Heap → ℕ → Outcome (List Node)
nodes_at zero h p = timeout
nodes_at (suc f) h p = do
  let cell = h.cell p
  rest ← elim cell.next [ none ↦ ok [] | some q ↦ nodes_at f h q ]
  ok (cell.node ∷ rest)

-- Callbacks that change an `A`.
module _ (A : Type 0) where
  -- A selector and its callback.
  pub record Watcher : Type 0 where
    pub selector : ClassSelector
    pub callback : List Node → A → Outcome A

  unfoldable pub call_back : (List Node → A → Outcome A) → Option Tree → A → Outcome A
  unfolding nodes_at
  call_back callback none a = ok a
  call_back callback (some t) a = nodes_at t.heap.size t.heap t.root >>= λ nodes. callback nodes a

  -- What the goroutine of a selector does to the shared state; a callback is one step.
  abbrev pub Call : Type 0
  Call = A → Outcome A

  -- The order in which the goroutines of a token get at the shared state, by the rounds that are left.
  abbrev pub Schedule : Type 0
  Schedule = ℕ → List Call → List Call

  -- One token at each selector: the goroutines, whose selectors share nothing, each with what is left
  -- for it to do to the shared state.
  unfoldable pub handle_watched : Token → List Watcher → Outcome (List Watcher × List Call)
  unfolding call_back
  handle_watched t [] = ok ([], [])
  handle_watched t (w ∷ watchers) = do
    (s, tree) ← handle t w.selector
    (rest, calls) ← handle_watched t watchers
    ok (record { selector = s; callback = w.callback } ∷ rest, call_back w.callback tree ∷ calls)

  -- `wg.Wait()`: the calls, one after the other in the order in which they came.
  abbrev pub run_calls : List Call → Call
  run_calls [] a = ok a
  run_calls (call ∷ calls) a = call a >>= run_calls calls

  -- parser.Parse with these selectors.
  unfoldable pub parse_watched :
      (source : IoReader) → Schedule → ℕ → ℕ → Tokenizer source → List Watcher → A → Outcome A
  unfolding handle_watched
  parse_watched source schedule zero fuel t watchers a = timeout
  parse_watched source schedule (suc rounds) fuel t watchers a = do
    (token, t) ← next source fuel t
    let more = handle_watched token watchers >>= λ r.
        run_calls (schedule rounds r.1) a >>= λ a. parse_watched source schedule rounds fuel t r.0 a
    if has_err source t then ok a else more
