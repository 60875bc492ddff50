-- ===== src/Parse.antt =====
-- worker/pkg/parser/parser.go, behind the tokenizer: what each token does to the selectors. Each
-- selector handles the token in a goroutine of its own and touches its own state; `wg.Wait()` ends
-- the token before the next one is read. So a selector's run is a fold over the tokens.
pub mod Build
pub mod Simulates
pub mod Contents
pub mod Runs
use news_tracker.Prelude.{
  ℕ, zero, suc, ◌+◌, ◌-◌, ◌*◌, ◌%◌, ◌^◌, ◌≤◌, ◌<◌, String, Bool, true, false, not, ◌&&◌, ◌||◌, ◌≡◌,
  ◌≢◌, ◌↔◌, ◌⊎◌, refl, sym, ap, ◌∙◌, fun_ext, inl, inr, Option, some, none, List, [], ◌∷◌, ◌++◌,
  map, append_assoc, append-nil, Bytes, codes, length, length-append, get_elem?, get_elem?-append,
  get_elem?-some, get_elem?-none, take, drop, drop-length, take-length, ltb, leb, ◌==◌, ==_iff,
  ltb→lt, leb→le, eq_bytes, eq_bytes_iff, eq_bytes_refl, has_prefix, contains, replace_all,
  replace_from, StringMap, find, put, remove, find-put, find-remove, if◌then◌else◌, Bool-cases,
  Option-cases, Outcome, ok, panic, timeout, ◌>>=◌, Ends, Ends-bind, Ends-if, Ends-weaken,
  Ends-ne-timeout, Returns, Returns-bind, arith,
}
use news_tracker.Token.OpenTag.{OpenTag}
use news_tracker.Token.CloseTag.{CloseTag}
use news_tracker.Token.Utils.{remove_new_line}
use news_tracker.Ast.{Node, close_node, open_node, text_node}
use news_tracker.Selector.{Tree, ClassSelector, on_open, on_close, get_pending_node}

-- What `Next` returns, `skip` standing for a bare token type.
pub data Token : Type 0 where
  open_tag : OpenTag → Token
  close_tag : CloseTag → Token
  text : Bytes → Token
  comment : Bytes → Token
  skip : Token

abbrev pub nil_tag : OpenTag
nil_tag = record { name = []; attr = none }

abbrev pub node_of_open : OpenTag → Node
node_of_open t = record { name = t.name; kind = open_node; tag = t; content = [] }

abbrev pub node_of_close : CloseTag → Node
node_of_close t = record { name = t.name; kind = close_node; tag = nil_tag; content = [] }

abbrev pub node_of_text : Bytes → Node
node_of_text t = record {
  name = codes "TEXT_NODE";
  kind = text_node;
  tag = nil_tag;
  content = remove_new_line t;
}

-- The body of the goroutine of one selector.
unfoldable pub handle : Token → ClassSelector → Outcome (ClassSelector × Option Tree)
handle (open_tag t) s = ok (on_open (node_of_open t) s, none)
handle (close_tag t) s = elim (get_pending_node s) [
  | none ↦ ok (s, none)
  | some _ ↦ on_close (node_of_close t) s
]
handle (text t) s = elim (get_pending_node s) [
  | none ↦ ok (s, none)
  | some _ ↦ ok (on_open (node_of_text t) s, none)
]
handle (comment _) s = ok (s, none)
handle skip s = ok (s, none)

abbrev pub with_tree : Option Tree → List Tree → List Tree
with_tree none trees = trees
with_tree (some t) trees = t ∷ trees

-- The trees that one selector's callback is called with, in order, and its state at the end.
unfoldable pub run : List Token → ClassSelector → Outcome (ClassSelector × List Tree)
run [] s = ok (s, [])
run (t ∷ ts) s = do (s, tree) ← handle t s; (s, trees) ← run ts s; ok (s, with_tree tree trees)
