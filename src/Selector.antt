-- ===== src/Selector.antt =====
-- worker/pkg/parser/selector/class_selector.go, and `ContainsClass` of worker/pkg/parser/utils.go.
-- The callback `treeCompleteFn` is called last in `OnClose`, so `on_close` returns the tree that it
-- is called with.
use news_tracker.Prelude.{
  ℕ, Bool, true, false, ◌||◌, Option, some, none, List, [], ◌∷◌, Bytes, codes, contains, find,
  if◌then◌else◌, Outcome, ok, ◌>>=◌,
}
use news_tracker.Ast.{
  Node, Heap, AstGenerator, append_open_tag, close_tag, pending_node, is_building, free,
  new_ast_generator,
}

-- A pointer into the heap of the generator that built the tree.
pub record Tree : Type 0 where
  pub root : ℕ
  pub heap : Heap

pub record ClassSelector : Type 0 where
  pub ast : AstGenerator
  pub classes : List Bytes

unfoldable pub contains_class : Bytes → List Bytes → Bool
contains_class class_string [] = false
contains_class class_string (selector ∷ selectors) =
    contains class_string selector || contains_class class_string selectors

-- A missing key, of a nil map too, reads as the empty string.
unfoldable pub attr_of : Bytes → Node → Bytes
attr_of key node = elim node.tag.attr [
  | none ↦ []
  | some m ↦ elim (find key m) [ none ↦ [] | some v ↦ v ]
]

unfoldable pub is_selected : List Bytes → Node → Bool
is_selected [] node = true
is_selected (c ∷ classes) node = contains_class (attr_of (codes "class") node) (c ∷ classes)

unfoldable pub on_open : Node → ClassSelector → ClassSelector
on_open node s =
    if is_building s.ast
    then record s { ast = append_open_tag node s.ast }
    else if is_selected s.classes node
    then record s { ast = append_open_tag node s.ast }
    else s

-- `onTreeComplete` frees the generator before it calls the callback.
unfoldable pub on_tree_complete :
    AstGenerator → ClassSelector → Option ℕ → ClassSelector × Option Tree
on_tree_complete g s none = (record s { ast = g }, none)
on_tree_complete g s (some r) =
    (record s { ast = free g }, some (record { root = r; heap = g.heap }))

unfoldable pub on_close : Node → ClassSelector → Outcome (ClassSelector × Option Tree)
on_close node s = do (g, complete) ← close_tag node s.ast; ok (on_tree_complete g s complete)

abbrev pub get_pending_node : ClassSelector → Option ℕ
get_pending_node s = pending_node s.ast

abbrev pub new_class_selector : List Bytes → ClassSelector
new_class_selector classes = record { ast = new_ast_generator; classes = classes }
