-- ===== src/Ast/Forest.antt =====
-- What the generator builds, with no pointers: the open subtrees, the innermost first, each as the
-- nodes that it holds so far in the order in which they were opened.
use news_tracker.Prelude.{
  false, ◌≡◌, Option, some, none, List, [], ◌∷◌, ◌++◌, Bytes, eq_bytes, if◌then◌else◌,
}
use news_tracker.Ast.{Node}

abbrev pub Forest : Type 0
Forest = List (List Node)

abbrev pub head_name : List Node → Bytes
head_name [] = []
head_name (n ∷ seg) = n.name

-- Closes the innermost subtree that `name` opened, or the whole tree: the subtrees that are passed
-- over are put behind their parents. The result is what stays open, or the complete tree.
unfoldable pub close_forest : Bytes → List Node → Forest → Forest × Option (List Node)
close_forest name seg [] = ([], some seg)
close_forest name seg (parent ∷ below) =
    if eq_bytes (head_name seg) name
    then ((parent ++ seg) ∷ below, none)
    else close_forest name (parent ++ seg) below

-- All the nodes of the forest, in the order in which they were opened.
abbrev pub all_nodes : Forest → List Node
all_nodes [] = []
all_nodes (seg ∷ below) = all_nodes below ++ seg

-- No open subtree was opened by `name`.
abbrev pub Lacks : Bytes → Forest → Type 0
Lacks name [] = Unit {0}
Lacks name (seg ∷ below) = (eq_bytes (head_name seg) name ≡ false) × Lacks name below
