-- ===== src/Parse/Build.antt =====
-- What a selector builds from tokens, with no pointers: the open subtrees and the counters.
use news_tracker.Prelude.{
  ℕ, Bool, true, false, not, ◌||◌, Option, some, none, List, [], ◌∷◌, Bytes, StringMap, find,
  if◌then◌else◌,
}
use news_tracker.Ast.{Node, count_up, count_down}
use news_tracker.Ast.Forest.{Forest, close_forest}
use news_tracker.Selector.{is_selected}
use news_tracker.Parse.{Token, open_tag, close_tag, text, comment, skip, node_of_open, node_of_text}

pub record Building : Type 0 where
  pub forest : Forest
  pub counts : StringMap ℕ

abbrev pub idle : Building
idle = record { forest = []; counts = [] }

abbrev pub grow : Node → Building → Building
grow n b = record { forest = (n ∷ []) ∷ b.forest; counts = count_up n.name b.counts }

abbrev pub is_idle : Forest → Bool
is_idle [] = true
is_idle (seg ∷ below) = false

abbrev pub closed : StringMap ℕ → Forest × Option (List Node) → Building × Option (List Node)
closed counts (forest, none) = (record { forest = forest; counts = counts }, none)
closed counts (forest, some tree) = (idle, some tree)

unfoldable pub build_close : Bytes → Forest → StringMap ℕ → Building × Option (List Node)
build_close name [] counts = (record { forest = []; counts = counts }, none)
build_close name (seg ∷ below) counts = elim (find name counts) [
  | none ↦ (record { forest = seg ∷ below; counts = counts }, none)
  | some c ↦ closed (count_down name c counts) (close_forest name seg below)
]

unfoldable pub build_token : List Bytes → Token → Building → Building × Option (List Node)
build_token classes (open_tag t) b =
    if not (is_idle b.forest) || is_selected classes (node_of_open t)
    then (grow (node_of_open t) b, none)
    else (b, none)
build_token classes (close_tag t) b = build_close t.name b.forest b.counts
build_token classes (text t) b =
    if not (is_idle b.forest) then (grow (node_of_text t) b, none) else (b, none)
build_token classes (comment t) b = (b, none)
build_token classes skip b = (b, none)

abbrev pub with_nodes : Option (List Node) → List (List Node) → List (List Node)
with_nodes none trees = trees
with_nodes (some t) trees = t ∷ trees

-- The complete trees in order, each as its nodes, and what is still open at the end.
unfoldable pub build : List Bytes → List Token → Building → Building × List (List Node)
build classes [] b = (b, [])
build classes (t ∷ ts) b =
    let (b', tree) = build_token classes t b in
    let (last, trees) = build classes ts b' in (last, with_nodes tree trees)
