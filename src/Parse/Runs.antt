-- ===== src/Parse/Runs.antt =====
-- What the callback of a selector gets, in terms of the tokens.
use news_tracker.Prelude.{
  Returns-weaken, true, ◌≡◌, ◌⊎◌, refl, inl, inr, List, [], ◌∷◌, ◌++◌, Bytes, Returns,
}
use news_tracker.Ast.{Node}
use news_tracker.Ast.Forest.{Forest, all_nodes}
use news_tracker.Ast.Segments.{Chain}
use news_tracker.Ast.Refines.{Represents}
use news_tracker.Selector.{Tree, ClassSelector, is_selected, new_class_selector}
use news_tracker.Parse.{Token, open_tag, node_of_open, run}
use news_tracker.Parse.Build.{idle, build}
use news_tracker.Parse.Simulates.{SameTrees, run-build}
use news_tracker.Parse.Contents.{nodes_of, selected_tree}
use news_tracker.Token.OpenTag.{OpenTag}

-- Nothing was handed out, and the nodes are all open.
abbrev pub StaysOpen : List Node → ClassSelector × List Tree → Type 0
StaysOpen nodes (s, trees) =
    (trees ≡ []) × (forest : Forest) × Represents s.ast forest × (all_nodes forest ≡ nodes)

-- The first tree that was handed out has these nodes, in the order of its `Next` pointers.
abbrev pub HandsOut : List Node → List Tree → Type 0
HandsOut nodes [] = ⊥
HandsOut nodes (t ∷ trees) = Chain t.heap t.root t.heap.size nodes

-- The nodes of the whole document are open, or those of a part of it from the first tag on were
-- handed out.
abbrev pub Takes : OpenTag → List Token → ClassSelector × List Tree → Type 0
Takes t ts p =
    StaysOpen (node_of_open t ∷ nodes_of ts) p
    ⊎ ((read : List Token) × (rest : List Token) × (ts ≡ read ++ rest)
        × HandsOut (node_of_open t ∷ nodes_of read) p.1)

none_handed_out :
    (trees : List Tree) (lists : List (List Node)) → lists ≡ [] → SameTrees trees lists → trees ≡ []
none_handed_out [] lists e h = refl
none_handed_out (t ∷ trees) [] e h = absurd h
none_handed_out (t ∷ trees) (l ∷ lists) e h = cc

first_handed_out :
    (nodes : List Node) (more : List (List Node)) (trees : List Tree) (lists : List (List Node))
    → lists ≡ nodes ∷ more
    → SameTrees trees lists
    → HandsOut nodes trees
first_handed_out nodes more [] [] e h = cc
first_handed_out nodes more [] (l ∷ lists) e h = h
first_handed_out nodes more (t ∷ trees) [] e h = absurd h
first_handed_out nodes more (t ∷ trees) (l ∷ lists) e h =
    let same : l ≡ nodes = cc in rw same at (h.0)

-- Where a document begins with a tag that is selected, the run of a new selector ends without a
-- panic, and either hands out nothing and has all nodes of the document open, or first hands out a
-- tree with the nodes of a part of the document from that tag on, none left out, in document order.
pub run-Takes :
    (classes : List Bytes) (t : OpenTag) (ts : List Token)
    → is_selected classes (node_of_open t) ≡ true
    → Returns (Takes t ts) (run (open_tag t ∷ ts) (new_class_selector classes))
run-Takes classes t ts h =
    Returns-weaken (run (open_tag t ∷ ts) (new_class_selector classes)) (Takes t ts)
      (run-build classes (open_tag t ∷ ts))
      λ p (sim, same). elim (selected_tree classes t ts h) [
        | inl (no_tree, nodes) ↦ inl (
          none_handed_out p.1 _ no_tree same,
          (build classes (open_tag t ∷ ts) idle).0.forest,
          sim.represents,
          nodes,
        )
        | inr (read, rest, s, trees, l) ↦ inr (read, rest, s, first_handed_out _ _ p.1 _ trees same)
      ]
