-- ===== src/Examples/Selector.antt =====
-- Tests of the selector, and its properties at concrete inputs.
use news_tracker.Prelude.{
  ℕ, String, true, ◌≡◌, refl, Option, some, List, [], ◌∷◌, Bytes, codes, eq_bytes, contains, find,
  put, remove, ok, Returns,
}
use news_tracker.Token.OpenTag.{OpenTag}
use news_tracker.Ast.{
  AstGenerator, append_open_tag, close_top, count_up, count_down, new_ast_generator,
}
use news_tracker.Ast.Forest.{close_forest}
use news_tracker.Ast.Refines.{Represents, AfterClose, close_top-AfterClose, Represents-append}
use news_tracker.Selector.{is_selected, contains_class, attr_of, new_class_selector}
use news_tracker.Parse.{Token, open_tag, close_tag, text, node_of_open, node_of_text, run}
use news_tracker.Parse.Build.{idle, build, build_token, build_close}
use news_tracker.Parse.Simulates.{Simulates, SameTrees, run-build}
use news_tracker.Parse.Runs.{Takes, run-Takes}

abbrev tag : String → String → OpenTag
tag name class = record { name = codes name; attr = some ((codes "class", codes class) ∷ []) }

-- `<li class="item">Hi<b></b></li>`
abbrev page : List Token
page =
    open_tag (tag "li" "item")
    ∷ text (codes "Hi")
    ∷ open_tag (tag "b" "")
    ∷ close_tag (record { name = codes "b" })
    ∷ close_tag (record { name = codes "li" })
    ∷ []

-- What follows the first token.
abbrev behind : List Token → List Token
behind [] = []
behind (t ∷ ts) = ts

abbrev classes : List Bytes
classes = codes "item" ∷ []

run-build_example :
    Returns
      (λ p.
        Simulates classes p.0 (build classes page idle).0
        × SameTrees p.1 (build classes page idle).1)
      (run page (new_class_selector classes))
run-build_example = run-build classes page

build-page :
    (build classes page idle).1
    ≡ (node_of_open (tag "li" "item") ∷ node_of_text (codes "Hi") ∷ node_of_open (tag "b" "") ∷ [])
      ∷ []
unfolding build build_token build_close close_forest is_selected attr_of contains_class count_up
    count_down find put remove contains eq_bytes
build-page = refl

item_selected : is_selected classes (node_of_open (tag "li" "item")) ≡ true
unfolding is_selected attr_of contains_class find contains eq_bytes
item_selected = refl

run-Takes_example :
    Returns (Takes (tag "li" "item") (behind page)) (run page (new_class_selector classes))
run-Takes_example = run-Takes classes (tag "li" "item") (behind page) item_selected

-- `<li>` with `<b>` inside, both open.
abbrev two_open : AstGenerator
two_open =
    append_open_tag (node_of_open (tag "b" ""))
      (append_open_tag (node_of_open (tag "li" "item")) new_ast_generator)

two_open-Represents :
    Represents two_open
      ((node_of_open (tag "b" "") ∷ []) ∷ (node_of_open (tag "li" "item") ∷ []) ∷ [])
two_open-Represents =
    Represents-append _ _ _ (
      Represents-append _ new_ast_generator []
        (record { stacked = tt; rooted = refl; auto = refl }))

close_top-AfterClose_example :
    (g' : AstGenerator) × (complete : Option ℕ) × (close_top (codes "li") two_open.nodes two_open
      ≡ ok (g', complete))
    × (g'.tag_names ≡ two_open.tag_names)
    × (g'.heap.size ≡ two_open.heap.size)
    × AfterClose
        (close_forest
          (codes "li")
          (node_of_open (tag "b" "") ∷ [])
          ((node_of_open (tag "li" "item") ∷ []) ∷ []))
        g'
        complete
close_top-AfterClose_example =
    close_top-AfterClose (codes "li") (node_of_open (tag "b" "") ∷ [])
      ((node_of_open (tag "li" "item") ∷ []) ∷ []) two_open two_open-Represents
