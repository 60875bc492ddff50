-- ===== src/Parse/Simulates.antt =====
-- A selector, with its nodes on a heap and its links between them, builds what `build` says.
use news_tracker.Prelude.{
  ℕ, Bool, true, false, not, ◌||◌, ◌≡◌, refl, ap, ◌∙◌, inl, inr, Option, some, none, List, [], ◌∷◌,
  Bytes, StringMap, find, if◌then◌else◌, Option-cases, ok, Returns, Returns-bind,
}
use news_tracker.Ast.{
  Node, AstGenerator, append_open_tag, close_top, pending_node, is_building, free, count_up,
  count_down,
}
use news_tracker.Ast.Segments.{Chain}
use news_tracker.Ast.Forest.{Forest, close_forest}
use news_tracker.Ast.Refines.{
  Represents, Stack, bottom, bottom-some, AfterClose, close_top-AfterClose, Represents-append,
  pending_node-nil, pending_node-cons,
}
use news_tracker.Ast.{close_tag as ast_close_tag}
use news_tracker.Selector.{
  Tree, ClassSelector, is_selected, on_open, on_close, on_tree_complete, new_class_selector,
}
use news_tracker.Parse.{
  Token, open_tag, close_tag, text, comment, skip, node_of_open, node_of_text, node_of_close,
  handle, run, with_tree,
}
use news_tracker.Parse.Build.{
  Building, idle, grow, is_idle, closed, build_close, build_token, build, with_nodes,
}

pub record Simulates (classes : List Bytes) (s : ClassSelector) (b : Building) : Type 0 where
  pub represents : Represents s.ast b.forest
  pub counted : s.ast.tag_names ≡ b.counts
  pub same_classes : s.classes ≡ classes

-- The tree in memory, followed from its root through `Next`, is the list of nodes.
abbrev pub SameTree : Option Tree → Option (List Node) → Type 0
SameTree none none = Unit {0}
SameTree (some t) (some nodes) = Chain t.heap t.root t.heap.size nodes
SameTree _ _ = ⊥

abbrev pub SameTrees : List Tree → List (List Node) → Type 0
SameTrees [] [] = Unit {0}
SameTrees (t ∷ ts) (nodes ∷ rest) = Chain t.heap t.root t.heap.size nodes × SameTrees ts rest
SameTrees _ _ = ⊥

abbrev pub Step : List Bytes → Building × Option (List Node) → ClassSelector × Option Tree → Type 0
Step classes (b, nodes) (s, tree) = Simulates classes s b × SameTree tree nodes

building_iff :
    (g : AstGenerator) (forest : Forest)
    → Represents g forest
    → is_building g ≡ not (is_idle forest)
unfolding is_building
building_iff g forest w = go g.nodes forest w.stacked w.rooted
  where
    go :
        (stack : List ℕ) (f : Forest)
        → Stack g.heap g.heap.size stack f
        → g.root_node ≡ bottom stack
        → ◌≡◌ {A = Bool} (elim g.root_node [ none ↦ false | some _ ↦ true ]) (not (is_idle f))
    go [] [] st e = rw e
    go [] (seg ∷ f) st e = absurd st
    go (t ∷ stack) [] st e = absurd st
    go (t ∷ stack) (seg ∷ f) st e = let (b, eb) = bottom-some t stack in rw (e, eb)

module _ (classes : List Bytes) (s : ClassSelector) (b : Building) (w : Simulates classes s b) where
  grow-Simulates :
      (n : Node) → Simulates classes (record s { ast = append_open_tag n s.ast }) (grow n b)
  grow-Simulates n = record {
    represents = Represents-append n s.ast b.forest w.represents;
    counted = unfold append_open_tag in ap (count_up n.name) w.counted;
    same_classes = w.same_classes;
  }

  open-Step :
      (n : Node)
      → Step classes
          (if not (is_idle b.forest) || is_selected classes n then (grow n b, none) else (b, none))
          (on_open n s, none)
  unfolding on_open
  open-Step n =
      rw (building_iff s.ast b.forest w.represents, ap (λ cs. is_selected cs n) w.same_classes)
        (by_tests (not (is_idle b.forest)) (is_selected classes n))
    where
      by_tests :
          (c d : Bool)
          → Step classes (if c || d then (grow n b, none) else (b, none)) (
            if c
                then record s { ast = append_open_tag n s.ast }
                else if d
                then record s { ast = append_open_tag n s.ast }
                else s,
            none,
          )
      by_tests true d = (grow-Simulates n, tt)
      by_tests false true = (grow-Simulates n, tt)
      by_tests false false = (w, tt)

  closed-Step :
      (counts : StringMap ℕ) (res : Forest × Option (List Node)) (g : AstGenerator)
      (complete : Option ℕ)
      → g.tag_names ≡ counts
      → AfterClose res g complete
      → Step classes (closed counts res) (on_tree_complete g s complete)
  unfolding on_tree_complete
  closed-Step counts (forest, none) g complete e (cn, r) =
      rw cn (record { represents = r; counted = e; same_classes = w.same_classes }, tt)
  closed-Step counts (forest, some tree) g complete e (root, cs, auto, c) = rw cs (
    record {
      represents = unfold free in record { stacked = tt; rooted = refl; auto = auto };
      counted = unfold free in refl;
      same_classes = w.same_classes;
    },
    c,
  )

  closes :
      (name : Bytes) (seg : List Node) (below : Forest) (c : ℕ)
      → Represents s.ast (seg ∷ below)
      → Returns
          (λ p.
            Step classes
              (closed (count_down name c b.counts) (close_forest name seg below))
              (on_tree_complete p.0 s p.1))
          (close_top name s.ast.nodes
            (record s.ast { tag_names = count_down name c s.ast.tag_names }))
  closes name seg below c r =
      let g : AstGenerator = record s.ast { tag_names = count_down name c s.ast.tag_names } in
      let r' : Represents g (seg ∷ below) = record {
        stacked = r.stacked;
        rooted = r.rooted;
        auto = r.auto;
      } in
      let (g', complete, runs, names, size, after) = close_top-AfterClose name seg below g r' in
      rw runs (
        closed-Step (count_down name c b.counts) (close_forest name seg below) g' complete
          (names ∙ ap (count_down name c) w.counted) after)

  close-Step :
      (name : Bytes) (forest : Forest)
      → b.forest ≡ forest
      → Represents s.ast forest
      → Returns (Step classes (build_close name forest b.counts)) (elim (pending_node s.ast) [
        | none ↦ ok (s, none)
        | some _ ↦ on_close (node_of_close (record { name = name })) s
      ])
  unfolding build_close on_close ast_close_tag on_tree_complete
  close-Step name [] e r =
      rw (pending_node-nil s.ast r)
        (record { represents = r; counted = w.counted; same_classes = w.same_classes }, tt)
  close-Step name (seg ∷ below) e r =
      let (p, pending) = pending_node-cons s.ast seg below r in
      let same = ap (find name) w.counted in
      rw pending (elim (Option-cases (find name b.counts)) [
        | inl missing ↦
            rw (missing, same ∙ missing, build_close, ast_close_tag)
              (record { represents = r; counted = w.counted; same_classes = w.same_classes }, tt)
        | inr (c, found) ↦
            rw (found, same ∙ found, build_close, ast_close_tag)
              (Returns-bind
                (close_top name s.ast.nodes
                  (record s.ast { tag_names = count_down name c s.ast.tag_names }))
                _ _ (closes name seg below c r) (λ p h. h))
      ])

  text-Step :
      (n : Node) (forest : Forest)
      → b.forest ≡ forest
      → Represents s.ast forest
      → Returns
          (Step classes (if not (is_idle forest) then (grow n b, none) else (b, none)))
          (elim (pending_node s.ast) [ none ↦ ok (s, none) | some _ ↦ ok (on_open n s, none) ])
  text-Step n [] e r = rw (pending_node-nil s.ast r) (w, tt)
  text-Step n (seg ∷ below) e r =
      let (p, pending) = pending_node-cons s.ast seg below r in
      let grown : not (is_idle b.forest) ≡ true = rw e in rw pending (rw grown at (open-Step n))

-- What a token does to a selector is what `build_token` says, with no panic.
pub handle-Step :
    (classes : List Bytes) (t : Token) (s : ClassSelector) (b : Building)
    → Simulates classes s b
    → Returns (Step classes (build_token classes t b)) (handle t s)
unfolding handle build_token
handle-Step classes (open_tag t) s b w = open-Step classes s b w (node_of_open t)
handle-Step classes (close_tag t) s b w = close-Step classes s b w t.name b.forest refl w.represents
handle-Step classes (text t) s b w =
    text-Step classes s b w (node_of_text t) b.forest refl w.represents
handle-Step classes (comment t) s b w = (w, tt)
handle-Step classes skip s b w = (w, tt)

pub run-Simulates :
    (classes : List Bytes) (ts : List Token) (s : ClassSelector) (b : Building)
    → Simulates classes s b
    → Returns
        (λ p. Simulates classes p.0 (build classes ts b).0 × SameTrees p.1 (build classes ts b).1)
        (run ts s)
unfolding run build
run-Simulates classes [] s b w = (w, tt)
run-Simulates classes (t ∷ ts) s b w =
    Returns-bind (handle t s) _ _ (handle-Step classes t s b w) λ (s', tree) (w', same).
      Returns-bind (run ts s') _ _ (run-Simulates classes ts s' (build_token classes t b).0 w')
        λ (last, trees) (w'', same').
          (w'', with_same tree (build_token classes t b).1 trees _ same same')
  where
    with_same :
        (tree : Option Tree) (nodes : Option (List Node)) (trees : List Tree)
        (rest : List (List Node))
        → SameTree tree nodes
        → SameTrees trees rest
        → SameTrees (with_tree tree trees) (with_nodes nodes rest)
    with_same none none trees rest st sts = sts
    with_same none (some n) trees rest st sts = absurd st
    with_same (some t) none trees rest st sts = absurd st
    with_same (some t) (some n) trees rest st sts = (st, sts)

pub new-Simulates : (classes : List Bytes) → Simulates classes (new_class_selector classes) idle
new-Simulates classes = record {
  represents = record { stacked = tt; rooted = refl; auto = refl };
  counted = refl;
  same_classes = refl;
}

-- From a new selector, whatever the tokens: nothing panics, every walk along `Next` ends, and the
-- callback is called with the trees of `build`, in order; each tree, followed from its root through
-- `Next`, is its list of nodes.
pub run-build :
    (classes : List Bytes) (ts : List Token)
    → Returns
        (λ p.
          Simulates classes p.0 (build classes ts idle).0 × SameTrees p.1 (build classes ts idle).1)
        (run ts (new_class_selector classes))
run-build classes ts =
    run-Simulates classes ts (new_class_selector classes) idle (new-Simulates classes)
