-- ===== src/Ast.antt =====
-- worker/pkg/parser/ast_generator.go, the node of types.go and `LastChildOfNode` of utils.go. A node
-- is copied when it is appended and is reached through pointers from then on: the heap holds the
-- nodes that the generator has appended, and a pointer is an index into it. `onTreeComplete` is
-- called last in `CloseTag`, so `close_tag` returns the pointer that it is called with. The mutex
-- makes each operation one step.
pub mod Segments
pub mod Forest
pub mod Refines
use news_tracker.Prelude.{
  ℕ, zero, suc, ◌+◌, ◌-◌, ◌*◌, ◌%◌, ◌^◌, ◌≤◌, ◌<◌, String, Bool, true, false, not, ◌&&◌, ◌||◌, ◌≡◌,
  ◌≢◌, ◌↔◌, ◌⊎◌, refl, sym, ap, ◌∙◌, fun_ext, inl, inr, Option, some, none, List, [], ◌∷◌, ◌++◌,
  map, append_assoc, append-nil, Bytes, codes, length, length-append, get_elem?, get_elem?-append,
  get_elem?-some, get_elem?-none, take, drop, drop-length, take-length, ltb, leb, ◌==◌, ==_iff,
  ltb→lt, leb→le, eq_bytes, eq_bytes_iff, eq_bytes_refl, has_prefix, contains, replace_all,
  replace_from, StringMap, find, put, remove, find-put, find-remove, if◌then◌else◌, Bool-cases,
  Option-cases, Outcome, ok, panic, timeout, ◌>>=◌, Ends, Ends-bind, Ends-if, Ends-weaken,
  Ends-ne-timeout, Returns, Returns-bind, arith,
}
use news_tracker.Token.OpenTag.{OpenTag}

pub data NodeType : Type 0 where
  close_node open_node text_node : NodeType

-- The node that a caller fills in; it never sets `Next`.
pub record Node : Type 0 where
  pub name : Bytes
  pub kind : NodeType
  pub tag : OpenTag
  pub content : Bytes

-- A node in memory, with its `Next`.
pub record Cell : Type 0 where
  pub node : Node
  pub next : Option ℕ

-- The pointers below `size` are allocated.
pub record Heap : Type 0 where
  pub size : ℕ
  pub cell : ℕ → Cell

-- A tag name has a counter, an int32 kept as its bit pattern; the stack `nodes` has its top first.
pub record AstGenerator : Type 0 where
  pub tag_names : StringMap ℕ
  pub root_node : Option ℕ
  pub nodes : List ℕ
  pub auto_closing_node : Bool
  pub heap : Heap

abbrev pub name_at : Heap → ℕ → Bytes
name_at h p = (h.cell p).node.name

unfoldable pub alloc : Node → Heap → Heap
alloc node h = record {
  size = suc h.size;
  cell = λ p. if h.size == p then record { node = node; next = none } else h.cell p;
}

unfoldable pub set_next : ℕ → ℕ → Heap → Heap
set_next p q h = record h {
  cell = λ i. if p == i then record { node = (h.cell p).node; next = some q } else h.cell i;
}

-- `LastChildOfNode`, on fuel: a chain of allocated nodes is no longer than the heap.
unfoldable pub last_child_of_node : ℕ → Heap → ℕ → Outcome ℕ
last_child_of_node zero h p = timeout
last_child_of_node (suc f) h p = elim (h.cell p).next [
  | none ↦ ok p
  | some q ↦ last_child_of_node f h q
]

-- `LastChildOfNode(parent).Next = child`
unfoldable pub link : ℕ → ℕ → Heap → Outcome Heap
link parent child h = do last ← last_child_of_node h.size h parent; ok (set_next last child h)

abbrev pub int32_mod : ℕ
int32_mod = 2 ^ 32

unfoldable pub count_up : Bytes → StringMap ℕ → StringMap ℕ
count_up name m = elim (find name m) [
  | none ↦ put name 1 m
  | some c ↦ put name ((c + 1) % int32_mod) m
]

-- `Add(-1)`, and the entry is deleted at 0.
unfoldable pub count_down : Bytes → ℕ → StringMap ℕ → StringMap ℕ
count_down name c m =
    let c' = (c + (int32_mod - 1)) % int32_mod in if c' == 0 then remove name m else put name c' m

unfoldable pub append_open_tag : Node → AstGenerator → AstGenerator
unfolding alloc count_up
append_open_tag node g = record g {
  tag_names = count_up node.name g.tag_names;
  nodes = g.heap.size ∷ g.nodes;
  heap = alloc node g.heap;
  root_node = elim g.root_node [ none ↦ some g.heap.size | some r ↦ some r ];
}

-- The loop of `CloseTag`. Its test is made again at the end of the body, for the `break`.
unfoldable pub skip_unclosed : Bytes → Bool → ℕ → List ℕ → Heap → Outcome (ℕ × List ℕ × Heap)
skip_unclosed name auto target [] h = ok (target, [], h)
skip_unclosed name auto target (t ∷ rest) h =
    let more =
      (if auto then link t target h else ok h) >>= λ h'. skip_unclosed name auto t rest h' in
    if eq_bytes (name_at h target) name then ok (target, t ∷ rest, h) else more

-- Links the closed node behind the node that is still open, if there is one.
unfoldable pub link_to_parent : Bytes → ℕ → List ℕ → Heap → Outcome Heap
link_to_parent name target [] h = ok h
link_to_parent name target (parent ∷ rest) h =
    if eq_bytes (name_at h target) name then link parent target h else ok h

unfoldable pub is_root : Option ℕ → ℕ → Bool
is_root none target = false
is_root (some r) target = r == target

-- `CloseTag` behind the test on the counter. With no open node `targetNode` is nil, and its name is
-- read.
unfoldable pub close_top : Bytes → List ℕ → AstGenerator → Outcome (AstGenerator × Option ℕ)
close_top name [] g = panic
close_top name (top ∷ below) g = do
  (target, rest, h) ← skip_unclosed name g.auto_closing_node top below g.heap
  h ← link_to_parent name target rest h
  let complete = if is_root g.root_node target then g.root_node else none
  ok (record g { nodes = rest; heap = h }, complete)

unfoldable pub close_tag : Node → AstGenerator → Outcome (AstGenerator × Option ℕ)
close_tag closing g = elim (find closing.name g.tag_names) [
  | none ↦ ok (g, none)
  | some c ↦
      close_top closing.name g.nodes
        (record g { tag_names = count_down closing.name c g.tag_names })
]

unfoldable pub pending_node : AstGenerator → Option ℕ
pending_node g = elim g.nodes [ [] ↦ none | p ∷ _ ↦ some p ]

unfoldable pub is_building : AstGenerator → Bool
is_building g = elim g.root_node [ none ↦ false | some _ ↦ true ]

-- The nodes that were handed out stay where they are.
unfoldable pub free : AstGenerator → AstGenerator
free g = record g { root_node = none; nodes = []; tag_names = [] }

abbrev nil_node : Node
nil_node = record {
  name = [];
  kind = open_node;
  tag = record { name = []; attr = none };
  content = [];
}

abbrev pub new_ast_generator : AstGenerator
new_ast_generator = record {
  tag_names = [];
  root_node = none;
  nodes = [];
  auto_closing_node = true;
  heap = record { size = 0; cell = λ _. record { node = nil_node; next = none } };
}
