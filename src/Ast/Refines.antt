-- ===== src/Ast/Refines.antt =====
-- `CloseTag` on the heap does what `close_forest` says.
use news_tracker.Prelude.{
  ℕ, ◌≤◌, true, false, ◌≡◌, refl, sym, ap, ◌∙◌, inl, inr, Option, some, none, List, [], ◌∷◌, ◌++◌,
  Bytes, eq_bytes, if◌then◌else◌, Bool-cases, ok, arith,
}
use news_tracker.Ast.{
  Node, Heap, AstGenerator, name_at, alloc, append_open_tag, pending_node, skip_unclosed,
  link_to_parent, is_root, close_top,
}
use news_tracker.Ast.Segments.{Chain, Chain-lt, Chain-pos, Chain-same, SameBelow, link-Chain}
use news_tracker.Ast.Forest.{Forest, head_name, close_forest}

-- The stack of pointers, top first, stands for the open subtrees.
abbrev pub Stack : Heap → ℕ → List ℕ → Forest → Type 0
Stack h e [] [] = Unit {0}
Stack h e [] (seg ∷ below) = ⊥
Stack h e (s ∷ stack) [] = ⊥
Stack h e (s ∷ stack) (seg ∷ below) = Chain h s e seg × Stack h s stack below

abbrev pub bottom : List ℕ → Option ℕ
bottom [] = none
bottom (s ∷ []) = some s
bottom (s ∷ t ∷ stack) = bottom (t ∷ stack)

pub Stack-same :
    (forest : Forest) (stack : List ℕ) (h h' : Heap) (e : ℕ)
    → SameBelow e h h'
    → Stack h e stack forest
    → Stack h' e stack forest
Stack-same [] [] h h' e same st = tt
Stack-same [] (s ∷ stack) h h' e same st = st
Stack-same (seg ∷ forest) [] h h' e same st = st
Stack-same (seg ∷ forest) (s ∷ stack) h h' e same (c, st) =
    let far = Chain-lt seg h s e c in
    (
      Chain-same seg h h' s e (λ p lo hi. same p hi) c,
      Stack-same forest stack h h' s (λ p lt. same p (omega arith)) st,
    )

-- The bottom of a stack lies below all that stands above the stack.
is_root-above :
    (forest : Forest) (stack : List ℕ) (h : Heap) (e p : ℕ)
    → Stack h e stack forest
    → e ≤ p
    → is_root (bottom stack) p ≡ false
unfolding is_root
is_root-above [] [] h e p st le = refl
is_root-above [] (s ∷ stack) h e p st le = absurd st
is_root-above (seg ∷ forest) [] h e p st le = absurd st
is_root-above (seg ∷ forest) (s ∷ []) h e p (c, st) le =
    ground (arith, Chain-lt seg h s e c, Chain-pos seg h s e c)
is_root-above (seg ∷ forest) (s ∷ t ∷ stack) h e p (c, st) le =
    is_root-above forest (t ∷ stack) h s p st (omega (arith, Chain-lt seg h s e c))

Chain-name : (seg : List Node) (h : Heap) (s e : ℕ) → Chain h s e seg → name_at h s ≡ head_name seg
Chain-name [] h s e c = absurd c
Chain-name (n ∷ []) h s e c = ap (λ (m : Node). m.name) c.0
Chain-name (n ∷ m ∷ seg) h s e c = ap (λ (m : Node). m.name) c.0

-- What the stack is after the loop and the link, for the result of `close_forest`.
abbrev Closed : Heap → ℕ → Option ℕ → ℕ → List ℕ → Forest × Option (List Node) → Type 0
Closed h e root target rest (forest, none) =
    Stack h e rest forest × (bottom rest ≡ root) × (is_root root target ≡ false)
Closed h e root target rest (forest, some tree) =
    (forest ≡ []) × (rest ≡ []) × (root ≡ some target) × Chain h target e tree

record Closes (name : Bytes) (seg : List Node) (below : Forest) (t e : ℕ) (stack : List ℕ)
    (h : Heap) : Type 0 where
  target : ℕ
  rest : List ℕ
  skipped : Heap
  linked : Heap
  skips : skip_unclosed name true t stack h ≡ ok (target, rest, skipped)
  links : link_to_parent name target rest skipped ≡ ok linked
  same_size : linked.size ≡ h.size
  closed : Closed linked e (bottom (t ∷ stack)) target rest (close_forest name seg below)

close-Closes :
    (name : Bytes) (below : Forest) (seg : List Node) (stack : List ℕ) (t e : ℕ) (h : Heap)
    → Chain h t e seg
    → Stack h t stack below
    → e ≤ h.size
    → Closes name seg below t e stack h
unfolding skip_unclosed link_to_parent close_forest
close-Closes name [] seg [] t e h c st fits = record {
  target = t;
  rest = [];
  skipped = h;
  linked = h;
  skips = refl;
  links = refl;
  same_size = refl;
  closed = (refl, refl, refl, c);
}
close-Closes name [] seg (p ∷ stack) t e h c st fits = absurd st
close-Closes name (parent ∷ below) seg [] t e h c st fits = absurd st
close-Closes name (parent ∷ below) seg (p ∷ stack) t e h c (cp, st) fits =
    let (h', joined, c', same, size) = link-Chain parent seg h p t e cp c fits in
    let named = Chain-name seg h t e c in
    let st' = Stack-same below stack h h' p same st in
    elim (Bool-cases (eq_bytes (head_name seg) name)) [
      | inl matches ↦ record {
        target = t;
        rest = p ∷ stack;
        skipped = h;
        linked = h';
        skips = rw (named, matches);
        links = rw (named, matches) joined;
        same_size = size;
        closed = rw matches (
          (c', st'),
          refl,
          is_root-above (parent ∷ below) (p ∷ stack) h t t (cp, st) (omega arith),
        );
      }
      | inr differs ↦
          let later = close-Closes name below (parent ++ seg) stack p e h' c' st' (omega arith) in
          record {
            target = later.target;
            rest = later.rest;
            skipped = later.skipped;
            linked = later.linked;
            skips = rw (named, differs, joined) later.skips;
            links = later.links;
            same_size = later.same_size ∙ size;
            closed = rw differs later.closed;
          }
    ]

-- The generator holds the forest.
pub record Represents (g : AstGenerator) (forest : Forest) : Type 0 where
  pub stacked : Stack g.heap g.heap.size g.nodes forest
  pub rooted : g.root_node ≡ bottom g.nodes
  pub auto : g.auto_closing_node ≡ true

-- What a call of `CloseTag` leaves: the forest, or a complete tree, handed to `onTreeComplete`.
abbrev pub AfterClose : Forest × Option (List Node) → AstGenerator → Option ℕ → Type 0
AfterClose (forest, none) g complete = (complete ≡ none) × Represents g forest
AfterClose (forest, some tree) g complete =
    (r : ℕ) × (complete ≡ some r) × (g.auto_closing_node ≡ true) × Chain g.heap r g.heap.size tree

is_root_self : (r : ℕ) → is_root (some r) r ≡ true
unfolding is_root
is_root_self r = ground arith

after_close :
    (res : Forest × Option (List Node)) (g : AstGenerator) (target : ℕ) (rest : List ℕ) (h : Heap)
    (root : Option ℕ)
    → g.root_node ≡ root
    → g.auto_closing_node ≡ true
    → h.size ≡ g.heap.size
    → Closed h g.heap.size root target rest res
    → AfterClose res
        (record g { nodes = rest; heap = h })
        (if is_root root target then root else none)
after_close (forest, none) g target rest h root er auto size (st, bot, far) =
    rw far (refl, record { stacked = rw size st; rooted = er ∙ sym bot; auto = auto })
after_close (forest, some tree) g target rest h root er auto size (fe, re, rt, c) =
    rw (rt, is_root_self target) (target, refl, auto, rw size c)

close_top-Stack :
    (name : Bytes) (seg : List Node) (below : Forest) (stack : List ℕ) (g : AstGenerator)
    → Stack g.heap g.heap.size stack (seg ∷ below)
    → g.root_node ≡ bottom stack
    → g.auto_closing_node ≡ true
    → (g' : AstGenerator) × (complete : Option ℕ) × (close_top name stack g ≡ ok (g', complete))
      × (g'.tag_names ≡ g.tag_names)
      × (g'.heap.size ≡ g.heap.size)
      × AfterClose (close_forest name seg below) g' complete
unfolding close_top
close_top-Stack name seg below [] g st rooted auto = absurd st
close_top-Stack name seg below (t ∷ stack) g (c, st) rooted auto =
    let done = close-Closes name below seg stack t g.heap.size g.heap c st (omega arith) in
    (
      record g { nodes = done.rest; heap = done.linked },
      if is_root (bottom (t ∷ stack)) done.target then bottom (t ∷ stack) else none,
      rw (auto, done.skips, done.links, rooted),
      refl,
      done.same_size,
      after_close (close_forest name seg below) g done.target done.rest done.linked
          (bottom (t ∷ stack)) rooted auto done.same_size done.closed,
    )

-- `CloseTag`, behind the test on the counter, on a generator that holds a forest with a subtree open: it
-- neither panics nor loops, keeps the counters and the size of the heap, and leaves what
-- `close_forest` says: the forest, or the complete tree for the callback.
pub close_top-AfterClose :
    (name : Bytes) (seg : List Node) (below : Forest) (g : AstGenerator)
    → Represents g (seg ∷ below)
    → (g' : AstGenerator) × (complete : Option ℕ) × (close_top name g.nodes g ≡ ok (g', complete))
      × (g'.tag_names ≡ g.tag_names)
      × (g'.heap.size ≡ g.heap.size)
      × AfterClose (close_forest name seg below) g' complete
close_top-AfterClose name seg below g w =
    close_top-Stack name seg below g.nodes g w.stacked w.rooted w.auto

pub bottom-some : (t : ℕ) (stack : List ℕ) → (b : ℕ) × (bottom (t ∷ stack) ≡ some b)
bottom-some t [] = (t, refl)
bottom-some t (s ∷ stack) = bottom-some s stack

-- The root pointer is set by the first node, and kept by the others.
root_kept :
    (stack : List ℕ) (root : Option ℕ) (n : ℕ)
    → root ≡ bottom stack
    → ◌≡◌ {A = Option ℕ} (elim root [ none ↦ some n | some r ↦ some r ]) (bottom (n ∷ stack))
root_kept [] root n e = rw e
root_kept (t ∷ stack) root n e = let (b, f) = bottom-some t stack in rw (e, f)

-- A new node is a subtree of its own, inside the others.
pub Represents-append :
    (n : Node) (g : AstGenerator) (forest : Forest)
    → Represents g forest
    → Represents (append_open_tag n g) ((n ∷ []) ∷ forest)
unfolding append_open_tag
Represents-append n g forest w = record {
  stacked = (
    (ground arith, ground arith, refl),
    Stack-same forest g.nodes g.heap (alloc n g.heap) g.heap.size
        (λ p lt. unfold alloc in ground arith) w.stacked,
  );
  rooted = root_kept g.nodes g.root_node g.heap.size w.rooted;
  auto = w.auto;
}

-- A node is pending exactly while a subtree is open.
pub pending_node-nil : (g : AstGenerator) → Represents g [] → pending_node g ≡ none
unfolding pending_node
pending_node-nil g w = go g.nodes w.stacked
  where
    go :
        (stack : List ℕ)
        → Stack g.heap g.heap.size stack []
        → ◌≡◌ {A = Option ℕ} (elim stack [ [] ↦ none | p ∷ _ ↦ some p ]) none
    go [] st = refl
    go (s ∷ stack) st = absurd st

pub pending_node-cons :
    (g : AstGenerator) (seg : List Node) (below : Forest)
    → Represents g (seg ∷ below)
    → (p : ℕ) × (pending_node g ≡ some p)
unfolding pending_node
pending_node-cons g seg below w = go g.nodes w.stacked
  where
    go :
        (stack : List ℕ)
        → Stack g.heap g.heap.size stack (seg ∷ below)
        → (p : ℕ) × ◌≡◌ {A = Option ℕ} (elim stack [ [] ↦ none | q ∷ _ ↦ some q ]) (some p)
    go [] st = absurd st
    go (s ∷ stack) st = (s, refl)
