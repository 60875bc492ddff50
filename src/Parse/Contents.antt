-- ===== src/Parse/Contents.antt =====
-- What a complete tree holds: every node from its root on, in document order.
use news_tracker.Prelude.{
  ℕ, true, false, ◌≡◌, ◌⊎◌, refl, sym, ap, ◌∙◌, inl, inr, Option, some, none, List, [], ◌∷◌, ◌++◌,
  append_assoc, append-nil, Bytes, eq_bytes, StringMap, find, Bool-cases, Option-cases,
}
use news_tracker.Ast.{Node, count_down}
use news_tracker.Ast.Forest.{Forest, head_name, close_forest, all_nodes}
use news_tracker.Selector.{is_selected}
use news_tracker.Parse.{Token, open_tag, close_tag, text, comment, skip, node_of_open, node_of_text}
use news_tracker.Parse.Build.{
  Building, idle, grow, is_idle, closed, build_close, build_token, build,
}
use news_tracker.Token.OpenTag.{OpenTag}

-- The nodes that a token brings: closing tags and comments bring none.
abbrev pub nodes_of_token : Token → List Node
nodes_of_token (open_tag t) = node_of_open t ∷ []
nodes_of_token (text t) = node_of_text t ∷ []
nodes_of_token _ = []

abbrev pub nodes_of : List Token → List Node
nodes_of [] = []
nodes_of (t ∷ ts) = nodes_of_token t ++ nodes_of ts

nodes_of-append : (ts us : List Token) → nodes_of (ts ++ us) ≡ nodes_of ts ++ nodes_of us
nodes_of-append [] us = refl
nodes_of-append (t ∷ ts) us =
    rw (nodes_of-append ts us) (sym (append_assoc (nodes_of_token t) (nodes_of ts) (nodes_of us)))

-- After a token with a tree open: the tree is open still, with the token's nodes at its end, or it is
-- complete, and the selector is idle.
abbrev After : List Node → Building × Option (List Node) → Type 0
After nodes (b, none) = (is_idle b.forest ≡ false) × (all_nodes b.forest ≡ nodes)
After nodes (b, some tree) = (b ≡ idle) × (tree ≡ nodes)

close-After :
    (name : Bytes) (seg : List Node) (below : Forest) (counts : StringMap ℕ)
    → After (all_nodes below ++ seg) (closed counts (close_forest name seg below))
unfolding close_forest
close-After name seg [] counts = (refl, refl)
close-After name seg (parent ∷ below) counts = elim (Bool-cases (eq_bytes (head_name seg) name)) [
  | inl e ↦ rw e (refl, sym (append_assoc (all_nodes below) parent seg))
  | inr e ↦
      rw (e, append_assoc (all_nodes below) parent seg)
        (close-After name (parent ++ seg) below counts)
]

build_close-After :
    (name : Bytes) (forest : Forest) (counts : StringMap ℕ)
    → is_idle forest ≡ false
    → After (all_nodes forest) (build_close name forest counts)
unfolding build_close
build_close-After name [] counts h = cc
build_close-After name (seg ∷ below) counts h = elim (Option-cases (find name counts)) [
  | inl e ↦ rw (e, build_close) (refl, refl)
  | inr (c, e) ↦ rw (e, build_close) (close-After name seg below (count_down name c counts))
]

build_token-After :
    (classes : List Bytes) (t : Token) (b : Building)
    → is_idle b.forest ≡ false
    → After (all_nodes b.forest ++ nodes_of_token t) (build_token classes t b)
unfolding build_token
build_token-After classes (open_tag t) b h = rw h (refl, refl)
build_token-After classes (close_tag t) b h =
    rw append-nil (build_close-After t.name b.forest b.counts h)
build_token-After classes (text t) b h = rw h (refl, refl)
build_token-After classes (comment t) b h = rw append-nil (h, refl)
build_token-After classes skip b h = rw append-nil (h, refl)

-- The tree that is open stays open up to the end of the tokens, or it is complete after `read`; then
-- the rest is built from an idle selector.
pub data Completes (classes : List Bytes) (ts : List Token) (b : Building) : Type 0 where
  stays_open :
      (build classes ts b).1 ≡ []
      → is_idle (build classes ts b).0.forest ≡ false
      → all_nodes (build classes ts b).0.forest ≡ all_nodes b.forest ++ nodes_of ts
      → Completes classes ts b
  completes :
      (read rest : List Token)
      → ts ≡ read ++ rest
      → (build classes ts b).0 ≡ (build classes rest idle).0
      → (build classes ts b).1 ≡ (all_nodes b.forest ++ nodes_of read) ∷ (build classes rest idle).1
      → Completes classes ts b

Completes-cons :
    (classes : List Bytes) (t : Token) (ts : List Token) (b : Building)
    (res : Building × Option (List Node))
    → build_token classes t b ≡ res
    → After (all_nodes b.forest ++ nodes_of_token t) res
    → (is_idle res.0.forest ≡ false → Completes classes ts res.0)
    → Completes classes (t ∷ ts) b
unfolding build
Completes-cons classes t ts b (b', none) e (i, all) later = elim (later i) [
  | stays_open no_tree op nodes ↦
      stays_open (rw e no_tree) (rw e op)
        (rw e (nodes ∙ rw all (append_assoc (all_nodes b.forest) (nodes_of_token t) (nodes_of ts))))
  | completes read rest s l ts' ↦
      completes (t ∷ read) rest (ap (◌∷◌ t) s) (rw e l) (
        rw e (ts' ∙ rw (all, append_assoc (all_nodes b.forest) (nodes_of_token t) (nodes_of read))))
]
Completes-cons classes t ts b (b', some tree) e (i, all) later =
    completes (t ∷ []) ts refl (rw (e, i)) (rw (e, i, all, append-nil))

build-Completes :
    (classes : List Bytes) (ts : List Token) (b : Building)
    → is_idle b.forest ≡ false
    → Completes classes ts b
build-Completes classes [] b h = unfold build in stays_open refl h (sym (append-nil _))
build-Completes classes (t ∷ ts) b h =
    Completes-cons classes t ts b (build_token classes t b) refl (build_token-After classes t b h)
      (λ h'. build-Completes classes ts (build_token classes t b).0 h')

-- Once an opening tag has been selected, its tree takes every node that follows, in document order,
-- none left out, none twice, until it is complete; then the selector starts afresh.
pub selected_tree :
    (classes : List Bytes) (t : OpenTag) (ts : List Token)
    → is_selected classes (node_of_open t) ≡ true
    → ((build classes (open_tag t ∷ ts) idle).1 ≡ [])
        × (all_nodes (build classes (open_tag t ∷ ts) idle).0.forest ≡ node_of_open t ∷ nodes_of ts)
      ⊎ ((read : List Token) × (rest : List Token) × (ts ≡ read ++ rest)
          × ((build classes (open_tag t ∷ ts) idle).1
              ≡ (node_of_open t ∷ nodes_of read) ∷ (build classes rest idle).1)
          × ((build classes (open_tag t ∷ ts) idle).0 ≡ (build classes rest idle).0))
unfolding build build_token
selected_tree classes t ts h =
    rw h (elim (build-Completes classes ts (grow (node_of_open t) idle) refl) [
      | stays_open no_tree op nodes ↦ inl (no_tree, nodes)
      | completes read rest s l trees ↦ inr (read, rest, s, trees, l)
    ])

-- Nothing is built before an opening tag is selected.
pub build-unselected :
    (classes : List Bytes) (t : OpenTag) (ts : List Token)
    → is_selected classes (node_of_open t) ≡ false
    → build classes (open_tag t ∷ ts) idle ≡ build classes ts idle
unfolding build build_token
build-unselected classes t ts h = rw h
