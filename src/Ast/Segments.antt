-- ===== src/Ast/Segments.antt =====
-- The heap as the generator uses it: the nodes of an open subtree are a chain of consecutive
-- pointers, and linking a subtree behind its parent joins two chains.
use news_tracker.Prelude.{
  ℕ, zero, suc, ◌+◌, ◌-◌, ◌≤◌, ◌<◌, ◌≡◌, refl, some, none, List, [], ◌∷◌, ◌++◌, length, ok, arith,
}
use news_tracker.Ast.{Node, Heap, set_next, last_child_of_node, link}

-- From `s` up to `e` the nodes are `seg`, each linked to the next one.
abbrev pub Chain : Heap → ℕ → ℕ → List Node → Type 0
Chain h s e [] = ⊥
Chain h s e (n ∷ []) = ((h.cell s).node ≡ n) × ((h.cell s).next ≡ none) × (suc s ≡ e)
Chain h s e (n ∷ m ∷ seg) =
    ((h.cell s).node ≡ n) × ((h.cell s).next ≡ some (suc s)) × Chain h (suc s) e (m ∷ seg)

pub Chain-lt : (seg : List Node) (h : Heap) (s e : ℕ) → Chain h s e seg → s + length seg ≡ e
Chain-lt [] h s e c = absurd c
Chain-lt (n ∷ []) h s e c = omega arith
Chain-lt (n ∷ m ∷ seg) h s e c = omega (arith, Chain-lt (m ∷ seg) h (suc s) e c.2)

pub Chain-pos : (seg : List Node) (h : Heap) (s e : ℕ) → Chain h s e seg → 0 < length seg
Chain-pos [] h s e c = absurd c
Chain-pos (n ∷ seg) h s e c = omega arith

-- The heap keeps what it holds below `e`.
abbrev pub SameBelow : ℕ → Heap → Heap → Type 0
SameBelow e h h' = (p : ℕ) → p < e → h'.cell p ≡ h.cell p

-- A chain does not change with what the heap holds elsewhere.
pub Chain-same :
    (seg : List Node) (h h' : Heap) (s e : ℕ)
    → ((p : ℕ) → s ≤ p → p < e → h'.cell p ≡ h.cell p)
    → Chain h s e seg
    → Chain h' s e seg
Chain-same [] h h' s e same c = c
Chain-same (n ∷ []) h h' s e same c = rw (same s (omega arith) (omega arith)) c
Chain-same (n ∷ m ∷ seg) h h' s e same (node, next, c) =
    let far = Chain-lt (m ∷ seg) h (suc s) e c in
    let here = same s (omega arith) (omega arith) in
    (
      rw here node,
      rw here next,
      Chain-same (m ∷ seg) h h' (suc s) e (λ p lo hi. same p (omega arith) hi) c,
    )

-- The last node of a chain is in front of its end, and the walk reaches it.
pub last_child-Chain :
    (seg : List Node) (h : Heap) (s e f : ℕ)
    → Chain h s e seg
    → length seg ≤ f
    → last_child_of_node f h s ≡ ok (e - 1)
unfolding last_child_of_node
last_child-Chain [] h s e f c l = absurd c
last_child-Chain (n ∷ seg) h s e zero c l = absurd (omega arith)
last_child-Chain (n ∷ []) h s e (suc f) c l = ground arith
last_child-Chain (n ∷ m ∷ seg) h s e (suc f) (node, next, c) l =
    rw (next, last_child_of_node) (last_child-Chain (m ∷ seg) h (suc s) e f c (omega arith))

-- The last node of one chain is linked to the first one of the next.
pub Chain-join :
    (seg seg' : List Node) (h : Heap) (t s e : ℕ)
    → Chain h t s seg
    → Chain h s e seg'
    → Chain (set_next (s - 1) s h) t e (seg ++ seg')
unfolding set_next
Chain-join [] seg' h t s e c c' = absurd c
Chain-join (n ∷ []) [] h t s e c c' = absurd c'
Chain-join (n ∷ []) (m ∷ seg') h t s e (node, next, last) c' =
    let e' : s - 1 ≡ t = omega arith in
    (
      ground (arith, e'),
      ground (arith, e'),
      rw last (Chain-same (m ∷ seg') h (set_next (s - 1) s h) s e (λ p lo hi. ground arith) c'),
    )
Chain-join (n ∷ m ∷ seg) seg' h t s e (node, next, c) c' =
    let far = Chain-lt (m ∷ seg) h (suc t) s c in
    (ground arith, ground arith, Chain-join (m ∷ seg) seg' h (suc t) s e c c')

-- `link` joins the chains, and changes nothing below the first one.
pub link-Chain :
    (seg seg' : List Node) (h : Heap) (t s e : ℕ)
    → Chain h t s seg
    → Chain h s e seg'
    → e ≤ h.size
    → (h' : Heap) × (link t s h ≡ ok h')
      × Chain h' t e (seg ++ seg')
      × SameBelow t h h'
      × (h'.size ≡ h.size)
unfolding link
link-Chain seg seg' h t s e c c' fits =
    let far = Chain-lt seg h t s c in
    let far' = Chain-lt seg' h s e c' in
    let some_node : 0 < length seg = Chain-pos seg h t s c in
    (
      set_next (s - 1) s h,
      rw (last_child-Chain seg h t s h.size c (omega arith)) refl,
      Chain-join seg seg' h t s e c c',
      (λ p lt. unfold set_next in ground arith),
      unfold set_next in refl,
    )
