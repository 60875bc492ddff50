-- ===== src/Pagination/Closed.antt =====
-- The reference layout in closed form, near the front, in the middle and at the end.
use news_tracker.Prelude.{
  ℕ, zero, suc, ◌+◌, ◌<◌, Bool, true, false, ◌≡◌, ap, ◌∙◌, inl, List, ◌∷◌, ◌++◌, arith,
}
use news_tracker.Pagination.Links.{Item, page, gap, pages_from}
use news_tracker.Pagination.Window.{
  layout, reference, tail_of, layout_tail, layout_window, layout_shown, layout_hidden,
  layout_first_hidden,
}

-- The entries of the left part, for the page `q + 1`.
abbrev pub left_items : ℕ → List Item
left_items zero = pages_from 2 1
left_items (suc zero) = pages_from 3 1
left_items (suc (suc zero)) = page 1 ∷ pages_from 3 2
left_items (suc (suc (suc q))) = page 1 ∷ gap ∷ pages_from 3 (suc (suc (suc q)))

module _ (total : ℕ) where
  -- The number of rounds, written as the successors that the steps take off.
  rounds :
      (current n m : ℕ) → n ≡ m → layout current total n 1 false ≡ layout current total m 1 false
  rounds current n m e = ap (λ r. layout current total r 1 false) e

  window_tail :
      (q e : ℕ) (hidden : Bool)
      → total ≡ suc q + 2 + e
      → layout (suc q) total (suc (suc (suc (suc e)))) q hidden
        ≡ pages_from 3 q ++ tail_of (suc q) total e
  window_tail q e hidden et =
      layout_window q total (suc e) hidden (omega arith)
      ∙ ap (λ t. page q ∷ page (suc q) ∷ page (suc (suc q)) ∷ t) (layout_tail (suc q) total e et)

  pub left_reference :
      (q e : ℕ)
      → total ≡ suc q + 2 + e
      → reference (suc q) total ≡ left_items q ++ tail_of (suc q) total e
  left_reference zero e et =
      rounds 1 total (suc (suc (suc e))) (omega arith)
      ∙ layout_shown 1 total (suc (suc e)) 1 false (ground arith)
      ∙ ap (◌∷◌ (page 1)) (
          layout_shown 1 total (suc e) 2 false (ground arith)
          ∙ ap (◌∷◌ (page 2)) (layout_tail 1 total e et))
  left_reference (suc zero) e et =
      rounds 2 total (suc (suc (suc (suc e)))) (omega arith) ∙ window_tail 1 e false et
  left_reference (suc (suc zero)) e et =
      rounds 3 total (suc (suc (suc (suc (suc e))))) (omega arith)
      ∙ layout_shown 3 total (suc (suc (suc (suc e)))) 1 false (ground arith)
      ∙ ap (◌∷◌ (page 1)) (window_tail 2 e false et)
  left_reference (suc (suc (suc k))) e et =
      let q : ℕ = suc (suc (suc k)) in
      let r : ℕ = suc (suc (suc (suc e))) in
      rounds (suc q) total (suc (suc (k + r))) (omega arith)
      ∙ layout_shown (suc q) total (suc (k + r)) 1 false (ground arith)
      ∙ ap (◌∷◌ (page 1)) (
          layout_first_hidden (suc q) total (k + r) 2 (ground arith)
          ∙ ap (◌∷◌ gap) (
              layout_hidden (suc q) total k r 3 q (omega arith) (omega arith) (omega arith)
                (inl (omega arith))
              ∙ window_tail q e true et))

-- Up to the window of the page `k + 4`, with `r` rounds left.
front_reference :
    (k r total : ℕ)
    → total ≡ suc (suc (k + r))
    → 1 < r
    → reference (suc (suc (suc (suc k)))) total
      ≡ page 1 ∷ gap ∷ layout (suc (suc (suc (suc k)))) total r (suc (suc (suc k))) true
front_reference k r total et h =
    let q : ℕ = suc (suc (suc k)) in
    rounds total (suc q) total (suc (suc (k + r))) et
    ∙ layout_shown (suc q) total (suc (k + r)) 1 false (ground arith)
    ∙ ap (◌∷◌ (page 1)) (
        layout_first_hidden (suc q) total (k + r) 2 (ground arith)
        ∙ ap (◌∷◌ gap) (
            layout_hidden (suc q) total k r 3 q (omega arith) (omega arith) (omega arith)
              (inl (omega arith))))

-- From the fourth page on, at the end.
pub right_reference :
    (k d total : ℕ)
    → d < 2
    → total ≡ suc (suc (suc (suc k))) + d
    → reference (suc (suc (suc (suc k)))) total
      ≡ page 1 ∷ gap ∷ pages_from (suc (suc d)) (suc (suc (suc k)))
unfolding layout
right_reference k zero total h et =
    let q : ℕ = suc (suc (suc k)) in
    front_reference k 2 total (omega arith) (omega arith)
    ∙ ap (λ t. page 1 ∷ gap ∷ t)
        (layout_shown (suc q) total 1 q true (ground arith)
          ∙ ap (◌∷◌ (page q)) (layout_shown (suc q) total 0 (suc q) false (ground arith)))
right_reference k (suc zero) total h et =
    let q : ℕ = suc (suc (suc k)) in
    front_reference k 3 total (omega arith) (omega arith)
    ∙ ap (λ t. page 1 ∷ gap ∷ t) (layout_window q total 0 true (omega arith))
right_reference k (suc (suc d)) total h et = absurd (omega arith)
