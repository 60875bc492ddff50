-- ===== src/Pagination/Window.antt =====
-- Which pages a pagination shows, independently of the code: the first, the last, the current one
-- with its two neighbours, and one placeholder for each run of pages that are left out.
use news_tracker.Prelude.{
  ℕ, zero, suc, ◌+◌, ◌≤◌, ◌<◌, Bool, true, false, not, ◌&&◌, ◌||◌, ◌≡◌, ◌⊎◌, refl, ap, ◌∙◌, inr,
  List, [], ◌∷◌, leb, ◌==◌, if◌then◌else◌, arith,
}
use news_tracker.Pagination.Links.{Item, page, gap}

abbrev pub is_shown : ℕ → ℕ → ℕ → Bool
is_shown current total n = n == 1 || n == total || leb current (n + 1) && leb n (current + 1)

-- The entries for `rounds` pages from `n` on; `hidden` says that the page before `n` is left out.
unfoldable pub layout : ℕ → ℕ → ℕ → ℕ → Bool → List Item
layout current total zero n hidden = []
layout current total (suc rounds) n hidden =
    let shown = is_shown current total n in
    let rest = layout current total rounds (suc n) (not shown) in
    if shown then page n ∷ rest else if hidden then rest else gap ∷ rest

abbrev pub reference : ℕ → ℕ → List Item
reference current total = layout current total total 1 false

module _ (current total : ℕ) where
  pub layout_shown :
      (rounds n : ℕ) (hidden : Bool)
      → is_shown current total n ≡ true
      → layout current total (suc rounds) n hidden
        ≡ page n ∷ layout current total rounds (suc n) false
  unfolding layout
  layout_shown rounds n hidden h = rw h

  pub layout_first_hidden :
      (rounds n : ℕ)
      → is_shown current total n ≡ false
      → layout current total (suc rounds) n false ≡ gap ∷ layout current total rounds (suc n) true
  unfolding layout
  layout_first_hidden rounds n h = rw h

  pub layout_hidden :
      (k r n m : ℕ)
      → m ≡ n + k
      → 1 < n
      → m ≤ total
      → (m < current) ⊎ (current + 1 < n)
      → layout current total (k + r) n true ≡ layout current total r m true
  unfolding layout
  layout_hidden zero r n m e h l far =
      let r' : 0 + r ≡ r = omega arith in let n' : n ≡ m = omega arith in rw (r', n')
  layout_hidden (suc k) r n m e h l far =
      let rounds : suc k + r ≡ suc (k + r) = omega arith in
      let hidden : is_shown current total n ≡ false = ground arith in
      rw (rounds, layout)
        (rw hidden (layout_hidden k r (suc n) m (omega arith) (omega arith) l (ground arith)))

  -- What follows the window, with `e` pages between it and the last one.
  abbrev pub tail_of : ℕ → List Item
  tail_of zero = page total ∷ []
  tail_of (suc e) = gap ∷ page total ∷ []

  pub layout_last : (hidden : Bool) → layout current total 1 total hidden ≡ page total ∷ []
  layout_last hidden = layout_shown 0 total hidden (ground arith) ∙ unfold layout in refl

  pub layout_tail :
      (e : ℕ)
      → total ≡ current + 2 + e
      → layout current total (suc e) (current + 2) false ≡ tail_of e
  layout_tail zero et = let here : current + 2 ≡ total = omega arith in rw here (layout_last false)
  layout_tail (suc e) et =
      let rounds : suc e ≡ e + 1 = omega arith in
      layout_first_hidden (suc e) (current + 2) (ground arith)
      ∙ rw rounds (
          ap (◌∷◌ gap) (
            layout_hidden e 1 (suc (current + 2)) total (omega arith) (omega arith) (omega arith)
              (inr (omega arith))
            ∙ layout_last true))

module _ (q total : ℕ) where
  -- The window of the page `q + 1`.
  pub layout_window :
      (rounds : ℕ) (hidden : Bool)
      → q + 2 ≤ total
      → layout (suc q) total (suc (suc (suc rounds))) q hidden
        ≡ page q ∷ page (suc q) ∷ page (suc (suc q)) ∷ layout (suc q) total rounds (suc q + 2) false
  layout_window rounds hidden h =
      let behind : suc q + 2 ≡ suc (suc (suc q)) = omega arith in
      rw (
        layout_shown (suc q) total (suc (suc rounds)) q hidden (ground arith),
        layout_shown (suc q) total (suc rounds) (suc q) false (ground arith),
        layout_shown (suc q) total rounds (suc (suc q)) false (ground arith),
        behind,
      )
