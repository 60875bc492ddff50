-- ===== src/Token/Utils.antt =====
-- token/utils.go
use news_tracker.Prelude.{
  ℕ, Bool, false, not, ◌&&◌, ◌||◌, ◌≡◌, refl, ◌∙◌, [], ◌∷◌, Bytes, ◌==◌, contains, replace_all,
  replace_from, if◌then◌else◌, arith,
}
use news_tracker.Token.Reader.{new_line, c_return, tab, space}

-- Deletes every pair of spaces, and each tab, newline and carriage return.
unfoldable pub remove_new_line : Bytes → Bytes
unfolding replace_all
remove_new_line source =
    let source = replace_all source (space ∷ space ∷ []) [] in
    let source = replace_all source (tab ∷ []) [] in
    let source = replace_all source (new_line ∷ []) [] in
    let source = replace_all source (c_return ∷ []) [] in
    replace_all source (c_return ∷ new_line ∷ []) []

-- Text with no pair of spaces, tab, newline or carriage return.
pub record IsClean (s : Bytes) : Type 0 where
  pub no_spaces : contains s (space ∷ space ∷ []) ≡ false
  pub no_tab : contains s (tab ∷ []) ≡ false
  pub no_new_line : contains s (new_line ∷ []) ≡ false
  pub no_c_return : contains s (c_return ∷ []) ≡ false

replace_from-absent :
    (x : ℕ) (old s : Bytes) → contains s (x ∷ old) ≡ false → replace_from (x ∷ old) [] 0 s ≡ s
unfolding replace_from contains
replace_from-absent x old [] h = refl
replace_from-absent x old (c ∷ s) h = ground (arith, replace_from-absent x old s)

contains-longer :
    (x : ℕ) (old s : Bytes) → contains s (x ∷ []) ≡ false → contains s (x ∷ old) ≡ false
unfolding contains
contains-longer x old [] h = refl
contains-longer x old (c ∷ s) h = ground (arith, contains-longer x old s)

-- Clean text stays as it is.
pub remove_new_line-IsClean : (s : Bytes) → IsClean s → remove_new_line s ≡ s
unfolding remove_new_line
remove_new_line-IsClean s c = simp (
  replace_from-absent space _ s c.no_spaces,
  replace_from-absent tab _ s c.no_tab,
  replace_from-absent new_line _ s c.no_new_line,
  replace_from-absent c_return _ s c.no_c_return,
  replace_from-absent c_return _ s (contains-longer c_return (new_line ∷ []) s c.no_c_return),
)

contains-replace_from :
    (x : ℕ) (s : Bytes) → contains (replace_from (x ∷ []) [] 0 s) (x ∷ []) ≡ false
unfolding replace_from contains
contains-replace_from x [] = refl
contains-replace_from x (c ∷ s) = ground (arith, contains-replace_from x s)

-- The text without its pairs of spaces, from the left: of three spaces in a row the third stays.
abbrev pub squeeze : Bytes → Bytes
squeeze [] = []
squeeze (c ∷ []) = c ∷ []
squeeze (c ∷ d ∷ s) =
    let rest = squeeze s in
    let more = squeeze (d ∷ s) in if c == space && d == space then rest else c ∷ more

abbrev pub keep : (ℕ → Bool) → Bytes → Bytes
keep f [] = []
keep f (c ∷ s) = let rest = keep f s in if f c then c ∷ rest else rest

abbrev pub is_visible : ℕ → Bool
is_visible c = not (c == tab || c == new_line || c == c_return)

replace_from-squeeze : (s : Bytes) → replace_from (space ∷ space ∷ []) [] 0 s ≡ squeeze s
unfolding replace_from
replace_from-squeeze [] = refl
replace_from-squeeze (c ∷ []) = ground arith
replace_from-squeeze (c ∷ d ∷ s) =
    ground (arith, replace_from-squeeze s, replace_from-squeeze (d ∷ s))

replace_from-keep : (x : ℕ) (s : Bytes) → replace_from (x ∷ []) [] 0 s ≡ keep (λ c. not (c == x)) s
unfolding replace_from
replace_from-keep x [] = refl
replace_from-keep x (c ∷ s) = ground (arith, replace_from-keep x s)

keep-keep :
    (s : Bytes)
    → keep
        (λ c. not (c == c_return))
        (keep (λ c. not (c == new_line)) (keep (λ c. not (c == tab)) s))
      ≡ keep is_visible s
keep-keep [] = refl
keep-keep (c ∷ s) = ground (arith, keep-keep s)

-- `RemoveNewLine` takes out the pairs of spaces first, from the left, and then each tab, newline and
-- carriage return.
pub remove_new_line-squeeze : (s : Bytes) → remove_new_line s ≡ keep is_visible (squeeze s)
unfolding remove_new_line
remove_new_line-squeeze s =
    let one = replace_from (space ∷ space ∷ []) [] 0 s in
    let two = replace_from (tab ∷ []) [] 0 one in
    let three = replace_from (new_line ∷ []) [] 0 two in
    let four = replace_from (c_return ∷ []) [] 0 three in
    let last =
      contains-longer c_return (new_line ∷ []) four (contains-replace_from c_return three) in
    replace_from-absent c_return (new_line ∷ []) four last
    ∙ rw
        (
          replace_from-squeeze s,
          replace_from-keep tab (squeeze s),
          replace_from-keep new_line (keep (λ c. not (c == tab)) (squeeze s)),
          replace_from-keep c_return _,
        )
        (keep-keep (squeeze s))
