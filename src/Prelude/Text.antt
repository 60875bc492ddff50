-- ===== src/Prelude/Text.antt =====
-- The parts of Go's `strings` and `bytes` packages that the program uses, on byte strings, and its
-- string maps as association lists.
use Prim.Native.Nat.{ℕ, zero, suc, ◌-◌}
use mathlib.Core.Path.{◌≡◌, refl}
use mathlib.Core.Bool.{Bool, true, false, ◌&&◌}
use mathlib.Core.List.{List, [], ◌∷◌, ◌++◌}
use mathlib.Core.Option.{Option, none, some}
use native.Mathlib.Omega.{arith}
use news_tracker.Prelude.Tests.{◌==◌, if◌then◌else◌}
use news_tracker.Prelude.Lists.{Bytes, length, eq_bytes, eq_bytes_iff}

-- strings.HasPrefix(s, p)
unfoldable pub has_prefix : Bytes → Bytes → Bool
has_prefix s [] = true
has_prefix [] (x ∷ p) = false
has_prefix (c ∷ s) (x ∷ p) = c == x && has_prefix s p

-- strings.Contains(s, sub)
unfoldable pub contains : Bytes → Bytes → Bool
unfolding has_prefix
contains [] sub = has_prefix [] sub
contains (c ∷ s) sub = let rest = contains s sub in if has_prefix (c ∷ s) sub then true else rest

-- strings.Replace(s, old, new, -1) for a non-empty `old`; `skip` bytes of a match are still to be
-- passed over.
unfoldable pub replace_from : Bytes → Bytes → ℕ → Bytes → Bytes
unfolding has_prefix
replace_from old new skip [] = []
replace_from old new (suc k) (c ∷ s) = replace_from old new k s
replace_from old new zero (c ∷ s) =
    if has_prefix (c ∷ s) old
    then new ++ replace_from old new (length old - 1) s
    else c ∷ replace_from old new zero s

unfoldable pub replace_all : Bytes → Bytes → Bytes → Bytes
unfolding replace_from
replace_all s old new = replace_from old new 0 s

abbrev pub StringMap : Type 0 → Type 0
StringMap V = List (Bytes × V)

module _ {V : Type 0} where
  unfoldable pub find : Bytes → StringMap V → Option V
  find k [] = none
  find k ((j, v) ∷ m) = if eq_bytes j k then some v else find k m

  unfoldable pub put : Bytes → V → StringMap V → StringMap V
  put k v [] = (k, v) ∷ []
  put k v ((j, w) ∷ m) = if eq_bytes j k then (k, v) ∷ m else (j, w) ∷ put k v m

  -- delete(m, k)
  unfoldable pub remove : Bytes → StringMap V → StringMap V
  remove k [] = []
  remove k ((j, w) ∷ m) = let rest = remove k m in if eq_bytes j k then rest else (j, w) ∷ rest

  pub find-put :
      (k j : Bytes) (v : V) (m : StringMap V)
      → find j (put k v m) ≡ (if eq_bytes k j then some v else find j m)
  unfolding find put
  find-put k j v [] = refl
  find-put k j v ((i, w) ∷ m) =
      ground (arith, eq_bytes_iff k j, eq_bytes_iff i k, eq_bytes_iff i j, find-put k j v m)

  pub find-remove :
      (k j : Bytes) (m : StringMap V)
      → find j (remove k m) ≡ (if eq_bytes k j then none else find j m)
  unfolding find remove
  find-remove k j [] = ground arith
  find-remove k j ((i, w) ∷ m) =
      ground (arith, eq_bytes_iff k j, eq_bytes_iff i k, eq_bytes_iff i j, find-remove k j m)
