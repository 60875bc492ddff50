-- ===== src/Prelude/Lists.antt =====
-- Lists measured and indexed by native numbers, and byte strings.
use Prim.Native.Nat.{ℕ, zero, suc, ◌+◌, ◌≤◌, ◌<◌}
use Prim.Native.Char.{code}
use Prim.Native.String.{String}
use mathlib.Core.Path.{◌≡◌, refl, ap, ◌∙◌}
use mathlib.Core.Logic.{◌↔◌}
use mathlib.Core.Bool.{Bool, true, false, ◌&&◌}
use mathlib.Core.List.{List, [], ◌∷◌, ◌++◌}
use mathlib.Core.Option.{Option, none, some}
use native.Mathlib.Omega.{arith}
use news_tracker.Prelude.Tests.{◌==◌}

-- A Go string or byte slice.
abbrev pub Bytes : Type 0
Bytes = List ℕ

-- The bytes of an ASCII literal.
abbrev pub codes : String → Bytes
codes String.[] = []
codes (String.◌∷◌ c s) = code c ∷ codes s

module _ {ℓ} {A : Type ℓ} where
  abbrev pub length : List A → ℕ
  length [] = 0
  length (x ∷ xs) = suc (length xs)

  abbrev pub get_elem? : List A → ℕ → Option A
  get_elem? [] i = none
  get_elem? (x ∷ xs) zero = some x
  get_elem? (x ∷ xs) (suc i) = get_elem? xs i

  abbrev pub take : ℕ → List A → List A
  take zero xs = []
  take (suc n) [] = []
  take (suc n) (x ∷ xs) = x ∷ take n xs

  abbrev pub drop : ℕ → List A → List A
  drop zero xs = xs
  drop (suc n) [] = []
  drop (suc n) (x ∷ xs) = drop n xs

  pub length-append : (xs ys : List A) → length (xs ++ ys) ≡ length xs + length ys
  length-append [] ys = omega arith
  length-append (x ∷ xs) ys = omega (arith, length-append xs ys)

-- Go's `==` on strings.
unfoldable pub eq_bytes : Bytes → Bytes → Bool
eq_bytes [] [] = true
eq_bytes (x ∷ xs) (y ∷ ys) = x == y && eq_bytes xs ys
eq_bytes _ _ = false

pub eq_bytes_iff : (a b : Bytes) → (eq_bytes a b ≡ true) ↔ (a ≡ b)
unfolding eq_bytes
eq_bytes_iff (x ∷ a) (y ∷ b) = ground (arith, eq_bytes_iff a b)
eq_bytes_iff _ _ = ground arith

pub eq_bytes_refl : (a : Bytes) → eq_bytes a a ≡ true
eq_bytes_refl a = (eq_bytes_iff a a).1 refl

module _ {ℓ} {A : Type ℓ} where
  pub get_elem?-append :
      (pre : List A) (x : A) (rest : List A) → get_elem? (pre ++ x ∷ rest) (length pre) ≡ some x
  get_elem?-append [] x rest = refl
  get_elem?-append (y ∷ pre) x rest = get_elem?-append pre x rest

  pub get_elem?-some : (xs : List A) (i : ℕ) {x : A} → get_elem? xs i ≡ some x → i < length xs
  get_elem?-some [] i h = cc
  get_elem?-some (x ∷ xs) zero h = omega arith
  get_elem?-some (x ∷ xs) (suc i) h = omega (arith, get_elem?-some xs i h)

  pub get_elem?-none : (xs : List A) (i : ℕ) → get_elem? xs i ≡ none → length xs ≤ i
  get_elem?-none [] i h = omega arith
  get_elem?-none (x ∷ xs) zero h = cc
  get_elem?-none (x ∷ xs) (suc i) h = omega (arith, get_elem?-none xs i h)

  pub drop-length : (pre rest : List A) → drop (length pre) (pre ++ rest) ≡ rest
  drop-length [] rest = refl
  drop-length (x ∷ pre) rest = drop-length pre rest

  pub take-length : (pre rest : List A) → take (length pre) (pre ++ rest) ≡ pre
  take-length [] rest = refl
  take-length (x ∷ pre) rest = ap (◌∷◌ x) (take-length pre rest)

  pub length-slice :
      (xs : List A) (lo n : ℕ) → lo + n ≤ length xs → length (take n (drop lo xs)) ≡ n
  length-slice xs zero zero h = refl
  length-slice [] zero (suc n) h = absurd (omega arith)
  length-slice (x ∷ xs) zero (suc n) h = ap suc (length-slice xs 0 n (omega arith))
  length-slice [] (suc lo) zero h = refl
  length-slice [] (suc lo) (suc n) h = absurd (omega arith)
  length-slice (x ∷ xs) (suc lo) n h = length-slice xs lo n (omega arith)

  pub drop-some :
      (xs : List A) (n : ℕ) (x : A) → get_elem? xs n ≡ some x → drop n xs ≡ x ∷ drop (suc n) xs
  drop-some [] n x h = cc
  drop-some (y ∷ xs) zero x h = ap (λ z. z ∷ xs) (unsome h)
    where
      unsome : {a b : A} → some a ≡ some b → a ≡ b
      unsome e = cc
  drop-some (y ∷ xs) (suc n) x h = drop-some xs n x h

  pub take-some :
      (xs : List A) (n : ℕ) (x : A)
      → get_elem? xs n ≡ some x
      → take (suc n) xs ≡ take n xs ++ x ∷ []
  take-some [] n x h = cc
  take-some (y ∷ xs) zero x h = ap (λ z. z ∷ []) (unsome h)
    where
      unsome : {a b : A} → some a ≡ some b → a ≡ b
      unsome e = cc
  take-some (y ∷ xs) (suc n) x h = ap (◌∷◌ y) (take-some xs n x h)

  pub get_elem?-drop : (xs : List A) (lo n : ℕ) → get_elem? (drop lo xs) n ≡ get_elem? xs (lo + n)
  get_elem?-drop xs zero n = rw (zero_plus n) refl
    where
      zero_plus : (n : ℕ) → 0 + n ≡ n
      zero_plus n = omega arith
  get_elem?-drop [] (suc lo) n = refl
  get_elem?-drop (x ∷ xs) (suc lo) n = get_elem?-drop xs lo n ∙ rw (suc_plus lo n) refl
    where
      suc_plus : (lo n : ℕ) → suc lo + n ≡ suc (lo + n)
      suc_plus lo n = omega arith

  pub drop-all : (xs : List A) (n : ℕ) → length xs ≤ n → drop n xs ≡ []
  drop-all [] zero h = refl
  drop-all [] (suc n) h = refl
  drop-all (x ∷ xs) zero h = absurd (omega arith)
  drop-all (x ∷ xs) (suc n) h = drop-all xs n (omega arith)

  pub get_elem?-length : (xs : List A) → get_elem? xs (length xs) ≡ none
  get_elem?-length [] = refl
  get_elem?-length (x ∷ xs) = get_elem?-length xs
