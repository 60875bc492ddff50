-- ===== src/Prelude/Int.antt =====
-- Signed integers over the native numbers; Go's `int` is one, wrapped to 64 bits.
use Prim.Native.Nat.{ℕ, suc, ◌+◌, ◌-◌, ◌*◌, ◌%◌, ◌^◌, ◌≤◌, ◌<◌}
use mathlib.Core.Path.{◌≡◌}
use mathlib.Core.Bool.{Bool}
use native.Mathlib.Omega.{arith}
use news_tracker.Prelude.Tests.{ltb, leb, ◌==◌, if◌then◌else◌}

-- `negsuc n` is -(n + 1).
pub data ℤ : Type 0 where
  pos : ℕ → ℤ
  negsuc : ℕ → ℤ

abbrev pub pos_part : ℤ → ℕ
pos_part (pos n) = n
pos_part (negsuc n) = 0

abbrev pub neg_part : ℤ → ℕ
neg_part (pos n) = 0
neg_part (negsuc n) = suc n

-- a - b, as an integer.
abbrev pub sub_ℕ : ℕ → ℕ → ℤ
sub_ℕ a b = if leb b a then pos (a - b) else negsuc (b - a - 1)

abbrev pub int_half : ℕ
int_half = 2 ^ 63

abbrev pub int_mod : ℕ
int_mod = 2 ^ 64

-- Two's complement: the value that 64 bits hold.
unfoldable pub int64 : ℤ → ℤ
int64 (pos n) = let r = n % int_mod in if ltb r int_half then pos r else negsuc (int_mod - 1 - r)
int64 (negsuc n) = let r = n % int_mod in if ltb r int_half then negsuc r else pos (int_mod - 1 - r)

infixl 65 ◌+ℤ◌ ◌-ℤ◌
infixl 70 ◌*ℤ◌
unfoldable pub ◌+ℤ◌ : ℤ → ℤ → ℤ
unfolding int64
a +ℤ b = int64 (sub_ℕ (pos_part a + pos_part b) (neg_part a + neg_part b))

unfoldable pub ◌-ℤ◌ : ℤ → ℤ → ℤ
unfolding int64
a -ℤ b = int64 (sub_ℕ (pos_part a + neg_part b) (neg_part a + pos_part b))

unfoldable pub ◌*ℤ◌ : ℤ → ℤ → ℤ
unfolding int64
a *ℤ b = int64 (
    sub_ℕ (pos_part a * pos_part b + neg_part a * neg_part b)
      (pos_part a * neg_part b + neg_part a * pos_part b))

abbrev pub ltb_ℤ : ℤ → ℤ → Bool
ltb_ℤ a b = ltb (pos_part a + neg_part b) (pos_part b + neg_part a)

abbrev pub leb_ℤ : ℤ → ℤ → Bool
leb_ℤ a b = leb (pos_part a + neg_part b) (pos_part b + neg_part a)

abbrev pub eq_ℤ : ℤ → ℤ → Bool
eq_ℤ a b = (pos_part a + neg_part b) == (pos_part b + neg_part a)

module _ (a b : ℕ) where
  pub pos-add : a + b < int_half → pos a +ℤ pos b ≡ pos (a + b)
  unfolding ◌+ℤ◌
  pos-add h = ground arith

  pub pos-sub : b ≤ a → a < int_half → pos a -ℤ pos b ≡ pos (a - b)
  unfolding ◌-ℤ◌
  pos-sub h k = ground arith

  pub pos-sub_negative : a < b → b < int_half → pos a -ℤ pos b ≡ negsuc (b - a - 1)
  unfolding ◌-ℤ◌
  pos-sub_negative h k = ground arith
