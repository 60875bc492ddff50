-- ===== src/Prelude/Decimal.antt =====
-- `fmt.Sprint` of an `int`.
use Prim.Native.Nat.{ℕ, zero, suc, ◌+◌, ◌/◌, ◌%◌}
use mathlib.Core.List.{[], ◌∷◌}
use news_tracker.Prelude.Tests.{ltb, if◌then◌else◌}
use news_tracker.Prelude.Lists.{Bytes}
use news_tracker.Prelude.Int.{ℤ, pos, negsuc}

-- The digits of `n` in front of `rest`; a number has no more digits than its value and one.
unfoldable pub digits_onto : ℕ → ℕ → Bytes → Bytes
digits_onto zero n rest = rest
digits_onto (suc f) n rest =
    let digit = b'0' + n % 10 in
    let more = digits_onto f (n / 10) (digit ∷ rest) in if ltb n 10 then digit ∷ rest else more

unfoldable pub sprint : ℤ → Bytes
unfolding digits_onto
sprint (pos n) = digits_onto (n + 1) n []
sprint (negsuc n) = b'-' ∷ digits_onto (n + 2) (n + 1) []
