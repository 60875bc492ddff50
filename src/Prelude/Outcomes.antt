-- ===== src/Prelude/Outcomes.antt =====
-- What running Go code may end in: a value, a run-time panic, or, in a loop that the model runs on
-- fuel, no result within the fuel.
use mathlib.Core.Path.{◌≡◌, refl}
use mathlib.Core.Logic.{◌≢◌}
use mathlib.Core.Bool.{Bool, true, false}
use news_tracker.Prelude.Tests.{if◌then◌else◌}

pub data Outcome {ℓ} (A : Type ℓ) : Type ℓ where
  ok : A → Outcome A
  panic : Outcome A
  timeout : Outcome A

infixl 5 ◌>>=◌
abbrev pub ◌>>=◌ {ℓ κ} : {A : Type ℓ} {B : Type κ} → Outcome A → (A → Outcome B) → Outcome B
ok a >>= f = f a
panic >>= f = panic
timeout >>= f = timeout

-- The code ends within the fuel, and what it returns, if it does not panic, satisfies `P`.
abbrev pub Ends {ℓ} : {A : Type ℓ} → (A → Type 0) → Outcome A → Type 0
Ends P (ok a) = P a
Ends P panic = Unit
Ends P timeout = ⊥

-- The code returns a value that satisfies `P`.
abbrev pub Returns {ℓ} : {A : Type ℓ} → (A → Type 0) → Outcome A → Type 0
Returns P (ok a) = P a
Returns P panic = ⊥
Returns P timeout = ⊥

-- The code does not panic, and what it returns, if it does, satisfies `P`.
abbrev pub Safe {ℓ} : {A : Type ℓ} → (A → Type 0) → Outcome A → Type 0
Safe P (ok a) = P a
Safe P panic = ⊥
Safe P timeout = Unit

-- What the code returns, if it does, satisfies `P`.
abbrev pub Keeps {ℓ} : {A : Type ℓ} → (A → Type 0) → Outcome A → Type 0
Keeps P (ok a) = P a
Keeps P panic = Unit
Keeps P timeout = Unit

module _ {ℓ κ} {A : Type ℓ} {B : Type κ} where
  pub Safe-bind :
      {Q : A → Type 0} (m : Outcome A) (P : B → Type 0) (f : A → Outcome B)
      → Safe Q m
      → ((a : A) → Q a → Safe P (f a))
      → Safe P (m >>= f)
  Safe-bind (ok a) P f h k = k a h
  Safe-bind panic P f h k = h
  Safe-bind timeout P f h k = h

  pub Keeps-bind :
      {Q : A → Type 0} (m : Outcome A) (P : B → Type 0) (f : A → Outcome B)
      → Keeps Q m
      → ((a : A) → Q a → Keeps P (f a))
      → Keeps P (m >>= f)
  Keeps-bind (ok a) P f h k = k a h
  Keeps-bind panic P f h k = tt
  Keeps-bind timeout P f h k = tt

  pub Ends-bind :
      {Q : A → Type 0} (m : Outcome A) (P : B → Type 0) (f : A → Outcome B)
      → Ends Q m
      → ((a : A) → Q a → Ends P (f a))
      → Ends P (m >>= f)
  Ends-bind (ok a) P f h k = k a h
  Ends-bind panic P f h k = tt
  Ends-bind timeout P f h k = h

  pub Returns-bind :
      {Q : A → Type 0} (m : Outcome A) (P : B → Type 0) (f : A → Outcome B)
      → Returns Q m
      → ((a : A) → Q a → Returns P (f a))
      → Returns P (m >>= f)
  Returns-bind (ok a) P f h k = k a h
  Returns-bind panic P f h k = h
  Returns-bind timeout P f h k = h

module _ {ℓ} {A : Type ℓ} where
  pub Safe-if :
      (b : Bool) (m n : Outcome A) (P : A → Type 0)
      → (b ≡ true → Safe P m)
      → (b ≡ false → Safe P n)
      → Safe P (if b then m else n)
  Safe-if true m n P hm hn = hm refl
  Safe-if false m n P hm hn = hn refl

  pub Returns-if :
      (b : Bool) (m n : Outcome A) (P : A → Type 0)
      → (b ≡ true → Returns P m)
      → (b ≡ false → Returns P n)
      → Returns P (if b then m else n)
  Returns-if true m n P hm hn = hm refl
  Returns-if false m n P hm hn = hn refl

  pub Returns-weaken :
      {Q : A → Type 0} (m : Outcome A) (P : A → Type 0)
      → Returns Q m
      → ((a : A) → Q a → P a)
      → Returns P m
  Returns-weaken (ok a) P h k = k a h
  Returns-weaken panic P h k = h
  Returns-weaken timeout P h k = h

  pub Returns-Safe : (Q : A → Type 0) (m : Outcome A) → Returns Q m → Safe Q m
  Returns-Safe Q (ok a) h = h
  Returns-Safe Q panic h = h
  Returns-Safe Q timeout h = tt

  pub Keeps-if :
      (b : Bool) (m n : Outcome A) (P : A → Type 0)
      → (b ≡ true → Keeps P m)
      → (b ≡ false → Keeps P n)
      → Keeps P (if b then m else n)
  Keeps-if true m n P hm hn = hm refl
  Keeps-if false m n P hm hn = hn refl

  pub Safe-Keeps : (Q : A → Type 0) (m : Outcome A) → Safe Q m → Keeps Q m
  Safe-Keeps Q (ok a) h = h
  Safe-Keeps Q panic h = tt
  Safe-Keeps Q timeout h = tt

  pub Ends-if :
      (b : Bool) (m n : Outcome A) (P : A → Type 0)
      → (b ≡ true → Ends P m)
      → (b ≡ false → Ends P n)
      → Ends P (if b then m else n)
  Ends-if true m n P hm hn = hm refl
  Ends-if false m n P hm hn = hn refl

  pub Ends-weaken :
      {Q : A → Type 0} (m : Outcome A) (P : A → Type 0)
      → Ends Q m
      → ((a : A) → Q a → P a)
      → Ends P m
  Ends-weaken (ok a) P h k = k a h
  Ends-weaken panic P h k = tt
  Ends-weaken timeout P h k = h

  pub Ends-ne-timeout : (P : A → Type 0) (m : Outcome A) → Ends P m → m ≢ timeout
  Ends-ne-timeout P (ok a) h e = cc
  Ends-ne-timeout P panic h e = cc
  Ends-ne-timeout P timeout h e = h
