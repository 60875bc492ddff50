-- ===== src/Watch/Orders.antt =====
-- The calls of the goroutines of one token, in any order.
use news_tracker.Prelude.{
  ℕ, ◌≡◌, ◌⊎◌, refl, inl, inr, List, [], ◌∷◌, Outcome, ok, panic, timeout, ◌>>=◌, Ends,
}
use mathlib.Core.Path.{subst}
use mathlib.Core.List.{Permᴰ}
use news_tracker.Watch.{Call, Schedule, run_calls}

abbrev pub All {ℓ} : {X : Type ℓ} → (X → Type 0) → List X → Type 0
All P [] = Unit {0}
All P (x ∷ xs) = P x × All P xs

abbrev pub Some {ℓ} : {X : Type ℓ} → (X → Type 0) → List X → Type 0
Some P [] = ⊥
Some P (x ∷ xs) = P x ⊎ Some P xs

module _ {ℓ} {X : Type ℓ} (P : X → Type 0) where
  pub All-Permᴰ : {xs ys : List X} → Permᴰ xs ys → All P xs → All P ys
  All-Permᴰ Permᴰ.nil h = h
  All-Permᴰ (Permᴰ.cons e d) (h, hs) = (subst P e h, All-Permᴰ d hs)
  All-Permᴰ (Permᴰ.swap e e') (h, (h', hs)) = (subst P e' h', (subst P e h, hs))
  All-Permᴰ (Permᴰ.trans d d') h = All-Permᴰ d' (All-Permᴰ d h)

  pub Some-Permᴰ : {xs ys : List X} → Permᴰ xs ys → Some P xs → Some P ys
  Some-Permᴰ Permᴰ.nil h = h
  Some-Permᴰ (Permᴰ.cons e d) (inl h) = inl (subst P e h)
  Some-Permᴰ (Permᴰ.cons e d) (inr h) = inr (Some-Permᴰ d h)
  Some-Permᴰ (Permᴰ.swap e e') (inl h) = inr (inl (subst P e h))
  Some-Permᴰ (Permᴰ.swap e e') (inr (inl h)) = inl (subst P e' h)
  Some-Permᴰ (Permᴰ.swap e e') (inr (inr h)) = inr (inr h)
  Some-Permᴰ (Permᴰ.trans d d') h = Some-Permᴰ d' (Some-Permᴰ d h)

module _ (A : Type 0) where
  -- Each goroutine comes once, in whatever order.
  abbrev pub Reorders : Schedule A → Type 0
  Reorders schedule = (n : ℕ) (calls : List (Call A)) → Permᴰ calls (schedule n calls)

  abbrev pub IsQuiet : Call A → Type 0
  IsQuiet call = (a : A) → call a ≡ ok a

  abbrev pub HasEnd : Call A → Type 0
  HasEnd call = (a : A) → Ends (λ _. Unit {0}) (call a)

  abbrev pub Stops : Call A → Type 0
  Stops call = (a : A) → call a ≡ panic

  pub run_calls-IsQuiet :
      (calls : List (Call A)) (a : A) → All IsQuiet calls → run_calls A calls a ≡ ok a
  run_calls-IsQuiet [] a h = refl
  run_calls-IsQuiet (call ∷ calls) a (h, hs) = rw (h a) (run_calls-IsQuiet calls a hs)

  -- A goroutine that panics ends the program, whenever it comes.
  pub run_calls-Stops :
      (calls : List (Call A)) (a : A)
      → All HasEnd calls
      → Some Stops calls
      → run_calls A calls a ≡ panic
  run_calls-Stops [] a e s = absurd s
  run_calls-Stops (call ∷ calls) a (e, es) (inl s) = rw (s a) refl
  run_calls-Stops (call ∷ calls) a (e, es) (inr s) =
      later (call a) (e a) λ a'. run_calls-Stops calls a' es s
    where
      later :
          (r : Outcome A)
          → Ends (λ _. Unit {0}) r
          → ((a' : A) → run_calls A calls a' ≡ panic)
          → (r >>= run_calls A calls) ≡ panic
      later (ok a') h k = k a'
      later panic h k = refl
      later timeout h k = absurd h
