-- ===== src/BatchExec/Fair.antt =====
-- Every value is processed once, and nothing waits for ever.
use news_tracker.Prelude.{
  ℕ, zero, suc, ◌+◌, ◌*◌, ◌<◌, true, false, ◌≡◌, refl, ap, Option, some, none, List, [], ◌∷◌, ◌++◌,
  length, length-append, ◌==◌, if◌then◌else◌, arith,
}
use news_tracker.BatchExec.{
  Batch, Step, send, receive, spawn, call, leave, finish, Reach, at_start, next,
}

abbrev pub occurs : ℕ → List ℕ → ℕ
occurs x [] = 0
occurs x (y ∷ ys) = (if x == y then 1 else 0) + occurs x ys

occurs-append : (x : ℕ) (xs ys : List ℕ) → occurs x (xs ++ ys) ≡ occurs x xs + occurs x ys
occurs-append x [] ys = omega arith
occurs-append x (y ∷ xs) ys = omega (arith, occurs-append x xs ys)

abbrev held : Option ℕ → List ℕ
held none = []
held (some i) = i ∷ []

-- The values that are somewhere.
abbrev everywhere : Batch → List ℕ
everywhere s = s.unsent ++ (s.queue ++ (held s.picked ++ (s.running ++ s.called)))

-- What is still to be done, an index's way from the slice to the end of its worker.
abbrev pub weight : Batch → ℕ
weight s =
    5 * length s.unsent
    + 4 * length s.queue
    + 3 * length (held s.picked)
    + 2 * length s.running
    + s.leaving
    + (if s.closed then 0 else 1)

record IsFair (vals : List ℕ) (s : Batch) : Type 0 where
  counted :
      (x : ℕ)
      → occurs x s.unsent
          + occurs x s.queue
          + occurs x (held s.picked)
          + occurs x s.running
          + occurs x s.called
        ≡ occurs x vals
  sizes :
      length s.unsent + length s.queue + length (held s.picked) + length s.running + length s.called
      ≡ length vals
  waits : s.wait_count ≡ length s.queue + length (held s.picked) + length s.running + s.leaving
  places : s.pool + length s.running ≡ length vals
  shut : s.closed ≡ true → (s.unsent ≡ []) × (s.wait_count ≡ 0)

module _ (vals : List ℕ) where
  Step-IsFair : {s s' : Batch} → Step s s' → IsFair vals s → IsFair vals s'
  Step-IsFair (send s i rest e) f = record {
    counted = λ x. omega (arith, f.counted x, ap (occurs x) e, occurs-append x s.queue (i ∷ []));
    sizes = omega (arith, f.sizes, ap length e, length-append s.queue (i ∷ []));
    waits = omega (arith, f.waits, length-append s.queue (i ∷ []));
    places = f.places;
    shut = λ c. absurd (omega (arith, ap length (f.shut c).0, ap length e));
  }
  Step-IsFair (receive s i rest e p) f = record {
    counted = λ x. omega (arith, f.counted x, ap (occurs x) e, ap (λ o. occurs x (held o)) p);
    sizes = omega (arith, f.sizes, ap length e, ap (λ o. length (held o)) p);
    waits = omega (arith, f.waits, ap length e, ap (λ o. length (held o)) p);
    places = f.places;
    shut = f.shut;
  }
  Step-IsFair (spawn s i p h) f = record {
    counted = λ x. omega (arith, f.counted x, ap (λ o. occurs x (held o)) p);
    sizes = omega (arith, f.sizes, ap (λ o. length (held o)) p);
    waits = omega (arith, f.waits, ap (λ o. length (held o)) p);
    places = omega (arith, f.places);
    shut = f.shut;
  }
  Step-IsFair (call s i xs ys e) f = record {
    counted = λ x.
        omega
          (arith, f.counted x, ap (occurs x) e, occurs-append x xs (i ∷ ys), occurs-append x xs ys);
    sizes = omega (arith, f.sizes, ap length e, length-append xs (i ∷ ys), length-append xs ys);
    waits = omega (arith, f.waits, ap length e, length-append xs (i ∷ ys), length-append xs ys);
    places = omega (arith, f.places, ap length e, length-append xs (i ∷ ys), length-append xs ys);
    shut = f.shut;
  }
  Step-IsFair (leave s h) f = record {
    counted = f.counted;
    sizes = f.sizes;
    waits = omega (arith, f.waits);
    places = f.places;
    shut = λ c. ((f.shut c).0, omega (arith, (f.shut c).1));
  }
  Step-IsFair (finish s u w o) f = record {
    counted = f.counted;
    sizes = f.sizes;
    waits = f.waits;
    places = f.places;
    shut = λ c. (u, w);
  }

  Reach-IsFair : {s : Batch} → Reach vals s → IsFair vals s
  Reach-IsFair at_start = record {
    counted = λ x. omega arith;
    sizes = omega arith;
    waits = omega arith;
    places = omega arith;
    shut = λ c. cc;
  }
  Reach-IsFair (next r step) = Step-IsFair step (Reach-IsFair r)

  nil_of : (xs : List ℕ) → length xs ≡ 0 → xs ≡ []
  nil_of [] e = refl
  nil_of (x ∷ xs) e = absurd (omega arith)

  -- Where `BatchExec` returns, the function was called for each value exactly as often as the value stands
  -- in the slice, and no worker is left that could send on a closed channel.
  pub Reach-occurs :
      (s : Batch)
      → Reach vals s
      → s.closed ≡ true
      → ((x : ℕ) → occurs x s.called ≡ occurs x vals) × (s.running ≡ []) × (s.leaving ≡ 0)
  Reach-occurs s r c =
      let f = Reach-IsFair r in
      let (u, w) = f.shut c in
      let q : s.queue ≡ [] = nil_of s.queue (omega (arith, f.waits)) in
      let p : held s.picked ≡ [] = nil_of (held s.picked) (omega (arith, f.waits)) in
      let n : s.running ≡ [] = nil_of s.running (omega (arith, f.waits)) in
      (
        (λ x. omega (
          arith,
          f.counted x,
          ap (occurs x) u,
          ap (occurs x) q,
          ap (occurs x) p,
          ap (occurs x) n,
        )),
        n,
        omega (arith, f.waits),
      )

  -- A step is possible until `BatchExec` has returned.
  by_state :
      (s : Batch) (unsent queue running : List ℕ) (picked : Option ℕ)
      → IsFair vals s
      → s.closed ≡ false
      → s.unsent ≡ unsent
      → s.queue ≡ queue
      → s.running ≡ running
      → s.picked ≡ picked
      → (s' : Batch) × Step s s'
  by_state s (i ∷ rest) q n p f o eu eq en ep = (_, send s i rest eu)
  by_state s [] q n (some i) f o eu eq en ep =
      (_, spawn s i ep (omega (arith, f.places, f.sizes, ap (λ o. length (held o)) ep)))
  by_state s [] (i ∷ rest) n none f o eu eq en ep = (_, receive s i rest eq ep)
  by_state s [] [] (i ∷ rest) none f o eu eq en ep = (_, call s i [] rest en)
  by_state s [] [] [] none f o eu eq en ep = by_leaving s.leaving refl
    where
      by_leaving : (l : ℕ) → s.leaving ≡ l → (s' : Batch) × Step s s'
      by_leaving zero e = (
        _,
        finish s eu
            (omega (arith, f.waits, ap length eq, ap length en, ap (λ o. length (held o)) ep)) o,
      )
      by_leaving (suc l) e = (_, leave s (omega arith))

  Step-weight : {s s' : Batch} → Step s s' → weight s' < weight s
  Step-weight (send s i rest e) = omega (arith, ap length e, length-append s.queue (i ∷ []))
  Step-weight (receive s i rest e p) = omega (arith, ap length e, ap (λ o. length (held o)) p)
  Step-weight (spawn s i p h) = omega (arith, ap (λ o. length (held o)) p)
  Step-weight (call s i xs ys e) =
      omega (arith, ap length e, length-append xs (i ∷ ys), length-append xs ys)
  Step-weight (leave s h) = omega arith
  Step-weight (finish s u w o) = rw o (omega arith)

  -- With a function that returns, no schedule of `BatchExec` is stuck or goes on for ever: as long as it has not
  -- returned some step is possible, with a place in the pool for an index that waits for one, and each step lessens the weight.
  pub Reach-Step :
      (s : Batch)
      → Reach vals s
      → s.closed ≡ false
      → ((s' : Batch) × Step s s') × ((s' : Batch) → Step s s' → weight s' < weight s)
  Reach-Step s r o = (
    by_state s s.unsent s.queue s.running s.picked (Reach-IsFair r) o refl refl refl refl,
    λ s' step. Step-weight step,
  )
