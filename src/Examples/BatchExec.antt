-- ===== src/Examples/BatchExec.antt =====
-- BatchExec on one value.
use news_tracker.Prelude.{ℕ, ◌<◌, true, ◌≡◌, refl, none, List, [], ◌∷◌, arith}
use news_tracker.BatchExec.{
  Batch, start_batch, Step, send, receive, spawn, call, leave, finish, Reach, at_start, next,
}
use news_tracker.BatchExec.Fair.{occurs, weight, Reach-occurs, Reach-Step}

abbrev vals : List ℕ
vals = 7 ∷ []

abbrev returned : Batch
returned = record {
  unsent = [];
  queue = [];
  picked = none;
  pool = 1;
  running = [];
  called = vals;
  leaving = 0;
  wait_count = 0;
  closed = true;
}

schedule : Reach vals returned
schedule =
    next
      (next
        (next
          (next
            (next (next at_start (send (start_batch vals) 7 [] refl)) (receive _ 7 [] refl refl))
            (spawn _ 7 refl (omega arith)))
          (call _ 7 [] [] refl))
        (leave _ (omega arith)))
      (finish _ refl refl refl)

Reach-occurs_example :
    ((x : ℕ) → occurs x vals ≡ occurs x vals) × (◌≡◌ {A = List ℕ} [] []) × (◌≡◌ {A = ℕ} 0 0)
Reach-occurs_example = Reach-occurs vals returned schedule refl

Reach-Step_example :
    ((s' : Batch) × Step (start_batch vals) s')
    × ((s' : Batch) → Step (start_batch vals) s' → weight s' < weight (start_batch vals))
Reach-Step_example = Reach-Step vals (start_batch vals) at_start refl
