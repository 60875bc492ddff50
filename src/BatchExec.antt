-- ===== src/BatchExec.antt =====
-- pkg/executils/batch_exec.go: a step is one action of the sender, the dispatcher or a worker.
pub mod Fair
use news_tracker.Prelude.{
  ℕ, zero, suc, ◌+◌, ◌-◌, ◌*◌, ◌/◌, ◌%◌, ◌^◌, ◌≤◌, ◌<◌, String, Bool, true, false, not, ◌&&◌, ◌||◌,
  ◌≡◌, ◌≢◌, ◌↔◌, ◌⊎◌, refl, sym, ap, ◌∙◌, fun_ext, inl, inr, Option, some, none, List, [], ◌∷◌,
  ◌++◌, map, map-append, append_assoc, append-nil, Bytes, codes, length, length-append, get_elem?,
  get_elem?-append, get_elem?-some, get_elem?-none, take, drop, drop-length, take-length, ltb, leb,
  ◌==◌, ==_iff, ltb→lt, leb→le, eq_bytes, eq_bytes_iff, eq_bytes_refl, has_prefix, contains,
  replace_all, replace_from, StringMap, find, put, remove, find-put, find-remove, if◌then◌else◌,
  Bool-cases, Option-cases, Outcome, ok, panic, timeout, ◌>>=◌, Ends, Ends-bind, Ends-if,
  Ends-weaken, Ends-ne-timeout, Returns, Returns-bind, Safe, Safe-bind, Safe-if, Keeps, Keeps-bind,
  Keeps-if, Safe-Keeps, Returns-if, Returns-Safe, Returns-weaken, length-slice, arith,
}

-- `idxCh` and `workerPool` hold as many as there are values, so that no send waits. `picked` is the index that
-- the dispatcher has received; `leaving` have given their place in the pool back and not yet said so.
pub record Batch : Type 0 where
  pub unsent : List ℕ
  pub queue : List ℕ
  pub picked : Option ℕ
  pub pool : ℕ
  pub running : List ℕ
  pub called : List ℕ
  pub leaving : ℕ
  pub wait_count : ℕ
  pub closed : Bool

abbrev pub start_batch : List ℕ → Batch
start_batch vals = record {
  unsent = vals;
  queue = [];
  picked = none;
  pool = length vals;
  running = [];
  called = [];
  leaving = 0;
  wait_count = 0;
  closed = false;
}

pub data Step : Batch → Batch → Type 0 where
  -- wg.Add(1); idxCh <- idx
  send :
      (s : Batch) (i : ℕ) (rest : List ℕ)
      → s.unsent ≡ i ∷ rest
      → Step s
          (record s { unsent = rest; queue = s.queue ++ i ∷ []; wait_count = s.wait_count + 1 })
  receive :
      (s : Batch) (i : ℕ) (rest : List ℕ)
      → s.queue ≡ i ∷ rest
      → s.picked ≡ none
      → Step s (record s { queue = rest; picked = some i })
  -- <-workerPool; go func
  spawn :
      (s : Batch) (i : ℕ)
      → s.picked ≡ some i
      → 0 < s.pool
      → Step s (record s { picked = none; pool = s.pool - 1; running = i ∷ s.running })
  -- fn(vals[idx]), which returns; workerPool <- struct{}{}
  call :
      (s : Batch) (i : ℕ) (xs ys : List ℕ)
      → s.running ≡ xs ++ i ∷ ys
      → Step s (record s {
        running = xs ++ ys;
        called = i ∷ s.called;
        pool = s.pool + 1;
        leaving = s.leaving + 1;
      })
  -- wg.Done()
  leave :
      (s : Batch)
      → 0 < s.leaving
      → Step s (record s { leaving = s.leaving - 1; wait_count = s.wait_count - 1 })
  -- wg.Wait() behind the loop, and the deferred closing of both channels.
  finish :
      (s : Batch)
      → s.unsent ≡ []
      → s.wait_count ≡ 0
      → s.closed ≡ false
      → Step s (record s { closed = true })

pub data Reach (vals : List ℕ) : Batch → Type 0 where
  at_start : Reach vals (start_batch vals)
  next : {s s' : Batch} → Reach vals s → Step s s' → Reach vals s'
