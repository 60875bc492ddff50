-- ===== src/Counts.antt =====
-- `GetArticlesCount` of backend/internal/service/article.go: a count of articles behind a cache. The
-- NATS key-value bucket and the query are parameters.
pub mod Cache
use news_tracker.Prelude.{
  ℕ, zero, suc, ◌+◌, ◌-◌, ◌*◌, ◌/◌, ◌%◌, ◌^◌, ◌≤◌, ◌<◌, String, Bool, true, false, not, ◌&&◌, ◌||◌,
  ◌≡◌, ◌≢◌, ◌↔◌, ◌⊎◌, refl, sym, ap, ◌∙◌, fun_ext, inl, inr, Option, some, none, List, [], ◌∷◌,
  ◌++◌, map, map-append, append_assoc, append-nil, Bytes, codes, length, length-append, get_elem?,
  get_elem?-append, get_elem?-some, get_elem?-none, take, drop, drop-length, take-length, ltb, leb,
  ◌==◌, ==_iff, ltb→lt, leb→le, eq_bytes, eq_bytes_iff, eq_bytes_refl, has_prefix, contains,
  replace_all, replace_from, StringMap, find, put, remove, find-put, find-remove, if◌then◌else◌,
  Bool-cases, Option-cases, arith,
}
use news_tracker.Prelude.Int.{ℤ, pos, negsuc}
use news_tracker.Prelude.Decimal.{sprint}
use news_tracker.Errors.{Error, articles_count, joined}
use news_tracker.Dates.Strings.{atoi}

-- `none` of `get` is an error. `State` is that of the bucket and of the database; `count` is the query
-- with the parameters of one request.
pub record CountStore : Type 1 where
  pub State : Type 0
  pub get : Bytes → State → Option Bytes
  pub store : Bytes → Bytes → State → Option Error × State
  pub count : State → ℤ × Option Error
  -- A value that was stored is read back.
  pub get-store :
      (k v : Bytes) (s : State) → (store k v s).0 ≡ none → get k (store k v s).1 ≡ some v

abbrev pub cached_count : Option Bytes → Option ℤ
cached_count none = none
cached_count (some v) = atoi v

module _ (bucket : CountStore) where
  open bucket use {State, get, store, count}

  abbrev pub after_count : Bytes → ℤ × Option Error → State → (ℤ × Option Error) × State
  after_count key (n, some e) s = ((negsuc 0, some (joined articles_count e)), s)
  after_count key (n, none) s = ((n, none), (store key (sprint n) s).1)

  abbrev pub or_count : Bytes → Option ℤ → State → (ℤ × Option Error) × State
  or_count key (some n) s = ((n, none), s)
  or_count key none s = after_count key (count s) s

  unfoldable pub get_articles_count : Bytes → State → (ℤ × Option Error) × State
  get_articles_count key s = or_count key (cached_count (get key s)) s
