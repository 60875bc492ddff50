-- ===== src/Consumer/Acks.antt =====
-- How often a message is acknowledged, and after what.
use news_tracker.Prelude.{
  ℕ, suc, true, ◌≡◌, ◌≢◌, ◌↔◌, ◌⊎◌, refl, sym, ap, ◌∙◌, inl, inr, Option, some, none, [], Bytes,
  Bool-cases,
}
use news_tracker.Prelude.Int.{ℤ, pos}
use news_tracker.Errors.{Error, is_no_rows}
use news_tracker.Article.{Formats, Article, zero_article, unmarshal}
use news_tracker.Storage.{pool, Database}
use news_tracker.Service.{new_article}
use news_tracker.Service.Atomic.{
  inserted, Reports, new_article_iff, new_article-lost_error, new_article-id,
}
use news_tracker.Consumer.{params_of, stats_of, ack_if_ok, after_insert, after_lookup, handler}

module _ (formats : Formats) (db : Database formats.Time) (now : formats.Time)
    (a : Article formats) where
  open db use {
    State, visible, begin, rollback, insert_article, insert_image, select_article_id,
    update_article_stats,
  }

  -- The statistics of the article are updated under this id, without an error.
  abbrev pub IsUpdated : ℤ → State → Type 0
  IsUpdated id s = (update_article_stats pool (stats_of formats db now a id) s).0 ≡ none

  -- A look-up found no row.
  abbrev pub IsMissing : Option Error → Type 0
  IsMissing none = ⊥
  IsMissing (some e) = is_no_rows e ≡ true

  -- After the look-up `r`: the article is known and updated, or unknown and `NewArticle` reports no error,
  -- or unknown, `NewArticle` reports one and then the article is updated.
  abbrev pub Succeeds : (ℤ × Option Error) × State → Type 0
  Succeeds r =
      ((r.0.1 ≡ none) × IsUpdated r.0.0 r.1)
      ⊎ (IsMissing r.0.1
          × (Reports db (params_of formats db a) r.1
              ⊎ ((Reports db (params_of formats db a) r.1 → ⊥)
                  × IsUpdated r.0.0 (new_article db (params_of formats db a) r.1).1)))

  -- Acknowledged once and the steps succeeded, or not acknowledged and they did not.
  abbrev pub AckedWhen : ℕ → ℕ → Type 0 → Type 0
  AckedWhen before acks P = ((acks ≡ suc before) × P) ⊎ ((acks ≡ before) × (P → ⊥))

  ack_if_ok-AckedWhen :
      (acks : ℕ) (r : Option Error × State)
      → AckedWhen acks (ack_if_ok formats db acks r).0 (r.0 ≡ none)
  ack_if_ok-AckedWhen acks (some e, s) = inr (refl, λ z. cc)
  ack_if_ok-AckedWhen acks (none, s) = inl (refl, refl)

  AckedWhen_iff :
      (before acks : ℕ) (P Q : Type 0) → P ↔ Q → AckedWhen before acks P → AckedWhen before acks Q
  AckedWhen_iff before acks P Q e (inl (k, p)) = inl (k, e.0 p)
  AckedWhen_iff before acks P Q e (inr (k, n)) = inr (k, λ q. n (e.1 q))

  abbrev Inserts : ℤ → (ℤ × Option Error) × State → Type 0
  Inserts id r = (r.0.1 ≡ none) ⊎ ((r.0.1 ≢ none) × IsUpdated id r.1)

  after_insert-AckedWhen :
      (id : ℤ) (acks : ℕ) (r : (ℤ × Option Error) × State)
      → AckedWhen acks (after_insert formats db now a id acks r).0 (Inserts id r)
  after_insert-AckedWhen id acks ((n, none), s) = inl (refl, inl refl)
  after_insert-AckedWhen id acks ((n, some e), s) =
      elim (ack_if_ok-AckedWhen acks (update_article_stats pool (stats_of formats db now a id) s)) [
        | inl (k, u) ↦ inl (k, inr (λ z. cc, u))
        | inr (k, u) ↦ inr (k, λ w. elim w [ inl z ↦ cc | inr (z, v) ↦ u v ])
      ]

  abbrev ReportsOrUpdated : ℤ → State → Type 0
  ReportsOrUpdated id s =
      Reports db (params_of formats db a) s
      ⊎ ((Reports db (params_of formats db a) s → ⊥)
          × IsUpdated id (new_article db (params_of formats db a) s).1)

  Inserts-iff :
      (id : ℤ) (s : State)
      → Inserts id (new_article db (params_of formats db a) s) ↔ ReportsOrUpdated id s
  Inserts-iff id s =
      let (forth, back) = new_article_iff db (params_of formats db a) s in
      (
        λ w. elim w [ inl z ↦ inl (forth z) | inr (z, v) ↦ inr (λ r. z (back r), v) ],
        λ w. elim w [ inl z ↦ inl (back z) | inr (z, v) ↦ inr (λ r. z (forth r), v) ],
      )

  after_lookup-AckedWhen :
      (acks : ℕ) (r : (ℤ × Option Error) × State)
      → AckedWhen acks (after_lookup formats db now a acks r).0 (Succeeds r)
  after_lookup-AckedWhen acks ((id, none), s) =
      elim (ack_if_ok-AckedWhen acks (update_article_stats pool (stats_of formats db now a id) s)) [
        | inl (k, u) ↦ inl (k, inl (refl, u))
        | inr (k, u) ↦ inr (k, λ w. elim w [ inl (z, v) ↦ u v | inr (z, v) ↦ absurd z ])
      ]
  after_lookup-AckedWhen acks ((id, some e), s) = elim (Bool-cases (is_no_rows e)) [
    | inl y ↦
        rw y
          (elim (AckedWhen_iff acks _ _ _ (Inserts-iff id s)
            (after_insert-AckedWhen id acks (new_article db (params_of formats db a) s))) [
              | inl (k, u) ↦ inl (k, inr (refl, u))
              | inr (k, u) ↦ inr (k, λ w. elim w [ inl (z, v) ↦ cc | inr (z, v) ↦ u v ])
            ])
    | inr n ↦ rw n (inr (refl, λ w. elim w [ inl (z, v) ↦ cc | inr (z, v) ↦ cc ]))
  ]

  -- A message whose payload decodes is acknowledged at most once, and exactly where its article is
  -- known and its statistics are updated without an error; or is unknown and `NewArticle` reports no
  -- error, which is after a commit, or after a callback that failed and a rollback that succeeded; or is
  -- unknown, `NewArticle` reports an error and an update under the id of the failed look-up reports none.
  pub handler-AckedWhen :
      (payload : Bytes) (s : State)
      → unmarshal formats (zero_article formats) payload ≡ (a, none)
      → AckedWhen 0
          (handler formats db now payload s).0
          (Succeeds (select_article_id pool a.title a.origin s))
  unfolding handler
  handler-AckedWhen payload s u =
      rw u (after_lookup-AckedWhen 0 (select_article_id pool a.title a.origin s))

  after_lookup_stored :
      (acks : ℕ) (r : (ℤ × Option Error) × State)
      → IsMissing r.0.1
      → (id : ℤ) → (new_article db (params_of formats db a) r.1).0 ≡ (id, none)
      → after_lookup formats db now a acks r
        ≡ (suc acks, (new_article db (params_of formats db a) r.1).1)
  after_lookup_stored acks ((n, none), s) m id e = absurd m
  after_lookup_stored acks ((n, some err), s) m id e = rw (m, e) refl

  -- A message whose payload decodes, whose article is unknown, whose row is inserted after the
  -- transaction began, whose main image is not inserted and whose rollback succeeds is acknowledged
  -- once, and leaves the data that all connections see as they are right after the insertion of the row.
  pub handler-lost_images :
      (payload : Bytes) (s : State) (e : Error)
      → unmarshal formats (zero_article formats) payload ≡ (a, none)
      → IsMissing (select_article_id pool a.title a.origin s).0.1
      → let t = (select_article_id pool a.title a.origin s).1 in
        let after = inserted db (params_of formats db a) t in
        (begin t).0 ≡ none
        → (insert_article pool (params_of formats db a).article (begin t).1).0.1 ≡ none
        → (insert_image pool a.main_image after).0.1 ≡ some e
        → (rollback (insert_image pool a.main_image after).1).0 ≡ none
        → ((handler formats db now payload s).0 ≡ 1)
          × (visible (handler formats db now payload s).1 ≡ visible after)
  unfolding handler
  handler-lost_images payload s e u m b i f r =
      let found = select_article_id pool a.title a.origin s in
      let (done, stays) = new_article-lost_error db (params_of formats db a) found.1 e b i f r in
      rw (u, after_lookup_stored 0 found m (pos 0) done) (refl, stays)

-- A message whose payload is no article is acknowledged, and then handled as an article without title
-- and origin: where that one is unknown and `NewArticle` gives it an id other than 0 and reports no
-- error, its row was inserted with that id, and the message is acknowledged twice.
pub handler_undecoded :
    (formats : Formats) (db : Database formats.Time) (now : formats.Time) (payload : Bytes)
    (s : db.State) (e : Error) (id : ℤ)
    → (formats.decode payload).1 ≡ some e
    → let r = db.select_article_id pool [] [] s in
      let empty = params_of formats db (zero_article formats) in
      IsMissing formats db now (zero_article formats) r.0.1
      → (new_article db empty r.1).0 ≡ (id, none)
      → id ≢ pos 0
      → (handler formats db now payload s ≡ (2, (new_article db empty r.1).1))
        × ((db.insert_article pool empty.article (db.begin r.1).1).0 ≡ (id, none))
unfolding handler unmarshal
handler_undecoded formats db now payload s e id d m n z =
    let r = db.select_article_id pool [] [] s in
    let empty = params_of formats db (zero_article formats) in
    let given : (new_article db empty r.1).0.0 ≡ id = ap (λ p. p.0) n in
    let (begun, row, images) = new_article-id db empty r.1 (λ w. z (sym given ∙ w)) in
    (
      rw (d, after_lookup_stored formats db now (zero_article formats) 1 r m id n) refl,
      row ∙ ap (λ (i : ℤ). (i, none)) given,
    )
