-- ===== src/Service/Atomic.antt =====
-- What storing an article leaves behind when one of its steps fails, and when none does.
use news_tracker.Prelude.{
  Bool, true, false, ◌≡◌, ◌≢◌, ◌↔◌, ◌⊎◌, refl, sym, ap, ◌∙◌, inl, inr, Option, some, none, List, [],
  ◌∷◌, Bytes,
}
use news_tracker.Prelude.Int.{ℤ, pos}
use news_tracker.Errors.{Error, unable_create_image}
use news_tracker.Storage.{Connection, pool, transaction, Database}
use news_tracker.Service.{
  NewArticleParams, and_then, assign_id, attach_image, end_transaction, map_error, new_article,
  new_article_image, new_content_images, run_transaction, store_article, with_images,
  with_transaction,
}

module _ {Time : Type 0} (db : Database Time) (params : NewArticleParams Time) where
  open db use {
    State, visible, begin, commit, rollback, insert_article, insert_image, attach_article_image,
    rollback_visible, insert_image_failed,
  }

  -- The state after the row of the article was inserted.
  abbrev pub inserted : State → State
  inserted s = (insert_article pool params.article (begin s).1).1

  -- The outcome of `NewArticle` where the transaction begins, the row is inserted and the main image
  -- is not.
  pub new_article-image_failed :
      (s : State) (e : Error)
      → (begin s).0 ≡ none
      → (insert_article pool params.article (begin s).1).0.1 ≡ none
      → (insert_image pool params.main_image_url (inserted s)).0.1 ≡ some e
      → new_article db params s ≡ (
        (pos 0, (rollback (insert_image pool params.main_image_url (inserted s)).1).0),
        (rollback (insert_image pool params.main_image_url (inserted s)).1).1,
      )
  unfolding new_article with_transaction store_article new_article_image
  new_article-image_failed s e b i f = rw (b, i, f) refl

  -- Where the transaction begins, the row is inserted and the main image is not, a rollback that
  -- succeeds makes `NewArticle` report success with the id 0, and undoes nothing: all connections see the
  -- data as they are right after the insertion of the row.
  pub new_article-lost_error :
      (s : State) (e : Error)
      → (begin s).0 ≡ none
      → (insert_article pool params.article (begin s).1).0.1 ≡ none
      → (insert_image pool params.main_image_url (inserted s)).0.1 ≡ some e
      → (rollback (insert_image pool params.main_image_url (inserted s)).1).0 ≡ none
      → ((new_article db params s).0 ≡ (pos 0, none))
        × (visible (new_article db params s).1 ≡ visible (inserted s))
  new_article-lost_error s e b i f r = (
    rw (new_article-image_failed s e b i f, r) refl,
    rw (new_article-image_failed s e b i f)
        (rollback_visible _ ∙ insert_image_failed params.main_image_url (inserted s) e f),
  )

  transaction_id :
      (fn : Connection → State → (ℤ × Option Error) × State) (r : Option Error × State)
      → (run_transaction db (pos 0) fn r).0.0 ≢ pos 0
      → (r.0 ≡ none) × ((run_transaction db (pos 0) fn r).0.0 ≡ (fn transaction r.1).0.0)
  transaction_id fn (some e, s) h = absurd (h refl)
  transaction_id fn (none, s) h = (refl, end_id (fn transaction s))
    where
      end_id : (o : (ℤ × Option Error) × State) → (end_transaction db o).0.0 ≡ o.0.0
      end_id ((id, some e), t) = refl
      end_id ((id, none), t) = refl

  and_then-none :
      (r : Option Error × State) (f : State → Option Error × State)
      → (and_then db r f).0 ≡ none
      → (r.0 ≡ none) × ((f r.1).0 ≡ none)
  and_then-none (some e, s) f h = cc
  and_then-none (none, s) f h = (refl, h)

  assigned_id :
      (id : ℤ) (r : Option Error × State)
      → (assign_id db id r).0.0 ≢ pos 0
      → ((assign_id db id r).0.0 ≡ id) × (r.0 ≡ none)
  assigned_id id (some e, s) h = absurd (h refl)
  assigned_id id (none, s) h = (refl, refl)

  -- From `s` to `t`: the image is inserted, and attached to the article under the id that it got.
  abbrev pub ImageAttached : ℤ → Bytes → Bool → State → State → Type 0
  ImageAttached id url main s t =
      (image_id : ℤ) × (s₁ : State) × (insert_image pool url s ≡ ((image_id, none), s₁))
      × (attach_article_image pool id image_id main s₁ ≡ (none, t))

  abbrev pub ImagesAttached : ℤ → List Bytes → State → State → Type 0
  ImagesAttached id [] s t = t ≡ s
  ImagesAttached id (url ∷ urls) s t =
      (s₁ : State) × ImageAttached id url false s s₁ × ImagesAttached id urls s₁ t

  -- From `s` on: the main image, and then the images of the content in order.
  abbrev pub AllAttached : ℤ → State → Type 0
  AllAttached id s =
      (s₁ : State) × (t : State) × ImageAttached id params.main_image_url true s s₁
      × ImagesAttached id params.content_images_urls s₁ t

  attach-none :
      (id : ℤ) (main : Bool) (r : (ℤ × Option Error) × State)
      → (attach_image db id main r).0 ≡ none
      → (image_id : ℤ) × (s₁ : State) × (r ≡ ((image_id, none), s₁))
        × (attach_article_image pool id image_id main s₁ ≡ (none, (attach_image db id main r).1))
  attach-none id main ((image_id, some e), s) h = cc
  attach-none id main ((image_id, none), s) h =
      (image_id, s, refl, mapped (attach_article_image pool id image_id main s) h)
    where
      mapped :
          (r : Option Error × State)
          → (map_error db unable_create_image r).0 ≡ none
          → r ≡ (none, (map_error db unable_create_image r).1)
      mapped (some e, t) k = cc
      mapped (none, t) k = refl

  image-none :
      (id : ℤ) (url : Bytes) (main : Bool) (s : State)
      → (new_article_image db id url main s).0 ≡ none
      → ImageAttached id url main s (new_article_image db id url main s).1
  unfolding new_article_image
  image-none id url main s h = attach-none id main (insert_image pool url s) h

  images-none :
      (id : ℤ) (urls : List Bytes) (s : State)
      → (new_content_images db id urls s).0 ≡ none
      → ImagesAttached id urls s (new_content_images db id urls s).1
  unfolding new_content_images
  images-none id [] s h = refl
  images-none id (url ∷ urls) s h =
      let first = new_article_image db id url false s in
      let (done, rest) = and_then-none first (new_content_images db id urls) h in
      (
        first.1,
        image-none id url false s done,
        rw (went_on first (new_content_images db id urls) done) (images-none id urls first.1 rest),
      )
    where
      went_on :
          (r : Option Error × State) (f : State → Option Error × State)
          → r.0 ≡ none
          → and_then db r f ≡ f r.1
      went_on (some e, t) f k = cc
      went_on (none, t) f k = refl

  images_id :
      (r : (ℤ × Option Error) × State)
      → (with_images db params r).0.0 ≢ pos 0
      → (r.0 ≡ ((with_images db params r).0.0, none))
        × AllAttached (with_images db params r).0.0 r.1
  images_id ((id, some e), s) h = absurd (h refl)
  images_id ((id, none), s) h =
      let tail =
        and_then db (new_article_image db id params.main_image_url true s)
          (new_content_images db id params.content_images_urls) in
      let (same, done) = assigned_id id tail h in
      (
        ap (λ (n : ℤ). (n, none)) (sym same),
        rw same (
            let (main, rest) =
              and_then-none (new_article_image db id params.main_image_url true s)
                (new_content_images db id params.content_images_urls) done in
            (
              (new_article_image db id params.main_image_url true s).1,
              (new_content_images db id params.content_images_urls
                  (new_article_image db id params.main_image_url true s).1).1,
              image-none id params.main_image_url true s main,
              images-none id params.content_images_urls
                  (new_article_image db id params.main_image_url true s).1 rest,
            )),
      )

  -- `NewArticle` gives an id other than 0 only where the transaction began, the row was inserted with
  -- that id, and then the main image and all images of the content, in order, were each inserted and
  -- attached to that id, every one of these statements without an error.
  pub new_article-id :
      (s : State)
      → (new_article db params s).0.0 ≢ pos 0
      → ((begin s).0 ≡ none)
        × (insert_article pool params.article (begin s).1).0 ≡ ((new_article db params s).0.0, none)
        × AllAttached (new_article db params s).0.0 (inserted s)
  unfolding new_article with_transaction store_article
  new_article-id s h =
      let (begun, same) = transaction_id (store_article db params) (begin s) h in
      let (row, attached) =
        images_id (insert_article pool params.article (begin s).1) (λ z. h (same ∙ z)) in
      (begun, rw same row, rw same attached)

  -- `NewArticle` reports no error: its callback reported none and the commit succeeded, or its callback
  -- failed and the rollback succeeded.
  abbrev pub Reports : State → Type 0
  Reports s =
      let r = store_article db params transaction (begin s).1 in
      ((begin s).0 ≡ none)
      × (((r.0.1 ≡ none) × ((commit r.1).0 ≡ none)) ⊎ ((r.0.1 ≢ none) × ((rollback r.1).0 ≡ none)))

  abbrev RunReports :
      (Connection → State → (ℤ × Option Error) × State) → Option Error × State → Type 0
  RunReports fn r =
      (r.0 ≡ none)
      × ((((fn transaction r.1).0.1 ≡ none) × ((commit (fn transaction r.1).1).0 ≡ none))
          ⊎ (((fn transaction r.1).0.1 ≢ none) × ((rollback (fn transaction r.1).1).0 ≡ none)))

  end_transaction_iff :
      (r : (ℤ × Option Error) × State)
      → ((end_transaction db r).0.1 ≡ none) ↔ (
          ((r.0.1 ≡ none) × ((commit r.1).0 ≡ none)) ⊎ ((r.0.1 ≢ none) × ((rollback r.1).0 ≡ none)))
  end_transaction_iff ((id, some e), s) =
      (λ h. inr (λ z. cc, h), λ w. elim w [ inl (z, v) ↦ cc | inr (z, v) ↦ v ])
  end_transaction_iff ((id, none), s) =
      (λ h. inl (refl, h), λ w. elim w [ inl (z, v) ↦ v | inr (z, v) ↦ absurd (z refl) ])

  run_transaction_iff :
      (fn : Connection → State → (ℤ × Option Error) × State) (r : Option Error × State)
      → ((run_transaction db (pos 0) fn r).0.1 ≡ none) ↔ RunReports fn r
  run_transaction_iff fn (some e, s) = (λ h. cc, λ w. cc)
  run_transaction_iff fn (none, s) =
      let (forth, back) = end_transaction_iff (fn transaction s) in
      (λ h. (refl, forth h), λ w. back w.1)

  pub new_article_iff : (s : State) → ((new_article db params s).0.1 ≡ none) ↔ Reports s
  unfolding new_article with_transaction
  new_article_iff s = run_transaction_iff (store_article db params) (begin s)
