-- ===== src/Extract/Titles.antt =====
-- An article page whose title is empty.
use news_tracker.Prelude.{
  ℕ, suc, ◌<◌, Bool, true, false, not, ◌||◌, ◌≡◌, refl, ap, ◌∙◌, inl, Option, some, none, List, [],
  ◌∷◌, ◌++◌, map, Bytes, codes, length, eq_bytes, eq_bytes_refl, StringMap, find, put, remove,
  if◌then◌else◌, Outcome, ok, panic,
}
use news_tracker.Token.Reader.{l_bracket, r_bracket, slash}
use news_tracker.Token.OpenTag.{OpenTag}
use news_tracker.Token.OpenTag.Pairs.{print_pairs, put_all}
use news_tracker.Dates.{Clock}
use news_tracker.Ast.{Node, count_up, count_down}
use news_tracker.Ast.Forest.{close_forest}
use news_tracker.Selector.{is_selected, new_class_selector}
use news_tracker.Parse.{Token, open_tag, close_tag, node_of_open}
use news_tracker.Parse.Build.{Building, idle, is_idle, grow, build_close, build_token}
use news_tracker.Tokenizer.{IoReader, normal}
use news_tracker.Tokenizer.Window.{IsPolite}
use news_tracker.Tokenizer.Lex.{lex_next}
use news_tracker.Document.Print.{open_piece, close_piece, print_pieces, IsPiece}
use news_tracker.Document.RoundTrip.{lex_next-tag, lex-open, lex-close, letter_starts, letter_plain}
use news_tracker.Article.{zero_article}
use news_tracker.Watch.{Watcher, Call, Schedule}
use news_tracker.Watch.Orders.{
  All, Some, All-Permᴰ, Some-Permᴰ, Reorders, IsQuiet, HasEnd, Stops, run_calls-IsQuiet,
  run_calls-Stops,
}
use news_tracker.Extract.Endings.{
  on_title-EndsAll, EndsAll, EndsSome, no_callback, ending, callback_of-EndsSome,
}
use news_tracker.Fields.{Codec, formats_of, PageArticle, Field, NewsFeedConfig, on_title}
use news_tracker.Extract.{callback_of, selectors_of, read_article}
use news_tracker.Extract.Page.{
  Seen, given, watch, watch_token, new_watcher, new_seen, parse_watched-watch,
}

open_no_tree :
    (classes : List Bytes) (t : OpenTag) (b : Building)
    → (build_token classes (open_tag t) b).1 ≡ none
unfolding build_token
open_no_tree classes t b = by_test (not (is_idle b.forest) || is_selected classes (node_of_open t))
  where
    by_test :
        (x : Bool)
        → (if◌then◌else◌ {A = Building × Option (List Node)} x
            (grow (node_of_open t) b, none)
            (b, none)).1
          ≡ none
    by_test true = refl
    by_test false = refl

lone_node :
    (n : Node) → build_close n.name ((n ∷ []) ∷ []) (count_up n.name []) ≡ (idle, some (n ∷ []))
unfolding build_close close_forest count_up count_down find put remove
lone_node n = rw (build_close, eq_bytes_refl n.name) refl

module _ (A : Type 0) where
  -- No callback is called at an opening tag.
  open-IsQuiet :
      (t : OpenTag) (seen : List (Seen A)) → All (IsQuiet A) (watch_token A (open_tag t) seen).1
  open-IsQuiet t [] = tt
  open-IsQuiet t ((classes, b, f) ∷ seen) =
      ((λ a. rw (open_no_tree classes t b) refl), open-IsQuiet t seen)

  abbrev CallsEnd : Seen A → Type 0
  CallsEnd (classes, b, f) = (nodes : List Node) → HasEnd A (f nodes)

  given-HasEnd :
      (f : List Node → Call A) (nodes : Option (List Node))
      → ((nodes : List Node) → HasEnd A (f nodes))
      → HasEnd A (given A f nodes)
  given-HasEnd f none h a = tt
  given-HasEnd f (some nodes) h a = h nodes a

  watch_token-HasEnd :
      (t : Token) (seen : List (Seen A))
      → All CallsEnd seen
      → All CallsEnd (watch_token A t seen).0 × All (HasEnd A) (watch_token A t seen).1
  watch_token-HasEnd t [] h = (tt, tt)
  watch_token-HasEnd t ((classes, b, f) ∷ seen) (h, hs) =
      let (seen_end, calls_end) = watch_token-HasEnd t seen hs in
      ((h, seen_end), (given-HasEnd f (build_token classes t b).1 h, calls_end))

  module _ (schedule : Schedule A) (order : Reorders A schedule) where
    quiet_round :
        (rounds : ℕ) (bytes rest : Bytes) (t : Token) (seen : List (Seen A)) (a : A)
        → lex_next normal bytes ≡ ok (some (t, normal, rest))
        → All (IsQuiet A) (watch_token A t seen).1
        → watch A schedule (suc rounds) normal bytes seen a
          ≡ watch A schedule rounds normal rest (watch_token A t seen).0 a
    unfolding watch
    quiet_round rounds bytes rest t seen a e quiet =
        let calls = (watch_token A t seen).1 in
        rw
          (
            e,
            run_calls-IsQuiet A (schedule rounds calls) a
                (All-Permᴰ (IsQuiet A) (order rounds calls) quiet),
          )
          refl

    stopped_round :
        (rounds : ℕ) (bytes rest : Bytes) (t : Token) (seen : List (Seen A)) (a : A)
        → lex_next normal bytes ≡ ok (some (t, normal, rest))
        → All (HasEnd A) (watch_token A t seen).1
        → Some (Stops A) (watch_token A t seen).1
        → watch A schedule (suc rounds) normal bytes seen a ≡ panic
    unfolding watch
    stopped_round rounds bytes rest t seen a e ends stops =
        let calls = (watch_token A t seen).1 in
        rw
          (
            e,
            run_calls-Stops A (schedule rounds calls) a
                (All-Permᴰ (HasEnd A) (order rounds calls) ends)
                (Some-Permᴰ (Stops A) (order rounds calls) stops),
          )
          refl

module _ (clock : Clock) (codec : Codec clock) where
  abbrev Article : Type 0
  Article = PageArticle clock codec

  -- The element is a tree of one node.
  watch_close :
      (classes : List Bytes) (t : OpenTag) (seen : List (Seen Article))
      → Some
          (Stops Article)
          (watch_token Article
            (close_tag (record { name = t.name }))
            ((classes, grow (node_of_open t) idle, on_title clock codec) ∷ seen)).1
  unfolding build_token on_title
  watch_close classes t seen = inl λ a. rw (lone_node (node_of_open t)) refl

  watch_open :
      (classes : List Bytes) (t : OpenTag) (seen : List (Seen Article))
      → is_selected classes (node_of_open t) ≡ true
      → (watch_token Article (open_tag t) ((classes, idle, on_title clock codec) ∷ seen)).0
        ≡ (classes, grow (node_of_open t) idle, on_title clock codec)
          ∷ (watch_token Article (open_tag t) seen).0
  unfolding build_token
  watch_open classes t seen h = rw h refl

  watch-empty :
      (schedule : Schedule Article) (rounds : ℕ) (bytes rest rest' : Bytes) (classes : List Bytes)
      (t : OpenTag) (seen : List (Seen Article)) (a : Article)
      → Reorders Article schedule
      → lex_next normal bytes ≡ ok (some (open_tag t, normal, rest))
      → lex_next normal rest ≡ ok (some (close_tag (record { name = t.name }), normal, rest'))
      → is_selected classes (node_of_open t) ≡ true
      → All (CallsEnd Article) ((classes, idle, on_title clock codec) ∷ seen)
      → watch Article schedule
          (suc (suc rounds))
          normal
          bytes
          ((classes, idle, on_title clock codec) ∷ seen)
          a
        ≡ panic
  watch-empty schedule rounds bytes rest rest' classes t seen a order e e' h ends =
      let all = (classes, idle, on_title clock codec) ∷ seen in
      let seen' = (watch_token Article (open_tag t) seen).0 in
      let titled = (classes, grow (node_of_open t) idle, on_title clock codec) ∷ seen' in
      let closing = close_tag (record { name = t.name }) in
      let opened = watch_token-HasEnd Article (open_tag t) seen ends.1 in
      let closed = watch_token-HasEnd Article closing titled (ends.0, opened.0) in
      quiet_round Article schedule order (suc rounds) bytes rest (open_tag t) all a e
        (open-IsQuiet Article t all)
      ∙ ap (λ (s : List (Seen Article)). watch Article schedule (suc rounds) normal rest s a)
          (watch_open classes t seen h)
      ∙ stopped_round Article schedule order rounds rest rest' closing titled a e' closed.1
          (watch_close classes t seen')

  abbrev Selectors : Type 0
  Selectors = List (List Bytes × (List Node → Article → Outcome Article))

  abbrev SelectorsEnd : Selectors → Type 0
  SelectorsEnd [] = Unit {0}
  SelectorsEnd ((classes, f) ∷ selectors) = EndsAll clock codec f × SelectorsEnd selectors

  new_seen-CallsEnd :
      (selectors : Selectors)
      → SelectorsEnd selectors
      → All (CallsEnd Article) (map (new_seen Article) selectors)
  new_seen-CallsEnd [] h = tt
  new_seen-CallsEnd ((classes, f) ∷ selectors) (h, hs) = (h, new_seen-CallsEnd selectors hs)

  add_watcher :
      (field : Field) (o : Option (List Node → Article → Outcome Article))
      (watchers : List (Watcher Article)) (selectors : Selectors)
      → EndsSome clock codec o
      → SelectorsEnd selectors
      → watchers ≡ map (new_watcher Article) selectors
      → (selectors' : Selectors) × SelectorsEnd selectors'
        × ◌≡◌ {A = List (Watcher Article)}
            (elim o [
              | none ↦ watchers
              | some f ↦
                  record { selector = new_class_selector (field.class_selector ∷ []); callback = f }
                  ∷ watchers
            ])
            (map (new_watcher Article) selectors')
  add_watcher field none watchers selectors no_callback hs e = (selectors, hs, e)
  add_watcher field (some f) watchers selectors (ending h) hs e = (
    (field.class_selector ∷ [], f) ∷ selectors,
    (h, hs),
    ap (λ (ws : List (Watcher Article)). new_watcher Article (field.class_selector ∷ [], f) ∷ ws) e,
  )

  -- The selectors and callbacks of a configuration.
  selectors_of-new_watcher :
      (now : clock.Time) (prefix : Bytes) (fields : List Field)
      → (selectors : Selectors) × SelectorsEnd selectors
        × (selectors_of clock codec now prefix fields ≡ map (new_watcher Article) selectors)
  unfolding selectors_of
  selectors_of-new_watcher now prefix [] = ([], tt, refl)
  selectors_of-new_watcher now prefix (field ∷ fields) =
      let (selectors, ends, e) = selectors_of-new_watcher now prefix fields in
      add_watcher field (callback_of clock codec now prefix field) _ selectors
        (callback_of-EndsSome clock codec now prefix field) ends e

  -- The configuration's first field is the title's, and the page begins with an element of its
  -- class, well-formed, that has no content and whose name is not "script": on any polite reader
  -- that holds the page, with two rounds or more and more fuel than bytes, reading the article
  -- panics, whatever follows on the page, whatever the other fields are, and in whatever order the
  -- goroutines of each token call back, each of them once.
  pub read_article_empty_title :
      (source : IoReader) (polite : IsPolite source) (schedule : Schedule Article)
      (page : source.State) (c : ℕ) (name : Bytes) (kvs : StringMap Bytes) (rest : Bytes)
      (rounds fuel : ℕ) (now : clock.Time) (config : NewsFeedConfig) (origin : Bytes)
      (field : Field) (fields : List Field)
      → Reorders Article schedule
      → polite.Holds page
          (print_pieces (open_piece [] c name kvs ∷ close_piece [] (c ∷ name) ∷ []) rest)
      → length (print_pieces (open_piece [] c name kvs ∷ close_piece [] (c ∷ name) ∷ []) rest)
        < fuel
      → IsPiece (open_piece [] c name kvs)
      → IsPiece (close_piece [] (c ∷ name))
      → config.article_config ≡ field ∷ fields
      → field.type ≡ codes "title"
      → is_selected
          (field.class_selector ∷ [])
          (node_of_open (record { name = c ∷ name; attr = some (put_all kvs []) }))
        ≡ true
      → read_article clock codec source schedule (suc (suc rounds)) fuel now config origin page
        ≡ panic
  unfolding read_article selectors_of callback_of eq_bytes
  read_article_empty_title source polite schedule page c name kvs rest rounds fuel now config origin
        field fields order h f (a, l, n, ps, cs, e) (a', r) cf ft sel =
      let t : OpenTag = record { name = c ∷ name; attr = some (put_all kvs []) } in
      let bytes : Bytes =
        print_pieces (open_piece [] c name kvs ∷ close_piece [] (c ∷ name) ∷ []) rest in
      let closing : Bytes = l_bracket ∷ slash ∷ (c ∷ name ++ r_bracket ∷ rest) in
      let opened : lex_next normal bytes ≡ ok (some (open_tag t, normal, closing)) =
        lex_next-tag [] c (name ++ print_pairs kvs (r_bracket ∷ closing)) tt (letter_starts c l)
          (letter_plain c l).0
        ∙ lex-open c name kvs closing l n ps cs e in
      let closed : lex_next normal closing
          ≡ ok (some (close_tag (record { name = c ∷ name }), normal, rest)) =
        lex_next-tag [] slash (c ∷ name ++ r_bracket ∷ rest) tt refl refl
        ∙ lex-close (c ∷ name) rest r in
      let a₀ : Article = zero_article (formats_of clock codec) in
      let title_ends = on_title-EndsAll clock codec in
      let (selectors, ends, es) = selectors_of-new_watcher now config.article_prefix_url fields in
      rw
        (
          cf,
          ft,
          es,
          parse_watched-watch Article source polite schedule page bytes (suc (suc rounds)) fuel
              ((field.class_selector ∷ [], on_title clock codec) ∷ selectors) a₀ h f,
          watch-empty schedule rounds bytes closing rest (field.class_selector ∷ []) t
              (map (new_seen Article) selectors) a₀ order opened closed sel
              (title_ends, new_seen-CallsEnd selectors ends),
        )
        refl
