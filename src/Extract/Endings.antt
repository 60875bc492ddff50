-- ===== src/Extract/Endings.antt =====
-- The callbacks of worker/internal/prebuiltemplate/article.go return or panic.
use news_tracker.Prelude.{
  String, Bool, true, false, not, Option, some, none, List, [], ◌∷◌, Bytes, codes, eq_bytes,
  if◌then◌else◌, ok, Ends, Ends-if,
}
use news_tracker.Ast.{Node}
use news_tracker.Dates.{Clock, Parsed, parsed, failed, panicked, parse_date_ua}
use news_tracker.Selector.{attr_of, contains_class}
use news_tracker.Watch.{Call}
use news_tracker.Watch.Orders.{HasEnd}
use news_tracker.Fields.{
  Codec, PageArticle, Field, has_attr, viewers_count_selector, with_date, on_title, on_preface,
  on_publish_date, count_behind, on_info, on_content, on_main_image, on_content_images,
}
use news_tracker.Extract.{callback_of}

module _ (clock : Clock) (codec : Codec clock) where
  abbrev Article : Type 0
  Article = PageArticle clock codec

  abbrev Callback : Type 0
  Callback = List Node → Call Article

  abbrev pub EndsAll : Callback → Type 0
  EndsAll f = (nodes : List Node) → HasEnd Article (f nodes)

  pub on_title-EndsAll : EndsAll (on_title clock codec)
  unfolding on_title
  on_title-EndsAll [] a = tt
  on_title-EndsAll (n ∷ []) a = tt
  on_title-EndsAll (n ∷ m ∷ nodes) a = tt

  on_preface-EndsAll : EndsAll (on_preface clock codec)
  unfolding on_preface
  on_preface-EndsAll [] a = tt
  on_preface-EndsAll (n ∷ []) a = tt
  on_preface-EndsAll (n ∷ m ∷ nodes) a = tt

  with_date-Ends :
      (now : clock.Time) (a : Article) (p : Parsed clock.Time)
      → Ends (λ _. Unit {0}) (with_date clock codec now a p)
  with_date-Ends now a (parsed date) = tt
  with_date-Ends now a (failed e) = tt
  with_date-Ends now a panicked = tt

  on_publish_date-EndsAll : (now : clock.Time) → EndsAll (on_publish_date clock codec now)
  unfolding on_publish_date
  on_publish_date-EndsAll now [] a = tt
  on_publish_date-EndsAll now (n ∷ []) a = tt
  on_publish_date-EndsAll now (n ∷ m ∷ nodes) a =
      with_date-Ends now a (parse_date_ua clock now m.content)

  count_behind-EndsAll : EndsAll (count_behind clock codec)
  unfolding count_behind
  count_behind-EndsAll [] a = tt
  count_behind-EndsAll (n ∷ []) a = tt
  count_behind-EndsAll (n ∷ m ∷ []) a = tt
  count_behind-EndsAll (n ∷ m ∷ k ∷ []) a = tt
  count_behind-EndsAll (n ∷ m ∷ k ∷ l ∷ nodes) a = tt

  on_info-EndsAll : EndsAll (on_info clock codec)
  unfolding on_info
  on_info-EndsAll [] a = tt
  on_info-EndsAll (n ∷ nodes) a =
      Ends-if (not (has_attr n)) _ _ _ (λ _. on_info-EndsAll nodes a)
        (λ _.
          Ends-if (contains_class (attr_of (codes "class") n) (viewers_count_selector ∷ [])) _ _ _
            (λ _. count_behind-EndsAll (n ∷ nodes) a) (λ _. on_info-EndsAll nodes a))

  pub data EndsSome : Option Callback → Type 0 where
    no_callback : EndsSome none
    ending : {f : Callback} → EndsAll f → EndsSome (some f)

  plain : (g : List Node → Article → Article) → EndsSome (some (λ nodes a. ok (g nodes a)))
  plain g = ending λ nodes a. tt

  EndsSome-if :
      (b : Bool) (x y : Option Callback) → EndsSome x → EndsSome y → EndsSome (if b then x else y)
  EndsSome-if true x y h k = h
  EndsSome-if false x y h k = k

  pub callback_of-EndsSome :
      (now : clock.Time) (prefix : Bytes) (field : Field)
      → EndsSome (callback_of clock codec now prefix field)
  unfolding callback_of
  callback_of-EndsSome now prefix field =
      let is : String → Bool = λ name. eq_bytes field.type (codes name) in
      EndsSome-if (is "title") _ _ (ending on_title-EndsAll) (
        EndsSome-if (is "content") _ _ (plain (on_content clock codec field)) (
          EndsSome-if (is "preface") _ _ (ending on_preface-EndsAll) (
            EndsSome-if (is "published_at") _ _ (ending (on_publish_date-EndsAll now)) (
              EndsSome-if (is "info") _ _ (ending on_info-EndsAll) (
                EndsSome-if (is "main_image") _ _ (plain (on_main_image clock codec prefix)) (
                  EndsSome-if (is "content_images") _ _
                    (plain (on_content_images clock codec prefix)) no_callback))))))
