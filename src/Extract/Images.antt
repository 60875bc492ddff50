-- ===== src/Extract/Images.antt =====
-- The images of an article.
use news_tracker.Prelude.{
  ◌&&◌, ◌≡◌, refl, sym, ap, ◌∙◌, inl, inr, List, [], ◌∷◌, ◌++◌, append_assoc, append-nil, Bytes,
  if◌then◌else◌, Bool-cases,
}
use news_tracker.Ast.{Node}
use news_tracker.Dates.{Clock}
use news_tracker.Fields.{
  Codec, PageArticle, is_img, has_attr, src_of, on_main_image, on_content_images,
}

-- The sources of the `img` nodes that have attributes, in order.
abbrev pub images_of : Bytes → List Node → List Bytes
images_of prefix [] = []
images_of prefix (n ∷ nodes) =
    let rest = images_of prefix nodes in
    if is_img n && has_attr n then src_of prefix n ∷ rest else rest

abbrev pub first_or : Bytes → List Bytes → Bytes
first_or default [] = default
first_or default (image ∷ images) = image

module _ (clock : Clock) (codec : Codec clock) where
  main_image_first :
      (prefix : Bytes) (nodes : List Node) (a : PageArticle clock codec)
      → on_main_image clock codec prefix nodes a
        ≡ record a { main_image = first_or a.main_image (images_of prefix nodes) }
  unfolding on_main_image
  main_image_first prefix [] a = refl
  main_image_first prefix (n ∷ nodes) a =
      let ih = main_image_first prefix nodes a in
      elim (Bool-cases (is_img n)) [
        | inl i ↦ elim (Bool-cases (has_attr n)) [ inl h ↦ rw (i, h) refl | inr h ↦ rw (i, h) ih ]
        | inr i ↦ rw i ih
      ]

  abbrev add_images : List Bytes → PageArticle clock codec → PageArticle clock codec
  add_images images a = record a { content_images = a.content_images ++ images }

  all_images :
      (prefix : Bytes) (nodes : List Node) (a : PageArticle clock codec)
      → on_content_images clock codec prefix nodes a ≡ add_images (images_of prefix nodes) a
  unfolding on_content_images
  all_images prefix [] a =
      ap (λ images. record a { content_images = images }) (sym (append-nil a.content_images))
  all_images prefix (n ∷ nodes) a =
      let image : Bytes = src_of prefix n in
      elim (Bool-cases (is_img n)) [
        | inl i ↦ elim (Bool-cases (has_attr n)) [
          | inl h ↦
              rw (i, h)
                (all_images prefix nodes (add_images (image ∷ []) a)
                  ∙ ap (λ images. record a { content_images = images })
                      (append_assoc a.content_images (image ∷ []) (images_of prefix nodes)))
          | inr h ↦ rw (i, h) (all_images prefix nodes a)
        ]
        | inr i ↦ rw i (all_images prefix nodes a)
      ]

  -- On the same tree `OnContentImages` adds the prefixed sources of all `img` nodes with attributes, in
  -- order, and `OnMainImage` sets the first of them, or leaves the main image where there is none;
  -- neither changes anything else of the article.
  pub on_main_image-on_content_images :
      (prefix : Bytes) (nodes : List Node) (a : PageArticle clock codec)
      → (on_main_image clock codec prefix nodes a
          ≡ record a { main_image = first_or a.main_image (images_of prefix nodes) })
        × (on_content_images clock codec prefix nodes a ≡ add_images (images_of prefix nodes) a)
  on_main_image-on_content_images prefix nodes a =
      (main_image_first prefix nodes a, all_images prefix nodes a)
