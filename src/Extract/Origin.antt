-- ===== src/Extract/Origin.antt =====
-- The host of a feed's url.
use news_tracker.Prelude.{
  ℕ, Bool, true, false, ◌&&◌, ◌≡◌, refl, ap, ◌∙◌, inl, inr, List, [], ◌∷◌, ◌++◌, Bytes, ◌==◌,
  Bool-cases, ok, panic,
}
use news_tracker.Token.Reader.{slash}
use news_tracker.Token.Reader.Scan.{Avoids}
use news_tracker.Dates.Strings.{split, onto_first}
use news_tracker.Extract.{split_after, origin_of}

abbrev pub is_slash : ℕ → Bool
is_slash c = c == slash

abbrev HasFirst : List Bytes → Type 0
HasFirst parts = (part : Bytes) × (rest : List Bytes) × (parts ≡ part ∷ rest)

onto_first-HasFirst : (b : ℕ) (parts : List Bytes) → HasFirst (onto_first b parts)
onto_first-HasFirst b [] = (b ∷ [], [], refl)
onto_first-HasFirst b (w ∷ ws) = (b ∷ w, ws, refl)

split_after-HasFirst : (s : Bytes) → HasFirst (split_after s)
unfolding split_after
split_after-HasFirst [] = ([], [], refl)
split_after-HasFirst (b ∷ []) = (b ∷ [], [], refl)
split_after-HasFirst (b ∷ c ∷ s) = by_test (b == slash && c == slash)
  where
    by_test :
        (x : Bool)
        → HasFirst (elim x [
          | true ↦ (slash ∷ slash ∷ []) ∷ split_after s
          | false ↦ onto_first b (split_after (c ∷ s))
        ])
    by_test true = (slash ∷ slash ∷ [], split_after s, refl)
    by_test false = onto_first-HasFirst b (split_after (c ∷ s))

split_after_cut :
    (b c : ℕ) (s : Bytes)
    → (b == slash && c == slash) ≡ true
    → split_after (b ∷ c ∷ s) ≡ (slash ∷ slash ∷ []) ∷ split_after s
unfolding split_after
split_after_cut b c s h =
    ap
      (λ (x : Bool). elim x [
        | true ↦ (slash ∷ slash ∷ []) ∷ split_after s
        | false ↦ onto_first b (split_after (c ∷ s))
      ])
      h

split_after_more :
    (b c : ℕ) (s : Bytes)
    → (b == slash && c == slash) ≡ false
    → split_after (b ∷ c ∷ s) ≡ onto_first b (split_after (c ∷ s))
unfolding split_after
split_after_more b c s h =
    ap
      (λ (x : Bool). elim x [
        | true ↦ (slash ∷ slash ∷ []) ∷ split_after s
        | false ↦ onto_first b (split_after (c ∷ s))
      ])
      h

no_cut : (b c : ℕ) → is_slash b ≡ false → (b == slash && c == slash) ≡ false
no_cut b c n = rw n refl

-- The first part reaches beyond a slash.
split_after-slash :
    (path : Bytes)
    → (q : Bytes) × (rest : List Bytes) × (split_after (slash ∷ path) ≡ (slash ∷ q) ∷ rest)
unfolding split_after
split_after-slash [] = ([], [], refl)
split_after-slash (c ∷ s) = elim (Bool-cases (c == slash)) [
  | inl y ↦ (slash ∷ [], split_after s, split_after_cut slash c s y)
  | inr n ↦
      let (p, rest, e) = split_after-HasFirst (c ∷ s) in
      (p, rest, split_after_more slash c s n ∙ ap (onto_first slash) e)
]

split_after-host :
    (host path : Bytes)
    → Avoids is_slash host
    → (q : Bytes) × (rest : List Bytes) × (split_after (host ++ slash ∷ path)
        ≡ (host ++ slash ∷ q) ∷ rest)
unfolding split_after
split_after-host [] path a = split_after-slash path
split_after-host (b ∷ []) path (n, a) =
    let (q, rest, e) = split_after-slash path in
    (q, rest, split_after_more b slash path (no_cut b slash n) ∙ ap (onto_first b) e)
split_after-host (b ∷ c ∷ host) path (n, a) =
    let (q, rest, e) = split_after-host (c ∷ host) path a in
    (q, rest, split_after_more b c (host ++ slash ∷ path) (no_cut b c n) ∙ ap (onto_first b) e)

split_after-scheme :
    (scheme s : Bytes)
    → Avoids is_slash scheme
    → split_after (scheme ++ slash ∷ slash ∷ s) ≡ (scheme ++ slash ∷ slash ∷ []) ∷ split_after s
unfolding split_after
split_after-scheme [] s a = split_after_cut slash slash s refl
split_after-scheme (b ∷ []) s (n, a) =
    split_after_more b slash (slash ∷ s) (no_cut b slash n)
    ∙ ap (onto_first b) (split_after_cut slash slash s refl)
split_after-scheme (b ∷ c ∷ scheme) s (n, a) =
    split_after_more b c (scheme ++ slash ∷ slash ∷ s) (no_cut b c n)
    ∙ ap (onto_first b) (split_after-scheme (c ∷ scheme) s a)

split_after-none : (url : Bytes) → Avoids is_slash url → split_after url ≡ url ∷ []
unfolding split_after
split_after-none [] a = refl
split_after-none (b ∷ []) a = refl
split_after-none (b ∷ c ∷ s) (n, a) =
    split_after_more b c s (no_cut b c n) ∙ ap (onto_first b) (split_after-none (c ∷ s) a)

split-host :
    (host q : Bytes)
    → Avoids is_slash host
    → (rest : List Bytes) × (split (host ++ slash ∷ q) slash ≡ host ∷ rest)
unfolding split
split-host [] q a = (split q slash, refl)
split-host (b ∷ host) q (n, a) = let (rest, e) = split-host host q a in (rest, rw (n, e) refl)

-- The origin of `scheme//host/path`, with no slash in the scheme and in the host, is the host,
-- whatever the path is; and of a url without a slash it is a panic.
pub origin_of-host :
    (scheme host path url : Bytes)
    → Avoids is_slash scheme
    → Avoids is_slash host
    → Avoids is_slash url
    → (origin_of (scheme ++ slash ∷ slash ∷ (host ++ slash ∷ path)) ≡ ok host)
      × (origin_of url ≡ panic)
unfolding origin_of
origin_of-host scheme host path url a b c =
    let (q, rest, e) = split_after-host host path b in
    let (rest', e') = split-host host q b in
    (
      rw (split_after-scheme scheme (host ++ slash ∷ path) a, e, e') refl,
      rw (split_after-none url c) refl,
    )
