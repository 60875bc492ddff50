-- ===== src/Token/OpenTag/RoundTrip.antt =====
-- A tag written with quoted attributes is read back.
use news_tracker.Prelude.{
  ℕ, zero, suc, ◌+◌, ◌≤◌, ◌<◌, true, false, ◌≡◌, refl, sym, ap, ◌∙◌, some, none, [], ◌∷◌, ◌++◌,
  append_assoc, Bytes, length, length-append, ◌==◌, StringMap, put, ok, ◌>>=◌, arith,
}
use news_tracker.Token.Reader.{
  TokenCursorReader, len, new_token_cursor_reader, set_start, set_end, l_bracket, r_bracket, space,
  equals, double_quote,
}
use news_tracker.Token.Reader.Scan.{byte_front, Avoids, scan_until-Avoids, lexeme-append}
use news_tracker.Token.OpenTag.{unmarshal_attr, unmarshal_name, unmarshal, ends_name}
use news_tracker.Token.OpenTag.Pairs.{
  print_pair, print_pairs, ArePairs, put_all, at, behind, pair_quoted, print_pair-append,
  length-print_pair,
}

-- Where the cursor stands in front of `tail`.
pub record InFront (source tail : Bytes) (r : TokenCursorReader) : Type 0 where
  pub pre : Bytes
  pub same_source : r.source ≡ source
  pub splits : source ≡ pre ++ tail
  pub at_end : r.cursor.end ≡ length pre

-- `unmarshalAttr` reads the pairs, one a round, and goes on with what follows them.
pub unmarshal_attr-print_pairs :
    (kvs : StringMap Bytes) (tail : Bytes) (f : ℕ) (r : TokenCursorReader) (attr : StringMap Bytes)
    → InFront r.source (print_pairs kvs tail) r
    → length kvs < f
    → ArePairs kvs
    → (g : ℕ) × (q : TokenCursorReader) × (0 < g)
      × InFront r.source tail q
      × (unmarshal_attr f r attr ≡ unmarshal_attr g q (put_all kvs attr))
unfolding unmarshal_attr
unmarshal_attr-print_pairs kvs tail zero r attr i h p = absurd (omega arith)
unmarshal_attr-print_pairs [] tail (suc f) r attr i h p = (suc f, r, omega arith, i, refl)
unmarshal_attr-print_pairs ((k, v) ∷ kvs) tail (suc f) r attr i h (p, ps) =
    let pre = i.pre in
    let later : Bytes = print_pairs kvs tail in
    let r₁ : TokenCursorReader = set_start r.cursor.end r in
    let r₂ : TokenCursorReader = set_end (r.cursor.end + 1) r₁ in
    let n = length-append pre (print_pair k v []) in
    let m = length-print_pair k v in
    let next : InFront r.source later
        (at (length pre + length k + 3) (behind (length pre) k v) r₂) =
      record {
        pre = pre ++ print_pair k v [];
        same_source = refl;
        splits =
            i.splits
            ∙ ap (λ t. pre ++ t) (print_pair-append k v later)
            ∙ sym (append_assoc pre _ later);
        at_end = omega (arith, i.at_end);
      } in
    let (g, q, pos, front, run) =
      unmarshal_attr-print_pairs kvs tail f _ (put k v attr) next (omega arith) ps in
    (
      g,
      q,
      pos,
      front,
      rw
          (
            byte_front r₁ pre space _ i.splits i.at_end,
            pair_quoted k v later p pre r₂ attr i.splits i.at_end (omega (arith, i.at_end)),
          )
          run,
    )

-- At the closing bracket the loop ends.
unmarshal_attr-r_bracket :
    (rest : Bytes) (g : ℕ) (q : TokenCursorReader) (attr : StringMap Bytes) {source : Bytes}
    → InFront source (r_bracket ∷ rest) q
    → 0 < g
    → unmarshal_attr g q attr ≡ ok attr
unfolding unmarshal_attr
unmarshal_attr-r_bracket rest zero q attr i h = absurd (omega arith)
unmarshal_attr-r_bracket rest (suc g) q attr i h =
    rw (
      byte_front (set_start q.cursor.end q) i.pre r_bracket rest (i.same_source ∙ i.splits)
        i.at_end)

-- `<name k1="v1" …>`, and whatever follows it.
abbrev pub print_tag : Bytes → StringMap Bytes → Bytes → Bytes
print_tag name kvs rest = l_bracket ∷ (name ++ print_pairs kvs (r_bracket ∷ rest))

-- The first byte behind the name ends it.
pub unmarshal_name-print :
    (name : Bytes) (c : ℕ) (rest : Bytes) (r : TokenCursorReader)
    → r.source ≡ (l_bracket ∷ []) ++ (name ++ c ∷ rest)
    → r.cursor.end ≡ 1
    → ends_name c ≡ true
    → Avoids ends_name name
    → unmarshal_name r ≡ ok (name, at 1 (1 + length name) r)
unfolding unmarshal_name
unmarshal_name-print name c rest r s e stop a =
    rw
      (
        scan_until-Avoids ends_name c rest stop name (l_bracket ∷ []) (set_start r.cursor.end r) s e
            a,
        lexeme-append (at r.cursor.end (1 + length name) r) (l_bracket ∷ []) name _ s e refl,
      )
      (ground arith)

length-print_pairs :
    (kvs : StringMap Bytes) (tail : Bytes)
    → length kvs + length tail ≤ length (print_pairs kvs tail)
length-print_pairs [] tail = omega arith
length-print_pairs ((k, v) ∷ kvs) tail =
    let later : Bytes = print_pairs kvs tail in
    omega (
      arith,
      length-print_pairs kvs tail,
      length-append k (equals ∷ double_quote ∷ (v ++ (double_quote ∷ later))),
      length-append v (double_quote ∷ later),
    )

-- The pairs, or what follows them, begin with a byte that ends the name.
abbrev Follows : Bytes → Type 0
Follows [] = ⊥
Follows (c ∷ t) = ends_name c ≡ true

Follows-print_pairs :
    (kvs : StringMap Bytes) (tail : Bytes) → Follows tail → Follows (print_pairs kvs tail)
Follows-print_pairs [] tail h = h
Follows-print_pairs ((k, v) ∷ kvs) tail h = refl

module _ (name : Bytes) (a : Avoids ends_name name) where
  -- `Unmarshal` reads the name, and hands what follows to `unmarshalAttr`.
  unmarshal-name :
      (tail : Bytes)
      → Follows tail
      → (r : TokenCursorReader) × InFront (l_bracket ∷ (name ++ tail)) tail r
        × (unmarshal (l_bracket ∷ (name ++ tail)) ≡ (
            unmarshal_attr (len r + 1) r [] >>= λ attr.
            ok (record { name = name; attr = some attr }, none)))
  unfolding unmarshal
  unmarshal-name [] h = absurd h
  unmarshal-name (c ∷ t) h =
      let r : TokenCursorReader = new_token_cursor_reader (l_bracket ∷ (name ++ c ∷ t)) in
      let n = length-append name (c ∷ t) in
      let r₂ : TokenCursorReader = at 1 (1 + length name) r in
      let open_end : ((1 + length name) == len r) ≡ false = ground arith in
      (
        r₂,
        record { pre = l_bracket ∷ name; same_source = refl; splits = refl; at_end = omega arith },
        rw (
          byte_front r [] l_bracket (name ++ c ∷ t) refl refl,
          unmarshal_name-print name c t (set_end 1 r) refl refl h a,
          open_end,
        ),
      )

  -- With pairs behind the name: `unmarshalAttr` goes on behind them.
  pub unmarshal-print_pairs :
      (kvs : StringMap Bytes) (tail : Bytes)
      → Follows tail
      → ArePairs kvs
      → (g : ℕ) × (q : TokenCursorReader) × (0 < g)
        × InFront (l_bracket ∷ (name ++ print_pairs kvs tail)) tail q
        × (unmarshal (l_bracket ∷ (name ++ print_pairs kvs tail)) ≡ (
            unmarshal_attr g q (put_all kvs []) >>= λ attr.
            ok (record { name = name; attr = some attr }, none)))
  unmarshal-print_pairs kvs tail h ps =
      let (r, front, run) =
        unmarshal-name (print_pairs kvs tail) (Follows-print_pairs kvs tail h) in
      let here : InFront r.source (print_pairs kvs tail) r = rw front.same_source front in
      let n = ap length front.same_source in
      let m = length-append name (print_pairs kvs tail) in
      let (g, q, pos, front', run') =
        unmarshal_attr-print_pairs kvs tail (len r + 1) r [] here
          (omega (arith, length-print_pairs kvs tail)) ps in
      (g, q, pos, rw front.same_source at front', run ∙ rw run')

  -- A tag with double-quoted attributes is read back, with its name and its attributes, and nothing
  -- behind the tag is read, where no byte of the name ends one, no key or value is empty or has a pair
  -- of spaces, a tab, a newline or a carriage return in it, no byte of a key ends one, and no value
  -- has a double quote in it. Of two pairs with one key the later one counts.
  pub unmarshal-print_tag :
      (kvs : StringMap Bytes) (rest : Bytes)
      → ArePairs kvs
      → unmarshal (print_tag name kvs rest)
        ≡ ok (record { name = name; attr = some (put_all kvs []) }, none)
  unmarshal-print_tag kvs rest ps =
      let (g, q, pos, front, run) = unmarshal-print_pairs kvs (r_bracket ∷ rest) refl ps in
      run ∙ rw (unmarshal_attr-r_bracket rest g q (put_all kvs []) front pos)
