-- ===== src/Token/OpenTag/Cut.antt =====
-- What `Unmarshal` does with a tag that is cut short: a read past its end, which is a run-time panic.
use news_tracker.Prelude.{
  ℕ, zero, suc, ◌+◌, ◌<◌, Bool, ◌≡◌, refl, sym, ◌∙◌, [], ◌∷◌, ◌++◌, append_assoc, append-nil, Bytes,
  length, length-append, StringMap, panic, arith,
}
use news_tracker.Token.Reader.{
  TokenCursorReader, len, new_token_cursor_reader, set_start, set_end, scan, scan_until, l_bracket,
  space, equals, double_quote,
}
use news_tracker.Token.Reader.Scan.{byte_end, byte_front, Avoids, scan_until-Avoids, lexeme-append}
use news_tracker.Token.OpenTag.{
  unmarshal_attr_key, unmarshal_attr_value, unmarshal_pair, unmarshal_attr, unmarshal_name,
  unmarshal, ends_key, ends_name,
}
use news_tracker.Token.OpenTag.Pairs.{is_double_quote, at, print_pairs, ArePairs, put_all}
use news_tracker.Token.OpenTag.RoundTrip.{InFront, unmarshal-print_pairs}

module _ (stops : ℕ → Bool) where
  -- With no delimiter up to the end, the scan reads past it.
  scan-panic :
      (body pre : Bytes) (f : ℕ) (r : TokenCursorReader)
      → r.source ≡ pre ++ body
      → r.cursor.end ≡ length pre
      → length body < f
      → Avoids stops body
      → scan f stops r ≡ panic
  unfolding scan
  scan-panic body pre zero r s e h a = absurd (omega arith)
  scan-panic [] pre (suc f) r s e h a = rw (byte_end r (s ∙ append-nil pre) e)
  scan-panic (c ∷ body) pre (suc f) r s e h a =
      let s' : r.source ≡ (pre ++ c ∷ []) ++ body = s ∙ sym (append_assoc pre (c ∷ []) body) in
      ground (
        arith,
        byte_front r pre c _ s e,
        length-append pre (c ∷ []),
        scan-panic body (pre ++ c ∷ []) f (set_end (r.cursor.end + 1) r) s',
      )

  scan_until-panic :
      (body pre : Bytes) (r : TokenCursorReader)
      → r.source ≡ pre ++ body
      → r.cursor.end ≡ length pre
      → Avoids stops body
      → scan_until stops r ≡ panic
  unfolding scan_until
  scan_until-panic body pre r s e a =
      scan-panic body pre _ r s e (rw s (omega (arith, length-append pre body))) a

-- A name that no delimiter ends: what the tokenizer hands over when the input ends inside a tag.
pub unmarshal-cut_name :
    (name : Bytes) → Avoids ends_name name → unmarshal (l_bracket ∷ name) ≡ panic
unfolding unmarshal unmarshal_name
unmarshal-cut_name name a =
    let r : TokenCursorReader = new_token_cursor_reader (l_bracket ∷ name) in
    rw (
      byte_front r [] l_bracket name refl refl,
      scan_until-panic ends_name name (l_bracket ∷ []) (at 1 1 r) refl refl a,
    )

value_open :
    (v pre : Bytes) (f : ℕ) (r : TokenCursorReader)
    → Avoids is_double_quote v
    → r.source ≡ pre ++ (equals ∷ double_quote ∷ v)
    → r.cursor.end ≡ length pre
    → unmarshal_attr_value (suc f) r ≡ panic
unfolding unmarshal_attr_value
value_open v pre f r a s e =
    let n₁ = length-append pre (equals ∷ []) in
    let r₁ : TokenCursorReader = set_end (r.cursor.end + 1) r in
    let s₁ : r₁.source ≡ (pre ++ equals ∷ []) ++ (double_quote ∷ v) =
      s ∙ sym (append_assoc pre (equals ∷ []) _) in
    let pre₂ : Bytes = (pre ++ equals ∷ []) ++ double_quote ∷ [] in
    let n₂ = length-append (pre ++ equals ∷ []) (double_quote ∷ []) in
    let r₂ : TokenCursorReader = at (r₁.cursor.end + 1) (r₁.cursor.end + 1) r in
    let s₂ : r₂.source ≡ pre₂ ++ v =
      s₁ ∙ sym (append_assoc (pre ++ equals ∷ []) (double_quote ∷ []) _) in
    rw
      (
        byte_front r pre equals _ s e,
        byte_front r₁ (pre ++ equals ∷ []) double_quote _ s₁ (omega arith),
      )
      (scan_until-panic is_double_quote v pre₂ r₂ s₂ (omega arith) a)

-- The attribute `key="v` whose value is not closed within the tag.
attr_open :
    (k v : Bytes) (g : ℕ) (q : TokenCursorReader) (attr : StringMap Bytes) {source : Bytes}
    → Avoids ends_key k
    → Avoids is_double_quote v
    → InFront source (space ∷ (k ++ (equals ∷ double_quote ∷ v))) q
    → 0 < g
    → unmarshal_attr g q attr ≡ panic
unfolding unmarshal_attr unmarshal_pair unmarshal_attr_key
attr_open k v zero q attr ak av i h = absurd (omega arith)
attr_open k v (suc g) q attr ak av i h =
    let pre : Bytes = i.pre in
    let s = i.same_source ∙ i.splits in
    let q₁ : TokenCursorReader = set_start q.cursor.end q in
    let pre₁ : Bytes = pre ++ space ∷ [] in
    let n₁ = length-append pre (space ∷ []) in
    let later : Bytes = equals ∷ double_quote ∷ v in
    let r₁ : TokenCursorReader = at (q.cursor.end + 1) (q.cursor.end + 1) q in
    let s₁ : q.source ≡ pre₁ ++ (k ++ later) = s ∙ sym (append_assoc pre (space ∷ []) _) in
    let r₂ : TokenCursorReader = set_end (length pre₁ + length k) r₁ in
    let t₂ : r₂.source ≡ (pre₁ ++ k) ++ later = s₁ ∙ sym (append_assoc pre₁ k later) in
    let n₂ = length-append pre₁ k in
    let add_one : len r₂ + 1 ≡ suc (len r₂) = omega arith in
    rw (
      byte_front q₁ pre space _ s i.at_end,
      scan_until-Avoids ends_key equals _ refl k pre₁ r₁ s₁ (omega (arith, i.at_end)) ak,
      lexeme-append r₂ pre₁ k later s₁ (omega (arith, i.at_end)) refl,
      add_one,
      value_open v (pre₁ ++ k) (len r₂) (set_start r₂.cursor.end r₂) av t₂ (omega arith),
    )

-- A tag of a name without a byte that ends one, of pairs with double quotes as a tag that is read back
-- has them, and of a key without a byte that ends one in front of `="` and bytes without a `"`, where it
-- ends: `Unmarshal` panics.
pub unmarshal_open_quote :
    (name : Bytes) (kvs : StringMap Bytes) (k v : Bytes)
    → Avoids ends_name name
    → ArePairs kvs
    → Avoids ends_key k
    → Avoids is_double_quote v
    → unmarshal (l_bracket ∷ (name ++ print_pairs kvs (space ∷ (k ++ (equals ∷ double_quote ∷ v)))))
      ≡ panic
unmarshal_open_quote name kvs k v a ps ak av =
    let (g, q, pos, front, run) = unmarshal-print_pairs name a kvs _ refl ps in
    run ∙ rw (attr_open k v g q (put_all kvs []) ak av front pos)
