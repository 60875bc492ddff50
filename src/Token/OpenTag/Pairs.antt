-- ===== src/Token/OpenTag/Pairs.antt =====
-- One attribute written as ` key="value"`, and how the reader passes over it.
use news_tracker.Prelude.{
  ℕ, suc, ◌+◌, Bool, false, ◌≡◌, ◌≢◌, refl, sym, ◌∙◌, [], ◌∷◌, ◌++◌, append_assoc, Bytes, length,
  length-append, ◌==◌, eq_bytes, StringMap, put, ok, arith,
}
use news_tracker.Token.Reader.{
  TokenCursorReader, len, set_start, set_end, space, equals, double_quote,
}
use news_tracker.Token.Reader.Scan.{byte_front, Avoids, scan_until-Avoids, lexeme-append}
use news_tracker.Token.Utils.{IsClean, remove_new_line-IsClean}
use news_tracker.Token.OpenTag.{unmarshal_attr_key, unmarshal_attr_value, unmarshal_pair, ends_key}

abbrev pub is_double_quote : ℕ → Bool
is_double_quote c = c == double_quote

-- ` key="value"` in front of `rest`.
abbrev pub print_pair : Bytes → Bytes → Bytes → Bytes
print_pair k v rest = space ∷ (k ++ (equals ∷ double_quote ∷ (v ++ (double_quote ∷ rest))))

-- A key and a value that the syntax can carry.
pub record IsPair (k v : Bytes) : Type 0 where
  pub key_ne_nil : k ≢ []
  pub key_avoids : Avoids ends_key k
  pub key_clean : IsClean k
  pub value_ne_nil : v ≢ []
  pub value_avoids : Avoids is_double_quote v
  pub value_clean : IsClean v

abbrev pub at : ℕ → ℕ → TokenCursorReader → TokenCursorReader
at lo hi r = record r { cursor = record { start = lo; end = hi } }

module _ (v rest : Bytes) (a : Avoids is_double_quote v) where
  value_quoted :
      (f : ℕ) (pre : Bytes) (r : TokenCursorReader)
      → r.source ≡ pre ++ (equals ∷ double_quote ∷ (v ++ (double_quote ∷ rest)))
      → r.cursor.end ≡ length pre
      → unmarshal_attr_value (suc f) r ≡ ok (at (length pre + 2) (length pre + 2 + length v) r)
  unfolding unmarshal_attr_value
  value_quoted f pre r s e =
      let n₁ = length-append pre (equals ∷ []) in
      let r₁ : TokenCursorReader = set_end (r.cursor.end + 1) r in
      let s₁ : r₁.source ≡ (pre ++ equals ∷ []) ++ (double_quote ∷ (v ++ (double_quote ∷ rest))) =
        s ∙ sym (append_assoc pre (equals ∷ []) _) in
      let pre₂ : Bytes = (pre ++ equals ∷ []) ++ double_quote ∷ [] in
      let n₂ = length-append (pre ++ equals ∷ []) (double_quote ∷ []) in
      let r₂ : TokenCursorReader = at (r₁.cursor.end + 1) (r₁.cursor.end + 1) r in
      let s₂ : r₂.source ≡ pre₂ ++ (v ++ (double_quote ∷ rest)) =
        s₁ ∙ sym (append_assoc (pre ++ equals ∷ []) (double_quote ∷ []) _) in
      rw
        (
          byte_front r pre equals _ s e,
          byte_front r₁ (pre ++ equals ∷ []) double_quote _ s₁ (omega arith),
        )
        (scan_until-Avoids is_double_quote double_quote rest refl v pre₂ r₂ s₂ (omega arith) a
          ∙ ground arith)

-- The cursor behind the pair that begins at `n`.
abbrev pub behind : ℕ → Bytes → Bytes → ℕ
behind n k v = n + length k + length v + 4

eq_bytes-nil : (k : Bytes) → k ≢ [] → eq_bytes k [] ≡ false
unfolding eq_bytes
eq_bytes-nil [] h = absurd (h refl)
eq_bytes-nil (c ∷ k) h = refl

module _ (k v rest : Bytes) (p : IsPair k v) where
  pub pair_quoted :
      (pre : Bytes) (r : TokenCursorReader) (attr : StringMap Bytes)
      → r.source ≡ pre ++ print_pair k v rest
      → r.cursor.start ≡ length pre
      → r.cursor.end ≡ length pre + 1
      → unmarshal_pair space r attr
        ≡ ok (at (length pre + length k + 3) (behind (length pre) k v) r, put k v attr)
  unfolding unmarshal_pair unmarshal_attr_key
  pair_quoted pre r attr s b e =
      let pre₁ : Bytes = pre ++ space ∷ [] in
      let n₁ = length-append pre (space ∷ []) in
      let later : Bytes = equals ∷ double_quote ∷ (v ++ (double_quote ∷ rest)) in
      let r₁ : TokenCursorReader = set_start (r.cursor.start + 1) r in
      let s₁ : r.source ≡ pre₁ ++ (k ++ later) = s ∙ sym (append_assoc pre (space ∷ []) _) in
      let r₂ : TokenCursorReader = set_end (length pre₁ + length k) r₁ in
      let key = scan_until-Avoids ends_key equals _ refl k pre₁ r₁ s₁ (omega arith) p.key_avoids in
      let t₂ : r₂.source ≡ (pre₁ ++ k) ++ later = s₁ ∙ sym (append_assoc pre₁ k later) in
      let n₂ = length-append pre₁ k in
      let r₃ : TokenCursorReader = set_start r₂.cursor.end r₂ in
      let pre₃ : Bytes = (pre₁ ++ k) ++ equals ∷ double_quote ∷ [] in
      let n₃ = length-append (pre₁ ++ k) (equals ∷ double_quote ∷ []) in
      let value = value_quoted v rest p.value_avoids (len r) (pre₁ ++ k) r₃ t₂ (omega arith) in
      let r₄ : TokenCursorReader =
        at (length (pre₁ ++ k) + 2) (length (pre₁ ++ k) + 2 + length v) r₃ in
      let s₄ : r₄.source ≡ pre₃ ++ (v ++ (double_quote ∷ rest)) =
        t₂ ∙ sym (append_assoc (pre₁ ++ k) (equals ∷ double_quote ∷ []) _) in
      let n₄ = length-append pre₃ v in
      let add_one : len r₂ + 1 ≡ suc (len r) = omega arith in
      rw
        (
          key,
          lexeme-append r₂ pre₁ k later s₁ (omega arith) refl,
          add_one,
          value,
          lexeme-append r₄ pre₃ v _ s₄ (omega arith) (omega arith),
          byte_front r₄ (pre₃ ++ v) double_quote rest (s₄ ∙ sym (append_assoc pre₃ v _))
              (omega arith),
          remove_new_line-IsClean k p.key_clean,
          remove_new_line-IsClean v p.value_clean,
          eq_bytes-nil k p.key_ne_nil,
          eq_bytes-nil v p.value_ne_nil,
        )
        (ground arith)

-- ` k1="v1" k2="v2" …` in front of `rest`.
abbrev pub print_pairs : StringMap Bytes → Bytes → Bytes
print_pairs [] rest = rest
print_pairs ((k, v) ∷ kvs) rest = print_pair k v (print_pairs kvs rest)

abbrev pub ArePairs : StringMap Bytes → Type 0
ArePairs [] = Unit {0}
ArePairs ((k, v) ∷ kvs) = IsPair k v × ArePairs kvs

-- The pairs put into a map, a later one over an earlier one with its key.
abbrev pub put_all : StringMap Bytes → StringMap Bytes → StringMap Bytes
put_all [] m = m
put_all ((k, v) ∷ kvs) m = put_all kvs (put k v m)

pub print_pair-append : (k v rest : Bytes) → print_pair k v rest ≡ print_pair k v [] ++ rest
print_pair-append k v rest = simp append_assoc

pub length-print_pair : (k v : Bytes) → length (print_pair k v []) ≡ length k + length v + 4
length-print_pair k v = omega (
  arith,
  length-append k (equals ∷ double_quote ∷ (v ++ (double_quote ∷ []))),
  length-append v (double_quote ∷ []),
)
