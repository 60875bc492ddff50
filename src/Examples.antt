-- ===== src/Examples.antt =====
-- Tests, and each property at a concrete input.
mod Selector
mod Handlers
mod Reading
mod Dates
mod Consumer
mod Pagination
mod Tokenizer
mod Extract
mod Listing
mod BatchExec
use news_tracker.Prelude.{
  ℕ, zero, suc, ◌+◌, ◌-◌, ◌*◌, ◌%◌, ◌^◌, ◌≤◌, ◌<◌, String, Bool, true, false, not, ◌&&◌, ◌||◌, ◌≡◌,
  ◌≢◌, ◌↔◌, ◌⊎◌, refl, sym, ap, ◌∙◌, fun_ext, inl, inr, Option, some, none, List, [], ◌∷◌, ◌++◌,
  map, append_assoc, append-nil, Bytes, codes, length, length-append, get_elem?, get_elem?-append,
  get_elem?-some, get_elem?-none, take, drop, drop-length, take-length, ltb, leb, ◌==◌, ==_iff,
  ltb→lt, leb→le, eq_bytes, eq_bytes_iff, eq_bytes_refl, has_prefix, contains, replace_all,
  replace_from, StringMap, find, put, remove, find-put, find-remove, if◌then◌else◌, Bool-cases,
  Option-cases, Outcome, ok, panic, timeout, ◌>>=◌, Ends, Ends-bind, Ends-if, Ends-weaken,
  Ends-ne-timeout, Returns, Returns-bind, arith,
}
use news_tracker.Token.OpenTag.{OpenTag, ends_name}
use news_tracker.Token.OpenTag
use news_tracker.Token.CloseTag.{CloseTag}
use news_tracker.Token.CloseTag
use news_tracker.Token.OpenTag.Pairs.{print_pairs, IsPair}
use news_tracker.Token.OpenTag.RoundTrip.{print_tag, unmarshal-print_tag}
use news_tracker.Token.OpenTag.Total.{unmarshal_open-ne-timeout}
use news_tracker.Token.OpenTag.Cut.{unmarshal_open_quote, unmarshal-cut_name}
use news_tracker.Token.CloseTag.Reads.{unmarshal-close, unmarshal_close-ne-timeout}
use news_tracker.Token.Utils.{
  IsClean, remove_new_line, squeeze, keep, is_visible, remove_new_line-squeeze,
}

abbrev clean_text : Bytes
clean_text = codes "News item"

clean_text-IsClean : IsClean clean_text
unfolding contains
clean_text-IsClean = record {
  no_spaces = refl;
  no_tab = refl;
  no_new_line = refl;
  no_c_return = refl;
}

class-IsClean : IsClean (codes "class")
unfolding contains
class-IsClean = record { no_spaces = refl; no_tab = refl; no_new_line = refl; no_c_return = refl }

class-IsPair : IsPair (codes "class") clean_text
class-IsPair = record {
  key_ne_nil = λ e. cc;
  key_avoids = ground arith;
  key_clean = class-IsClean;
  value_ne_nil = λ e. cc;
  value_avoids = ground arith;
  value_clean = clean_text-IsClean;
}

remove_new_line-squeeze_example :
    remove_new_line (codes "a   b") ≡ keep is_visible (squeeze (codes "a   b"))
remove_new_line-squeeze_example = remove_new_line-squeeze (codes "a   b")

unmarshal-print_tag_example :
    OpenTag.unmarshal (print_tag (codes "li") ((codes "class", clean_text) ∷ []) (codes "tail"))
    ≡ ok (record { name = codes "li"; attr = some ((codes "class", clean_text) ∷ []) }, none)
unfolding put
unmarshal-print_tag_example =
    unmarshal-print_tag (codes "li") (ground arith) ((codes "class", clean_text) ∷ [])
      (codes "tail") (class-IsPair, tt)

unmarshal_open-ne-timeout_example : OpenTag.unmarshal (codes "<a x") ≢ timeout
unmarshal_open-ne-timeout_example = unmarshal_open-ne-timeout (codes "<a x")

unmarshal_close-ne-timeout_example : CloseTag.unmarshal (codes "</a") ≢ timeout
unmarshal_close-ne-timeout_example = unmarshal_close-ne-timeout (codes "</a")

-- `<li class="News item" title="a>`, cut at the first `>`.
unmarshal_open_quote_example :
    OpenTag.unmarshal (codes "<li class=\"News item\" title=\"a>") ≡ panic
unmarshal_open_quote_example =
    unmarshal_open_quote (codes "li") ((codes "class", clean_text) ∷ []) (codes "title")
      (codes "a>") (ground arith) (class-IsPair, tt) (ground arith) (ground arith)

unmarshal-close_example :
    CloseTag.unmarshal (codes "</li >x") ≡ ok (record { name = codes "li " }, none)
unmarshal-close_example = unmarshal-close (codes "li ") (codes "x") (ground arith)
