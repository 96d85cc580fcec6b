-- ===== src/Words/Tests.antt =====
-- The theorems about the word counter at concrete inputs.
use aip_pkussm.Words.Bag.{bag_of, parse_and_count-bag}
use aip_pkussm.Prelude.{◌↔◌, ℕ, CString, ◌≡◌, refl, some, List, [], ◌∷◌, codes, arith}
use aip_pkussm.Words.{
  parse_and_count, get_content_str, Counts, count_of, main, is_separator, contains,
}
use aip_pkussm.Words.Content.{without_newlines, get_content_str-all}
use aip_pkussm.Words.Separate.{Token}
use aip_pkussm.Words.Count.{occurrences}
use aip_pkussm.Words.Ordered.{IsOrdered, ArePositive}
use aip_pkussm.Words.Program.{main-counts}

get_content_str-all_example :
    get_content_str 6 (codes "ab\ncd") ≡ some (without_newlines (codes "ab\ncd"))
get_content_str-all_example = get_content_str-all 6 (codes "ab\ncd") (omega arith)

abbrev tokens : List Token
unfolding is_separator contains
tokens =
    record {
      word = codes "to";
      gap = codes ", ";
      is_word = (tt, (refl, (refl, tt)));
      is_gap = (tt, (refl, (refl, tt)));
    }
    ∷ record {
      word = codes "be";
      gap = codes ".";
      is_word = (tt, (refl, (refl, tt)));
      is_gap = (tt, (refl, tt));
    }
    ∷ []

abbrev to_be : List ℕ
to_be = codes " to, be.\nor"

main-counts_example :
    (lines : Counts) × (main 12 (some to_be) ≡ some lines)
    × IsOrdered lines
    × ArePositive lines
    × ((word : CString) → count_of lines word ≡ occurrences word (codes "to" ∷ codes "be" ∷ []))
unfolding is_separator contains without_newlines
main-counts_example =
    main-counts 12 to_be (codes " ") tokens (codes "or") (omega arith) refl (refl, tt)
      (refl, (refl, tt))

parse_and_count-bag_example :
    (parse_and_count (codes "be" ∷ codes "or" ∷ codes "be" ∷ [])
      ≡ parse_and_count (codes "or" ∷ codes "be" ∷ codes "be" ∷ []))
    ↔ (bag_of (codes "be" ∷ codes "or" ∷ codes "be" ∷ [])
        ≡ bag_of (codes "or" ∷ codes "be" ∷ codes "be" ∷ []))
parse_and_count-bag_example =
    parse_and_count-bag (codes "be" ∷ codes "or" ∷ codes "be" ∷ [])
      (codes "or" ∷ codes "be" ∷ codes "be" ∷ [])
