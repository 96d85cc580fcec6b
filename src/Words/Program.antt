-- ===== src/Words/Program.antt =====
-- What the word counter prints.
use aip_pkussm.Prelude.{ℕ, ◌<◌, ◌≡◌, refl, some, List, ◌++◌, CString, length}
use aip_pkussm.Words.{Counts, count_of, parse_and_count, main}
use aip_pkussm.Words.Content.{without_newlines, get_content_str-all}
use aip_pkussm.Words.Separate.{
  AreSeparators, AreLetters, Token, text_of, words_of, get_words-tokens,
}
use aip_pkussm.Words.Count.{occurrences, parse_and_count-occurrences}
use aip_pkussm.Words.Ordered.{IsOrdered, ArePositive, parse_and_count-shape}

-- For a file that can be opened, and that without its newlines is separators, then words that each
-- have at least one separator behind them, then letters, `main` ends and prints a line for each of
-- the words, in strictly ascending order, with the number of times that it stands there, and no
-- other line; fuel for one more line than the file has bytes is enough.
pub main-counts :
    (fuel : ℕ) (file : List ℕ) (gap : CString) (tokens : List Token) (unfinished : CString)
    → length file < fuel
    → without_newlines file ≡ gap ++ (text_of tokens ++ unfinished)
    → AreSeparators gap
    → AreLetters unfinished
    → (lines : Counts) × (main fuel (some file) ≡ some lines)
      × IsOrdered lines
      × ArePositive lines
      × ((word : CString) → count_of lines word ≡ occurrences word (words_of tokens))
unfolding main
main-counts fuel file gap tokens unfinished enough split gaps letters =
    let words = get_words-tokens gap tokens unfinished gaps letters in
    let (ordered, positive) = parse_and_count-shape (words_of tokens) in
    (
      parse_and_count (words_of tokens),
      rw (main, get_content_str-all fuel file enough, split, words) refl,
      ordered,
      positive,
      parse_and_count-occurrences (words_of tokens),
    )
