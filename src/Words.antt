-- ===== src/Words.antt =====
-- The word counter of A1/EngWordsSeparator.cc.
pub mod Content
pub mod Separate
pub mod Count
pub mod Ordered
pub mod Bag
pub mod Program
pub mod Regex
mod Tests
use aip_pkussm.Prelude.{
  ℕ, zero, suc, ◌+◌, Bool, true, false, Option, none, some, List, [], ◌∷◌, ◌++◌, ◌==◌, CString,
  str_eq, ltb, if◌then◌else◌,
}

abbrev pub newline : ℕ
newline = 10

-- `getline`: the line, what is left behind it, and whether the end of the file was met.
unfoldable pub getline : List ℕ → CString × List ℕ × Bool
getline [] = ([], [], true)
getline (c ∷ file) =
    let (line, rest, eof) = getline file in
    elim (c == newline) [ true ↦ ([], file, false) | false ↦ (c ∷ line, rest, eof) ]

-- The loop of `getContentStr` for at most `fuel` lines. The test comes after the first line: no
-- file is at its end before that.
unfoldable pub append_lines : ℕ → List ℕ → CString → Option CString
append_lines zero file content = none
append_lines (suc fuel) file content =
    let (line, rest, eof) = getline file in
    elim eof [ true ↦ some (content ++ line) | false ↦ append_lines fuel rest (content ++ line) ]

unfoldable pub get_content_str : ℕ → List ℕ → Option CString
get_content_str fuel file = append_lines fuel file []

-- The characters of the `switch` in `getWords`.
abbrev pub separators : List ℕ
separators =
    32 ∷ 9 ∷ 13 ∷ 10 ∷ 34 ∷ 39 ∷ 46 ∷ 44 ∷ 60 ∷ 62 ∷ 92 ∷ 47 ∷ 33 ∷ 64 ∷ 35 ∷ 36 ∷ 37 ∷ 94 ∷ 38 ∷ 42
    ∷ 40 ∷ 41 ∷ 95 ∷ 61 ∷ 43 ∷ 63 ∷ 91 ∷ 93 ∷ 123 ∷ 125 ∷ 126 ∷ 96 ∷ []

unfoldable pub contains : List ℕ → ℕ → Bool
contains [] c = false
contains (d ∷ cs) c = if d == c then true else contains cs c

unfoldable pub is_separator : ℕ → Bool
is_separator c = contains separators c

-- The loop of `getWords` over the rest of `content`, with its variables `is_new_word` and
-- `a_word`.
unfoldable pub words_from : Bool → CString → CString → List CString
words_from is_new_word a_word [] = []
words_from is_new_word a_word (c ∷ content) = elim (is_separator c) [
  | true ↦ elim is_new_word [
    | true ↦ a_word ∷ words_from false [] content
    | false ↦ words_from false a_word content
  ]
  | false ↦ words_from true (a_word ++ (c ∷ [])) content
]

unfoldable pub get_words : CString → List CString
get_words content = words_from false [] content

-- `<` of `std::string`.
unfoldable pub str_less : CString → CString → Bool
str_less s [] = false
str_less [] (d ∷ t) = true
str_less (c ∷ s) (d ∷ t) =
    let later = str_less s t in if ltb c d then true else if c == d then later else false

-- `map<string, int>`, in the order of its keys. The counts are below 2 ^ 31 for as many words.
abbrev pub Counts : Type 0
Counts = List (CString × ℕ)

-- `wordsCount[curr_word]`, which is 0 for a new key.
unfoldable pub count_of : Counts → CString → ℕ
count_of [] word = 0
count_of ((key, n) ∷ counts) word = if str_eq key word then n else count_of counts word

-- `wordsCount[curr_word] = n`
unfoldable pub set_count : Counts → CString → ℕ → Counts
set_count [] word n = (word, n) ∷ []
set_count ((key, m) ∷ counts) word n =
    let later = set_count counts word n in
    if str_eq key word
    then (key, n) ∷ counts
    else if str_less word key
    then (word, n) ∷ (key, m) ∷ counts
    else (key, m) ∷ later

unfoldable pub count_from : List CString → Counts → Counts
count_from [] counts = counts
count_from (word ∷ words) counts =
    count_from words (set_count counts word (count_of counts word + 1))

unfoldable pub parse_and_count : List CString → Counts
parse_and_count words = count_from words []

-- `main`: the entries of the map in the order in which they are printed, a line for each. `file` is
-- what test/testFile1 holds, if it can be opened; if not, the loop of `getContentStr` never ends.
unfoldable pub main : ℕ → Option (List ℕ) → Option Counts
main fuel file = elim file [
  | none ↦ none
  | some bytes ↦ elim (get_content_str fuel bytes) [
    | none ↦ none
    | some content ↦ some (parse_and_count (get_words content))
  ]
]
