-- ===== src/Words/Regex.antt =====
-- A1/EngWordsSeparator_regex.cc. The splitting of a text by boost's `sregex_token_iterator` is a
-- parameter; `getContentStr` and `parseAndCount` have the text of A1/EngWordsSeparator.cc.
use aip_pkussm.Prelude.{ℕ, Option, none, some, List, [], ◌∷◌, CString}
use aip_pkussm.Words
use aip_pkussm.Words.{Counts}

abbrev pub get_content_str : ℕ → List ℕ → Option CString
get_content_str fuel file = Words.get_content_str fuel file

abbrev pub get_words : (CString → List CString) → CString → List CString
get_words split content = split content

abbrev pub parse_and_count : List CString → Counts
parse_and_count words = Words.parse_and_count words

pub data Output : Type 0 where
  usage : Output
  lines : Counts → Output

-- `main`, with the arguments behind `argv[0]` and the files that can be opened.
unfoldable pub main :
    (CString → List CString) → (CString → Option (List ℕ)) → ℕ → List CString → Option Output
main split open_file fuel (path ∷ []) = elim (open_file path) [
  | none ↦ none
  | some file ↦ elim (get_content_str fuel file) [
    | none ↦ none
    | some content ↦ some (lines (parse_and_count (get_words split content)))
  ]
]
main split open_file fuel args = some usage
