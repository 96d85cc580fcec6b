-- ===== src/Words/Count.antt =====
-- What `parseAndCount` counts.
use aip_pkussm.Prelude.{
  ℕ, ◌+◌, ◌≡◌, refl, ap, List, [], ◌∷◌, CString, str_eq, str_eq_sound, if◌then◌else◌, arith,
  Bool-cases, inl, inr,
}
use aip_pkussm.Words.{Counts, str_less, count_of, set_count, count_from, parse_and_count}

-- How often a word stands in a list.
unfoldable pub occurrences : CString → List CString → ℕ
occurrences word [] = 0
occurrences word (w ∷ words) = (if str_eq w word then 1 else 0) + occurrences word words

count_of-set_count :
    (counts : Counts) (word other : CString) (n : ℕ)
    → count_of (set_count counts word n) other
      ≡ (if str_eq word other then n else count_of counts other)
unfolding count_of set_count
count_of-set_count [] word other n = refl
count_of-set_count ((key, m) ∷ counts) word other n = elim (Bool-cases (str_eq key word)) [
  | inl e ↦ rw e (rw (str_eq_sound key word e) (ground arith))
  | inr e ↦ elim (Bool-cases (str_eq key other)) [
    | inl f ↦ elim (Bool-cases (str_eq word other)) [
      | inl g ↦ cc (e, f, str_eq_sound word other g)
      | inr g ↦ elim (Bool-cases (str_less word key)) [
        | inl l ↦ ground (arith, e, f, g, l)
        | inr l ↦ ground (arith, e, f, g, l)
      ]
    ]
    | inr f ↦ elim (Bool-cases (str_less word key)) [
      | inl g ↦ ground (arith, e, f, g)
      | inr g ↦ ground (arith, e, f, g, count_of-set_count counts word other n)
    ]
  ]
]

count_from-occurrences :
    (words : List CString) (counts : Counts) (word : CString)
    → count_of (count_from words counts) word ≡ count_of counts word + occurrences word words
unfolding count_from occurrences
count_from-occurrences [] counts word = omega arith
count_from-occurrences (w ∷ words) counts word =
    let step = count_from-occurrences words (set_count counts w (count_of counts w + 1)) word in
    let here = count_of-set_count counts w word (count_of counts w + 1) in
    elim (Bool-cases (str_eq w word)) [
      | inl e ↦
          let same = ap (count_of counts) (str_eq_sound w word e) in
          ground (arith, step, here, same, e)
      | inr e ↦ ground (arith, step, here, e)
    ]

-- `parseAndCount` maps every string to the number of times that it stands in the list of words.
pub parse_and_count-occurrences :
    (words : List CString) (word : CString)
    → count_of (parse_and_count words) word ≡ occurrences word words
unfolding parse_and_count count_of
parse_and_count-occurrences words word = omega (arith, count_from-occurrences words [] word)
