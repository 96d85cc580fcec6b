-- ===== src/Words/Ordered.antt =====
-- The order of the map's keys.
use aip_pkussm.Prelude.{
  ℕ, ◌+◌, ◌<◌, ◌≡◌, refl, true, false, List, [], ◌∷◌, CString, str_eq, arith, Bool-cases, inl, inr,
}
use aip_pkussm.Words.{str_less, Counts, count_of, set_count, count_from, parse_and_count}

-- A word comes before the first key of a map.
abbrev pub IsBefore : CString → Counts → Type 0
IsBefore word [] = Unit
IsBefore word ((key, n) ∷ counts) = str_less word key ≡ true

-- Each key comes before the next one.
abbrev pub IsOrdered : Counts → Type 0
IsOrdered [] = Unit
IsOrdered ((key, n) ∷ counts) = IsBefore key counts × IsOrdered counts

-- No count is 0.
abbrev pub ArePositive : Counts → Type 0
ArePositive [] = Unit
ArePositive ((key, n) ∷ counts) = (0 < n) × ArePositive counts

pub str_less-total :
    (s t : CString) → str_eq s t ≡ false → str_less t s ≡ false → str_less s t ≡ true
unfolding str_less str_eq
str_less-total [] [] e l = ground arith
str_less-total [] (d ∷ t) e l = refl
str_less-total (c ∷ s) [] e l = ground arith
str_less-total (c ∷ s) (d ∷ t) e l = ground (arith, str_less-total s t)

set_count-IsBefore :
    (counts : Counts) (word later : CString) (n : ℕ)
    → IsBefore word counts
    → str_less word later ≡ true
    → IsBefore word (set_count counts later n)
unfolding set_count
set_count-IsBefore [] word later n b l = l
set_count-IsBefore ((key, m) ∷ counts) word later n b l = elim (Bool-cases (str_eq key later)) [
  | inl e ↦ rw e b
  | inr e ↦ elim (Bool-cases (str_less later key)) [ inl f ↦ rw (e, f) l | inr f ↦ rw (e, f) b ]
]

set_count-IsOrdered :
    (counts : Counts) (word : CString) (n : ℕ)
    → IsOrdered counts
    → IsOrdered (set_count counts word n)
unfolding set_count
set_count-IsOrdered [] word n o = (tt, tt)
set_count-IsOrdered ((key, m) ∷ counts) word n (b, o) = elim (Bool-cases (str_eq key word)) [
  | inl e ↦ rw e (b, o)
  | inr e ↦ elim (Bool-cases (str_less word key)) [
    | inl f ↦ rw (e, f) (f, (b, o))
    | inr f ↦
        rw (e, f)
          (
            set_count-IsBefore counts key word n b (str_less-total key word e f),
            set_count-IsOrdered counts word n o,
          )
  ]
]

set_count-ArePositive :
    (counts : Counts) (word : CString) (n : ℕ)
    → 0 < n
    → ArePositive counts
    → ArePositive (set_count counts word n)
unfolding set_count
set_count-ArePositive [] word n p all = (p, tt)
set_count-ArePositive ((key, m) ∷ counts) word n p (here, all) =
    elim (Bool-cases (str_eq key word)) [
      | inl e ↦ rw e (p, all)
      | inr e ↦ elim (Bool-cases (str_less word key)) [
        | inl f ↦ rw (e, f) (p, (here, all))
        | inr f ↦ rw (e, f) (here, set_count-ArePositive counts word n p all)
      ]
    ]

count_from-shape :
    (words : List CString) (counts : Counts)
    → IsOrdered counts
    → ArePositive counts
    → IsOrdered (count_from words counts) × ArePositive (count_from words counts)
unfolding count_from
count_from-shape [] counts o p = (o, p)
count_from-shape (w ∷ words) counts o p =
    let n = count_of counts w + 1 in
    count_from-shape words (set_count counts w n) (set_count-IsOrdered counts w n o)
      (set_count-ArePositive counts w n (omega arith) p)

-- The map of `parseAndCount` has its keys in strictly ascending order and no count of 0.
pub parse_and_count-shape :
    (words : List CString) → IsOrdered (parse_and_count words) × ArePositive (parse_and_count words)
unfolding parse_and_count
parse_and_count-shape words = count_from-shape words [] tt tt
