-- ===== src/Words/Bag.antt =====
-- The map of A1/EngWordsSeparator.cc's `parseAndCount` as a bag of words: the order in which the words
-- come is forgotten, and nothing else.
use mathlib.Core.Path.{subst}
use mathlib.Core.Quot
use mathlib.Core.Quot.{Quot, Quot-set}
use aip_pkussm.Prelude.{
  ℕ, ◌≡◌, refl, sym, ◌∙◌, ap, true, false, List, [], ◌∷◌, CString, str_eq, str_eq_sound,
  str_eq_refl, ◌↔◌, arith, Bool-cases, inl, inr,
}
use aip_pkussm.Words.{str_less, Counts, count_of, parse_and_count}
use aip_pkussm.Words.Count.{occurrences, parse_and_count-occurrences}
use aip_pkussm.Words.Ordered.{
  IsBefore, IsOrdered, ArePositive, str_less-total, parse_and_count-shape,
}

str_less_irreflexive : (s t : CString) → str_less s t ≡ true → str_eq t s ≡ false
unfolding str_less str_eq
str_less_irreflexive [] [] l = ground arith
str_less_irreflexive [] (d ∷ t) l = refl
str_less_irreflexive (c ∷ s) [] l = ground arith
str_less_irreflexive (c ∷ s) (d ∷ t) l = ground (arith, str_less_irreflexive s t)

str_less_trans : (s t u : CString) → str_less s t ≡ true → str_less t u ≡ true → str_less s u ≡ true
unfolding str_less
str_less_trans [] [] u l m = m
str_less_trans [] (d ∷ t) [] l m = ground arith
str_less_trans [] (d ∷ t) (e ∷ u) l m = refl
str_less_trans (c ∷ s) [] u l m = ground arith
str_less_trans (c ∷ s) (d ∷ t) [] l m = ground arith
str_less_trans (c ∷ s) (d ∷ t) (e ∷ u) l m = ground (arith, str_less_trans s t u)

IsBefore-trans :
    (word key : CString) (counts : Counts)
    → str_less word key ≡ true
    → IsBefore key counts
    → IsBefore word counts
IsBefore-trans word key [] l b = tt
IsBefore-trans word key ((k, n) ∷ counts) l b = str_less_trans word key k l b

-- A word that comes before all keys is not in the map.
count_of-before :
    (counts : Counts) (word : CString)
    → IsOrdered counts
    → IsBefore word counts
    → count_of counts word ≡ 0
unfolding count_of
count_of-before [] word o b = refl
count_of-before ((key, n) ∷ counts) word (first, o) b = ground (
  arith,
  str_less_irreflexive word key b,
  count_of-before counts word o (IsBefore-trans word key counts b first),
)

count_of-first : (key : CString) (n : ℕ) (counts : Counts) → count_of ((key, n) ∷ counts) key ≡ n
unfolding count_of
count_of-first key n counts = ground (arith, str_eq_refl key)

str_eq_flip : (s t : CString) → str_eq s t ≡ false → str_eq t s ≡ false
unfolding str_eq
str_eq_flip [] [] e = e
str_eq_flip [] (d ∷ t) e = refl
str_eq_flip (c ∷ s) [] e = refl
str_eq_flip (c ∷ s) (d ∷ t) e = ground (arith, str_eq_flip s t)

-- Behind the same first key.
rest_same :
    (k j : CString) (n m : ℕ) (a b : Counts)
    → k ≡ j
    → IsOrdered ((k, n) ∷ a)
    → IsOrdered ((j, m) ∷ b)
    → ((word : CString) → count_of ((k, n) ∷ a) word ≡ count_of ((j, m) ∷ b) word)
    → (word : CString) → count_of a word ≡ count_of b word
unfolding count_of
rest_same k j n m a b key oa ob same word = elim (Bool-cases (str_eq k word)) [
  | inl e ↦
      let there = str_eq_sound k word e in
      count_of-before a word oa.1 (subst (λ w. IsBefore w a) there oa.0)
      ∙ sym (count_of-before b word ob.1 (subst (λ w. IsBefore w b) (sym key ∙ there) ob.0))
  | inr e ↦ let other : str_eq j word ≡ false = rw (← key) e in ground (arith, same word, e, other)
]

-- Two maps in order, with no count of 0, are the same when they count every word the same.
counts_ext :
    (a b : Counts)
    → IsOrdered a
    → ArePositive a
    → IsOrdered b
    → ArePositive b
    → ((word : CString) → count_of a word ≡ count_of b word)
    → a ≡ b
unfolding count_of
counts_ext [] [] oa pa ob pb same = refl
counts_ext [] ((k, n) ∷ b) oa pa ob pb same =
    absurd (omega (arith, same k, count_of-first k n b, pb.0))
counts_ext ((k, n) ∷ a) [] oa pa ob pb same =
    absurd (omega (arith, same k, count_of-first k n a, pa.0))
counts_ext ((k, n) ∷ a) ((j, m) ∷ b) oa pa ob pb same = elim (Bool-cases (str_eq k j)) [
  | inl e ↦
      let key = str_eq_sound k j e in
      let first = ap (λ w. count_of ((j, m) ∷ b) w) key in
      let number : n ≡ m =
        omega (arith, same k, count_of-first k n a, first, count_of-first j m b) in
      let rest = counts_ext a b oa.1 pa.1 ob.1 pb.1 (rest_same k j n m a b key oa ob same) in cc
  | inr e ↦ elim (Bool-cases (str_less k j)) [
    | inl l ↦
        absurd
          (omega (arith, same k, count_of-first k n a, count_of-before ((j, m) ∷ b) k ob l, pa.0))
    | inr l ↦
        let less = str_less-total j k (str_eq_flip k j e) l in
        absurd (
          omega (arith, same j, count_of-first j m b, count_of-before ((k, n) ∷ a) j oa less, pb.0))
  ]
]

-- Lists with the same words, each as often.
abbrev pub SameWords : List CString → List CString → Type 0
SameWords xs ys = (word : CString) → occurrences word xs ≡ occurrences word ys

abbrev pub Bag : Type 0
Bag = Quot SameWords

abbrev pub bag_of : List CString → Bag
bag_of words = Quot.mk words

parse_and_count-same :
    (xs ys : List CString) → SameWords xs ys → parse_and_count xs ≡ parse_and_count ys
parse_and_count-same xs ys same =
    let (ox, px) = parse_and_count-shape xs in
    let (oy, py) = parse_and_count-shape ys in
    counts_ext (parse_and_count xs) (parse_and_count ys) ox px oy py (λ word.
      parse_and_count-occurrences xs word ∙ same word ∙ sym (parse_and_count-occurrences ys word))

Counts-set : IsSet Counts
Counts-set = hlevel

-- The map of a bag.
counts_of_bag : Bag → Counts
counts_of_bag = Quot.lift Counts-set parse_and_count parse_and_count-same

-- `parseAndCount` makes the same map of two lists of words exactly when they are the same bag, that is
-- when every word stands in both of them equally often, in whatever order.
pub parse_and_count-bag :
    (xs ys : List CString) → (parse_and_count xs ≡ parse_and_count ys) ↔ (bag_of xs ≡ bag_of ys)
unfolding counts_of_bag
parse_and_count-bag xs ys = (
  (λ e. Quot.sound (λ word.
      sym (parse_and_count-occurrences xs word)
      ∙ ap (λ counts. count_of counts word) e
      ∙ parse_and_count-occurrences ys word)),
  λ e. ap counts_of_bag e,
)
