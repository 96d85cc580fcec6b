-- ===== src/Words/Separate.antt =====
-- What `getWords` makes of a text.
use aip_pkussm.Prelude.{
  ◌≡◌, refl, ap, ◌∙◌, Bool, true, false, List, [], ◌∷◌, ◌++◌, CString, append_assoc,
}
use aip_pkussm.Words.{is_separator, words_from, get_words}

-- All characters are separators; no character is one.
abbrev pub AreSeparators : CString → Type 0
AreSeparators [] = Unit
AreSeparators (c ∷ s) = (is_separator c ≡ true) × AreSeparators s

abbrev pub AreLetters : CString → Type 0
AreLetters [] = Unit
AreLetters (c ∷ s) = (is_separator c ≡ false) × AreLetters s

abbrev pub NonEmpty : CString → Type 0
NonEmpty [] = ⊥
NonEmpty (c ∷ s) = Unit

abbrev pub IsWord : CString → Type 0
IsWord w = NonEmpty w × AreLetters w

-- A word with the separators behind it.
pub record Token : Type 0 where
  pub word : CString
  pub gap : CString
  pub is_word : IsWord word
  pub is_gap : NonEmpty gap × AreSeparators gap

-- A text: words, each with a gap behind it.
abbrev pub text_of : List Token → CString
text_of [] = []
text_of (t ∷ tokens) = t.word ++ (t.gap ++ text_of tokens)

abbrev pub words_of : List Token → List CString
words_of [] = []
words_of (t ∷ tokens) = t.word ∷ words_of tokens

words_from-gap :
    (gap rest : CString)
    → AreSeparators gap
    → words_from false [] (gap ++ rest) ≡ words_from false [] rest
unfolding words_from
words_from-gap [] rest h = refl
words_from-gap (c ∷ gap) rest h = rw (words_from, h.0) (words_from-gap gap rest h.1)

words_from-letters :
    (new : Bool) (a_word letters rest : CString)
    → NonEmpty letters
    → AreLetters letters
    → words_from new a_word (letters ++ rest) ≡ words_from true (a_word ++ letters) rest
unfolding words_from
words_from-letters new a_word [] rest n h = absurd n
words_from-letters new a_word (c ∷ []) rest n h = rw (words_from, h.0) refl
words_from-letters new a_word (c ∷ d ∷ letters) rest n h =
    rw (words_from, h.0)
      (words_from-letters true (a_word ++ (c ∷ [])) (d ∷ letters) rest tt h.1
        ∙ ap (λ w. words_from true w rest) (append_assoc a_word (c ∷ []) (d ∷ letters)))

words_from-end :
    (a_word gap rest : CString)
    → NonEmpty gap
    → AreSeparators gap
    → words_from true a_word (gap ++ rest) ≡ a_word ∷ words_from false [] rest
unfolding words_from
words_from-end a_word [] rest n h = absurd n
words_from-end a_word (c ∷ gap) rest n h =
    rw (words_from, h.0) (ap (λ ws. a_word ∷ ws) (words_from-gap gap rest h.1))

words_from-unfinished :
    (u : CString) (new : Bool) (w : CString) → AreLetters u → words_from new w u ≡ []
unfolding words_from
words_from-unfinished [] new w h = refl
words_from-unfinished (c ∷ u) new w h =
    rw (words_from, h.0) (words_from-unfinished u true (w ++ (c ∷ [])) h.1)

words_from-tokens :
    (tokens : List Token) (unfinished : CString)
    → AreLetters unfinished
    → words_from false [] (text_of tokens ++ unfinished) ≡ words_of tokens
words_from-tokens [] unfinished h = words_from-unfinished unfinished false [] h
words_from-tokens (t ∷ tokens) unfinished h =
    let rest = text_of tokens ++ unfinished in
    ap (words_from false []) (
      append_assoc t.word (t.gap ++ text_of tokens) unfinished
      ∙ ap (λ x. t.word ++ x) (append_assoc t.gap (text_of tokens) unfinished))
    ∙ words_from-letters false [] t.word (t.gap ++ rest) t.is_word.0 t.is_word.1
    ∙ words_from-end t.word t.gap rest t.is_gap.0 t.is_gap.1
    ∙ ap (λ ws. t.word ∷ ws) (words_from-tokens tokens unfinished h)

-- `getWords` finds exactly the words of a text, in order: of separators, then words that each have
-- at least one separator behind them, then letters at the end of the text, which no separator
-- follows, it returns the words, and drops the letters.
pub get_words-tokens :
    (gap : CString) (tokens : List Token) (unfinished : CString)
    → AreSeparators gap
    → AreLetters unfinished
    → get_words (gap ++ (text_of tokens ++ unfinished)) ≡ words_of tokens
unfolding get_words
get_words-tokens gap tokens unfinished g h =
    words_from-gap gap (text_of tokens ++ unfinished) g ∙ words_from-tokens tokens unfinished h
