-- ===== src/Chat/Console/Greeting.antt =====
-- What the console makes of the answers to its questions: a name and an id, each on a line.
use aip_pkussm.Prelude.{
  ℕ, suc, ◌%◌, ◌^◌, ◌<◌, ◌≡◌, refl, ap, ◌∙◌, true, some, List, [], ◌∷◌, ◌++◌, CString, length, pos,
  arith,
}
use aip_pkussm.Ftp.Client.{fits}
use aip_pkussm.Chat.Console.{
  newline, is_digit, in_word, skip_space, span, read_word, value_of, int_of, read_int, read_id,
  read_me, actions,
}
use aip_pkussm.Chat.Console.Input.{AllPass, span-append, IsNumber, sign_digit}

-- A name that `cin >>` reads as one word and that fits its array.
pub record IsName (name : CString) : Type 0 where
  pub one_word : AllPass in_word name
  pub some_letter : 0 < length name
  pub fits_array : length name < 32

-- The two answers, and what stands behind them.
abbrev pub greeting : CString → List ℕ → List ℕ → List ℕ
greeting name digits rest = name ++ (newline ∷ (digits ++ (newline ∷ rest)))

skip_letter : (c : ℕ) (input : List ℕ) → in_word c ≡ true → skip_space (c ∷ input) ≡ c ∷ input
unfolding skip_space
skip_letter c input h = ground arith

read_word-name :
    (name rest : List ℕ)
    → IsName name
    → read_word (name ++ (newline ∷ rest)) ≡ some (name, newline ∷ rest)
unfolding read_word
read_word-name [] rest v = absurd (omega (arith, v.some_letter))
read_word-name (c ∷ name) rest v =
    let e : span in_word (skip_space (c ∷ (name ++ (newline ∷ rest))))
        ≡ (c ∷ name, newline ∷ rest) =
      ap (span in_word) (skip_letter c (name ++ (newline ∷ rest)) v.one_word.0)
      ∙ span-append in_word (c ∷ name) (newline ∷ rest) v.one_word refl in
    rw (read_word, e) (ap (λ (x : CString × List ℕ). some (c ∷ name, x.1)) e)

skip_newline :
    (d : ℕ) (input : List ℕ) → is_digit d ≡ true → skip_space (newline ∷ d ∷ input) ≡ d ∷ input
unfolding skip_space
skip_newline d input h = ground arith

digit_stays : (d : ℕ) (input : List ℕ) → is_digit d ≡ true → skip_space (d ∷ input) ≡ d ∷ input
unfolding skip_space
digit_stays d input h = ground arith

read_id-digits :
    (digits rest : List ℕ)
    → IsNumber digits
    → read_id (newline ∷ (digits ++ (newline ∷ rest)))
      ≡ (pos (value_of digits 0), true, newline ∷ rest)
unfolding read_id read_int int_of
read_id-digits [] rest v = absurd (omega (arith, v.some_digit))
read_id-digits (d ∷ ds) rest v = ground (
  arith,
  skip_newline d (ds ++ (newline ∷ rest)) v.all_digits.0,
  digit_stays d (ds ++ (newline ∷ rest)) v.all_digits.0,
  sign_digit d (ds ++ (newline ∷ rest)) v.all_digits.0,
  span-append is_digit (d ∷ ds) (newline ∷ rest) v.all_digits refl,
  v.small,
)

-- A name of one word and an id, each on a line, are what the console takes for the user.
pub read_me-greeting :
    (name digits rest : List ℕ)
    → IsName name
    → IsNumber digits
    → read_me (greeting name digits rest)
      ≡ some (record { my_name = name; my_id = value_of digits 0 }, true, newline ∷ rest)
unfolding read_me
read_me-greeting name digits rest v n =
    let small : value_of digits 0 % 2 ^ 32 ≡ value_of digits 0 = omega (arith, n.small) in
    let room : fits name ≡ true = ground (arith, v.fits_array) in
    rw
      (
        read_me,
        read_word-name name (digits ++ (newline ∷ rest)) v,
        read_id-digits digits rest n,
        room,
        small,
      )
      refl

-- A newline in front of the next command is skipped.
pub actions-newline :
    (rounds : ℕ) (input : List ℕ)
    → actions (suc rounds) (newline ∷ input) ≡ actions (suc rounds) input
unfolding actions read_word skip_space
actions-newline rounds input = refl
