-- ===== src/Chat/Console/Input.antt =====
-- What the console reads of a line `send <id><text>`, and that it comes to an end.
use aip_pkussm.Prelude.{
  ℕ, suc, ◌≤◌, ◌<◌, ◌≡◌, refl, Bool, true, false, some, List, [], ◌∷◌, ◌++◌, CString, codes, str_eq,
  length, pos, arith,
}
use aip_pkussm.Chat.Console.{
  newline, is_digit, in_line, skip_space, span, read_word, value_of, max_int, sign, int_of,
  read_int, read_line, Command, command_of, Action, run_send, send_action, actions,
}

-- Every character passes a test.
abbrev pub AllPass : (ℕ → Bool) → List ℕ → Type 0
AllPass p [] = Unit
AllPass p (c ∷ s) = (p c ≡ true) × AllPass p s

-- The first character, if there is one, fails it.
abbrev pub StartFails : (ℕ → Bool) → List ℕ → Type 0
StartFails p [] = Unit
StartFails p (c ∷ s) = p c ≡ false

pub span-append :
    (p : ℕ → Bool) (word rest : List ℕ)
    → AllPass p word
    → StartFails p rest
    → span p (word ++ rest) ≡ (word, rest)
unfolding span
span-append p [] [] h g = refl
span-append p [] (c ∷ rest) h g = rw (span, g) refl
span-append p (c ∷ word) rest h g = rw (span, h.0, span-append p word rest h.1 g) refl

-- A text that a line may hold: no newline, room in its array, and no digit in front.
pub record IsText (content : CString) : Type 0 where
  pub one_line : AllPass in_line content
  pub fits_array : length content < 512
  pub no_digit : StartFails is_digit content

-- The digits of an `int`.
pub record IsNumber (digits : List ℕ) : Type 0 where
  pub all_digits : AllPass is_digit digits
  pub some_digit : 0 < length digits
  pub small : value_of digits 0 ≤ max_int

-- The line `send <digits><content>`.
abbrev pub line_of : List ℕ → CString → List ℕ → List ℕ
line_of digits content rest = codes "send " ++ (digits ++ (content ++ (newline ∷ rest)))

skip_digit : (d : ℕ) (input : List ℕ) → is_digit d ≡ true → skip_space (32 ∷ d ∷ input) ≡ d ∷ input
unfolding skip_space
skip_digit d input h = ground arith

pub sign_digit :
    (d : ℕ) (input : List ℕ) → is_digit d ≡ true → sign (d ∷ input) ≡ (false, d ∷ input)
unfolding sign
sign_digit d input h = ground arith

read_int-digits :
    (digits rest : List ℕ)
    → IsNumber digits
    → StartFails is_digit rest
    → read_int (32 ∷ (digits ++ rest)) ≡ (pos (value_of digits 0), true, rest)
unfolding read_int int_of
read_int-digits [] rest v g = absurd (omega (arith, v.some_digit))
read_int-digits (d ∷ ds) rest v g = ground (
  arith,
  skip_digit d (ds ++ rest) v.all_digits.0,
  sign_digit d (ds ++ rest) v.all_digits.0,
  span-append is_digit (d ∷ ds) rest v.all_digits g,
  v.small,
)

read_line-text :
    (content rest : List ℕ)
    → AllPass in_line content
    → read_line (content ++ (newline ∷ rest)) ≡ some (content, rest)
unfolding read_line
read_line-text [] rest h = rw (read_line, span-append in_line [] (newline ∷ rest) tt refl) refl
read_line-text (c ∷ content) rest h =
    rw (read_line, span-append in_line (c ∷ content) (newline ∷ rest) h refl) refl

abbrev send_word : CString
send_word = codes "send"

read_word-send :
    (rest : List ℕ) → read_word (send_word ++ (32 ∷ rest)) ≡ some (send_word, 32 ∷ rest)
unfolding read_word skip_space span
read_word-send rest = refl

command_of-send : command_of send_word ≡ Command.send
unfolding command_of str_eq
command_of-send = refl

-- `IsText` and a number leave no digit in front of what follows the number.
no_digit-line :
    (content rest : List ℕ)
    → StartFails is_digit content
    → StartFails is_digit (content ++ (newline ∷ rest))
no_digit-line [] rest h = refl
no_digit-line (c ∷ content) rest h = h

send_action-line :
    (digits : List ℕ) (content rest : CString) (next : List ℕ → List Action)
    → IsNumber digits
    → IsText content
    → send_action (32 ∷ (digits ++ (content ++ (newline ∷ rest)))) next
      ≡ run_send (pos (value_of digits 0)) content ∷ next rest
unfolding send_action
send_action-line digits content rest next n t = ground (
  arith,
  read_int-digits digits (content ++ (newline ∷ rest)) n (no_digit-line content rest t.no_digit),
  read_line-text content rest t.one_line,
  t.fits_array,
)

-- A line `send <digits><content>` with the digits of an `int` and a text that starts with no digit
-- becomes the command to send that text to that number; the rest of the input is read next.
pub actions-send :
    (digits : List ℕ) (content : CString) (rest : List ℕ) (rounds : ℕ)
    → IsNumber digits
    → IsText content
    → actions (suc rounds) (line_of digits content rest)
      ≡ run_send (pos (value_of digits 0)) content ∷ actions rounds rest
unfolding actions
actions-send digits content rest rounds n t =
    rw
      (
        actions,
        read_word-send (digits ++ (content ++ (newline ∷ rest))),
        command_of-send,
        send_action-line digits content rest (actions rounds) n t,
      )
      refl
