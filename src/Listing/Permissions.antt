-- ===== src/Listing/Permissions.antt =====
-- `perm_str` and the date against what `ls -l` prints.
use aip_pkussm.Prelude.{
  ℕ, suc, ◌<◌, ◌+◌, ◌≡◌, refl, sym, ap, ◌∙◌, ◌↔◌, Bool, true, false, some, [], ◌∷◌, ◌++◌, CString,
  arith, length, length-append, take-append_left,
}
use aip_pkussm.Listing.{bit, contains, test, letter, perm_str, cut_mtime}

-- The letter for the right to execute, where another bit is set or not: `s` or `S` for the bits 11
-- and 10, `t` or `T` for the bit 9.
unfoldable pub execute : Bool → Bool → ℕ → ℕ → ℕ
execute right false both alone = letter right 120
execute true true both alone = both
execute false true both alone = alone

-- The nine characters of `ls -l`: a letter for each bit of the mode from 8 down to 0, where setuid,
-- setgid and the sticky bit show at the rights to execute.
unfoldable pub ls_str : ℕ → CString
unfolding execute
ls_str mode =
    letter (bit mode 8) 114
    ∷ letter (bit mode 7) 119
    ∷ execute (bit mode 6) (bit mode 11) 115 83
    ∷ letter (bit mode 5) 114
    ∷ letter (bit mode 4) 119
    ∷ execute (bit mode 3) (bit mode 10) 115 83
    ∷ letter (bit mode 2) 114
    ∷ letter (bit mode 1) 119
    ∷ execute (bit mode 0) (bit mode 9) 116 84
    ∷ []

-- Two letters that are no dash tell the bits.
letter_inj : (a b : Bool) (c : ℕ) → letter a (c + 46) ≡ letter b (c + 46) → a ≡ b
unfolding letter
letter_inj true true c h = refl
letter_inj true false c h = absurd (omega arith)
letter_inj false true c h = absurd (omega arith)
letter_inj false false c h = refl

-- A right to execute that shows like one without another bit.
execute_inj :
    (a right other : Bool) (both alone : ℕ)
    → 45 < both
    → 45 < alone
    → both < 120
    → alone < 120
    → letter a 120 ≡ execute right other both alone
    → (a ≡ right) × (false ≡ other)
unfolding execute letter
execute_inj a right false both alone b1 b2 b3 b4 h = (letter_inj a right 74 h, refl)
execute_inj true true true both alone b1 b2 b3 b4 h = absurd (omega arith)
execute_inj true false true both alone b1 b2 b3 b4 h =
    let e : 120 ≡ alone = h in absurd (omega arith)
execute_inj false true true both alone b1 b2 b3 b4 h = absurd (omega arith)
execute_inj false false true both alone b1 b2 b3 b4 h =
    let e : 45 ≡ alone = h in absurd (omega arith)

-- The owner's three letters and the others' first are those of the bits; the group's three follow
-- its read bit, and the others' last two are always dashes.
perm_str-letters :
    (mode : ℕ)
    → perm_str mode
      ≡ letter (bit mode 8) 114
        ∷ letter (bit mode 7) 119
        ∷ letter (bit mode 6) 120
        ∷ letter (bit mode 5) 114
        ∷ letter (bit mode 5) 119
        ∷ letter (bit mode 5) 120
        ∷ letter (bit mode 2) 114
        ∷ 45
        ∷ 45
        ∷ []
unfolding perm_str test contains letter
perm_str-letters mode = refl

-- `perm_str` is the string of `ls -l` exactly for the modes without setuid, setgid and the sticky
-- bit in which the group may write and execute just when it may read, and others may neither write
-- nor execute.
pub perm_str-agrees :
    (mode : ℕ)
    → (perm_str mode ≡ ls_str mode) ↔ (
        (bit mode 5 ≡ bit mode 4)
        × (bit mode 5 ≡ bit mode 3)
        × (false ≡ bit mode 1)
        × (false ≡ bit mode 0)
        × (false ≡ bit mode 11)
        × (false ≡ bit mode 10)
        × (false ≡ bit mode 9))
unfolding ls_str letter execute
perm_str-agrees mode = (
  λ e.
      let all = sym (perm_str-letters mode) ∙ e in
      let owner =
        execute_inj (bit mode 6) (bit mode 6) (bit mode 11) 115 83 (omega arith) (omega arith)
          (omega arith) (omega arith) (cc all) in
      let group =
        execute_inj (bit mode 5) (bit mode 3) (bit mode 10) 115 83 (omega arith) (omega arith)
          (omega arith) (omega arith) (cc all) in
      let others =
        execute_inj false (bit mode 0) (bit mode 9) 116 84 (omega arith) (omega arith) (omega arith)
          (omega arith) (cc all) in
      (
        letter_inj (bit mode 5) (bit mode 4) 73 (cc all),
        group.0,
        letter_inj false (bit mode 1) 73 (cc all),
        others.0,
        owner.1,
        group.1,
        others.1,
      ),
  λ h. perm_str-letters mode ∙ rw (← h.0, ← h.1, ← h.2, ← h.3, ← h.4, ← h.5, ← h.6) refl,
)

-- The text of `ctime` ends in the year and a newline: what is cut off is the newline and the
-- character in front of it, the year's last digit.
cut_mtime-year : (text : CString) (digit nl : ℕ) → cut_mtime (text ++ (digit ∷ nl ∷ [])) ≡ some text
unfolding cut_mtime
cut_mtime-year text digit nl =
    let e : length (text ++ (digit ∷ nl ∷ [])) ≡ suc (suc (length text)) =
      omega (arith, length-append text (digit ∷ nl ∷ [])) in
    rw (cut_mtime, e) (ap some (take-append_left (length text) text (digit ∷ nl ∷ []) refl))
