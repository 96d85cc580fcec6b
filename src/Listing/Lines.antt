-- ===== src/Listing/Lines.antt =====
-- The lines of `ls_l` and their order.
use aip_pkussm.Prelude.{
  ℕ, zero, suc, ◌≤◌, ◌≡◌, refl, ap, sym, ◌∙◌, Bool, true, false, ◌||◌, Bool-cases, inl, inr, some,
  List, [], ◌∷◌, ◌++◌, map, append-nil, append_assoc, get_elem?_of_lt, ◌⊎◌, length, get_elem?, take,
  take-length, CString, codes, str_eq, if◌then◌else◌, arith,
}
use aip_pkussm.Listing.{
  Stat, Line, System, skipped, printed, info_file, list_down, main, get_path, cut_mtime,
  type_letter, perm_str, uid_to_name, gid_to_name,
}

take-suc {ℓ} :
    {A : Type ℓ} (xs : List A) (n : ℕ) (x : A)
    → get_elem? xs n ≡ some x
    → take (suc n) xs ≡ take n xs ++ (x ∷ [])
take-suc [] n x h = cc
take-suc (y ∷ xs) zero x h = let e : y ≡ x = cc in ap (λ z. z ∷ []) e
take-suc (y ∷ xs) (suc n) x h = ap (λ l. y ∷ l) (take-suc xs n x h)

cut_mtime-some :
    (mtime : CString) → 2 ≤ length mtime → (cut : CString) × (cut_mtime mtime ≡ some cut)
unfolding cut_mtime
cut_mtime-some [] h = absurd (omega arith)
cut_mtime-some (a ∷ []) h = absurd (omega arith)
cut_mtime-some (a ∷ b ∷ mtime) h = (take (length mtime) (a ∷ b ∷ mtime), refl)

module _ (y : System) where
  abbrev pub is_special : CString → Bool
  is_special name = str_eq name (codes ".") || str_eq name (codes "..")

  -- A name that is special, or of which `stat` answers, with a date that has a last two characters.
  pub record HasLine (name : CString) : Type 0 where
    pub sb : Stat
    pub found : y.stat (get_path y name) ≡ some sb
    pub dated : 2 ≤ length sb.mtime

  abbrev pub AreListed : List CString → Type 0
  AreListed [] = Unit
  AreListed (name ∷ names) = ((is_special name ≡ true) ⊎ HasLine name) × AreListed names

  -- The names but the special ones, from the last to the first.
  unfoldable pub names_down : List CString → List CString
  names_down [] = []
  names_down (name ∷ names) = names_down names ++ (if is_special name then [] else name ∷ [])

  -- Each line is the one that `info_file` prints for its name.
  abbrev pub AreLines : List Line → Type 0
  AreLines [] = Unit
  AreLines (line ∷ lines) = (info_file y line.name ≡ printed line) × AreLines lines

  names_down-append :
      (names : List CString) (name : CString)
      → names_down (names ++ (name ∷ []))
        ≡ (if is_special name then [] else name ∷ []) ++ names_down names
  unfolding names_down
  names_down-append [] name = sym (append-nil (if is_special name then [] else name ∷ []))
  names_down-append (x ∷ names) name =
      ap (λ l. l ++ (if is_special x then [] else x ∷ [])) (names_down-append names name)
      ∙ append_assoc (if is_special name then [] else name ∷ []) (names_down names)
          (if is_special x then [] else x ∷ [])

  AreListed-at :
      (names : List CString) (n : ℕ) (name : CString)
      → AreListed names
      → get_elem? names n ≡ some name
      → (is_special name ≡ true) ⊎ HasLine name
  AreListed-at [] n name l h = cc
  AreListed-at (x ∷ names) zero name (here, l) h = let e : name ≡ x = cc in rw e here
  AreListed-at (x ∷ names) (suc n) name (here, l) h = AreListed-at names n name l h

  info_file-skipped : (name : CString) → is_special name ≡ true → info_file y name ≡ skipped
  unfolding info_file
  info_file-skipped name h = rw h refl

  info_file-printed :
      (name : CString)
      → is_special name ≡ false
      → HasLine name
      → (line : Line) × (info_file y name ≡ printed line) × (line.name ≡ name)
  unfolding info_file
  info_file-printed name h l =
      let (cut, e) = cut_mtime-some l.sb.mtime l.dated in
      (
        record {
          letter_of = type_letter l.sb.file_type;
          perm = perm_str l.sb.mode;
          nlink = l.sb.nlink;
          usr_name = uid_to_name y l.sb.uid;
          usr_group_name = gid_to_name y l.sb.gid;
          size = l.sb.size;
          mtime = cut;
          name = name;
        },
        rw (h, l.found, e) refl,
        refl,
      )

  list_down-listed :
      (names : List CString) (n : ℕ)
      → AreListed names
      → n ≤ length names
      → (lines : List Line) × (list_down y names n ≡ (lines, true))
        × (map (λ (l : Line). l.name) lines ≡ names_down (take n names))
        × AreLines lines
  unfolding list_down names_down
  list_down-listed names zero l h = ([], refl, refl, tt)
  list_down-listed names (suc n) l h =
      let (lines, e, same, all) = list_down-listed names n l (omega arith) in
      let (name, there) = get_elem?_of_lt names n (omega arith) in
      let split = take-suc names n name there in
      elim (Bool-cases (is_special name)) [
        | inl special ↦ (
          lines,
          rw (list_down, there, info_file-skipped name special, e) refl,
          same
              ∙ sym (ap names_down split ∙ names_down-append (take n names) name ∙ rw special refl),
          all,
        )
        | inr plain ↦ elim (AreListed-at names n name l there) [
          | inl special ↦ absurd cc
          | inr found ↦
              let (line, shown, named) = info_file-printed name plain found in
              (
                line ∷ lines,
                rw (list_down, there, shown, e) refl,
                rw (named, same)
                    (sym (
                      ap names_down split ∙ names_down-append (take n names) name ∙ rw plain refl)),
                (ap (info_file y) named ∙ shown, all),
              )
        ]
      ]

  -- Where each name of the working directory is `.` or `..` or can be asked for with a date of two
  -- characters or more, `ls_l -l` comes to its end with one line for each name but `.` and `..`,
  -- from the last name of `alphasort` to the first, each the one that `info_file` prints for it.
  pub main-lists :
      (names : List CString)
      → AreListed names
      → (lines : List Line) × (main y (some names) (codes "-l" ∷ []) ≡ some (lines, true))
        × (map (λ (l : Line). l.name) lines ≡ names_down names)
        × AreLines lines
  unfolding main str_eq
  main-lists names l =
      let (lines, e, same, all) = list_down-listed names (length names) l (omega arith) in
      (lines, ap some e, same ∙ ap names_down (take-length (length names) names refl), all)
