-- ===== src/Words/Content.antt =====
-- What `getContentStr` makes of a file.
use aip_pkussm.Prelude.{
  ℕ, zero, suc, ◌<◌, ◌≡◌, refl, sym, ap, ◌∙◌, inl, inr, true, false, some, List, [], ◌∷◌, ◌++◌,
  ◌==◌, length, CString, arith, append-nil, append_assoc, Bool-cases,
}
use aip_pkussm.Words.{newline, getline, append_lines, get_content_str}

-- A file without its newlines.
unfoldable pub without_newlines : List ℕ → CString
without_newlines [] = []
without_newlines (c ∷ file) =
    let rest = without_newlines file in elim (c == newline) [ true ↦ rest | false ↦ c ∷ rest ]

-- A line and what is left behind it make up the file; nothing is left at its end.
getline-parts :
    (file : List ℕ)
    → (without_newlines file ≡ (getline file).0 ++ without_newlines (getline file).1)
      × ((getline file).2 ≡ true → (getline file).1 ≡ [])
      × ((getline file).2 ≡ false → length (getline file).1 < length file)
unfolding getline without_newlines
getline-parts [] = (refl, λ e. refl, λ e. cc)
getline-parts (c ∷ file) =
    let (a, b, d) = getline-parts file in
    elim (Bool-cases (c == newline)) [
      | inl e ↦
          (rw (without_newlines, getline, e) refl, λ h. ground (arith, e), λ h. ground (arith, e))
      | inr e ↦ (
        rw (without_newlines, getline, e, a) refl,
        λ h. ground (arith, e, b),
        λ h. ground (arith, e, d),
      )
    ]

without_newlines_nil : without_newlines [] ≡ []
unfolding without_newlines
without_newlines_nil = refl

append_lines-all :
    (fuel : ℕ) (file : List ℕ) (content : CString)
    → length file < fuel
    → append_lines fuel file content ≡ some (content ++ without_newlines file)
unfolding append_lines
append_lines-all zero file content h = absurd (omega arith)
append_lines-all (suc fuel) file content h =
    let line = (getline file).0 in
    let rest = (getline file).1 in
    let (a, b, d) = getline-parts file in
    elim (Bool-cases (getline file).2) [
      | inl e ↦
          let w : without_newlines rest ≡ [] = ap without_newlines (b e) ∙ without_newlines_nil in
          rw (append_lines, e)
            (ap (λ x. some (content ++ x))
              (sym (append-nil line) ∙ sym (ap (λ x. line ++ x) w) ∙ sym a))
      | inr e ↦
          rw (append_lines, e)
            (append_lines-all fuel rest (content ++ line) (omega (arith, d e))
              ∙ ap some (
                  append_assoc content line (without_newlines rest)
                  ∙ ap (λ x. content ++ x) (sym a)))
    ]

-- One more line than the file has bytes is enough fuel: `getContentStr` returns the file without
-- its newlines.
pub get_content_str-all :
    (fuel : ℕ) (file : List ℕ)
    → length file < fuel
    → get_content_str fuel file ≡ some (without_newlines file)
unfolding get_content_str
get_content_str-all fuel file h = append_lines-all fuel file [] h
