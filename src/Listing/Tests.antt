-- ===== src/Listing/Tests.antt =====
-- The theorems about the listing at concrete inputs.
use aip_pkussm.Prelude.{
  ◌≡◌, ◌↔◌, refl, arith, inl, inr, true, false, some, none, List, [], ◌∷◌, map, CString, codes,
  str_eq,
}
use aip_pkussm.Listing.{bit, perm_str, Stat, reg, System, Line, main}
use aip_pkussm.Listing.Lines.{HasLine, AreLines, names_down, main-lists}
use aip_pkussm.Listing.Permissions.{ls_str, perm_str-agrees}

-- The mode 0754.
perm_str-agrees_example : (perm_str 492 ≡ ls_str 492) ↔ (
    (bit 492 5 ≡ bit 492 4)
    × (bit 492 5 ≡ bit 492 3)
    × (false ≡ bit 492 1)
    × (false ≡ bit 492 0)
    × (false ≡ bit 492 11)
    × (false ≡ bit 492 10)
    × (false ≡ bit 492 9))
perm_str-agrees_example = perm_str-agrees 492

abbrev plain_stat : Stat
plain_stat = record {
  mode = 420;
  file_type = reg;
  nlink = 1;
  uid = 7;
  gid = 7;
  size = 3;
  mtime = codes "Mon Apr  8 12:00:00 2013\n";
}

abbrev system : System
system = record {
  stat = λ path. some plain_stat;
  getpwuid = λ uid. none;
  getgrgid = λ gid. some (codes "users");
  decimal = λ n. codes "7";
  current_dir = codes "/home";
}

abbrev names : List CString
names = codes "." ∷ codes ".." ∷ codes "a" ∷ codes "b" ∷ []

plain-HasLine : (name : CString) → HasLine system name
plain-HasLine name = record { sb = plain_stat; found = refl; dated = omega arith }

main-lists_example :
    (lines : List Line) × (main system (some names) (codes "-l" ∷ []) ≡ some (lines, true))
    × (map (λ (l : Line). l.name) lines ≡ codes "b" ∷ codes "a" ∷ [])
    × AreLines system lines
unfolding str_eq names_down
main-lists_example =
    main-lists system names (
      inl refl,
      (inl refl, (inr (plain-HasLine (codes "a")), (inr (plain-HasLine (codes "b")), tt))),
    )
