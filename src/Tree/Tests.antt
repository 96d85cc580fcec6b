-- ===== src/Tree/Tests.antt =====
-- The theorems about the tree at concrete inputs.
use aip_pkussm.Prelude.{
  ◌≡◌, refl, Bool, true, Option, some, none, List, [], ◌∷◌, CString, codes, str_eq, arith,
}
use aip_pkussm.Tree.{FilePath, FileSystem, returned, unfinished, main, print_file}
use aip_pkussm.Tree.Rendered.{
  Entries, end, entry, file, dir, render_entries, depth_entries, visible, file_at, dir_at, none_at,
  some_at, main-renders, print_file-unfinished,
}

-- A directory `d` with a file `g`, and a file `f` behind it.
abbrev names_in : FilePath → List CString
names_in [] = codes "." ∷ codes ".." ∷ codes "f" ∷ codes "d" ∷ []
names_in (name ∷ path) = codes "." ∷ codes ".." ∷ codes "g" ∷ []

abbrev dir_of : FilePath → Option Bool
dir_of [] = some true
dir_of (name ∷ path) = some (str_eq name (codes "d"))

abbrev system : FileSystem
system = record {
  is_dir = dir_of;
  enter = λ path. some path;
  scandir = λ path. some (names_in path);
}

abbrev tree : Entries
tree = entry (codes "d") (dir (entry (codes "g") file end)) (entry (codes "f") file end)

main-renders_example : main system 2 [] ≡ returned (render_entries 0 tree) []
unfolding visible str_eq depth_entries
main-renders_example =
    main-renders system 2 [] tree (names_in []) refl refl
      (some_at refl
        (dir_at (names_in (codes "d" ∷ [])) refl refl refl refl
          (some_at refl (file_at refl) none_at))
        (some_at refl (file_at refl) none_at))
      (omega arith)

-- The same files, where nothing can be entered.
print_file-unfinished_example :
    print_file (record system { enter = λ path. none }) 100 0 (codes "d") [] ≡ unfinished
unfolding str_eq
print_file-unfinished_example =
    print_file-unfinished (record system { enter = λ path. none }) 100 0 (codes "d") []
      (names_in []) (codes "f" ∷ codes ".." ∷ codes "." ∷ []) refl refl refl refl refl
