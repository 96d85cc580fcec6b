-- ===== src/Tree.antt =====
-- A2/ls_tree.c: the tree of the files below the working directory. The file system is a parameter.
-- A path is the list of its names, the last one first.
pub mod Rendered
mod Tests
use mathlib.Core.List.{reverse}
use aip_pkussm.Prelude.{
  ℕ, zero, suc, ◌+◌, ◌==◌, Bool, true, false, ◌||◌, Option, none, some, List, [], ◌∷◌, ◌++◌,
  CString, codes, str_eq, if◌then◌else◌,
}

abbrev pub FilePath : Type 0
FilePath = List CString

-- What the calls of the operating system answer. `is_dir` is `stat` and the test of S_IFDIR, with
-- `none` where `stat` fails; `enter` is the working directory behind `chdir (path)`, with `none`
-- where it fails; `scandir` has the names in the order of its list.
pub record FileSystem : Type 0 where
  pub is_dir : FilePath → Option Bool
  pub enter : FilePath → Option FilePath
  pub scandir : FilePath → Option (List CString)

-- `chdir ("..")`
abbrev pub parent : FilePath → FilePath
parent [] = []
parent (name ∷ path) = path

-- How a call ends: with the lines that it has printed and the working directory behind it, with
-- `exit`, or with no fuel left.
pub data Walk : Type 0 where
  returned : List CString → FilePath → Walk
  exited : List CString → Walk
  unfinished : Walk

abbrev pub after : List CString → Walk → Walk
after lines (returned more cwd) = returned (lines ++ more) cwd
after lines (exited more) = exited (lines ++ more)
after lines unfinished = unfinished

-- What comes behind a call.
abbrev pub continue_with : Walk → (FilePath → Walk) → Walk
continue_with (returned lines cwd) next = after lines (next cwd)
continue_with (exited lines) next = exited lines
continue_with unfinished next = unfinished

abbrev pub spaces : ℕ → CString
spaces zero = []
spaces (suc n) = codes "   " ++ spaces n

-- What `print_file` prints for one file.
unfoldable pub line_of : ℕ → CString → CString
line_of ident name =
    (if ident == 0 then [] else codes "|") ++ (spaces ident ++ (codes "|-- " ++ name))

abbrev pub is_special : CString → Bool
is_special name = str_eq name (codes ".") || str_eq name (codes "..")

-- `while (n--)` over a list of names that has been turned round.
unfoldable pub print_all : (CString → FilePath → Walk) → List CString → FilePath → Walk
print_all print [] cwd = returned [] cwd
print_all print (name ∷ names) cwd = elim (is_special name) [
  | true ↦ print_all print names cwd
  | false ↦ continue_with (print name cwd) (λ next. print_all print names next)
]

-- `chdir ("..")` at the end of a call.
abbrev pub leave : Walk → Walk
leave (returned lines cwd) = returned lines (parent cwd)
leave (exited lines) = exited lines
leave unfinished = unfinished

module _ (y : FileSystem) where
  -- `chdir (path)`, whose result is not looked at.
  unfoldable pub chdir : FilePath → FilePath → FilePath
  chdir path cwd = elim (y.enter path) [ none ↦ cwd | some next ↦ next ]

  -- `print_file`, to a depth of `fuel` directories.
  unfoldable pub print_file : ℕ → ℕ → CString → FilePath → Walk
  unfolding print_all chdir
  print_file zero ident name cwd = unfinished
  print_file (suc fuel) ident name cwd =
      after (line_of ident name ∷ []) (elim (y.is_dir (name ∷ cwd)) [
        | none ↦ exited []
        | some false ↦ returned [] cwd
        | some true ↦
            let inside = chdir (name ∷ cwd) cwd in
            elim (y.scandir inside) [
              | none ↦ returned [] (parent inside)
              | some namelist ↦
                  leave (print_all (print_file fuel (ident + 1)) (reverse namelist) inside)
            ]
      ])

  -- `main`, from a working directory.
  unfoldable pub main : ℕ → FilePath → Walk
  unfolding print_file
  main fuel cwd = elim (y.scandir cwd) [
    | none ↦ returned [] cwd
    | some namelist ↦ print_all (print_file fuel 0) (reverse namelist) cwd
  ]
