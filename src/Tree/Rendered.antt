-- ===== src/Tree/Rendered.antt =====
-- `ls_tree` against the tree that the file system holds.
use mathlib.Core.List.{reverse}
use mathlib.Core.Path.{fun_ext}
use Prim.Native.Nat.{max}
use aip_pkussm.Prelude.{
  ℕ, zero, suc, ◌+◌, ◌<◌, ◌≡◌, refl, sym, ap, ◌∙◌, true, false, none, some, List, [], ◌∷◌, ◌++◌,
  CString, arith, Bool-cases, inl, inr,
}
use aip_pkussm.Tree.{
  FilePath, FileSystem, Walk, returned, unfinished, continue_with, line_of, is_special, print_all,
  chdir, print_file, main,
}

mutual
  pub data Node : Type 0 where
    file : Node
    dir : Entries → Node

  pub data Entries : Type 0 where
    end : Entries
    entry : CString → Node → Entries → Entries

abbrev pub names_of : Entries → List CString
names_of end = []
names_of (entry name node entries) = name ∷ names_of entries

-- How many directories stand in one another.
unfoldable mutual
  pub depth : Node → ℕ
  depth file = 0
  depth (dir entries) = suc (depth_entries entries)

  pub depth_entries : Entries → ℕ
  depth_entries end = 0
  depth_entries (entry name node entries) = max (depth node) (depth_entries entries)

-- The lines of a tree: a file's line, then those of the files in it, one step further in.
unfoldable mutual
  pub render : ℕ → CString → Node → List CString
  render ident name file = line_of ident name ∷ []
  render ident name (dir entries) = line_of ident name ∷ render_entries (ident + 1) entries

  pub render_entries : ℕ → Entries → List CString
  render_entries ident end = []
  render_entries ident (entry name node entries) =
      render ident name node ++ render_entries ident entries

-- The names but `.` and `..`.
unfoldable pub visible : List CString → List CString
visible [] = []
visible (name ∷ names) =
    let rest = visible names in elim (is_special name) [ true ↦ rest | false ↦ name ∷ rest ]

-- The file system has a tree at a path: directories can be entered under their own paths, and
-- their names are listed in the opposite order of the tree's.
module _ (y : FileSystem) where
  mutual
    pub data IsAt : FilePath → Node → Type 0 where
      file_at : {p : FilePath} → y.is_dir p ≡ some false → IsAt p file
      dir_at :
          {p : FilePath} {entries : Entries} (namelist : List CString)
          → y.is_dir p ≡ some true
          → y.enter p ≡ some p
          → y.scandir p ≡ some namelist
          → visible (reverse namelist) ≡ names_of entries
          → AreAt p entries
          → IsAt p (dir entries)

    pub data AreAt : FilePath → Entries → Type 0 where
      none_at : {p : FilePath} → AreAt p end
      some_at :
          {p : FilePath} {name : CString} {node : Node} {entries : Entries}
          → is_special name ≡ false
          → IsAt (name ∷ p) node
          → AreAt p entries
          → AreAt p (entry name node entries)

print_all-shown :
    (print : CString → FilePath → Walk) (name : CString) (names : List CString) (cwd : FilePath)
    → is_special name ≡ false
    → print_all print (name ∷ names) cwd
      ≡ continue_with (print name cwd) (λ next. print_all print names next)
unfolding print_all
print_all-shown print name names cwd e = rw (print_all, e) refl

print_all-visible :
    (print : CString → FilePath → Walk) (names : List CString) (cwd : FilePath)
    → print_all print names cwd ≡ print_all print (visible names) cwd
unfolding print_all visible
print_all-visible print [] cwd = refl
print_all-visible print (name ∷ names) cwd = elim (Bool-cases (is_special name)) [
  | inl e ↦ rw (print_all, visible, e) (print_all-visible print names cwd)
  | inr e ↦
      print_all-shown print name names cwd e
      ∙ ap (continue_with (print name cwd)) (fun_ext (λ next. print_all-visible print names next))
      ∙ sym (print_all-shown print name (visible names) cwd e)
      ∙ rw (visible, e) refl
]

module _ (y : FileSystem) where
  chdir-some :
      {path next : FilePath} (cwd : FilePath) → y.enter path ≡ some next → chdir y path cwd ≡ next
  unfolding chdir
  chdir-some cwd e = rw (chdir, e) refl

  mutual
    unfolding print_file print_all render depth

    file-renders :
        (fuel ident : ℕ) (name : CString) (cwd : FilePath) (node : Node)
        → IsAt y (name ∷ cwd) node
        → depth node < fuel
        → print_file y fuel ident name cwd ≡ returned (render ident name node) cwd
    file-renders zero ident name cwd node v h = absurd (omega arith)
    file-renders (suc fuel) ident name cwd file (file_at d) h = rw (print_file, d) refl
    file-renders (suc fuel) ident name cwd (dir entries) (dir_at namelist d e s n v) h =
        rw
          (
            print_file,
            d,
            chdir-some cwd e,
            s,
            chdir-some cwd e,
            print_all-visible (print_file y fuel (ident + 1)) (reverse namelist) (name ∷ cwd),
            n,
            entries-render fuel (ident + 1) (name ∷ cwd) entries v (omega arith),
          )
          refl

    entries-render :
        (fuel ident : ℕ) (cwd : FilePath) (entries : Entries)
        → AreAt y cwd entries
        → depth_entries entries < fuel
        → print_all (print_file y fuel ident) (names_of entries) cwd
          ≡ returned (render_entries ident entries) cwd
    entries-render fuel ident cwd end none_at h = refl
    entries-render fuel ident cwd (entry name node entries) (some_at e a v) h =
        rw
          (
            print_all,
            e,
            file-renders fuel ident name cwd node a (omega arith),
            entries-render fuel ident cwd entries v (omega arith),
          )
          refl

  -- Where the directories of a tree can be listed and entered under their own paths, `ls_tree` prints
  -- each file of the tree below the working directory once, a directory before what stands in it and
  -- each level one step further in, from the last name that `scandir` lists to the first, and comes
  -- back to the working directory; fuel for the tree's depth is enough.
  pub main-renders :
      (fuel : ℕ) (cwd : FilePath) (entries : Entries) (namelist : List CString)
      → y.scandir cwd ≡ some namelist
      → visible (reverse namelist) ≡ names_of entries
      → AreAt y cwd entries
      → depth_entries entries < fuel
      → main y fuel cwd ≡ returned (render_entries 0 entries) cwd
  unfolding main
  main-renders fuel cwd entries namelist s n v h =
      rw (main, s, print_all-visible (print_file y fuel 0) (reverse namelist) cwd, n)
        (entries-render fuel 0 cwd entries v h)

  -- A directory that cannot be entered, and that is the last one that `scandir` lists in its own
  -- directory, makes `print_file` call itself for ever: no fuel is enough.
  pub print_file-unfinished :
      (fuel ident : ℕ) (name : CString) (cwd : FilePath) (namelist rest : List CString)
      → is_special name ≡ false
      → y.is_dir (name ∷ cwd) ≡ some true
      → y.enter (name ∷ cwd) ≡ none
      → y.scandir cwd ≡ some namelist
      → reverse namelist ≡ name ∷ rest
      → print_file y fuel ident name cwd ≡ unfinished
  unfolding print_file chdir
  print_file-unfinished zero ident name cwd namelist rest sp d e s n = refl
  print_file-unfinished (suc fuel) ident name cwd namelist rest sp d e s n =
      let inside : chdir y (name ∷ cwd) cwd ≡ cwd = rw (chdir, e) refl in
      rw
        (
          print_file,
          d,
          inside,
          s,
          inside,
          n,
          print_all-shown (print_file y fuel (ident + 1)) name rest cwd sp,
          print_file-unfinished fuel (ident + 1) name cwd namelist rest sp d e s n,
        )
        refl
