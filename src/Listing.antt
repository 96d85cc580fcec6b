-- ===== src/Listing.antt =====
-- The listing of A2/ls_l.c. What `stat`, `ctime`, `getpwuid`, `getgrgid` and `sprintf` answer is a
-- parameter.
pub mod Permissions
pub mod Lines
mod Tests
use aip_pkussm.Prelude.{
  ℕ, zero, suc, ◌+◌, ◌-◌, ◌/◌, ◌%◌, ◌^◌, Bool, true, false, ◌&&◌, ◌||◌, Option, none, some, List,
  [], ◌∷◌, ◌++◌, ◌==◌, CString, codes, str_eq, if◌then◌else◌, length, take, get_elem?,
}

-- Whether a bit of the mode is set.
unfoldable pub bit : ℕ → ℕ → Bool
bit mode k = mode / 2 ^ k % 2 == 1

-- A mask as the list of its bits.
abbrev pub Mask : Type 0
Mask = List ℕ

unfoldable pub contains : Mask → ℕ → Bool
contains [] k = false
contains (b ∷ mask) k = (b == k) || contains mask k

-- `(mode & mask) & (1 << k)`
unfoldable pub test : ℕ → Mask → ℕ → Bool
test mode mask k = contains mask k && bit mode k

abbrev pub s_irusr : ℕ
s_irusr = 8

abbrev pub s_iwusr : ℕ
s_iwusr = 7

abbrev pub s_ixusr : ℕ
s_ixusr = 6

abbrev pub s_irgrp : ℕ
s_irgrp = 5

abbrev pub s_iroth : ℕ
s_iroth = 2

abbrev pub s_iwoth : ℕ
s_iwoth = 1

abbrev pub s_ixoth : ℕ
s_ixoth = 0

abbrev pub s_irwxu : Mask
s_irwxu = 8 ∷ 7 ∷ 6 ∷ []

abbrev pub s_irwxg : Mask
s_irwxg = 5 ∷ 4 ∷ 3 ∷ []

-- A character of the string "rwxrwxrwx", or the dash that is put in its place.
unfoldable pub letter : Bool → ℕ → ℕ
letter keep c = if keep then c else 45

-- The nine characters; the NUL that `strcpy` writes behind them lies outside of the allocation.
unfoldable pub perm_str : ℕ → CString
perm_str mode =
    letter (test mode s_irwxu s_irusr) 114
    ∷ letter (test mode s_irwxu s_iwusr) 119
    ∷ letter (test mode s_irwxu s_ixusr) 120
    ∷ letter (test mode s_irwxg s_irgrp) 114
    ∷ letter (test mode s_irwxg s_irgrp) 119
    ∷ letter (test mode s_irwxg s_irgrp) 120
    ∷ letter (test mode (s_iroth ∷ []) s_iroth) 114
    ∷ letter (test mode (s_iroth ∷ []) s_iwoth) 119
    ∷ letter (test mode (s_iroth ∷ []) s_ixoth) 120
    ∷ []

-- What the code takes from `struct stat`, with `file_type` for `st_mode & S_IFMT` and `mtime` for
-- the text that `ctime` makes of `st_mtime`.
pub data FileType : Type 0 where
  blk chr dir fifo lnk reg sock other : FileType

pub record Stat : Type 0 where
  pub mode : ℕ
  pub file_type : FileType
  pub nlink : ℕ
  pub uid : ℕ
  pub gid : ℕ
  pub size : ℕ
  pub mtime : CString

abbrev pub type_letter : FileType → CString
type_letter blk = codes "b"
type_letter chr = codes "c"
type_letter dir = codes "d"
type_letter fifo = codes "p"
type_letter lnk = codes "l"
type_letter reg = codes "-"
type_letter sock = codes "s"
type_letter other = codes "?"

-- `mtime[end - 2] = '\0'`: `none` for a write in front of the array.
unfoldable pub cut_mtime : CString → Option CString
cut_mtime mtime = elim (length mtime) [
  | zero ↦ none
  | suc zero ↦ none
  | suc (suc end) ↦ some (take end mtime)
]

-- The system around the program.
pub record System : Type 0 where
  pub stat : CString → Option Stat
  pub getpwuid : ℕ → Option CString
  pub getgrgid : ℕ → Option CString
  pub decimal : ℕ → CString
  pub current_dir : CString

-- The values that `printf` gets.
pub record Line : Type 0 where
  pub letter_of : CString
  pub perm : CString
  pub nlink : ℕ
  pub usr_name : CString
  pub usr_group_name : CString
  pub size : ℕ
  pub mtime : CString
  pub name : CString

-- What `info_file` does.
pub data Outcome : Type 0 where
  skipped : Outcome
  exited : Outcome
  crashed : Outcome
  printed : Line → Outcome

module _ (y : System) where
  unfoldable pub uid_to_name : ℕ → CString
  uid_to_name uid = elim (y.getpwuid uid) [ none ↦ y.decimal uid | some name ↦ name ]

  unfoldable pub gid_to_name : ℕ → CString
  gid_to_name gid = elim (y.getgrgid gid) [ none ↦ y.decimal gid | some name ↦ name ]

  unfoldable pub get_path : CString → CString
  get_path name = (y.current_dir ++ codes "/") ++ name

  unfoldable pub info_file : CString → Outcome
  unfolding uid_to_name gid_to_name get_path
  info_file name =
      if str_eq name (codes ".") || str_eq name (codes "..")
      then skipped
      else elim (y.stat (get_path name)) [
        | none ↦ exited
        | some sb ↦ elim (cut_mtime sb.mtime) [
          | none ↦ crashed
          | some mtime ↦ printed (record {
            letter_of = type_letter sb.file_type;
            perm = perm_str sb.mode;
            nlink = sb.nlink;
            usr_name = uid_to_name sb.uid;
            usr_group_name = gid_to_name sb.gid;
            size = sb.size;
            mtime = mtime;
            name = name;
          })
        ]
      ]

  -- `while (n--)` of `main`: the lines, and whether the loop came to its end.
  unfoldable pub list_down : List CString → ℕ → List Line × Bool
  unfolding info_file
  list_down namelist zero = ([], true)
  list_down namelist (suc n) =
      let (lines, done) = list_down namelist n in
      elim (get_elem? namelist n) [
        | none ↦ ([], false)
        | some name ↦ elim (info_file name) [
          | skipped ↦ (lines, done)
          | exited ↦ ([], false)
          | crashed ↦ ([], false)
          | printed line ↦ (line ∷ lines, done)
        ]
      ]

  -- `main`, with the arguments behind `argv[0]` and the names of the working directory in the order
  -- of `alphasort`, if they can be read: `none` where the usage is printed.
  unfoldable pub main : Option (List CString) → List CString → Option (List Line × Bool)
  unfolding list_down
  main names (option ∷ []) =
      if str_eq (codes "-l") option
      then (elim names [
        | none ↦ some ([], true)
        | some namelist ↦ some (list_down namelist (length namelist))
      ])
      else none
  main names args = none
