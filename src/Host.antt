-- ===== src/Host.antt =====
-- Sending and fetching whole files, as A3/Handlers.cc, A3/FileClient.cc and their copies in
-- A5/Chatroom/src do it. The two programs differ in the message struct that goes ahead of a file,
-- so its bytes are arguments here. The file system is no part of the repository: `Disk` is a
-- parameter of every definition that opens a file.
pub mod Start
pub mod Serve
pub mod Fetch
use aip_pkussm.Prelude.{
  ℕ, Option, none, some, List, length, CString, ltb, if◌then◌else◌, ℤ, pos, negsuc, to_int,
}
use aip_pkussm.Net.{Socket, ok, failed, fault, Exec, pure, access, send, recv, ◌>>=◌, ◌>>◌}
use aip_pkussm.Transfer.{Buffer, send_data, recv_data}

-- `open_read` is `fopen (name, "r")` with the bytes that `fread` finds, `create` is
-- `fopen (name, "w+")`, and `write` is `fwrite` of a buffer into the file that was created.
pub record Disk : Type 1 where
  pub Files : Type 0
  pub open_read : Files → CString → Option (List ℕ)
  pub create : Files → CString → Option Files
  pub write : Files → CString → Buffer → Files

-- A process with one connection.
pub record Host (k : Socket) (d : Disk) : Type 0 where
  pub link : k.State
  pub files : d.Files

abbrev pub minus_one : ℤ
minus_one = negsuc 0

abbrev pub max_file_name_len : ℕ
max_file_name_len = 32

-- `strcpy` into a `char[MAX_FILE_NAME_LEN]`.
abbrev pub copy_name : CString → Option CString
copy_name name = if ltb (length name) max_file_name_len then some name else none

-- The error branches that return -1.
abbrev pub catch : {S : Type 0} → Exec S ℤ → Exec S ℤ
catch m s = elim (m s) [ ok a t ↦ ok a t | failed t ↦ ok minus_one t | fault ↦ fault ]

module _ {k : Socket} {d : Disk} where
  abbrev pub on_link : {A : Type 0} → Exec k.State A → Exec (Host k d) A
  on_link m h = elim (m h.link) [
    | ok a s ↦ ok a (record h { link = s })
    | failed s ↦ failed (record h { link = s })
    | fault ↦ fault
  ]

module _ (k : Socket) (d : Disk) where
  -- A reply whose `send` is not checked, before `return -1`.
  unfoldable pub refuse : List ℕ → Exec (Host k d) ℤ
  refuse reply = catch (do on_link (send k reply); pure minus_one)

  -- `get_handler`: `header` has the bytes of the answer's message, `sorry` those of the error.
  unfoldable pub serve_file : (CString → ℤ → List ℕ) → List ℕ → CString → Exec (Host k d) ℤ
  unfolding refuse
  serve_file header sorry name h = elim (d.open_read h.files name) [
    | none ↦ refuse sorry h
    | some file ↦
        catch
          (do
            copied ← access (copy_name name)
            on_link (send k (header copied (to_int (length file))))
            on_link (send_data k file (to_int (length file)))
            pure (pos 0))
          h
  ]

  -- The last lines of `comm_get`: `fwrite` through a NULL pointer where `fopen` failed.
  unfoldable pub save_file : CString → Buffer → Exec (Host k d) (Unit {0})
  save_file name buff h = elim (d.create h.files name) [
    | none ↦ fault
    | some files ↦ ok tt (record h { files = d.write files name buff })
  ]

  -- `comm_get`, whose failed calls exit: `parse` reads the name and the size out of the answer's
  -- message of `len` bytes.
  unfoldable pub get_file :
      (CString → List ℕ) → ℕ → (List ℕ → CString × ℤ) → CString → Exec (Host k d) (Unit {0})
  unfolding save_file
  get_file request len parse name = do
    copied ← access (copy_name name)
    on_link (send k (request copied))
    answer ← on_link (recv k len)
    let (their_name, size) = parse answer
    buff ← on_link (recv_data k size)
    save_file their_name buff

  -- `comm_put`: a failed `send` of the message exits, one of the data returns -1. `fread` goes
  -- through a NULL pointer where `fopen` failed. The size is that of `stat`, a `long`.
  unfoldable pub put_file : (CString → ℤ → List ℕ) → CString → Exec (Host k d) ℤ
  put_file header name h = elim (d.open_read h.files name) [
    | none ↦ fault
    | some file ↦
        (do
          copied ← access (copy_name name)
          on_link (send k (header copied (to_int (length file))))
          catch (do on_link (send_data k file (pos (length file))); pure (pos 0)))
          h
  ]
