-- ===== src/Chat/Users/Race.antt =====
-- `conn_handler` of A5/Chatroom/src/Handlers.cc by several threads at once. Its writes to the table
-- stand outside of the lock of A5/Chatroom/src/MessageSharedMemory.cc, and `putMessage` copies the
-- segment onto itself, entry by entry here. Each access to the lock or to an entry is one step.
pub mod Alone
pub mod Lost
use aip_pkussm.Prelude.{
  update, ℕ, zero, suc, ◌+◌, ◌≡◌, Bool, true, false, some, List, [], ◌∷◌, length, get_elem?, set,
  take, CString, ℤ,
}
use aip_pkussm.Chat.Users.{User, Cmsg, ControlMsg, max_user_name_len, get_users, put_users}

-- What a thread enters: the members of its message, and its connection.
pub record Job : Type 0 where
  pub id : ℕ
  pub connfd : ℤ
  pub name : CString

-- Where a thread stands in `conn_handler` and, from `copying` on, in `putMessage`.
pub data Pc : Type 0 where
  before attached wrote_id wrote_connfd wrote_name : Pc
  copying : (entry : ℕ) → Pc
  storing : (entry : ℕ) → User → Pc  -- an entry that `memcpy` has read and not written
  done : Pc

pub record Table : Type 0 where
  pub users : List User
  pub lock : Bool
  pub pc : ℕ → Pc

-- A write to a member of an entry.
unfoldable pub modify : List User → ℕ → (User → User) → List User
modify [] i f = []
modify (u ∷ users) zero f = f u ∷ users
modify (u ∷ users) (suc i) f = u ∷ modify users i f

module _ (c : Cmsg) (stack : ControlMsg) (job : ℕ → Job) where
  abbrev pub moved : Table → ℕ → Pc → List User → Table
  moved s i p users = record s { users = users; pc = update s.pc i p }

  -- One step of thread `i`.
  pub data Step (s : Table) : Table → Type 0 where
    attach :
        (i : ℕ)
        → s.pc i ≡ before
        → s.lock ≡ false
        → Step s (moved s i attached (get_users c stack s.users))
    set_id :
        (i : ℕ)
        → s.pc i ≡ attached
        → Step s
            (moved s i wrote_id (modify s.users (job i).id (λ u. record u { id = (job i).id })))
    set_connfd :
        (i : ℕ)
        → s.pc i ≡ wrote_id
        → Step s (
            moved s i wrote_connfd
              (modify s.users (job i).id (λ u. record u { connfd = (job i).connfd })))
    set_name :
        (i : ℕ)
        → s.pc i ≡ wrote_connfd
        → Step s (
            moved s i wrote_name (
              modify s.users
                (job i).id
                (λ u. record u { name = take max_user_name_len (job i).name })))
    acquire :
        (i : ℕ)
        → s.pc i ≡ wrote_name
        → s.lock ≡ false
        → Step s
            (record s { users = put_users c s.users; lock = true; pc = update s.pc i (copying 0) })
    load :
        (i j : ℕ) (u : User)
        → s.pc i ≡ copying j
        → get_elem? s.users j ≡ some u
        → Step s (moved s i (storing j u) s.users)
    store :
        (i j : ℕ) (u : User)
        → s.pc i ≡ storing j u
        → Step s (moved s i (copying (suc j)) (set s.users j u))
    release :
        (i : ℕ)
        → s.pc i ≡ copying (length s.users)
        → Step s (record s { lock = false; pc = update s.pc i done })

  pub data Reach (s : Table) : Table → Type 0 where
    here : Reach s s
    next : {t u : Table} → Reach s t → Step t u → Reach s u
