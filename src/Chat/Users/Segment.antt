-- ===== src/Chat/Users/Segment.antt =====
-- The constructor of A5/Chatroom/src/MessageSharedMemory.cc, and how `putMessage`, `getMessage` and
-- their caller `conn_handler` come to the segment of shared memory, failures included. The lock is in
-- Chat/Users/Race.
use aip_pkussm.Prelude.{
  ◌≡◌, ◌≢◌, Bool, true, false, ◌&&◌, Option, none, some, List, get_elem?, set, take, CString, ℤ,
  pos, negsuc, zero, suc, if◌then◌else◌, arith, Option-cases, inl, inr,
}
use aip_pkussm.Chat.{Message}
use aip_pkussm.Chat.Users
use aip_pkussm.Chat.Users.{User, Cmsg, ControlMsg, max_user_name_len, get_users, put_users}

-- What the kernel answers: the key for a file, the segment of a key with the flags of `putMessage`
-- and of `getMessage`, and whether the segment of an identifier can be attached.
pub record Shm : Type 0 where
  pub ftok : CString → ℤ
  pub shmget_put : ℤ → ℤ
  pub shmget_get : ℤ → ℤ
  pub shmat : ℤ → Bool

-- The constructor: the key, and whether it reports an error of `ftok`, which it does for every key
-- but 0.
unfoldable pub make : Shm → CString → ℤ × Bool
make shm ipc_name = elim (shm.ftok ipc_name) [
  | pos zero ↦ (pos zero, false)
  | pos (suc n) ↦ (pos (suc n), true)
  | negsuc n ↦ (negsuc n, true)
]

-- Behind a `shmat` that failed, the code goes on with the address -1: `none`.
abbrev pub attached : Shm → ℤ → List User → Option (List User)
attached shm shmid users = if shm.shmat shmid then some users else none

module _ (c : Cmsg) (shm : Shm) (key : ℤ) where
  unfoldable pub get_table : ControlMsg → List User → Option (List User)
  get_table stack users = elim (attached shm (shm.shmget_get key) users) [
    | none ↦ none
    | some temp_msg ↦ some (get_users c stack temp_msg)
  ]

  -- `msg` is the segment itself.
  unfoldable pub put_table : List User → Option (List User)
  put_table msg = elim (attached shm (shm.shmget_put key) msg) [
    | none ↦ none
    | some temp_msg ↦ some (put_users c temp_msg)
  ]

  unfoldable pub conn_handler : ControlMsg → Message → ℤ → List User → Option (List User)
  unfolding get_table put_table
  conn_handler stack msg connfd users = elim (get_table stack users) [
    | none ↦ none
    | some temp_list ↦ elim (get_elem? temp_list msg.from) [
      | none ↦ none
      | some u ↦
          let entry : User = record u {
            id = msg.from;
            connfd = connfd;
            name = take max_user_name_len msg.fname;
          } in
          put_table (set temp_list msg.from entry)
    ]
  ]

  -- `conn_handler` is what Chat/Users has of it where both calls of `shmat` succeed, and crashes
  -- where one of them fails, as its failure is only reported.
  conn_handler-segment :
      (stack : ControlMsg) (msg : Message) (connfd : ℤ) (users : List User)
      → conn_handler stack msg connfd users ≡ (
          if shm.shmat (shm.shmget_get key) && shm.shmat (shm.shmget_put key)
          then Users.conn_handler c stack msg connfd users
          else none)
  unfolding conn_handler Users.conn_handler
  conn_handler-segment stack msg connfd users =
      elim (Option-cases (get_elem? (get_users c stack users) msg.from)) [
        | inl e ↦ ground (arith, e)
        | inr (u, e) ↦ ground (arith, e)
      ]

-- The constructor reports an error whenever `ftok` succeeds with a key other than 0.
make_reports :
    (shm : Shm) (ipc_name : CString) → shm.ftok ipc_name ≢ pos 0 → (make shm ipc_name).1 ≡ true
unfolding make
make_reports shm ipc_name h = ground arith
