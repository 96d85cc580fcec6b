-- ===== src/Chat/Users.antt =====
-- The table of users in shared memory: A5/Chatroom/include/User.h, the parts of
-- A5/Chatroom/src/MessageSharedMemory.cc that move it, and `conn_handler` of Handlers.cc.
-- The segment is attached here wherever it is asked for; Chat/Users/Segment has the failures of
-- `shmget` and `shmat`.
pub mod Table
pub mod Race
pub mod Segment
use aip_pkussm.Prelude.{
  ℕ, ◌==◌, Option, none, some, List, [], ◌∷◌, get_elem?, set, take, replicate, CString, ℤ, pos,
  negsuc, is_le_zero, if◌then◌else◌,
}
use aip_pkussm.Chat.{Message}

abbrev pub max_user_num : ℕ
max_user_num = 32

abbrev pub max_user_name_len : ℕ
max_user_name_len = 16

-- A control message as `CMSG_LEN`, `SOL_SOCKET` and `SCM_RIGHTS` would have it, with the
-- descriptor in its data.
pub record ControlMsg : Type 0 where
  pub cmsg_len : ℕ
  pub cmsg_level : ℕ
  pub cmsg_type : ℕ
  pub fd : ℤ

-- `struct msghdr`, as far as the code sets it.
pub record MsgHdr : Type 0 where
  pub msg_control : ControlMsg
  pub msg_iovlen : ℕ

pub record User : Type 0 where
  pub id : ℕ
  pub connfd : ℤ
  pub name : CString
  pub fdhdr : MsgHdr

-- The constants of the socket headers.
pub record Cmsg : Type 0 where
  pub len_of_int : ℕ  -- CMSG_LEN (sizeof (int))
  pub sol_socket : ℕ
  pub scm_rights : ℕ

module _ (c : Cmsg) where
  unfoldable pub write_fd : ℤ → MsgHdr
  write_fd sendfd = record {
    msg_control = record {
      cmsg_len = c.len_of_int;
      cmsg_level = c.sol_socket;
      cmsg_type = c.scm_rights;
      fd = sendfd;
    };
    msg_iovlen = 1;
  }

  -- `msg_control` is pointed at a local block that nothing sets before it is read: `stack` is what
  -- that memory holds. The tests of level and type only print.
  unfoldable pub read_fd : ControlMsg → MsgHdr → ℤ
  read_fd stack fdhdr = if stack.cmsg_len == c.len_of_int then stack.fd else negsuc 0

  -- `getMessage`: the segment itself, after the descriptor of its first entry was set.
  unfoldable pub get_users : ControlMsg → List User → List User
  unfolding read_fd
  get_users stack [] = []
  get_users stack (u ∷ users) =
      let connfd = read_fd stack u.fdhdr in
      if is_le_zero connfd then u ∷ users else record u { connfd = connfd } ∷ users

  -- `putMessage`: `memcpy` copies the segment onto itself.
  unfoldable pub put_users : List User → List User
  unfolding write_fd
  put_users [] = []
  put_users (u ∷ users) = record u { fdhdr = write_fd u.connfd } ∷ users

  -- `conn_handler`: an index outside of the table is a fault, `none`.
  unfoldable pub conn_handler : ControlMsg → Message → ℤ → List User → Option (List User)
  unfolding get_users put_users
  conn_handler stack msg connfd users =
      let temp_list = get_users stack users in
      elim (get_elem? temp_list msg.from) [
        | none ↦ none
        | some u ↦
            let entry : User = record u {
              id = msg.from;
              connfd = connfd;
              name = take max_user_name_len msg.fname;
            } in
            some (put_users (set temp_list msg.from entry))
      ]

-- The segment as the kernel hands it out: all bytes zero.
abbrev pub no_user : User
no_user = record {
  id = 0;
  connfd = pos 0;
  name = [];
  fdhdr = record {
    msg_control = record { cmsg_len = 0; cmsg_level = 0; cmsg_type = 0; fd = pos 0 };
    msg_iovlen = 0;
  };
}

abbrev pub fresh_users : List User
fresh_users = replicate max_user_num no_user
