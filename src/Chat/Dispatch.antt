-- ===== src/Chat/Dispatch.antt =====
-- `loop_dispatch` of A5/Chatroom/src/Handlers.cc.
pub mod Delivery
use aip_pkussm.Prelude.{
  ℕ, zero, suc, true, false, Bool, ◌==◌, ◌&&◌, Option, none, some, List, [], ◌∷◌, ◌++◌, map,
  get_elem?, ℤ, to_size, if◌then◌else◌,
}
use aip_pkussm.Chat.{Message, Layout, copy_from}
use aip_pkussm.Chat.Users.{User, Cmsg, ControlMsg, get_users}
use aip_pkussm.Chat.Pipe.{get_message}

-- A call `send (connfd, buff, buff_len, 0)`, whose result is not looked at.
pub record Send : Type 0 where
  pub connfd : ℤ
  pub buff : List ℕ

-- `IS_BROADCAST (id)`, that is `id?false:true`
abbrev pub is_broadcast : ℕ → Bool
is_broadcast id = id == 0

-- One turn of the loop, with the message from the pipe and the table from shared memory: the calls
-- of `send` that it makes, or `none` for an access out of range.
unfoldable pub dispatch : Layout → Message → List User → Option (List Send)
dispatch w msg clilist =
    if msg.to == 0 && msg.from == 0
    then some []
    else elim (copy_from msg.data_ptr (to_size msg.data_size)) [
      | none ↦ none
      | some body ↦
          let buff = w.bytes msg ++ body in
          if is_broadcast msg.to
          then some (map (λ (u : User). record { connfd = u.connfd; buff = buff }) clilist)
          else elim (get_elem? clilist msg.to) [
            | none ↦ none
            | some u ↦ some (record { connfd = u.connfd; buff = buff } ∷ [])
          ]
    ]

-- The loop itself for at most `rounds` messages: what it sends, the bytes that are left in the
-- FIFO and the table. It waits where the FIFO holds no whole message. `held` says, by the rounds that
-- are left, whether a thread that puts has the FIFO open when it is closed here; `stack` is the
-- memory that `getMessage` of the table reads unset.
unfoldable pub loop_dispatch :
    Cmsg
    → ControlMsg
    → Layout
    → (ℕ → Bool)
    → ℕ
    → List ℕ
    → List User
    → Option (List Send × List ℕ × List User)
unfolding dispatch get_message
loop_dispatch c stack w held zero fifo users = some ([], fifo, users)
loop_dispatch c stack w held (suc rounds) fifo users = elim (get_message w (held rounds) fifo) [
  | none ↦ some ([], fifo, users)
  | some (msg, rest) ↦ elim (msg.to == 0 && msg.from == 0) [
    | true ↦ loop_dispatch c stack w held rounds rest users
    | false ↦
        let clilist = get_users c stack users in
        elim (dispatch w msg clilist) [
          | none ↦ none
          | some sends ↦ elim (loop_dispatch c stack w held rounds rest clilist) [
            | none ↦ none
            | some (more, later, last) ↦ some (sends ++ more, later, last)
          ]
        ]
  ]
]
