-- ===== src/Chat/Server.antt =====
-- A5/Chatroom/src/Server.cc and the handlers of Handlers.cc: parsing, dispatch by command, and the
-- thread of a client. `listen` and the argument loop are those of `Listener`.
pub mod Parse
pub mod Handling
use aip_pkussm.Prelude.{
  ◌+◌, ℕ, zero, suc, Bool, true, false, Option, none, some, List, [], ◌∷◌, ◌++◌, ◌==◌, map,
  if◌then◌else◌, CString, ℤ, pos, negsuc, rounds, div_int, rem_int, to_size, is_le_zero,
}
use aip_pkussm.Net.{Socket, ok, failed, fault, Exec, pure, access, ◌>>=◌, ◌>>◌}
use aip_pkussm.Transfer as Blocks
use aip_pkussm.Transfer.{Buffer, malloc, recv_blocks, recv_rest}
use aip_pkussm.Host
use aip_pkussm.Host.{Disk, Host, catch, refuse, serve_file}
use aip_pkussm.Chat.{
  Command, Message, Ptr, null, block, Layout, get, put, ls, cd, error, quit, conn, waitmsg, sendmsg,
  copy_from,
}
use aip_pkussm.Chat.Header.{recv_header}
use aip_pkussm.Chat.Users
use aip_pkussm.Chat.Users.{User, Cmsg, ControlMsg}
use aip_pkussm.Chat.Pipe.{put_message}

-- What the memory holds that the code reads without having set it: the bytes of the buffer that
-- `malloc` returns in the round of a thread with so many rounds left, the control block in
-- `read_fd`, and the struct in which a handler answers.
pub record Leftover : Type 0 where
  pub junk : ℕ → ℕ → ℕ
  pub stack : ControlMsg
  pub resp_msg : Message

-- What is read from the cells of a buffer, from its cell `i` on.
unfoldable pub values : (ℕ → ℕ) → ℕ → Buffer → List ℕ
values junk i [] = []
values junk i (none ∷ cells) = junk i ∷ values junk (i + 1) cells
values junk i (some b ∷ cells) = b ∷ values junk (i + 1) cells

-- `if (i == 0) { i = 1; }` before the rest is read.
abbrev pub at_least_one : ℕ → ℕ
at_least_one zero = 1
at_least_one (suc i) = suc i

module _ (k : Socket) (w : Layout) where
  -- The part of `parse_msg` behind the header.
  unfoldable pub parse_data : (ℕ → ℕ) → Message → Exec k.State Message
  unfolding values
  parse_data junk msg =
      if is_le_zero msg.data_size
      then pure (record msg { data_size = pos 0; data_ptr = null })
      else do
        (buff, i) ← recv_blocks k (malloc msg.data_size) 0 (rounds (div_int msg.data_size 512))
        full ← recv_rest k buff (at_least_one i) (to_size (rem_int msg.data_size 512))
        pure (record msg { data_ptr = block (values junk 0 full) })

  unfoldable pub parse_msg : (ℕ → ℕ) → Exec k.State Message
  parse_msg junk = do bytes ← recv_header k w; parse_data junk (w.parse bytes)

-- What the threads of the server share, with the connection of one of them.
pub record Process (k : Socket) (d : Disk) : Type 0 where
  pub host : Host k d
  pub users : List User  -- clilist_shm
  pub fifo : List ℕ  -- msg_strategy
  pub reader : Bool  -- whether the dispatcher has the FIFO open when a thread puts

-- The functions that `hdlr_map` points to.
pub data Handler : Type 0 where
  get_handler put_handler conn_handler sendmsg_handler : Handler

-- The numbers of the enumeration, by which `map<Command, HDLR_FP*>` compares its keys.
abbrev pub number : Command → ℕ
number put = 0
number get = 1
number ls = 2
number cd = 3
number error = 4
number quit = 5
number conn = 6
number waitmsg = 7
number sendmsg = 8

abbrev pub HandlerMap : Type 0
HandlerMap = Command → Option Handler

unfoldable pub add_handler : Command → Handler → HandlerMap → HandlerMap
add_handler cmd handler m c = if number c == number cmd then some handler else m c

-- What `main` registers.
unfoldable pub registered : HandlerMap
unfolding add_handler
registered = add_handler sendmsg sendmsg_handler (
    add_handler conn conn_handler
      (add_handler put put_handler (add_handler get get_handler (λ c. none))))

-- The answers: `resp_msg` is what the memory of the local struct holds, of which the handlers set
-- the first three members.
abbrev pub open_error : Message → Message
open_error resp_msg = record resp_msg { command = error; fname = []; data_size = pos 16 }

abbrev pub create_error : Message → Message
create_error resp_msg = record resp_msg { command = error; fname = []; data_size = pos 18 }

abbrev pub answer_of : Message → CString → ℤ → Message
answer_of resp_msg name size = record resp_msg { command = get; fname = name; data_size = size }

module _ (k : Socket) (d : Disk) (w : Layout) (c : Cmsg) (left : Leftover) where
  abbrev pub on_host : {A : Type 0} → Exec (Host k d) A → Exec (Process k d) A
  on_host m p = elim (m p.host) [
    | ok a h ↦ ok a (record p { host = h })
    | failed h ↦ failed (record p { host = h })
    | fault ↦ fault
  ]

  unfoldable pub serve_get : Message → Exec (Host k d) ℤ
  serve_get msg =
      serve_file k d (λ name size. w.bytes (answer_of left.resp_msg name size))
        (w.bytes (open_error left.resp_msg)) msg.fname

  -- `put_handler` writes the data that `parse_msg` has read.
  unfoldable pub store_put : Message → Exec (Host k d) ℤ
  unfolding refuse
  store_put msg h = elim (d.create h.files msg.fname) [
    | none ↦ refuse k d (w.bytes (create_error left.resp_msg)) h
    | some files ↦
        (access (copy_from msg.data_ptr (to_size msg.data_size)) >>= λ bytes g.
        ok (pos 0) (record g { files = d.write g.files msg.fname (map some bytes) }))
          (record h { files = files })
  ]

  -- A write without a reader ends the server by SIGPIPE; like an access out of range it is a fault.
  unfoldable pub sendmsg_handle : Message → Exec (Process k d) ℤ
  unfolding put_message
  sendmsg_handle msg p = elim (put_message w p.reader msg p.fifo) [
    | none ↦ fault
    | some fifo ↦ ok (pos 0) (record p { fifo = fifo })
  ]

  unfoldable pub conn_handle : ℤ → Message → Exec (Process k d) ℤ
  conn_handle connfd msg p = elim (Users.conn_handler c left.stack msg connfd p.users) [
    | none ↦ fault
    | some users ↦ ok (pos 0) (record p { users = users })
  ]

  -- A call of a null pointer is a fault.
  unfoldable pub handle_msg : HandlerMap → ℤ → Message → Exec (Process k d) ℤ
  handle_msg hdlr_map connfd msg p = elim (hdlr_map msg.command) [
    | none ↦ fault
    | some get_handler ↦ on_host (serve_get msg) p
    | some put_handler ↦ on_host (store_put msg) p
    | some conn_handler ↦ conn_handle connfd msg p
    | some sendmsg_handler ↦ sendmsg_handle msg p
  ]

  abbrev pub is_zero : ℤ → Bool
  is_zero (pos n) = n == 0
  is_zero (negsuc n) = false

  abbrev pub parse_next : ℕ → Exec (Process k d) Message
  parse_next more = on_host (Host.on_link (parse_msg k w (left.junk more)))

  -- `clithread` for at most `rounds` messages: true if it would wait for another one, false if the
  -- thread has closed its connection.
  unfoldable pub clithread : HandlerMap → ℤ → ℕ → Exec (Process k d) Bool
  unfolding handle_msg
  clithread hdlr_map connfd zero p = ok true p
  clithread hdlr_map connfd (suc more) p = elim (parse_next more p) [
    | failed q ↦ ok false q
    | fault ↦ fault
    | ok msg q ↦
        (handle_msg hdlr_map connfd msg >>= λ ret. elim (is_zero ret) [
          | true ↦ clithread hdlr_map connfd more
          | false ↦ pure false
        ])
          q
  ]
