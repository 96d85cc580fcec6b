-- ===== src/Chat/Tests.antt =====
-- A layout of the message struct, and the theorems about the chatroom at concrete inputs.
mod Examples
mod Rooms
mod Threads
mod Turns
mod Answers
use aip_pkussm.Prelude.{
  ℕ, zero, suc, ◌+◌, ◌≤◌, ◌<◌, ◌≡◌, ◌≢◌, refl, true, Option, none, some, List, [], ◌∷◌, ◌++◌, ◌==◌,
  length, take, replicate, map, CString, codes, ℤ, pos, negsuc, arith, if◌then◌else◌, take-take,
  take-append_left, length-take, length-append, ◌∙◌, sym, append-nil,
}
use aip_pkussm.Net.{Io, ok, fault}
use aip_pkussm.Net.Loopback.{Wires, loopback, loopback-Delivers, loopback-Feeds, fed}
use aip_pkussm.Host.{Disk, Host}
use aip_pkussm.Chat.{
  Command, put, get, ls, cd, error, quit, conn, waitmsg, sendmsg, Ptr, null, block, wild, Message,
  Layout, IsSendable, carried,
}
use aip_pkussm.Chat.Users.{User, Cmsg, ControlMsg, conn_handler, fresh_users, no_user}
use aip_pkussm.Chat.Users.Table.{fd_of, conn_handler-updates}
use aip_pkussm.Chat.Pipe.{put_bytes, read_message}
use aip_pkussm.Chat.Pipe.Lock.{
  Pipe, Pc, init, Reach, Step, here, critical, opening, holding, spinning, idle,
}
use aip_pkussm.Chat.Pipe.Lock.Exclusion.{mutual_exclusion, failed_open_breaks_exclusion}
use aip_pkussm.Chat.Pipe.Lock.Deadlock.{IsStuck, stuck_for_ever, stuck_is_reachable}
use aip_pkussm.Chat.Dispatch.{Send, dispatch}
use aip_pkussm.Chat.Dispatch.Delivery.{dispatch-all, dispatch-dropped}
use aip_pkussm.Chat.Client.{
  Me, text_message, conn_message, comm_conn, comm_sendmsg, comm_waitmsg, up_to_nul,
}
use aip_pkussm.Chat.Server.{Leftover, Process, number, registered, handle_msg, parse_msg}
use aip_pkussm.Chat.Server.Parse.{parse_msg-short}
use aip_pkussm.Chat.Session.{turn, user_entered}

decode : ℕ → Command
decode zero = put
decode (suc zero) = get
decode (suc (suc zero)) = ls
decode (suc (suc (suc zero))) = cd
decode (suc (suc (suc (suc zero)))) = error
decode (suc (suc (suc (suc (suc zero))))) = quit
decode (suc (suc (suc (suc (suc (suc zero)))))) = conn
decode (suc (suc (suc (suc (suc (suc (suc zero))))))) = waitmsg
decode _ = sendmsg

decode-number : (c : Command) → decode (number c) ≡ c
unfolding decode
decode-number put = refl
decode-number _ = refl

abbrev padded : CString → List ℕ
padded name = take 32 (name ++ replicate 32 0)

sized : ℤ → List ℕ → List ℕ
sized (pos n) rest = 0 ∷ n ∷ rest
sized (negsuc n) rest = 1 ∷ n ∷ rest

unsized : ℕ → ℕ → ℤ
unsized zero n = pos n
unsized (suc _) n = negsuc n

address : Ptr → ℕ
address null = 0
address (block b) = 1
address wild = 1

pointer : ℕ → Ptr
pointer zero = null
pointer (suc n) = wild

store_message : Message → List ℕ
unfolding sized address
store_message m =
    number m.command
    ∷ length m.fname
    ∷ m.from
    ∷ m.to
    ∷ address m.data_ptr
    ∷ sized m.data_size (padded m.fname)

load_message : List ℕ → Message
unfolding decode unsized pointer
load_message (c ∷ l ∷ from ∷ to ∷ ptr ∷ sign ∷ n ∷ name) = record {
  command = decode c;
  fname = take l name;
  data_size = unsized sign n;
  data_ptr = pointer ptr;
  from = from;
  to = to;
}
load_message _ = record {
  command = error;
  fname = [];
  data_size = pos 0;
  data_ptr = null;
  from = 0;
  to = 0;
}

length-padded : (name : CString) → length (padded name) ≡ 32
length-padded name =
    omega (arith, length-take 32 (name ++ replicate 32 0), length-append name (replicate 32 0))

take-padded : (name : CString) → length name < 32 → take (length name) (padded name) ≡ name
take-padded name h =
    take-take (length name) 32 (name ++ replicate 32 0) (omega arith)
    ∙ take-append_left (length name) name (replicate 32 0) refl

length-sized : (z : ℤ) (rest : List ℕ) → length (sized z rest) ≡ length rest + 2
unfolding sized
length-sized (pos n) rest = omega arith
length-sized (negsuc n) rest = omega arith

pointer-address : (p : Ptr) → pointer (address p) ≡ carried p
unfolding pointer address
pointer-address null = refl
pointer-address (block b) = refl
pointer-address wild = refl

load-sized :
    (c : Command) (name : CString) (from to : ℕ) (p : Ptr) (z : ℤ)
    → length name < 32
    → load_message (number c ∷ length name ∷ from ∷ to ∷ address p ∷ sized z (padded name))
      ≡ record {
        command = c;
        fname = name;
        data_size = z;
        data_ptr = carried p;
        from = from;
        to = to;
      }
unfolding load_message sized
load-sized c name from to p (pos n) h = rw (decode-number, take-padded name h, pointer-address) refl
load-sized c name from to p (negsuc n) h =
    rw (decode-number, take-padded name h, pointer-address) refl

length-store_message : (m : Message) → length (store_message m) ≡ 39
unfolding store_message
length-store_message m =
    omega (arith, length-sized m.data_size (padded m.fname), length-padded m.fname)

load-store_message :
    (m : Message)
    → IsSendable m
    → load_message (store_message m) ≡ record m { data_ptr = carried m.data_ptr }
unfolding store_message
load-store_message m h = load-sized m.command m.fname m.from m.to m.data_ptr m.data_size h.name_fits

abbrev layout : Layout
layout = record {
  message_len = 39;
  bytes = store_message;
  parse = load_message;
  nonempty = omega arith;
  length-bytes = length-store_message;
  parse-bytes = load-store_message;
}

abbrev disk : Disk
disk = record {
  Files = List CString;
  open_read = λ f name. none;
  create = λ f name. some f;
  write = λ f name buff. name ∷ f;
}

abbrev headers : Cmsg
headers = record { len_of_int = 20; sol_socket = 1; scm_rights = 1 }

abbrev blank : ControlMsg
blank = record { cmsg_len = 0; cmsg_level = 0; cmsg_type = 0; fd = pos 0 }

abbrev left : Leftover
left = record {
  junk = λ round i. 0;
  stack = blank;
  resp_msg = record {
    command = put;
    fname = [];
    data_size = pos 0;
    data_ptr = wild;
    from = 3;
    to = 0;
  };
}

abbrev jack : Me
jack = record { my_name = codes "jack"; my_id = 1 }

abbrev hi : CString
hi = codes "Hi there!"

-- User 2 is connected by descriptor 7.
abbrev some_users : List User
some_users = no_user ∷ no_user ∷ record no_user { id = 2; connfd = pos 7 } ∷ []

abbrev server_of : List ℕ → Process loopback disk
server_of input = record {
  host = record { link = fed input; files = [] };
  users = some_users;
  fifo = [];
  reader = true;
}

abbrev hi_message : Message
hi_message = text_message jack 2 hi

abbrev hi_bytes : List ℕ
hi_bytes = layout.bytes hi_message ++ hi

hi_fits : IsSendable hi_message
hi_fits = omega arith
