-- ===== src/Chat/Room.antt =====
-- The chatroom's server as a whole: `clithread` of A5/Chatroom/src/Server.cc for each of many clients,
-- and `loop_dispatch` of Handlers.cc, in any order. A turn of a thread and a turn of the dispatcher
-- are one step each; the pipe's lock, which makes them so, is in Chat/Pipe/Lock. A thread puts while
-- the dispatcher has the FIFO open: its `open` waits for that, and a write after the dispatcher has
-- closed the FIFO ends the server, so that no step follows. No `open` fails.
pub mod Order
pub mod Runs
use aip_pkussm.Prelude.{update, Bool, ℕ, ◌≡◌, true, some, List, ◌++◌, ℤ}
use aip_pkussm.Net.{Socket, ok}
use aip_pkussm.Host.{Disk}
use aip_pkussm.Chat.{Layout}
use aip_pkussm.Chat.Users.{User, Cmsg}
use aip_pkussm.Chat.Dispatch.{Send, loop_dispatch}
use aip_pkussm.Chat.Server.{Leftover, Process, registered, clithread}

module _ (k : Socket) (d : Disk) (w : Layout) (c : Cmsg) (left : Leftover) (connfds : ℕ → ℤ) where
  -- The connections of the threads, what the threads share, and what the dispatcher has sent.
  pub record Server : Type 0 where
    pub links : ℕ → k.State
    pub files : d.Files
    pub users : List User
    pub fifo : List ℕ
    pub sends : List Send

  -- What the thread `i` works on.
  abbrev pub process_of : Server → ℕ → Process k d
  process_of s i = record {
    host = record { link = s.links i; files = s.files };
    users = s.users;
    fifo = s.fifo;
    reader = true;
  }

  abbrev pub worked : Server → ℕ → Process k d → Server
  worked s i q = record s {
    links = update s.links i q.host.link;
    files = q.host.files;
    users = q.users;
    fifo = q.fifo;
  }

  pub data Step (s : Server) : Server → Type 0 where
    -- A thread reads a message and handles it, and would wait for another one.
    handles :
        (i : ℕ) (q : Process k d)
        → clithread k d w c left registered (connfds i) 1 (process_of s i) ≡ ok true q
        → Step s (worked s i q)
    -- The dispatcher takes a message from the pipe, if one is there, closes the pipe, and sends the
    -- message. Where no thread has the pipe open then (`held`), the messages behind it are discarded.
    dispatches :
        (held : Bool) (sends : List Send) (fifo : List ℕ) (users : List User)
        → loop_dispatch c left.stack w (λ n. held) 1 s.fifo s.users ≡ some (sends, fifo, users)
        → Step s (record s { users = users; fifo = fifo; sends = s.sends ++ sends })

  pub data Reach (s : Server) : Server → Type 0 where
    here : Reach s s
    next : {t u : Server} → Reach s t → Step t u → Reach s u
