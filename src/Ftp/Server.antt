-- ===== src/Ftp/Server.antt =====
-- A3/FileServer.cc: the handler map and the thread of a client.
use aip_pkussm.Prelude.{
  ℕ, zero, suc, Bool, true, false, Option, none, some, List, [], ◌∷◌, ◌==◌, if◌then◌else◌, ℤ,
  negsuc, pos,
}
use aip_pkussm.Net.{Socket, ok, fault, Exec, pure, ◌>>=◌}
use aip_pkussm.Host.{Disk, Host}
use aip_pkussm.Ftp.{Command, Message, Layout, put, get, ls, cd, error, quit, connect}
use aip_pkussm.Ftp.Handlers

-- The functions that the map points to.
pub data Handler : Type 0 where
  get_handler put_handler : Handler

-- The numbers of the enumeration, by which `map<Command, HDLR_FP*>` compares its keys.
abbrev pub number : Command → ℕ
number put = 0
number get = 1
number ls = 2
number cd = 3
number error = 4
number quit = 5
number connect = 6

-- `hdlr_map`; the map's `[]` answers a null pointer for a key without a handler.
abbrev pub HandlerMap : Type 0
HandlerMap = Command → Option Handler

unfoldable pub add_handler : Command → Handler → HandlerMap → HandlerMap
add_handler cmd handler m c = if number c == number cmd then some handler else m c

-- What `main` registers.
unfoldable pub registered : HandlerMap
unfolding add_handler
registered = add_handler put Handler.put_handler (add_handler get Handler.get_handler (λ c. none))

module _ (k : Socket) (d : Disk) (w : Layout) where
  -- A call of a null pointer is a fault. `stale` is the memory that `put_handler` reads unset.
  unfoldable pub handle_msg : HandlerMap → ℤ → Message → Exec (Host k d) ℤ
  handle_msg hdlr_map stale msg h = elim (hdlr_map msg.command) [
    | none ↦ fault
    | some get_handler ↦ Handlers.get_handler k d w msg h
    | some put_handler ↦ Handlers.put_handler k d w stale msg h
  ]

  -- `recv` of a message, with `none` where `number_bytes <= 0`.
  unfoldable pub recv_command : Exec (Host k d) (Option (List ℕ))
  recv_command h =
      let (r, s) = k.recv h.link w.message_len in
      let next : Host k d = record h { link = s } in
      elim r [
        | none ↦ ok none next
        | some [] ↦ ok none next
        | some (b ∷ bytes) ↦ ok (some (b ∷ bytes)) next
      ]

  abbrev pub is_minus_one : ℤ → Bool
  is_minus_one (pos n) = false
  is_minus_one (negsuc n) = n == 0

  -- `clithread` for at most `rounds` messages: true if it would wait for another one, false if
  -- the thread has closed its connection.
  unfoldable pub clithread : HandlerMap → ℤ → ℕ → Exec (Host k d) Bool
  unfolding handle_msg recv_command
  clithread hdlr_map stale zero = pure true
  clithread hdlr_map stale (suc rounds) = recv_command >>= elim [
    | none ↦ pure false
    | some bytes ↦ handle_msg hdlr_map stale (w.parse bytes) >>= λ ret. elim (is_minus_one ret) [
      | true ↦ pure false
      | false ↦ clithread hdlr_map stale rounds
    ]
  ]
