-- ===== src/Chat/Texts.antt =====
-- Many texts in a row: the console of a client, the server's thread for it, and the dispatcher.
pub mod Served
pub mod Said
pub mod Ended
pub mod InTurn
pub mod Visit
use aip_pkussm.Prelude.{
  ℕ, zero, suc, ◌^◌, ◌<◌, ◌≤◌, ◌≡◌, ◌≢◌, refl, sym, ◌∙◌, ap, some, none, List, [], ◌∷◌, ◌++◌,
  append-nil, append_assoc, length, CString, ℤ, pos, to_size, arith, true, false, take-length, ◌==◌,
}
use aip_pkussm.Net.{Socket, ok, send, Feeds, Delivers, ◌>>=◌}
use aip_pkussm.Host.{Disk}
use aip_pkussm.Chat.{Message, Layout, block, IsSendable}
use aip_pkussm.Chat.Users.{User, Cmsg, ControlMsg}
use aip_pkussm.Chat.Users.Table.{IsStray, fd_of, get_users-stray}
use aip_pkussm.Chat.Pipe.{read_message}
use aip_pkussm.Chat.Pipe.Bytes.{read_message-text}
use aip_pkussm.Chat.Dispatch.{Send, dispatch, loop_dispatch}
use aip_pkussm.Chat.Dispatch.Delivery.{dispatch-one}
use aip_pkussm.Chat.Client.{Me, text_message}
use aip_pkussm.Chat.Server.{Leftover, Process, registered, handle_msg, clithread, parse_next}
use aip_pkussm.Chat.Server.Parse.{parse_msg-short}
use aip_pkussm.Chat.Server.Handling.{text_queued}
use aip_pkussm.Chat.Session.{IsUser, text-IsSendable}

-- A text and the id that it is for.
pub record Text : Type 0 where
  pub id : ℕ
  pub content : CString

-- The texts, each of 1 to 511 bytes and for an id other than 0, of which the table has a
-- connection.
abbrev pub AreFor : List User → List Text → Type 0
AreFor users [] = Unit
AreFor users (t ∷ texts) =
    (0 < length t.content)
    × (length t.content < 512)
    × (t.id < 2 ^ 32)
    × (t.id ≢ 0)
    × (fd_of users t.id ≢ none)
    × AreFor users texts

module _ (w : Layout) (me : Me) where
  abbrev pub bytes_of : Text → List ℕ
  bytes_of t = w.bytes (text_message me t.id t.content) ++ t.content

  -- What the client sends for the texts.
  abbrev pub all_bytes : List Text → List ℕ
  all_bytes [] = []
  all_bytes (t ∷ texts) = bytes_of t ++ all_bytes texts

  -- One send for each text, to the connection that the table has for its id.
  unfoldable pub sends_for : List User → List Text → List Send
  sends_for users [] = []
  sends_for users (t ∷ texts) =
      let rest = sends_for users texts in
      elim (fd_of users t.id) [
        | none ↦ rest
        | some fd ↦ record { connfd = fd; buff = bytes_of t } ∷ rest
      ]
