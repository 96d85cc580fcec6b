-- ===== src/Chat/Header.antt =====
-- Reading the struct of a message from a connection, as `parse_msg` of A5/Chatroom/src/Server.cc and
-- `comm_waitmsg` of Client.cc do it.
use aip_pkussm.Prelude.{ℕ, ◌<◌, ◌≡◌, none, some, List, [], ◌∷◌, ◌++◌, length, arith}
use aip_pkussm.Net.{Socket, ok, failed, Exec, Feeds, recv}
use aip_pkussm.Transfer.Recv.{recv-ok}
use aip_pkussm.Chat.{Message, Layout}

-- `number_bytes <= 0` is an error.
unfoldable pub recv_header : (k : Socket) → Layout → Exec k.State (List ℕ)
recv_header k w s =
    let (r, t) = k.recv s w.message_len in
    elim r [ none ↦ failed t | some [] ↦ failed t | some (b ∷ bytes) ↦ ok (b ∷ bytes) t ]

header_of_recv :
    (k : Socket) (w : Layout) (bytes : List ℕ) (s t : k.State)
    → recv k w.message_len s ≡ ok bytes t
    → 0 < length bytes
    → recv_header k w s ≡ ok bytes t
unfolding recv_header recv
header_of_recv k w [] s t e h = elim h [ ]
header_of_recv k w (b ∷ bytes) s t e h = ground arith

module _ (k : Socket) (f : Feeds k) (w : Layout) where
  open f use {pending}

  pub recv_header-ok :
      (m : Message) (rest : List ℕ) (s : k.State)
      → pending s ≡ w.bytes m ++ rest
      → (recv_header k w s ≡ ok (w.bytes m) (k.recv s w.message_len).1)
        × (pending (k.recv s w.message_len).1 ≡ rest)
  recv_header-ok m rest s p =
      let (got, later) = recv-ok k f w.message_len s (w.bytes m) rest p (w.length-bytes m) in
      (header_of_recv k w (w.bytes m) s _ got (omega (arith, w.length-bytes m, w.nonempty)), later)
