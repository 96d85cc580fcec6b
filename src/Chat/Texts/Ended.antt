-- ===== src/Chat/Texts/Ended.antt =====
-- The end of the server's thread for a client.
use aip_pkussm.Prelude.{ℕ, ◌≡◌, refl, some, false, [], ℤ, arith}
use aip_pkussm.Net.{Socket, ok, Feeds}
use aip_pkussm.Host.{Disk}
use aip_pkussm.Chat.{Layout}
use aip_pkussm.Chat.Users.{Cmsg}
use aip_pkussm.Chat.Header.{recv_header}
use aip_pkussm.Chat.Server.{Leftover, Process, registered, clithread, parse_msg}

module _ (k : Socket) (f : Feeds k) (d : Disk) (w : Layout) (c : Cmsg) (left : Leftover)
    (connfd : ℤ) where
  open f use {pending}

  -- At its end the connection closes the thread.
  pub thread_end :
      (p : Process k d)
      → pending p.host.link ≡ []
      → ((s : k.State) (n : ℕ) → pending s ≡ [] → (k.recv s n).0 ≡ some [])
      → (q : Process k d) × (clithread k d w c left registered connfd 1 p ≡ ok false q)
        × (q.fifo ≡ p.fifo)
        × (q.users ≡ p.users)
  unfolding clithread parse_msg recv_header
  thread_end p empty over = (
    record p {
      host = record { link = (k.recv p.host.link w.message_len).1; files = p.host.files };
    },
    ground (arith, over p.host.link w.message_len empty),
    refl,
    refl,
  )
