-- ===== src/Chat/Server/Handling.antt =====
-- What the server does with each kind of message.
use aip_pkussm.Prelude.{
  true, ℕ, ◌≡◌, ◌≢◌, refl, some, List, ◌++◌, length, take-length, ℤ, pos, arith, map,
}
use aip_pkussm.Net.{Socket, ok, fault}
use aip_pkussm.Host.{Disk}
use aip_pkussm.Chat.{Message, Layout, block, put, get, conn, sendmsg}
use aip_pkussm.Chat.Users.{Cmsg}
use aip_pkussm.Chat.Pipe.{put_bytes, put_message}
use aip_pkussm.Chat.Server.{Leftover, Process, registered, handle_msg, sendmsg_handle, store_put}

module _ (k : Socket) (d : Disk) (w : Layout) (c : Cmsg) (left : Leftover) (connfd : ℤ) where
  -- A message with a command other than GET, PUT, CONN and SENDMSG makes the server call a null
  -- pointer.
  unregistered_crash :
      (m : Message) (p : Process k d)
      → m.command ≢ get
      → m.command ≢ put
      → m.command ≢ conn
      → m.command ≢ sendmsg
      → handle_msg k d w c left registered connfd m p ≡ fault
  unfolding handle_msg registered
  unregistered_crash m p a b e f = ground arith

  -- PUT of a message whose data has the size that it says creates the file and writes the data.
  pub put_writes :
      (m : Message) (data_bytes : List ℕ) (p : Process k d) (files : d.Files)
      → m.command ≡ put
      → m.data_size ≡ pos (length data_bytes)
      → m.data_ptr ≡ block data_bytes
      → d.create p.host.files m.fname ≡ some files
      → handle_msg k d w c left registered connfd m p
        ≡ ok (pos 0) (record p {
          host = record { link = p.host.link; files = d.write files m.fname (map some data_bytes) };
        })
  unfolding handle_msg registered store_put
  put_writes m data_bytes p files a b e f =
      ground (arith, take-length (length data_bytes) data_bytes refl)

  -- A text goes into the pipe behind what is there, as the bytes of its struct and its data.
  pub text_queued :
      (m : Message) (text : List ℕ) (p : Process k d)
      → m.command ≡ sendmsg
      → m.data_size ≡ pos (length text)
      → m.data_ptr ≡ block text
      → p.reader ≡ true
      → handle_msg k d w c left registered connfd m p
        ≡ ok (pos 0) (record p { fifo = p.fifo ++ (w.bytes m ++ text) })
  unfolding handle_msg registered sendmsg_handle put_message put_bytes
  text_queued m text p a b e o = ground (arith, take-length (length text) text refl)
