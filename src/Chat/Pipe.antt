-- ===== src/Chat/Pipe.antt =====
-- A5/Chatroom/src/MessagePipe.cc: messages through a FIFO. Here are the bytes that go through it;
-- its lock is in the module below.
pub mod Bytes
pub mod Queue
pub mod Lock
use aip_pkussm.Prelude.{
  ℕ, ◌+◌, Bool, true, false, Option, none, some, List, [], ◌++◌, length, take, drop, leb,
  if◌then◌else◌, to_size,
}
use aip_pkussm.Chat.{Message, Layout, block, copy_from}

module _ (w : Layout) where
  -- The bytes that `putMessage` writes: the struct, then the body.
  unfoldable pub put_bytes : Message → Option (List ℕ)
  put_bytes msg = elim (copy_from msg.data_ptr (to_size msg.data_size)) [
    | none ↦ none
    | some body ↦ some (w.bytes msg ++ body)
  ]

  -- `write`, where `reader` says whether the reader has the FIFO open: without one the write ends the
  -- process by SIGPIPE, `none`. `open` waits for a reader, but it may be gone at the write.
  abbrev pub write_fifo : Bool → List ℕ → List ℕ → Option (List ℕ)
  write_fifo reader bytes fifo = if reader then some (fifo ++ bytes) else none

  -- `close`, where `held` says whether another thread has the FIFO open: what is left in it is
  -- discarded when no one has.
  abbrev pub close_fifo : Bool → List ℕ → List ℕ
  close_fifo held fifo = if held then fifo else []

  -- `putMessage`: the bytes go behind those that are there, and stay there when the writer closes the
  -- FIFO, as the reader still has it open.
  unfoldable pub put_message : Bool → Message → List ℕ → Option (List ℕ)
  unfolding put_bytes
  put_message reader msg fifo = elim (put_bytes msg) [
    | none ↦ none
    | some bytes ↦ elim (write_fifo reader bytes fifo) [
      | none ↦ none
      | some written ↦ some (close_fifo reader written)
    ]
  ]

  -- The two calls of `read`, once the FIFO has been opened and locked: the message and what is left,
  -- or `none` where the FIFO holds less than is asked for.
  unfoldable pub read_message : List ℕ → Option (Message × List ℕ)
  read_message fifo =
      let msg = w.parse (take w.message_len fifo) in
      let size = to_size msg.data_size in
      let rest = drop w.message_len fifo in
      if leb (w.message_len + size) (length fifo)
      then some (record msg { data_ptr = block (take size rest) }, drop size rest)
      else none

  -- `getMessage`: `held` says whether a thread that puts has the FIFO open when it is closed here.
  unfoldable pub get_message : Bool → List ℕ → Option (Message × List ℕ)
  unfolding read_message
  get_message held fifo = elim (read_message fifo) [
    | none ↦ none
    | some (msg, rest) ↦ some (msg, close_fifo held rest)
  ]
