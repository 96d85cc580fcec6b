-- ===== src/Chat.antt =====
-- The chatroom of A5: the messages of A5/Chatroom/include/Message.h and Command.h.
pub mod Header
pub mod Client
pub mod Console
pub mod Server
pub mod Users
pub mod Poll
pub mod Pipe
pub mod Dispatch
pub mod Session
pub mod Texts
pub mod Room
pub mod Heard
pub mod Stored
pub mod Main
mod Tests
use aip_pkussm.Prelude.{
  ℕ, ◌^◌, ◌<◌, ◌≤◌, ◌≡◌, Option, none, some, List, [], length, take, CString, ℤ, pos, negsuc, ◌==◌,
  leb, if◌then◌else◌,
}

-- `enum Command`
pub data Command : Type 0 where
  put get ls cd error quit conn waitmsg sendmsg : Command

-- A `char*`: NULL, the bytes of an allocated block, or the address of another process.
pub data Ptr : Type 0 where
  null : Ptr
  block : List ℕ → Ptr
  wild : Ptr

-- `struct Message`; `fname` is the string in the array `fname`.
pub record Message : Type 0 where
  pub command : Command
  pub fname : CString
  pub data_size : ℤ
  pub data_ptr : Ptr
  pub from : ℕ  -- unsigned int
  pub to : ℕ  -- unsigned int

abbrev pub IsInt : ℤ → Type 0
IsInt (pos n) = n < 2 ^ 31
IsInt (negsuc n) = n < 2 ^ 31

-- What fits the struct.
pub record IsSendable (m : Message) : Type 0 where
  pub name_fits : length m.fname < 32
  pub size_fits : IsInt m.data_size
  pub from_fits : m.from < 2 ^ 32
  pub to_fits : m.to < 2 ^ 32

-- A pointer that was copied as bytes means nothing to the reader of the bytes.
abbrev pub carried : Ptr → Ptr
carried null = null
carried (block _) = wild
carried wild = wild

-- How the compiler lays the struct out: `MESSAGE_LEN`, the bytes of a message, and the message
-- that stands in given bytes.
pub record Layout : Type 0 where
  pub message_len : ℕ
  pub bytes : Message → List ℕ
  pub parse : List ℕ → Message
  pub nonempty : 0 < message_len
  pub length-bytes : (m : Message) → length (bytes m) ≡ message_len
  pub parse-bytes :
      (m : Message) → IsSendable m → parse (bytes m) ≡ record m { data_ptr = carried m.data_ptr }

-- `memcpy` of `n` bytes from a pointer, with `none` for a read outside of a block.
abbrev pub copy_from : Ptr → ℕ → Option (List ℕ)
copy_from null n = if n == 0 then some [] else none
copy_from wild n = if n == 0 then some [] else none
copy_from (block b) n = if leb n (length b) then some (take n b) else none
