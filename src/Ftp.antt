-- ===== src/Ftp.antt =====
-- The file server and client of A3: the messages of A3/FileServer.h and A3/FileClient.h.
pub mod Handlers
pub mod Server
pub mod Client
pub mod Session
pub mod Crashes
pub mod Fetches
pub mod Main
mod Tests
use aip_pkussm.Prelude.{ℕ, ◌^◌, ◌<◌, ◌≡◌, List, length, CString, ℤ, pos, negsuc}

-- `enum Command`
pub data Command : Type 0 where
  put get ls cd error quit connect : Command

-- `struct Message`; `fname` is the string in the array `fname`.
pub record Message : Type 0 where
  pub command : Command
  pub fname : CString
  pub data_size : ℤ

abbrev pub IsInt : ℤ → Type 0
IsInt (pos n) = n < 2 ^ 31
IsInt (negsuc n) = n < 2 ^ 31

-- What fits the struct: the name with its NUL, and an `int`.
abbrev pub IsSendable : Message → Type 0
IsSendable m = (length m.fname < 32) × IsInt m.data_size

-- How the compiler lays the struct out: `MESSAGE_LEN`, the bytes that `send` takes from a message,
-- and the message that a receiver reads out of the bytes that `recv` has left.
pub record Layout : Type 0 where
  pub message_len : ℕ
  pub bytes : Message → List ℕ
  pub parse : List ℕ → Message
  pub nonempty : 0 < message_len
  pub length-bytes : (m : Message) → length (bytes m) ≡ message_len
  pub parse-bytes : (m : Message) → IsSendable m → parse (bytes m) ≡ m
