-- ===== src/Transfer.antt =====
-- The block transfer that A3/Handlers.cc, A3/FileClient.cc, A5/Chatroom/src/Handlers.cc,
-- A5/Chatroom/src/Client.cc and A5/Chatroom/src/Server.cc write out each: full blocks of
-- SOCKETIO_BUFFER_SIZE bytes at `buff + i * SOCKETIO_BUFFER_SIZE`, then the remaining bytes at
-- `buff + (i - 1) * SOCKETIO_BUFFER_SIZE`. The proofs are in the modules below.
pub mod Send
pub mod Recv
pub mod Received
pub mod Pieces
pub mod Safety
mod Tests
use aip_pkussm.Prelude.{
  ℕ, zero, suc, ◌+◌, ◌*◌, Option, none, some, List, [], ◌++◌, map, length, take, drop, replicate,
  leb, ◌==◌, if◌then◌else◌, ℤ, pos, negsuc, rounds, div_int, rem_int, to_size,
}
use aip_pkussm.Net.{Socket, Exec, pure, access, send, recv, ◌>>=◌, ◌>>◌}

abbrev pub block : ℕ
block = 512

-- Memory from `malloc`: a cell is `none` until something is written to it.
abbrev pub Buffer : Type 0
Buffer = List (Option ℕ)

-- `malloc` of a negative size is a request for nearly 2 ^ 64 bytes, which returns NULL: a buffer
-- with no cell that may be written.
abbrev pub malloc : ℤ → Buffer
malloc (pos n) = replicate n none
malloc (negsuc n) = []

-- The `n` bytes from `off` on, if all of them lie in the buffer.
abbrev pub slice {ℓ} : {A : Type ℓ} → List A → ℕ → ℕ → Option (List A)
slice xs off n = if leb (off + n) (length xs) then some (take n (drop off xs)) else none

-- The buffer after `bytes` were written from `off` on, if all of them lie in it.
abbrev pub store : Buffer → ℕ → List ℕ → Option Buffer
store buff off bytes =
    if leb (off + length bytes) (length buff)
    then some (take off buff ++ (map some bytes ++ drop (off + length bytes) buff))
    else none

-- An access of no bytes touches nothing, also at `buff - SOCKETIO_BUFFER_SIZE`.
abbrev pub slice_last {ℓ} : {A : Type ℓ} → List A → ℕ → ℕ → Option (List A)
slice_last xs zero n = if n == 0 then some [] else none
slice_last xs (suc j) n = slice xs (j * block) n

abbrev pub store_last : Buffer → ℕ → List ℕ → Option Buffer
store_last buff zero bytes = if length bytes == 0 then some buff else none
store_last buff (suc j) bytes = store buff (j * block) bytes

module _ (k : Socket) where
  -- `for (; i < rem_num; i++)` of the senders, with the rounds that are left.
  unfoldable pub send_blocks : List ℕ → ℕ → ℕ → Exec k.State ℕ
  send_blocks buff i zero = pure i
  send_blocks buff i (suc left) = do
    bytes ← access (slice buff (i * block) block)
    send k bytes
    send_blocks buff (i + 1) left

  unfoldable pub send_data : List ℕ → ℤ → Exec k.State (Unit {0})
  send_data buff size = do
    i ← send_blocks buff 0 (rounds (div_int size block))
    bytes ← access (slice_last buff i (to_size (rem_int size block)))
    send k bytes

  -- `for (; i < rem_num; i++)` of the receivers.
  unfoldable pub recv_blocks : Buffer → ℕ → ℕ → Exec k.State (Buffer × ℕ)
  recv_blocks buff i zero = pure (buff, i)
  recv_blocks buff i (suc left) = do
    bytes ← recv k block
    next ← access (store buff (i * block) bytes)
    recv_blocks next (i + 1) left

  -- The blocks and the rest, where the rest has `rem_bytes` bytes.
  unfoldable pub recv_rest : Buffer → ℕ → ℕ → Exec k.State Buffer
  recv_rest buff i rem_bytes = do bytes ← recv k rem_bytes; access (store_last buff i bytes)

  unfoldable pub recv_data : ℤ → Exec k.State Buffer
  recv_data size = do
    (buff, i) ← recv_blocks (malloc size) 0 (rounds (div_int size block))
    recv_rest buff i (to_size (rem_int size block))
