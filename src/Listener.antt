-- ===== src/Listener.antt =====
-- `main` and `listen` of A3/FileServer.cc, which A5/Chatroom/src/Server.cc repeats: the arguments,
-- the set-up of the listening socket, and the loop that gives each connection a thread.
pub mod Rounds
use aip_pkussm.Prelude.{
  ℕ, Bool, true, false, Option, none, some, List, [], ◌∷◌, CString, codes, str_eq, ◌&&◌,
  if◌then◌else◌, ℤ,
}

-- The loop over `argv` from index 1 on, with `atoi` of the C library. `argv[argc]` is NULL, which
-- `atoi` may not be given: `none`.
unfoldable pub port_of_args : (CString → ℤ) → List CString → ℤ → Option ℤ
port_of_args atoi [] port = some port
port_of_args atoi (arg ∷ []) port = if str_eq (codes "-p") arg then none else some port
port_of_args atoi (arg ∷ value ∷ rest) port = elim (str_eq (codes "-p") arg) [
  | true ↦ port_of_args atoi rest (atoi value)
  | false ↦ port_of_args atoi (value ∷ rest) port
]

-- What `accept` returns.
pub data Accept : Type 0 where
  connected : (connfd : ℕ) → Accept
  interrupted : Accept  -- -1 with `errno == EINTR`
  broken : Accept  -- -1 with another `errno`

-- How `listen` has ended, if it has.
pub data Ending : Type 0 where
  waiting exited returned : Ending

-- The loop of `listen`, with what `accept` and `pthread_create` (true for success) do in each
-- round: the connections that got a thread, and the ending.
unfoldable pub accept_loop : List (Accept × Bool) → List ℕ × Ending
accept_loop [] = ([], waiting)
accept_loop ((connected connfd, created) ∷ rounds) =
    let (fds, end) = accept_loop rounds in if created then (connfd ∷ fds, end) else ([], returned)
accept_loop ((interrupted, created) ∷ rounds) = accept_loop rounds
accept_loop ((broken, created) ∷ rounds) = ([], exited)

-- Whether each call of the set-up succeeds.
pub record Setup : Type 0 where
  pub socket : Bool
  pub bind : Bool
  pub getsockname : Bool
  pub listen : Bool

unfoldable pub listen : Setup → List (Accept × Bool) → List ℕ × Ending
unfolding accept_loop
listen up rounds =
    if up.socket && up.bind && up.getsockname && up.listen then accept_loop rounds else ([], exited)
