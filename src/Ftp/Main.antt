-- ===== src/Ftp/Main.antt =====
-- `main` of A3/FileServer.cc.
use aip_pkussm.Prelude.{ℕ, Bool, Option, none, some, List, CString, ℤ, pos}
use aip_pkussm.Listener.{Accept, Ending, Setup, port_of_args, listen}

-- `up` says how the set-up of the socket goes for a port; `none` where `atoi` is given NULL.
unfoldable pub main :
    (CString → ℤ) → (ℤ → Setup) → List CString → List (Accept × Bool) → Option (List ℕ × Ending)
main atoi up args rounds = elim (port_of_args atoi args (pos 0)) [
  | none ↦ none
  | some port ↦ some (listen (up port) rounds)
]
