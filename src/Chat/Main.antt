-- ===== src/Chat/Main.antt =====
-- `listen` and `main` of A5/Chatroom/src/Server.cc.
mod Tests
use aip_pkussm.Prelude.{
  ℕ, ◌≡◌, refl, ◌∙◌, ap, Bool, true, Option, none, some, List, [], ◌∷◌, ◌++◌, append-nil, CString,
  codes, ℤ, pos, arith, if◌then◌else◌,
}
use aip_pkussm.Listener
use aip_pkussm.Listener.{Accept, Ending, waiting, exited, Setup, accept_loop, port_of_args}
use aip_pkussm.Listener.Rounds.{
  ArePlain, AllGoOn, connections, port_of_args-first, accept_loop-append,
}

-- The text of `listen` is that of A3.
abbrev pub listen : Setup → List (Accept × Bool) → List ℕ × Ending
listen up rounds = Listener.listen up rounds

-- `created` says whether the thread of `loop_dispatch` could be made.
unfoldable pub main :
    (CString → ℤ)
    → Bool
    → (ℤ → Setup)
    → List CString
    → List (Accept × Bool)
    → Option (List ℕ × Ending)
main atoi created up args rounds = elim (port_of_args atoi args (pos 0)) [
  | none ↦ none
  | some port ↦ some (if created then listen (up port) rounds else ([], exited))
]

abbrev pub all_good : Setup
all_good = record { socket = true; bind = true; getsockname = true; listen = true }

-- A server that is started with one "-p" and a number at the end of its arguments, where the
-- dispatcher's thread can be made and the set-up of the socket succeeds for that port, gives each
-- connection a thread, in order, and waits for another one, as long as each connection gets its
-- thread and `accept` is at most interrupted.
pub main-serves :
    (atoi : CString → ℤ) (up : ℤ → Setup) (args : List CString) (value : CString)
    (rounds : List (Accept × Bool))
    → ArePlain args
    → up (atoi value) ≡ all_good
    → AllGoOn rounds
    → main atoi true up (args ++ (codes "-p" ∷ value ∷ [])) rounds
      ≡ some (connections rounds, waiting)
unfolding main port_of_args accept_loop Listener.listen
main-serves atoi up args value rounds plain good go =
    let port = port_of_args-first atoi args value [] (pos 0) plain in
    let all = accept_loop-append rounds [] go in
    ground (arith, port, good, all, append-nil rounds, append-nil (connections rounds))
